-- ===== src/Auth/Lines.antt =====
-- The header lines of a canonical request, of app/security/sigv4.py: what they tell of the headers.
use hidden.Base.{
  ℕ, ◌≡◌, refl, sym, ◌∙◌, false, Option, none, some, List, [], ◌∷◌, Text, codes, ◌==◌, nat_eq,
  list_eq, All, All-append, IsFree, arith, Bool-cases, inl, inr, subst, ap₂,
}
use hidden.Errors.{Result, ok, ok-injective, bind-ok, ◌>>=◌, raise, access_denied}
use hidden.Xml.Literals.{is_space, strip}
use hidden.Auth.{Library, Request}
use hidden.Auth.Canonical.{
  word_first, word_rest, nonempty, words, canonicalize_header_value, header_line, header_lines,
}
use hidden.Auth.Joined.{append-at_separator, join-IsFree}

abbrev pub newline : ℕ
newline = b'\n'

-- What HTTP grants: no method, and no name of a header that is there, has a newline, and no such name
-- has a colon.
abbrev pub IsHttp : Library → Request → Type 0
IsHttp lib request =
    IsFree newline (lib.upper request.method)
    × ((name value : Text)
        → request.header name ≡ ok (some value)
        → IsFree newline name × IsFree b':' name)

-- Both requests have the header, with the same value once runs of whitespace are one space.
abbrev pub HasSame : Request → Request → Text → Type 0
HasSame r q name =
    (v : Text) × (w : Text) × (r.header name ≡ ok (some v))
    × (q.header name ≡ ok (some w))
    × (canonicalize_header_value v ≡ canonicalize_header_value w)

-- No whitespace is in a word.
word_first-IsFree : (s : Text) → IsFree newline (word_first s)
unfolding word_first is_space
word_first-IsFree [] = tt
word_first-IsFree (c ∷ s) = elim (Bool-cases (is_space c)) [
  | inl blank ↦ rw blank tt
  | inr black ↦ rw black ((ground arith), word_first-IsFree s)
]

word_rest-IsFree : (s : Text) → All (IsFree newline) (word_rest s)
unfolding word_rest
word_rest-IsFree [] = tt
word_rest-IsFree (c ∷ s) = elim (Bool-cases (is_space c)) [
  | inl blank ↦ rw blank (word_first-IsFree s, word_rest-IsFree s)
  | inr black ↦ rw black (word_rest-IsFree s)
]

nonempty-All {κ} : (P : Text → Type κ) (ss : List Text) → All P ss → All P (nonempty ss)
unfolding nonempty
nonempty-All P [] h = tt
nonempty-All P (s ∷ ss) h = elim (Bool-cases (s == [])) [
  | inl gone ↦ rw gone (nonempty-All P ss h.1)
  | inr kept ↦ rw kept (h.0, nonempty-All P ss h.1)
]

canonicalize_header_value-IsFree : (v : Text) → IsFree newline (canonicalize_header_value v)
unfolding canonicalize_header_value
canonicalize_header_value-IsFree v =
    join-IsFree newline (codes " ") (words (strip v)) (refl, tt)
      (nonempty-All (IsFree newline) (word_first (strip v) ∷ word_rest (strip v))
        (word_first-IsFree (strip v), word_rest-IsFree (strip v)))

-- The lines are those of the names, of headers that are there.
abbrev pub HasLines : Request → List Text → List Text → Type 0
HasLines request [] [] = Unit
HasLines request [] (l ∷ lines) = ⊥
HasLines request (n ∷ names) [] = ⊥
HasLines request (n ∷ names) (l ∷ lines) =
    ((v : Text) × (request.header n ≡ ok (some v)) × (l ≡ header_line n v))
    × HasLines request names lines

pub header_lines-HasLines :
    (request : Request) (names lines : List Text)
    → header_lines request names ≡ ok lines
    → HasLines request names lines
unfolding header_lines
header_lines-HasLines request [] lines e = subst (HasLines request []) (ok-injective e) tt
header_lines-HasLines request (n ∷ names) lines e =
    let (found, there, e') = bind-ok (request.header n) _ e in
    line (header_lines-HasLines request names) found there e'
  where
    line :
        ((rest : List Text) → header_lines request names ≡ ok rest → HasLines request names rest)
        → (found : Option Text) → request.header n ≡ ok found
        → (elim found as (λ _. Result (List Text)) [
          | none ↦ raise access_denied request.path
          | some value ↦ header_lines request names >>= λ lines. ok (header_line n value ∷ lines)
        ])
          ≡ ok lines
        → HasLines request (n ∷ names) lines
    line more none there e = absurd (ground arith)
    line more (some v) there e =
        let (rest, later, e') = bind-ok (header_lines request names) _ e in
        subst (HasLines request (n ∷ names)) (ok-injective e') ((v, there, refl), more rest later)

header_line-IsFree : (n v : Text) → IsFree newline n → IsFree newline (header_line n v)
header_line-IsFree n v h =
    All-append (λ c. (c == newline) ≡ false) n (b':' ∷ canonicalize_header_value v) h
      (refl, canonicalize_header_value-IsFree v)

module _ (lib : Library) (r : Request) (http : IsHttp lib r) where
  pub header_lines-IsFree :
      (names lines : List Text) → HasLines r names lines → All (IsFree newline) lines
  header_lines-IsFree [] [] h = tt
  header_lines-IsFree [] (l ∷ lines) h = absurd h
  header_lines-IsFree (n ∷ names) [] h = absurd h
  header_lines-IsFree (n ∷ names) (l ∷ lines) h =
      let (v, there, e) = h.0 in
      (
        subst (IsFree newline) (sym e) (header_line-IsFree n v (http.1 n v there).0),
        header_lines-IsFree names lines h.1,
      )

  pub names-IsFree : (names lines : List Text) → HasLines r names lines → All (IsFree newline) names
  names-IsFree [] [] h = tt
  names-IsFree [] (l ∷ lines) h = absurd h
  names-IsFree (n ∷ names) [] h = absurd h
  names-IsFree (n ∷ names) (l ∷ lines) h =
      let (v, there, e) = h.0 in ((http.1 n v there).0, names-IsFree names lines h.1)

module _ (lib : Library) (r q : Request) (http : IsHttp lib r) (http' : IsHttp lib q) where
  pub equal_headers :
      (names names' lines : List Text)
      → HasLines r names lines
      → HasLines q names' lines
      → (names ≡ names') × All (HasSame r q) names
  equal_headers [] [] [] h h' = (refl, tt)
  equal_headers [] [] (l ∷ lines) h h' = absurd h
  equal_headers [] (n' ∷ names') [] h h' = absurd h'
  equal_headers [] (n' ∷ names') (l ∷ lines) h h' = absurd h
  equal_headers (n ∷ names) [] [] h h' = absurd h
  equal_headers (n ∷ names) [] (l ∷ lines) h h' = absurd h'
  equal_headers (n ∷ names) (n' ∷ names') [] h h' = absurd h
  equal_headers (n ∷ names) (n' ∷ names') (l ∷ lines) h h' =
      let (v, there, e) = h.0 in
      let (w, there', e') = h'.0 in
      let (m, value) =
        append-at_separator b':' n n' _ _ (http.1 n v there).1 (http'.1 n' w there').1
          (sym e ∙ e') in
      let (ms, more) = equal_headers names names' lines h.1 h'.1 in
      (
        ap₂ (λ x xs. x ∷ xs) m ms,
        ((v, w, there, subst (λ x. q.header x ≡ ok (some w)) (sym m) there', value), more),
      )
