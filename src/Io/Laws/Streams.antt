-- ===== src/Io/Laws/Streams.antt =====
-- `_atomic_write_stream`: the destination gets all the bytes, or nothing that is watched changes.
use hidden.Base.{
  ℕ, ◌≡◌, refl, sym, ap, subst, ◌∙◌, inl, inr, true, false, ◌||◌, Option, none, some, [], ◌∷◌, ◌++◌,
  append_assoc, append-nil, Text, codes, ◌==◌, ==_iff, ==_refl, nat_eq, list_eq, ends_with,
  starts_with, All, arith, Bool-cases,
}
use hidden.Errors.{ok, err}
use hidden.Paths.Posix.{path_join, slash, basename}
use hidden.Files.{Disk, payload, write_file, parent_dir}
use hidden.Files.Laws.{payload-write_file}
use hidden.World.{World, Flags, syscall}
use hidden.World.Triple.{Triple, after, weaken, from}
use hidden.Io.{Stream, build_temp_path, append_file, bytes_or_none, write_chunks}
use hidden.Io.Laws.{
  Tables, Watched, Stands, AllAvoid, At, set-apart, IsApart, Changed, Changed-Stands,
}
use hidden.Io.Laws.Calls.{With, plain, syscall_with}

-- The bytes that a stream gives, if it ends without an exception.
abbrev pub prepend : Text → Option Text → Option Text
prepend c none = none
prepend c (some s) = some (c ++ s)

abbrev pub joined : Stream → Option Text
joined [] = some []
joined (err e ∷ rest) = none
joined (ok c ∷ rest) = prepend c (joined rest)

ends_with-append : (p s : Text) → ends_with p (s ++ p) ≡ true
unfolding ends_with
ends_with-append [] [] = refl
ends_with-append (c ∷ p) [] = ground (arith, ==_refl (c ∷ p))
ends_with-append p (c ∷ s) = ground (arith, ends_with-append p s)

pub ends_with-suffix : (t s p : Text) → ends_with (t ++ s) p ≡ true → ends_with s p ≡ true
unfolding ends_with
ends_with-suffix t s [] h = ground (arith, h, ends_with-append s t, ==_iff (t ++ s) [])
ends_with-suffix t s (c ∷ p) h =
    ground (arith, h, ends_with-append s t, ==_iff (t ++ s) (c ∷ p), ends_with-suffix t s p)

ends_with-longer : (p s t : Text) → ends_with p t ≡ true → ends_with p (s ++ t) ≡ true
unfolding ends_with
ends_with-longer p [] t h = h
ends_with-longer p (c ∷ s) t h = ground (arith, ends_with-longer p s t h)

ends_with-path_join :
    (p a b : Text)
    → starts_with slash b ≡ false
    → ends_with p b ≡ true
    → ends_with p (path_join a b) ≡ true
unfolding path_join ends_with
ends_with-path_join p a b relative h = elim (Bool-cases (a == [] || ends_with slash a)) [
  | inl plain_ ↦ rw (relative, plain_) (ends_with-longer p a b h)
  | inr parted ↦
      rw (relative, parted) (ends_with-longer p a (slash ++ b) (ends_with-longer p slash b h))
]

ends_with-temp : (d t : Text) → ends_with (t ++ codes ".tmp") (build_temp_path d t) ≡ true
unfolding build_temp_path starts_with
ends_with-temp d t = ends_with-path_join (t ++ codes ".tmp") (parent_dir d) _ refl (
    ends_with-longer (t ++ codes ".tmp") (codes ".") _ (
      ends_with-longer (t ++ codes ".tmp") (basename d) _
        (ends_with-append (t ++ codes ".tmp") (codes "."))))

apart_path :
    (t d q : Text) → ends_with (t ++ codes ".tmp") q ≡ false → (build_temp_path d t == q) ≡ false
apart_path t d q avoid = elim (Bool-cases (build_temp_path d t == q)) [
  | inl same ↦
      absurd (ground (arith, avoid, ends_with-temp d t, (==_iff (build_temp_path d t) q).0 same))
  | inr apart ↦ apart
]

pub IsApart-build_temp_path :
    (tokens : ℕ → Text) (d : Text) (l : Watched)
    → AllAvoid tokens l
    → IsApart (build_temp_path d (tokens 0)) l
IsApart-build_temp_path tokens d [] h = tt
IsApart-build_temp_path tokens d ((q, s) ∷ l) h =
    (apart_path (tokens 0) d q (h.0 0), IsApart-build_temp_path tokens d l h.1)

-- What the temporary file holds.
abbrev pub Holds : Text → Text → Disk → Type 0
Holds p s d = payload p d ≡ some s

payload-append_file :
    (p s chunk : Text) (d d' : Disk)
    → payload p d ≡ some s
    → append_file p chunk d ≡ ok d'
    → Changed p (some (s ++ chunk)) d d'
unfolding append_file
payload-append_file p s chunk d d' x e q =
    payload-write_file p q (s ++ chunk) d d'
      (ap (λ o. write_file p (bytes_or_none o ++ chunk) d) (sym x) ∙ e)

same_files :
    (l : Watched) (p : Text)
    → IsApart p l
    → (s : Option Text) (d d' : Disk) → Changed p s d d'
    → All (Stands d) l
    → All (Stands d') l
same_files l p apart s d d' change h =
    subst (All (Stands d')) (set-apart p s l apart) (Changed-Stands p s l d d' change h)

-- All chunks of a stream without an exception are written.
abbrev pub Filled : Tables → Flags → Watched → Text → Text → Stream → World → Type 0
Filled c f l p s chunks w = (t : Text) × (joined chunks ≡ some t) × With c f l (Holds p (s ++ t)) w

module _ {c : Tables} {f : Flags} {l : Watched} (p : Text) (apart : IsApart p l) where
  pub opened :
      Triple (At c f l) (syscall (write_file p [])) (λ _. With c f l (Holds p [])) (At c f l)
  opened = from plain (
      syscall_with (write_file p []) (λ _. Unit {0}) (Holds p []) l (λ tokens h. h)
        (λ d d' h x e. (
          same_files l p apart (some []) d d' (λ q. payload-write_file p q [] d d' e) h,
          payload-write_file p p [] d d' e ∙ rw (==_refl p) refl,
        )))

  appended :
      (s chunk : Text)
      → Triple
          (With c f l (Holds p s))
          (syscall (append_file p chunk))
          (λ _. With c f l (Holds p (s ++ chunk)))
          (At c f l)
  appended s chunk =
      syscall_with (append_file p chunk) (Holds p s) (Holds p (s ++ chunk)) l (λ tokens h. h)
        (λ d d' h x e. (
          same_files l p apart (some (s ++ chunk)) d d' (payload-append_file p s chunk d d' x e) h,
          payload-append_file p s chunk d d' x e p ∙ rw (==_refl p) refl,
        ))

  pub write_chunks_lem :
      (s : Text) (chunks : Stream)
      → Triple
          (With c f l (Holds p s))
          (write_chunks p chunks)
          (λ _. Filled c f l p s chunks)
          (At c f l)
  write_chunks_lem s [] = record {
    run = λ w h. ([], refl, subst (λ t. With c f l (Holds p t) w) (sym (append-nil s)) h);
  }
  write_chunks_lem s (err e ∷ rest) = record { run = λ w h. h.state }
  write_chunks_lem s (ok chunk ∷ rest) = after (appended s chunk) λ _.
      weaken (write_chunks_lem (s ++ chunk) rest)
        (λ _ w (t, whole, h). (
          chunk ++ t,
          ap (prepend chunk) whole,
          subst (λ x. With c f l (Holds p x) w) (append_assoc s chunk t) h,
        ))
        (λ w h. h)
