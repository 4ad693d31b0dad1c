-- ===== src/Auth/Ordered.antt =====
-- The order of a query's parameters, which the canonical query of app/security/sigv4.py does not keep.
use hidden.Base.{
  ◌≡◌, refl, sym, ap, ◌∙◌, Bool, true, false, ◌&&◌, ◌⊎◌, inl, inr, List, [], ◌∷◌, map, Text, codes,
  ◌==◌, ==_iff, nat_eq, list_eq, if◌then◌else◌, join, arith, Bool-cases, ap₂,
}
use mathlib.Core.List.{Permᴰ}
use hidden.Auth.{Library, Request, SigV4Auth, Source}
use hidden.Auth.Uri.{uri_encode}
use hidden.Auth.Canonical.{
  text_le, pair_le, insert, sorted, is_query, encode_pairs, query_item, canonical_query_string,
}

-- A Boolean total order.
abbrev IsOrder {ℓ} : {A : Type ℓ} → (A → A → Bool) → Type ℓ
IsOrder {A = A} le =
    ((x y : A) → (le x y ≡ true) ⊎ (le y x ≡ true))
    × ((x y : A) → le x y ≡ true → le y x ≡ true → x ≡ y)
    × ((x y z : A) → le x y ≡ true → le y z ≡ true → le x z ≡ true)

text_le_total : (s t : Text) → (text_le s t ≡ true) ⊎ (text_le t s ≡ true)
unfolding text_le
text_le_total [] t = inl refl
text_le_total (c ∷ s) [] = inr refl
text_le_total (c ∷ s) (d ∷ t) = ground (arith, text_le_total s t)

text_le_antisym : (s t : Text) → text_le s t ≡ true → text_le t s ≡ true → s ≡ t
unfolding text_le
text_le_antisym [] [] h h' = refl
text_le_antisym [] (d ∷ t) h h' = cc
text_le_antisym (c ∷ s) [] h h' = cc
text_le_antisym (c ∷ s) (d ∷ t) h h' = ground (arith, text_le_antisym s t)

text_le_trans : (s t u : Text) → text_le s t ≡ true → text_le t u ≡ true → text_le s u ≡ true
unfolding text_le
text_le_trans [] t u h h' = refl
text_le_trans (c ∷ s) [] u h h' = cc
text_le_trans (c ∷ s) (d ∷ t) [] h h' = cc
text_le_trans (c ∷ s) (d ∷ t) (e ∷ u) h h' = ground (arith, text_le_trans s t u)

pair_le-IsOrder : IsOrder pair_le
unfolding pair_le
pair_le-IsOrder = (
  λ (k, v) (l, w). ground (arith, text_le_total k l, text_le_total v w, ==_iff k l, ==_iff l k),
  λ (k, v) (l, w) h h'.
      ground (arith, text_le_antisym k l, text_le_antisym v w, ==_iff k l, ==_iff l k),
  λ (k, v) (l, w) (m, x) h h'. ground (
    arith,
    text_le_trans k l m,
    text_le_trans v w x,
    text_le_antisym k l,
    text_le_antisym l m,
    ==_iff k l,
    ==_iff l m,
    ==_iff k m,
  ),
)

module _ {ℓ} {A : Type ℓ} (le : A → A → Bool) (order : IsOrder le) where
  either_first :
      (a b : A) (r : List A)
      → (if le a b then a ∷ b ∷ r else b ∷ a ∷ r) ≡ (if le b a then b ∷ a ∷ r else a ∷ b ∷ r)
  either_first a b r = elim (Bool-cases (le a b)) [
    | inl ab ↦ elim (Bool-cases (le b a)) [
      | inl ba ↦ rw (ab, ba) (ap₂ (λ x y. x ∷ y ∷ r) (order.1 a b ab ba) (order.1 b a ba ab))
      | inr not_ba ↦ rw (ab, not_ba) refl
    ]
    | inr not_ab ↦ elim (order.0 a b) [
      | inl ab ↦ absurd (ground arith)
      | inr ba ↦ rw (not_ab, ba) refl
    ]
  ]

  -- What goes before `x` goes before what follows `x`.
  not_before : (a b x : A) → le a x ≡ true → le b x ≡ false → le b a ≡ false
  not_before a b x ax not_bx = elim (Bool-cases (le b a)) [
    | inl ba ↦ let bx = order.2 b a x ba ax in absurd (ground arith)
    | inr not_ba ↦ not_ba
  ]

  insert_comm : (a b : A) (l : List A) → insert le a (insert le b l) ≡ insert le b (insert le a l)
  unfolding insert
  insert_comm a b [] = either_first a b []
  insert_comm a b (x ∷ l) = elim (Bool-cases (le a x)) [
    | inl ax ↦ elim (Bool-cases (le b x)) [
      | inl bx ↦ rw (ax, bx) (rw (ax) (either_first a b (x ∷ l)))
      | inr not_bx ↦ rw (ax, not_bx) (rw (ax, not_before a b x ax not_bx) refl)
    ]
    | inr not_ax ↦ elim (Bool-cases (le b x)) [
      | inl bx ↦ rw (not_ax, bx) (rw (not_before b a x bx not_ax, not_ax) refl)
      | inr not_bx ↦ rw (not_ax, not_bx) (rw not_ax (ap (λ r. x ∷ r) (insert_comm a b l)))
    ]
  ]

-- One pair of the query put in its place among those that are in order.
abbrev add_pair : Source → Text × Text → List (Text × Text) → List (Text × Text)
add_pair source (k, v) done =
    if is_query source && k == codes "X-Amz-Signature"
    then done
    else insert pair_le (uri_encode true k, uri_encode true v) done

sorted-encode_pairs :
    (source : Source) (p : Text × Text) (ps : List (Text × Text))
    → sorted pair_le (encode_pairs source (p ∷ ps))
      ≡ add_pair source p (sorted pair_le (encode_pairs source ps))
unfolding sorted encode_pairs
sorted-encode_pairs source (k, v) ps =
    elim (Bool-cases (is_query source && k == codes "X-Amz-Signature")) [
      | inl left_out ↦ rw left_out refl
      | inr kept ↦ rw kept refl
    ]

add_pair_comm :
    (source : Source) (p q : Text × Text) (done : List (Text × Text))
    → add_pair source p (add_pair source q done) ≡ add_pair source q (add_pair source p done)
add_pair_comm source (k, v) (l, w) done =
    elim (Bool-cases (is_query source && k == codes "X-Amz-Signature")) [
      | inl left_out ↦ rw left_out refl
      | inr kept ↦ elim (Bool-cases (is_query source && l == codes "X-Amz-Signature")) [
        | inl left_out' ↦ rw (kept, left_out') refl
        | inr kept' ↦
            rw (kept, kept')
              (insert_comm pair_le pair_le-IsOrder (uri_encode true k, uri_encode true v)
                (uri_encode true l, uri_encode true w) done)
      ]
    ]

sorted-encode_pairs-Perm :
    (source : Source) {ps qs : List (Text × Text)}
    → Permᴰ ps qs
    → sorted pair_le (encode_pairs source ps) ≡ sorted pair_le (encode_pairs source qs)
sorted-encode_pairs-Perm source Permᴰ.nil = refl
sorted-encode_pairs-Perm source (Permᴰ.cons {a = p} {b = q} {l₁ = ps} {l₂ = qs} e h) =
    sorted-encode_pairs source p ps
    ∙ ap₂ (add_pair source) e (sorted-encode_pairs-Perm source h)
    ∙ sym (sorted-encode_pairs source q qs)
sorted-encode_pairs-Perm source (Permᴰ.swap {a = p} {b = q} {a' = p'} {b' = q'} {l = ps} e e') =
    sorted-encode_pairs source p (q ∷ ps)
    ∙ ap (add_pair source p) (sorted-encode_pairs source q ps)
    ∙ add_pair_comm source p q (sorted pair_le (encode_pairs source ps))
    ∙ ap₂ (λ x y. add_pair source x (add_pair source y (sorted pair_le (encode_pairs source ps))))
        e' e
    ∙ sym (ap (add_pair source p') (sorted-encode_pairs source q' ps))
    ∙ sym (sorted-encode_pairs source p' (q' ∷ ps))
sorted-encode_pairs-Perm source (Permᴰ.trans h h') =
    sorted-encode_pairs-Perm source h ∙ sorted-encode_pairs-Perm source h'

-- Two requests whose queries have the same pairs, each as often but in any order, have the same
-- canonical query.
pub canonical_query_string-Perm :
    (lib : Library) (r q : Request) (a : SigV4Auth)
    → Permᴰ (lib.parse_qsl r.query) (lib.parse_qsl q.query)
    → canonical_query_string lib r a ≡ canonical_query_string lib q a
unfolding canonical_query_string
canonical_query_string-Perm lib r q a h =
    ap (λ ps. join (codes "&") (map query_item ps)) (sorted-encode_pairs-Perm a.source h)
