-- ===== src/Auth/Queries.antt =====
-- The query of a canonical request, of app/security/sigv4.py: what it tells of the pairs.
use hidden.Base.{
  ℕ, ◌≡◌, ◌≢◌, refl, sym, ◌∙◌, true, false, List, [], ◌∷◌, ◌++◌, map, Text, codes, ◌==◌, nat_eq,
  list_eq, All, All-append, All-imp, IsFree, join, arith, Bool-cases, inl, inr, ap₂, ◌&&◌,
  join-cons,
}
use mathlib.Core.List.{cons-ne-nil}
use hidden.Auth.{Source}
use hidden.Auth.Uri.{is_unreserved, is_encoded, uri_encode, uri_encode-IsFree}
use hidden.Auth.Canonical.{is_query, encode_pairs, query_item}
use hidden.Auth.Joined.{join-injective, append-at_separator}

-- A pair in its encoded form: its item has no ampersand, and its key no equals sign.
abbrev pub IsItem : Text × Text → Type 0
IsItem (k, v) = (IsFree b'\n' k × IsFree b'\n' v) × (IsFree b'&' k × IsFree b'&' v) × IsFree b'=' k

pub encode_pairs-IsItem :
    (source : Source) (pairs : List (Text × Text)) → All IsItem (encode_pairs source pairs)
unfolding encode_pairs is_unreserved
encode_pairs-IsItem source [] = tt
encode_pairs-IsItem source ((k, v) ∷ pairs) =
    elim (Bool-cases (is_query source && k == codes "X-Amz-Signature")) [
      | inl left_out ↦ rw left_out (encode_pairs-IsItem source pairs)
      | inr kept ↦ rw kept (
        (
          (free b'\n' refl k, free b'\n' refl v),
          (free b'&' refl k, free b'&' refl v),
          free b'=' refl k,
        ),
        encode_pairs-IsItem source pairs,
      )
    ]
  where
    free : (sep : ℕ) → (is_encoded sep) ≡ false → (s : Text) → IsFree sep (uri_encode true s)
    free sep h s = uri_encode-IsFree true s sep h

query_item-IsFree :
    (sep : ℕ) (p : Text × Text)
    → IsFree sep p.0
    → IsFree sep p.1
    → (b'=' == sep) ≡ false
    → IsFree sep (query_item p)
query_item-IsFree sep p hk hv h = All-append (λ c. (c == sep) ≡ false) p.0 (b'=' ∷ p.1) hk (h, hv)

pub items-All :
    (sep : ℕ)
    → (b'=' == sep) ≡ false
    → (pairs : List (Text × Text)) → All (λ p. IsFree sep p.0 × IsFree sep p.1) pairs
    → All (IsFree sep) (map query_item pairs)
items-All sep h [] hs = tt
items-All sep h (p ∷ pairs) hs =
    (query_item-IsFree sep p hs.0.0 hs.0.1 h, items-All sep h pairs hs.1)

pub List-injective : {A : Type 0} {x y : A} {xs ys : List A} → x ∷ xs ≡ y ∷ ys → (x ≡ y) × (xs ≡ ys)
List-injective e = ground arith

items-injective :
    (ps qs : List (Text × Text))
    → All IsItem ps
    → All IsItem qs
    → map query_item ps ≡ map query_item qs
    → ps ≡ qs
items-injective [] [] h h' e = refl
items-injective [] (q ∷ qs) h h' e = cc
items-injective (p ∷ ps) [] h h' e = cc
items-injective ((k, v) ∷ ps) ((l, w) ∷ qs) h h' e =
    let (first, rest) = List-injective e in
    let (keys, values) = append-at_separator b'=' k l v w h.0.2 h'.0.2 first in
    ap₂ (λ x xs. x ∷ xs) (ap₂ (λ x y. (x, y)) keys values) (items-injective ps qs h.1 h'.1 rest)

nothing-joined :
    (k v : Text) (ps : List (Text × Text)) → join (codes "&") (map query_item ((k, v) ∷ ps)) ≢ []
nothing-joined [] v ps e =
    cons-ne-nil _ _ (sym (join-cons (codes "&") b'=' v (map query_item ps)) ∙ e)
nothing-joined (c ∷ k) v ps e =
    cons-ne-nil _ _ (sym (join-cons (codes "&") c (k ++ b'=' ∷ v) (map query_item ps)) ∙ e)

-- A joined query gives its pairs back.
pub query-injective :
    (ps qs : List (Text × Text))
    → All IsItem ps
    → All IsItem qs
    → join (codes "&") (map query_item ps) ≡ join (codes "&") (map query_item qs)
    → ps ≡ qs
query-injective [] [] h h' e = refl
query-injective [] ((l, w) ∷ qs) h h' e = absurd (nothing-joined l w qs (sym e))
query-injective ((k, v) ∷ ps) [] h h' e = absurd (nothing-joined k v ps e)
query-injective (p ∷ ps) (q ∷ qs) h h' e = items-injective (p ∷ ps) (q ∷ qs) h h' (
    join-injective b'&' (query_item p) (map query_item ps) (query_item q) (map query_item qs)
      (items-All b'&' refl (p ∷ ps) (All-imp _ _ (λ x hx. hx.1) (p ∷ ps) h))
      (items-All b'&' refl (q ∷ qs) (All-imp _ _ (λ x hx. hx.1) (q ∷ qs) h')) e)
