-- ===== src/Auth/Joined.antt =====
-- What a text that was joined tells of its parts, for the canonical requests.
use hidden.Base.{
  ℕ, suc, ◌≡◌, refl, sym, ap, ◌∙◌, Bool, false, List, [], ◌∷◌, ◌++◌, Text, ◌==◌, nat_eq, All,
  All-append, length, length-append, join, split, split-join, IsFree, append_assoc, arith, ==_refl,
  Bool-cases, inl, inr,
}
use hidden.Auth.Canonical.{insert, sorted}

pub join-append :
    (sep x : Text) (xs : List Text) (y : Text) (ys : List Text)
    → join sep ((x ∷ xs) ++ y ∷ ys) ≡ join sep (x ∷ xs) ++ (sep ++ join sep (y ∷ ys))
join-append sep x [] y ys = refl
join-append sep x (z ∷ zs) y ys = rw (join-append sep z zs y ys) (simp (append_assoc))

-- A block of lines that ends with the separator, before two fields.
pub join-block :
    (sep x : Text) (xs : List Text) (s t : Text)
    → join sep ((join sep (x ∷ xs) ++ sep) ∷ s ∷ t ∷ []) ≡ join sep ((x ∷ xs) ++ [] ∷ s ∷ t ∷ [])
join-block sep x xs s t = rw (join-append sep x xs [] (s ∷ t ∷ [])) (simp (append_assoc))

pub join-injective :
    (sep : ℕ) (x : Text) (xs : List Text) (y : Text) (ys : List Text)
    → All (IsFree sep) (x ∷ xs)
    → All (IsFree sep) (y ∷ ys)
    → join (sep ∷ []) (x ∷ xs) ≡ join (sep ∷ []) (y ∷ ys)
    → x ∷ xs ≡ y ∷ ys
join-injective sep x xs y ys hx hy e =
    sym (split-join sep x xs hx.0 hx.1) ∙ ap (split sep) e ∙ split-join sep y ys hy.0 hy.1

pub append-three :
    {A : Type 0} (xs ys : List A) (a b c a' b' c' : A)
    → xs ++ (a ∷ b ∷ c ∷ []) ≡ ys ++ (a' ∷ b' ∷ c' ∷ [])
    → (xs ≡ ys) × (b ≡ b') × (c ≡ c')
append-three [] [] a b c a' b' c' e = ground arith
append-three [] (y ∷ ys) a b c a' b' c' e = absurd (longer (ap length e))
  where
    longer : 3 ≡ suc (length (ys ++ (a' ∷ b' ∷ c' ∷ []))) → ⊥
    longer h = omega (arith, length-append ys (a' ∷ b' ∷ c' ∷ []))
append-three (x ∷ xs) [] a b c a' b' c' e = absurd (longer (ap length e))
  where
    longer : suc (length (xs ++ (a ∷ b ∷ c ∷ []))) ≡ 3 → ⊥
    longer h = omega (arith, length-append xs (a ∷ b ∷ c ∷ []))
append-three (x ∷ xs) (y ∷ ys) a b c a' b' c' e = ground (arith, append-three xs ys a b c a' b' c')

-- A separator that neither of two fields has stands behind both at the same place.
pub append-at_separator :
    (sep : ℕ) (k l v w : Text)
    → IsFree sep k
    → IsFree sep l
    → k ++ sep ∷ v ≡ l ++ sep ∷ w
    → (k ≡ l) × (v ≡ w)
append-at_separator sep [] [] v w hk hl e = ground arith
append-at_separator sep [] (d ∷ l) v w hk hl e = ground (arith, hl.0, ==_refl sep)
append-at_separator sep (c ∷ k) [] v w hk hl e = ground (arith, hk.0, ==_refl sep)
append-at_separator sep (c ∷ k) (d ∷ l) v w hk hl e =
    ground (arith, append-at_separator sep k l v w hk.1 hl.1)

pub join-All :
    (P : ℕ → Type 0) (d : Text) (ps : List Text) → All P d → All (All P) ps → All P (join d ps)
join-All P d [] hd h = tt
join-All P d (p ∷ []) hd h = h.0
join-All P d (p ∷ q ∷ ps) hd h =
    All-append P p (d ++ join d (q ∷ ps)) h.0
      (All-append P d (join d (q ∷ ps)) hd (join-All P d (q ∷ ps) hd h.1))

pub join-IsFree :
    (sep : ℕ) (d : Text) (ps : List Text)
    → IsFree sep d
    → All (IsFree sep) ps
    → IsFree sep (join d ps)
join-IsFree sep = join-All (λ c. (c == sep) ≡ false)

module _ {ℓ κ} {A : Type ℓ} (P : A → Type κ) (le : A → A → Bool) where
  insert-All : (x : A) (xs : List A) → P x → All P xs → All P (insert le x xs)
  unfolding insert
  insert-All x [] hx h = (hx, tt)
  insert-All x (y ∷ ys) hx h = elim (Bool-cases (le x y)) [
    | inl before ↦ rw before (hx, (h.0, h.1))
    | inr after ↦ rw after (h.0, insert-All x ys hx h.1)
  ]

  pub sorted-All : (xs : List A) → All P xs → All P (sorted le xs)
  unfolding sorted
  sorted-All [] h = tt
  sorted-All (x ∷ xs) h = insert-All x (sorted le xs) h.0 (sorted-All xs h.1)
