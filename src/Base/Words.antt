-- ===== src/Base/Words.antt =====
-- Python's `str` and `bytes` as lists of code points, with the methods that the program calls.
use Prim.Native.Nat.{ℕ}
use Prim.Native.Char.{code}
use Prim.Native.String.{String}
use mathlib.Core.Path.{◌≡◌, refl, ap, sym, ◌∙◌}
use mathlib.Core.Logic.{inl, inr}
use mathlib.Core.Bool.{Bool, true, false, ◌&&◌, ◌||◌}
use mathlib.Core.List.{List, [], ◌∷◌, ◌++◌}
use native.Mathlib.Omega.{arith}
use hidden.Base.Tests.{Eq, ◌==◌, ==_refl, nat_eq, list_eq, nat_beq_iff, if◌then◌else◌, Bool-cases}
use hidden.Base.Lists.{All}

-- The code points of a `str`, or the bytes of a `bytes`.
abbrev pub Text : Type 0
Text = List ℕ

abbrev pub codes : String → Text
codes String.[] = []
codes (String.◌∷◌ c s) = code c ∷ codes s

-- `s.startswith(p)`, the prefix first.
unfoldable pub starts_with {ℓ} : {A : Type ℓ} ⦃e : Eq A⦄ → List A → List A → Bool
starts_with [] s = true
starts_with (c ∷ p) [] = false
starts_with (c ∷ p) (d ∷ s) = c == d && starts_with p s

-- `s.endswith(p)`, the suffix first.
unfoldable pub ends_with : Text → Text → Bool
ends_with p [] = p == []
ends_with p (c ∷ s) = p == c ∷ s || ends_with p s

-- `p in s`
unfoldable pub has_infix : Text → Text → Bool
unfolding starts_with
has_infix p [] = starts_with p []
has_infix p (c ∷ s) = starts_with p (c ∷ s) || has_infix p s

module _ {ℓ} {A : Type ℓ} ⦃e : Eq A⦄ where
  pub starts_with→append : (p s : List A) → starts_with p s ≡ true → (r : List A) × (s ≡ p ++ r)
  unfolding starts_with
  starts_with→append [] s h = (s, refl)
  starts_with→append (c ∷ p) [] h = cc
  starts_with→append (c ∷ p) (d ∷ s) h =
      let (r, q) = starts_with→append p s (ground arith) in (r, ground (arith, e.beq_iff c d))

  pub starts_with-append : (p r : List A) → starts_with p (p ++ r) ≡ true
  unfolding starts_with
  starts_with-append [] r = refl
  starts_with-append (c ∷ p) r = rw (==_refl c) (starts_with-append p r)

-- `s.split(sep)` for a one-character separator: the first field, and the others.
unfoldable pub split_first : ℕ → Text → Text
split_first sep [] = []
split_first sep (c ∷ s) = if c == sep then [] else c ∷ split_first sep s

unfoldable pub split_rest : ℕ → Text → List Text
unfolding split_first
split_rest sep [] = []
split_rest sep (c ∷ s) = if c == sep then split_first sep s ∷ split_rest sep s else split_rest sep s

abbrev pub split : ℕ → Text → List Text
split sep s = split_first sep s ∷ split_rest sep s

-- `sep.join(parts)`
abbrev pub join : Text → List Text → Text
join sep [] = []
join sep (p ∷ []) = p
join sep (p ∷ q ∷ ps) = p ++ (sep ++ join sep (q ∷ ps))

abbrev pub IsFree : ℕ → Text → Type 0
IsFree sep s = All (λ c. (c == sep) ≡ false) s

-- Splitting what was joined gives the parts back, if there is one and none has the separator.
pub split-free : (sep : ℕ) (p : Text) → IsFree sep p → split sep p ≡ p ∷ []
unfolding split_first split_rest
split-free sep [] h = refl
split-free sep (c ∷ p) h = ground (arith, split-free sep p h.1)

split-append : (sep : ℕ) (p s : Text) → IsFree sep p → split sep (p ++ sep ∷ s) ≡ p ∷ split sep s
unfolding split_first split_rest
split-append sep [] s h = ground arith
split-append sep (c ∷ p) s h = ground (arith, split-append sep p s h.1)

pub split-join :
    (sep : ℕ) (p : Text) (ps : List Text)
    → IsFree sep p
    → All (IsFree sep) ps
    → split sep (join (sep ∷ []) (p ∷ ps)) ≡ p ∷ ps
split-join sep p [] h hs = split-free sep p h
split-join sep p (q ∷ ps) h hs =
    split-append sep p _ h ∙ ap (λ r. p ∷ r) (split-join sep q ps hs.0 hs.1)

pub join-cons :
    (sep : Text) (c : ℕ) (p : Text) (ps : List Text)
    → join sep ((c ∷ p) ∷ ps) ≡ c ∷ join sep (p ∷ ps)
join-cons sep c p [] = refl
join-cons sep c p (q ∷ ps) = refl

pub join-split : (sep : ℕ) (s : Text) → join (sep ∷ []) (split sep s) ≡ s
unfolding split_first split_rest
join-split sep [] = refl
join-split sep (c ∷ s) = elim (Bool-cases (c == sep)) [
  | inl here ↦ rw here (rw (join-split sep s) (ap (λ d. d ∷ s) (sym ((nat_beq_iff c sep).0 here))))
  | inr other ↦ rw (other, join-cons) (rw (join-split sep s))
]

pub split-IsFree : (sep : ℕ) (s : Text) → All (IsFree sep) (split sep s)
unfolding split_first split_rest
split-IsFree sep [] = (tt, tt)
split-IsFree sep (c ∷ s) = ground (arith, split-IsFree sep s)
