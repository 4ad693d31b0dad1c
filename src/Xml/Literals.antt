-- ===== src/Xml/Literals.antt =====
-- `str.strip` and `int` of a `str`, on the code points of Unicode.
use hidden.Base.{
  ℕ, zero, suc, ◌+◌, ◌-◌, ◌*◌, ◌≡◌, refl, Bool, true, false, ◌&&◌, ◌||◌, Option, none, some, List,
  [], ◌∷◌, Text, codes, ◌==◌, nat_eq, list_eq, if◌then◌else◌, ltb, leb, any, ℤ, pos, negsuc, ◌≢◌,
  ◌++◌, All, arith,
}

abbrev other_spaces : List ℕ
other_spaces = 0x85 ∷ 0xa0 ∷ 0x1680 ∷ 0x2028 ∷ 0x2029 ∷ 0x202f ∷ 0x205f ∷ 0x3000 ∷ []

-- `c.isspace()`
unfoldable pub is_space : ℕ → Bool
is_space c =
    (leb 9 c && leb c 13)
    || (leb 28 c && leb c 32)
    || (leb 0x2000 c && leb c 0x200a)
    || any (λ d. c == d) other_spaces

strip_left : Text → Text
strip_left [] = []
strip_left (c ∷ s) = let rest = strip_left s in if is_space c then rest else c ∷ s

strip_right : Text → Text
strip_right [] = []
strip_right (c ∷ s) = let rest = strip_right s in if rest == [] && is_space c then [] else c ∷ rest

unfoldable pub strip : Text → Text
unfolding strip_left strip_right
strip s = strip_right (strip_left s)

-- The zeros of the decimal digits, which come in runs of ten.
abbrev zeros : List ℕ
zeros =
    0x30 ∷ 0x660 ∷ 0x6f0 ∷ 0x7c0 ∷ 0x966 ∷ 0x9e6 ∷ 0xa66 ∷ 0xae6 ∷ 0xb66 ∷ 0xbe6 ∷ 0xc66 ∷ 0xce6
    ∷ 0xd66 ∷ 0xde6 ∷ 0xe50 ∷ 0xed0 ∷ 0xf20 ∷ 0x1040 ∷ 0x1090 ∷ 0x17e0 ∷ 0x1810 ∷ 0x1946 ∷ 0x19d0
    ∷ 0x1a80 ∷ 0x1a90 ∷ 0x1b50 ∷ 0x1bb0 ∷ 0x1c40 ∷ 0x1c50 ∷ 0xa620 ∷ 0xa8d0 ∷ 0xa900 ∷ 0xa9d0
    ∷ 0xa9f0 ∷ 0xaa50 ∷ 0xabf0 ∷ 0xff10 ∷ 0x104a0 ∷ 0x10d30 ∷ 0x11066 ∷ 0x110f0 ∷ 0x11136 ∷ 0x111d0
    ∷ 0x112f0 ∷ 0x11450 ∷ 0x114d0 ∷ 0x11650 ∷ 0x116c0 ∷ 0x11730 ∷ 0x118e0 ∷ 0x11950 ∷ 0x11c50
    ∷ 0x11d50 ∷ 0x11da0 ∷ 0x11f50 ∷ 0x16a60 ∷ 0x16ac0 ∷ 0x16b50 ∷ 0x1d7ce ∷ 0x1d7d8 ∷ 0x1d7e2
    ∷ 0x1d7ec ∷ 0x1d7f6 ∷ 0x1e140 ∷ 0x1e2f0 ∷ 0x1e4f0 ∷ 0x1e950 ∷ 0x1fbf0 ∷ []

digit_in : List ℕ → ℕ → Option ℕ
digit_in [] c = none
digit_in (z ∷ zs) c =
    let rest = digit_in zs c in if leb z c && leb c (z + 9) then some (c - z) else rest

-- The value of the decimal digit `c`, of those that `\d` matches.
unfoldable pub decimal : ℕ → Option ℕ
unfolding digit_in
decimal c = digit_in zeros c

-- The digits, with single underscores between them; `need` says that a digit must come next, and
-- `count` how many there were, of which `int` takes 4300.
digits : ℕ → ℕ → Bool → Text → Option ℕ
digits count n need [] = if need || ltb 4300 count then none else some n
digits count n need (c ∷ s) =
    let after_underscore = digits count n true s in
    if c == b'_'
    then (if need then none else after_underscore)
    else elim (digit_in zeros c) [ none ↦ none | some d ↦ digits (suc count) (n * 10 + d) false s ]

negate : ℕ → ℤ
negate zero = pos 0
negate (suc n) = negsuc n

signed : Text → Option ℤ
signed [] = none
signed (c ∷ s) =
    if c == b'-'
    then elim (digits 0 0 true s) [ none ↦ none | some n ↦ some (negate n) ]
    else elim (digits 0 0 true (if c == b'+' then s else c ∷ s)) [
      | none ↦ none
      | some n ↦ some (pos n)
    ]

-- `int(s)`; `none` is the ValueError.
unfoldable pub int : Text → Option ℤ
unfolding digit_in digits negate signed
int s = signed (strip s)

strip_right-append : (s t : Text) → t ≢ [] → strip_right t ≡ t → strip_right (s ++ t) ≡ s ++ t
unfolding strip_right
strip_right-append [] t h kept = kept
strip_right-append (c ∷ []) [] h kept = absurd (h refl)
strip_right-append (c ∷ []) (d ∷ t) h kept = rw kept refl
strip_right-append (c ∷ b ∷ s) t h kept = rw (strip_right-append (b ∷ s) t h kept) refl

strip_right_black : (t : Text) → All (λ c. is_space c ≡ false) t → strip_right t ≡ t
unfolding strip_right
strip_right_black [] h = refl
strip_right_black (c ∷ t) h = rw (strip_right_black t h.1, h.0) (ground arith)

-- A text that starts with no whitespace, and that ends with some characters of which none is.
pub strip_lem :
    (c : ℕ) (s t : Text)
    → is_space c ≡ false
    → t ≢ []
    → All (λ d. is_space d ≡ false) t
    → strip (c ∷ s ++ t) ≡ c ∷ s ++ t
unfolding strip strip_left
strip_lem c s t first h last = rw first (strip_right-append (c ∷ s) t h (strip_right_black t last))

int_tests :
    (int (codes " 12 ") ≡ some (pos 12))
    × (int (codes "-3") ≡ some (negsuc 2))
    × (int (codes "1_0") ≡ some (pos 10))
    × (int (codes "1__0") ≡ none)
    × (int (0x661 ∷ []) ≡ some (pos 1))
    × (int [] ≡ none)
unfolding int strip is_space
int_tests = (refl, refl, refl, refl, refl, refl)
