-- ===== src/Streams/Hex.antt =====
-- `int(header, 16)` of a frame's size line.
use hidden.Base.{
  ℕ, zero, suc, ◌+◌, ◌-◌, ◌*◌, ◌≡◌, refl, Bool, true, false, ◌&&◌, ◌||◌, Option, none, some, [],
  ◌∷◌, Text, codes, ◌==◌, nat_eq, list_eq, if◌then◌else◌, leb,
}
use hidden.Base.{ℤ, pos, negsuc}

-- ASCII whitespace, which `bytes.strip` removes.
abbrev is_space : ℕ → Bool
is_space c = c == b' ' || leb 9 c && leb c 13

strip_left : Text → Text
strip_left [] = []
strip_left (c ∷ s) = let rest = strip_left s in if is_space c then rest else c ∷ s

strip_right : Text → Text
strip_right [] = []
strip_right (c ∷ s) = let rest = strip_right s in if rest == [] && is_space c then [] else c ∷ rest

unfoldable pub strip : Text → Text
unfolding strip_left strip_right
strip s = strip_right (strip_left s)

hex_digit : ℕ → Option ℕ
hex_digit c =
    if leb b'0' c && leb c b'9'
    then some (c - b'0')
    else if leb b'a' c && leb c b'f'
    then some (c - b'a' + 10)
    else if leb b'A' c && leb c b'F'
    then some (c - b'A' + 10)
    else none

-- The digits, with single underscores between them; `need` says that a digit must come next.
hex_digits : ℕ → Bool → Text → Option ℕ
hex_digits n need [] = if need then none else some n
hex_digits n need (c ∷ s) =
    let after_underscore = hex_digits n true s in
    if c == b'_'
    then (if need then none else after_underscore)
    else elim (hex_digit c) [ none ↦ none | some d ↦ hex_digits (n * 16 + d) false s ]

-- An optional prefix 0x, behind which one underscore may stand.
hex_prefixed : Text → Option ℕ
hex_prefixed (c ∷ d ∷ e ∷ s) =
    if c == b'0' && (d == b'x' || d == b'X')
    then (if e == b'_' then hex_digits 0 true s else hex_digits 0 true (e ∷ s))
    else hex_digits 0 true (c ∷ d ∷ e ∷ s)
hex_prefixed s = hex_digits 0 true s

negate : ℕ → ℤ
negate zero = pos 0
negate (suc n) = negsuc n

-- `none` is the ValueError.
unfoldable pub int_base_16 : Text → Option ℤ
unfolding hex_digit hex_digits hex_prefixed negate
int_base_16 [] = none
int_base_16 (c ∷ s) =
    if c == b'-'
    then elim (hex_prefixed s) [ none ↦ none | some n ↦ some (negate n) ]
    else elim (hex_prefixed (if c == b'+' then s else c ∷ s)) [
      | none ↦ none
      | some n ↦ some (pos n)
    ]

int_base_16_tests :
    (int_base_16 (codes "1aF") ≡ some (pos 431))
    × (int_base_16 (codes "-5") ≡ some (negsuc 4))
    × (int_base_16 (codes "0x_1_0") ≡ some (pos 16))
    × (int_base_16 (codes "1__0") ≡ none)
    × (int_base_16 (codes "0x") ≡ none)
    × (strip (codes " 5 ") ≡ codes "5")
unfolding int_base_16 strip
int_base_16_tests = (refl, refl, refl, refl, refl, refl)
