-- ===== src/Auth/Texts.antt =====
-- What app/security/sigv4.py uses of Python's texts: UTF-8, hexadecimal digests, `int` to the base 16,
-- and `hmac.compare_digest`.
use hidden.Base.{
  ℕ, ◌+◌, ◌-◌, ◌*◌, ◌/◌, ◌%◌, ◌<◌, ◌≡◌, refl, Bool, true, false, ◌&&◌, ◌||◌, none, some, [], ◌∷◌,
  ◌++◌, Text, ◌==◌, nat_eq, list_eq, if◌then◌else◌, ltb, leb, all, All, length, arith, ==_refl,
  ==_iff,
}
use hidden.Errors.{type_error, value_error, Result, ok, err, ◌>>=◌}
use hidden.Xml.Literals.{is_space, decimal}
use hidden.Streams.Hex
use hidden.Streams.Hex.{int_base_16}

-- The bytes of one code point in UTF-8.
unfoldable pub utf8 : ℕ → Result Text
utf8 c =
    if ltb c 0x80
    then ok (c ∷ [])
    else if ltb c 0x800
    then ok ((0xc0 + c / 64) ∷ (0x80 + c % 64) ∷ [])
    else if leb 0xd800 c && leb c 0xdfff
    then err value_error
    else if ltb c 0x10000
    then ok ((0xe0 + c / 4096) ∷ (0x80 + c / 64 % 64) ∷ (0x80 + c % 64) ∷ [])
    else ok
        ((0xf0 + c / 262144) ∷ (0x80 + c / 4096 % 64) ∷ (0x80 + c / 64 % 64) ∷ (0x80 + c % 64) ∷ [])

-- `s.encode("utf-8")`; the error is the UnicodeEncodeError of a surrogate.
unfoldable pub encode : Text → Result Text
unfolding utf8
encode [] = ok []
encode (c ∷ s) = utf8 c >>= λ bytes. encode s >>= λ rest. ok (bytes ++ rest)

-- A lower-case hexadecimal digit.
abbrev hex_digit : ℕ → ℕ
hex_digit n = if ltb n 10 then b'0' + n else b'a' + (n - 10)

abbrev pub is_lower_hex : ℕ → Bool
is_lower_hex c = leb b'0' c && leb c b'9' || leb b'a' c && leb c b'f'

-- `.hexdigest()` of a digest's bytes.
unfoldable pub hexdigest : Text → Text
hexdigest [] = []
hexdigest (b ∷ bytes) = hex_digit (b / 16) ∷ hex_digit (b % 16) ∷ hexdigest bytes

length-hexdigest : (d : Text) → length (hexdigest d) ≡ 2 * length d
unfolding hexdigest
length-hexdigest [] = refl
length-hexdigest (b ∷ d) = omega (arith, length-hexdigest d)

pub hexdigest-all_lower_hex :
    (d : Text) → All (λ b. b < 256) d → all is_lower_hex (hexdigest d) ≡ true
unfolding hexdigest
hexdigest-all_lower_hex [] h = refl
hexdigest-all_lower_hex (b ∷ d) h = let small = h.0 in ground (arith, hexdigest-all_lower_hex d h.1)

-- A text that is not ASCII is read with its whitespace and its digits changed to those of ASCII.
abbrev ascii_char : ℕ → ℕ
ascii_char c =
    if is_space c
    then b' '
    else elim (decimal c) [ some d ↦ b'0' + d | none ↦ if ltb c 128 then c else b'?' ]

abbrev ascii_text : Text → Text
ascii_text [] = []
ascii_text (c ∷ s) = ascii_char c ∷ ascii_text s

abbrev is_ascii : Text → Bool
is_ascii s = all (λ c. ltb c 128) s

-- `_is_hex`: `int(value, 16)` raises no ValueError.
unfoldable pub is_hex : Text → Bool
is_hex value = elim (int_base_16 (Hex.strip (if is_ascii value then value else ascii_text value))) [
  | none ↦ false
  | some n ↦ true
]

-- `hmac.compare_digest` of two texts, which must be ASCII.
unfoldable pub compare_digest : Text → Text → Result Bool
compare_digest a b = if is_ascii a && is_ascii b then ok (a == b) else err type_error

lower_hex-ascii : (s : Text) → all is_lower_hex s ≡ true → is_ascii s ≡ true
lower_hex-ascii [] h = refl
lower_hex-ascii (c ∷ s) h = ground (arith, lower_hex-ascii s)

pub compare_digest_refl : (s : Text) → all is_lower_hex s ≡ true → compare_digest s s ≡ ok true
unfolding compare_digest
compare_digest_refl s h = rw (lower_hex-ascii s h) (ground (arith, ==_refl s))

pub compare_digest-ok : (a b : Text) → compare_digest a b ≡ ok true → a ≡ b
unfolding compare_digest
compare_digest-ok a b h = ground (arith, ==_iff a b)
