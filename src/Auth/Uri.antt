-- ===== src/Auth/Uri.antt =====
-- `uri_encode` of app/security/sigv4.py, and a decoder for it.
use hidden.Base.{
  ℕ, ◌+◌, ◌-◌, ◌*◌, ◌/◌, ◌%◌, ◌<◌, ◌≡◌, refl, Bool, true, false, not, ◌&&◌, ◌||◌, List, [], ◌∷◌,
  ◌++◌, Text, ◌==◌, nat_eq, if◌then◌else◌, ltb, leb, All, All-append, All-map, map, All-imp, IsFree,
  arith, ◌∙◌, ap, Bool-cases, lt→ltb, inl, inr,
}

-- `_UNRESERVED`
unfoldable pub is_unreserved : ℕ → Bool
is_unreserved c =
    leb b'A' c && leb c b'Z'
    || leb b'a' c && leb c b'z'
    || leb b'0' c && leb c b'9'
    || c == b'-'
    || c == b'.'
    || c == b'_'
    || c == b'~'

-- An upper-case hexadecimal digit: the last one of `n`.
unfoldable pub hex_digit : ℕ → ℕ
hex_digit n = let d = n % 16 in if ltb d 10 then b'0' + d else b'A' + (d - 10)

-- The quotients that the digits of `c` are taken from: two, or as many as it needs.
unfoldable pub places : ℕ → List ℕ
places c =
    if ltb c 0x100
    then (c / 16) ∷ c ∷ []
    else if ltb c 0x1000
    then (c / 0x100) ∷ (c / 16) ∷ c ∷ []
    else if ltb c 0x10000
    then (c / 0x1000) ∷ (c / 0x100) ∷ (c / 16) ∷ c ∷ []
    else if ltb c 0x100000
    then (c / 0x10000) ∷ (c / 0x1000) ∷ (c / 0x100) ∷ (c / 16) ∷ c ∷ []
    else (c / 0x100000) ∷ (c / 0x10000) ∷ (c / 0x1000) ∷ (c / 0x100) ∷ (c / 16) ∷ c ∷ []

-- `f"{c:02X}"` of a code point.
unfoldable pub hex_number : ℕ → Text
unfolding hex_digit places
hex_number c = map hex_digit (places c)

-- One step of the loop: what is appended for `c`.
unfoldable pub uri_char : Bool → ℕ → Text
uri_char encode_slash c =
    if is_unreserved c || c == b'/' && not encode_slash then c ∷ [] else b'%' ∷ hex_number c

unfoldable pub uri_encode : Bool → Text → Text
uri_encode encode_slash [] = []
uri_encode encode_slash (c ∷ value) = uri_char encode_slash c ++ uri_encode encode_slash value

-- The characters that an encoded text has.
abbrev pub is_encoded : ℕ → Bool
is_encoded c = is_unreserved c || c == b'/' || c == b'%'

hex_digit-is_encoded : (n : ℕ) → is_encoded (hex_digit n) ≡ true
unfolding is_unreserved hex_digit
hex_digit-is_encoded n = ground arith

abbrev IsEncoded : Text → Type 0
IsEncoded s = All (λ d. is_encoded d ≡ true) s

hex_number-IsEncoded : (c : ℕ) → IsEncoded (hex_number c)
unfolding hex_number
hex_number-IsEncoded c =
    All-map (λ d. is_encoded d ≡ true) hex_digit (places c) hex_digit-is_encoded

uri_char-IsEncoded : (b : Bool) (c : ℕ) → IsEncoded (uri_char b c)
unfolding uri_char is_unreserved
uri_char-IsEncoded b c = elim (Bool-cases (is_unreserved c || c == b'/' && not b)) [
  | inl kept ↦ rw kept (ground arith)
  | inr escaped ↦ rw escaped (refl, hex_number-IsEncoded c)
]

uri_encode-IsEncoded : (b : Bool) (s : Text) → All (λ d. is_encoded d ≡ true) (uri_encode b s)
unfolding uri_encode
uri_encode-IsEncoded b [] = tt
uri_encode-IsEncoded b (c ∷ s) =
    All-append (λ d. is_encoded d ≡ true) (uri_char b c) (uri_encode b s) (uri_char-IsEncoded b c)
      (uri_encode-IsEncoded b s)

-- No other character is in an encoded text.
pub uri_encode-IsFree :
    (b : Bool) (s : Text) (sep : ℕ) → is_encoded sep ≡ false → IsFree sep (uri_encode b s)
uri_encode-IsFree b s sep h =
    All-imp (λ d. is_encoded d ≡ true) (λ d. (d == sep) ≡ false) (λ d e. ground arith)
      (uri_encode b s) (uri_encode-IsEncoded b s)

-- The value of an upper-case hexadecimal digit.
abbrev hex_value : ℕ → ℕ
hex_value c = if ltb c b'A' then c - b'0' else c - b'A' + 10

-- Percent-decoding with two digits behind each sign.
unfoldable pub uri_decode : Text → Text
uri_decode (c ∷ a ∷ b ∷ s) =
    let plain = uri_decode (a ∷ b ∷ s) in
    let escaped = uri_decode s in
    if c == b'%' then (hex_value a * 16 + hex_value b) ∷ escaped else c ∷ plain
uri_decode s = s

uri_decode-plain : (c : ℕ) (s : Text) → (c == b'%') ≡ false → uri_decode (c ∷ s) ≡ c ∷ uri_decode s
unfolding uri_decode
uri_decode-plain c [] h = refl
uri_decode-plain c (a ∷ []) h = refl
uri_decode-plain c (a ∷ b ∷ s) h = rw h refl

hex_value-hex_digit : (n : ℕ) → hex_value (hex_digit n) ≡ n % 16
unfolding hex_digit
hex_value-hex_digit n = ground arith

hex_number-byte : (c : ℕ) → c < 256 → hex_number c ≡ hex_digit (c / 16) ∷ hex_digit c ∷ []
unfolding hex_number places
hex_number-byte c small = rw (lt→ltb c 256 small) refl

unreserved-percent :
    (c : ℕ) (b : Bool) → (is_unreserved c || c == b'/' && not b) ≡ true → (c == b'%') ≡ false
unfolding is_unreserved
unreserved-percent c b h = ground arith

uri_decode-uri_char :
    (b : Bool) (c : ℕ) (s : Text) → c < 256 → uri_decode (uri_char b c ++ s) ≡ c ∷ uri_decode s
unfolding uri_char uri_decode
uri_decode-uri_char b c s small = elim (Bool-cases (is_unreserved c || c == b'/' && not b)) [
  | inl kept ↦ rw kept (uri_decode-plain c s (unreserved-percent c b kept))
  | inr escaped ↦
      rw (escaped, hex_number-byte c small, hex_value-hex_digit (c / 16), hex_value-hex_digit c)
        (ap (λ n. n ∷ uri_decode s) (omega arith))
]

-- A text of bytes is decoded to itself.
pub uri_decode-uri_encode :
    (b : Bool) (s : Text) → All (λ c. c < 256) s → uri_decode (uri_encode b s) ≡ s
unfolding uri_encode uri_decode
uri_decode-uri_encode b [] h = refl
uri_decode-uri_encode b (c ∷ s) h =
    uri_decode-uri_char b c (uri_encode b s) h.0 ∙ ap (λ r. c ∷ r) (uri_decode-uri_encode b s h.1)
