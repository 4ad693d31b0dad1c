-- ===== src/Validation.antt =====
-- app/s3/validation.py. Its two regular expressions are written out as tests on characters: the
-- first one makes every character ASCII before `\d` of the second one is tried.
pub mod Keys
use hidden.Base.{
  ℕ, ◌+◌, ◌-◌, ◌≡◌, refl, Bool, true, false, not, ◌&&◌, ◌||◌, Option, none, some, List, [], ◌∷◌,
  Text, codes, ◌==◌, nat_eq, list_eq, if◌then◌else◌, ltb, leb, any, all, length, split, has_infix,
  starts_with, ends_with,
}
use hidden.Errors.{Result, ok, raise, invalid_bucket_name, object_key_invalid}

abbrev pub object_key_max_bytes : ℕ
object_key_max_bytes = 1024

unfoldable pub is_digit : ℕ → Bool
is_digit c = leb b'0' c && leb c b'9'

-- `[a-z0-9]` and `[a-z0-9.-]`
unfoldable pub is_boundary : ℕ → Bool
is_boundary c = (leb b'a' c && leb c b'z') || is_digit c

unfoldable pub is_name_char : ℕ → Bool
is_name_char c = is_boundary c || c == b'.' || c == b'-'

-- The last character is a boundary character.
unfoldable pub ends_at_boundary : Text → Bool
ends_at_boundary [] = false
ends_at_boundary (c ∷ []) = is_boundary c
ends_at_boundary (c ∷ d ∷ s) = ends_at_boundary (d ∷ s)

unfoldable pub starts_at_boundary : Text → Bool
starts_at_boundary [] = false
starts_at_boundary (c ∷ s) = is_boundary c

-- `_BUCKET_NAME_RE.fullmatch`
unfoldable pub bucket_name_re : Text → Bool
bucket_name_re s =
    leb 3 (length s)
    && leb (length s) 63
    && all is_name_char s
    && starts_at_boundary s
    && ends_at_boundary s

unfoldable pub is_octet : Text → Bool
is_octet s = leb 1 (length s) && leb (length s) 3 && all is_digit s

-- `_IP_ADDRESS_RE.fullmatch`: four groups of one to three digits with dots between them.
unfoldable pub ip_address_re : Text → Bool
ip_address_re s = length (split b'.' s) == 4 && all is_octet (split b'.' s)

abbrev pub bucket_reserved_prefixes : List Text
bucket_reserved_prefixes = codes "xn--" ∷ codes "sthree-" ∷ codes "amzn-s3-demo-" ∷ []

abbrev pub bucket_reserved_suffixes : List Text
bucket_reserved_suffixes =
    codes "-s3alias" ∷ codes "--ol-s3" ∷ codes ".mrap" ∷ codes "--x-s3" ∷ codes "--table-s3" ∷ []

unfoldable pub validate_bucket_name : Text → Text → Result (Unit {0})
validate_bucket_name bucket_name resource =
    if not (bucket_name_re bucket_name)
    then raise invalid_bucket_name resource
    else if has_infix (codes "..") bucket_name
        || has_infix (codes ".-") bucket_name
        || has_infix (codes "-.") bucket_name
    then raise invalid_bucket_name resource
    else if ip_address_re bucket_name
    then raise invalid_bucket_name resource
    else if any (λ p. starts_with p bucket_name) bucket_reserved_prefixes
    then raise invalid_bucket_name resource
    else if any (λ p. ends_with p bucket_name) bucket_reserved_suffixes
    then raise invalid_bucket_name resource
    else ok tt

-- The bytes of one code point in UTF-8; `none` is the UnicodeEncodeError of a surrogate.
unfoldable pub utf8_size : ℕ → Option ℕ
utf8_size c =
    if ltb c 0x80
    then some 1
    else if ltb c 0x800
    then some 2
    else if leb 0xd800 c && leb c 0xdfff
    then none
    else if ltb c 0x10000
    then some 3
    else some 4

-- `len(s.encode("utf-8"))`
unfoldable pub encoded_length : Text → Option ℕ
unfolding utf8_size
encoded_length [] = some 0
encoded_length (c ∷ s) = elim (utf8_size c) [
  | none ↦ none
  | some n ↦ elim (encoded_length s) [ none ↦ none | some m ↦ some (n + m) ]
]

abbrev pub is_forbidden_segment : Text → Bool
is_forbidden_segment part = part == [] || part == codes "." || part == codes ".."

unfoldable pub validate_object_key : Text → Text → Result (Unit {0})
validate_object_key object_key resource = elim (encoded_length object_key) [
  | none ↦ raise object_key_invalid resource
  | some size ↦
      if ltb object_key_max_bytes size
      then raise object_key_invalid resource
      else if any (λ c. c == 0) object_key
      then raise object_key_invalid resource
      else if any is_forbidden_segment (split b'/' object_key)
      then raise object_key_invalid resource
      else ok tt
]
