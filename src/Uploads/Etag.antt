-- ===== src/Uploads/Etag.antt =====
-- `construct_etag` of app/s3/etag.py.
use hidden.Base.{
  ℕ, ◌+◌, ◌-◌, ◌*◌, ◌≡◌, refl, Bool, ◌&&◌, ◌||◌, Option, none, some, List, [], ◌∷◌, ◌++◌, Text,
  codes, ◌==◌, nat_eq, if◌then◌else◌, leb, length,
}
use hidden.Errors.{value_error, Result, ok, err, ◌>>=◌}
use hidden.Paths.Resolve.{str}

-- A hexadecimal digit of either case.
abbrev hex_digit : ℕ → Option ℕ
hex_digit c =
    if leb b'0' c && leb c b'9'
    then some (c - b'0')
    else if leb b'a' c && leb c b'f'
    then some (c - b'a' + 10)
    else if leb b'A' c && leb c b'F'
    then some (c - b'A' + 10)
    else none

abbrev is_space : ℕ → Bool
is_space c = c == b' ' || leb 9 c && leb c 13

abbrev byte : Option ℕ → Option ℕ → Result Text → Result Text
byte (some a) (some b) rest = rest >>= λ bytes. ok ((16 * a + b) ∷ bytes)
byte _ _ rest = err value_error

-- `bytes.fromhex(s)`: whitespace may stand between the bytes.
unfoldable pub fromhex : Text → Result Text
fromhex [] = ok []
fromhex (c ∷ []) = if is_space c then ok [] else err value_error
fromhex (c ∷ d ∷ s) =
    let later = fromhex s in
    let after_space = fromhex (d ∷ s) in
    if is_space c then after_space else byte (hex_digit c) (hex_digit d) later

-- `b"".join(bytes.fromhex(value) for value in part_hashes)`
unfoldable pub digests : List Text → Result Text
unfolding fromhex
digests [] = ok []
digests (value ∷ values) = fromhex value >>= λ d. digests values >>= λ rest. ok (d ++ rest)

-- The digest is the argument `md5`, as hexadecimal digits.
unfoldable pub construct_etag : (Text → Text) → List Text → Result Text
unfolding digests
construct_etag md5 part_hashes =
    digests part_hashes >>= λ bytes. ok (md5 bytes ++ codes "-" ++ str (length part_hashes))

construct_etag_test :
    construct_etag (λ s. s) (codes "4a6B" ∷ codes "00" ∷ []) ≡ ok (codes "Jk" ++ 0 ∷ codes "-2")
unfolding construct_etag str
construct_etag_test = refl
