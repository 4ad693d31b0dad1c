-- ===== src/Auth/Patterns.antt =====
-- The regular expressions of app/security/sigv4.py, as the only matches that they can have. `none` is
-- a failed match.
use hidden.Base.{
  ℕ, Bool, not, ◌&&◌, ◌||◌, Option, none, some, List, [], ◌∷◌, Text, codes, ◌==◌, nat_eq, list_eq,
  if◌then◌else◌, leb, length, all, is_some, split, split_first, split_rest,
}
use hidden.Xml.Literals.{is_space, decimal}

infixl 5 ◌>>=◌
abbrev ◌>>=◌ : {A B : Type 0} → Option A → (A → Option B) → Option B
none >>= k = none
some a >>= k = k a

-- What follows the text `p`.
unfoldable pub literal : Text → Text → Option Text
literal [] s = some s
literal (c ∷ p) [] = none
literal (c ∷ p) (d ∷ s) = let rest = literal p s in if c == d then rest else none

-- `\s*`
unfoldable pub spaces : Text → Text
spaces [] = []
spaces (c ∷ s) = let rest = spaces s in if is_space c then rest else c ∷ s

-- `\s+`
unfoldable pub some_spaces : Text → Option Text
unfolding spaces
some_spaces [] = none
some_spaces (c ∷ s) = if is_space c then some (spaces s) else none

-- `[^ ,]+` with the comma behind it: the field, and what follows.
abbrev pub ends_field : ℕ → Bool
ends_field c = c == b' ' || c == b','

unfoldable pub field_chars : Text → Text × Text
field_chars [] = ([], [])
field_chars (c ∷ s) =
    let (f, rest) = field_chars s in if ends_field c then ([], c ∷ s) else (c ∷ f, rest)

unfoldable pub field : Text → Option (Text × Text)
field s =
    let (f, rest) = field_chars s in
    if f == [] then none else literal (codes ",") rest >>= λ r. some (f, r)

abbrev pub is_hex_digit : ℕ → Bool
is_hex_digit c = leb b'0' c && leb c b'9' || leb b'a' c && leb c b'f' || leb b'A' c && leb c b'F'

-- `[0-9a-fA-F]{64}$`, where a newline may stand at the end: the text without it.
abbrev pub chop_newline : Text → Text
chop_newline [] = []
chop_newline (c ∷ []) = if c == b'\n' then [] else c ∷ []
chop_newline (c ∷ d ∷ s) = c ∷ chop_newline (d ∷ s)

unfoldable pub hex_64 : Text → Option Text
hex_64 s = let t = chop_newline s in if length t == 64 && all is_hex_digit t then some t else none

-- `\s*Signature=` with the group, at the end.
unfoldable pub signature_group : Text → Text → Text → Option (Text × Text × Text)
signature_group credential signed_headers s = literal (codes "Signature=") (spaces s) >>= λ s.
    hex_64 s >>= λ signature. some (credential, signed_headers, signature)

-- `\s*SignedHeaders=` with the group, and what follows.
unfoldable pub headers_group : Text → Text → Option (Text × Text × Text)
headers_group credential s = literal (codes "SignedHeaders=") (spaces s) >>= λ s.
    field s >>= λ (signed_headers, s). signature_group credential signed_headers s

-- `\s+Credential=` with the group, and what follows.
unfoldable pub credential_group : Text → Option (Text × Text × Text)
credential_group s = some_spaces s >>= λ s. literal (codes "Credential=") s >>= λ s.
    field s >>= λ (credential, s). headers_group credential s

-- `_AUTHORIZATION_RE.match(s)`: the groups `credential`, `signed_headers` and `signature`.
unfoldable pub authorization_re : Text → Option (Text × Text × Text)
authorization_re s = literal (codes "AWS4-HMAC-SHA256") s >>= credential_group

-- `_CREDENTIAL_RE.match(s)`: the groups of the five fields between slashes but the last.
abbrev pub is_eight_digits : Text → Bool
is_eight_digits s = length s == 8 && all (λ c. is_some (decimal c)) s

abbrev credential_fields : List Text → Option (Text × Text × Text × Text)
credential_fields (i ∷ d ∷ r ∷ v ∷ t ∷ []) =
    if not (i == [])
      && is_eight_digits d
      && not (r == [])
      && not (v == [])
      && chop_newline t == codes "aws4_request"
    then some (i, d, r, v)
    else none
credential_fields _ = none

unfoldable pub credential_re : Text → Option (Text × Text × Text × Text)
unfolding decimal split_first split_rest
credential_re s = credential_fields (split b'/' s)
