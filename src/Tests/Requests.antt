-- ===== src/Tests/Requests.antt =====
-- A signed request, with a MAC and a digest that stand for the real ones.
use hidden.Base.{
  ℕ, suc, ◌+◌, ◌%◌, ◌<◌, ◌≡◌, zero, refl, true, ◌&&◌, Option, none, some, List, [], ◌∷◌, map, Text,
  codes, ◌==◌, ==_iff, nat_eq, list_eq, if◌then◌else◌, leb, length, pos, All, all, not, arith,
  IsFree, Bool-cases, inl, inr, subst, sym,
}
use hidden.Errors.{value_error, Result, ok, err}
use hidden.Bucket.{User}
use hidden.Auth.{Library, Request, SigV4Auth, header}
use hidden.Auth.Verify.{Context, UserKey}
use hidden.Auth.Texts.{hexdigest}
use hidden.Auth.Printed.{authorization}

abbrev pub lower_char : ℕ → ℕ
lower_char c = if leb b'A' c && leb c b'Z' then c + 32 else c

abbrev pub sevens : ℕ → Text
sevens zero = []
sevens (suc n) = 7 ∷ sevens n

abbrev pub mac : Text → Text → Text
mac key message = length message % 256 ∷ sevens 31

-- The digest of the empty text is the real one.
abbrev pub digest : Text → Text
digest [] =
    0xe3 ∷ 0xb0 ∷ 0xc4 ∷ 0x42 ∷ 0x98 ∷ 0xfc ∷ 0x1c ∷ 0x14 ∷ 0x9a ∷ 0xfb ∷ 0xf4 ∷ 0xc8 ∷ 0x99 ∷ 0x6f
    ∷ 0xb9 ∷ 0x24 ∷ 0x27 ∷ 0xae ∷ 0x41 ∷ 0xe4 ∷ 0x64 ∷ 0x9b ∷ 0x93 ∷ 0x4c ∷ 0xa4 ∷ 0x95 ∷ 0x99
    ∷ 0x1b ∷ 0x78 ∷ 0x52 ∷ 0xb8 ∷ 0x55 ∷ []
digest (c ∷ s) = mac [] (c ∷ s)

abbrev pub pairs : Text → List (Text × Text)
pairs [] = []
pairs (c ∷ s) =
    if c == b'a'
    then (codes "a", codes "1") ∷ (codes "b", codes "/") ∷ []
    else (codes "b", codes "/") ∷ (codes "a", codes "1") ∷ []

abbrev pub lib : Library
lib = record {
  lower = map lower_char;
  upper = λ s. s;
  sha256 = digest;
  hmac_sha256 = mac;
  parse_qsl = pairs;
  date_stamp = λ s. err value_error;
}

abbrev pub date : Text
date = codes "20240229T000000Z"

abbrev pub auth : SigV4Auth
auth = record {
  access_key_id = codes "AKID";
  datestamp = codes "20240229";
  region = codes "eu";
  service = codes "s3";
  signed_headers = codes "host" ∷ codes "x-amz-date" ∷ [];
  signature = hexdigest (126 ∷ sevens 31);
  amz_date = date;
  source = header;
  expires = none;
}

-- The headers `host`, `x-amz-date` and `authorization`.
abbrev pub headers : Text → Text → Result (Option Text)
headers host name =
    if name == codes "host"
    then ok (some host)
    else if name == codes "x-amz-date"
    then ok (some date)
    else if name == codes "authorization"
    then ok (some (authorization auth))
    else ok none

abbrev pub request : Text → Text → Request
request host query = record {
  method = codes "GET";
  path = codes "/photos/a b";
  query = query;
  header = headers host;
  query_param = λ name. none;
  body = ok [];
}

abbrev pub key : UserKey
key = record {
  id = 1;
  user_id = 1;
  created_at = 0;
  updated_at = none;
  access_key_id = codes "AKID";
  secret_access_key_encrypted = codes "terces";
  is_enabled = true;
}

abbrev pub context : User → Context
context user = record {
  lib = lib;
  keys = key ∷ [];
  users = user ∷ [];
  expected = record { region = codes "eu"; service = codes "s3"; max_skew_seconds = pos 900 };
  now = 63844761605000000;
  decrypt_string = λ s. ok (codes "secret");
}

sevens-bytes : (n : ℕ) → All (λ b. b < 256) (sevens n)
sevens-bytes zero = tt
sevens-bytes (suc n) = (omega arith, sevens-bytes n)

pub mac-bytes : (k m : Text) → All (λ b. b < 256) (mac k m)
mac-bytes k m = (omega arith, sevens-bytes 31)

all-IsFree : (sep : ℕ) (s : Text) → all (λ c. not (c == sep)) s ≡ true → IsFree sep s
all-IsFree sep [] h = tt
all-IsFree sep (c ∷ s) h = (ground arith, all-IsFree sep s (ground arith))

abbrev IsHeaderName : Text → Type 0
IsHeaderName name = IsFree b'\n' name × IsFree b':' name

name-IsHeaderName :
    (token name : Text)
    → (name == token) ≡ true
    → all (λ c. not (c == b'\n')) token ≡ true
    → all (λ c. not (c == b':')) token ≡ true
    → IsHeaderName name
name-IsHeaderName token name h line colon =
    subst IsHeaderName (sym ((==_iff name token).0 h))
      (all-IsFree b'\n' token line, all-IsFree b':' token colon)

-- The names of the headers are tokens.
pub headers-names :
    (host name value : Text) → headers host name ≡ ok (some value) → IsHeaderName name
headers-names host name value e = elim (Bool-cases (name == codes "host")) [
  | inl h ↦ name-IsHeaderName (codes "host") name h refl refl
  | inr not_host ↦ elim (Bool-cases (name == codes "x-amz-date")) [
    | inl h ↦ name-IsHeaderName (codes "x-amz-date") name h refl refl
    | inr not_date ↦ elim (Bool-cases (name == codes "authorization")) [
      | inl h ↦ name-IsHeaderName (codes "authorization") name h refl refl
      | inr not_authorization ↦ absurd (ground (arith, not_host, not_date, not_authorization))
    ]
  ]
]
