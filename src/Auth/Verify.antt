-- ===== src/Auth/Verify.antt =====
-- `verify_sigv4` and `resolve_payload_hash` of app/security/sigv4.py, and `require_auth` of
-- app/dependencies/require_auth.py.
use hidden.Base.{
  ℕ, ◌+◌, ◌-◌, ◌*◌, Bool, true, false, not, ◌&&◌, ◌||◌, Option, none, some, List, [], ◌∷◌, ◌++◌,
  Text, codes, ◌==◌, nat_eq, list_eq, if◌then◌else◌, ltb, length, take, any, starts_with, join, ℤ,
  pos, negsuc,
}
use hidden.Errors.{
  access_denied, invalid_access_key_id, request_time_too_skewed, signature_does_not_match, Result,
  ok, raise, ◌>>=◌, ◌>>◌,
}
use hidden.Bucket.{User}
use hidden.Auth.{
  Library, Request, SigV4Auth, algorithm, aws4_request, unsigned_payload, empty_payload_hash,
  streaming_payload_prefix,
}
use hidden.Auth.Texts.{encode, hexdigest, is_hex, compare_digest}
use hidden.Auth.Times.{strptime, is_amz_date}
use hidden.Auth.Canonical.{canonical_request}
use hidden.Auth.Credentials.{extract_sigv4_auth}

-- `delta > seconds` of a difference in microseconds.
abbrev pub longer : ℕ → ℤ → Bool
longer delta (pos n) = ltb (n * 1000000) delta
longer delta (negsuc n) = true

-- `abs(now - signed_at)`
abbrev pub difference : ℕ → ℕ → ℕ
difference now signed_at = (now - signed_at) + (signed_at - now)

abbrev pub expired : Option ℤ → ℕ → ℕ → Bool
expired none now signed_at = false
expired (some expires) now signed_at = ltb now signed_at || longer (now - signed_at) expires

-- What follows `strptime`, whose ValueError is `none`.
abbrev pub check_signed_at : ℕ → SigV4Auth → ℤ → Text → Option ℕ → Result (Unit {0})
check_signed_at now auth max_skew_seconds resource none = raise access_denied resource
check_signed_at now auth max_skew_seconds resource (some seconds) =
    let signed_at = seconds * 1000000 in
    if longer (difference now signed_at) max_skew_seconds
    then raise request_time_too_skewed resource
    else if expired auth.expires now signed_at
    then raise access_denied resource
    else ok tt

-- `_assert_time_valid`, at a time in microseconds since the first day of the year 1.
unfoldable pub assert_time_valid : ℕ → SigV4Auth → ℤ → Text → Result (Unit {0})
assert_time_valid now auth max_skew_seconds resource =
    if not (is_amz_date auth.amz_date)
    then raise access_denied resource
    else check_signed_at now auth max_skew_seconds resource (strptime auth.amz_date)

-- `_hmac_sha256`
unfoldable pub hmac_sha256 : Library → Text → Text → Result Text
hmac_sha256 lib key message = encode message >>= λ bytes. ok (lib.hmac_sha256 key bytes)

-- `_derive_signing_key`
unfoldable pub derive_signing_key : Library → Text → Text → Text → Text → Result Text
unfolding hmac_sha256
derive_signing_key lib secret_access_key datestamp region service =
    encode (codes "AWS4" ++ secret_access_key) >>= λ key. hmac_sha256 lib key datestamp >>= λ key.
    hmac_sha256 lib key region >>= λ key.
    hmac_sha256 lib key service >>= λ key. hmac_sha256 lib key aws4_request

-- The text that is signed, of a canonical request.
unfoldable pub string_to_sign : Library → SigV4Auth → Text → Result Text
string_to_sign lib auth canonical =
    let credential_scope =
      join (codes "/") (auth.datestamp ∷ auth.region ∷ auth.service ∷ aws4_request ∷ []) in
    encode canonical >>= λ bytes. ok (
      join (codes "\n")
        (algorithm ∷ auth.amz_date ∷ credential_scope ∷ hexdigest (lib.sha256 bytes) ∷ []))

-- The signature that is expected of a request.
unfoldable pub expected_signature : Library → Request → SigV4Auth → Text → Text → Result Text
expected_signature lib request auth secret_access_key payload_hash = do
  canonical ← canonical_request lib request auth payload_hash
  text ← string_to_sign lib auth canonical
  signing_key ← derive_signing_key lib secret_access_key auth.datestamp auth.region auth.service
  bytes ← encode text
  ok (hexdigest (lib.hmac_sha256 signing_key bytes))

-- The expected region and service, and the greatest skew.
pub record Scope : Type 0 where
  pub region : Text
  pub service : Text
  pub max_skew_seconds : ℤ

abbrev pub check_digest : Text → Result Bool → Result (Unit {0})
check_digest resource equal =
    equal >>= λ b. if not b then raise signature_does_not_match resource else ok tt

unfoldable pub verify_sigv4 :
    Library → ℕ → Request → SigV4Auth → Text → Scope → Text → Result (Unit {0})
verify_sigv4 lib now request auth secret_access_key expected payload_hash =
    let resource = request.path in
    if not (auth.region == expected.region)
    then raise access_denied resource
    else if not (auth.service == expected.service)
    then raise access_denied resource
    else if not (auth.datestamp == take 8 auth.amz_date)
    then raise access_denied resource
    else if not (any (λ name. name == codes "host") auth.signed_headers)
    then raise access_denied resource
    else assert_time_valid now auth expected.max_skew_seconds resource
      >> (expected_signature lib request auth secret_access_key payload_hash >>= λ digest.
          check_digest resource (compare_digest digest (lib.lower auth.signature)))

-- A digest in the header, compared with the body's.
unfoldable pub check_payload : Library → Request → Text → Result Text
check_payload lib request value = do
  body ← request.body
  equal ← compare_digest (hexdigest (lib.sha256 body)) (lib.lower value)
  if not equal then raise signature_does_not_match request.path else ok (lib.lower value)

-- On what the header `x-amz-content-sha256` has.
abbrev pub payload_hash_of : Library → Request → Option Text → Result Text
payload_hash_of lib request none = request.body >>= λ body.
    ok (if body == [] then empty_payload_hash else hexdigest (lib.sha256 body))
payload_hash_of lib request (some value) =
    if value == unsigned_payload
    then ok unsigned_payload
    else if starts_with streaming_payload_prefix value
    then ok value
    else if length value == 64 && is_hex value
    then check_payload lib request value
    else raise access_denied request.path

unfoldable pub resolve_payload_hash : Library → Request → Result Text
unfolding check_payload
resolve_payload_hash lib request =
    request.header (codes "x-amz-content-sha256") >>= λ found. payload_hash_of lib request found

-- A row of app/models/user_key.py.
pub record UserKey : Type 0 where
  pub id : ℕ
  pub user_id : ℕ
  pub created_at : ℕ
  pub updated_at : Option ℕ
  pub access_key_id : Text
  pub secret_access_key_encrypted : Text
  pub is_enabled : Bool

-- `repo.select(UserKey, access_key_id=...)` on the rows of the table.
unfoldable pub select_key : Text → List UserKey → Option UserKey
select_key access_key_id [] = none
select_key access_key_id (k ∷ rows) =
    let later = select_key access_key_id rows in
    if k.access_key_id == access_key_id then some k else later

-- `repo.select(User, id=...)`
unfoldable pub select_user : ℕ → List User → Option User
select_user id [] = none
select_user id (u ∷ rows) = let later = select_user id rows in if u.id == id then some u else later

-- What `require_auth` depends on besides the request: the tables, the configuration, the clock, and
-- `decrypt_string`, which raises on a text that was not encrypted with the configured key.
pub record Context : Type 0 where
  pub lib : Library
  pub keys : List UserKey
  pub users : List User
  pub expected : Scope
  pub now : ℕ
  pub decrypt_string : Text → Result Text

-- The guards on the row of the key, and on the user's.
abbrev pub check_key : Text → Option UserKey → Result UserKey
check_key resource none = raise invalid_access_key_id resource
check_key resource (some key) = if not key.is_enabled then raise access_denied resource else ok key

abbrev pub check_user : Text → Option User → Result User
check_user resource none = raise access_denied resource
check_user resource (some user) =
    if not user.is_enabled then raise access_denied resource else ok user

unfoldable pub require_auth : Context → Request → Result User
require_auth ctx request = do
  auth ← extract_sigv4_auth ctx.lib request
  payload_hash ← resolve_payload_hash ctx.lib request
  key ← check_key request.path (select_key auth.access_key_id ctx.keys)
  user ← check_user request.path (select_user key.user_id ctx.users)
  secret_access_key ← ctx.decrypt_string key.secret_access_key_encrypted
  verify_sigv4 ctx.lib ctx.now request auth secret_access_key ctx.expected payload_hash
  ok user
