-- ===== src/Auth/Signed.antt =====
-- `extract_sigv4_auth` of app/security/sigv4.py on the headers that a client writes, and the whole of
-- `require_auth` on such a request.
use hidden.Base.{
  ◌<◌, ◌≡◌, ◌≢◌, refl, sym, ap, ap₂, ◌∙◌, true, false, none, some, List, [], ◌∷◌, map, Text, codes,
  ==_refl, nat_eq, list_eq, length, all, All, All-imp, join, split, split-join, IsFree, arith,
}
use hidden.Errors.{ok}
use hidden.Bucket.{User}
use mathlib.Core.List.{cons-ne-nil}
use hidden.Auth.Verify.{
  UserKey, Context, select_key, select_user, resolve_payload_hash, require_auth,
}
use hidden.Auth.Accepted.{IsSigned}
use hidden.Auth.Granted.{require_auth-IsAuthenticated}
use hidden.Xml.Literals.{strip}
use hidden.Auth.{Library, Request, SigV4Auth, header}
use hidden.Auth.Texts.{is_lower_hex}
use hidden.Auth.Times.{is_amz_date}
use hidden.Auth.Patterns.{authorization_re, ends_field}
use hidden.Auth.Canonical.{text_le, sorted, nonempty}
use hidden.Auth.Credentials.{
  groups_or_denied, parse_credential, parse_signed_headers, amz_date_from_headers,
  matched_credentials, parse_authorization_header, extract_sigv4_auth,
}
use hidden.Auth.Joined.{join-All}
use hidden.Auth.Printed.{
  credential, authorization, IsCredential, IsField, credential-IsField, credential-nonempty,
  credential_re-credential, authorization_re-printed, strip-authorization, append-nonempty,
  nonempty-false,
}

-- A name of a header as a client writes it: some characters but no whitespace at an end, no space,
-- comma or semicolon, and in lower case.
abbrev pub IsName : Library → Text → Type 0
IsName lib n = (n ≢ []) × (lib.lower (strip n) ≡ n) × IsField n × IsFree b';' n

-- The names are sorted, and there is one.
abbrev pub IsNames : Library → List Text → Type 0
IsNames lib names = (names ≢ []) × All (IsName lib) names × (sorted text_le names ≡ names)

-- A hexadecimal digest in lower case.
abbrev pub IsDigest : Library → Text → Type 0
IsDigest lib s = (length s ≡ 64) × (all is_lower_hex s ≡ true) × (lib.lower s ≡ s)

nonempty-names : (lib : Library) (ns : List Text) → All (IsName lib) ns → nonempty ns ≡ ns
unfolding nonempty
nonempty-names lib [] h = refl
nonempty-names lib ([] ∷ ns) h = absurd (h.0.0 refl)
nonempty-names lib ((c ∷ n) ∷ ns) h = rw (nonempty-names lib ns h.1) refl

lowered-names :
    (lib : Library) (ns : List Text) → All (IsName lib) ns → map (λ n. lib.lower (strip n)) ns ≡ ns
lowered-names lib [] h = refl
lowered-names lib (n ∷ ns) h = ap₂ (λ x xs. x ∷ xs) h.0.1 (lowered-names lib ns h.1)

split-names :
    (lib : Library) (ns : List Text)
    → ns ≢ []
    → All (IsName lib) ns
    → split b';' (join (codes ";") ns) ≡ ns
split-names lib [] h hs = absurd (h refl)
split-names lib (n ∷ ns) h hs =
    split-join b';' n ns hs.0.3 (All-imp (IsName lib) (IsFree b';') (λ m hm. hm.3) ns hs.1)

parse_signed_headers-names :
    (lib : Library) (ns : List Text) (resource : Text)
    → IsNames lib ns
    → parse_signed_headers lib (join (codes ";") ns) resource ≡ ok ns
unfolding parse_signed_headers
parse_signed_headers-names lib ns resource (some_name, named, in_order) =
    rw (split-names lib ns some_name named, nonempty-names lib ns named, lowered-names lib ns named)
      (rw (nonempty-false ns some_name, in_order, ==_refl ns) refl)

amz_date_from_headers-stamp :
    (lib : Library) (request : Request) (date : Text)
    → request.header (codes "x-amz-date") ≡ ok (some date)
    → is_amz_date date ≡ true
    → amz_date_from_headers lib request ≡ ok date
unfolding amz_date_from_headers is_amz_date
amz_date_from_headers-stamp lib request [] there h = absurd (ground arith)
amz_date_from_headers-stamp lib request (c ∷ s) there h = rw (there, h) refl

names-nonempty :
    (lib : Library) (ns : List Text) → ns ≢ [] → All (IsName lib) ns → join (codes ";") ns ≢ []
names-nonempty lib [] h hs = absurd (h refl)
names-nonempty lib (n ∷ []) h hs = hs.0.0
names-nonempty lib (n ∷ m ∷ ns) h hs = append-nonempty n _ hs.0.0

names-IsField :
    (lib : Library) (ns : List Text) → All (IsName lib) ns → IsField (join (codes ";") ns)
names-IsField lib ns hs =
    join-All (λ c. ends_field c ≡ false) (codes ";") ns (refl, tt)
      (All-imp (IsName lib) IsField (λ n hn. hn.2) ns hs)

-- The credentials that a request with an Authorization header may carry.
abbrev pub IsClient : Library → SigV4Auth → Type 0
IsClient lib a =
    IsCredential a
    × IsNames lib a.signed_headers
    × IsDigest lib a.signature
    × (is_amz_date a.amz_date ≡ true)
    × (a.source ≡ header)
    × (a.expires ≡ none)

header_re :
    (lib : Library) (a : SigV4Auth)
    → IsClient lib a
    → authorization_re (strip (authorization a))
      ≡ some (credential a, join (codes ";") a.signed_headers, a.signature)
header_re lib a (cred, names, digest, stamp, source, expires) =
    ap authorization_re (strip-authorization a (digest-nonempty a.signature digest.0) digest.1)
    ∙ authorization_re-printed (credential a) (join (codes ";") a.signed_headers) a.signature
        digest.0 digest.1 (names-nonempty lib a.signed_headers names.0 names.1)
        (names-IsField lib a.signed_headers names.1) (credential-nonempty a cred)
        (credential-IsField a cred)
  where
    digest-nonempty : (s : Text) → length s ≡ 64 → s ≢ []
    digest-nonempty [] h = absurd (omega arith)
    digest-nonempty (c ∷ s) h = cons-ne-nil _ _

parse_credential-credential :
    (a : SigV4Auth) (resource : Text)
    → IsCredential a
    → parse_credential (credential a) resource
      ≡ ok (a.access_key_id, a.datestamp, a.region, a.service)
unfolding parse_credential
parse_credential-credential a resource h =
    ap (groups_or_denied resource) (credential_re-credential a h)

matched_credentials-client :
    (lib : Library) (request : Request) (a : SigV4Auth)
    → IsClient lib a
    → request.header (codes "x-amz-date") ≡ ok (some a.amz_date)
    → matched_credentials lib request
        (some (credential a, join (codes ";") a.signed_headers, a.signature))
      ≡ ok a
unfolding matched_credentials
matched_credentials-client lib request a (cred, names, digest, stamp, source, expires) dated =
    rw
      (
        parse_credential-credential a request.path cred,
        parse_signed_headers-names lib a.signed_headers request.path names,
        amz_date_from_headers-stamp lib request a.amz_date dated stamp,
        digest.2,
      )
      (ap₂ (λ s e. ok (record a { source = s; expires = e })) (sym source) (sym expires))

-- For credentials whose parts are tokens, with a date of eight digits, sorted names of headers in
-- lower case, a digest in lower-case hexadecimal digits and a stamp in the format of `x-amz-date`: a
-- request that carries them in its Authorization and x-amz-date headers has them read back.
pub extract_sigv4_auth-authorization :
    (lib : Library) (request : Request) (a : SigV4Auth)
    → IsClient lib a
    → request.header (codes "authorization") ≡ ok (some (authorization a))
    → request.header (codes "x-amz-date") ≡ ok (some a.amz_date)
    → extract_sigv4_auth lib request ≡ ok a
unfolding extract_sigv4_auth parse_authorization_header
extract_sigv4_auth-authorization lib request a h carried dated = rw carried (
    ap (matched_credentials lib request) (header_re lib a h)
    ∙ matched_credentials-client lib request a h dated)

-- With a MAC that returns bytes: a request that carries such credentials in its headers, of a stored
-- and enabled key of a stored and enabled user, signed with the key's secret in the server's scope and
-- in time, is authenticated as this user.
pub require_auth-signed :
    (ctx : Context) (request : Request) (a : SigV4Auth) (payload_hash : Text) (key : UserKey)
    (user : User) (secret : Text)
    → ((k m : Text) → All (λ b. b < 256) (ctx.lib.hmac_sha256 k m))
    → IsClient ctx.lib a
    → request.header (codes "authorization") ≡ ok (some (authorization a))
    → request.header (codes "x-amz-date") ≡ ok (some a.amz_date)
    → resolve_payload_hash ctx.lib request ≡ ok payload_hash
    → select_key a.access_key_id ctx.keys ≡ some key
    → key.is_enabled ≡ true
    → select_user key.user_id ctx.users ≡ some user
    → user.is_enabled ≡ true
    → ctx.decrypt_string key.secret_access_key_encrypted ≡ ok secret
    → IsSigned ctx.lib ctx.now request a secret ctx.expected payload_hash
    → require_auth ctx request ≡ ok user
require_auth-signed ctx request a payload_hash key user secret bytes h carried dated resolved stored
      enabled owned enabled' decrypted signed =
    (require_auth-IsAuthenticated ctx request user bytes).1 (
      a,
      payload_hash,
      key,
      secret,
      extract_sigv4_auth-authorization ctx.lib request a h carried dated,
      resolved,
      stored,
      enabled,
      owned,
      enabled',
      decrypted,
      signed,
    )
