-- ===== src/Auth/Credentials.antt =====
-- `extract_sigv4_auth` of app/security/sigv4.py: the credentials that a request carries.
use hidden.Base.{
  Bool, true, false, not, ◌&&◌, ◌||◌, Option, none, some, List, [], ◌∷◌, Text, codes, ◌==◌, nat_eq,
  list_eq, option_eq, if◌then◌else◌, length, split, map, ℤ, pos, negsuc,
}
use hidden.Errors.{access_denied, Result, ok, err, raise, ◌>>=◌}
use hidden.Xml.Literals.{strip, int}
use hidden.Auth.{Library, Request, SigV4Auth, header, query, algorithm}
use hidden.Auth.Texts.{is_hex}
use hidden.Auth.Times.{is_amz_date}
use hidden.Auth.Patterns.{authorization_re, credential_re}
use hidden.Auth.Canonical.{text_le, sorted, nonempty}

-- `match.groupdict()`, or the error of no match.
abbrev pub groups_or_denied {ℓ} : {A : Type ℓ} → Text → Option A → Result A
groups_or_denied resource none = raise access_denied resource
groups_or_denied resource (some groups) = ok groups

-- `_parse_credential`
unfoldable pub parse_credential : Text → Text → Result (Text × Text × Text × Text)
parse_credential credential resource = groups_or_denied resource (credential_re credential)

-- `_parse_signed_headers`
unfoldable pub parse_signed_headers : Library → Text → Text → Result (List Text)
parse_signed_headers lib raw resource =
    let headers = map (λ part. lib.lower (strip part)) (nonempty (split b';' raw)) in
    if headers == []
    then raise access_denied resource
    else if not (headers == sorted text_le headers)
    then raise access_denied resource
    else ok headers

-- `not value` of a header or of a parameter.
abbrev pub is_empty : Option Text → Bool
is_empty none = true
is_empty (some s) = s == []

abbrev utc_stamp : Text → Result Text → Result Text
utc_stamp resource (ok stamp) = ok stamp
utc_stamp resource (err e) = raise access_denied resource

-- `_amz_date_from_headers`
unfoldable pub amz_date_from_headers : Library → Request → Result Text
amz_date_from_headers lib request = request.header (codes "x-amz-date") >>= λ amz_date.
    elim amz_date [
      | some (c ∷ s) ↦
          if not (is_amz_date (c ∷ s)) then raise access_denied request.path else ok (c ∷ s)
      | _ ↦ request.header (codes "date") >>= λ date_header. elim date_header [
        | some (c ∷ s) ↦ utc_stamp request.path (lib.date_stamp (c ∷ s))
        | _ ↦ raise access_denied request.path
      ]
    ]

-- What follows the match.
unfoldable pub matched_credentials :
    Library → Request → Option (Text × Text × Text) → Result SigV4Auth
matched_credentials lib request none = raise access_denied request.path
matched_credentials lib request (some (credential, signed_headers, signature)) = do
  (access_key_id, datestamp, region, service) ← parse_credential credential request.path
  names ← parse_signed_headers lib signed_headers request.path
  amz_date ← amz_date_from_headers lib request
  ok (record {
    access_key_id = access_key_id;
    datestamp = datestamp;
    region = region;
    service = service;
    signed_headers = names;
    signature = lib.lower signature;
    amz_date = amz_date;
    source = header;
    expires = none;
  })

-- `_parse_authorization_header`
unfoldable pub parse_authorization_header : Library → Request → Text → Result SigV4Auth
unfolding matched_credentials
parse_authorization_header lib request authorization =
    matched_credentials lib request (authorization_re (strip authorization))

abbrev is_positive : ℤ → Bool
is_positive (pos n) = not (n == 0)
is_positive (negsuc n) = false

-- `int(expires_raw)`, which must be positive.
unfoldable pub parse_expires : Text → Text → Result ℤ
parse_expires raw resource = elim (int raw) [
  | none ↦ raise access_denied resource
  | some n ↦ if not (is_positive n) then raise access_denied resource else ok n
]

abbrev or_empty : Option Text → Text
or_empty none = []
or_empty (some s) = s

abbrev is_signature : Option Text → Bool
is_signature none = false
is_signature (some s) = not (s == []) && length s == 64 && is_hex s

-- `_parse_query_auth`
unfoldable pub parse_query_auth : Library → Request → Result SigV4Auth
parse_query_auth lib request =
    let resource = request.path in
    let credential_raw = request.query_param (codes "X-Amz-Credential") in
    let amz_date = request.query_param (codes "X-Amz-Date") in
    let signed_headers_raw = request.query_param (codes "X-Amz-SignedHeaders") in
    let signature = request.query_param (codes "X-Amz-Signature") in
    if not (request.query_param (codes "X-Amz-Algorithm") == some algorithm)
    then raise access_denied resource
    else if is_empty credential_raw || is_empty amz_date || is_empty signed_headers_raw
    then raise access_denied resource
    else if not (is_signature signature)
    then raise access_denied resource
    else elim (request.query_param (codes "X-Amz-Expires")) [
      | none ↦ raise access_denied resource
      | some expires_raw ↦ do
        expires ← parse_expires expires_raw resource
        (access_key_id, datestamp, region, service) ←
            parse_credential (or_empty credential_raw) resource
        names ← parse_signed_headers lib (or_empty signed_headers_raw) resource
        ok (record {
          access_key_id = access_key_id;
          datestamp = datestamp;
          region = region;
          service = service;
          signed_headers = names;
          signature = lib.lower (or_empty signature);
          amz_date = or_empty amz_date;
          source = query;
          expires = some expires;
        })
    ]

unfoldable pub extract_sigv4_auth : Library → Request → Result SigV4Auth
extract_sigv4_auth lib request = request.header (codes "authorization") >>= λ authorization.
    elim authorization [
      | some (c ∷ s) ↦ parse_authorization_header lib request (c ∷ s)
      | _ ↦
          if is_empty (request.query_param (codes "X-Amz-Algorithm"))
          then raise access_denied request.path
          else parse_query_auth lib request
    ]
