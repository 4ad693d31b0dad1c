-- ===== src/Auth.antt =====
-- app/security/sigv4.py and app/dependencies/require_auth.py: how a request is authenticated with
-- AWS Signature Version 4. The functions of other packages that it calls are the fields of `Library`.
pub mod Texts
pub mod Times
pub mod Uri
pub mod Patterns
pub mod Canonical
pub mod Credentials
pub mod Verify
pub mod Signature
pub mod Joined
pub mod Lines
pub mod Queries
pub mod Ordered
pub mod Payload
pub mod Covered
pub mod Granted
pub mod Printed
pub mod Accepted
pub mod Signed
use hidden.Base.{ℕ, Option, List, Text, codes, ℤ}
use hidden.Errors.{Result}

-- `str.lower` and `str.upper` over the whole of Unicode; the digests of SHA-256 and of its HMAC, the
-- key first; `parse_qsl` that keeps blank values; and the `Date` header as a stamp in UTC, whose
-- errors are those of `parsedate_to_datetime`.
pub record Library : Type 0 where
  pub lower : Text → Text
  pub upper : Text → Text
  pub sha256 : Text → Text
  pub hmac_sha256 : Text → Text → Text
  pub parse_qsl : Text → List (Text × Text)
  pub date_stamp : Text → Result Text

-- What is read of a request: `request.method`, `request.url.path`, `request.url.query`,
-- `request.headers.get`, `request.query_params.get` and `await request.body()`. A header's name that
-- is not in Latin-1 raises.
pub record Request : Type 0 where
  pub method : Text
  pub path : Text
  pub query : Text
  pub header : Text → Result (Option Text)
  pub query_param : Text → Option Text
  pub body : Result Text

abbrev pub algorithm : Text
algorithm = codes "AWS4-HMAC-SHA256"

abbrev pub aws4_request : Text
aws4_request = codes "aws4_request"

abbrev pub unsigned_payload : Text
unsigned_payload = codes "UNSIGNED-PAYLOAD"

abbrev pub empty_payload_hash : Text
empty_payload_hash = codes "e3b0c44298fc1c149afbf4c8996fb92427ae41e4649b934ca495991b7852b855"

abbrev pub streaming_payload_prefix : Text
streaming_payload_prefix = codes "STREAMING-"

pub data Source : Type 0 where
  header query : Source

pub record SigV4Auth : Type 0 where
  pub access_key_id : Text
  pub datestamp : Text
  pub region : Text
  pub service : Text
  pub signed_headers : List Text
  pub signature : Text
  pub amz_date : Text
  pub source : Source
  pub expires : Option ℤ
