-- ===== src/Errors.antt =====
-- app/errors.py and the statuses of app/handlers.py: the exceptions that the program raises, as
-- values, and the results of code that may raise.
use hidden.Base.{ℕ, ◌≤◌, ◌≢◌, ◌≡◌, ◌⊎◌, inl, inr, refl, String, Option, some, Text, arith}

-- The subclasses of `S3Error`.
pub data S3ErrorKind : Type 0 where
  access_denied : S3ErrorKind
  invalid_access_key_id : S3ErrorKind
  signature_does_not_match : S3ErrorKind
  request_time_too_skewed : S3ErrorKind
  invalid_bucket_name : S3ErrorKind
  bucket_already_exists : S3ErrorKind
  bucket_already_owned_by_you : S3ErrorKind
  bucket_not_found : S3ErrorKind
  bucket_state_invalid : S3ErrorKind
  illegal_versioning_configuration : S3ErrorKind
  object_not_found : S3ErrorKind
  object_key_invalid : S3ErrorKind
  object_key_conflict : S3ErrorKind
  object_too_large : S3ErrorKind
  object_body_incomplete : S3ErrorKind
  object_upload_not_found : S3ErrorKind
  object_part_number_invalid : S3ErrorKind
  object_part_invalid : S3ErrorKind
  object_part_order_invalid : S3ErrorKind
  object_part_too_small : S3ErrorKind
  xml_malformed : S3ErrorKind
  not_implemented : S3ErrorKind
  object_lock_configuration_not_found : S3ErrorKind

-- The code that each one passes to `S3Error`.
unfoldable pub code : S3ErrorKind → String
code access_denied = "AccessDenied"
code invalid_access_key_id = "InvalidAccessKeyId"
code signature_does_not_match = "SignatureDoesNotMatch"
code request_time_too_skewed = "RequestTimeTooSkewed"
code invalid_bucket_name = "InvalidBucketName"
code bucket_already_exists = "BucketAlreadyExists"
code bucket_already_owned_by_you = "BucketAlreadyOwnedByYou"
code bucket_not_found = "NoSuchBucket"
code bucket_state_invalid = "InvalidBucketState"
code illegal_versioning_configuration = "IllegalVersioningConfigurationException"
code object_not_found = "NoSuchKey"
code object_key_invalid = "InvalidArgument"
code object_key_conflict = "InvalidArgument"
code object_too_large = "EntityTooLarge"
code object_body_incomplete = "IncompleteBody"
code object_upload_not_found = "NoSuchUpload"
code object_part_number_invalid = "InvalidArgument"
code object_part_invalid = "InvalidPart"
code object_part_order_invalid = "InvalidPartOrder"
code object_part_too_small = "EntityTooSmall"
code xml_malformed = "MalformedXML"
code not_implemented = "NotImplemented"
code object_lock_configuration_not_found = "ObjectLockConfigurationNotFoundError"

unfoldable pub message : S3ErrorKind → String
message access_denied = "Access to the requested resource is denied."
message invalid_access_key_id = "The provided access key ID does not exist."
message signature_does_not_match =
    "The calculated request signature does not match the provided signature."
message request_time_too_skewed =
    "The difference between the request time and the current time is too large."
message invalid_bucket_name = "The specified bucket is not valid."
message bucket_already_exists =
    "The requested bucket name is not available. The bucket namespace is shared by all users of the system."
message bucket_already_owned_by_you = "The bucket already exists and is owned by the current user."
message bucket_not_found = "The specified bucket does not exist."
message bucket_state_invalid = "The request is not valid for the current state of the bucket."
message illegal_versioning_configuration =
    "The versioning configuration specified in the request is not valid."
message object_not_found = "The specified key does not exist."
message object_key_invalid = "The specified object key is not valid."
message object_key_conflict =
    "The specified object key conflicts with an object already stored in the bucket."
message object_too_large =
    "The uploaded object exceeds the maximum size allowed by a single upload request."
message object_body_incomplete =
    "The request body is incomplete or does not match the chunked encoding declared by the client."
message object_upload_not_found =
    "The specified multipart upload does not exist. It may have been completed or aborted."
message object_part_number_invalid =
    "The part number must be an integer between 1 and 10000, inclusive."
message object_part_invalid =
    "One or more of the listed parts could not be found, or its entity tag does not match the uploaded part."
message object_part_order_invalid =
    "The list of parts was not in ascending order. Parts must be ordered by part number."
message object_part_too_small = "Each part but the last one must be at least 5 MiB in size."
message xml_malformed =
    "The XML provided was not well formed or did not validate against the published schema."
message not_implemented = "The requested S3 operation is not implemented by this server."
message object_lock_configuration_not_found =
    "The Object Lock configuration does not exist for this bucket."

unfoldable pub status_code : S3ErrorKind → ℕ
status_code access_denied = 403
status_code invalid_access_key_id = 403
status_code signature_does_not_match = 403
status_code request_time_too_skewed = 403
status_code invalid_bucket_name = 400
status_code bucket_already_exists = 409
status_code bucket_already_owned_by_you = 409
status_code bucket_not_found = 404
status_code bucket_state_invalid = 409
status_code illegal_versioning_configuration = 400
status_code object_not_found = 404
status_code object_key_invalid = 400
status_code object_key_conflict = 400
status_code object_too_large = 400
status_code object_body_incomplete = 400
status_code object_upload_not_found = 404
status_code object_part_number_invalid = 400
status_code object_part_invalid = 400
status_code object_part_order_invalid = 400
status_code object_part_too_small = 400
status_code xml_malformed = 400
status_code not_implemented = 501
status_code object_lock_configuration_not_found = 404

-- What can be raised: the errors above with their resource, those for the application itself, and
-- the Python exceptions that the modelled code raises or catches.
pub data Error : Type 0 where
  s3 : S3ErrorKind → Option Text → Error
  unauthorized internal_server bad_gateway service_unavailable : Error
  value_error type_error runtime_error unbound_local client_disconnect : Error
  file_not_found file_exists is_a_directory not_a_directory os_error : Error

-- The status of the response that app/handlers.py makes; the server answers 500 to the rest.
unfoldable pub response_status : Error → ℕ
unfolding status_code
response_status (s3 kind resource) = status_code kind
response_status unauthorized = 401
response_status internal_server = 500
response_status bad_gateway = 502
response_status service_unavailable = 503
response_status _ = 500

infixl 5 ◌>>=◌ ◌>>◌
pub data Result {ℓ} (A : Type ℓ) : Type ℓ where
  ok : A → Result A
  err : Error → Result A

pub ok-injective {ℓ} : {A : Type ℓ} {x y : A} → Result.ok x ≡ ok y → x ≡ y
ok-injective e = ground arith

pub Result-cases {ℓ} :
    {A : Type ℓ} (r : Result A) → ((e : Error) × (r ≡ err e)) ⊎ ((a : A) × (r ≡ ok a))
Result-cases (ok a) = inr (a, refl)
Result-cases (err e) = inl (e, refl)

abbrev pub ◌>>=◌ {ℓ κ} : {A : Type ℓ} {B : Type κ} → Result A → (A → Result B) → Result B
ok value >>= next = next value
err error >>= next = err error

-- A chain that returns has returned at each step.
pub bind-ok {ℓ κ} :
    {A : Type ℓ} {B : Type κ} (r : Result A) (next : A → Result B) {b : B}
    → (r >>= next) ≡ ok b
    → (a : A) × (r ≡ ok a) × (next a ≡ ok b)
bind-ok (ok a) next e = (a, refl, e)
bind-ok (err x) next e = absurd (ground arith)

-- `raise S3…Error(resource)`
abbrev pub raise {ℓ} : {A : Type ℓ} → S3ErrorKind → Text → Result A
raise kind resource = err (s3 kind (some resource))

abbrev pub ◌>>◌ {ℓ} : {B : Type ℓ} → Result (Unit {0}) → Result B → Result B
first >> then_ = first >>= λ _. then_

-- The statuses 401, 502 and 503 stand for the application's own failures alone: no S3 error
-- answers with one of them, and each S3 error answers with a client error or 501.
reserved_statuses :
    (kind : S3ErrorKind) (resource : Option Text)
    → (response_status (s3 kind resource) ≢ 401)
      × (response_status (s3 kind resource) ≢ 502)
      × (response_status (s3 kind resource) ≢ 503)
      × (400 ≤ response_status (s3 kind resource))
      × (response_status (s3 kind resource) ≤ 501)
unfolding response_status
reserved_statuses kind resource = ground arith
