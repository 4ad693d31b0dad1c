-- ===== src/Multipart.antt =====
-- app/s3/multipart.py with its rows, app/models/object_multipart.py and
-- app/models/object_multipart_part.py: the uploads in progress and their parts.
pub mod Completion
pub mod Parts
use hidden.Base.{
  ℕ, zero, suc, ◌+◌, ◌*◌, ◌≡◌, Bool, true, false, not, ◌&&◌, ◌||◌, Option, none, some, List, [],
  ◌∷◌, ◌++◌, Text, codes, ◌==◌, nat_eq, list_eq, if◌then◌else◌, ltb, leb, take,
}
use hidden.Errors.{
  s3, object_upload_not_found, object_part_invalid, object_part_number_invalid,
  object_part_order_invalid, object_part_too_small, Result, ok, err,
}
use hidden.Paths.Resolve.{resolve_multipart_part_path}
use hidden.Bucket.{S3Bucket}

pub record S3ObjectMultipart : Type 0 where
  pub id : ℕ
  pub bucket_id : ℕ
  pub user_id : ℕ
  pub created_at : ℕ
  pub object_key : Text
  pub upload_id : Text
  pub content_type : Text

pub record S3ObjectMultipartPart : Type 0 where
  pub object_multipart_id : ℕ
  pub modified_at : ℕ
  pub part_number : ℕ
  pub size_bytes : ℕ
  pub etag : Text

-- One part of a CompleteMultipartUpload request.
pub record MultipartPart : Type 0 where
  pub part_number : ℕ
  pub etag : Text

abbrev pub object_part_number_max : ℕ
object_part_number_max = 10000

abbrev pub object_part_size_min_bytes : ℕ
object_part_size_min_bytes = 1024 * 1024 * 5

unfoldable pub select_multipart : Text → List S3ObjectMultipart → Option S3ObjectMultipart
select_multipart upload_id [] = none
select_multipart upload_id (m ∷ rows) =
    let later = select_multipart upload_id rows in
    if m.upload_id == upload_id then some m else later

unfoldable pub load_multipart :
    List S3ObjectMultipart → S3Bucket → Text → Text → Option Text → Result S3ObjectMultipart
load_multipart rows bucket object_key upload_id resource = elim (select_multipart upload_id rows) [
  | none ↦ err (s3 object_upload_not_found resource)
  | some multipart ↦
      if not (multipart.bucket_id == bucket.id)
      then err (s3 object_upload_not_found resource)
      else if not (multipart.object_key == object_key)
      then err (s3 object_upload_not_found resource)
      else ok multipart
]

abbrev pub is_part : ℕ → ℕ → S3ObjectMultipartPart → Bool
is_part multipart_id part_number row =
    row.object_multipart_id == multipart_id && row.part_number == part_number

unfoldable pub select_part : ℕ → ℕ → List S3ObjectMultipartPart → Option S3ObjectMultipartPart
select_part multipart_id part_number [] = none
select_part multipart_id part_number (row ∷ rows) =
    let later = select_part multipart_id part_number rows in
    if is_part multipart_id part_number row then some row else later

-- Where the row exists it is updated in place, with the time of the call; a new one is inserted.
unfoldable pub upsert_multipart_part :
    ℕ → ℕ → ℕ → ℕ → Text → List S3ObjectMultipartPart → List S3ObjectMultipartPart
upsert_multipart_part now multipart_id part_number size_bytes etag [] =
    record {
      object_multipart_id = multipart_id;
      modified_at = now;
      part_number = part_number;
      size_bytes = size_bytes;
      etag = etag;
    }
    ∷ []
upsert_multipart_part now multipart_id part_number size_bytes etag (row ∷ rows) =
    let others = upsert_multipart_part now multipart_id part_number size_bytes etag rows in
    if is_part multipart_id part_number row
    then record row { size_bytes = size_bytes; etag = etag; modified_at = now } ∷ rows
    else row ∷ others

-- The rows of the upload are deleted.
unfoldable pub delete_multipart_parts : ℕ → List S3ObjectMultipartPart → List S3ObjectMultipartPart
delete_multipart_parts multipart_id [] = []
delete_multipart_parts multipart_id (row ∷ rows) =
    let others = delete_multipart_parts multipart_id rows in
    if row.object_multipart_id == multipart_id then others else row ∷ others

abbrev pub is_last : List MultipartPart → Bool
is_last [] = true
is_last (p ∷ ps) = false

-- The loop of `load_multipart_parts`, from the part number before; `isfile` is the file system's.
unfoldable pub load_parts :
    (Text → Bool)
    → List S3ObjectMultipartPart
    → ℕ
    → Text
    → Option Text
    → ℕ
    → List MultipartPart
    → Result (List Text × List Text)
load_parts isfile rows multipart_id upload_path resource previous [] = ok ([], [])
load_parts isfile rows multipart_id upload_path resource previous (part ∷ parts) =
    let rest = load_parts isfile rows multipart_id upload_path resource part.part_number parts in
    if leb part.part_number previous
    then err (s3 object_part_order_invalid resource)
    else if ltb object_part_number_max part.part_number
    then err (s3 object_part_number_invalid resource)
    else elim (select_part multipart_id part.part_number rows) [
      | none ↦ err (s3 object_part_invalid resource)
      | some row ↦
          let path = resolve_multipart_part_path upload_path part.part_number in
          if not (isfile path)
          then err (s3 object_part_invalid resource)
          else if not (is_last parts) && ltb row.size_bytes object_part_size_min_bytes
          then err (s3 object_part_too_small resource)
          else elim rest [ err e ↦ err e | ok (paths, etags) ↦ ok (path ∷ paths, row.etag ∷ etags) ]
    ]

unfoldable pub load_multipart_parts :
    (Text → Bool)
    → List S3ObjectMultipartPart
    → S3ObjectMultipart
    → Text
    → List MultipartPart
    → Option Text
    → Result (List Text × List Text)
load_multipart_parts isfile rows multipart upload_path parts resource =
    load_parts isfile rows multipart.id upload_path resource 0 parts
