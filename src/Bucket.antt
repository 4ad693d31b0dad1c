-- ===== src/Bucket.antt =====
-- app/models/bucket.py, app/s3/bucket.py, app/s3/versioning.py and app/s3/object_lock.py: a bucket,
-- its versioning and its Object Lock.
pub mod Constraints
pub mod Services
pub mod Valid
pub mod Parsed
pub mod History
pub mod Permanence
pub mod Deadline
use hidden.Base.{
  ℕ, suc, ◌+◌, ◌*◌, ◌≡◌, refl, Bool, true, false, not, ◌&&◌, ◌||◌, Option, none, some, List, [],
  ◌∷◌, Text, codes, ◌==◌, nat_eq, list_eq, option_eq, if◌then◌else◌, leb, ◌-◌, ℤ, pos, negsuc,
}
use hidden.Errors.{
  s3, access_denied, bucket_not_found, bucket_state_invalid, illegal_versioning_configuration,
  xml_malformed, Result, ok, err,
}

pub record User : Type 0 where
  pub id : ℕ
  pub created_at : ℕ
  pub updated_at : Option ℕ
  pub username : Text
  pub is_enabled : Bool
  pub is_root : Bool

pub record S3Bucket : Type 0 where
  pub id : ℕ
  pub user_id : ℕ
  pub created_at : ℕ
  pub bucket_name : Text
  pub versioning_status : Text
  pub object_lock_enabled : Bool
  pub default_lock_mode : Option Text
  pub default_retention_days : Option ℤ
  pub default_retention_years : Option ℤ

abbrev pub bucket_versioning_disabled : Text
bucket_versioning_disabled = codes "Disabled"

abbrev pub bucket_versioning_enabled : Text
bucket_versioning_enabled = codes "Enabled"

abbrev pub bucket_versioning_suspended : Text
bucket_versioning_suspended = codes "Suspended"

abbrev pub seconds_per_day : ℕ
seconds_per_day = 24 * 60 * 60

abbrev pub seconds_per_year : ℕ
seconds_per_year = 365 * seconds_per_day

-- `repo.select(S3Bucket, bucket_name=...)` on the rows of the table.
unfoldable pub select_bucket : Text → List S3Bucket → Option S3Bucket
select_bucket name [] = none
select_bucket name (b ∷ rows) =
    let later = select_bucket name rows in if b.bucket_name == name then some b else later

unfoldable pub load_bucket : List S3Bucket → Text → User → Option Text → Result S3Bucket
load_bucket rows bucket_name user resource = elim (select_bucket bucket_name rows) [
  | none ↦ err (s3 bucket_not_found resource)
  | some bucket ↦
      if not user.is_root && not (bucket.user_id == user.id)
      then err (s3 access_denied resource)
      else ok bucket
]

unfoldable pub get_bucket_versioning_status : S3Bucket → Option Text
get_bucket_versioning_status bucket =
    if bucket.versioning_status == bucket_versioning_disabled
    then none
    else some bucket.versioning_status

unfoldable pub set_bucket_versioning_status : S3Bucket → Text → Option Text → Result S3Bucket
set_bucket_versioning_status bucket versioning_status resource =
    if not (
      versioning_status == bucket_versioning_enabled
      || versioning_status == bucket_versioning_suspended)
    then err (s3 illegal_versioning_configuration resource)
    else if bucket.object_lock_enabled && versioning_status == bucket_versioning_suspended
    then err (s3 bucket_state_invalid resource)
    else ok (record bucket { versioning_status = versioning_status })

unfoldable pub set_bucket_object_lock_configuration :
    S3Bucket → Option Text → Option Text → Option ℤ → Option ℤ → Option Text → Result S3Bucket
set_bucket_object_lock_configuration bucket object_lock_enabled default_lock_mode
      default_retention_days default_retention_years resource =
    if not (bucket.versioning_status == bucket_versioning_enabled)
    then err (s3 bucket_state_invalid resource)
    else if not bucket.object_lock_enabled && not (object_lock_enabled == some (codes "Enabled"))
    then err (s3 xml_malformed resource)
    else ok (record bucket {
      object_lock_enabled = true;
      default_lock_mode = default_lock_mode;
      default_retention_days = default_retention_days;
      default_retention_years = default_retention_years;
    })

-- `now + n * seconds`
unfoldable pub deadline : ℕ → ℤ → ℕ → ℤ
deadline now (pos n) seconds = pos (now + n * seconds)
deadline now (negsuc n) seconds =
    if leb (suc n * seconds) now
    then pos (now - suc n * seconds)
    else negsuc (suc n * seconds - now - 1)

unfoldable pub get_bucket_default_object_lock : S3Bucket → ℕ → Option Text × Option ℤ
get_bucket_default_object_lock bucket now =
    if not bucket.object_lock_enabled || bucket.default_lock_mode == none
    then (none, none)
    else elim bucket.default_retention_days [
      | some days ↦ (bucket.default_lock_mode, some (deadline now days seconds_per_day))
      | none ↦ elim bucket.default_retention_years [
        | some years ↦ (bucket.default_lock_mode, some (deadline now years seconds_per_year))
        | none ↦ (none, none)
      ]
    ]
