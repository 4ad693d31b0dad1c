-- ===== src/Bucket/Constraints.antt =====
-- The check constraints of app/models/bucket.py, in the logic of SQL: a condition on NULL is
-- unknown, and a constraint refuses a row only if its condition is false.
use hidden.Base.{
  Bool, true, false, not, ◌&&◌, ◌||◌, Option, none, some, Text, ◌==◌, nat_eq, list_eq, is_some, ℤ,
}
use hidden.Bucket.{
  S3Bucket, bucket_versioning_disabled, bucket_versioning_enabled, bucket_versioning_suspended,
}
use hidden.Xml.ObjectLock.{is_mode, is_positive}

pub data Truth : Type 0 where
  yes : Truth
  no : Truth
  unknown : Truth

abbrev pub known : Bool → Truth
known true = yes
known false = no

abbrev pub and : Truth → Truth → Truth
and yes q = q
and no q = no
and unknown yes = unknown
and unknown no = no
and unknown unknown = unknown

abbrev pub or : Truth → Truth → Truth
or yes q = yes
or no q = q
or unknown yes = yes
or unknown no = unknown
or unknown unknown = unknown

abbrev pub passes : Truth → Bool
passes yes = true
passes no = false
passes unknown = true

abbrev pub null {ℓ} : {A : Type ℓ} → Option A → Truth
null o = known (not (is_some o))

abbrev pub not_null {ℓ} : {A : Type ℓ} → Option A → Truth
not_null o = known (is_some o)

abbrev positive : Option ℤ → Truth
positive none = unknown
positive (some n) = known (is_positive n)

abbrev in_modes : Option Text → Truth
in_modes none = unknown
in_modes (some mode) = known (is_mode mode)

unfoldable pub ck_buckets_versioning_status : S3Bucket → Truth
ck_buckets_versioning_status b = known (
    b.versioning_status == bucket_versioning_disabled
    || b.versioning_status == bucket_versioning_enabled
    || b.versioning_status == bucket_versioning_suspended)

unfoldable pub ck_buckets_default_retention_days_positive : S3Bucket → Truth
ck_buckets_default_retention_days_positive b =
    or (null b.default_retention_days) (positive b.default_retention_days)

unfoldable pub ck_buckets_default_retention_years_positive : S3Bucket → Truth
ck_buckets_default_retention_years_positive b =
    or (null b.default_retention_years) (positive b.default_retention_years)

abbrev no_default : S3Bucket → Truth
no_default b =
    and (null b.default_lock_mode)
      (and (null b.default_retention_days) (null b.default_retention_years))

unfoldable pub ck_buckets_default_retention : S3Bucket → Truth
ck_buckets_default_retention b = or (no_default b) (
    and (in_modes b.default_lock_mode) (
      or (and (not_null b.default_retention_days) (null b.default_retention_years))
        (and (null b.default_retention_days) (not_null b.default_retention_years))))

unfoldable pub ck_buckets_object_lock_default_retention : S3Bucket → Truth
ck_buckets_object_lock_default_retention b = or (known b.object_lock_enabled) (no_default b)

unfoldable pub ck_buckets_object_lock_versioning : S3Bucket → Truth
ck_buckets_object_lock_versioning b =
    or (known (not b.object_lock_enabled))
      (known (b.versioning_status == bucket_versioning_enabled))

-- The database takes the row.
unfoldable pub accepted : S3Bucket → Bool
accepted b =
    passes (ck_buckets_versioning_status b)
    && passes (ck_buckets_default_retention_days_positive b)
    && passes (ck_buckets_default_retention_years_positive b)
    && passes (ck_buckets_default_retention b)
    && passes (ck_buckets_object_lock_default_retention b)
    && passes (ck_buckets_object_lock_versioning b)
