-- ===== src/Bucket/Services.antt =====
-- app/services/bucket_versioning_update.py, bucket_versioning_retrieve.py,
-- bucket_object_lock_update.py and bucket_object_lock_retrieve.py. What a service logs is left out.
use hidden.Base.{
  not, Option, none, some, List, [], ◌∷◌, ◌++◌, Text, codes, ◌==◌, nat_eq, list_eq, if◌then◌else◌,
}
use hidden.Errors.{
  Error, s3, xml_malformed, object_lock_configuration_not_found, Result, ok, err, ◌>>=◌,
}
use hidden.Xml.{Element}
use hidden.Xml.Versioning.{parse_bucket_versioning}
use hidden.Xml.ObjectLock.{parse_bucket_object_lock}
use hidden.Bucket.{
  User, S3Bucket, load_bucket, get_bucket_versioning_status, set_bucket_versioning_status,
  set_bucket_object_lock_configuration,
}

-- The events that are emitted, with the bucket that the subscribers get.
pub data Hook : Type 0 where
  bucket_versioning_updated : S3Bucket → Hook
  bucket_versioning_retrieved : S3Bucket → Hook
  bucket_object_lock_updated : S3Bucket → Hook
  bucket_object_lock_retrieved : S3Bucket → Hook

-- The committed rows, and what has been emitted.
pub record World : Type 0 where
  pub buckets : List S3Bucket
  pub emitted : List Hook

abbrev pub resource_of : Text → Option Text
resource_of bucket_name = some (codes "/" ++ bucket_name)

-- The row that was loaded by its name, which is unique, is written back.
unfoldable pub write_back : Text → S3Bucket → List S3Bucket → List S3Bucket
write_back name bucket [] = []
write_back name bucket (b ∷ rows) =
    let others = write_back name bucket rows in
    if b.bucket_name == name then bucket ∷ rows else b ∷ others

-- `update` and `commit`, which may raise `fault`; the session is rolled back then.
unfoldable pub commit : Option Error → Text → S3Bucket → Hook → World → Result (Unit {0}) × World
commit (some fault) name bucket hook w = (err fault, w)
commit none name bucket hook w = (
  ok tt,
  record { buckets = write_back name bucket w.buckets; emitted = w.emitted ++ (hook ∷ []) },
)

unfoldable pub bucket_versioning_update :
    Option Error → User → Text → Option Element → World → Result (Unit {0}) × World
bucket_versioning_update fault current_user bucket_name body w =
    let resource = resource_of bucket_name in
    elim (parse_bucket_versioning body) [
      | none ↦ (err (s3 xml_malformed resource), w)
      | some versioning_status ↦
          elim (do
            bucket ← load_bucket w.buckets bucket_name current_user resource
            set_bucket_versioning_status bucket versioning_status resource) [
              | err e ↦ (err e, w)
              | ok bucket ↦ commit fault bucket_name bucket (bucket_versioning_updated bucket) w
            ]
    ]

unfoldable pub bucket_object_lock_update :
    Option Error → User → Text → Option Element → World → Result (Unit {0}) × World
bucket_object_lock_update fault current_user bucket_name body w =
    let resource = resource_of bucket_name in
    elim (parse_bucket_object_lock body) [
      | none ↦ (err (s3 xml_malformed resource), w)
      | some c ↦
          elim (do
            bucket ← load_bucket w.buckets bucket_name current_user resource
            set_bucket_object_lock_configuration bucket c.object_lock_enabled
                c.default_retention.mode c.default_retention.days c.default_retention.years
                resource) [
                  | err e ↦ (err e, w)
                  | ok bucket ↦
                      commit fault bucket_name bucket (bucket_object_lock_updated bucket) w
                ]
    ]

unfoldable pub bucket_versioning_retrieve : User → Text → World → Result (Option Text) × World
bucket_versioning_retrieve current_user bucket_name w =
    elim (load_bucket w.buckets bucket_name current_user (resource_of bucket_name)) [
      | err e ↦ (err e, w)
      | ok bucket ↦ (
        ok (get_bucket_versioning_status bucket),
        record w { emitted = w.emitted ++ (bucket_versioning_retrieved bucket ∷ []) },
      )
    ]

unfoldable pub bucket_object_lock_retrieve : User → Text → World → Result S3Bucket × World
bucket_object_lock_retrieve current_user bucket_name w =
    let resource = resource_of bucket_name in
    elim (load_bucket w.buckets bucket_name current_user resource) [
      | err e ↦ (err e, w)
      | ok bucket ↦
          if not bucket.object_lock_enabled
          then (err (s3 object_lock_configuration_not_found resource), w)
          else (
            ok bucket,
            record w { emitted = w.emitted ++ (bucket_object_lock_retrieved bucket ∷ []) },
          )
    ]
