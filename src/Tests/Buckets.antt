-- ===== src/Tests/Buckets.antt =====
-- app/s3/, app/xml/ and app/services/ for buckets, at a concrete bucket and concrete documents.
use hidden.Base.{
  ℕ, ◌<◌, ◌≡◌, refl, true, false, none, some, [], ◌∷◌, Text, codes, nat_eq, list_eq, All, pos,
  arith,
}
use hidden.Xml.{Element, element, done, also}
use hidden.Xml.ObjectLock.{Configuration, parse_bucket_object_lock}
use hidden.Bucket.{
  User, S3Bucket, bucket_versioning_disabled, bucket_versioning_enabled, select_bucket,
  get_bucket_default_object_lock,
}
use hidden.Bucket.Constraints.{accepted}
use hidden.Bucket.Services.{World, bucket_versioning_update, bucket_object_lock_update}
use hidden.Bucket.Valid.{IsValid, retention_valid, IsValid-accepted}
use hidden.Bucket.Parsed.{parse_bucket_object_lock-valid}
use hidden.Bucket.History.{
  Effect, bucket_versioning_update-Effect, bucket_object_lock_update-Effect,
}
use hidden.Bucket.Permanence.{
  versioning, object_lock, Reach, here, next, Reach-IsValid, Reach-Enabled,
}
use hidden.Bucket.Deadline.{get_bucket_default_object_lock-later}

abbrev name : Text
name = codes "abc"

abbrev owner : User
owner = record {
  id = 7;
  created_at = 0;
  updated_at = none;
  username = codes "ada";
  is_enabled = true;
  is_root = false;
}

abbrev fresh : S3Bucket
fresh = record {
  id = 1;
  user_id = 7;
  created_at = 0;
  bucket_name = codes "abc";
  versioning_status = codes "Enabled";
  object_lock_enabled = false;
  default_lock_mode = none;
  default_retention_days = none;
  default_retention_years = none;
}

abbrev locked : S3Bucket
locked = record fresh {
  object_lock_enabled = true;
  default_lock_mode = some (codes "GOVERNANCE");
  default_retention_days = some (pos 30);
}

fresh-IsValid : IsValid fresh
fresh-IsValid = record { status = refl; period = refl; locked = λ l. refl; unlocked = λ l. refl }

locked-IsValid : IsValid locked
locked-IsValid = record {
  status = refl;
  period = refl;
  locked = λ l. refl;
  unlocked = λ l. absurd (ground (arith, l));
}

abbrev text : Text → Text → Element
text tag content = element tag (some content) done

-- A default retention of 30 days.
abbrev document : Element
document = element (codes "{ns}ObjectLockConfiguration") none (
    also (text (codes "ObjectLockEnabled") (codes "Enabled")) (
      also
        (element (codes "Rule") none (
          also
            (element (codes "DefaultRetention") none (
              also (text (codes "Mode") (codes "GOVERNANCE"))
                (also (text (codes "Days") (codes " 30 ")) done)))
            done))
        done))

abbrev configuration : Configuration
configuration = record {
  object_lock_enabled = some (codes "Enabled");
  default_retention = record {
    mode = some (codes "GOVERNANCE");
    days = some (pos 30);
    years = none;
  };
}

abbrev suspend : Element
suspend =
    element (codes "VersioningConfiguration") none
      (also (text (codes "Status") (codes "Suspended")) done)

abbrev world : World
world = record { buckets = fresh ∷ []; emitted = [] }

abbrev locked_world : World
locked_world = record { buckets = locked ∷ []; emitted = [] }

document_parsed : parse_bucket_object_lock (some document) ≡ some configuration
unfolding parse_bucket_object_lock hidden.Xml.strip_element
    hidden.Xml.ObjectLock.configuration_elements hidden.Xml.ObjectLock.configuration_element
    hidden.Xml.Literals.strip hidden.Xml.Literals.is_space hidden.Xml.ObjectLock.parse_rule
    hidden.Xml.ObjectLock.parse_default_retention hidden.Xml.ObjectLock.retention_elements
    hidden.Xml.ObjectLock.retention_element hidden.Xml.Literals.int
    hidden.Xml.ObjectLock.check_retention
document_parsed = refl

-- The document gives the bucket Object Lock.
locked_by_document :
    (bucket_object_lock_update none owner name (some document) world).1.buckets ≡ locked ∷ []
unfolding bucket_object_lock_update parse_bucket_object_lock hidden.Xml.strip_element
    hidden.Xml.ObjectLock.configuration_elements hidden.Xml.ObjectLock.configuration_element
    hidden.Xml.Literals.strip hidden.Xml.Literals.is_space hidden.Xml.ObjectLock.parse_rule
    hidden.Xml.ObjectLock.parse_default_retention hidden.Xml.ObjectLock.retention_elements
    hidden.Xml.ObjectLock.retention_element hidden.Xml.Literals.int
    hidden.Xml.ObjectLock.check_retention hidden.Bucket.load_bucket select_bucket
    hidden.Bucket.set_bucket_object_lock_configuration hidden.Bucket.Services.commit
    hidden.Bucket.Services.write_back
locked_by_document = refl

stored : select_bucket name locked_world.buckets ≡ some locked
unfolding select_bucket
stored = refl

fresh_stored : select_bucket name world.buckets ≡ some fresh
unfolding select_bucket
fresh_stored = refl

abbrev after : World
after = (bucket_versioning_update none owner name (some suspend) locked_world).1

abbrev after_lock : World
after_lock = (bucket_object_lock_update none owner name (some document) world).1

after-Reach : Reach locked_world after
after-Reach =
    next locked_world after after (versioning none owner name (some suspend) locked_world)
      (here after)

after_lock-Reach : Reach world after_lock
after_lock-Reach =
    next world after_lock after_lock (object_lock none owner name (some document) world)
      (here after_lock)

Reach-Enabled_example :
    (b' : S3Bucket) × (select_bucket name after.buckets ≡ some b')
    × (b'.user_id ≡ 7)
    × (b'.object_lock_enabled ≡ true)
    × (b'.versioning_status ≡ bucket_versioning_enabled)
Reach-Enabled_example =
    Reach-Enabled locked_world after name locked after-Reach (locked-IsValid, tt) stored refl

Reach-IsValid_example : All IsValid after_lock.buckets
Reach-IsValid_example = Reach-IsValid world after_lock after_lock-Reach (fresh-IsValid, tt)

parse_bucket_object_lock-valid_example : retention_valid configuration.default_retention ≡ true
parse_bucket_object_lock-valid_example =
    parse_bucket_object_lock-valid (some document) configuration document_parsed

IsValid-accepted_example : accepted locked ≡ true
IsValid-accepted_example = IsValid-accepted locked locked-IsValid

get_bucket_default_object_lock-later_example :
    (d : ℕ) × (get_bucket_default_object_lock locked 1000
      ≡ (some (codes "GOVERNANCE"), some (pos d)))
    × (1000 < d)
get_bucket_default_object_lock-later_example =
    get_bucket_default_object_lock-later locked 1000 (codes "GOVERNANCE") locked-IsValid refl refl

bucket_versioning_update-Effect_example : Effect owner name locked_world.buckets after.buckets
bucket_versioning_update-Effect_example =
    bucket_versioning_update-Effect none owner name (some suspend) locked_world

bucket_object_lock_update-Effect_example : Effect owner name world.buckets after_lock.buckets
bucket_object_lock_update-Effect_example =
    bucket_object_lock_update-Effect none owner name (some document) world

abbrev no_mode : S3Bucket
no_mode = record locked { default_lock_mode = none }
