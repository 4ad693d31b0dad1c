-- ===== src/Bucket/Deadline.antt =====
-- The default retention that a new object version gets.
use hidden.Base.{
  ℕ, zero, suc, ◌+◌, ◌*◌, ◌<◌, ◌≡◌, refl, true, Option, none, some, Text, nat_eq, list_eq,
  option_eq, ℤ, pos, negsuc, arith,
}
use hidden.Bucket.{
  S3Bucket, seconds_per_day, seconds_per_year, deadline, get_bucket_default_object_lock,
}
use hidden.Bucket.Valid.{IsValid, one_period}
use hidden.Xml.ObjectLock.{is_positive}

grows : (now seconds n : ℕ) → now + suc n * seconds ≡ now + (n * seconds + seconds)
grows now seconds n = omega arith

deadline-positive :
    (now seconds : ℕ) (n : ℤ)
    → 0 < seconds
    → is_positive n ≡ true
    → (d : ℕ) × (deadline now n seconds ≡ pos d) × (now < d)
unfolding deadline
deadline-positive now seconds (pos zero) more h = absurd (ground (arith, h))
deadline-positive now seconds (pos (suc n)) more h =
    (now + suc n * seconds, refl, omega (arith, more, grows now seconds n))
deadline-positive now seconds (negsuc n) more h = absurd (ground (arith, h))

default_deadline :
    (now : ℕ) (days years : Option ℤ) (b : S3Bucket) (mode : Text)
    → b.object_lock_enabled ≡ true
    → b.default_lock_mode ≡ some mode
    → b.default_retention_days ≡ days
    → b.default_retention_years ≡ years
    → one_period days years ≡ true
    → (d : ℕ) × (get_bucket_default_object_lock b now ≡ (some mode, some (pos d))) × (now < d)
unfolding get_bucket_default_object_lock
default_deadline now none none b mode on has d y h = absurd (ground (arith, h))
default_deadline now (some days) (some years) b mode on has d y h = absurd (ground (arith, h))
default_deadline now (some days) none b mode on has d y h =
    let (until, at, later) = deadline-positive now seconds_per_day days (omega arith) h in
    (until, ground (arith, on, has, d, at), later)
default_deadline now none (some years) b mode on has d y h =
    let (until, at, later) = deadline-positive now seconds_per_year years (omega arith) h in
    (until, ground (arith, on, has, d, y, at), later)

-- A new object version in a valid bucket with Object Lock and a default retention mode gets that
-- mode and a deadline that is later than now.
pub get_bucket_default_object_lock-later :
    (b : S3Bucket) (now : ℕ) (mode : Text)
    → IsValid b
    → b.object_lock_enabled ≡ true
    → b.default_lock_mode ≡ some mode
    → (d : ℕ) × (get_bucket_default_object_lock b now ≡ (some mode, some (pos d))) × (now < d)
get_bucket_default_object_lock-later b now mode v on has =
    default_deadline now b.default_retention_days b.default_retention_years b mode on has refl refl
      (ground (arith, has, v.period))
