-- ===== src/Bucket/Valid.antt =====
-- What a bucket's Object Lock and default retention have to be, and that the parser and the setters
-- keep it.
use hidden.Base.{
  ℕ, suc, pos, subst, ◌⊎◌, inl, inr, ==_iff, ==_refl, ◌≡◌, refl, Bool, true, false, not, ◌&&◌, ◌||◌,
  Option, none, some, Text, codes, ◌==◌, nat_eq, list_eq, option_eq, is_some, ℤ, arith, Bool-cases,
}
use hidden.Errors.{ok, ok-injective}
use hidden.Bucket.{
  S3Bucket, bucket_versioning_disabled, bucket_versioning_enabled, bucket_versioning_suspended,
  set_bucket_versioning_status, set_bucket_object_lock_configuration,
}
use hidden.Bucket.Constraints.{
  accepted, ck_buckets_versioning_status, ck_buckets_default_retention_days_positive,
  ck_buckets_default_retention_years_positive, ck_buckets_default_retention,
  ck_buckets_object_lock_default_retention, ck_buckets_object_lock_versioning, passes,
}
use hidden.Xml.ObjectLock.{Retention, is_mode, is_positive}

-- Exactly one period is given, and it is positive.
abbrev pub one_period : Option ℤ → Option ℤ → Bool
one_period none none = false
one_period (some days) none = is_positive days
one_period none (some years) = is_positive years
one_period (some days) (some years) = false

-- Either there is no default retention at all, or it has a mode and one period.
abbrev pub retention_valid : Retention → Bool
retention_valid r = elim r.mode [
  | none ↦ not (is_some r.days) && not (is_some r.years)
  | some mode ↦ is_mode mode && one_period r.days r.years
]

abbrev pub retention : S3Bucket → Retention
retention b = record {
  mode = b.default_lock_mode;
  days = b.default_retention_days;
  years = b.default_retention_years;
}

abbrev status_valid : Text → Bool
status_valid status =
    status == bucket_versioning_disabled
    || status == bucket_versioning_enabled
    || status == bucket_versioning_suspended

-- The bucket has a known status and a whole default retention or none; Object Lock needs Enabled
-- versioning, and a default retention needs Object Lock.
pub record IsValid (b : S3Bucket) : Type 0 where
  pub status : status_valid b.versioning_status ≡ true
  pub period : retention_valid (retention b) ≡ true
  pub locked : b.object_lock_enabled ≡ true → b.versioning_status ≡ bucket_versioning_enabled
  pub unlocked : b.object_lock_enabled ≡ false → b.default_lock_mode ≡ none

-- What it takes, and what it does then.
pub set_bucket_versioning_status-cases :
    (b b' : S3Bucket) (status : Text) (resource : Option Text)
    → set_bucket_versioning_status b status resource ≡ ok b'
    → ((status ≡ bucket_versioning_enabled)
        ⊎ ((status ≡ bucket_versioning_suspended) × (b.object_lock_enabled ≡ false)))
      × (record b { versioning_status = status } ≡ b')
unfolding set_bucket_versioning_status
set_bucket_versioning_status-cases b b' status resource h =
    elim (Bool-cases (status == bucket_versioning_enabled)) [
      | inl hit ↦ (
        inl ((==_iff status bucket_versioning_enabled).0 hit),
        ok-injective (ground (arith, h, hit, ==_refl bucket_versioning_enabled)),
      )
      | inr miss ↦ elim (Bool-cases (status == bucket_versioning_suspended)) [
        | inl hit ↦ (
          inr ((==_iff status bucket_versioning_suspended).0 hit, ground (arith, h, miss, hit)),
          ok-injective (ground (arith, h, miss, hit)),
        )
        | inr neither ↦ absurd (ground (arith, h, miss, neither))
      ]
    ]

-- `set_bucket_versioning_status` keeps a bucket valid.
pub set_bucket_versioning_status-IsValid :
    (b b' : S3Bucket) (status : Text) (resource : Option Text)
    → IsValid b
    → set_bucket_versioning_status b status resource ≡ ok b'
    → IsValid b'
set_bucket_versioning_status-IsValid b b' status resource v h =
    let (cases, same) = set_bucket_versioning_status-cases b b' status resource h in
    subst IsValid same (record {
      status = (elim cases [ inl on ↦ rw on refl | inr off ↦ rw (off.0) refl ]);
      period = v.period;
      locked = λ l. elim cases [ inl on ↦ on | inr off ↦ absurd (ground (arith, l, off.1)) ];
      unlocked = v.unlocked;
    })

-- What it takes, and what it does then.
pub set_bucket_object_lock_configuration-cases :
    (b b' : S3Bucket) (enabled mode : Option Text) (days years : Option ℤ) (resource : Option Text)
    → set_bucket_object_lock_configuration b enabled mode days years resource ≡ ok b'
    → (b.versioning_status ≡ bucket_versioning_enabled)
      × (record b {
        object_lock_enabled = true;
        default_lock_mode = mode;
        default_retention_days = days;
        default_retention_years = years;
      }
          ≡ b')
unfolding set_bucket_object_lock_configuration
set_bucket_object_lock_configuration-cases b b' enabled mode days years resource h =
    elim (Bool-cases (b.versioning_status == bucket_versioning_enabled)) [
      | inl hit ↦
          elim (Bool-cases (not b.object_lock_enabled && not (enabled == some (codes "Enabled")))) [
            | inl bad ↦ absurd (ground (arith, h, hit, bad))
            | inr good ↦ (
              (==_iff b.versioning_status bucket_versioning_enabled).0 hit,
              ok-injective (ground (arith, h, hit, good)),
            )
          ]
      | inr miss ↦ absurd (ground (arith, h, miss))
    ]

-- `set_bucket_object_lock_configuration` keeps a bucket valid if the default retention is.
pub set_bucket_object_lock_configuration-IsValid :
    (b b' : S3Bucket) (enabled mode : Option Text) (days years : Option ℤ) (resource : Option Text)
    → IsValid b
    → retention_valid (record { mode = mode; days = days; years = years }) ≡ true
    → set_bucket_object_lock_configuration b enabled mode days years resource ≡ ok b'
    → IsValid b'
set_bucket_object_lock_configuration-IsValid b b' enabled mode days years resource v valid h =
    let (on, same) =
      set_bucket_object_lock_configuration-cases b b' enabled mode days years resource h in
    subst IsValid same (record {
      status = v.status;
      period = valid;
      locked = λ l. on;
      unlocked = λ l. absurd (ground (arith, l));
    })

retention_valid-accepted :
    (b : S3Bucket)
    → retention_valid (retention b) ≡ true
    → (passes (ck_buckets_default_retention_days_positive b) ≡ true)
      × (passes (ck_buckets_default_retention_years_positive b) ≡ true)
      × (passes (ck_buckets_default_retention b) ≡ true)
unfolding ck_buckets_default_retention_days_positive ck_buckets_default_retention_years_positive
    ck_buckets_default_retention
retention_valid-accepted b h = (ground (arith, h), ground (arith, h), ground (arith, h))

lock-accepted :
    (b : S3Bucket)
    → IsValid b
    → (passes (ck_buckets_object_lock_default_retention b) ≡ true)
      × (passes (ck_buckets_object_lock_versioning b) ≡ true)
unfolding ck_buckets_object_lock_default_retention ck_buckets_object_lock_versioning
lock-accepted b v = elim (Bool-cases b.object_lock_enabled) [
  | inl on ↦ (ground (arith, on), rw (on, v.locked on) refl)
  | inr off ↦ (ground (arith, off, v.unlocked off, v.period), ground (arith, off))
]

-- A valid bucket passes every check constraint of its table.
pub IsValid-accepted : (b : S3Bucket) → IsValid b → accepted b ≡ true
unfolding accepted ck_buckets_versioning_status
IsValid-accepted b v =
    let (days, years, one) = retention_valid-accepted b v.period in
    let (default, versioning) = lock-accepted b v in
    ground (arith, v.status, days, years, one, default, versioning)

-- The constraints take more than valid buckets: with Object Lock and Enabled versioning, a row with
-- a positive number of days, no years and no mode at all passes every one of them, since a mode
-- that is NULL makes the constraint on the default retention unknown.
accepted-null_mode :
    (b : S3Bucket) (n : ℕ)
    → b.versioning_status ≡ bucket_versioning_enabled
    → b.object_lock_enabled ≡ true
    → b.default_lock_mode ≡ none
    → b.default_retention_days ≡ some (pos (suc n))
    → b.default_retention_years ≡ none
    → (accepted b ≡ true) × (retention_valid (retention b) ≡ false)
unfolding accepted ck_buckets_versioning_status ck_buckets_default_retention_days_positive
    ck_buckets_default_retention_years_positive ck_buckets_default_retention
    ck_buckets_object_lock_default_retention ck_buckets_object_lock_versioning
accepted-null_mode b n status on mode days years =
    (ground (arith, status, on, mode, days, years), ground (arith, mode, days, years))
