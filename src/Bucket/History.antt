-- ===== src/Bucket/History.antt =====
-- What the bucket services can do to the stored rows, one after the other, in any order.
use hidden.Base.{
  ◌≡◌, refl, sym, ap, subst, ◌∙◌, ◌⊎◌, inl, inr, true, false, Option, none, some, List, Text, ◌==◌,
  ==_iff, nat_eq, list_eq, option_eq, arith, Bool-cases, Option-cases,
}
use hidden.Errors.{Error, Result, ok, ok-injective, Result-cases}
use hidden.Xml.{Element}
use hidden.Xml.Versioning.{parse_bucket_versioning}
use hidden.Xml.ObjectLock.{Configuration, parse_bucket_object_lock}
use hidden.Bucket.{
  User, S3Bucket, bucket_versioning_disabled, select_bucket, load_bucket,
  set_bucket_versioning_status, set_bucket_object_lock_configuration,
}
use hidden.Bucket.Services.{
  Hook, bucket_versioning_updated, bucket_object_lock_updated, World, write_back, commit,
  resource_of, bucket_versioning_update, bucket_object_lock_update,
}
use hidden.Bucket.Valid.{
  IsValid, set_bucket_versioning_status-cases, set_bucket_versioning_status-IsValid,
  set_bucket_object_lock_configuration-cases, set_bucket_object_lock_configuration-IsValid,
}
use hidden.Bucket.Parsed.{parse_bucket_object_lock-valid}

-- How one row may change.
pub record Change (b b' : S3Bucket) : Type 0 where
  pub valid : IsValid b → IsValid b'
  pub name : b'.bucket_name ≡ b.bucket_name
  pub owner : b'.user_id ≡ b.user_id
  pub stays_locked : b.object_lock_enabled ≡ true → b'.object_lock_enabled ≡ true
  pub configured : (b'.versioning_status == bucket_versioning_disabled) ≡ false

abbrev pub IsAllowed : User → S3Bucket → Type 0
IsAllowed user b = (user.is_root ≡ true) ⊎ (b.user_id ≡ user.id)

-- Nothing is stored, or one row of a bucket that the user may use has changed.
abbrev pub Effect : User → Text → List S3Bucket → List S3Bucket → Type 0
Effect user name rows rows' =
    (rows' ≡ rows)
    ⊎ ((b b' : S3Bucket) × (select_bucket name rows ≡ some b)
        × IsAllowed user b
        × Change b b'
        × (rows' ≡ write_back name b' rows))

load_bucket-cases :
    (rows : List S3Bucket) (name : Text) (user : User) (resource : Option Text) (b : S3Bucket)
    → load_bucket rows name user resource ≡ ok b
    → (select_bucket name rows ≡ some b) × IsAllowed user b
unfolding load_bucket
load_bucket-cases rows name user resource b h = elim (Option-cases (select_bucket name rows)) [
  | inl missing ↦ absurd (ground (arith, h, missing))
  | inr (c, found) ↦ elim (Bool-cases user.is_root) [
    | inl root ↦ (ground (arith, h, found, root), inl root)
    | inr plain ↦ elim (Bool-cases (c.user_id == user.id)) [
      | inl own ↦ (
        ground (arith, h, found, plain, own),
        inr (
            ap (λ (x : S3Bucket). x.user_id)
              (sym (ok-injective {x = c} {y = b} (ground (arith, h, found, plain, own))))
            ∙ (==_iff c.user_id user.id).0 own),
      )
      | inr foreign ↦ absurd (ground (arith, h, found, plain, foreign))
    ]
  ]
]

versioning-Change :
    (b b' : S3Bucket) (status : Text) (resource : Option Text)
    → set_bucket_versioning_status b status resource ≡ ok b'
    → Change b b'
versioning-Change b b' status resource h =
    let (cases, same) = set_bucket_versioning_status-cases b b' status resource h in
    record {
      valid = λ v. set_bucket_versioning_status-IsValid b b' status resource v h;
      name = ap (λ (x : S3Bucket). x.bucket_name) (sym same);
      owner = ap (λ (x : S3Bucket). x.user_id) (sym same);
      stays_locked = λ l. ap (λ (x : S3Bucket). x.object_lock_enabled) (sym same) ∙ l;
      configured =
          subst (λ (x : S3Bucket). (x.versioning_status == bucket_versioning_disabled) ≡ false) same
            (elim cases [ inl on ↦ rw on refl | inr off ↦ rw (off.0) refl ]);
    }

object_lock-Change :
    (b b' : S3Bucket) (c : Configuration) (body : Option Element) (resource : Option Text)
    → parse_bucket_object_lock body ≡ some c
    → set_bucket_object_lock_configuration b c.object_lock_enabled c.default_retention.mode
        c.default_retention.days c.default_retention.years resource
      ≡ ok b'
    → Change b b'
object_lock-Change b b' c body resource parsed h =
    let (on, same) = set_bucket_object_lock_configuration-cases b b' _ _ _ _ resource h in
    record {
      valid = λ v.
          set_bucket_object_lock_configuration-IsValid b b' _ _ _ _ resource v
            (parse_bucket_object_lock-valid body c parsed) h;
      name = ap (λ (x : S3Bucket). x.bucket_name) (sym same);
      owner = ap (λ (x : S3Bucket). x.user_id) (sym same);
      stays_locked = λ l. ap (λ (x : S3Bucket). x.object_lock_enabled) (sym same);
      configured =
          subst (λ (x : S3Bucket). (x.versioning_status == bucket_versioning_disabled) ≡ false) same
            (rw on refl);
    }

commit-Effect :
    (fault : Option Error) (user : User) (name : Text) (b b' : S3Bucket) (hook : Hook) (w : World)
    → select_bucket name w.buckets ≡ some b
    → IsAllowed user b
    → Change b b'
    → Effect user name w.buckets (commit fault name b' hook w).1.buckets
unfolding commit
commit-Effect (some e) user name b b' hook w found may change = inl refl
commit-Effect none user name b b' hook w found may change = inr (b, b', found, may, change, refl)

-- `bucket_versioning_update` changes no row, or only the row that has the name, and then the user is
-- root or owns the bucket, and the row changes as `Change` allows.
pub bucket_versioning_update-Effect :
    (fault : Option Error) (user : User) (name : Text) (body : Option Element) (w : World)
    → Effect user name w.buckets (bucket_versioning_update fault user name body w).1.buckets
unfolding bucket_versioning_update
bucket_versioning_update-Effect fault user name body w =
    elim (Option-cases (parse_bucket_versioning body)) [
      | inl bad ↦ inl (ground (arith, bad))
      | inr (status, good) ↦
          elim (Result-cases (load_bucket w.buckets name user (resource_of name))) [
            | inl (e, gone) ↦ inl (ground (arith, good, gone))
            | inr (b, loaded) ↦
                elim (Result-cases (set_bucket_versioning_status b status (resource_of name))) [
                  | inl (e, refused) ↦ inl (ground (arith, good, loaded, refused))
                  | inr (b', taken) ↦
                      let (found, may) =
                        load_bucket-cases w.buckets name user (resource_of name) b loaded in
                      subst
                        (λ (x : Result (Unit {0}) × World). Effect user name w.buckets x.1.buckets)
                        {x = commit fault name b' (bucket_versioning_updated b') w}
                        {y = bucket_versioning_update fault user name body w}
                        (sym (ground (arith, good, loaded, taken)))
                        (commit-Effect fault user name b b' (bucket_versioning_updated b') w found
                          may (versioning-Change b b' status (resource_of name) taken))
                ]
          ]
    ]

-- `bucket_object_lock_update` changes no row, or only the row that has the name, and then the user is
-- root or owns the bucket, and the row changes as `Change` allows.
pub bucket_object_lock_update-Effect :
    (fault : Option Error) (user : User) (name : Text) (body : Option Element) (w : World)
    → Effect user name w.buckets (bucket_object_lock_update fault user name body w).1.buckets
unfolding bucket_object_lock_update
bucket_object_lock_update-Effect fault user name body w =
    elim (Option-cases (parse_bucket_object_lock body)) [
      | inl bad ↦ inl (ground (arith, bad))
      | inr (c, good) ↦ elim (Result-cases (load_bucket w.buckets name user (resource_of name))) [
        | inl (e, gone) ↦ inl (ground (arith, good, gone))
        | inr (b, loaded) ↦
            elim (Result-cases (
              set_bucket_object_lock_configuration b c.object_lock_enabled c.default_retention.mode
                c.default_retention.days c.default_retention.years (resource_of name))) [
                  | inl (e, refused) ↦ inl (ground (arith, good, loaded, refused))
                  | inr (b', taken) ↦
                      let (found, may) =
                        load_bucket-cases w.buckets name user (resource_of name) b loaded in
                      subst
                        (λ (x : Result (Unit {0}) × World). Effect user name w.buckets x.1.buckets)
                        {x = commit fault name b' (bucket_object_lock_updated b') w}
                        {y = bucket_object_lock_update fault user name body w}
                        (sym (ground (arith, good, loaded, taken)))
                        (commit-Effect fault user name b b' (bucket_object_lock_updated b') w found
                          may (object_lock-Change b b' c body (resource_of name) good taken))
                ]
      ]
    ]
