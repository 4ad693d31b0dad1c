-- ===== src/Bucket/Permanence.antt =====
-- What stays true of every bucket while the bucket services run, one after the other, in any order.
use hidden.Base.{
  ◌≡◌, refl, sym, ap, subst, ◌∙◌, inl, inr, true, false, Option, some, List, [], ◌∷◌, Text, ◌==◌,
  ==_iff, nat_eq, list_eq, option_eq, All, arith, Bool-cases,
}
use hidden.Errors.{Error}
use hidden.Xml.{Element}
use hidden.Bucket.{
  User, S3Bucket, bucket_versioning_disabled, bucket_versioning_enabled, select_bucket,
}
use hidden.Bucket.Services.{World, write_back, bucket_versioning_update, bucket_object_lock_update}
use hidden.Bucket.Valid.{IsValid}
use hidden.Bucket.History.{
  Change, Effect, bucket_versioning_update-Effect, bucket_object_lock_update-Effect,
}

-- One call of a service: any user, any document, and any failure of the database.
pub data Step : World → World → Type 0 where
  versioning :
      (fault : Option Error) (user : User) (name : Text) (body : Option Element) (w : World)
      → Step w (bucket_versioning_update fault user name body w).1
  object_lock :
      (fault : Option Error) (user : User) (name : Text) (body : Option Element) (w : World)
      → Step w (bucket_object_lock_update fault user name body w).1

pub data Reach : World → World → Type 0 where
  here : (w : World) → Reach w w
  next : (w w' w'' : World) → Step w w' → Reach w' w'' → Reach w w''

Step-Effect :
    (w w' : World)
    → Step w w'
    → (user : User) × (name : Text) × Effect user name w.buckets w'.buckets
Step-Effect _ _ (versioning fault user name body w) =
    (user, name, bucket_versioning_update-Effect fault user name body w)
Step-Effect _ _ (object_lock fault user name body w) =
    (user, name, bucket_object_lock_update-Effect fault user name body w)

All-select :
    (name : Text) (rows : List S3Bucket) (b : S3Bucket)
    → All IsValid rows
    → select_bucket name rows ≡ some b
    → IsValid b
unfolding select_bucket
All-select name [] b h e = absurd (ground (arith, e))
All-select name (c ∷ rows) b h e = elim (Bool-cases (c.bucket_name == name)) [
  | inl hit ↦ subst IsValid (ground (arith, e, hit)) h.0
  | inr miss ↦ All-select name rows b h.1 (ground (arith, e, miss))
]

All-write_back :
    (name : Text) (rows : List S3Bucket) (b : S3Bucket)
    → All IsValid rows
    → IsValid b
    → All IsValid (write_back name b rows)
unfolding write_back
All-write_back name [] b h v = tt
All-write_back name (c ∷ rows) b h v = elim (Bool-cases (c.bucket_name == name)) [
  | inl hit ↦ rw (hit, write_back) (v, h.1)
  | inr miss ↦ rw (miss, write_back) (h.0, All-write_back name rows b h.1 v)
]

Effect-All :
    (user : User) (name : Text) (rows rows' : List S3Bucket)
    → Effect user name rows rows'
    → All IsValid rows
    → All IsValid rows'
Effect-All user name rows rows' (inl same) h = subst (All IsValid) (sym same) h
Effect-All user name rows rows' (inr (b, b', found, may, change, stored)) h =
    subst (All IsValid) (sym stored)
      (All-write_back name rows b' h (change.valid (All-select name rows b h found)))

-- However often the versioning and the Object Lock of buckets are updated, by whatever users, with
-- whatever documents and whatever failures of the database: if every stored bucket is valid at the
-- start, every one is at the end.
pub Reach-IsValid : (w w' : World) → Reach w w' → All IsValid w.buckets → All IsValid w'.buckets
Reach-IsValid _ _ (here w) h = h
Reach-IsValid _ _ (next w v w' step rest) h =
    let (user, name, effect) = Step-Effect w v step in
    Reach-IsValid v w' rest (Effect-All user name w.buckets v.buckets effect h)

-- What no call takes from a bucket.
pub record Keeps (b b' : S3Bucket) : Type 0 where
  pub name : b'.bucket_name ≡ b.bucket_name
  pub owner : b'.user_id ≡ b.user_id
  pub locked : b.object_lock_enabled ≡ true → b'.object_lock_enabled ≡ true
  pub configured :
      (b.versioning_status == bucket_versioning_disabled) ≡ false
      → (b'.versioning_status == bucket_versioning_disabled) ≡ false

Keeps-refl : (b : S3Bucket) → Keeps b b
Keeps-refl b = record { name = refl; owner = refl; locked = λ l. l; configured = λ c. c }

select-name :
    (name : Text) (rows : List S3Bucket) (b : S3Bucket)
    → select_bucket name rows ≡ some b
    → b.bucket_name ≡ name
unfolding select_bucket
select-name name [] b e = absurd (ground (arith, e))
select-name name (c ∷ rows) b e = elim (Bool-cases (c.bucket_name == name)) [
  | inl hit ↦
      subst (λ (x : S3Bucket). x.bucket_name ≡ name) {x = c} {y = b} (ground (arith, e, hit))
        ((==_iff c.bucket_name name).0 hit)
  | inr miss ↦ select-name name rows b (ground (arith, e, miss))
]

select-write_back :
    (name : Text) (rows : List S3Bucket) (b b' : S3Bucket)
    → select_bucket name rows ≡ some b
    → b'.bucket_name ≡ name
    → select_bucket name (write_back name b' rows) ≡ some b'
unfolding select_bucket write_back
select-write_back name [] b b' e same = absurd (ground (arith, e))
select-write_back name (c ∷ rows) b b' e same = elim (Bool-cases (c.bucket_name == name)) [
  | inl hit ↦ ground (arith, hit, (==_iff b'.bucket_name name).1 same)
  | inr miss ↦ ground (arith, miss, select-write_back name rows b b' (ground (arith, e, miss)) same)
]

select-write_back_other :
    (other name : Text) (rows : List S3Bucket) (b' : S3Bucket)
    → (name == other) ≡ false
    → b'.bucket_name ≡ name
    → select_bucket other (write_back name b' rows) ≡ select_bucket other rows
unfolding select_bucket write_back
select-write_back_other other name [] b' apart same = refl
select-write_back_other other name (c ∷ rows) b' apart same =
    elim (Bool-cases (c.bucket_name == name)) [
      | inl hit ↦ ground (
        arith,
        hit,
        subst (λ (x : Text). (x == other) ≡ false) (sym ((==_iff c.bucket_name name).0 hit)) apart,
        subst (λ (x : Text). (x == other) ≡ false) (sym same) apart,
      )
      | inr miss ↦ ground (arith, miss, select-write_back_other other name rows b' apart same)
    ]

Change-Keeps : (b b' : S3Bucket) → Change b b' → Keeps b b'
Change-Keeps b b' change = record {
  name = change.name;
  owner = change.owner;
  locked = change.stays_locked;
  configured = λ h. change.configured;
}

some-injective {ℓ} : {A : Type ℓ} {x y : A} → some x ≡ some y → x ≡ y
some-injective e = ground arith

Effect-Keeps :
    (user : User) (name : Text) (rows rows' : List S3Bucket) (other : Text) (c : S3Bucket)
    → Effect user name rows rows'
    → select_bucket other rows ≡ some c
    → (c' : S3Bucket) × (select_bucket other rows' ≡ some c') × Keeps c c'
Effect-Keeps user name rows rows' other c (inl same) e =
    (c, ap (select_bucket other) same ∙ e, Keeps-refl c)
Effect-Keeps user name rows rows' other c (inr (b, b', found, may, change, stored)) e =
    elim (Bool-cases (name == other)) [
      | inl hit ↦
          let called = (==_iff name other).0 hit in
          let same : b ≡ c =
            some-injective (sym found ∙ ap (λ n. select_bucket n rows) called ∙ e) in
          (
            b',
            subst (λ n. select_bucket n rows' ≡ some b') called
                (ap (select_bucket name) stored
                  ∙ select-write_back name rows b b' found
                      (change.name ∙ select-name name rows b found)),
            subst (λ x. Keeps x b') same (Change-Keeps b b' change),
          )
      | inr miss ↦ (
        c,
        ap (select_bucket other) stored
            ∙ select-write_back_other other name rows b' miss
                (change.name ∙ select-name name rows b found)
            ∙ e,
        Keeps-refl c,
      )
    ]

Reach-Keeps :
    (w w' : World) (name : Text) (b : S3Bucket)
    → Reach w w'
    → select_bucket name w.buckets ≡ some b
    → (b' : S3Bucket) × (select_bucket name w'.buckets ≡ some b') × Keeps b b'
Reach-Keeps _ _ name b (here w) e = (b, e, Keeps-refl b)
Reach-Keeps _ _ name b (next w v w' step rest) e =
    let (user, called, effect) = Step-Effect w v step in
    let (c, found, keeps) = Effect-Keeps user called w.buckets v.buckets name b effect e in
    let (d, found', keeps') = Reach-Keeps v w' name c rest found in
    (
      d,
      found',
      record {
        name = keeps'.name ∙ keeps.name;
        owner = keeps'.owner ∙ keeps.owner;
        locked = λ l. keeps'.locked (keeps.locked l);
        configured = λ h. keeps'.configured (keeps.configured h);
      },
    )

-- However often the versioning and the Object Lock of buckets are updated, by whatever users, with
-- whatever documents and whatever failures of the database: if every stored bucket is valid at the
-- start and one has Object Lock, then it is still stored under its name at the end, with its owner,
-- with Object Lock and with Enabled versioning.
pub Reach-Enabled :
    (w w' : World) (name : Text) (b : S3Bucket)
    → Reach w w'
    → All IsValid w.buckets
    → select_bucket name w.buckets ≡ some b
    → b.object_lock_enabled ≡ true
    → (b' : S3Bucket) × (select_bucket name w'.buckets ≡ some b')
      × (b'.user_id ≡ b.user_id)
      × (b'.object_lock_enabled ≡ true)
      × (b'.versioning_status ≡ bucket_versioning_enabled)
Reach-Enabled w w' name b steps valid e locked =
    let (b', found, keeps) = Reach-Keeps w w' name b steps e in
    (
      b',
      found,
      keeps.owner,
      keeps.locked locked,
      (All-select name w'.buckets b' (Reach-IsValid w w' steps valid) found).locked
          (keeps.locked locked),
    )

-- Under the same calls, a stored bucket whose versioning has been Enabled or Suspended is never
-- Disabled again.
Reach-configured :
    (w w' : World) (name : Text) (b : S3Bucket)
    → Reach w w'
    → select_bucket name w.buckets ≡ some b
    → (b.versioning_status == bucket_versioning_disabled) ≡ false
    → (b' : S3Bucket) × (select_bucket name w'.buckets ≡ some b')
      × ((b'.versioning_status == bucket_versioning_disabled) ≡ false)
Reach-configured w w' name b steps e was =
    let (b', found, keeps) = Reach-Keeps w w' name b steps e in (b', found, keeps.configured was)
