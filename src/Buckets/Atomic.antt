-- ===== src/Buckets/Atomic.antt =====
-- `bucket_create` on the rows: a bucket with a name that was free is committed, or nothing is.
use hidden.Base.{suc, [], ◌∷◌, ℕ, ◌≡◌, refl, Option, none, some, Text, codes, ◌++◌, nat_eq, arith}
use hidden.Errors.{s3, bucket_already_exists, ok}
use hidden.Paths.Resolve.{resolve_bucket_path}
use hidden.Validation.{validate_bucket_name}
use hidden.Bucket.{S3Bucket, User, select_bucket}
use hidden.Bucket.Valid.{IsValid}
use hidden.World.{World, Rows, raise, lift, asks, attempt, when, reset_flags, set_written}
use hidden.World.Triple.{
  Pred, Ends, Triple, bind, after, weaken, catching, given, if_lem, raised, returned,
}
use hidden.Io.{Env, isdir, isfile, mktree, rmdir_synced}
use hidden.Io.Laws.Session.{
  OnRows, Committed, KeepsCommitted, loosened, held, rollback-KeepsCommitted, asks-KeepsRows,
  isdir-KeepsRows, isfile-KeepsRows, mktree-KeepsRows, rmdir_synced-KeepsRows, attempt-KeepsRows,
  when-KeepsRows, lift-KeepsRows, flush-rows, commit-rows,
}
use hidden.Uploads.Selected.{asked, selected}
use hidden.Buckets.{
  new_bucket, insert_bucket, make_bucket, unmake_bucket, name_taken, check_name, bucket_create,
}

-- The user's new row.
abbrev pub IsNewBucket : User → Text → S3Bucket → Type 0
IsNewBucket u name bucket = IsValid bucket × (bucket.user_id ≡ u.id) × (bucket.bucket_name ≡ name)

new_bucket-IsNewBucket :
    (id now : ℕ) (u : User) (name : Text) → IsNewBucket u name (new_bucket id now u name)
unfolding new_bucket
new_bucket-IsNewBucket id now u name = (
  record { status = refl; period = refl; locked = λ e. ground (arith, e); unlocked = λ e. refl },
  refl,
  refl,
)

name_free :
    (u : User) (resource : Text) (row : Option S3Bucket)
    → name_taken u resource row ≡ ok tt
    → row ≡ none
name_free u resource none h = refl
name_free u resource (some existing) h = ground (arith, h)

make_bucket_lem :
    {k r : Rows} (env : Env) (u : User) (name path : Text)
    → Triple
        (OnRows k r)
        (make_bucket env u name path)
        (λ bucket w. Committed (insert_bucket bucket r) w × IsNewBucket u name bucket)
        (Committed k)
unfolding make_bucket
make_bucket_lem {k} {r} env u name path = after reset_lem λ _.
    bind
      (asked (λ w. new_bucket w.rows.next_id w.now u name) (IsNewBucket u name)
        (λ w. new_bucket-IsNewBucket w.rows.next_id w.now u name))
      λ bucket. given λ new.
        after (weaken (flush-rows (insert_bucket bucket)) (λ _ w h. h) (λ w h. h.0)) λ _.
          after (held (mktree env path) (mktree-KeepsRows env path)) λ _.
            after written_lem λ _.
              after (weaken commit-rows (λ _ w h. (h.0, new)) (λ w h. h.0)) λ _. returned bucket
  where
    reset_lem : {k r : Rows} {R : Pred} → Triple (OnRows k r) reset_flags (λ _. OnRows k r) R
    reset_lem = record { run = λ w h. h }

    written_lem : {k r : Rows} {R : Pred} → Triple (OnRows k r) set_written (λ _. OnRows k r) R
    written_lem = record { run = λ w h. h }

unmake_bucket_lem : (path : Text) → KeepsCommitted (unmake_bucket path)
unfolding unmake_bucket
unmake_bucket_lem path k = after (rollback-KeepsCommitted k) λ _.
    bind (loosened (asks (λ w. w.flags)) (asks-KeepsRows (λ w. w.flags)) k) λ f.
      loosened (when f.written (attempt (rmdir_synced path)))
        (when-KeepsRows f.written (attempt (rmdir_synced path))
          (attempt-KeepsRows (rmdir_synced path) (rmdir_synced-KeepsRows path)))
        k

-- The name was free, and the rows with the new one are committed.
abbrev pub Created : Rows → Text → User → S3Bucket → World → Type 0
Created r name u bucket w =
    (select_bucket name r.buckets ≡ none)
    × Committed (record r { buckets = r.buckets ++ bucket ∷ []; next_id = suc r.next_id }) w
    × IsNewBucket u name bucket

bucket_create_lem :
    {k r : Rows} (env : Env) (u : User) (name : Text)
    → Triple (OnRows k r) (bucket_create env u name) (Created r name u) (Committed k)
unfolding bucket_create check_name insert_bucket
bucket_create_lem {k} {r} env u name =
    after
      (held (lift (validate_bucket_name name (codes "/" ++ name)))
        (lift-KeepsRows (validate_bucket_name name (codes "/" ++ name))))
      λ _.
        after
          (weaken (selected (λ r. name_taken u (codes "/" ++ name) (select_bucket name r.buckets)))
            (λ _ w h. h) (λ w h. h.0))
          λ _. given λ free.
            bind
              (held (isdir (resolve_bucket_path env.buckets_dir name))
                (isdir-KeepsRows (resolve_bucket_path env.buckets_dir name)))
              λ is_directory. if_lem is_directory refused (
                bind
                  (held (isfile (resolve_bucket_path env.buckets_dir name))
                    (isfile-KeepsRows (resolve_bucket_path env.buckets_dir name)))
                  λ is_file. if_lem is_file refused (
                    catching
                      (weaken
                        (make_bucket_lem env u name (resolve_bucket_path env.buckets_dir name))
                        (λ bucket w (done, new). (
                          name_free u (codes "/" ++ name) (select_bucket name r.buckets) free,
                          done,
                          new,
                        ))
                        (λ w h. h))
                      (λ e.
                        after (unmake_bucket_lem (resolve_bucket_path env.buckets_dir name) k)
                          λ _. raised e)))
  where
    refused :
        {Q : S3Bucket → Pred}
        → Triple
            (OnRows k r)
            (raise (s3 bucket_already_exists (some (codes "/" ++ name))))
            Q
            (Committed k)
    refused = record { run = λ w h. h.0 }

-- Whatever fails, `bucket_create` either raises and commits nothing, or returns a valid bucket of the
-- user with the name, no row that the session saw had this name, and what is committed is what the
-- session saw with this row inserted.
pub bucket_create-atomic :
    (env : Env) (u : User) (name : Text) (w : World)
    → Ends (Created w.rows name u) (Committed w.committed) (bucket_create env u name w)
bucket_create-atomic env u name w = (bucket_create_lem env u name).run w (refl, refl)
