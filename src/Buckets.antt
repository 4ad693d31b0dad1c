-- ===== src/Buckets.antt =====
-- app/services/bucket_create.py, with the row that it inserts. The lock of the bucket's directory is held
-- to the end of the handler; Locks models it.
pub mod Atomic
pub mod Made
use hidden.Base.{
  ℕ, suc, ◌≡◌, Bool, true, false, Option, none, some, List, [], ◌∷◌, ◌++◌, Text, codes, ◌==◌,
  nat_eq, if◌then◌else◌,
}
use hidden.Errors.{Error, s3, bucket_already_exists, bucket_already_owned_by_you, Result, ok, err}
use hidden.Paths.Resolve.{resolve_bucket_path}
use hidden.Validation.{validate_bucket_name}
use hidden.Bucket.{S3Bucket, User, select_bucket, bucket_versioning_disabled}
use hidden.World.{
  World, Rows, Io, go_on, ◌>>=◌, ◌>>◌, return, raise, lift, asks, catch, attempt, when, tick, flush,
  commit, rollback, reset_flags, set_written,
}
use hidden.Io.{Env, isdir, isfile, mktree, rmdir_synced}

-- A row with the defaults of its table.
unfoldable pub new_bucket : ℕ → ℕ → User → Text → S3Bucket
new_bucket id now current_user bucket_name = record {
  id = id;
  user_id = current_user.id;
  created_at = now;
  bucket_name = bucket_name;
  versioning_status = bucket_versioning_disabled;
  object_lock_enabled = false;
  default_lock_mode = none;
  default_retention_days = none;
  default_retention_years = none;
}

unfoldable pub insert_bucket : S3Bucket → Rows → Rows
insert_bucket bucket rows = record rows {
  buckets = rows.buckets ++ (bucket ∷ []);
  next_id = suc rows.next_id;
}

-- The `try` of `bucket_create`; the flag `written` stands for its `directory_created`.
unfoldable pub make_bucket : Env → User → Text → Text → Io S3Bucket
make_bucket env current_user bucket_name bucket_path =
    reset_flags
    >> (asks (λ w. new_bucket w.rows.next_id w.now current_user bucket_name) >>= λ bucket.
        flush (insert_bucket bucket)
        >> (mktree env bucket_path >> (set_written >> (commit >> return bucket))))

unfoldable pub unmake_bucket : Text → Io (Unit {0})
unmake_bucket bucket_path =
    attempt rollback
    >> (asks (λ w. w.flags) >>= λ f. when f.written (attempt (rmdir_synced bucket_path)))

-- The name is taken, by the user or by another.
abbrev pub name_taken : User → Text → Option S3Bucket → Result (Unit {0})
name_taken current_user resource none = ok tt
name_taken current_user resource (some existing) =
    if existing.user_id == current_user.id
    then err (s3 bucket_already_owned_by_you (some resource))
    else err (s3 bucket_already_exists (some resource))

unfoldable pub check_name : User → Text → Text → Io (Unit {0})
check_name current_user bucket_name resource =
    tick >> (λ w. (name_taken current_user resource (select_bucket bucket_name w.rows.buckets), w))

unfoldable pub bucket_create : Env → User → Text → Io S3Bucket
bucket_create env current_user bucket_name =
    let resource = codes "/" ++ bucket_name in
    let bucket_path = resolve_bucket_path env.buckets_dir bucket_name in
    lift (validate_bucket_name bucket_name resource)
    >> (check_name current_user bucket_name resource
        >> (isdir bucket_path >>= λ is_directory.
            if is_directory
            then raise (s3 bucket_already_exists (some resource))
            else (isfile bucket_path >>= λ is_file.
                if is_file
                then raise (s3 bucket_already_exists (some resource))
                else catch (make_bucket env current_user bucket_name bucket_path)
                    (λ e. unmake_bucket bucket_path >> raise e))))
