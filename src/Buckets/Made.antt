-- ===== src/Buckets/Made.antt =====
-- `bucket_create` where no call fails: it returns, and the directory is there.
use hidden.Base.{
  ◌≡◌, refl, sym, ap, subst, ◌∙◌, Bool, true, false, Option, none, some, List, [], Text, codes,
  ◌++◌, if◌then◌else◌, arith,
}
use hidden.Errors.{Error, s3, bucket_already_exists, ok}
use hidden.Paths.Posix.{dirname, abspath}
use hidden.Paths.Resolve.{resolve_bucket_path}
use hidden.Files.{Disk, dir, find, put, payload, is_directory, parent_dir}
use hidden.Validation.{validate_bucket_name}
use hidden.Bucket.{S3Bucket, User, select_bucket}
use hidden.World.{
  World, Rows, Io, ◌>>=◌, ◌>>◌, return, raise, asks, catch, reset_flags, set_written,
}
use hidden.World.Triple.{Pred, Ends, Triple, bind, after, from, catching, given}
use hidden.Io.{Env, isdir, isfile}
use hidden.Io.Laws.Calm.{
  Calm, still_lift, still_select, still_flush, still_commit, still_mktree, there,
}
use hidden.Buckets.{
  new_bucket, insert_bucket, make_bucket, unmake_bucket, name_taken, check_name, bucket_create,
}

-- The world that a bucket can be made in: its name is a valid one that no row has, nothing is at its
-- path, whose parent is a directory, and no call is to fail.
pub record IsOpen (env : Env) (name path : Text) (w : World) : Type 0 where
  pub valid : validate_bucket_name name (codes "/" ++ name) ≡ ok tt
  pub resolved : resolve_bucket_path env.buckets_dir name ≡ path
  pub free : select_bucket name w.rows.buckets ≡ none
  pub absent : find path w.disk ≡ none
  pub absolute : abspath env.cwd path ≡ path
  pub above : is_directory (dirname path) w.disk ≡ true
  pub parent : is_directory (parent_dir path) w.disk ≡ true
  pub calm : w.faults ≡ []
  pub synced : w.sync_faults ≡ []

not_there :
    {d : Disk} {r : Rows} {s : List (Option Error)} (p : Text)
    → find p d ≡ none
    → Triple (Calm d r s) (isdir p) (λ b w. Calm d r s w × (b ≡ false)) (λ _. ⊥)
unfolding isdir is_directory
not_there p h = record { run = λ w c. (c, ground (arith, h, c.0)) }

no_file :
    {d : Disk} {r : Rows} {s : List (Option Error)} (p : Text)
    → find p d ≡ none
    → Triple (Calm d r s) (isfile p) (λ b w. Calm d r s w × (b ≡ false)) (λ _. ⊥)
unfolding isfile payload
no_file p h = record { run = λ w c. (c, ground (arith, h, c.0)) }

module _ {d : Disk} {r : Rows} where
  still_make_bucket :
      (env : Env) (u : User) (name path : Text)
      → abspath env.cwd path ≡ path
      → find path d ≡ none
      → is_directory (dirname path) d ≡ true
      → is_directory (parent_dir path) d ≡ true
      → Triple
          (Calm d r [])
          (make_bucket env u name path)
          (λ _ w. is_directory path w.disk ≡ true)
          (λ _. ⊥)
  unfolding make_bucket
  still_make_bucket env u name path absolute free above parent = after unmarked λ _.
      bind still_row λ bucket. after (still_flush (insert_bucket bucket)) λ _.
        after (still_mktree env path absolute free above parent)
          λ _. after marked λ _. after still_commit λ _. done bucket
    where
      still_row :
          Triple
            (Calm d r [])
            (asks (λ w. new_bucket w.rows.next_id w.now u name))
            (λ _. Calm d r [])
            (λ _. ⊥)
      still_row = record { run = λ w h. h }

      unmarked :
          {d : Disk} {r : Rows} → Triple (Calm d r []) reset_flags (λ _. Calm d r []) (λ _. ⊥)
      unmarked = record { run = λ w h. h }

      done :
          {r : Rows} (bucket : S3Bucket)
          → Triple
              (Calm (put path dir d) r [])
              (return bucket)
              (λ _ w. is_directory path w.disk ≡ true)
              (λ _. ⊥)
      done bucket = record { run = λ w h. ap (is_directory path) h.0 ∙ there path d }

      marked : {d : Disk} {r : Rows} → Triple (Calm d r []) set_written (λ _. Calm d r []) (λ _. ⊥)
      marked = record { run = λ w h. h }

-- A bucket whose name is valid and free is made where nothing is at its path, which is absolute and
-- normal, the directory above is there and no call fails: the service returns, and its directory is there.
pub bucket_create-IsOpen :
    (env : Env) (u : User) (name path : Text) (w : World)
    → IsOpen env name path w
    → Ends (λ bucket w'. is_directory path w'.disk ≡ true) (λ _. ⊥) (bucket_create env u name w)
unfolding bucket_create check_name
bucket_create-IsOpen env u name path w o =
    (after (still_lift (validate_bucket_name name (codes "/" ++ name)) tt o.valid) λ _.
        after
          (from (λ w h. h.0)
            (still_select (λ r. name_taken u (codes "/" ++ name) (select_bucket name r.buckets)) tt
              (ap (name_taken u (codes "/" ++ name)) o.free)))
          λ _.
            from (λ w h. h.0)
              (subst
                (λ p.
                  Triple (Calm w.disk w.rows [])
                    (isdir p >>= λ is_directory.
                      if is_directory
                      then raise (s3 bucket_already_exists (some (codes "/" ++ name)))
                      else (isfile p >>= λ is_file.
                          if is_file
                          then raise (s3 bucket_already_exists (some (codes "/" ++ name)))
                          else catch (make_bucket env u name p) (λ e. unmake_bucket p >> raise e)))
                    (λ bucket w'. is_directory path w'.disk ≡ true) (λ _. ⊥))
                (sym o.resolved)
                (bind (not_there path o.absent) λ b. given λ apart.
                  on_false (raise (s3 bucket_already_exists (some (codes "/" ++ name)))) b apart (
                    bind (no_file path o.absent) λ b. given λ apart.
                      on_false (raise (s3 bucket_already_exists (some (codes "/" ++ name)))) b apart
                        (catching
                          (still_make_bucket env u name path o.absolute o.absent o.above o.parent)
                          (λ e. record { run = λ w h. absurd h })))))).run
      w (refl, refl, o.calm, o.synced)
  where
    on_false :
        {A : Type 0} {P R : Pred} {Q : A → Pred} {m' : Io A} (m : Io A) (b : Bool)
        → b ≡ false
        → Triple P m' Q R
        → Triple P (if b then m else m') Q R
    on_false m false e t = t
    on_false m true e t = absurd (ground (arith, e))
