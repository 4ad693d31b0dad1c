-- ===== src/Uploads/Atomic.antt =====
-- `multipart_create` and `multipart_abort` on the rows: all of the change is committed, or none of it.
use hidden.Base.{suc, [], ◌∷◌, ◌≡◌, refl, inl, Option, some, ◌++◌, Text, codes}
use hidden.Errors.{ok}
use hidden.Paths.Resolve.{resolve_multipart_path, resolve_multipart_aborted_path}
use hidden.Validation.{validate_object_key}
use hidden.Bucket.{S3Bucket, User, load_bucket}
use hidden.Multipart.{S3ObjectMultipart}
use hidden.World.{World, Rows, Io, lift, attempt, uuid4, reset_flags}
use hidden.World.Triple.{Pred, Ends, Triple, bind, after, weaken, catching, given, raised, returned}
use hidden.Io.{Env, mktree, rmtree}
use hidden.Io.Laws.Session.{
  OnRows, Committed, loosened, held, rollback-KeepsCommitted, mktree-KeepsRows, rmtree-KeepsRows,
  uuid4-KeepsRows, attempt-KeepsRows, lift-KeepsRows, flush-rows, commit-rows,
}
use hidden.Uploads.Create.{new_multipart, insert_multipart, open_multipart, multipart_create}
use hidden.Uploads.Abort.{multipart_abort}
use hidden.Uploads.Selected.{asked, find_bucket-rows}
use hidden.Uploads.AbortedRows.{
  Aborted, AbortedOrNot, remove_multipart_lem, restore_multipart_lem, aborted,
}

-- The row of the new upload.
abbrev pub IsNew : S3Bucket → Text → S3ObjectMultipart → Type 0
IsNew bucket key m = (m.bucket_id ≡ bucket.id) × (m.object_key ≡ key)

open_multipart_lem :
    {k r : Rows} (env : Env) (bucket : S3Bucket) (u : User) (upload_id key : Text)
    (content_type : Option Text) (path : Text)
    → Triple
        (OnRows k r)
        (open_multipart env bucket u upload_id key content_type path)
        (λ m w. Committed (insert_multipart m r) w × IsNew bucket key m)
        (Committed k)
unfolding open_multipart new_multipart
open_multipart_lem {k} {r} env bucket u upload_id key content_type path =
    after (held (mktree env path) (mktree-KeepsRows env path)) λ _.
      bind
        (asked (λ w. new_multipart w.rows.next_id w.now bucket u upload_id key content_type)
          (IsNew bucket key) (λ w. (refl, refl)))
        (λ m. given λ new.
          after (weaken (flush-rows (insert_multipart m)) (λ _ w h. h) (λ w h. h.0))
            λ _. after (weaken commit-rows (λ _ w h. (h.0, new)) (λ w h. h.0)) λ _. returned m)

-- The service returns with a row that is committed for the bucket that the user may use.
abbrev pub Opened : Rows → Text → Text → User → Text → S3ObjectMultipart → World → Type 0
Opened r name resource u key m w =
    Committed (record r { uploads = r.uploads ++ m ∷ []; next_id = suc r.next_id }) w
    × (bucket : S3Bucket) × (load_bucket r.buckets name u (some resource) ≡ ok bucket)
    × IsNew bucket key m

multipart_create_lem :
    {k r : Rows} (env : Env) (u : User) (name key : Text) (content_type : Option Text)
    → Triple
        (OnRows k r)
        (multipart_create env u name key content_type)
        (Opened r name (codes "/" ++ (name ++ (codes "/" ++ key))) u key)
        (Committed k)
unfolding multipart_create insert_multipart
multipart_create_lem {k} env u name key content_type =
    after
      (held (lift (validate_object_key key (codes "/" ++ (name ++ (codes "/" ++ key)))))
        (lift-KeepsRows _))
      λ _. bind (find_bucket-rows name (codes "/" ++ (name ++ (codes "/" ++ key))) u) λ bucket.
        given λ loaded. bind (held uuid4 uuid4-KeepsRows) λ upload_id.
          catching
            (weaken
              (open_multipart_lem env bucket u upload_id key content_type
                (resolve_multipart_path env.tmp_dir upload_id))
              (λ m w (done, new). (done, bucket, loaded, new)) (λ w h. h))
            (λ e. after (rollback-KeepsCommitted k) λ _.
              after
                (loosened (attempt (rmtree (resolve_multipart_path env.tmp_dir upload_id)))
                  (attempt-KeepsRows (rmtree (resolve_multipart_path env.tmp_dir upload_id))
                    (rmtree-KeepsRows (resolve_multipart_path env.tmp_dir upload_id)))
                  k)
                λ _. raised e)

-- Whatever fails, `multipart_create` either raises and commits nothing, or returns a row of the user's
-- bucket and of the key, and what is committed is what the session saw with this row inserted.
pub multipart_create-atomic :
    (env : Env) (u : User) (name key : Text) (content_type : Option Text) (w : World)
    → Ends
        (Opened w.rows name (codes "/" ++ (name ++ (codes "/" ++ key))) u key)
        (Committed w.committed)
        (multipart_create env u name key content_type w)
multipart_create-atomic env u name key content_type w =
    (multipart_create_lem env u name key content_type).run w (refl, refl)

multipart_abort_lem :
    {k r : Rows} (env : Env) (u : User) (name key upload_id : Text)
    → Triple
        (OnRows k r)
        (multipart_abort env u name key upload_id)
        (λ _. Aborted r name upload_id (codes "/" ++ (name ++ (codes "/" ++ key))) u key)
        (AbortedOrNot k r name upload_id (codes "/" ++ (name ++ (codes "/" ++ key))) u key)
unfolding multipart_abort
multipart_abort_lem {k} {r} env u name key upload_id =
    after (none_ (held (lift (validate_object_key key resource)) (lift-KeepsRows _))) λ _.
      bind (none_ (find_bucket-rows name resource u)) λ bucket. given λ loaded.
        bind (none_ (held uuid4 uuid4-KeepsRows)) λ token. after (none_ (reset_lem)) λ _.
          after
            (none_ (
              catching
                (remove_multipart_lem bucket key upload_id resource upload_path
                  (cleanup_path token))
                (λ e.
                  after (restore_multipart_lem upload_path (cleanup_path token) k) λ _. raised e)))
            λ _. aborted k r name upload_id resource u key bucket (cleanup_path token) loaded
  where
    resource : Text
    resource = codes "/" ++ (name ++ (codes "/" ++ key))

    upload_path : Text
    upload_path = resolve_multipart_path env.tmp_dir upload_id

    cleanup_path : Text → Text
    cleanup_path token = resolve_multipart_aborted_path env.tmp_dir upload_id token

    none_ :
        {A : Type 0} {P : Pred} {m : Io A} {Q : A → Pred}
        → Triple P m Q (Committed k)
        → Triple P m Q
            (AbortedOrNot k r name upload_id (codes "/" ++ (name ++ (codes "/" ++ key))) u key)
    none_ t = weaken t (λ _ w h. h) (λ w h. inl h)

    reset_lem : Triple (OnRows k r) reset_flags (λ _. OnRows k r) (Committed k)
    reset_lem = record { run = λ w h. h }

-- Whatever fails, what is committed after `multipart_abort` is what was before, or what the session saw
-- without the upload that the request names and without its parts. It is the latter if it returns.
pub multipart_abort-atomic :
    (env : Env) (u : User) (name key upload_id : Text) (w : World)
    → Ends
        (λ _. Aborted w.rows name upload_id (codes "/" ++ (name ++ (codes "/" ++ key))) u key)
        (AbortedOrNot w.committed w.rows name upload_id
          (codes "/" ++ (name ++ (codes "/" ++ key)))
          u
          key)
        (multipart_abort env u name key upload_id w)
multipart_abort-atomic env u name key upload_id w =
    (multipart_abort_lem env u name key upload_id).run w (refl, refl)
