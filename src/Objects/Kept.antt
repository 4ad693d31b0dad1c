-- ===== src/Objects/Kept.antt =====
-- `object_upload` on the rows: an upload that returns has committed no change of the other tables.
use hidden.Base.{
  ◌≡◌, refl, sym, subst, not, ◌&&◌, ℕ, Option, none, some, ◌++◌, Text, codes, ◌==◌, nat_eq, list_eq,
}
use hidden.Errors.{Error, Result, ok, err}
use hidden.Paths.Resolve.{resolve_object_path, resolve_staged_path}
use hidden.Validation.{validate_bucket_name, validate_object_key}
use hidden.Bucket.{
  S3Bucket, User, bucket_versioning_disabled, bucket_versioning_enabled,
  bucket_versioning_suspended,
}
use hidden.World.{
  World, Rows, S3Object, Io, ◌>>=◌, ◌>>◌, return, raise, lift, asks, catch, attempt, when, uuid4,
  commit, reset_flags, set_backup_created, set_written,
}
use hidden.World.Triple.{Pred, Ends, Triple, bind, after, weaken, catching, if_lem}
use hidden.Io.{
  Env, Stream, upload, get_filesize, get_file_hash, get_mimetype, isdir, isfile, copy, rename,
  delete,
}
use hidden.Io.Laws.Session.{
  OnRows, KeepsRows, Committed, loosened, asks-KeepsRows, isfile-KeepsRows, isdir-KeepsRows,
  delete-KeepsRows, rename-KeepsRows, uuid4-KeepsRows, attempt-KeepsRows, when-KeepsRows,
  lift-KeepsRows, tick-KeepsRows, commit-rows,
}
use hidden.Io.Laws.SessionWrites.{
  upload-KeepsRows, get_filesize-KeepsRows, get_file_hash-KeepsRows, get_mimetype-KeepsRows,
  copy-KeepsRows, object_mkdir-KeepsRows, looked-KeepsRows,
}
use hidden.Objects.{find_bucket, object_mkdir}
use hidden.Objects.Beside.{SameBeside, upsert_object-rows}
use hidden.Objects.Upload.{
  or_default, rename_conflict, replace_object, publish_object, store_object, reconcile, bound,
  upload_to, object_upload,
}

-- Where nothing is to be known.
abbrev Any : World → Type 0
Any w = Unit

any_lem : {A : Type 0} {P : Pred} (m : Io A) → Triple P m (λ _. Any) Any
any_lem m = record { run = λ w h. ended (m w) }
  where
    ended : {A : Type 0} (o : Result A × World) → Ends (λ _. Any) Any o
    ended (ok a, w) = tt
    ended (err e, w) = tt

failed : {A : Type 0} {Q : A → Pred} {P : Pred} (e : Error) → Triple P (raise e) Q Any
failed e = record { run = λ w h. tt }

-- A handler that raises again.
raises_again :
    {A : Type 0} {Q : A → Pred} {P : Pred} (m : Io (Unit {0})) (e : Error)
    → Triple P (m >> raise e) Q Any
raises_again m e = after (any_lem m) λ _. failed e

-- The other tables are committed as they were, if a row is bound.
abbrev Kept : Rows → Option S3Object → World → Type 0
Kept r none w = Unit
Kept r (some row) w = SameBeside r w.committed

module _ {k r : Rows} where
  kept : {A : Type 0} (m : Io A) → KeepsRows m → Triple (OnRows k r) m (λ _. OnRows k r) Any
  kept m t = weaken (t k r) (λ _ w h. h) (λ w h. tt)

left :
    {A : Type 0} (m : Io A)
    → KeepsRows m
    → (k : Rows) → Triple (Committed k) m (λ _. Committed k) Any
left m t k = weaken (loosened m t k) (λ _ w h. h) (λ w h. tt)

module _ (k r : Rows) (bucket : S3Bucket) (u : User) (key resource o b g : Text) where
  replace_object_lem :
      (n : ℕ) (etag content_type : Text)
      → Triple
          (OnRows k r)
          (replace_object bucket u key resource o b g n etag content_type)
          (Kept r)
          Any
  unfolding replace_object
  replace_object_lem n etag content_type = bind (kept (isfile o) (isfile-KeepsRows o)) λ exists.
      after
        (kept (when exists (copy o b >> set_backup_created)) (
          when-KeepsRows exists (copy o b >> set_backup_created)
            (λ k r. after (copy-KeepsRows o b k r) λ _. record { run = λ w h. h })))
        λ _.
          bind
            (weaken (upsert_object-rows bucket u key n etag content_type) (λ _ w h. h) (λ w h. tt))
            λ row. record { run = λ w (r', h, current, others). (stored row r' others).run w h }
    where
      stored :
          (row : S3Object) (r' : Rows)
          → SameBeside r r'
          → Triple
              (OnRows k r')
              (catch (rename g o) (λ e. raise (rename_conflict resource e))
                >> (set_written >> (commit >> return (some row))))
              (Kept r)
              Any
      stored row r' others =
          after (catching (kept (rename g o) (rename-KeepsRows g o)) (λ e. failed _)) λ _.
            after flagged λ _. after (weaken commit-rows (λ _ w h. h.0) (λ w h. tt)) λ _. settled
        where
          settled : Triple (Committed r') (return (some row)) (Kept r) Any
          settled = record { run = λ w h. subst (SameBeside r) (sym h) others }

          flagged : Triple (OnRows k r') set_written (λ _. OnRows k r') Any
          flagged = record { run = λ w h. h }

  publish_object_lem :
      (n : ℕ) (etag content_type : Text)
      → Triple
          (OnRows k r)
          (publish_object bucket u key resource o b g n etag content_type)
          (Kept r)
          Any
  unfolding publish_object
  publish_object_lem n etag content_type =
      if_lem
        (bucket.versioning_status == bucket_versioning_disabled && not bucket.object_lock_enabled)
        (replace_object_lem n etag content_type)
        (if_lem
          (bucket.versioning_status == bucket_versioning_enabled && bucket.object_lock_enabled)
          unbound
          (if_lem
            (bucket.versioning_status == bucket_versioning_enabled
              && not bucket.object_lock_enabled)
            unbound
            (if_lem
              (bucket.versioning_status == bucket_versioning_suspended
                && not bucket.object_lock_enabled)
              unbound (failed _))))
    where
      unbound : Triple (OnRows k r) (return none) (Kept r) Any
      unbound = record { run = λ w h. tt }

  store_object_lem :
      (env : Env) (body : Stream) (bucket_path : Text)
      → Triple
          (OnRows k r)
          (store_object env bucket u key resource body bucket_path o b g)
          (Kept r)
          Any
  unfolding store_object
  store_object_lem env body bucket_path =
      bind (kept (isdir bucket_path) (isdir-KeepsRows bucket_path)) λ there.
        if_lem (not there) (failed _) (
          after (kept (upload body g) (upload-KeepsRows body g)) λ _.
            bind (kept (get_filesize env g) (get_filesize-KeepsRows env g)) λ n.
              bind (kept (get_file_hash env g) (get_file_hash-KeepsRows env g)) λ etag.
                bind (kept (get_mimetype env g) (get_mimetype-KeepsRows env g)) λ content_type.
                  after (kept (object_mkdir env o resource) (object_mkdir-KeepsRows env o resource))
                    λ _. publish_object_lem n etag (or_default content_type))

  finished :
      (row : Option S3Object)
      → Triple
          (Kept r row)
          (asks (λ w. w.flags) >>= λ f. when f.backup_created (attempt (delete b)) >> bound row)
          (λ _ w. SameBeside r w.committed)
          Any
  finished none =
      bind (any_lem (asks (λ w. w.flags)))
        λ f. after (any_lem (when f.backup_created (attempt (delete b)))) λ _. failed _
  finished (some row) = record { run = λ w h. (done w.committed h).run w refl }
    where
      done :
          (k' : Rows)
          → SameBeside r k'
          → Triple
              (Committed k')
              (asks (λ w. w.flags) >>= λ f.
                when f.backup_created (attempt (delete b)) >> bound (some row))
              (λ _ w. SameBeside r w.committed)
              Any
      done k' same = bind (left (asks (λ w. w.flags)) (asks-KeepsRows (λ w. w.flags)) k') λ f.
          after
            (left (when f.backup_created (attempt (delete b)))
              (when-KeepsRows f.backup_created (attempt (delete b))
                (attempt-KeepsRows (delete b) (delete-KeepsRows b)))
              k')
            λ _. record { run = λ w h. subst (SameBeside r) (sym h) same }

  upload_to_lem :
      (env : Env) (body : Stream) (bucket_path : Text)
      → Triple
          (OnRows k r)
          (upload_to env bucket u key resource body bucket_path o b g)
          (λ _ w. SameBeside r w.committed)
          Any
  unfolding upload_to
  upload_to_lem env body bucket_path = after begun λ _.
      bind
        (catching (store_object_lem env body bucket_path) (λ e. raises_again (reconcile o b g) e))
        finished
    where
      begun : Triple (OnRows k r) reset_flags (λ _. OnRows k r) Any
      begun = record { run = λ w h. h }

object_upload_lem :
    (k r : Rows) (env : Env) (u : User) (name key : Text) (body : Stream)
    → Triple (OnRows k r) (object_upload env u name key body) (λ _ w. SameBeside r w.committed) Any
unfolding object_upload find_bucket
object_upload_lem k r env u name key body =
    after (kept (lift (validate_bucket_name name resource)) (lift-KeepsRows _)) λ _.
      after (kept (lift (validate_object_key key resource)) (lift-KeepsRows _)) λ _.
        bind (kept (lift (resolve_object_path env.buckets_dir name key)) (lift-KeepsRows _))
          λ (bucket_path, o).
            bind (kept (find_bucket name u resource) (find_bucket-KeepsRows name u)) λ bucket.
              bind (kept uuid4 uuid4-KeepsRows) λ staged.
                bind (kept uuid4 uuid4-KeepsRows) λ backup.
                  upload_to_lem k r bucket u key resource o (resolve_staged_path env.tmp_dir backup)
                    (resolve_staged_path env.tmp_dir staged) env body bucket_path
  where
    resource : Text
    resource = codes "/" ++ (name ++ (codes "/" ++ key))

    find_bucket-KeepsRows : (name : Text) (u : User) → KeepsRows (find_bucket name u resource)
    find_bucket-KeepsRows name u k r = after (tick-KeepsRows k r) λ _. looked-KeepsRows _ k r

-- An upload that returns leaves the buckets, the uploads and the parts as the session saw them.
pub object_upload-SameBeside :
    (env : Env) (u : User) (name key : Text) (body : Stream) (w w' : World) (row : S3Object)
    → object_upload env u name key body w ≡ (ok row, w')
    → SameBeside w.rows w'.committed
object_upload-SameBeside env u name key body w w' row run =
    subst (Ends (λ _ w'. SameBeside w.rows w'.committed) Any) run
      ((object_upload_lem w.committed w.rows env u name key body).run w (refl, refl))
