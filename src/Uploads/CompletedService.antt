-- ===== src/Uploads/CompletedService.antt =====
-- `multipart_complete` as a whole: its handlers and its clean-up on the rows.
use hidden.Base.{
  ◌≡◌, refl, sym, subst, not, ◌&&◌, Bool, Option, none, some, List, ◌++◌, Text, codes,
}
use hidden.Errors.{ok}
use hidden.Paths.Resolve.{
  resolve_object_path, resolve_staged_path, resolve_multipart_path,
  resolve_multipart_completed_path, resolve_multipart_object_backup_path,
}
use hidden.Validation.{validate_bucket_name, validate_object_key}
use hidden.Bucket.{S3Bucket, User, load_bucket}
use hidden.Multipart.{S3ObjectMultipart, MultipartPart}
use hidden.World.{
  World, Rows, S3Object, Io, ◌>>=◌, ◌>>◌, lift, asks, attempt, try_else, when, uuid4, reset_flags,
}
use hidden.World.Triple.{Pred, Ends, Triple, bind, after, weaken, catching, given, if_lem, raised}
use hidden.Io.{Env, copy, rename, delete, rmtree}
use hidden.Io.Laws.Session.{
  OnRows, KeepsRows, Committed, KeepsCommitted, loosened, held, rollback-KeepsCommitted,
  asks-KeepsRows, delete-KeepsRows, rename-KeepsRows, rmtree-KeepsRows, uuid4-KeepsRows,
  attempt-KeepsRows, when-KeepsRows, lift-KeepsRows,
}
use hidden.Io.Laws.SessionWrites.{copy-KeepsRows, try_else-KeepsRows}
use hidden.Objects.Upload.{bound}
use hidden.Uploads.Selected.{find_bucket-rows}
use hidden.Uploads.Complete.{
  CompletePaths, discard_staged, reconcile_completed, complete_at, multipart_complete,
}
use hidden.Uploads.Completed.{IsListed, tags, assemble_lem}
use hidden.Uploads.CompletedAtomic.{Settled, Finished, flag_rows, complete_object_lem}

attempted : (m : Io (Unit {0})) → KeepsRows m → KeepsCommitted (attempt m)
attempted m t = loosened (attempt m) (attempt-KeepsRows m t)

attempted_when : (b : Bool) (m : Io (Unit {0})) → KeepsRows m → KeepsCommitted (when b (attempt m))
attempted_when b m t =
    loosened (when b (attempt m)) (when-KeepsRows b (attempt m) (attempt-KeepsRows m t))

discard_staged_lem : (p : Text) → KeepsCommitted (discard_staged p)
unfolding discard_staged
discard_staged_lem p k =
    after (rollback-KeepsCommitted k) λ _. attempted (delete p) (delete-KeepsRows p) k

reconcile_completed_lem : (p : CompletePaths) → KeepsCommitted (reconcile_completed p)
unfolding reconcile_completed
reconcile_completed_lem p k = after (rollback-KeepsCommitted k) λ _.
    bind (loosened (asks (λ w. w.flags)) (asks-KeepsRows (λ w. w.flags)) k) λ f.
      after
        (attempted_when (f.written && not f.backup_created) (delete p.object_path)
          (delete-KeepsRows p.object_path) k)
        λ _.
          after
            (loosened
              (when (f.written && f.backup_created)
                (try_else (copy p.backup_path p.object_path) (attempt (delete p.backup_path))))
              (when-KeepsRows (f.written && f.backup_created)
                (try_else (copy p.backup_path p.object_path) (attempt (delete p.backup_path)))
                (try_else-KeepsRows (copy p.backup_path p.object_path)
                  (attempt (delete p.backup_path)) (copy-KeepsRows p.backup_path p.object_path)
                  (attempt-KeepsRows (delete p.backup_path) (delete-KeepsRows p.backup_path))))
              k)
            λ _.
              after
                (attempted_when (f.backup_created && not f.written) (delete p.backup_path)
                  (delete-KeepsRows p.backup_path) k)
                λ _.
                  after
                    (attempted_when f.moved (rename p.cleanup_path p.upload_path)
                      (rename-KeepsRows p.cleanup_path p.upload_path) k)
                    λ _. attempted (delete p.staged_path) (delete-KeepsRows p.staged_path) k

-- A clean-up that is attempted does not raise.
tried :
    {k : Rows} {R : Pred} (b : Bool) (m : Io (Unit {0}))
    → KeepsRows m
    → Triple (Committed k) (when b (attempt m)) (λ _. Committed k) R
tried {k} b m t =
    if_lem b (catching (loosened m t k) (λ e. record { run = λ w h. h }))
      (record { run = λ w h. h })

cleaned_up :
    {k : Rows} {Q : S3Object → Pred} {R : Pred} (p : CompletePaths) (s3_object : Option S3Object)
    → Triple (Committed k) (bound s3_object) Q R
    → Triple
        (Committed k)
        (asks (λ w. w.flags) >>= λ f.
          when f.backup_created (attempt (delete p.backup_path))
          >> (when f.moved (attempt (rmtree p.cleanup_path)) >> bound s3_object))
        Q
        R
cleaned_up {k} {Q} {R} p s3_object t = bind flags λ f.
    after (tried f.backup_created (delete p.backup_path) (delete-KeepsRows p.backup_path))
      λ _. after (tried f.moved (rmtree p.cleanup_path) (rmtree-KeepsRows p.cleanup_path)) λ _. t
  where
    flags : Triple (Committed k) (asks (λ w. w.flags)) (λ _. Committed k) R
    flags = record { run = λ w h. h }

-- What the service returns with: the upload was there with the listed parts, and what is committed has
-- the object and no more the upload.
abbrev pub Complete :
    Env → Rows → S3Bucket → Text → Text → Text → List MultipartPart → S3Object → World → Type 0
Complete env r bucket key upload_id resource parts row w =
    (m : S3ObjectMultipart) × IsListed r bucket key upload_id resource parts m
    × Settled env r bucket key m (tags parts) row w.committed

module _ (env : Env) (k r : Rows) (bucket : S3Bucket) (u : User) (key upload_id resource : Text)
    (p : CompletePaths) (parts : List MultipartPart) where
  finished :
      (m : S3ObjectMultipart) (etags : List Text)
      → tags parts ≡ etags
      → IsListed r bucket key upload_id resource parts m
      → (s3_object : Option S3Object)
      → Triple
          (Finished env k r bucket key m etags s3_object)
          (asks (λ w. w.flags) >>= λ f.
            when f.backup_created (attempt (delete p.backup_path))
            >> (when f.moved (attempt (rmtree p.cleanup_path)) >> bound s3_object))
          (Complete env r bucket key upload_id resource parts)
          (Committed k)
  finished m etags same listed none = cleaned_up p none (record { run = λ w h. h })
  finished m etags same listed (some row) = record {
    run = λ w (rows, settled, h).
        (cleaned_up {k = rows} {Q = Complete env r bucket key upload_id resource parts}
            {R = Committed k} p (some row) (done rows settled)).run
          w h;
  }
    where
      done :
          (rows : Rows)
          → Settled env r bucket key m etags row rows
          → Triple
              (Committed rows)
              (bound (some row))
              (Complete env r bucket key upload_id resource parts)
              (Committed k)
      done rows settled = record {
        run = λ w h. (
          m,
          listed,
          subst (λ rows. Settled env r bucket key m (tags parts) row rows) (sym h)
              (subst (λ t. Settled env r bucket key m t row rows) (sym same) settled),
        );
      }

  complete_at_lem :
      Triple
        (OnRows k r)
        (complete_at env bucket u key upload_id resource p parts)
        (Complete env r bucket key upload_id resource parts)
        (Committed k)
  unfolding complete_at
  complete_at_lem = after (flag_rows reset_flags (λ w h. h)) λ _.
      bind
        (catching (assemble_lem env bucket key upload_id resource p.upload_path p.staged_path parts)
          (λ e. after (discard_staged_lem p.staged_path k) λ _. raised e))
        λ (m, etags, n). record {
          run = λ w (h, same, listed).
              (bind
                  (catching (complete_object_lem env k r bucket u key resource p m etags n)
                    (λ e. after (reconcile_completed_lem p k) λ _. raised e))
                  λ s3_object. finished m etags same listed s3_object).run
                w h;
        }

-- The user may use the bucket that the request names, and its upload is complete.
abbrev pub CompleteIn :
    Env → Rows → Text → Text → Text → Text → User → List MultipartPart → S3Object → World → Type 0
CompleteIn env r name key upload_id resource u parts row w =
    (bucket : S3Bucket) × (load_bucket r.buckets name u (some resource) ≡ ok bucket)
    × Complete env r bucket key upload_id resource parts row w

multipart_complete_lem :
    {k r : Rows} (env : Env) (u : User) (name key upload_id : Text) (parts : List MultipartPart)
    → Triple
        (OnRows k r)
        (multipart_complete env u name key upload_id parts)
        (CompleteIn env r name key upload_id (codes "/" ++ (name ++ (codes "/" ++ key))) u parts)
        (Committed k)
unfolding multipart_complete
multipart_complete_lem {k} {r} env u name key upload_id parts =
    after (held (lift (validate_bucket_name name resource)) (lift-KeepsRows _)) λ _.
      after (held (lift (validate_object_key key resource)) (lift-KeepsRows _)) λ _.
        bind (held (lift (resolve_object_path env.buckets_dir name key)) (lift-KeepsRows _))
          λ (bucket_path, object_path). bind (find_bucket-rows name resource u) λ bucket.
            given λ loaded. bind (held uuid4 uuid4-KeepsRows) λ staged.
              bind (held uuid4 uuid4-KeepsRows) λ cleanup.
                bind (held uuid4 uuid4-KeepsRows) λ backup.
                  weaken
                    (complete_at_lem env k r bucket u key upload_id resource
                      (record {
                        bucket_path = bucket_path;
                        object_path = object_path;
                        upload_path = resolve_multipart_path env.tmp_dir upload_id;
                        staged_path = resolve_staged_path env.tmp_dir staged;
                        cleanup_path =
                            resolve_multipart_completed_path env.tmp_dir upload_id cleanup;
                        backup_path = resolve_multipart_object_backup_path env.tmp_dir backup;
                      })
                      parts)
                    (λ row w h. (bucket, loaded, h)) (λ w h. h)
  where
    resource : Text
    resource = codes "/" ++ (name ++ (codes "/" ++ key))

-- Whatever fails, `multipart_complete` either raises and commits nothing, or returns a row and the
-- request named an upload in a bucket that the user may use, whose stored tags are those of the listed
-- parts: then what is committed is what the session saw, with this row as the one that the key selects,
-- which carries the entity tag made of the listed ones and the upload's content type, without the upload
-- and its parts, and with no other change beside the objects.
pub multipart_complete-atomic :
    (env : Env) (u : User) (name key upload_id : Text) (parts : List MultipartPart) (w : World)
    → Ends
        (CompleteIn env w.rows name key upload_id
          (codes "/" ++ (name ++ (codes "/" ++ key)))
          u
          parts)
        (Committed w.committed)
        (multipart_complete env u name key upload_id parts w)
multipart_complete-atomic env u name key upload_id parts w =
    (multipart_complete_lem env u name key upload_id parts).run w (refl, refl)
