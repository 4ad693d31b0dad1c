-- ===== src/Uploads/CompletedAtomic.antt =====
-- `multipart_complete` as a transaction over the rows.
use hidden.Base.{
  ◌∙◌, ℕ, ◌≡◌, refl, Bool, true, not, ◌&&◌, Option, none, some, List, Text, ◌==◌, nat_eq, list_eq,
}
use hidden.Errors.{Result, ok, err}
use hidden.Bucket.{
  S3Bucket, User, bucket_versioning_disabled, bucket_versioning_enabled,
  bucket_versioning_suspended,
}
use hidden.Multipart.{S3ObjectMultipart}
use hidden.World.{
  World, Rows, S3Object, Io, ◌>>◌, return, raise, lift, catch, when, tick, flush, commit,
  set_backup_created, set_written, set_moved,
}
use hidden.World.Triple.{Ends, Triple, bind, after, weaken, catching, given, if_lem, raised}
use hidden.Io.{Env, isdir, isfile, copy, rename}
use hidden.Io.Laws.Session.{
  OnRows, KeepsRows, Committed, held, tick-KeepsRows, isfile-KeepsRows, isdir-KeepsRows,
  rename-KeepsRows, when-KeepsRows, flush-rows, commit-rows,
}
use hidden.Io.Laws.SessionWrites.{copy-KeepsRows, object_mkdir-KeepsRows}
use hidden.Objects.{object_mkdir}
use hidden.Objects.Current.{Current}
use hidden.Objects.Upload.{rename_conflict}
use hidden.Uploads.Abort.{drop_parts, drop_multipart}
use hidden.Uploads.AbortedRows.{without_multipart, drop_multipart_lem}
use hidden.Uploads.Etag.{construct_etag}
use hidden.Uploads.Complete.{CompletePaths, publish_completed, replace_completed, complete_object}
use hidden.Uploads.Completed.{refused}
use hidden.Objects.Beside.{SameBeside, upsert_object-rows}

-- The rows that are committed: the key has the row of the object, with the tag of the listed parts, and
-- the upload is gone with its parts.
abbrev pub Settled :
    Env → Rows → S3Bucket → Text → S3ObjectMultipart → List Text → S3Object → Rows → Type 0
Settled env r bucket key m etags row committed =
    (n : ℕ) × (etag : Text) × (r' : Rows) × (construct_etag env.md5 etags ≡ ok etag)
    × Current bucket.id key n etag m.content_type row r'
    × SameBeside r r'
    × (committed ≡ without_multipart m r')

-- What the second `try` leaves.
abbrev pub Finished :
    Env
    → Rows
    → Rows
    → S3Bucket
    → Text
    → S3ObjectMultipart
    → List Text
    → Option S3Object
    → World
    → Type 0
Finished env k r bucket key m etags none w = Committed k w
Finished env k r bucket key m etags (some row) w =
    (rows : Rows) × Settled env r bucket key m etags row rows × Committed rows w

pub flag_rows :
    {k r : Rows} (m : Io (Unit {0}))
    → ((w : World) → OnRows k r w → Ends (λ _. OnRows k r) (Committed k) (m w))
    → Triple (OnRows k r) m (λ _. OnRows k r) (Committed k)
flag_rows m f = record { run = f }

lifted :
    {A : Type 0} {k r : Rows} (m : Result A)
    → Triple (OnRows k r) (lift m) (λ a w. OnRows k r w × (m ≡ ok a)) (Committed k)
lifted (ok a) = record { run = λ w h. (h, refl) }
lifted (err e) = record { run = λ w h. h.0 }

module _ (env : Env) (k r : Rows) (bucket : S3Bucket) (u : User) (key resource : Text)
    (p : CompletePaths) (m : S3ObjectMultipart) (etags : List Text) (n : ℕ) where
  -- From the row on: the files are moved, and the upload is deleted with its parts.
  moved_lem :
      (etag : Text)
      → construct_etag env.md5 etags ≡ ok etag
      → (row : S3Object) (r' : Rows) → Current bucket.id key n etag m.content_type row r'
      → SameBeside r r'
      → Triple
          (OnRows k r')
          (catch (rename p.staged_path p.object_path) (λ e. raise (rename_conflict resource e))
            >> (set_written
                >> (rename p.upload_path p.cleanup_path
                    >> (set_moved true
                        >> (tick
                            >> (flush (drop_parts m)
                                >> (flush (drop_multipart m) >> (commit >> return (some row)))))))))
          (Finished env k r bucket key m etags)
          (Committed k)
  moved_lem etag made row r' current others =
      after
        (catching
          (held (rename p.staged_path p.object_path) (rename-KeepsRows p.staged_path p.object_path))
          (λ e. raised _))
        λ _. after (flag_rows set_written (λ w h. h)) λ _.
          after
            (held (rename p.upload_path p.cleanup_path)
              (rename-KeepsRows p.upload_path p.cleanup_path))
            λ _. after (flag_rows (set_moved true) (λ w h. h)) λ _.
              after (held tick tick-KeepsRows) λ _.
                after (weaken (flush-rows (drop_parts m)) (λ _ w h. h) (λ w h. h.0)) λ _.
                  after (weaken (flush-rows (drop_multipart m)) (λ _ w h. h) (λ w h. h.0)) λ _.
                    after (weaken commit-rows (λ _ w h. h.0 ∙ drop_multipart_lem m r') (λ w h. h.0))
                      λ _. settled
    where
      settled :
          Triple
            (Committed (without_multipart m r'))
            (return (some row))
            (Finished env k r bucket key m etags)
            (Committed k)
      settled = record {
        run = λ w h. (without_multipart m r', (n, etag, r', made, current, others, refl), h);
      }

  publish_completed_lem :
      Triple
        (OnRows k r)
        (publish_completed env bucket u key resource p m etags n)
        (Finished env k r bucket key m etags)
        (Committed k)
  unfolding publish_completed
  publish_completed_lem = bind (lifted (construct_etag env.md5 etags)) λ etag. given λ made.
      bind (upsert_object-rows bucket u key n etag m.content_type) λ row. record {
        run = λ w (r', h, current, others). (moved_lem etag made row r' current others).run w h;
      }

  backed_up :
      (b : Bool) → KeepsRows (when b (copy p.object_path p.backup_path >> set_backup_created))
  backed_up b =
      when-KeepsRows b (copy p.object_path p.backup_path >> set_backup_created) (λ k r.
        after (copy-KeepsRows p.object_path p.backup_path k r) λ _. record { run = λ w h. h })

  pub complete_object_lem :
      Triple
        (OnRows k r)
        (complete_object env bucket u key resource p m etags n)
        (Finished env k r bucket key m etags)
        (Committed k)
  unfolding complete_object replace_completed
  complete_object_lem = bind (held (isdir p.bucket_path) (isdir-KeepsRows p.bucket_path)) λ there.
      if_lem (not there) (refused _) (
        after
          (held (object_mkdir env p.object_path resource)
            (object_mkdir-KeepsRows env p.object_path resource))
          λ _.
            if_lem
              (bucket.versioning_status == bucket_versioning_disabled
                && not bucket.object_lock_enabled)
              (bind (held (isfile p.object_path) (isfile-KeepsRows p.object_path)) λ exists.
                after
                  (held (when exists (copy p.object_path p.backup_path >> set_backup_created))
                    (backed_up exists))
                  λ _. publish_completed_lem)
              (if_lem
                (bucket.versioning_status == bucket_versioning_enabled
                  && bucket.object_lock_enabled)
                unbound
                (if_lem
                  (bucket.versioning_status == bucket_versioning_enabled
                    && not bucket.object_lock_enabled)
                  unbound
                  (if_lem
                    (bucket.versioning_status == bucket_versioning_suspended
                      && not bucket.object_lock_enabled)
                    unbound (refused _)))))
    where
      unbound :
          Triple (OnRows k r) (return none) (Finished env k r bucket key m etags) (Committed k)
      unbound = record { run = λ w h. h.0 }
