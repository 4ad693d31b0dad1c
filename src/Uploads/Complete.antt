-- ===== src/Uploads/Complete.antt =====
-- app/services/multipart_complete.py and the loop of `load_multipart_parts` in app/s3/multipart.py on the
-- session and the files. The lock of the upload is held from the first `try` to the last handler, and
-- the bucket's during the second `try` and its handler; Locks models them.
use hidden.Base.{
  ℕ, not, ◌&&◌, Bool, true, Option, none, some, List, [], ◌∷◌, ◌++◌, map, Text, codes, ◌==◌, nat_eq,
  list_eq, if◌then◌else◌, ltb, leb,
}
use hidden.Errors.{
  s3, bucket_not_found, object_part_invalid, object_part_number_invalid, object_part_order_invalid,
  object_part_too_small, runtime_error,
}
use hidden.Paths.Resolve.{
  resolve_object_path, resolve_staged_path, resolve_multipart_path, resolve_multipart_part_path,
  resolve_multipart_completed_path, resolve_multipart_object_backup_path,
}
use hidden.Validation.{validate_bucket_name, validate_object_key}
use hidden.Bucket.{
  S3Bucket, User, bucket_versioning_disabled, bucket_versioning_enabled,
  bucket_versioning_suspended,
}
use hidden.Multipart.{
  S3ObjectMultipart, S3ObjectMultipartPart, MultipartPart, select_part, is_last,
  object_part_number_max, object_part_size_min_bytes,
}
use hidden.World.{
  S3Object, Io, ◌>>=◌, ◌>>◌, return, raise, lift, asks, catch, attempt, try_else, when, tick, flush,
  uuid4, commit, rollback, reset_flags, set_backup_created, set_written, set_moved,
}
use hidden.Io.{Env, concat, get_filesize, isdir, isfile, copy, rename, delete, rmtree}
use hidden.Objects.{find_bucket, object_mkdir, upsert_object}
use hidden.Objects.Upload.{rename_conflict, bound}
use hidden.Uploads.Part.{find_multipart}
use hidden.Uploads.Abort.{drop_parts, drop_multipart}
use hidden.Uploads.Etag.{construct_etag}

-- The checks on the row of a part that was found, before the parts behind it.
abbrev pub listed_part :
    Text
    → Text
    → Bool
    → Option S3ObjectMultipartPart
    → Io (List Text × List Text)
    → Io (List Text × List Text)
listed_part resource path last none rest = raise (s3 object_part_invalid (some resource))
listed_part resource path last (some row) rest = isfile path >>= λ there.
    if not there
    then raise (s3 object_part_invalid (some resource))
    else if not last && ltb row.size_bytes object_part_size_min_bytes
    then raise (s3 object_part_too_small (some resource))
    else (rest >>= λ (paths, etags). return (path ∷ paths, row.etag ∷ etags))

-- The loop of `load_multipart_parts`, from the part number before.
unfoldable pub find_parts : ℕ → Text → Text → ℕ → List MultipartPart → Io (List Text × List Text)
find_parts multipart_id upload_path resource previous [] = return ([], [])
find_parts multipart_id upload_path resource previous (part ∷ parts) =
    let rest = find_parts multipart_id upload_path resource part.part_number parts in
    if leb part.part_number previous
    then raise (s3 object_part_order_invalid (some resource))
    else if ltb object_part_number_max part.part_number
    then raise (s3 object_part_number_invalid (some resource))
    else (tick
        >> (asks (λ w. select_part multipart_id part.part_number w.rows.parts) >>= λ row.
            listed_part resource (resolve_multipart_part_path upload_path part.part_number)
              (is_last parts) row rest))

-- No pair of `zip` differs.
unfoldable pub all_same : List Text → List Text → Bool
all_same (a ∷ as_) (b ∷ bs) = a == b && all_same as_ bs
all_same _ _ = true

-- The first `try`: the upload, the stored tags and the size of what was assembled.
unfoldable pub assemble :
    Env
    → S3Bucket
    → Text
    → Text
    → Text
    → Text
    → Text
    → List MultipartPart
    → Io (S3ObjectMultipart × List Text × ℕ)
unfolding all_same
assemble env bucket object_key upload_id resource upload_path staged_path parts =
    find_multipart bucket object_key upload_id resource >>= λ multipart.
    find_parts multipart.id upload_path resource 0 parts >>= λ (part_paths, stored_etags).
    if not (all_same (map (λ part. part.etag) parts) stored_etags)
    then raise (s3 object_part_invalid (some resource))
    else (concat env part_paths staged_path >>= λ actual_hashes.
        if not (all_same stored_etags actual_hashes)
        then raise (s3 object_part_invalid (some resource))
        else (get_filesize env staged_path >>= λ size_bytes.
            return (multipart, stored_etags, size_bytes)))

-- Its handler, which raises again.
unfoldable pub discard_staged : Text → Io (Unit {0})
discard_staged staged_path = attempt rollback >> attempt (delete staged_path)

-- The paths of the completion.
pub record CompletePaths : Type 0 where
  pub bucket_path : Text
  pub object_path : Text
  pub upload_path : Text
  pub staged_path : Text
  pub cleanup_path : Text
  pub backup_path : Text

-- The branch without versions and without Object Lock, from the row on.
unfoldable pub publish_completed :
    Env
    → S3Bucket
    → User
    → Text
    → Text
    → CompletePaths
    → S3ObjectMultipart
    → List Text
    → ℕ
    → Io (Option S3Object)
publish_completed env bucket current_user object_key resource p multipart stored_etags size_bytes =
    lift (construct_etag env.md5 stored_etags) >>= λ etag.
    upsert_object bucket current_user object_key size_bytes etag multipart.content_type none
    >>= λ s3_object.
        catch (rename p.staged_path p.object_path) (λ e. raise (rename_conflict resource e))
        >> (set_written
            >> (rename p.upload_path p.cleanup_path
                >> (set_moved true
                    >> (tick
                        >> (flush (drop_parts multipart)
                            >> (flush (drop_multipart multipart)
                                >> (commit >> return (some s3_object))))))))

unfoldable pub replace_completed :
    Env
    → S3Bucket
    → User
    → Text
    → Text
    → CompletePaths
    → S3ObjectMultipart
    → List Text
    → ℕ
    → Io (Option S3Object)
replace_completed env bucket current_user object_key resource p multipart stored_etags size_bytes =
    isfile p.object_path >>= λ exists.
    when exists (copy p.object_path p.backup_path >> set_backup_created)
    >> publish_completed env bucket current_user object_key resource p multipart stored_etags
        size_bytes

-- The second `try`; the branches with versions do nothing, and no row is bound.
unfoldable pub complete_object :
    Env
    → S3Bucket
    → User
    → Text
    → Text
    → CompletePaths
    → S3ObjectMultipart
    → List Text
    → ℕ
    → Io (Option S3Object)
complete_object env bucket current_user object_key resource p multipart stored_etags size_bytes =
    let status = bucket.versioning_status in
    let locked = bucket.object_lock_enabled in
    isdir p.bucket_path >>= λ there.
    if not there
    then raise (s3 bucket_not_found (some resource))
    else (object_mkdir env p.object_path resource
        >> (if status == bucket_versioning_disabled && not locked
            then replace_completed env bucket current_user object_key resource p multipart
                stored_etags size_bytes
            else if status == bucket_versioning_enabled && locked
            then return none
            else if status == bucket_versioning_enabled && not locked
            then return none
            else if status == bucket_versioning_suspended && not locked
            then return none
            else raise runtime_error))

-- Its handler: the rows, the object and the upload are put back.
unfoldable pub reconcile_completed : CompletePaths → Io (Unit {0})
reconcile_completed p =
    attempt rollback
    >> (asks (λ w. w.flags) >>= λ f.
        when (f.written && not f.backup_created) (attempt (delete p.object_path))
        >> (when (f.written && f.backup_created)
              (try_else (copy p.backup_path p.object_path) (attempt (delete p.backup_path)))
            >> (when (f.backup_created && not f.written) (attempt (delete p.backup_path))
                >> (when f.moved (attempt (rename p.cleanup_path p.upload_path))
                    >> attempt (delete p.staged_path)))))

-- What follows once the bucket and the paths are known.
unfoldable pub complete_at :
    Env → S3Bucket → User → Text → Text → Text → CompletePaths → List MultipartPart → Io S3Object
complete_at env bucket current_user object_key upload_id resource p parts =
    reset_flags
    >> (catch (assemble env bucket object_key upload_id resource p.upload_path p.staged_path parts)
          (λ e. discard_staged p.staged_path >> raise e)
        >>= λ (multipart, stored_etags, size_bytes).
            catch
              (complete_object env bucket current_user object_key resource p multipart stored_etags
                size_bytes)
              (λ e. reconcile_completed p >> raise e)
            >>= λ s3_object. asks (λ w. w.flags) >>= λ f.
                when f.backup_created (attempt (delete p.backup_path))
                >> (when f.moved (attempt (rmtree p.cleanup_path)) >> bound s3_object))

unfoldable pub multipart_complete :
    Env → User → Text → Text → Text → List MultipartPart → Io S3Object
multipart_complete env current_user bucket_name object_key upload_id parts =
    let resource = codes "/" ++ (bucket_name ++ (codes "/" ++ object_key)) in
    lift (validate_bucket_name bucket_name resource)
    >> (lift (validate_object_key object_key resource)
        >> (lift (resolve_object_path env.buckets_dir bucket_name object_key)
            >>= λ (bucket_path, object_path).
                find_bucket bucket_name current_user resource >>= λ bucket. uuid4 >>= λ staged.
                uuid4 >>= λ cleanup. uuid4 >>= λ backup.
                complete_at env bucket current_user object_key upload_id resource
                  (record {
                    bucket_path = bucket_path;
                    object_path = object_path;
                    upload_path = resolve_multipart_path env.tmp_dir upload_id;
                    staged_path = resolve_staged_path env.tmp_dir staged;
                    cleanup_path = resolve_multipart_completed_path env.tmp_dir upload_id cleanup;
                    backup_path = resolve_multipart_object_backup_path env.tmp_dir backup;
                  })
                  parts))
