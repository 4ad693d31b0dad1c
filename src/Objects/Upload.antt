-- ===== src/Objects/Upload.antt =====
-- app/services/object_upload.py. The bucket's lock is held from the first of the `try` to the last of
-- its handlers; Locks models it. The subscribers of the event get the row, and their failures are
-- caught.
use hidden.Base.{
  ℕ, not, ◌&&◌, Option, none, some, [], ◌∷◌, ◌++◌, Text, codes, ◌==◌, nat_eq, list_eq,
  if◌then◌else◌,
}
use hidden.Errors.{
  Error, s3, bucket_not_found, object_key_conflict, runtime_error, unbound_local, is_a_directory,
  not_a_directory,
}
use hidden.Paths.Resolve.{resolve_object_path, resolve_staged_path}
use hidden.Validation.{validate_bucket_name, validate_object_key}
use hidden.Bucket.{
  S3Bucket, User, bucket_versioning_disabled, bucket_versioning_enabled,
  bucket_versioning_suspended,
}
use hidden.World.{
  S3Object, Io, ◌>>=◌, ◌>>◌, return, raise, lift, asks, catch, attempt, try_else, when, uuid4,
  commit, rollback, reset_flags, set_backup_created, set_written,
}
use hidden.Io.{
  Env, Stream, upload, get_filesize, get_file_hash, get_mimetype, isdir, isfile, copy, rename,
  delete,
}
use hidden.Objects.{find_bucket, object_mkdir, upsert_object}

-- `content_type or OBJECT_CONTENT_TYPE_DEFAULT`
abbrev pub or_default : Option Text → Text
or_default none = codes "application/octet-stream"
or_default (some []) = codes "application/octet-stream"
or_default (some (c ∷ cs)) = c ∷ cs

-- The key is taken by a directory, or a part of its prefix by a file.
abbrev pub rename_conflict : Text → Error → Error
rename_conflict resource is_a_directory = s3 object_key_conflict (some resource)
rename_conflict resource not_a_directory = s3 object_key_conflict (some resource)
rename_conflict resource e = e

-- The branch without versions and without Object Lock.
unfoldable pub replace_object :
    S3Bucket → User → Text → Text → Text → Text → Text → ℕ → Text → Text → Io (Option S3Object)
replace_object bucket current_user object_key resource object_path backup_path staged_path
      size_bytes etag content_type =
    isfile object_path >>= λ exists.
    when exists (copy object_path backup_path >> set_backup_created)
    >> (upsert_object bucket current_user object_key size_bytes etag content_type none
        >>= λ s3_object.
            catch (rename staged_path object_path) (λ e. raise (rename_conflict resource e))
            >> (set_written >> (commit >> return (some s3_object))))

-- The branches on the bucket's state; those with versions do nothing, and no row is bound.
unfoldable pub publish_object :
    S3Bucket → User → Text → Text → Text → Text → Text → ℕ → Text → Text → Io (Option S3Object)
publish_object bucket current_user object_key resource object_path backup_path staged_path
      size_bytes etag content_type =
    let status = bucket.versioning_status in
    let locked = bucket.object_lock_enabled in
    if status == bucket_versioning_disabled && not locked
    then replace_object bucket current_user object_key resource object_path backup_path staged_path
        size_bytes etag content_type
    else if status == bucket_versioning_enabled && locked
    then return none
    else if status == bucket_versioning_enabled && not locked
    then return none
    else if status == bucket_versioning_suspended && not locked
    then return none
    else raise runtime_error

-- The `try` of `object_upload`.
unfoldable pub store_object :
    Env → S3Bucket → User → Text → Text → Stream → Text → Text → Text → Text → Io (Option S3Object)
store_object env bucket current_user object_key resource body bucket_path object_path backup_path
      staged_path =
    isdir bucket_path >>= λ there.
    if not there
    then raise (s3 bucket_not_found (some resource))
    else (upload body staged_path
        >> (get_filesize env staged_path >>= λ size_bytes. get_file_hash env staged_path >>= λ etag.
            get_mimetype env staged_path >>= λ content_type.
            object_mkdir env object_path resource
            >> publish_object bucket current_user object_key resource object_path backup_path
                staged_path size_bytes etag (or_default content_type)))

-- Its handler: the rows and the files are put back.
unfoldable pub reconcile : Text → Text → Text → Io (Unit {0})
reconcile object_path backup_path staged_path =
    attempt rollback
    >> (asks (λ w. w.flags) >>= λ f.
        when (f.written && not f.backup_created) (attempt (delete object_path))
        >> (when (f.written && f.backup_created)
              (try_else (copy backup_path object_path) (attempt (delete backup_path)))
            >> (when (f.backup_created && not f.written) (attempt (delete backup_path))
                >> attempt (delete staged_path))))

-- A name that no branch has bound.
abbrev pub bound : Option S3Object → Io S3Object
bound none = raise unbound_local
bound (some s3_object) = return s3_object

-- What follows once the bucket and the paths are known.
unfoldable pub upload_to :
    Env → S3Bucket → User → Text → Text → Stream → Text → Text → Text → Text → Io S3Object
upload_to env bucket current_user object_key resource body bucket_path object_path backup_path
      staged_path =
    reset_flags
    >> (catch
          (store_object env bucket current_user object_key resource body bucket_path object_path
            backup_path staged_path)
          (λ e. reconcile object_path backup_path staged_path >> raise e)
        >>= λ s3_object. asks (λ w. w.flags) >>= λ f.
            when f.backup_created (attempt (delete backup_path)) >> bound s3_object)

unfoldable pub object_upload : Env → User → Text → Text → Stream → Io S3Object
object_upload env current_user bucket_name object_key body =
    let resource = codes "/" ++ (bucket_name ++ (codes "/" ++ object_key)) in
    lift (validate_bucket_name bucket_name resource)
    >> (lift (validate_object_key object_key resource)
        >> (lift (resolve_object_path env.buckets_dir bucket_name object_key)
            >>= λ (bucket_path, object_path).
                find_bucket bucket_name current_user resource >>= λ bucket. uuid4 >>= λ staged.
                uuid4 >>= λ backup.
                upload_to env bucket current_user object_key resource body bucket_path object_path
                  (resolve_staged_path env.tmp_dir backup)
                  (resolve_staged_path env.tmp_dir staged)))
