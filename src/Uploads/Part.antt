-- ===== src/Uploads/Part.antt =====
-- app/services/multipart_upload.py. The lock of the part is held from the first of the `try` to the end;
-- Locks models it.
use hidden.Base.{ℕ, not, ◌&&◌, ◌||◌, some, ◌++◌, Text, codes, nat_eq, list_eq, if◌then◌else◌, ltb}
use hidden.Errors.{s3, object_upload_not_found, object_part_number_invalid}
use hidden.Paths.Resolve.{
  resolve_multipart_path, resolve_multipart_part_path, resolve_multipart_staged_part_path,
  resolve_multipart_backup_part_path,
}
use hidden.Validation.{validate_object_key}
use hidden.Bucket.{S3Bucket, User}
use hidden.Multipart.{
  S3ObjectMultipart, load_multipart, upsert_multipart_part, object_part_number_max,
}
use hidden.World.{
  Io, ◌>>=◌, ◌>>◌, return, raise, lift, asks, catch, attempt, when, tick, flush, uuid4, commit,
  rollback, reset_flags, set_backup_created, set_written,
}
use hidden.Io.{Env, Stream, upload, get_filesize, get_file_hash, isdir, isfile, rename, delete}
use hidden.Objects.{find_bucket}

unfoldable pub find_multipart : S3Bucket → Text → Text → Text → Io S3ObjectMultipart
find_multipart bucket object_key upload_id resource =
    tick >> (λ w. (load_multipart w.rows.uploads bucket object_key upload_id (some resource), w))

unfoldable pub save_part : S3ObjectMultipart → ℕ → ℕ → Text → Io (Unit {0})
save_part multipart part_number size_bytes etag =
    tick
    >> (asks (λ w. w.now) >>= λ now. flush (λ rows. record rows {
      parts = upsert_multipart_part now multipart.id part_number size_bytes etag rows.parts;
    }))

-- The `try` of `multipart_upload`.
unfoldable pub store_part :
    Env → S3Bucket → Text → Text → Text → ℕ → Stream → Text → Text → Text → Text → Io Text
store_part env bucket object_key resource upload_id part_number body upload_path part_path
      backup_path staged_path =
    isdir upload_path >>= λ there.
    if not there
    then raise (s3 object_upload_not_found (some resource))
    else (find_multipart bucket object_key upload_id resource >>= λ multipart.
        upload body staged_path
        >> (get_file_hash env staged_path >>= λ etag. get_filesize env staged_path >>= λ size_bytes.
            isfile part_path >>= λ exists.
            when exists (rename part_path backup_path >> set_backup_created)
            >> (rename staged_path part_path
                >> (set_written
                    >> (save_part multipart part_number size_bytes etag
                        >> (commit >> return etag))))))

-- Its handler.
unfoldable pub reconcile_part : Text → Text → Text → Io (Unit {0})
reconcile_part part_path backup_path staged_path =
    attempt rollback
    >> (asks (λ w. w.flags) >>= λ f.
        when (f.written && not f.backup_created) (attempt (delete part_path))
        >> (when f.backup_created (attempt (rename backup_path part_path))
            >> attempt (delete staged_path)))

unfoldable pub upload_part_to :
    Env → S3Bucket → Text → Text → Text → ℕ → Stream → Text → Text → Text → Text → Io Text
upload_part_to env bucket object_key resource upload_id part_number body upload_path part_path
      backup_path staged_path =
    reset_flags
    >> (catch
          (store_part env bucket object_key resource upload_id part_number body upload_path
            part_path backup_path staged_path)
          (λ e. reconcile_part part_path backup_path staged_path >> raise e)
        >>= λ etag. asks (λ w. w.flags) >>= λ f.
            when f.backup_created (attempt (delete backup_path)) >> return etag)

unfoldable pub multipart_upload : Env → User → Text → Text → Text → ℕ → Stream → Io Text
multipart_upload env current_user bucket_name object_key upload_id part_number body =
    let resource = codes "/" ++ (bucket_name ++ (codes "/" ++ object_key)) in
    let upload_path = resolve_multipart_path env.tmp_dir upload_id in
    lift (validate_object_key object_key resource)
    >> (if ltb part_number 1 || ltb object_part_number_max part_number
        then raise (s3 object_part_number_invalid (some resource))
        else (find_bucket bucket_name current_user resource >>= λ bucket. uuid4 >>= λ token.
            upload_part_to env bucket object_key resource upload_id part_number body upload_path
              (resolve_multipart_part_path upload_path part_number)
              (resolve_multipart_backup_part_path upload_path part_number token)
              (resolve_multipart_staged_part_path upload_path part_number token)))
