-- ===== src/Uploads/Abort.antt =====
-- app/services/multipart_abort.py. The lock of the upload's directory is held from the first of the `try`
-- to the last of its handler; Locks models it.
use hidden.Base.{ℕ, true, false, List, [], ◌∷◌, ◌++◌, Text, codes, ◌==◌, nat_eq, if◌then◌else◌}
use hidden.Errors.{Error, file_not_found, file_exists, is_a_directory, not_a_directory, os_error}
use hidden.Paths.Resolve.{resolve_multipart_path, resolve_multipart_aborted_path}
use hidden.Validation.{validate_object_key}
use hidden.Bucket.{S3Bucket, User}
use hidden.Multipart.{S3ObjectMultipart, delete_multipart_parts}
use hidden.World.{
  Rows, Io, ◌>>=◌, ◌>>◌, return, raise, lift, asks, catch, attempt, when, tick, flush, uuid4,
  commit, rollback, reset_flags, set_moved,
}
use hidden.Io.{Env, isdir, rename, rmtree}
use hidden.Objects.{find_bucket}
use hidden.Uploads.Part.{find_multipart}

-- `repo.delete` of the row.
unfoldable pub delete_multipart : ℕ → List S3ObjectMultipart → List S3ObjectMultipart
delete_multipart id [] = []
delete_multipart id (row ∷ rows) =
    let others = delete_multipart id rows in if row.id == id then others else row ∷ others

unfoldable pub drop_parts : S3ObjectMultipart → Rows → Rows
drop_parts multipart rows = record rows { parts = delete_multipart_parts multipart.id rows.parts }

unfoldable pub drop_multipart : S3ObjectMultipart → Rows → Rows
drop_multipart multipart rows = record rows { uploads = delete_multipart multipart.id rows.uploads }

-- The `try` of `multipart_abort`. The parts are listed before they are deleted.
unfoldable pub remove_multipart : S3Bucket → Text → Text → Text → Text → Text → Io (Unit {0})
remove_multipart bucket object_key upload_id resource upload_path cleanup_path =
    find_multipart bucket object_key upload_id resource >>= λ multipart.
    isdir upload_path >>= λ there.
    when there (rename upload_path cleanup_path >> set_moved true)
    >> (tick >> (flush (drop_parts multipart) >> (flush (drop_multipart multipart) >> commit)))

-- Its handler, which raises again.
unfoldable pub restore_multipart : Text → Text → Io (Unit {0})
restore_multipart upload_path cleanup_path =
    attempt rollback
    >> (asks (λ w. w.flags) >>= λ f.
        when f.moved (attempt (rename cleanup_path upload_path >> set_moved false)))

-- `except OSError`
abbrev pub forgive_os_error : Error → Io (Unit {0})
forgive_os_error file_not_found = return tt
forgive_os_error file_exists = return tt
forgive_os_error is_a_directory = return tt
forgive_os_error not_a_directory = return tt
forgive_os_error os_error = return tt
forgive_os_error e = raise e

unfoldable pub multipart_abort : Env → User → Text → Text → Text → Io (Unit {0})
multipart_abort env current_user bucket_name object_key upload_id =
    let resource = codes "/" ++ (bucket_name ++ (codes "/" ++ object_key)) in
    let upload_path = resolve_multipart_path env.tmp_dir upload_id in
    lift (validate_object_key object_key resource)
    >> (find_bucket bucket_name current_user resource >>= λ bucket. uuid4 >>= λ token.
        let cleanup_path = resolve_multipart_aborted_path env.tmp_dir upload_id token in
        reset_flags
        >> (catch (remove_multipart bucket object_key upload_id resource upload_path cleanup_path)
              (λ e. restore_multipart upload_path cleanup_path >> raise e)
            >> (asks (λ w. w.flags) >>= λ f.
                when f.moved (catch (rmtree cleanup_path) forgive_os_error))))
