-- ===== src/Uploads/Create.antt =====
-- app/services/multipart_create.py.
use hidden.Base.{ℕ, suc, Option, [], ◌∷◌, ◌++◌, Text, codes}
use hidden.Paths.Resolve.{resolve_multipart_path}
use hidden.Validation.{validate_object_key}
use hidden.Bucket.{S3Bucket, User}
use hidden.Multipart.{S3ObjectMultipart}
use hidden.World.{
  Rows, Io, ◌>>=◌, ◌>>◌, return, raise, lift, asks, catch, attempt, flush, uuid4, commit, rollback,
}
use hidden.Io.{Env, mktree, rmtree}
use hidden.Objects.{find_bucket}
use hidden.Objects.Upload.{or_default}

unfoldable pub new_multipart :
    ℕ → ℕ → S3Bucket → User → Text → Text → Option Text → S3ObjectMultipart
new_multipart id now bucket current_user upload_id object_key content_type = record {
  id = id;
  bucket_id = bucket.id;
  user_id = current_user.id;
  created_at = now;
  object_key = object_key;
  upload_id = upload_id;
  content_type = or_default content_type;
}

unfoldable pub insert_multipart : S3ObjectMultipart → Rows → Rows
insert_multipart multipart rows = record rows {
  uploads = rows.uploads ++ (multipart ∷ []);
  next_id = suc rows.next_id;
}

-- The `try` of `multipart_create`; the row gets its identifier and its time as it is inserted.
unfoldable pub open_multipart :
    Env → S3Bucket → User → Text → Text → Option Text → Text → Io S3ObjectMultipart
open_multipart env bucket current_user upload_id object_key content_type upload_path =
    mktree env upload_path
    >> (asks (λ w.
          new_multipart w.rows.next_id w.now bucket current_user upload_id object_key content_type)
        >>= λ multipart. flush (insert_multipart multipart) >> (commit >> return multipart))

unfoldable pub multipart_create : Env → User → Text → Text → Option Text → Io S3ObjectMultipart
multipart_create env current_user bucket_name object_key content_type =
    let resource = codes "/" ++ (bucket_name ++ (codes "/" ++ object_key)) in
    lift (validate_object_key object_key resource)
    >> (find_bucket bucket_name current_user resource >>= λ bucket. uuid4 >>= λ upload_id.
        let upload_path = resolve_multipart_path env.tmp_dir upload_id in
        catch (open_multipart env bucket current_user upload_id object_key content_type upload_path)
          (λ e. attempt rollback >> (attempt (rmtree upload_path) >> raise e)))
