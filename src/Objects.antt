-- ===== src/Objects.antt =====
-- app/s3/object.py, and the selection of a bucket by the session: the current state of each key.

pub mod Upload
pub mod Recovery
pub mod Current
pub mod Beside
pub mod Kept
pub mod Publish
pub mod Uploaded
pub mod Transaction
pub mod Start
pub mod Download
use hidden.Base.{
  ℕ, ℤ, suc, ◌+◌, ◌≡◌, Bool, true, false, not, ◌&&◌, Option, none, some, List, [], ◌∷◌, ◌++◌, map,
  Text, codes, ◌==◌, nat_eq, list_eq, if◌then◌else◌,
}
use hidden.Errors.{
  Error, s3, object_not_found, object_key_conflict, file_exists, not_a_directory, Result, ok, err,
}
use hidden.Paths.Posix.{dirname}
use hidden.Bucket.{S3Bucket, User, load_bucket, get_bucket_default_object_lock}
use hidden.World.{
  World, Rows, S3Object, Io, go_on, ◌>>=◌, ◌>>◌, return, raise, lift, asks, catch, tick, flush,
}
use hidden.Io.{Env, isdir, mktree}

-- `repo.select(S3Object, bucket_id=..., object_key=...)`
unfoldable pub select_object : ℕ → Text → List S3Object → Option S3Object
select_object bucket_id object_key [] = none
select_object bucket_id object_key (o ∷ rows) =
    let later = select_object bucket_id object_key rows in
    if o.bucket_id == bucket_id && o.object_key == object_key then some o else later

unfoldable pub find_bucket : Text → User → Text → Io S3Bucket
find_bucket bucket_name current_user resource =
    tick >> (λ w. (load_bucket w.rows.buckets bucket_name current_user (some resource), w))

abbrev pub found_object : Text → Option S3Object → Result S3Object
found_object resource none = err (s3 object_not_found (some resource))
found_object resource (some s3_object) =
    if s3_object.delete_marker then err (s3 object_not_found (some resource)) else ok s3_object

unfoldable pub load_object : S3Bucket → Text → Text → Io S3Object
load_object bucket object_key resource =
    tick >> (λ w. (found_object resource (select_object bucket.id object_key w.rows.objects), w))

-- A prefix that is taken by a file.
abbrev prefix_conflict : Text → Error → Error
prefix_conflict resource file_exists = s3 object_key_conflict (some resource)
prefix_conflict resource not_a_directory = s3 object_key_conflict (some resource)
prefix_conflict resource e = e

unfoldable pub object_mkdir : Env → Text → Text → Io (Unit {0})
object_mkdir env object_path resource = isdir object_path >>= λ taken.
    if taken
    then raise (s3 object_key_conflict (some resource))
    else catch (mktree env (dirname object_path)) (λ e. raise (prefix_conflict resource e))

-- The row of a new key, and that of one that is overwritten, at the time `now`. The time of a
-- retention is that of `get_bucket_default_object_lock`.
unfoldable pub new_object :
    ℕ → ℕ → S3Bucket → User → Text → ℕ → Text → Text → Option Text → S3Object
new_object id now bucket user object_key size_bytes etag content_type version_uuid =
    let (lock_mode, retain_until) = get_bucket_default_object_lock bucket now in
    record {
      id = id;
      bucket_id = bucket.id;
      user_id = user.id;
      created_at = now;
      modified_at = now;
      object_key = object_key;
      size_bytes = some size_bytes;
      etag = some etag;
      content_type = some content_type;
      version_uuid = version_uuid;
      delete_marker = false;
      lock_mode = lock_mode;
      retain_until = retain_until;
      legal_hold = false;
    }

unfoldable pub overwritten_object :
    S3Object → ℕ → S3Bucket → User → ℕ → Text → Text → Option Text → S3Object
overwritten_object o now bucket user size_bytes etag content_type version_uuid =
    let (lock_mode, retain_until) = get_bucket_default_object_lock bucket now in
    record o {
      user_id = user.id;
      modified_at = now;
      size_bytes = some size_bytes;
      etag = some etag;
      content_type = some content_type;
      version_uuid = version_uuid;
      delete_marker = false;
      lock_mode = lock_mode;
      retain_until = retain_until;
      legal_hold = false;
    }

-- `repo.insert`, with the next identifier, and `repo.update` of the row with this one.
unfoldable pub insert_object : S3Object → Rows → Rows
insert_object o rows = record rows {
  objects = rows.objects ++ (o ∷ []);
  next_id = suc rows.next_id;
}

abbrev pub put_object : S3Object → List S3Object → List S3Object
put_object row [] = []
put_object row (o ∷ rows) = (if o.id == row.id then row else o) ∷ put_object row rows

unfoldable pub update_object : S3Object → Rows → Rows
update_object o rows = record rows { objects = put_object o rows.objects }

unfoldable pub save_object :
    Option S3Object → ℕ → ℕ → S3Bucket → User → Text → ℕ → Text → Text → Option Text → Io S3Object
save_object none id now bucket user object_key size_bytes etag content_type version_uuid =
    let row = new_object id now bucket user object_key size_bytes etag content_type version_uuid in
    flush (insert_object row) >> return row
save_object (some o) id now bucket user object_key size_bytes etag content_type version_uuid =
    let row = overwritten_object o now bucket user size_bytes etag content_type version_uuid in
    flush (update_object row) >> return row

unfoldable pub upsert_object : S3Bucket → User → Text → ℕ → Text → Text → Option Text → Io S3Object
upsert_object bucket user object_key size_bytes etag content_type version_uuid =
    tick
    >> (asks (λ w. w) >>= λ w.
        save_object (select_object bucket.id object_key w.rows.objects) w.rows.next_id w.now bucket
          user object_key size_bytes etag content_type version_uuid)
