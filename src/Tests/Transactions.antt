-- ===== src/Tests/Transactions.antt =====
-- Uploads into a small bucket, with and without calls that fail.
use hidden.Base.{
  map, ℕ, zero, suc, ◌+◌, ◌≡◌, refl, inl, inr, false, true, Option, none, some, List, [], ◌∷◌, ◌++◌,
  Text, codes, ends_with, nat_eq, list_eq, length, arith, Bool-cases, ◌||◌, ◌==◌, if◌then◌else◌,
  starts_with, has_infix, split_first, split_rest,
}
use hidden.Validation.{
  is_digit, is_boundary, is_name_char, ends_at_boundary, starts_at_boundary, bucket_name_re,
  is_octet, ip_address_re, validate_bucket_name, utf8_size, encoded_length, validate_object_key,
}
use hidden.Paths.Posix.{
  path_join, keep_components, components, common, commonpath, normpath_step, normpath_loop,
  initial_slashes, normpath, abspath, basename, strip_slashes, dirname,
}
use hidden.Paths.Resolve.{resolve_bucket_path, resolve_object_path, resolve_staged_path}
use hidden.Objects.{
  select_object, find_bucket, object_mkdir, new_object, overwritten_object, insert_object,
  update_object, save_object, upsert_object,
}
use hidden.Errors.{Error, os_error, s3, access_denied, Result, ok, err}
use hidden.Files.{
  file, dir, Disk, payload, find, erase, is_directory, parent_dir, write_file, unlink, mkdir,
  has_entries, move_below, replace,
}
use hidden.Bucket.{S3Bucket, User, select_bucket, load_bucket, get_bucket_default_object_lock}
use hidden.World.{
  World, Rows, S3Object, no_flags, tick, sync_tick, syscall, uuid4, flush, commit, rollback,
}
use hidden.Io.{
  Env, Stream, until_empty, isfile, isdir, get_filesize, iter_read, get_file_hash, get_mimetype,
  fsync_directory, missing, mktree, delete, rename, build_temp_path, append_file, write_stream,
  atomic_write_stream, upload, copy,
}
use hidden.Io.Laws.Streams.{ends_with-suffix, joined}
use hidden.Objects.Upload.{
  object_upload, replace_object, publish_object, store_object, reconcile, upload_to,
}
use hidden.Io.Laws.Compensation.{Intact}
use hidden.Objects.Download.{object_download, new_session, object_download-object_upload}
use hidden.Objects.Transaction.{IsReady, Done, object_upload-Intact, object_upload-Uploaded}

abbrev pub env : Env
env = record {
  buckets_dir = codes "/b";
  tmp_dir = codes "/t";
  cwd = codes "/";
  md5 = λ s. length s ∷ [];
  detect = λ path start. none;
  directory_size = 0;
}

abbrev pub owner : User
owner = record {
  id = 1;
  created_at = 0;
  updated_at = none;
  username = codes "ada";
  is_enabled = true;
  is_root = false;
}

abbrev pub plain_bucket : S3Bucket
plain_bucket = record {
  id = 7;
  user_id = 1;
  created_at = 0;
  bucket_name = codes "abc";
  versioning_status = codes "Disabled";
  object_lock_enabled = false;
  default_lock_mode = none;
  default_retention_days = none;
  default_retention_years = none;
}

abbrev pub rows : Rows
rows = record { buckets = plain_bucket ∷ []; objects = []; uploads = []; parts = []; next_id = 1 }

abbrev pub disk : Disk
disk =
    (codes "/", dir)
    ∷ ((codes "/b", dir)
        ∷ ((codes "/t", dir)
            ∷ ((codes "/b/abc", dir) ∷ ((codes "/b/abc/k", file (codes "old")) ∷ []))))

abbrev pub token : ℕ → Text
token n = (97 + n) ∷ []

abbrev pub world : List (Option Error) → List (Option Error) → World
world faults sync_faults = record {
  disk = disk;
  rows = rows;
  committed = rows;
  flags = no_flags;
  now = 5;
  tokens = token;
  faults = faults;
  sync_faults = sync_faults;
}

abbrev pub body : Stream
body = ok (codes "new") ∷ (ok (codes "er") ∷ [])

abbrev put : List (Option Error) → List (Option Error) → Result S3Object × World
put faults sync_faults =
    object_upload env owner (codes "abc") (codes "k") body (world faults sync_faults)

abbrev pub nones : ℕ → List (Option Error)
nones zero = []
nones (suc n) = none ∷ nones n

abbrev files_after : Result S3Object × World → Option Text × Option Text
files_after (r, w) = (payload (codes "/b/abc/k") w.disk, payload (codes "/t/b") w.disk)

abbrev fails_at : ℕ → Result S3Object × World
fails_at n = put (nones n ++ (some os_error ∷ [])) []

-- The bytes that there were are put back if the commit fails; the upload has succeeded if only the
-- backup is left behind; and where a directory cannot be synchronised after the object has been renamed,
-- the call raises, and the bytes that there were are nowhere any more.
runs :
    map files_after
      (fails_at 19 ∷ (fails_at 20 ∷ (put [] (none ∷ (none ∷ (some os_error ∷ []))) ∷ [])))
    ≡ (some (codes "old"), none)
      ∷ ((some (codes "newer"), some (codes "old")) ∷ ((some (codes "newer"), none) ∷ []))
unfolding is_digit is_boundary is_name_char ends_at_boundary starts_at_boundary bucket_name_re
    is_octet ip_address_re validate_bucket_name utf8_size encoded_length validate_object_key
    path_join keep_components components common commonpath normpath_step normpath_loop
    initial_slashes normpath abspath basename strip_slashes dirname resolve_bucket_path
    resolve_object_path resolve_staged_path find erase payload is_directory parent_dir write_file
    unlink mkdir has_entries move_below replace tick sync_tick syscall uuid4 flush commit rollback
    isfile isdir get_filesize iter_read get_file_hash get_mimetype fsync_directory missing mktree
    delete rename build_temp_path append_file write_stream atomic_write_stream upload copy
    select_object find_bucket object_mkdir new_object overwritten_object insert_object update_object
    save_object upsert_object replace_object publish_object store_object reconcile upload_to
    object_upload select_bucket load_bucket get_bucket_default_object_lock starts_with ends_with
    has_infix split_first split_rest
runs = refl

avoid_suffix :
    (t p : Text) → ends_with (codes ".tmp") p ≡ false → ends_with (t ++ codes ".tmp") p ≡ false
avoid_suffix t p h = elim (Bool-cases (ends_with (t ++ codes ".tmp") p)) [
  | inl both ↦ ground (arith, ends_with-suffix t (codes ".tmp") p both, h)
  | inr apart ↦ apart
]

ready :
    (faults : List (Option Error))
    → IsReady env
        (codes "abc")
        (codes "k")
        (codes "/b/abc")
        (codes "/b/abc/k")
        (codes "/t/b")
        (codes "/t/a")
        (some (codes "old"))
        (world faults [])
unfolding is_digit is_boundary is_name_char ends_at_boundary starts_at_boundary bucket_name_re
    is_octet ip_address_re validate_bucket_name utf8_size encoded_length validate_object_key
    path_join keep_components components common commonpath normpath_step normpath_loop
    initial_slashes normpath abspath basename strip_slashes dirname resolve_bucket_path
    resolve_object_path resolve_staged_path find erase payload is_directory parent_dir write_file
    unlink mkdir has_entries move_below replace tick sync_tick syscall uuid4 flush commit rollback
    isfile isdir get_filesize iter_read get_file_hash get_mimetype fsync_directory missing mktree
    delete rename build_temp_path append_file write_stream atomic_write_stream upload copy
    select_object find_bucket object_mkdir new_object overwritten_object insert_object update_object
    save_object upsert_object replace_object publish_object store_object reconcile upload_to
    object_upload select_bucket load_bucket get_bucket_default_object_lock starts_with ends_with
    has_infix split_first split_rest
ready faults = record {
  resolved = refl;
  held = refl;
  staged = refl;
  backup = refl;
  distinct = record { ob = refl; og = refl; bg = refl };
  fresh = (
    (λ n. avoid_suffix (token (suc (suc n))) (codes "/b/abc/k") refl),
    (
      (λ n. avoid_suffix (token (suc (suc n))) (codes "/t/b") refl),
      ((λ n. avoid_suffix (token (suc (suc n))) (codes "/t/a") refl), tt),
    ),
  );
  synced = tt;
}

object_upload-Intact_example :
    ((fails_at 19).1.committed ≡ rows)
    × Intact (codes "/b/abc/k") (codes "/t/b") (some (codes "old")) (fails_at 19).1
unfolding is_digit is_boundary is_name_char ends_at_boundary starts_at_boundary bucket_name_re
    is_octet ip_address_re validate_bucket_name utf8_size encoded_length validate_object_key
    path_join keep_components components common commonpath normpath_step normpath_loop
    initial_slashes normpath abspath basename strip_slashes dirname resolve_bucket_path
    resolve_object_path resolve_staged_path find erase payload is_directory parent_dir write_file
    unlink mkdir has_entries move_below replace tick sync_tick syscall uuid4 flush commit rollback
    isfile isdir get_filesize iter_read get_file_hash get_mimetype fsync_directory missing mktree
    delete rename build_temp_path append_file write_stream atomic_write_stream upload copy
    select_object find_bucket object_mkdir new_object overwritten_object insert_object update_object
    save_object upsert_object replace_object publish_object store_object reconcile upload_to
    object_upload select_bucket load_bucket get_bucket_default_object_lock starts_with ends_with
    has_infix split_first split_rest
object_upload-Intact_example =
    object_upload-Intact env (codes "abc") (codes "k") (codes "/b/abc") (codes "/b/abc/k")
      (codes "/t/b") (codes "/t/a") (some (codes "old")) owner body
      (world (nones 19 ++ (some os_error ∷ [])) []) (fails_at 19).1 os_error
      (ready (nones 19 ++ (some os_error ∷ []))) refl

abbrev new_row : S3Object
new_row = record {
  id = 1;
  bucket_id = 7;
  user_id = 1;
  created_at = 5;
  modified_at = 5;
  object_key = codes "k";
  size_bytes = some 5;
  etag = some (5 ∷ []);
  content_type = some (codes "application/octet-stream");
  version_uuid = none;
  delete_marker = false;
  lock_mode = none;
  retain_until = none;
  legal_hold = false;
}

object_upload-Uploaded_example :
    Done env rows
      (codes "abc")
      owner
      (codes "k")
      (codes "/abc/k")
      (codes "/b/abc/k")
      body
      new_row
      (put [] []).1
unfolding is_digit is_boundary is_name_char ends_at_boundary starts_at_boundary bucket_name_re
    is_octet ip_address_re validate_bucket_name utf8_size encoded_length validate_object_key
    path_join keep_components components common commonpath normpath_step normpath_loop
    initial_slashes normpath abspath basename strip_slashes dirname resolve_bucket_path
    resolve_object_path resolve_staged_path find erase payload is_directory parent_dir write_file
    unlink mkdir has_entries move_below replace tick sync_tick syscall uuid4 flush commit rollback
    isfile isdir get_filesize iter_read get_file_hash get_mimetype fsync_directory missing mktree
    delete rename build_temp_path append_file write_stream atomic_write_stream upload copy
    select_object find_bucket object_mkdir new_object overwritten_object insert_object update_object
    save_object upsert_object replace_object publish_object store_object reconcile upload_to
    object_upload select_bucket load_bucket get_bucket_default_object_lock starts_with ends_with
    has_infix split_first split_rest
object_upload-Uploaded_example =
    object_upload-Uploaded env (codes "abc") (codes "k") (codes "/b/abc") (codes "/b/abc/k")
      (codes "/t/b") (codes "/t/a") (some (codes "old")) owner body (world [] []) (put [] []).1
      new_row (ready []) refl

abbrev stranger : User
stranger = record owner { id = 2 }

-- Another user who is not root.
object_download-object_upload_example :
    (bucket : S3Bucket) × (s : Text) × (select_bucket (codes "abc") rows.buckets ≡ some bucket)
    × (joined (until_empty body) ≡ some s)
    × (payload (codes "/b/abc/k") (new_session (put [] []).1).disk ≡ some s)
    × ((object_download env stranger (codes "abc") (codes "k") (new_session (put [] []).1)).0 ≡ (
        if stranger.is_root || bucket.user_id == stranger.id
        then ok (new_row, codes "/b/abc/k")
        else err (s3 access_denied (some (codes "/abc/k")))))
unfolding is_digit is_boundary is_name_char ends_at_boundary starts_at_boundary bucket_name_re
    is_octet ip_address_re validate_bucket_name utf8_size encoded_length validate_object_key
    path_join keep_components components common commonpath normpath_step normpath_loop
    initial_slashes normpath abspath basename strip_slashes dirname resolve_bucket_path
    resolve_object_path resolve_staged_path find erase payload is_directory parent_dir write_file
    unlink mkdir has_entries move_below replace tick sync_tick syscall uuid4 flush commit rollback
    isfile isdir get_filesize iter_read get_file_hash get_mimetype fsync_directory missing mktree
    delete rename build_temp_path append_file write_stream atomic_write_stream upload copy
    select_object find_bucket object_mkdir new_object overwritten_object insert_object update_object
    save_object upsert_object replace_object publish_object store_object reconcile upload_to
    object_upload select_bucket load_bucket get_bucket_default_object_lock starts_with ends_with
    has_infix split_first split_rest
object_download-object_upload_example =
    object_download-object_upload env (codes "abc") (codes "k") (codes "/b/abc") (codes "/b/abc/k")
      (codes "/t/b") (codes "/t/a") (some (codes "old")) owner body (world [] []) (put [] []).1
      new_row (ready []) refl stranger
