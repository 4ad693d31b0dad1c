-- ===== src/Tests/Parts.antt =====
-- Uploads of a part that is there already, with and without calls that fail.
use hidden.Validation.{utf8_size, encoded_length, validate_object_key}
use hidden.Paths.Posix.{path_join, basename, strip_slashes, dirname}
use hidden.Paths.Resolve.{
  str, resolve_multipart_path, resolve_multipart_part_path, resolve_multipart_staged_part_path,
  resolve_multipart_backup_part_path,
}
use hidden.Files.{
  file, dir, Disk, find, erase, payload, is_directory, parent_dir, write_file, unlink, replace,
}
use hidden.World.{World, Rows, no_flags, tick, sync_tick, syscall, uuid4, flush, commit, rollback}
use hidden.Io.{
  isfile, isdir, get_filesize, iter_read, get_file_hash, fsync_directory, delete, rename,
  build_temp_path, append_file, write_stream, atomic_write_stream, upload,
}
use hidden.Uploads.Part.{
  find_multipart, save_part, store_part, reconcile_part, upload_part_to, multipart_upload,
}
use hidden.Bucket.{select_bucket, load_bucket}
use hidden.Objects.{find_bucket}
use hidden.Multipart.{
  S3ObjectMultipart, select_multipart, load_multipart, select_part, upsert_multipart_part,
}
use hidden.Base.{
  ◌≡◌, refl, Option, none, some, List, [], ◌∷◌, ◌++◌, Text, codes, starts_with, ends_with,
  has_infix, split_first, split_rest,
}
use hidden.Errors.{Error, os_error, Result}
use hidden.Io.Laws.Compensation.{Intact}
use hidden.Uploads.PartService.{
  IsPartReady, DonePart, multipart_upload-Intact, multipart_upload-UploadedPart,
}
use hidden.Tests.Transactions.{env, owner, plain_bucket, body, nones}

abbrev pub multipart : S3ObjectMultipart
multipart = record {
  id = 3;
  bucket_id = 7;
  user_id = 1;
  created_at = 0;
  object_key = codes "k";
  upload_id = codes "u";
  content_type = codes "text/plain";
}

abbrev pub rows : Rows
rows = record {
  buckets = plain_bucket ∷ [];
  objects = [];
  uploads = multipart ∷ [];
  parts = [];
  next_id = 4;
}

abbrev disk : Disk
disk =
    (codes "/", dir)
    ∷ ((codes "/t", dir) ∷ ((codes "/t/u", dir) ∷ ((codes "/t/u/1.part", file (codes "old")) ∷ [])))

abbrev pub world : List (Option Error) → World
world faults = record {
  disk = disk;
  rows = rows;
  committed = rows;
  flags = no_flags;
  now = 5;
  tokens = λ n. codes "a";
  faults = faults;
  sync_faults = [];
}

abbrev put : List (Option Error) → Result Text × World
put faults = multipart_upload env owner (codes "abc") (codes "k") (codes "u") 1 body (world faults)

abbrev at_commit : List (Option Error)
at_commit = nones 14 ++ (some os_error ∷ [])

abbrev part_files : Result Text × World → Option Text × Option Text
part_files (r, w) =
    (payload (codes "/t/u/1.part") w.disk, payload (codes "/t/u/.1.a.part.bak") w.disk)

-- The part is moved back where its row cannot be committed, and stays at the backup's path where that
-- fails as well.
part_runs :
    (part_files (put at_commit) ≡ (some (codes "old"), none))
    × (part_files (put (at_commit ++ (none ∷ (some os_error ∷ []))))
        ≡ (some (codes "newer"), some (codes "old")))
    × (part_files (put []) ≡ (some (codes "newer"), none))
unfolding utf8_size encoded_length validate_object_key path_join basename strip_slashes dirname str
    resolve_multipart_path resolve_multipart_part_path resolve_multipart_staged_part_path
    resolve_multipart_backup_part_path find erase payload is_directory parent_dir write_file unlink
    replace tick sync_tick syscall uuid4 flush commit rollback isfile isdir get_filesize iter_read
    get_file_hash fsync_directory delete rename build_temp_path append_file write_stream
    atomic_write_stream upload find_multipart save_part store_part reconcile_part upload_part_to
    multipart_upload select_bucket load_bucket find_bucket select_multipart load_multipart
    select_part upsert_multipart_part starts_with ends_with has_infix split_first split_rest
part_runs = (refl, refl, refl)

ready :
    (faults : List (Option Error))
    → IsPartReady env
        (codes "u")
        1
        (codes "/t/u/1.part")
        (codes "/t/u/.1.a.part.bak")
        (codes "/t/u/.1.a.part.tmp")
        (some (codes "old"))
        (world faults)
unfolding utf8_size encoded_length validate_object_key path_join basename strip_slashes dirname str
    resolve_multipart_path resolve_multipart_part_path resolve_multipart_staged_part_path
    resolve_multipart_backup_part_path find erase payload is_directory parent_dir write_file unlink
    replace tick sync_tick syscall uuid4 flush commit rollback isfile isdir get_filesize iter_read
    get_file_hash fsync_directory delete rename build_temp_path append_file write_stream
    atomic_write_stream upload find_multipart save_part store_part reconcile_part upload_part_to
    multipart_upload select_bucket load_bucket find_bucket select_multipart load_multipart
    select_part upsert_multipart_part starts_with ends_with has_infix split_first split_rest
ready faults = record {
  part = refl;
  held = refl;
  backup = refl;
  staged = refl;
  distinct = record { ob = refl; og = refl; bg = refl };
  fresh = ((λ n. refl), ((λ n. refl), ((λ n. refl), tt)));
  synced = tt;
}

multipart_upload-Intact_example :
    ((put at_commit).1.committed ≡ rows)
    × Intact
        (codes "/t/u/1.part")
        (codes "/t/u/.1.a.part.bak")
        (some (codes "old"))
        (put at_commit).1
unfolding utf8_size encoded_length validate_object_key path_join basename strip_slashes dirname str
    resolve_multipart_path resolve_multipart_part_path resolve_multipart_staged_part_path
    resolve_multipart_backup_part_path find erase payload is_directory parent_dir write_file unlink
    replace tick sync_tick syscall uuid4 flush commit rollback isfile isdir get_filesize iter_read
    get_file_hash fsync_directory delete rename build_temp_path append_file write_stream
    atomic_write_stream upload find_multipart save_part store_part reconcile_part upload_part_to
    multipart_upload select_bucket load_bucket find_bucket select_multipart load_multipart
    select_part upsert_multipart_part starts_with ends_with has_infix split_first split_rest
multipart_upload-Intact_example =
    multipart_upload-Intact env (codes "abc") (codes "k") (codes "u") 1 (codes "/t/u/1.part")
      (codes "/t/u/.1.a.part.bak") (codes "/t/u/.1.a.part.tmp") (some (codes "old")) owner body
      (world at_commit) (put at_commit).1 os_error (ready at_commit) refl

multipart_upload-UploadedPart_example :
    DonePart env rows
      (codes "abc")
      owner
      (codes "k")
      (codes "u")
      1
      (codes "/abc/k")
      (codes "/t/u/1.part")
      body
      (5 ∷ [])
      (put []).1
unfolding utf8_size encoded_length validate_object_key path_join basename strip_slashes dirname str
    resolve_multipart_path resolve_multipart_part_path resolve_multipart_staged_part_path
    resolve_multipart_backup_part_path find erase payload is_directory parent_dir write_file unlink
    replace tick sync_tick syscall uuid4 flush commit rollback isfile isdir get_filesize iter_read
    get_file_hash fsync_directory delete rename build_temp_path append_file write_stream
    atomic_write_stream upload find_multipart save_part store_part reconcile_part upload_part_to
    multipart_upload select_bucket load_bucket find_bucket select_multipart load_multipart
    select_part upsert_multipart_part starts_with ends_with has_infix split_first split_rest
multipart_upload-UploadedPart_example =
    multipart_upload-UploadedPart env (codes "abc") (codes "k") (codes "u") 1 (codes "/t/u/1.part")
      (codes "/t/u/.1.a.part.bak") (codes "/t/u/.1.a.part.tmp") (some (codes "old")) owner body
      (world []) (put []).1 (5 ∷ []) (ready []) refl
