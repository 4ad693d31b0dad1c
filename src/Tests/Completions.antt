-- ===== src/Tests/Completions.antt =====
-- The completion of an upload, with and without calls that fail.
use hidden.Base.{
  ℕ, ◌+◌, ◌≡◌, refl, Option, none, some, List, [], ◌∷◌, ◌++◌, Text, codes, length, starts_with,
  ends_with, has_infix, split_first, split_rest,
}
use hidden.Errors.{Error, os_error, Result, ok, err}
use hidden.Files.{file, dir, Disk, payload}
use hidden.World.{World, Rows, S3Object, no_flags}
use hidden.World.Triple.{Ends}
use hidden.Io.{Env}
use hidden.Io.Laws.Session.{Committed}
use hidden.Multipart.{S3ObjectMultipartPart, MultipartPart}
use hidden.Uploads.Complete.{multipart_complete}
use hidden.Uploads.CompletedService.{CompleteIn, multipart_complete-atomic}
use hidden.Base.{ends_with, has_infix, split_first, split_rest, starts_with}
use hidden.Validation.{
  bucket_name_re, encoded_length, ends_at_boundary, ip_address_re, is_boundary, is_digit,
  is_name_char, is_octet, starts_at_boundary, utf8_size, validate_bucket_name, validate_object_key,
}
use hidden.Paths.Posix.{
  abspath, basename, common, commonpath, components, dirname, initial_slashes, keep_components,
  normpath, normpath_loop, normpath_step, path_join, strip_slashes,
}
use hidden.Paths.Resolve.{
  resolve_bucket_path, resolve_multipart_completed_path, resolve_multipart_object_backup_path,
  resolve_multipart_part_path, resolve_multipart_path, resolve_object_path, resolve_staged_path,
  str,
}
use hidden.Objects.{
  find_bucket, insert_object, new_object, object_mkdir, overwritten_object, save_object,
  select_object, update_object, upsert_object,
}
use hidden.Files.{
  erase, find, has_entries, is_directory, mkdir, move_below, parent_dir, payload, replace, unlink,
  write_file,
}
use hidden.Bucket.{get_bucket_default_object_lock, load_bucket, select_bucket}
use hidden.World.{commit, flush, rollback, sync_tick, syscall, tick, uuid4}
use hidden.Io.{
  append_file, atomic_write_stream, build_temp_path, concat, copy, delete, fsync_directory,
  get_filesize, isdir, isfile, iter_read, listdir, missing, mktree, rename, rmdir_synced, rmtree,
  write_stream,
}
use hidden.Multipart.{delete_multipart_parts, load_multipart, select_multipart, select_part}
use hidden.Uploads.Part.{find_multipart}
use hidden.Uploads.Abort.{delete_multipart, drop_multipart, drop_parts}
use hidden.Uploads.Etag.{construct_etag, digests, fromhex}
use hidden.Uploads.Complete.{
  all_same, assemble, complete_at, complete_object, discard_staged, find_parts, multipart_complete,
  publish_completed, reconcile_completed, replace_completed,
}
use hidden.Files.{rmdir}
use hidden.Tests.Transactions.{env, owner, plain_bucket, nones, token}
use hidden.Tests.Parts.{multipart}

-- Two hexadecimal digits for a digest.
abbrev hashing : Env
hashing = record env { md5 = λ s. b'0' ∷ (b'0' + length s) ∷ [] }

abbrev part : S3ObjectMultipartPart
part = record {
  object_multipart_id = 3;
  modified_at = 0;
  part_number = 1;
  size_bytes = 5;
  etag = codes "05";
}

abbrev rows : Rows
rows = record {
  buckets = plain_bucket ∷ [];
  objects = [];
  uploads = multipart ∷ [];
  parts = part ∷ [];
  next_id = 9;
}

abbrev disk : Disk
disk =
    (codes "/", dir)
    ∷ ((codes "/b", dir)
        ∷ ((codes "/t", dir)
            ∷ ((codes "/b/abc", dir)
                ∷ ((codes "/b/abc/k", file (codes "old"))
                    ∷ ((codes "/t/u", dir) ∷ ((codes "/t/u/1.part", file (codes "newer")) ∷ []))))))

abbrev world : List (Option Error) → World
world faults = record {
  disk = disk;
  rows = rows;
  committed = rows;
  flags = no_flags;
  now = 5;
  tokens = token;
  faults = faults;
  sync_faults = [];
}

abbrev listed : List MultipartPart
listed = record { part_number = 1; etag = codes "05" } ∷ []

abbrev complete : List (Option Error) → Result S3Object × World
complete faults =
    multipart_complete hashing owner (codes "abc") (codes "k") (codes "u") listed (world faults)

abbrev etag_of : Result S3Object → Option Text
etag_of (ok row) = row.etag
etag_of (err e) = none

-- The entity tag, the files of the key and of the part, and how many uploads are committed.
abbrev seen : Result S3Object × World → Option Text × Option Text × Option Text × ℕ
seen (r, w) = (
  etag_of r,
  payload (codes "/b/abc/k") w.disk,
  payload (codes "/t/u/1.part") w.disk,
  length w.committed.uploads,
)

-- The parts are assembled under the key, and the upload is gone; where the commit fails, the bytes that
-- there were are put back, and so is the upload.
runs :
    (seen (complete []) ≡ (some (codes "01-1"), some (codes "newer"), none, 0))
    × (seen (complete (nones 23 ++ (some os_error ∷ [])))
        ≡ (none, some (codes "old"), some (codes "newer"), 1))
unfolding is_digit is_boundary is_name_char ends_at_boundary starts_at_boundary bucket_name_re
    is_octet ip_address_re validate_bucket_name utf8_size encoded_length validate_object_key
    path_join keep_components components common commonpath normpath_step normpath_loop
    initial_slashes normpath abspath basename strip_slashes dirname resolve_bucket_path
    resolve_object_path resolve_staged_path find erase payload is_directory parent_dir write_file
    unlink mkdir has_entries move_below replace tick sync_tick syscall uuid4 flush commit rollback
    isfile isdir get_filesize iter_read fsync_directory missing mktree delete rename build_temp_path
    append_file write_stream atomic_write_stream copy select_object find_bucket object_mkdir
    new_object overwritten_object insert_object update_object save_object upsert_object
    select_bucket load_bucket get_bucket_default_object_lock starts_with ends_with has_infix
    split_first split_rest listdir rmdir_synced rmtree concat str resolve_multipart_path
    resolve_multipart_part_path resolve_multipart_completed_path
    resolve_multipart_object_backup_path select_multipart load_multipart select_part
    delete_multipart_parts find_multipart drop_parts drop_multipart delete_multipart fromhex digests
    construct_etag find_parts all_same assemble discard_staged publish_completed replace_completed
    complete_object reconcile_completed complete_at multipart_complete rmdir
runs = (refl, refl)

multipart_complete-atomic_example :
    Ends
      (CompleteIn hashing rows (codes "abc") (codes "k") (codes "u") (codes "/abc/k") owner listed)
      (Committed rows)
      (complete [])
multipart_complete-atomic_example =
    multipart_complete-atomic hashing owner (codes "abc") (codes "k") (codes "u") listed (world [])
