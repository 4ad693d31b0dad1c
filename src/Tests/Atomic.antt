-- ===== src/Tests/Atomic.antt =====
-- Services that change rows, at concrete inputs.
use hidden.Validation.{
  is_digit, is_boundary, is_name_char, ends_at_boundary, starts_at_boundary, bucket_name_re,
  ip_address_re, validate_bucket_name,
}
use hidden.Paths.Posix.{
  path_join, normpath_step, normpath_loop, initial_slashes, normpath, abspath, strip_slashes,
  dirname,
}
use hidden.Files.{find, erase, payload, is_directory, parent_dir, mkdir, has_entries}
use hidden.World.{World, tick, sync_tick, syscall, flush, commit, rollback}
use hidden.Io.{isfile, isdir, fsync_directory, missing, mktree}
use hidden.Buckets.{
  new_bucket, insert_bucket, make_bucket, unmake_bucket, check_name, bucket_create,
}
use hidden.Paths.Resolve.{resolve_bucket_path}
use hidden.Bucket.{S3Bucket, select_bucket}
use hidden.Base.{
  ℕ, Bool, true, length, ◌≡◌, refl, none, some, [], ◌∷◌, codes, starts_with, ends_with, has_infix,
  split_first, split_rest,
}
use hidden.Errors.{os_error, Result}
use hidden.World.Triple.{Ends}
use hidden.Io.Laws.Session.{Committed}
use hidden.Uploads.Create.{multipart_create}
use hidden.Uploads.Abort.{multipart_abort}
use hidden.Uploads.AbortedRows.{Aborted, AbortedOrNot}
use hidden.Uploads.Atomic.{Opened, multipart_create-atomic, multipart_abort-atomic}
use hidden.Buckets.Made.{IsOpen, bucket_create-IsOpen}
use hidden.Buckets.Atomic.{Created, bucket_create-atomic}
use hidden.Tests.Transactions.{env, owner}
use hidden.Tests.Transactions
use hidden.Tests.Parts

-- The directory that was made cannot be synchronised: it stays, and no row is committed.
abbrev left_behind : Result S3Bucket × World → Bool × ℕ
left_behind (r, w) = (is_directory (codes "/b/new") w.disk, length w.committed.buckets)

bucket_runs :
    (left_behind (bucket_create env owner (codes "new") (Transactions.world [] [])) ≡ (true, 2))
    × (left_behind
          (bucket_create env owner (codes "new") (Transactions.world [] (some os_error ∷ [])))
        ≡ (true, 1))
unfolding is_digit is_boundary is_name_char ends_at_boundary starts_at_boundary bucket_name_re
    ip_address_re validate_bucket_name path_join normpath_step normpath_loop initial_slashes
    normpath abspath strip_slashes dirname find erase payload is_directory parent_dir mkdir
    has_entries tick sync_tick syscall flush commit rollback isfile isdir fsync_directory missing
    mktree new_bucket insert_bucket make_bucket unmake_bucket check_name bucket_create
    resolve_bucket_path select_bucket starts_with ends_with has_infix split_first split_rest
bucket_runs = (refl, refl)

bucket_create-atomic_example :
    Ends
      (Created Transactions.rows (codes "new") owner)
      (Committed Transactions.rows)
      (bucket_create env owner (codes "new") (Transactions.world [] []))
bucket_create-atomic_example =
    bucket_create-atomic env owner (codes "new") (Transactions.world [] [])

multipart_create-atomic_example :
    Ends
      (Opened Transactions.rows (codes "abc") (codes "/abc/k") owner (codes "k"))
      (Committed Transactions.rows)
      (multipart_create env owner (codes "abc") (codes "k") none (Transactions.world [] []))
multipart_create-atomic_example =
    multipart_create-atomic env owner (codes "abc") (codes "k") none (Transactions.world [] [])

multipart_abort-atomic_example :
    Ends
      (λ _. Aborted Parts.rows (codes "abc") (codes "u") (codes "/abc/k") owner (codes "k"))
      (AbortedOrNot Parts.rows Parts.rows
        (codes "abc")
        (codes "u")
        (codes "/abc/k")
        owner
        (codes "k"))
      (multipart_abort env owner (codes "abc") (codes "k") (codes "u") (Parts.world []))
multipart_abort-atomic_example =
    multipart_abort-atomic env owner (codes "abc") (codes "k") (codes "u") (Parts.world [])

world-IsOpen : IsOpen env (codes "new") (codes "/b/new") (Transactions.world [] [])
unfolding is_digit is_boundary is_name_char ends_at_boundary starts_at_boundary bucket_name_re
    ip_address_re validate_bucket_name path_join normpath_step normpath_loop initial_slashes
    normpath abspath strip_slashes dirname find erase payload is_directory parent_dir mkdir
    has_entries tick sync_tick syscall flush commit rollback isfile isdir fsync_directory missing
    mktree new_bucket insert_bucket make_bucket unmake_bucket check_name bucket_create
    resolve_bucket_path select_bucket starts_with ends_with has_infix split_first split_rest
world-IsOpen = record {
  valid = refl;
  resolved = refl;
  free = refl;
  absent = refl;
  absolute = refl;
  above = refl;
  parent = refl;
  calm = refl;
  synced = refl;
}

bucket_create-IsOpen_example :
    Ends
      (λ bucket w. is_directory (codes "/b/new") w.disk ≡ true)
      (λ _. ⊥)
      (bucket_create env owner (codes "new") (Transactions.world [] []))
bucket_create-IsOpen_example =
    bucket_create-IsOpen env owner (codes "new") (codes "/b/new") (Transactions.world [] [])
      world-IsOpen
