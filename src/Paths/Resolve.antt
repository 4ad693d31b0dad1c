-- ===== src/Paths/Resolve.antt =====
-- app/s3/paths.py: where buckets, objects, parts and temporary files are stored.
use hidden.Base.{
  ℕ, ◌/◌, ◌%◌, ◌+◌, zero, suc, not, none, some, [], ◌∷◌, ◌++◌, Text, codes, ◌==◌, nat_eq, list_eq,
  if◌then◌else◌, ltb,
}
use hidden.Errors.{value_error, Result, ok, err}
use hidden.Paths.Posix.{path_join, commonpath}

-- `str(n)`: the decimal digits, on fuel; a number has fewer digits than its successor counts.
digits_fuel : ℕ → ℕ → Text → Text
digits_fuel zero n tail = tail
digits_fuel (suc fuel) n tail =
    let rest = digits_fuel fuel (n / 10) ((48 + n % 10) ∷ tail) in
    if ltb n 10 then (48 + n) ∷ tail else rest

unfoldable pub str : ℕ → Text
unfolding digits_fuel
str n = digits_fuel (suc n) n []

unfoldable pub resolve_bucket_path : Text → Text → Text
resolve_bucket_path buckets_dir bucket_name = path_join buckets_dir bucket_name

-- The errors are the ValueErrors of the two tests and of `commonpath`.
unfoldable pub resolve_object_path : Text → Text → Text → Result (Text × Text)
resolve_object_path buckets_dir bucket_name object_key =
    let resolved_bucket = resolve_bucket_path buckets_dir bucket_name in
    let resolved_object = path_join resolved_bucket object_key in
    if resolved_object == resolved_bucket
    then err value_error
    else elim (commonpath resolved_bucket resolved_object) [
      | none ↦ err value_error
      | some path ↦
          if not (path == resolved_bucket)
          then err value_error
          else ok (resolved_bucket, resolved_object)
    ]

unfoldable pub resolve_multipart_path : Text → Text → Text
resolve_multipart_path tmp_dir upload_id = path_join tmp_dir upload_id

unfoldable pub resolve_multipart_part_path : Text → ℕ → Text
resolve_multipart_part_path upload_dir part_number =
    path_join upload_dir (str part_number ++ codes ".part")

unfoldable pub resolve_multipart_staged_part_path : Text → ℕ → Text → Text
resolve_multipart_staged_part_path upload_dir part_number token =
    path_join upload_dir
      (codes "." ++ (str part_number ++ (codes "." ++ (token ++ codes ".part.tmp"))))

unfoldable pub resolve_multipart_backup_part_path : Text → ℕ → Text → Text
resolve_multipart_backup_part_path upload_dir part_number token =
    path_join upload_dir
      (codes "." ++ (str part_number ++ (codes "." ++ (token ++ codes ".part.bak"))))

unfoldable pub resolve_multipart_aborted_path : Text → Text → Text → Text
resolve_multipart_aborted_path tmp_dir upload_id token =
    path_join tmp_dir (codes "." ++ (upload_id ++ (codes ".aborted." ++ token)))

unfoldable pub resolve_multipart_completed_path : Text → Text → Text → Text
resolve_multipart_completed_path tmp_dir upload_id token =
    path_join tmp_dir (codes "." ++ (upload_id ++ (codes ".completed." ++ token)))

unfoldable pub resolve_multipart_object_backup_path : Text → Text → Text
resolve_multipart_object_backup_path tmp_dir token =
    path_join tmp_dir (codes "." ++ (token ++ codes ".object.bak"))

unfoldable pub resolve_version_path : Text → ℕ → ℕ → Text
resolve_version_path versions_dir bucket_id version_id =
    path_join (path_join versions_dir (str bucket_id)) (str version_id)

unfoldable pub resolve_staged_path : Text → Text → Text
resolve_staged_path tmp_dir filename = path_join tmp_dir filename
