-- ===== src/Tests/Uploads.antt =====
-- app/s3/multipart.py at a concrete upload of two parts.
use hidden.Base.{ℕ, ◌≡◌, ◌↔◌, refl, Bool, true, nat_eq, none, List, [], ◌∷◌, Text, codes}
use hidden.Errors.{ok}
use hidden.Multipart.{
  S3ObjectMultipart, S3ObjectMultipartPart, MultipartPart, select_part, upsert_multipart_part,
  delete_multipart_parts, load_multipart_parts,
}
use hidden.Multipart.Completion.{Completes, load_multipart_parts_iff}
use hidden.Multipart.Parts.{IsUnique, upsert_multipart_part-IsUnique}

abbrev upload : S3ObjectMultipart
upload = record {
  id = 4;
  bucket_id = 1;
  user_id = 1;
  created_at = 0;
  object_key = codes "k";
  upload_id = codes "u";
  content_type = codes "text/plain";
}

abbrev row : ℕ → ℕ → Text → S3ObjectMultipartPart
row number size tag = record {
  object_multipart_id = 4;
  modified_at = 0;
  part_number = number;
  size_bytes = size;
  etag = tag;
}

abbrev rows : List S3ObjectMultipartPart
rows = row 2 9 (codes "bb") ∷ (row 1 6000000 (codes "aa") ∷ [])

abbrev listed : List MultipartPart
listed =
    record { part_number = 1; etag = codes "aa" }
    ∷ (record { part_number = 2; etag = codes "bb" } ∷ [])

abbrev exists : Text → Bool
exists path = true

abbrev paths : List Text
paths = codes "/t/u/1.part" ∷ (codes "/t/u/2.part" ∷ [])

abbrev tags : List Text
tags = codes "aa" ∷ (codes "bb" ∷ [])

loaded_rows : load_multipart_parts exists rows upload (codes "/t/u") listed none ≡ ok (paths, tags)
unfolding load_multipart_parts hidden.Multipart.load_parts select_part
    hidden.Paths.Resolve.resolve_multipart_part_path hidden.Paths.Posix.path_join
    hidden.Paths.Resolve.str
loaded_rows = refl

rows-IsUnique : IsUnique rows
unfolding select_part
rows-IsUnique = (refl, (refl, tt))

load_multipart_parts_iff_example :
    (load_multipart_parts exists rows upload (codes "/t/u") listed none ≡ ok (paths, tags))
    ↔ Completes exists rows 4 (codes "/t/u") 0 listed paths tags
load_multipart_parts_iff_example =
    load_multipart_parts_iff exists rows upload (codes "/t/u") listed none paths tags

upsert_multipart_part-IsUnique_example : IsUnique (upsert_multipart_part 8 4 2 7 (codes "cc") rows)
upsert_multipart_part-IsUnique_example =
    upsert_multipart_part-IsUnique 8 4 2 7 (codes "cc") rows rows-IsUnique
