-- ===== src/Multipart/Parts.antt =====
-- The table of the uploaded parts: what is stored under an upload and a part number.
use hidden.Base.{
  ℕ, ◌≡◌, refl, ◌∙◌, false, ◌&&◌, none, some, List, [], ◌∷◌, Text, ◌==◌, ==_refl, nat_eq, arith,
  Bool-cases, inl, inr,
}
use hidden.Multipart.{
  S3ObjectMultipartPart, is_part, select_part, upsert_multipart_part, delete_multipart_parts,
}

-- The constraint that no two rows have the same upload and number.
abbrev pub IsUnique : List S3ObjectMultipartPart → Type 0
IsUnique [] = Unit
IsUnique (row ∷ rows) =
    (select_part row.object_multipart_id row.part_number rows ≡ none) × IsUnique rows

-- Uploading a part stores its size, its tag and the time under the upload and the number.
pub select_part-upsert_multipart_part :
    (now id number size : ℕ) (etag : Text) (rows : List S3ObjectMultipartPart)
    → (row : S3ObjectMultipartPart) × (select_part id number
          (upsert_multipart_part now id number size etag rows)
        ≡ some row)
      × (row.size_bytes ≡ size)
      × (row.etag ≡ etag)
      × (row.modified_at ≡ now)
unfolding select_part upsert_multipart_part
select_part-upsert_multipart_part now id number size etag [] = (
  record {
    object_multipart_id = id;
    modified_at = now;
    part_number = number;
    size_bytes = size;
    etag = etag;
  },
  ground (arith, ==_refl id, ==_refl number),
  refl,
  refl,
  refl,
)
select_part-upsert_multipart_part now id number size etag (r ∷ rows) =
    elim (Bool-cases (is_part id number r)) [
      | inl hit ↦ (
        record r { size_bytes = size; etag = etag; modified_at = now },
        ground (arith, hit),
        refl,
        refl,
        refl,
      )
      | inr miss ↦
          let (row, found, s, e, m) =
            select_part-upsert_multipart_part now id number size etag rows in
          (row, ground (arith, miss, found), s, e, m)
    ]

-- Uploading a part leaves what is stored under any other upload or number.
select_part-upsert_multipart_part_other :
    (now id number size : ℕ) (etag : Text) (rows : List S3ObjectMultipartPart) (id' number' : ℕ)
    → (id == id' && number == number') ≡ false
    → select_part id' number' (upsert_multipart_part now id number size etag rows)
      ≡ select_part id' number' rows
unfolding select_part upsert_multipart_part
select_part-upsert_multipart_part_other now id number size etag [] id' number' apart =
    ground (arith, apart)
select_part-upsert_multipart_part_other now id number size etag (r ∷ rows) id' number' apart =
    elim (Bool-cases (is_part id number r)) [
      | inl hit ↦ ground (arith, hit, apart)
      | inr miss ↦ ground (
        arith,
        miss,
        select_part-upsert_multipart_part_other now id number size etag rows id' number' apart,
      )
    ]

select_part-empty : (id number : ℕ) → select_part id number [] ≡ none
unfolding select_part
select_part-empty id number = refl

-- Uploading a part keeps the rows unique.
pub upsert_multipart_part-IsUnique :
    (now id number size : ℕ) (etag : Text) (rows : List S3ObjectMultipartPart)
    → IsUnique rows
    → IsUnique (upsert_multipart_part now id number size etag rows)
unfolding upsert_multipart_part
upsert_multipart_part-IsUnique now id number size etag [] u = (select_part-empty id number, tt)
upsert_multipart_part-IsUnique now id number size etag (r ∷ rows) u =
    elim (Bool-cases (is_part id number r)) [
      | inl hit ↦ rw (hit, upsert_multipart_part) u
      | inr miss ↦
          rw (miss, upsert_multipart_part)
            (
              select_part-upsert_multipart_part_other now id number size etag rows
                    r.object_multipart_id r.part_number (ground (arith, miss))
                  ∙ u.0,
              upsert_multipart_part-IsUnique now id number size etag rows u.1,
            )
    ]

-- Deleting the parts of an upload leaves none of them.
select_part-delete_multipart_parts :
    (id number : ℕ) (rows : List S3ObjectMultipartPart)
    → select_part id number (delete_multipart_parts id rows) ≡ none
unfolding select_part delete_multipart_parts
select_part-delete_multipart_parts id number [] = refl
select_part-delete_multipart_parts id number (r ∷ rows) =
    elim (Bool-cases (r.object_multipart_id == id)) [
      | inl hit ↦ ground (arith, hit, select_part-delete_multipart_parts id number rows)
      | inr miss ↦ ground (arith, miss, select_part-delete_multipart_parts id number rows)
    ]

-- Deleting the parts of an upload leaves those of every other one.
select_part-delete_multipart_parts_other :
    (id id' number : ℕ) (rows : List S3ObjectMultipartPart)
    → (id == id') ≡ false
    → select_part id' number (delete_multipart_parts id rows) ≡ select_part id' number rows
unfolding select_part delete_multipart_parts
select_part-delete_multipart_parts_other id id' number [] apart = refl
select_part-delete_multipart_parts_other id id' number (r ∷ rows) apart =
    elim (Bool-cases (r.object_multipart_id == id)) [
      | inl hit ↦
          ground
            (arith, hit, apart, select_part-delete_multipart_parts_other id id' number rows apart)
      | inr miss ↦
          ground (arith, miss, select_part-delete_multipart_parts_other id id' number rows apart)
    ]
