-- ===== src/Multipart/Completion.antt =====
-- Which lists of parts complete an upload.
use hidden.Base.{
  ℕ, ◌≤◌, ◌<◌, ◌≡◌, ◌↔◌, ◌⊎◌, inl, inr, refl, Bool, true, false, not, ◌&&◌, Option, some, List, [],
  ◌∷◌, Text, ltb, leb, arith, Bool-cases, Option-cases,
}
use hidden.Errors.{ok, ok-injective, Result-cases}
use hidden.Paths.Resolve.{resolve_multipart_part_path}
use hidden.Multipart.{
  S3ObjectMultipart, S3ObjectMultipartPart, MultipartPart, object_part_number_max,
  object_part_size_min_bytes, select_part, is_last, load_parts, load_multipart_parts,
}

big_enough :
    (size : ℕ) (last_part : Bool)
    → (not last_part && ltb size object_part_size_min_bytes) ≡ false
    → (last_part ≡ true) ⊎ (object_part_size_min_bytes ≤ size)
big_enough size true h = inl refl
big_enough size false h = inr (ground (arith, h))

module _ (isfile : Text → Bool) (rows : List S3ObjectMultipartPart) (multipart_id : ℕ)
    (upload_path : Text) where
  -- A listed part is uploaded: it has a row and a file, and enough bytes unless it is the last.
  abbrev pub IsUploaded : Bool → ℕ → Text → Type 0
  IsUploaded last_part number etag =
      (row : S3ObjectMultipartPart) × (select_part multipart_id number rows ≡ some row)
      × (row.etag ≡ etag)
      × (isfile (resolve_multipart_part_path upload_path number) ≡ true)
      × ((last_part ≡ true) ⊎ (object_part_size_min_bytes ≤ row.size_bytes))

  -- The parts ascend from the number before, are in range and are uploaded; the result has their
  -- paths and the tags stored for them.
  abbrev pub Completes : ℕ → List MultipartPart → List Text → List Text → Type 0
  Completes previous [] paths etags = (paths ≡ []) × (etags ≡ [])
  Completes previous (p ∷ ps) [] etags = ⊥
  Completes previous (p ∷ ps) (path ∷ paths) [] = ⊥
  Completes previous (p ∷ ps) (path ∷ paths) (etag ∷ etags) =
      (previous < p.part_number)
      × (p.part_number ≤ object_part_number_max)
      × (path ≡ resolve_multipart_part_path upload_path p.part_number)
      × IsUploaded (is_last ps) p.part_number etag
      × Completes p.part_number ps paths etags

  -- What a successful round of the loop has found.
  record Round (resource : Option Text) (previous : ℕ) (p : MultipartPart) (ps : List MultipartPart)
      (r : List Text × List Text) : Type 0 where
    above : previous < p.part_number
    within : p.part_number ≤ object_part_number_max
    row : S3ObjectMultipartPart
    found : select_part multipart_id p.part_number rows ≡ some row
    exists : isfile (resolve_multipart_part_path upload_path p.part_number) ≡ true
    big : (is_last ps ≡ true) ⊎ (object_part_size_min_bytes ≤ row.size_bytes)
    paths : List Text
    etags : List Text
    rest :
        load_parts isfile rows multipart_id upload_path resource p.part_number ps
        ≡ ok (paths, etags)
    whole : (resolve_multipart_part_path upload_path p.part_number ∷ paths, row.etag ∷ etags) ≡ r

  load_parts-Round :
      (resource : Option Text) (previous : ℕ) (p : MultipartPart) (ps : List MultipartPart)
      (r : List Text × List Text)
      → load_parts isfile rows multipart_id upload_path resource previous (p ∷ ps) ≡ ok r
      → Round resource previous p ps r
  unfolding load_parts
  load_parts-Round resource previous p ps r h = elim (Bool-cases (leb p.part_number previous)) [
    | inl low ↦ absurd (ground (arith, h, low))
    | inr above ↦ elim (Bool-cases (ltb object_part_number_max p.part_number)) [
      | inl high ↦ absurd (ground (arith, h, above, high))
      | inr within ↦ elim (Option-cases (select_part multipart_id p.part_number rows)) [
        | inl missing ↦ absurd (ground (arith, h, above, within, missing))
        | inr (row, found) ↦
            elim (Bool-cases (isfile (resolve_multipart_part_path upload_path p.part_number))) [
              | inr gone ↦ absurd (ground (arith, h, above, within, found, gone))
              | inl exists ↦
                  elim (Bool-cases
                    (not (is_last ps) && ltb row.size_bytes object_part_size_min_bytes)) [
                      | inl small ↦ absurd (ground (arith, h, above, within, found, exists, small))
                      | inr big ↦
                          elim (Result-cases (
                            load_parts isfile rows multipart_id upload_path resource p.part_number
                              ps)) [
                                | inl (e, failed) ↦
                                    absurd
                                      (ground (arith, h, above, within, found, exists, big, failed))
                                | inr ((paths, etags), rest) ↦ record {
                                  above = ground (arith, above);
                                  within = ground (arith, within);
                                  row = row;
                                  found = found;
                                  exists = exists;
                                  big = big_enough row.size_bytes (is_last ps) big;
                                  paths = paths;
                                  etags = etags;
                                  rest = rest;
                                  whole =
                                      ok-injective (
                                        ground (arith, h, above, within, found, exists, big, rest));
                                }
                              ]
                    ]
            ]
      ]
    ]
  ]

  loaded :
      (resource : Option Text) (previous : ℕ) (parts : List MultipartPart) (paths etags : List Text)
      → load_parts isfile rows multipart_id upload_path resource previous parts ≡ ok (paths, etags)
      → Completes previous parts paths etags
  unfolding load_parts
  loaded resource previous [] paths etags h = (ground (arith, h), ground (arith, h))
  loaded resource previous (p ∷ ps) [] etags h =
      let round = load_parts-Round resource previous p ps ([], etags) h in
      absurd (ground (arith, round.whole))
  loaded resource previous (p ∷ ps) (path ∷ paths) [] h =
      let round = load_parts-Round resource previous p ps (path ∷ paths, []) h in
      absurd (ground (arith, round.whole))
  loaded resource previous (p ∷ ps) (path ∷ paths) (etag ∷ etags) h =
      let round = load_parts-Round resource previous p ps (path ∷ paths, etag ∷ etags) h in
      (
        round.above,
        round.within,
        ground (arith, round.whole),
        (round.row, round.found, ground (arith, round.whole), round.exists, round.big),
        loaded resource p.part_number ps paths etags (ground (arith, round.rest, round.whole)),
      )

  completed :
      (resource : Option Text) (previous : ℕ) (parts : List MultipartPart) (paths etags : List Text)
      → Completes previous parts paths etags
      → load_parts isfile rows multipart_id upload_path resource previous parts ≡ ok (paths, etags)
  unfolding load_parts
  completed resource previous [] paths etags (e, f) = ground (arith, e, f)
  completed resource previous (p ∷ ps) [] etags c = absurd c
  completed resource previous (p ∷ ps) (path ∷ paths) [] c = absurd c
  completed resource previous (p ∷ ps) (path ∷ paths) (etag ∷ etags)
        (above, within, same, (row, found, tag, exists, big), rest) =
      ground (
        arith,
        above,
        within,
        same,
        found,
        tag,
        exists,
        big,
        completed resource p.part_number ps paths etags rest,
      )

-- The parts that the client lists are loaded exactly if their numbers ascend from 1 to 10000, each
-- has a row and a staged file, and each but the last has 5 MiB at least; the result then has the paths
-- and the stored tags of the parts, in the client's order.
pub load_multipart_parts_iff :
    (isfile : Text → Bool) (rows : List S3ObjectMultipartPart) (multipart : S3ObjectMultipart)
    (upload_path : Text) (parts : List MultipartPart) (resource : Option Text)
    (paths etags : List Text)
    → (load_multipart_parts isfile rows multipart upload_path parts resource ≡ ok (paths, etags))
      ↔ Completes isfile rows multipart.id upload_path 0 parts paths etags
unfolding load_multipart_parts
load_multipart_parts_iff isfile rows multipart upload_path parts resource paths etags = (
  loaded isfile rows multipart.id upload_path resource 0 parts paths etags,
  completed isfile rows multipart.id upload_path resource 0 parts paths etags,
)
