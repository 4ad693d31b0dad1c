-- ===== src/Uploads/Completed.antt =====
-- `multipart_complete` on the rows: the object is there and the upload is gone, or nothing is committed.
use hidden.Base.{
  ℕ, ◌≡◌, refl, sym, ap, ap₂, subst, Bool, true, false, not, ◌&&◌, Option, none, some, List, [],
  ◌∷◌, map, Text, ==_iff, nat_eq, list_eq, if◌then◌else◌, ltb, leb, arith,
}
use hidden.Errors.{Error, s3, object_part_invalid, ok}
use hidden.Paths.Resolve.{resolve_multipart_part_path}
use hidden.Bucket.{S3Bucket}
use hidden.Multipart.{
  S3ObjectMultipart, S3ObjectMultipartPart, MultipartPart, load_multipart, select_part, is_last,
  object_part_number_max, object_part_size_min_bytes,
}
use hidden.World.{World, Rows, Io, ◌>>=◌, return, raise, asks, tick}
use hidden.World.Triple.{Pred, Triple, bind, after, weaken, given, if_lem}
use hidden.Io.{Env, concat, get_filesize, isfile}
use hidden.Io.Laws.Session.{OnRows, Committed, held, tick-KeepsRows, isfile-KeepsRows}
use hidden.Io.Laws.SessionWrites.{concat-KeepsRows, get_filesize-KeepsRows}
use hidden.Uploads.Part.{find_multipart}
use hidden.Uploads.Complete.{listed_part, find_parts, all_same, assemble}
use hidden.Uploads.Selected.{selected}

-- The tags are those of the rows of the listed parts, in this order.
abbrev pub HasTags : List S3ObjectMultipartPart → ℕ → List MultipartPart → List Text → Type 0
HasTags rows id [] [] = Unit
HasTags rows id [] (t ∷ ts) = ⊥
HasTags rows id (p ∷ ps) [] = ⊥
HasTags rows id (p ∷ ps) (t ∷ ts) =
    ((row : S3ObjectMultipartPart) × (select_part id p.part_number rows ≡ some row)
      × (row.etag ≡ t))
    × HasTags rows id ps ts

abbrev pub tags : List MultipartPart → List Text
tags parts = map (λ part. part.etag) parts

-- The upload that the request names is there, and the tags that the client lists are those stored.
abbrev pub IsListed :
    Rows → S3Bucket → Text → Text → Text → List MultipartPart → S3ObjectMultipart → Type 0
IsListed r bucket key upload_id resource parts m =
    (load_multipart r.uploads bucket key upload_id (some resource) ≡ ok m)
    × HasTags r.parts m.id parts (tags parts)

same-tags :
    (rows : List S3ObjectMultipartPart) (id : ℕ) (parts : List MultipartPart) (etags : List Text)
    → HasTags rows id parts etags
    → all_same (tags parts) etags ≡ true
    → tags parts ≡ etags
unfolding all_same
same-tags rows id [] [] h same = refl
same-tags rows id [] (t ∷ ts) h same = absurd h
same-tags rows id (p ∷ ps) [] h same = absurd h
same-tags rows id (p ∷ ps) (t ∷ ts) h same =
    ap₂ (λ x xs. x ∷ xs) (ground (arith, ==_iff p.etag t))
      (same-tags rows id ps ts h.1 (ground arith))

pub refused :
    {A : Type 0} {k r : Rows} {Q : A → Pred} (e : Error)
    → Triple (OnRows k r) (raise {A = A} e) Q (Committed k)
refused e = record { run = λ w h. h.0 }

-- What the loop leaves for the parts from one on.
abbrev Found : Rows → Rows → ℕ → List MultipartPart → List Text × List Text → World → Type 0
Found k r id parts (paths, etags) w = OnRows k r w × HasTags r.parts id parts etags

-- What the first `try` leaves: the upload, and tags that are those of the client.
abbrev pub Assembled :
    Rows
    → Rows
    → S3Bucket
    → Text
    → Text
    → Text
    → List MultipartPart
    → S3ObjectMultipart × List Text × ℕ
    → World
    → Type 0
Assembled k r bucket key upload_id resource parts (m, etags, n) w =
    OnRows k r w × (tags parts ≡ etags) × IsListed r bucket key upload_id resource parts m

if_known :
    {A : Type 0} {P R : Pred} {Q : A → Pred} {m m' : Io A} (b : Bool)
    → Triple P m Q R
    → (not b ≡ false → Triple P m' Q R)
    → Triple P (if not b then m else m') Q R
if_known true t t' = t' refl
if_known false t t' = t

module _ {k r : Rows} where
  listed_part_lem :
      (id : ℕ) (part : MultipartPart) (parts : List MultipartPart) (resource path : Text)
      (last : Bool) (found : Option S3ObjectMultipartPart) (rest : Io (List Text × List Text))
      → select_part id part.part_number r.parts ≡ found
      → Triple (OnRows k r) rest (Found k r id parts) (Committed k)
      → Triple
          (OnRows k r)
          (listed_part resource path last found rest)
          (Found k r id (part ∷ parts))
          (Committed k)
  listed_part_lem id part parts resource path last none rest e t = refused _
  listed_part_lem id part parts resource path last (some row) rest e t =
      bind (held (isfile path) (isfile-KeepsRows path)) λ there. if_lem (not there) (refused _) (
        if_lem (not last && ltb row.size_bytes object_part_size_min_bytes) (refused _) (
          bind t λ (paths, etags). record { run = λ w (h, tagged). (h, ((row, e, refl), tagged)) }))

  row_of :
      (id n : ℕ)
      → Triple
          (OnRows k r)
          (asks (λ w. select_part id n w.rows.parts))
          (λ found w. OnRows k r w × (select_part id n r.parts ≡ found))
          (Committed k)
  row_of id n = record { run = λ w h. (h, ap (λ x. select_part id n x.parts) (sym h.1)) }

  find_parts_lem :
      (id : ℕ) (upload_path resource : Text) (previous : ℕ) (parts : List MultipartPart)
      → Triple
          (OnRows k r)
          (find_parts id upload_path resource previous parts)
          (Found k r id parts)
          (Committed k)
  unfolding find_parts
  find_parts_lem id upload_path resource previous [] = record { run = λ w h. (h, tt) }
  find_parts_lem id upload_path resource previous (part ∷ parts) =
      if_lem (leb part.part_number previous) (refused _) (
        if_lem (ltb object_part_number_max part.part_number) (refused _) (
          after (held tick tick-KeepsRows) λ _. bind (row_of id part.part_number) λ found.
            given λ e.
              listed_part_lem id part parts resource
                (resolve_multipart_part_path upload_path part.part_number) (is_last parts) found _ e
                (find_parts_lem id upload_path resource part.part_number parts)))

  pub assemble_lem :
      (env : Env) (bucket : S3Bucket) (key upload_id resource upload_path staged_path : Text)
      (parts : List MultipartPart)
      → Triple
          (OnRows k r)
          (assemble env bucket key upload_id resource upload_path staged_path parts)
          (Assembled k r bucket key upload_id resource parts)
          (Committed k)
  unfolding assemble find_multipart
  assemble_lem env bucket key upload_id resource upload_path staged_path parts =
      bind
        (weaken (selected (λ r. load_multipart r.uploads bucket key upload_id (some resource)))
          (λ _ w h. h) (λ w h. h.0))
        λ m. given λ loaded.
          bind (find_parts_lem m.id upload_path resource 0 parts) λ (paths, etags). given λ tagged.
            if_known (all_same (tags parts) etags) (refused _) (λ same.
              verified m loaded paths etags
                (same-tags r.parts m.id parts etags tagged (not-false same)) tagged)
    where
      not-false : {b : Bool} → not b ≡ false → b ≡ true
      not-false h = ground arith

      verified :
          (m : S3ObjectMultipart)
          → load_multipart r.uploads bucket key upload_id (some resource) ≡ ok m
          → (paths etags : List Text) → tags parts ≡ etags
          → HasTags r.parts m.id parts etags
          → Triple
              (OnRows k r)
              (concat env paths staged_path >>= λ hashes.
                if not (all_same etags hashes)
                then raise (s3 object_part_invalid (some resource))
                else (get_filesize env staged_path >>= λ n. return (m, etags, n)))
              (Assembled k r bucket key upload_id resource parts)
              (Committed k)
      verified m loaded paths etags same tagged =
          bind (held (concat env paths staged_path) (concat-KeepsRows env paths staged_path))
            λ hashes. if_lem (not (all_same etags hashes)) (refused _) (
              bind (held (get_filesize env staged_path) (get_filesize-KeepsRows env staged_path))
                λ n. record {
                  run = λ w h.
                      (h, same, (loaded, subst (HasTags r.parts m.id parts) (sym same) tagged));
                })
