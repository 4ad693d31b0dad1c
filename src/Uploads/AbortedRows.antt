-- ===== src/Uploads/AbortedRows.antt =====
-- The parts of `multipart_abort` on the rows: the `try`, its handler and the clean-up.
use hidden.Base.{
  keep, ℕ, refl, ap₂, ◌∙◌, not, List, [], ◌∷◌, ◌==◌, nat_eq, arith, ◌≡◌, ◌⊎◌, inr, Bool, true,
  false, some, Text,
}
use hidden.Errors.{Error, file_not_found, ok}
use hidden.Bucket.{S3Bucket, User, load_bucket}
use hidden.Multipart.{
  S3ObjectMultipart, S3ObjectMultipartPart, delete_multipart_parts, load_multipart,
}
use hidden.World.{World, Rows, ◌>>=◌, ◌>>◌, asks, catch, attempt, when, tick, set_moved}
use hidden.World.Triple.{Ends, Triple, bind, after, weaken, catching, given}
use hidden.Io.{isdir, rename, rmtree}
use hidden.Io.Laws.Session.{
  OnRows, KeepsRows, Committed, KeepsCommitted, loosened, held, rollback-KeepsCommitted,
  tick-KeepsRows, asks-KeepsRows, isdir-KeepsRows, rmtree-KeepsRows, rename-KeepsRows,
  attempt-KeepsRows, when-KeepsRows, flush-rows, commit-rows,
}
use hidden.Uploads.Part.{find_multipart}
use hidden.Uploads.Abort.{
  drop_parts, drop_multipart, delete_multipart, remove_multipart, restore_multipart,
  forgive_os_error,
}
use hidden.Uploads.Selected.{selected}

-- The rows without the upload and without its parts: the others are there as they were.
abbrev pub without_multipart : S3ObjectMultipart → Rows → Rows
without_multipart m r = record r {
  uploads = keep (λ row. not (row.id == m.id)) r.uploads;
  parts = keep (λ row. not (row.object_multipart_id == m.id)) r.parts;
}

delete_multipart_parts-keep :
    (id : ℕ) (rows : List S3ObjectMultipartPart)
    → delete_multipart_parts id rows ≡ keep (λ row. not (row.object_multipart_id == id)) rows
unfolding delete_multipart_parts
delete_multipart_parts-keep id [] = refl
delete_multipart_parts-keep id (row ∷ rows) = ground (arith, delete_multipart_parts-keep id rows)

delete_multipart-keep :
    (id : ℕ) (rows : List S3ObjectMultipart)
    → delete_multipart id rows ≡ keep (λ row. not (row.id == id)) rows
unfolding delete_multipart
delete_multipart-keep id [] = refl
delete_multipart-keep id (row ∷ rows) = ground (arith, delete_multipart-keep id rows)

-- What the two deletions of the code leave.
pub drop_multipart_lem :
    (m : S3ObjectMultipart) (r : Rows) → drop_multipart m (drop_parts m r) ≡ without_multipart m r
unfolding drop_multipart drop_parts
drop_multipart_lem m r =
    ap₂ (λ us ps. record r { uploads = us; parts = ps }) (delete_multipart-keep m.id r.uploads)
      (delete_multipart_parts-keep m.id r.parts)

-- They are committed, for the upload that the request names.
abbrev pub Aborted : Rows → Text → Text → Text → User → Text → World → Type 0
Aborted r name upload_id resource u key w =
    (bucket : S3Bucket) × (m : S3ObjectMultipart) × (load_bucket r.buckets name u (some resource)
      ≡ ok bucket)
    × (load_multipart r.uploads bucket key upload_id (some resource) ≡ ok m)
    × Committed (without_multipart m r) w

flag_rows :
    {k r : Rows} (b : Bool) → Triple (OnRows k r) (set_moved b) (λ _. OnRows k r) (OnRows k r)
flag_rows b = record { run = λ w h. h }

move_aside-KeepsRows : (p q : Text) (b : Bool) → KeepsRows (rename p q >> set_moved b)
move_aside-KeepsRows p q b k r = after (rename-KeepsRows p q k r) λ _. flag_rows b

pub remove_multipart_lem :
    {k r : Rows} (bucket : S3Bucket) (key upload_id resource upload_path cleanup_path : Text)
    → Triple
        (OnRows k r)
        (remove_multipart bucket key upload_id resource upload_path cleanup_path)
        (λ _ w.
          (m : S3ObjectMultipart) × (load_multipart r.uploads bucket key upload_id (some resource)
            ≡ ok m)
          × Committed (without_multipart m r) w)
        (Committed k)
unfolding remove_multipart find_multipart
remove_multipart_lem {k} {r} bucket key upload_id resource upload_path cleanup_path =
    bind
      (weaken (selected (λ r. load_multipart r.uploads bucket key upload_id (some resource)))
        (λ _ w h. h) (λ w h. h.0))
      λ m. given λ loaded. bind (held (isdir upload_path) (isdir-KeepsRows upload_path)) λ there.
        after
          (held (when there (rename upload_path cleanup_path >> set_moved true)) (
            when-KeepsRows there (rename upload_path cleanup_path >> set_moved true)
              (move_aside-KeepsRows upload_path cleanup_path true)))
          λ _. after (held tick tick-KeepsRows) λ _.
            after (weaken (flush-rows (drop_parts m)) (λ _ w h. h) (λ w h. h.0)) λ _.
              after (weaken (flush-rows (drop_multipart m)) (λ _ w h. h) (λ w h. h.0)) λ _.
                weaken commit-rows (λ _ w h. (m, loaded, h.0 ∙ drop_multipart_lem m r)) (λ w h. h.0)

pub restore_multipart_lem :
    (upload_path cleanup_path : Text) → KeepsCommitted (restore_multipart upload_path cleanup_path)
unfolding restore_multipart
restore_multipart_lem upload_path cleanup_path k = after (rollback-KeepsCommitted k) λ _.
    bind (loosened (asks (λ w. w.flags)) (asks-KeepsRows (λ w. w.flags)) k) λ f.
      loosened (when f.moved (attempt (rename cleanup_path upload_path >> set_moved false)))
        (when-KeepsRows f.moved (attempt (rename cleanup_path upload_path >> set_moved false)) (
          attempt-KeepsRows (rename cleanup_path upload_path >> set_moved false)
            (move_aside-KeepsRows cleanup_path upload_path false)))
        k

forgiven : (e : Error) → KeepsRows (forgive_os_error e)
forgiven e k r = record { run = λ w h. cases e w h }
  where
    cases :
        (e : Error) (w : World)
        → OnRows k r w
        → Ends (λ _. OnRows k r) (OnRows k r) (forgive_os_error e w)
    cases file_not_found w h = h
    cases e w h = h

-- The clean-up after the commit.
cleaned_up :
    (cleanup_path : Text)
    → KeepsCommitted
        (asks (λ w. w.flags) >>= λ f. when f.moved (catch (rmtree cleanup_path) forgive_os_error))
cleaned_up cleanup_path k =
    bind (loosened (asks (λ w. w.flags)) (asks-KeepsRows (λ w. w.flags)) k) λ f.
      loosened (when f.moved (catch (rmtree cleanup_path) forgive_os_error))
        (when-KeepsRows f.moved (catch (rmtree cleanup_path) forgive_os_error)
          (λ k r. catching (rmtree-KeepsRows cleanup_path k r) (λ e. forgiven e k r)))
        k

-- All of it, or none.
abbrev pub AbortedOrNot : Rows → Rows → Text → Text → Text → User → Text → World → Type 0
AbortedOrNot k r name upload_id resource u key w =
    Committed k w ⊎ Aborted r name upload_id resource u key w

pub aborted :
    (k r : Rows) (name upload_id resource : Text) (u : User) (key : Text) (bucket : S3Bucket)
    (cleanup_path : Text)
    → load_bucket r.buckets name u (some resource) ≡ ok bucket
    → Triple
        (λ w.
          (m : S3ObjectMultipart) × (load_multipart r.uploads bucket key upload_id (some resource)
            ≡ ok m)
          × Committed (without_multipart m r) w)
        (asks (λ w. w.flags) >>= λ f. when f.moved (catch (rmtree cleanup_path) forgive_os_error))
        (λ _. Aborted r name upload_id resource u key)
        (AbortedOrNot k r name upload_id resource u key)
aborted k r name upload_id resource u key bucket cleanup_path loaded = record {
  run = λ w (m, found, done).
      (weaken {R' = AbortedOrNot k r name upload_id resource u key}
          {Q' = λ _. Aborted r name upload_id resource u key}
          (cleaned_up cleanup_path (without_multipart m r)) (λ _ w h. (bucket, m, loaded, found, h))
          (λ w h. inr (bucket, m, loaded, found, h))).run
        w done;
}
