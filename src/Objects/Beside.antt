-- ===== src/Objects/Beside.antt =====
-- `upsert_object` on the rows: the key has its row, and the other tables stay as they are.
use hidden.Base.{ℕ, ◌≡◌, refl, sym, subst, Option, none, some, Text, nat_eq, list_eq}
use hidden.Bucket.{S3Bucket, User}
use hidden.World.{World, Rows, S3Object, tick}
use hidden.World.Triple.{Ends, Triple, after, weaken}
use hidden.Io.Laws.Session.{OnRows, Committed, held, tick-KeepsRows, flush-rows}
use hidden.Objects.{
  select_object, new_object, overwritten_object, insert_object, update_object, save_object,
  upsert_object,
}
use hidden.Objects.Current.{Current, inserted-Current, updated-Current}

-- Nothing but the objects has changed.
abbrev pub SameBeside : Rows → Rows → Type 0
SameBeside r r' = (r'.buckets ≡ r.buckets) × (r'.uploads ≡ r.uploads) × (r'.parts ≡ r.parts)

-- The session sees the row of the key.
abbrev pub Upserted : Rows → Rows → S3Bucket → Text → ℕ → Text → Text → S3Object → World → Type 0
Upserted k r bucket key n etag content_type row w =
    (r' : Rows) × OnRows k r' w × Current bucket.id key n etag content_type row r' × SameBeside r r'

module _ {k r : Rows} (b : S3Bucket) (u : User) (key : Text) (n : ℕ)
    (etag content_type : Text) where
  save_object-rows :
      (now : ℕ) (found : Option S3Object)
      → select_object b.id key r.objects ≡ found
      → Triple
          (OnRows k r)
          (save_object found r.next_id now b u key n etag content_type none)
          (Upserted k r b key n etag content_type)
          (Committed k)
  unfolding save_object insert_object update_object
  save_object-rows now none h =
      after
        (weaken
          (flush-rows (insert_object (new_object r.next_id now b u key n etag content_type none)))
          (λ _ w h. h) (λ w h. h.0))
        λ _. record {
          run = λ w at_. (
            _,
            at_,
            inserted-Current b u key n etag content_type now none r h,
            (refl, refl, refl),
          );
        }
  save_object-rows now (some o) h =
      after
        (weaken (flush-rows (update_object (overwritten_object o now b u n etag content_type none)))
          (λ _ w h. h) (λ w h. h.0))
        λ _. record {
          run = λ w at_. (
            _,
            at_,
            updated-Current b u key n etag content_type now none r o h,
            (refl, refl, refl),
          );
        }

  pub upsert_object-rows :
      Triple
        (OnRows k r)
        (upsert_object b u key n etag content_type none)
        (Upserted k r b key n etag content_type)
        (Committed k)
  unfolding upsert_object
  upsert_object-rows = after (held tick tick-KeepsRows) λ _. record {
    run = λ w h.
        subst
          (λ r'. Ends (Upserted k r b key n etag content_type) (Committed k) (
            save_object (select_object b.id key r'.objects) r'.next_id w.now b u key n etag
              content_type none w))
          (sym h.1) ((save_object-rows w.now (select_object b.id key r.objects) refl).run w h);
  }
