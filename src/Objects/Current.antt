-- ===== src/Objects/Current.antt =====
-- `upsert_object`: the row that it writes is the one that the key selects from then on.
use hidden.Base.{
  ℕ, ◌≡◌, refl, sym, subst, inl, inr, Bool-cases, ◌==◌, ◌&&◌, false, Option, none, some, List, [],
  ◌∷◌, ◌++◌, Text, ==_iff, nat_eq, list_eq, arith,
}
use hidden.Bucket.{S3Bucket, User}
use hidden.World.{World, Rows, Flags, S3Object, asks}
use hidden.World.Triple.{Pred, Triple, bind, after, given}
use hidden.Io.Laws.{Tables, Watched, At}
use hidden.Io.Laws.Calls.{tick_lem}
use hidden.Io.Laws.Ops.{flush_lem}
use hidden.Objects.{
  select_object, put_object, new_object, overwritten_object, insert_object, update_object,
  save_object, upsert_object,
}

-- The key has the row, which is one of this key and bucket, with this size, entity tag and type, and it is no delete marker.
pub record Current (bucket_id : ℕ) (key : Text) (n : ℕ) (etag content_type : Text) (row : S3Object)
    (rows : Rows) : Type 0 where
  pub selected : select_object bucket_id key rows.objects ≡ some row
  pub bucket : row.bucket_id ≡ bucket_id
  pub named : row.object_key ≡ key
  pub size : row.size_bytes ≡ some n
  pub tag : row.etag ≡ some etag
  pub type_ : row.content_type ≡ some content_type
  pub alive : row.delete_marker ≡ false

select-inserted :
    (b : ℕ) (key : Text) (o : S3Object) (rows : List S3Object)
    → o.bucket_id ≡ b
    → o.object_key ≡ key
    → select_object b key rows ≡ none
    → select_object b key (rows ++ (o ∷ [])) ≡ some o
unfolding select_object
select-inserted b key o [] same_bucket same_key h =
    ground (arith, ==_iff o.bucket_id b, ==_iff o.object_key key)
select-inserted b key o (p ∷ rows) same_bucket same_key h =
    ground (arith, h, select-inserted b key o rows same_bucket same_key)

select-updated :
    (b : ℕ) (key : Text) (o row : S3Object) (rows : List S3Object)
    → row.id ≡ o.id
    → row.bucket_id ≡ o.bucket_id
    → row.object_key ≡ o.object_key
    → select_object b key rows ≡ some o
    → select_object b key (put_object row rows) ≡ some row
unfolding select_object
select-updated b key o row [] same_id same_bucket same_key h = ground (arith, h)
select-updated b key o row (p ∷ rows) same_id same_bucket same_key h =
    ground
      (arith, h, select-updated b key o row rows same_id same_bucket same_key, ==_iff p.id row.id)

-- A row that is selected is one of the key.
selected_object :
    (b : ℕ) (key : Text) (o : S3Object) (rows : List S3Object)
    → select_object b key rows ≡ some o
    → (o.bucket_id ≡ b) × (o.object_key ≡ key)
unfolding select_object
selected_object b key o [] h = absurd (ground arith)
selected_object b key o (p ∷ rows) h = elim (Bool-cases (p.bucket_id == b && p.object_key == key)) [
  | inl here ↦ ground (arith, h, here, ==_iff p.bucket_id b, ==_iff p.object_key key)
  | inr there ↦ selected_object b key o rows (ground (arith, h, there))
]

module _ (b : S3Bucket) (u : User) (key : Text) (n : ℕ) (etag content_type : Text) (now : ℕ)
    (version_uuid : Option Text) (r : Rows) where
  pub inserted-Current :
      select_object b.id key r.objects ≡ none
      → Current b.id key n etag content_type
          (new_object r.next_id now b u key n etag content_type version_uuid)
          (insert_object (new_object r.next_id now b u key n etag content_type version_uuid) r)
  unfolding insert_object new_object
  inserted-Current h = record {
    selected =
        select-inserted b.id key (new_object r.next_id now b u key n etag content_type version_uuid)
          r.objects refl refl h;
    bucket = refl;
    named = refl;
    size = refl;
    tag = refl;
    type_ = refl;
    alive = refl;
  }

  pub updated-Current :
      (o : S3Object)
      → select_object b.id key r.objects ≡ some o
      → Current b.id key n etag content_type
          (overwritten_object o now b u n etag content_type version_uuid)
          (update_object (overwritten_object o now b u n etag content_type version_uuid) r)
  unfolding update_object overwritten_object
  updated-Current o h = record {
    selected =
        select-updated b.id key o (overwritten_object o now b u n etag content_type version_uuid)
          r.objects refl refl refl h;
    bucket = (selected_object b.id key o r.objects h).0;
    named = (selected_object b.id key o r.objects h).1;
    size = refl;
    tag = refl;
    type_ = refl;
    alive = refl;
  }

-- The session sees the row, and nothing is committed.
abbrev pub Saved :
    S3Bucket → Text → ℕ → Text → Text → Rows → Flags → Watched → S3Object → World → Type 0
Saved b key n etag content_type k f l row w =
    (r' : Rows) × At (record { committed = k; session = r' }) f l w
    × Current b.id key n etag content_type row r'

look_lem :
    {c : Tables} {f : Flags} {l : Watched} {R : Pred}
    → Triple (At c f l) (asks (λ w. w)) (λ w' w. At c f l w × (w'.rows ≡ c.session)) R
look_lem = record { run = λ w h. (h, h.session) }

module _ {k : Rows} {r : Rows} {f : Flags} {l : Watched} (b : S3Bucket) (u : User) (key : Text)
    (n : ℕ) (etag content_type : Text) where
  save_object_lem :
      (now : ℕ) (version_uuid : Option Text) (found : Option S3Object)
      → select_object b.id key r.objects ≡ found
      → Triple
          (At (record { committed = k; session = r }) f l)
          (save_object found r.next_id now b u key n etag content_type version_uuid)
          (Saved b key n etag content_type k f l)
          (At (record { committed = k; session = r }) f l)
  unfolding save_object
  save_object_lem now version_uuid none h =
      after
        (flush_lem
          (insert_object (new_object r.next_id now b u key n etag content_type version_uuid)))
        λ _. record {
          run =
              λ w at_. (_, at_, inserted-Current b u key n etag content_type now version_uuid r h);
        }
  save_object_lem now version_uuid (some o) h =
      after
        (flush_lem (update_object (overwritten_object o now b u n etag content_type version_uuid)))
        λ _. record {
          run =
              λ w at_. (_, at_, updated-Current b u key n etag content_type now version_uuid r o h);
        }

  pub upsert_object_lem :
      (version_uuid : Option Text)
      → Triple
          (At (record { committed = k; session = r }) f l)
          (upsert_object b u key n etag content_type version_uuid)
          (Saved b key n etag content_type k f l)
          (At (record { committed = k; session = r }) f l)
  unfolding upsert_object
  upsert_object_lem version_uuid = after tick_lem λ _. bind look_lem (λ w. given λ same.
      subst
        (λ r'.
          Triple (At (record { committed = k; session = r }) f l)
            (save_object (select_object b.id key r'.objects) r'.next_id w.now b u key n etag
              content_type version_uuid)
            (Saved b key n etag content_type k f l)
            (At (record { committed = k; session = r }) f l))
        (sym same) (save_object_lem w.now version_uuid (select_object b.id key r.objects) refl))
