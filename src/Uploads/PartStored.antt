-- ===== src/Uploads/PartStored.antt =====
-- `multipart_upload`: what it leaves where it returns, and where it raises.
use hidden.Base.{
  ℕ, ◌≡◌, refl, sym, ap, subst, Bool, true, false, Option, none, some, List, Text, nat_eq, list_eq,
  arith, length,
}
use hidden.Errors.{Result, ok, err}
use hidden.Bucket.{S3Bucket}
use hidden.Multipart.{
  S3ObjectMultipart, S3ObjectMultipartPart, load_multipart, select_part, upsert_multipart_part,
}
use hidden.Multipart.Parts.{select_part-upsert_multipart_part}
use hidden.World.{World, Rows, Flags, Io, ◌>>◌, return, commit, no_flags, set_written}
use hidden.World.Triple.{Pred, Ends, Triple, bind, after, weaken}
use hidden.Io.{Env, Stream, until_empty, rename}
use hidden.Io.Laws.{Watched, At}
use hidden.Io.Laws.Calls.{tick_lem}
use hidden.Io.Laws.Streams.{joined}
use hidden.Io.Laws.Ops.{asks_lem, commit_lem, flush_lem}
use hidden.Io.Laws.Three.{Distinct, trio, set_written_lem}
use hidden.Io.Laws.Compensation.{published_lem}
use hidden.Objects.Publish.{flags_of}
use hidden.Uploads.Part.{find_multipart, save_part}
use hidden.Uploads.PartRecovery.{StoppedPart}

-- The upload has the part, with this size and this entity tag.
abbrev pub HasPart : ℕ → ℕ → ℕ → Text → Rows → Type 0
HasPart id number n etag rows =
    (row : S3ObjectMultipartPart) × (select_part id number rows.parts ≡ some row)
    × (row.size_bytes ≡ n)
    × (row.etag ≡ etag)

-- The part is committed, and its file has the bytes `s`.
pub record StoredPart (env : Env) (o b g : Text) (bucket : S3Bucket) (key upload_id : Text)
    (number : ℕ) (uploads : List S3ObjectMultipart) (resource : Text) (body : Stream) (etag : Text)
    (w : World) : Type 0 where
  pub r : Rows
  pub f : Flags
  pub y : Option Text
  pub s : Text
  pub multipart : S3ObjectMultipart
  pub state : At (record { committed = r; session = r }) f (trio o b g (some s) y none) w
  pub whole : joined (until_empty body) ≡ some s
  pub digest : etag ≡ env.md5 s
  pub loaded : load_multipart uploads bucket key upload_id (some resource) ≡ ok multipart
  pub current : HasPart multipart.id number (length s) (env.md5 s) r

pub find_multipart_lem :
    {k r : Rows} {f : Flags} {l : Watched} (bucket : S3Bucket) (key upload_id resource : Text)
    → Triple
        (At (record { committed = k; session = r }) f l)
        (find_multipart bucket key upload_id resource)
        (λ m w.
          At (record { committed = k; session = r }) f l w
          × (load_multipart r.uploads bucket key upload_id (some resource) ≡ ok m))
        (At (record { committed = k; session = r }) f l)
unfolding find_multipart
find_multipart_lem {k} {r} {f} {l} bucket key upload_id resource = after tick_lem λ _. record {
  run = λ w h.
      loaded w h (load_multipart w.rows.uploads bucket key upload_id (some resource))
        (ap (λ r'. load_multipart r'.uploads bucket key upload_id (some resource)) (sym h.session));
}
  where
    loaded :
        (w : World)
        → At (record { committed = k; session = r }) f l w
        → (m : Result S3ObjectMultipart)
        → load_multipart r.uploads bucket key upload_id (some resource) ≡ m
        → Ends
            (λ m w.
              At (record { committed = k; session = r }) f l w
              × (load_multipart r.uploads bucket key upload_id (some resource) ≡ ok m))
            (At (record { committed = k; session = r }) f l)
            (m, w)
    loaded w h (ok m) e = (h, e)
    loaded w h (err e') e = h

save_part_lem :
    {k r : Rows} {f : Flags} {l : Watched} (multipart : S3ObjectMultipart) (number n : ℕ)
    (etag : Text)
    → Triple
        (At (record { committed = k; session = r }) f l)
        (save_part multipart number n etag)
        (λ _ w.
          (r' : Rows) × At (record { committed = k; session = r' }) f l w
          × HasPart multipart.id number n etag r')
        (At (record { committed = k; session = r }) f l)
unfolding save_part
save_part_lem {k} {r} {f} {l} multipart number n etag = after tick_lem λ _.
    bind (asks_lem (λ w. w.now)) λ now.
      weaken
        (flush_lem (λ rows. record rows {
          parts = upsert_multipart_part now multipart.id number n etag rows.parts;
        }))
        (λ _ w h.
          let (row, selected, size, tag, time) =
            select_part-upsert_multipart_part now multipart.id number n etag r.parts in
          (
            record r { parts = upsert_multipart_part now multipart.id number n etag r.parts },
            h,
            (row, selected, size, tag),
          ))
        (λ w h. h)

module _ (env : Env) (o b g : Text) (distinct : Distinct o b g) (k : Rows) (x : Option Text)
    (bucket : S3Bucket) (key resource upload_id upload_path : Text) (number : ℕ)
    (body : Stream) where
  -- Where the `try` raises.
  stopped :
      {A : Type 0} {P : Pred} {m : Io A} {Q : A → Pred} (r : Rows) (ba wr : Bool)
      (a y z : Option Text)
      → (ba ≡ false → wr ≡ false → a ≡ x)
      → (ba ≡ true → (v : Text) × (x ≡ some v) × (y ≡ some v))
      → (ba ≡ false → wr ≡ true → x ≡ none)
      → Triple P m Q
          (At (record { committed = k; session = r }) (flags_of ba wr) (trio o b g a y z))
      → Triple P m Q (StoppedPart k o b g x)
  stopped r ba wr a y z unmoved saved unsaved t =
      weaken t (λ _ w h. h)
        (λ w h. record {
          f = flags_of ba wr;
          a = a;
          y = y;
          z = z;
          state = (r, h);
          unmoved = unmoved;
          saved = saved;
          unsaved = unsaved;
        })

  pub unchanged :
      {A : Type 0} {P : Pred} {m : Io A} {Q : A → Pred} (r : Rows) (y z : Option Text)
      → Triple P m Q (At (record { committed = k; session = r }) no_flags (trio o b g x y z))
      → Triple P m Q (StoppedPart k o b g x)
  unchanged r y z t =
      stopped r false false x y z (λ e e'. refl) (λ e. ground arith) (λ e e'. ground arith) t

  -- From the publication on: the part was there if there is a backup, and has been moved away then.
  pub written_part_lem :
      (r : Rows) (uploads : List S3ObjectMultipart) (multipart : S3ObjectMultipart) (s : Text)
      (ba : Bool) (a y : Option Text) (n : ℕ) (etag : Text)
      → (ba ≡ false → a ≡ x)
      → (ba ≡ true → (v : Text) × (x ≡ some v) × (y ≡ some v))
      → (ba ≡ false → x ≡ none)
      → (joined (until_empty body) ≡ some s)
      → load_multipart uploads bucket key upload_id (some resource) ≡ ok multipart
      → n ≡ length s
      → etag ≡ env.md5 s
      → Triple
          (At (record { committed = k; session = r }) (flags_of ba false) (trio o b g a y (some s)))
          (rename g o
            >> (set_written >> (save_part multipart number n etag >> (commit >> return etag))))
          (StoredPart env o b g bucket key upload_id number uploads resource body)
          (StoppedPart k o b g x)
  written_part_lem r uploads multipart s ba a y n etag unmoved saved unsaved whole loaded size
        digest =
      after
        (stopped r ba false a y (some s) (λ e e'. unmoved e) saved (λ e e'. ground arith)
          (published_lem distinct s a y))
        λ _. after set_written_lem λ _.
          after
            (stopped r ba true (some s) y none (λ e e'. ground arith) saved (λ e e'. unsaved e)
              (save_part_lem multipart number n etag))
            λ _. record {
              run = λ w (r', h, current).
                  (after
                      (stopped r' ba true (some s) y none (λ e e'. ground arith) saved
                        (λ e e'. unsaved e) commit_lem)
                      λ _. done r' current).run
                    w h;
            }
    where
      done :
          (r' : Rows)
          → HasPart multipart.id number n etag r'
          → Triple
              (At
                (record { committed = r'; session = r' })
                (flags_of ba true)
                (trio o b g (some s) y none))
              (return etag)
              (StoredPart env o b g bucket key upload_id number uploads resource body)
              (StoppedPart k o b g x)
      done r' current = record {
        run = λ w h. record {
          r = r';
          f = flags_of ba true;
          y = y;
          s = s;
          multipart = multipart;
          state = h;
          whole = whole;
          digest = digest;
          loaded = loaded;
          current =
              subst (λ m. HasPart multipart.id number m (env.md5 s) r') size
                (subst (λ t. HasPart multipart.id number n t r') digest current);
        };
      }
