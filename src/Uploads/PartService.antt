-- ===== src/Uploads/PartService.antt =====
-- `multipart_upload` from the request on.
use hidden.Base.{
  ℕ, suc, ◌≡◌, refl, sym, ap, ap₂, subst, ◌∙◌, ◌||◌, Option, none, some, Text, codes, ◌++◌, ltb,
}
use hidden.Errors.{Error, s3, object_part_number_invalid, ok, err}
use hidden.Files.{payload}
use hidden.Paths.Resolve.{
  resolve_multipart_path, resolve_multipart_part_path, resolve_multipart_staged_part_path,
  resolve_multipart_backup_part_path,
}
use hidden.Validation.{validate_object_key}
use hidden.Bucket.{S3Bucket, User, load_bucket}
use hidden.Multipart.{object_part_number_max}
use hidden.World.{World, Rows, ◌>>=◌, uuid4}
use hidden.World.Triple.{Ends, Triple, bind, after, weaken, from, given, if_lem, raised}
use hidden.Io.{Env, Stream}
use hidden.Io.Laws.{Quiet, AllAvoid}
use hidden.Io.Laws.Three.{Distinct, trio}
use hidden.Io.Laws.Compensation.{Intact, Recovered}
use hidden.Objects.Start.{Poised, begun, lift_lem, untouched, find_bucket_lem}
use hidden.Uploads.Part.{upload_part_to, multipart_upload}
use hidden.Uploads.PartTransaction.{UploadedPart, upload_part_to_lem}

-- The world that the upload of a part to the path `o` starts in: the part has the payload `x`, the next
-- token gives the backup's path `b` and the staged path `g`, no later token gives a temporary path that
-- is one of the three, and no synchronisation of a directory is to fail.
pub record IsPartReady (env : Env) (upload_id : Text) (number : ℕ) (o b g : Text) (x : Option Text)
    (w : World) : Type 0 where
  pub part : resolve_multipart_part_path (resolve_multipart_path env.tmp_dir upload_id) number ≡ o
  pub held : payload o w.disk ≡ x
  pub backup :
      resolve_multipart_backup_part_path
        (resolve_multipart_path env.tmp_dir upload_id)
        number
        (w.tokens 0)
      ≡ b
  pub staged :
      resolve_multipart_staged_part_path
        (resolve_multipart_path env.tmp_dir upload_id)
        number
        (w.tokens 0)
      ≡ g
  pub distinct : Distinct o b g
  pub fresh : AllAvoid (λ n. w.tokens (suc n)) (trio o b g none none none)
  pub synced : Quiet w.sync_faults

-- What `multipart_upload` returns with.
abbrev pub DonePart :
    Env → Rows → Text → User → Text → Text → ℕ → Text → Text → Stream → Text → World → Type 0
DonePart env r name u key upload_id number resource o body etag w =
    (bucket : S3Bucket) × (load_bucket r.buckets name u (some resource) ≡ ok bucket)
    × UploadedPart env o bucket key upload_id number r.uploads resource body etag w

module _ (env : Env) (name key upload_id : Text) (number : ℕ) (o b g : Text) (x : Option Text)
    (k r : Rows) (u : User) (body : Stream) (t : ℕ → Text)
    (part : resolve_multipart_part_path (resolve_multipart_path env.tmp_dir upload_id) number ≡ o)
    (backup : resolve_multipart_backup_part_path
        (resolve_multipart_path env.tmp_dir upload_id)
        number
        (t 0)
      ≡ b)
    (staged : resolve_multipart_staged_part_path
        (resolve_multipart_path env.tmp_dir upload_id)
        number
        (t 0)
      ≡ g) where
  stored_part_lem :
      (bucket : S3Bucket) (resource : Text)
      → Triple
          (Poised suc t o b g x k r)
          (uuid4 >>= λ token.
            upload_part_to env bucket key resource upload_id number body
              (resolve_multipart_path env.tmp_dir upload_id)
              (resolve_multipart_part_path (resolve_multipart_path env.tmp_dir upload_id) number)
              (resolve_multipart_backup_part_path
                (resolve_multipart_path env.tmp_dir upload_id)
                number
                token)
              (resolve_multipart_staged_part_path
                (resolve_multipart_path env.tmp_dir upload_id)
                number
                token))
          (UploadedPart env o bucket key upload_id number r.uploads resource body)
          (Recovered k o b x)
  unfolding uuid4
  stored_part_lem bucket resource = record {
    run = λ w h.
        subst
          (λ (o', b', g').
            Ends (UploadedPart env o bucket key upload_id number r.uploads resource body)
              (Recovered k o b x)
              (upload_part_to env bucket key resource upload_id number body
                (resolve_multipart_path env.tmp_dir upload_id) o' b' g'
                (record w { tokens = λ n. w.tokens (suc n) })))
          {x = (o, b, g)}
          {y = (
            resolve_multipart_part_path (resolve_multipart_path env.tmp_dir upload_id) number,
            resolve_multipart_backup_part_path (resolve_multipart_path env.tmp_dir upload_id) number
                (w.tokens 0),
            resolve_multipart_staged_part_path (resolve_multipart_path env.tmp_dir upload_id) number
                (w.tokens 0),
          )}
          (ap₂ (λ o' (b', g'). (o', b', g')) (sym part)
            (ap₂ (λ b' g'. (b', g'))
              (sym backup
                ∙ ap
                    (λ t'.
                      resolve_multipart_backup_part_path
                        (resolve_multipart_path env.tmp_dir upload_id) number (t' 0))
                    (sym h.tokens))
              (sym staged
                ∙ ap
                    (λ t'.
                      resolve_multipart_staged_part_path
                        (resolve_multipart_path env.tmp_dir upload_id) number (t' 0))
                    (sym h.tokens))))
          ((upload_part_to_lem env o b g h.distinct k x bucket key resource upload_id
              (resolve_multipart_path env.tmp_dir upload_id) number body r w.flags _ _).run
            _ (begun w h));
  }

  multipart_upload_lem :
      Triple
        (Poised suc t o b g x k r)
        (multipart_upload env u name key upload_id number body)
        (DonePart env r name u key upload_id number
          (codes "/" ++ (name ++ (codes "/" ++ key)))
          o
          body)
        (Recovered k o b x)
  unfolding multipart_upload
  multipart_upload_lem =
      after
        (untouched (lift_lem (validate_object_key key (codes "/" ++ (name ++ (codes "/" ++ key))))))
        λ _.
          from (λ w h. h.0)
            (if_lem (ltb number 1 || ltb object_part_number_max number)
              (untouched (
                raised (
                  s3 object_part_number_invalid
                    (some (codes "/" ++ (name ++ (codes "/" ++ key)))))))
              (bind (untouched (find_bucket_lem name (codes "/" ++ (name ++ (codes "/" ++ key))) u))
                λ bucket. given λ loaded.
                  weaken (stored_part_lem bucket (codes "/" ++ (name ++ (codes "/" ++ key))))
                    (λ etag w h. (bucket, loaded, h)) (λ w h. h)))

-- A world that is ready, seen from its own rows and tokens.
poised :
    {env : Env} {upload_id : Text} {number : ℕ} {o b g : Text} {x : Option Text} {w : World}
    → IsPartReady env upload_id number o b g x w
    → Poised suc w.tokens o b g x w.committed w.rows w
poised h = record {
  held = h.held;
  distinct = h.distinct;
  fresh = h.fresh;
  synced = h.synced;
  tokens = refl;
  committed = refl;
  session = refl;
}

module _ (env : Env) (name key upload_id : Text) (number : ℕ) (o b g : Text) (x : Option Text)
    (u : User) (body : Stream) (w w' : World) where
  -- The upload of a part that raises, whichever system calls and calls of the database have failed,
  -- leaves the committed rows as they were, and the payload that the part had is at its path or at that
  -- of the backup. This is for a world that is ready: its paths are different ones, no temporary path is
  -- one of them, and no synchronisation of a directory fails.
  pub multipart_upload-Intact :
      (e : Error)
      → IsPartReady env upload_id number o b g x w
      → multipart_upload env u name key upload_id number body w ≡ (err e, w')
      → (w'.committed ≡ w.committed) × Intact o b x w'
  multipart_upload-Intact e ready run =
      subst
        (Ends
          (DonePart env w.rows name u key upload_id number
            (codes "/" ++ (name ++ (codes "/" ++ key))) o body)
          (Recovered w.committed o b x))
        run
        ((multipart_upload_lem env name key upload_id number o b g x w.committed w.rows u body
            w.tokens ready.part ready.backup ready.staged).run
          w (poised ready))

  -- The upload of a part that returns has stored what the body gave: the part's file holds all the
  -- chunks up to the first empty one, none of them was an exception, the committed row of the upload
  -- that was loaded has their number and their digest under the part's number, and the digest is what is
  -- returned. This is for a world that is ready, and holds whichever calls have failed and were handled.
  pub multipart_upload-UploadedPart :
      (etag : Text)
      → IsPartReady env upload_id number o b g x w
      → multipart_upload env u name key upload_id number body w ≡ (ok etag, w')
      → DonePart env w.rows name u key upload_id number
          (codes "/" ++ (name ++ (codes "/" ++ key)))
          o
          body
          etag
          w'
  multipart_upload-UploadedPart etag ready run =
      subst
        (Ends
          (DonePart env w.rows name u key upload_id number
            (codes "/" ++ (name ++ (codes "/" ++ key))) o body)
          (Recovered w.committed o b x))
        run
        ((multipart_upload_lem env name key upload_id number o b g x w.committed w.rows u body
            w.tokens ready.part ready.backup ready.staged).run
          w (poised ready))
