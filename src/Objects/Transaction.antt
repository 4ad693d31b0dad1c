-- ===== src/Objects/Transaction.antt =====
-- `object_upload` as a whole: a transaction over the rows and the files.
use hidden.Base.{
  ℕ, suc, ◌≡◌, refl, sym, ap, subst, ◌∙◌, ap₂, Option, none, some, ◌++◌, Text, codes, nat_eq,
  list_eq,
}
use hidden.Errors.{Error, ok, err}
use hidden.Files.{payload}
use hidden.Paths.Resolve.{resolve_object_path, resolve_staged_path}
use hidden.Validation.{validate_bucket_name, validate_object_key}
use hidden.Bucket.{S3Bucket, User, load_bucket}
use hidden.World.{World, Rows, S3Object, ◌>>=◌, lift, uuid4}
use hidden.World.Triple.{Ends, Triple, bind, after, weaken, from, given}
use hidden.Io.{Env, Stream}
use hidden.Io.Laws.{Quiet, AllAvoid}
use hidden.Io.Laws.Three.{Distinct, trio}
use hidden.Objects.{find_bucket}
use hidden.Io.Laws.Compensation.{Recovered, Intact}
use hidden.Objects.Start.{Poised, begun, lift_lem, untouched, find_bucket_lem}
use hidden.Objects.Uploaded.{Uploaded, upload_to_lem}
use hidden.Objects.Upload.{upload_to, object_upload}

-- The world that an upload to the path `o` starts in: the key holds `x` there, the next two tokens give
-- the staged path `g` and the backup's `b`, no later token gives a temporary path that is one of the
-- three, and no synchronisation of a directory is to fail.
pub record IsReady (env : Env) (bucket_name key bucket_path o b g : Text) (x : Option Text)
    (w : World) : Type 0 where
  pub resolved : resolve_object_path env.buckets_dir bucket_name key ≡ ok (bucket_path, o)
  pub held : payload o w.disk ≡ x
  pub staged : resolve_staged_path env.tmp_dir (w.tokens 0) ≡ g
  pub backup : resolve_staged_path env.tmp_dir (w.tokens 1) ≡ b
  pub distinct : Distinct o b g
  pub fresh : AllAvoid (λ n. w.tokens (suc (suc n))) (trio o b g none none none)
  pub synced : Quiet w.sync_faults

-- What `object_upload` returns with.
abbrev pub Done : Env → Rows → Text → User → Text → Text → Text → Stream → S3Object → World → Type 0
Done env r name u key resource o body row w =
    (bucket : S3Bucket) × (load_bucket r.buckets name u (some resource) ≡ ok bucket)
    × Uploaded env o bucket key body row w

module _ (env : Env) (name key bucket_path o b g : Text) (x : Option Text) (k r : Rows) (u : User)
    (body : Stream) (t : ℕ → Text)
    (resolved : resolve_object_path env.buckets_dir name key ≡ ok (bucket_path, o))
    (staged : resolve_staged_path env.tmp_dir (t 0) ≡ g)
    (backup : resolve_staged_path env.tmp_dir (t 1) ≡ b) where
  stored_lem :
      (bucket : S3Bucket) (resource : Text)
      → Triple
          (Poised (λ m. suc (suc m)) t o b g x k r)
          (uuid4 >>= λ staged. uuid4 >>= λ backup.
            upload_to env bucket u key resource body bucket_path o
              (resolve_staged_path env.tmp_dir backup)
              (resolve_staged_path env.tmp_dir staged))
          (Uploaded env o bucket key body)
          (Recovered k o b x)
  unfolding uuid4
  stored_lem bucket resource = record {
    run = λ w h.
        subst
          (λ (g', b'). Ends (Uploaded env o bucket key body) (Recovered k o b x) (
            upload_to env bucket u key resource body bucket_path o b' g'
              (record w { tokens = λ n. w.tokens (suc (suc n)) })))
          {x = (g, b)}
          {y = (
            resolve_staged_path env.tmp_dir (w.tokens 0),
            resolve_staged_path env.tmp_dir (w.tokens 1),
          )}
          (ap₂ (λ g' b'. (g', b'))
            (sym staged ∙ ap (λ t'. resolve_staged_path env.tmp_dir (t' 0)) (sym h.tokens))
            (sym backup ∙ ap (λ t'. resolve_staged_path env.tmp_dir (t' 1)) (sym h.tokens)))
          ((upload_to_lem env o b g h.distinct k x bucket u key resource bucket_path body r w.flags
              _ _).run
            _ (begun w h));
  }

  object_upload_lem :
      Triple
        (Poised (λ m. suc (suc m)) t o b g x k r)
        (object_upload env u name key body)
        (Done env r name u key (codes "/" ++ (name ++ (codes "/" ++ key))) o body)
        (Recovered k o b x)
  unfolding object_upload
  object_upload_lem =
      after
        (untouched
          (lift_lem (validate_bucket_name name (codes "/" ++ (name ++ (codes "/" ++ key))))))
        λ _.
          after
            (from (λ w h. h.0)
              (untouched
                (lift_lem (validate_object_key key (codes "/" ++ (name ++ (codes "/" ++ key)))))))
            λ _.
              from (λ w h. h.0)
                (subst
                  (λ m.
                    Triple (Poised (λ m. suc (suc m)) t o b g x k r)
                      (lift m >>= λ (bucket_path, object_path).
                        find_bucket name u (codes "/" ++ (name ++ (codes "/" ++ key))) >>= λ bucket.
                        uuid4 >>= λ staged. uuid4 >>= λ backup.
                        upload_to env bucket u key (codes "/" ++ (name ++ (codes "/" ++ key))) body
                          bucket_path object_path (resolve_staged_path env.tmp_dir backup)
                          (resolve_staged_path env.tmp_dir staged))
                      (Done env r name u key (codes "/" ++ (name ++ (codes "/" ++ key))) o body)
                      (Recovered k o b x))
                  (sym resolved)
                  (bind
                    (untouched (find_bucket_lem name (codes "/" ++ (name ++ (codes "/" ++ key))) u))
                    λ bucket. given λ loaded.
                      weaken (stored_lem bucket (codes "/" ++ (name ++ (codes "/" ++ key))))
                        (λ row w h. (bucket, loaded, h)) (λ w h. h)))

-- A world that is ready, seen from its own rows and tokens.
poised :
    {env : Env} {name key bucket_path o b g : Text} {x : Option Text} {w : World}
    → IsReady env name key bucket_path o b g x w
    → Poised (λ m. suc (suc m)) w.tokens o b g x w.committed w.rows w
poised h = record {
  held = h.held;
  distinct = h.distinct;
  fresh = h.fresh;
  synced = h.synced;
  tokens = refl;
  committed = refl;
  session = refl;
}

module _ (env : Env) (name key bucket_path o b g : Text) (x : Option Text) (u : User)
    (body : Stream) (w w' : World) where
  -- An upload that raises, whichever system calls and calls of the database have failed, leaves the
  -- committed rows as they were, and the payload that the key had is at its path or at that of the
  -- backup. This is for a world that is ready: its paths are different ones, no temporary path is one of
  -- them, and no synchronisation of a directory fails.
  pub object_upload-Intact :
      (e : Error)
      → IsReady env name key bucket_path o b g x w
      → object_upload env u name key body w ≡ (err e, w')
      → (w'.committed ≡ w.committed) × Intact o b x w'
  object_upload-Intact e ready run =
      subst
        (Ends (Done env w.rows name u key (codes "/" ++ (name ++ (codes "/" ++ key))) o body)
          (Recovered w.committed o b x))
        run
        ((object_upload_lem env name key bucket_path o b g x w.committed w.rows u body w.tokens
            ready.resolved ready.staged ready.backup).run
          w (poised ready))

  -- An upload that returns has stored what the body gave: the key's file holds all the chunks up to the
  -- first empty one, none of them was an exception, and the committed row that the key selects in the
  -- user's bucket has their number and their digest and is no delete marker. This is for a world that is
  -- ready, and holds whichever calls have failed and were handled.
  pub object_upload-Uploaded :
      (row : S3Object)
      → IsReady env name key bucket_path o b g x w
      → object_upload env u name key body w ≡ (ok row, w')
      → Done env w.rows name u key (codes "/" ++ (name ++ (codes "/" ++ key))) o body row w'
  object_upload-Uploaded row ready run =
      subst
        (Ends (Done env w.rows name u key (codes "/" ++ (name ++ (codes "/" ++ key))) o body)
          (Recovered w.committed o b x))
        run
        ((object_upload_lem env name key bucket_path o b g x w.committed w.rows u body w.tokens
            ready.resolved ready.staged ready.backup).run
          w (poised ready))
