-- ===== src/Uploads/PartTransaction.antt =====
-- `multipart_upload` as a whole: a transaction over the rows and the files.
use hidden.Base.{
  ℕ, ◌≡◌, refl, sym, subst, inl, inr, true, false, not, Option, none, some, List, Text, nat_eq,
  list_eq, arith, length,
}
use hidden.Errors.{ok, s3, object_upload_not_found}
use hidden.Files.{payload}
use hidden.Bucket.{S3Bucket}
use hidden.Multipart.{S3ObjectMultipart, load_multipart}
use hidden.World.{
  World, Rows, Flags, Io, ◌>>=◌, ◌>>◌, return, asks, when, attempt, commit, no_flags,
  set_backup_created, set_written,
}
use hidden.World.Triple.{Pred, Triple, bind, after, catching, given, if_lem, raised}
use hidden.Io.{Env, Stream, is_file, until_empty, rename, delete}
use hidden.Io.Laws.{At}
use hidden.Io.Laws.Calls.{raise_lem, return_lem}
use hidden.Io.Laws.Streams.{joined}
use hidden.Io.Laws.Ops.{isdir_lem, isfile_lem, get_filesize_lem, get_file_hash_lem}
use hidden.Io.Laws.Three.{
  Distinct, trio, IsApart-backup, set_backup_created_lem, reset_flags_lem, when_lem, only_first,
}
use hidden.Io.Laws.Compensation.{Recovered, staged_lem, moved_aside_lem, deleted}
use hidden.Uploads.Part.{save_part, store_part, upload_part_to}
use hidden.Uploads.PartStored.{StoredPart, unchanged, written_part_lem, find_multipart_lem, HasPart}
use hidden.Uploads.PartRecovery.{StoppedPart, reconcile_part_lem}

module _ (env : Env) (o b g : Text) (distinct : Distinct o b g) (k : Rows) (bucket : S3Bucket)
    (key resource upload_id upload_path : Text) (number : ℕ) (body : Stream) where
  -- From the test of the part's file on, by whether there is one.
  replaced_part_lem :
      (x : Option Text) (r : Rows) (uploads : List S3ObjectMultipart)
      (multipart : S3ObjectMultipart) (s : Text) (y : Option Text) (n : ℕ) (etag : Text)
      → (joined (until_empty body) ≡ some s)
      → load_multipart uploads bucket key upload_id (some resource) ≡ ok multipart
      → n ≡ length s
      → etag ≡ env.md5 s
      → Triple
          (At (record { committed = k; session = r }) no_flags (trio o b g x y (some s)))
          (when (is_file x) (rename o b >> set_backup_created)
            >> (rename g o
                >> (set_written >> (save_part multipart number n etag >> (commit >> return etag)))))
          (StoredPart env o b g bucket key upload_id number uploads resource body)
          (StoppedPart k o b g x)
  replaced_part_lem none r uploads multipart s y n etag whole loaded size digest =
      after (return_lem tt) λ _.
        written_part_lem env o b g distinct k none bucket key resource upload_id upload_path number
          body r uploads multipart s false none y n etag (λ e. refl) (λ e. ground arith) (λ e. refl)
          whole loaded size digest
  replaced_part_lem (some v) r uploads multipart s y n etag whole loaded size digest =
      after
        (after
          (unchanged env o b g distinct k (some v) bucket key resource upload_id upload_path number
            body r y (some s) (moved_aside_lem distinct v y (some s)))
          λ _. set_backup_created_lem)
        λ _.
          written_part_lem env o b g distinct k (some v) bucket key resource upload_id upload_path
            number body r uploads multipart s true none (some v) n etag (λ e. ground arith)
            (λ e. (v, refl, refl)) (λ e. ground arith) whole loaded size digest

  store_part_lem :
      (x : Option Text) (r : Rows) (y z : Option Text)
      → Triple
          (At (record { committed = k; session = r }) no_flags (trio o b g x y z))
          (store_part env bucket key resource upload_id number body upload_path o b g)
          (StoredPart env o b g bucket key upload_id number r.uploads resource body)
          (StoppedPart k o b g x)
  unfolding store_part
  store_part_lem x r y z = bind (same y z (isdir_lem upload_path)) λ there.
      if_lem (not there) (same y z (raise_lem (s3 object_upload_not_found (some resource)))) (
        bind (same y z (find_multipart_lem bucket key upload_id resource)) λ multipart.
          given λ loaded. after (same y z (staged_lem distinct body x y z)) λ _. record {
            run = λ w (s, whole, h).
                (bind (same y (some s) (get_file_hash_lem env g s (inr (inr (inl (refl, refl))))))
                    λ etag. given λ digest.
                      bind
                        (same y (some s) (get_filesize_lem env g s (inr (inr (inl (refl, refl))))))
                        λ n. given λ size.
                          bind (same y (some s) (isfile_lem o x (inl (refl, refl)))) λ exists.
                            given λ was.
                              subst
                                (λ e.
                                  Triple
                                    (At (record { committed = k; session = r }) no_flags
                                      (trio o b g x y (some s)))
                                    (when e (rename o b >> set_backup_created)
                                      >> (rename g o
                                          >> (set_written
                                              >> (save_part multipart number n etag
                                                  >> (commit >> return etag)))))
                                    (StoredPart env o b g bucket key upload_id number r.uploads
                                      resource body)
                                    (StoppedPart k o b g x))
                                (sym was)
                                (replaced_part_lem x r r.uploads multipart s y n etag whole loaded
                                  size digest)).run
                  w h;
          })
    where
      same :
          {A : Type 0} {P : Pred} {m : Io A} {Q : A → Pred} (y z : Option Text)
          → Triple P m Q (At (record { committed = k; session = r }) no_flags (trio o b g x y z))
          → Triple P m Q (StoppedPart k o b g x)
      same y z t =
          unchanged env o b g distinct k x bucket key resource upload_id upload_path number body r y
            z t

-- The part's file has the bytes of the body, and the committed row of the upload that was loaded has
-- their number and their digest, which is what the service returns.
pub record UploadedPart (env : Env) (o : Text) (bucket : S3Bucket) (key upload_id : Text)
    (number : ℕ) (uploads : List S3ObjectMultipart) (resource : Text) (body : Stream) (etag : Text)
    (w : World) : Type 0 where
  pub s : Text
  pub multipart : S3ObjectMultipart
  pub whole : joined (until_empty body) ≡ some s
  pub stored : payload o w.disk ≡ some s
  pub digest : etag ≡ env.md5 s
  pub loaded : load_multipart uploads bucket key upload_id (some resource) ≡ ok multipart
  pub current : HasPart multipart.id number (length s) (env.md5 s) w.committed

module _ (env : Env) (o b g : Text) (distinct : Distinct o b g) (k : Rows) (x : Option Text)
    (bucket : S3Bucket) (key resource upload_id upload_path : Text) (number : ℕ)
    (body : Stream) where
  finished_part :
      (uploads : List S3ObjectMultipart) (etag : Text)
      → Triple
          (StoredPart env o b g bucket key upload_id number uploads resource body etag)
          (asks (λ w. w.flags) >>= λ f. when f.backup_created (attempt (delete b)) >> return etag)
          (UploadedPart env o bucket key upload_id number uploads resource body)
          (Recovered k o b x)
  finished_part uploads etag = record {
    run = λ w st.
        (after (when_lem w.flags.backup_created (deleted b (IsApart-backup distinct (some st.s))))
            λ _. record {
              run = λ w' (r', h'). record {
                s = st.s;
                multipart = st.multipart;
                whole = st.whole;
                stored = h'.files.0;
                digest = st.digest;
                loaded = st.loaded;
                current =
                    subst (HasPart st.multipart.id number (length st.s) (env.md5 st.s))
                      (sym h'.committed) st.current;
              };
            }).run
          w (only_first (o, some st.s) w (st.r, st.state));
  }

  pub upload_part_to_lem :
      (r : Rows) (f : Flags) (y z : Option Text)
      → Triple
          (At (record { committed = k; session = r }) f (trio o b g x y z))
          (upload_part_to env bucket key resource upload_id number body upload_path o b g)
          (UploadedPart env o bucket key upload_id number r.uploads resource body)
          (Recovered k o b x)
  unfolding upload_part_to
  upload_part_to_lem r f y z = after reset_flags_lem λ _.
      bind
        (catching
          (store_part_lem env o b g distinct k bucket key resource upload_id upload_path number body
            x r y z)
          (λ e. after (reconcile_part_lem distinct x) λ _. raised e))
        (finished_part r.uploads)
