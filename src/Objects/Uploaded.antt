-- ===== src/Objects/Uploaded.antt =====
-- `object_upload` as a whole: a transaction over the rows and the files.
use hidden.Base.{
  ◌≡◌, refl, sym, subst, ◌∙◌, inl, inr, Bool, false, not, Option, none, some, [], ◌∷◌, Text, nat_eq,
  list_eq, arith, length,
}
use hidden.Errors.{s3, bucket_not_found, object_key_conflict}
use hidden.Files.{payload}
use hidden.Paths.Posix.{dirname}
use hidden.Bucket.{S3Bucket, User}
use hidden.World.{World, Rows, Flags, S3Object, Io, ◌>>=◌, ◌>>◌, asks, when, attempt, no_flags}
use hidden.World.Triple.{Pred, Triple, bind, after, weaken, catching, given, if_lem, raised}
use hidden.Io.{Env, Stream, until_empty, delete}
use hidden.Io.Laws.{Tables, Watched, At}
use hidden.Io.Laws.Calls.{raise_lem}
use hidden.Io.Laws.Streams.{joined}
use hidden.Io.Laws.Ops.{
  isdir_lem, get_filesize_lem, get_file_hash_lem, get_mimetype_lem, mktree_lem, delete_lem,
}
use hidden.Io.Laws.Three.{
  Distinct, trio, IsApart-backup, reset_flags_lem, attempt_lem, when_lem, loosely, Loose,
  only_first,
}
use hidden.Objects.{object_mkdir, prefix_conflict}
use hidden.Objects.Current.{Current}
use hidden.Objects.Recovery.{Stopped, reconcile_lem}
use hidden.Io.Laws.Compensation.{staged_lem, Recovered}
use hidden.Objects.Publish.{Published, stopped, publish_object_lem}
use hidden.Objects.Upload.{or_default, store_object, upload_to, bound}

object_mkdir_lem :
    {c : Tables} {f : Flags} {l : Watched} (env : Env) (p resource : Text)
    → Triple (At c f l) (object_mkdir env p resource) (λ _. At c f l) (At c f l)
unfolding object_mkdir
object_mkdir_lem env p resource = bind (isdir_lem p) λ taken.
    if_lem taken (raise_lem (s3 object_key_conflict (some resource)))
      (catching (mktree_lem env (dirname p)) (λ e. raise_lem (prefix_conflict resource e)))

-- What is published has the bytes of the body, with their number and their digest.
abbrev pub PublishedBody :
    Env
    → Text
    → Text
    → Text
    → Rows
    → Option Text
    → S3Bucket
    → Text
    → Stream
    → Option S3Object
    → World
    → Type 0
PublishedBody env o b g k x bucket key body row w =
    (s : Text) × (content_type : Text) × (joined (until_empty body) ≡ some s)
    × Published o b g k x bucket key (length s) (env.md5 s) content_type s row w

module _ (env : Env) (o b g : Text) (distinct : Distinct o b g) (k : Rows) (x : Option Text)
    (bucket : S3Bucket) (u : User) (key resource bucket_path : Text) (body : Stream) where
  unchanged :
      {A : Type 0} {P : Pred} {m : Io A} {Q : A → Pred} (r : Rows) (y z : Option Text)
      → Triple P m Q (At (record { committed = k; session = r }) no_flags (trio o b g x y z))
      → Triple P m Q (Stopped k o b g x)
  unchanged r y z t =
      stopped o b g distinct k r x false false x y z (λ e. refl) (λ e. ground arith)
        (λ e. ground arith) t

  store_object_lem :
      (r : Rows) (y z : Option Text)
      → Triple
          (At (record { committed = k; session = r }) no_flags (trio o b g x y z))
          (store_object env bucket u key resource body bucket_path o b g)
          (PublishedBody env o b g k x bucket key body)
          (Stopped k o b g x)
  unfolding store_object
  store_object_lem r y z = bind (unchanged r y z (isdir_lem bucket_path)) λ there.
      if_lem (not there) (unchanged r y z (raise_lem (s3 bucket_not_found (some resource)))) (
        after (unchanged r y z (staged_lem distinct body x y z)) λ _. record {
          run = λ w (s, whole, h).
              (bind
                  (unchanged r y (some s) (get_filesize_lem env g s (inr (inr (inl (refl, refl))))))
                  λ n. given λ size.
                    bind
                      (unchanged r y (some s)
                        (get_file_hash_lem env g s (inr (inr (inl (refl, refl))))))
                      λ etag. given λ digest.
                        bind (unchanged r y (some s) (get_mimetype_lem env g)) λ content_type.
                          after (unchanged r y (some s) (object_mkdir_lem env o resource)) λ _.
                            weaken
                              (publish_object_lem o b g distinct k x bucket u key resource n etag
                                (or_default content_type) s r y)
                              (λ row w p. (
                                s,
                                or_default content_type,
                                whole,
                                subst
                                    (λ n'.
                                      Published o b g k x bucket key n' (env.md5 s)
                                        (or_default content_type) s row w)
                                    size
                                    (subst
                                      (λ e.
                                        Published o b g k x bucket key n e (or_default content_type)
                                          s row w)
                                      digest p),
                              ))
                              (λ w h. h)).run
                w h;
        })

-- The key has the bytes of the body, and its committed row has their number and their digest.
pub record Uploaded (env : Env) (o : Text) (bucket : S3Bucket) (key : Text) (body : Stream)
    (row : S3Object) (w : World) : Type 0 where
  pub s : Text
  pub content_type : Text
  pub whole : joined (until_empty body) ≡ some s
  pub stored : payload o w.disk ≡ some s
  pub current : Current bucket.id key (length s) (env.md5 s) content_type row w.committed

module _ (env : Env) (o b g : Text) (distinct : Distinct o b g) (k : Rows) (x : Option Text)
    (bucket : S3Bucket) (u : User) (key resource bucket_path : Text) (body : Stream) where
  -- The backup is deleted, if there is one.
  cleaned :
      {k' : Rows} {f : Flags} {R : Pred} (t : Option Text) (ba : Bool)
      → Triple
          (Loose k' f ((o, t) ∷ []))
          (when ba (attempt (delete b)))
          (λ _. Loose k' f ((o, t) ∷ []))
          R
  cleaned t ba = when_lem ba (attempt_lem (loosely (λ s. delete_lem b (IsApart-backup distinct t))))

  finished :
      (row : Option S3Object)
      → Triple
          (PublishedBody env o b g k x bucket key body row)
          (asks (λ w. w.flags) >>= λ f. when f.backup_created (attempt (delete b)) >> bound row)
          (Uploaded env o bucket key body)
          (Recovered k o b x)
  finished none = record {
    run = λ w (s, ct, whole, (r, y, h)).
        (after (cleaned x w.flags.backup_created)
            λ _. record { run = λ w (r', h'). (h'.committed, λ v e. inl (h'.files.0 ∙ e)) }).run
          w (only_first (o, x) w (r, h));
  }
  finished (some row) = record {
    run = λ w (s, ct, whole, st).
        (after (cleaned (some s) w.flags.backup_created) λ _. record {
          run = λ w' (r', h'). record {
            s = s;
            content_type = ct;
            whole = whole;
            stored = h'.files.0;
            current =
                subst (Current bucket.id key (length s) (env.md5 s) ct row) (sym h'.committed)
                  st.current;
          };
        }).run
          w (only_first (o, some s) w (st.r, st.state));
  }

  pub upload_to_lem :
      (r : Rows) (f : Flags) (y z : Option Text)
      → Triple
          (At (record { committed = k; session = r }) f (trio o b g x y z))
          (upload_to env bucket u key resource body bucket_path o b g)
          (Uploaded env o bucket key body)
          (Recovered k o b x)
  unfolding upload_to
  upload_to_lem r f y z = after reset_flags_lem λ _.
      bind
        (catching
          (store_object_lem env o b g distinct k x bucket u key resource bucket_path body r y z)
          (λ e. after (reconcile_lem distinct x) λ _. raised e))
        finished
