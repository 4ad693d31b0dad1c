-- ===== src/Objects/Download.antt =====
-- app/services/object_download.py: the row of an object and the path of its bytes.
use hidden.Base.{
  ◌≡◌, refl, ap, ◌∙◌, inl, inr, Bool, true, false, not, ◌||◌, ◌==◌, nat_eq, list_eq, Option, some,
  List, arith, Bool-cases, Option-cases, [], ◌++◌, Text, codes, if◌then◌else◌,
}
use hidden.Errors.{s3, object_not_found, access_denied, Error, Result, ok, err}
use hidden.Files.{payload}
use hidden.Paths.Resolve.{resolve_object_path}
use hidden.Validation.{validate_bucket_name, validate_object_key}
use hidden.Bucket.{S3Bucket, User, select_bucket, load_bucket}
use hidden.World.{World, S3Object, Io, ◌>>=◌, ◌>>◌, return, raise, lift, tick}
use hidden.Io.{Env, Stream, until_empty, isfile, is_file}
use hidden.Objects.{find_bucket, load_object, found_object, select_object}
use hidden.Io.Laws.Streams.{joined}
use hidden.Objects.Upload.{object_upload}
use hidden.Objects.Kept.{object_upload-SameBeside}
use hidden.Objects.Transaction.{IsReady, object_upload-Uploaded}

unfoldable pub object_download : Env → User → Text → Text → Io (S3Object × Text)
object_download env current_user bucket_name object_key =
    let resource = codes "/" ++ (bucket_name ++ (codes "/" ++ object_key)) in
    lift (validate_bucket_name bucket_name resource)
    >> (lift (validate_object_key object_key resource)
        >> (lift (resolve_object_path env.buckets_dir bucket_name object_key)
            >>= λ (bucket_path, object_path).
                find_bucket bucket_name current_user resource >>= λ bucket.
                load_object bucket object_key resource >>= λ s3_object.
                isfile object_path >>= λ there.
                if not there
                then raise (s3 object_not_found (some resource))
                else return (s3_object, object_path)))

err-ne-ok : {A : Type 0} (e : Error) (a : A) → err e ≡ ok a → ⊥
err-ne-ok e a h = ground arith

-- What a call that went on found.
went_on :
    {A : Type 0} (m : Result (Unit {0})) (k : Io A) (w : World) {a : A} {w' : World}
    → (lift m >> k) w ≡ (ok a, w')
    → (m ≡ ok tt) × (k w ≡ (ok a, w'))
went_on (ok _) k w h = (refl, h)
went_on (err e) k w h = absurd (err-ne-ok e _ (ap (λ p. p.0) h))

-- Who may use the bucket.
abbrev may_use : User → S3Bucket → Bool
may_use user bucket = user.is_root || bucket.user_id == user.id

selected_bucket :
    (buckets : List S3Bucket) (name : Text) (u : User) (resource : Option Text) (bucket : S3Bucket)
    → load_bucket buckets name u resource ≡ ok bucket
    → select_bucket name buckets ≡ some bucket
unfolding load_bucket
selected_bucket buckets name u resource bucket h =
    elim (Option-cases (select_bucket name buckets)) [
      | inl gone ↦ absurd (ground (arith, gone))
      | inr (b, found) ↦ ground (arith, found)
    ]

-- A new session sees what is committed; no call fails in it.
abbrev pub new_session : World → World
new_session w = record w { rows = w.committed; faults = [] }

module _ (name key resource o : Text) (reader : User) (bucket : S3Bucket) (row : S3Object)
    (s : Text) (w : World) where
  found_bucket :
      select_bucket name w.committed.buckets ≡ some bucket
      → find_bucket name reader resource (new_session w) ≡ (
        if may_use reader bucket then ok bucket else err (s3 access_denied (some resource)),
        new_session w,
      )
  unfolding find_bucket load_bucket tick
  found_bucket listed = ap (λ r. (r, new_session w)) loaded
    where
      loaded :
          load_bucket w.committed.buckets name reader (some resource)
          ≡ (if may_use reader bucket then ok bucket else err (s3 access_denied (some resource)))
      loaded = elim (Bool-cases (may_use reader bucket)) [
        | inl may ↦ ground (arith, listed, may)
        | inr may_not ↦ ground (arith, listed, may_not)
      ]

  found_row :
      select_object bucket.id key w.committed.objects ≡ some row
      → row.delete_marker ≡ false
      → load_object bucket key resource (new_session w) ≡ (ok row, new_session w)
  unfolding load_object tick
  found_row selected alive =
      ap (λ r. (found_object resource r, new_session w)) selected ∙ rw alive refl

  found_file : payload o w.disk ≡ some s → isfile o (new_session w) ≡ (ok true, new_session w)
  unfolding isfile
  found_file stored = ap (λ p. (ok (is_file p), new_session w)) stored

module _ (env : Env) (name key bucket_path o : Text) (reader : User) (bucket : S3Bucket)
    (row : S3Object) (s : Text) (w : World) where
  downloaded :
      validate_bucket_name name (codes "/" ++ (name ++ (codes "/" ++ key))) ≡ ok tt
      → validate_object_key key (codes "/" ++ (name ++ (codes "/" ++ key))) ≡ ok tt
      → resolve_object_path env.buckets_dir name key ≡ ok (bucket_path, o)
      → select_bucket name w.committed.buckets ≡ some bucket
      → select_object bucket.id key w.committed.objects ≡ some row
      → row.delete_marker ≡ false
      → payload o w.disk ≡ some s
      → (object_download env reader name key (new_session w)).0 ≡ (
          if may_use reader bucket
          then ok (row, o)
          else err (s3 access_denied (some (codes "/" ++ (name ++ (codes "/" ++ key))))))
  unfolding object_download
  downloaded valid_name valid_key resolved listed selected alive stored =
      elim (Bool-cases (may_use reader bucket)) [
        | inl may ↦
            rw
              (
                valid_name,
                valid_key,
                resolved,
                found_bucket name key resource o reader bucket row s w listed,
                may,
                found_row name key resource o reader bucket row s w selected alive,
                found_file name key resource o reader bucket row s w stored,
              )
              refl
        | inr may_not ↦
            rw
              (
                valid_name,
                valid_key,
                resolved,
                found_bucket name key resource o reader bucket row s w listed,
                may_not,
              )
              refl
      ]
    where
      resource : Text
      resource = codes "/" ++ (name ++ (codes "/" ++ key))

-- After an upload that returns, in a world that is ready (its paths differ, no temporary path is one of
-- them, and no synchronisation of a directory fails), a download of the key by any user in a new session
-- where no call fails: a user who may use the bucket gets the row that the upload returned and the path
-- where the bytes of the body are, and another user gets AccessDenied.
pub object_download-object_upload :
    (env : Env) (name key bucket_path o b g : Text) (x : Option Text) (u : User) (body : Stream)
    (w w' : World) (row : S3Object)
    → IsReady env name key bucket_path o b g x w
    → object_upload env u name key body w ≡ (ok row, w')
    → (reader : User)
    → (bucket : S3Bucket) × (s : Text) × (select_bucket name w.rows.buckets ≡ some bucket)
      × (joined (until_empty body) ≡ some s)
      × (payload o (new_session w').disk ≡ some s)
      × ((object_download env reader name key (new_session w')).0 ≡ (
          if reader.is_root || bucket.user_id == reader.id
          then ok (row, o)
          else err (s3 access_denied (some (codes "/" ++ (name ++ (codes "/" ++ key)))))))
unfolding object_upload
object_download-object_upload env name key bucket_path o b g x u body w w' row ready run reader =
    let (bucket, loaded, up) =
      object_upload-Uploaded env name key bucket_path o b g x u body w w' row ready run in
    let (valid_name, run₁) = went_on _ _ w run in
    let (valid_key, _) = went_on _ _ w run₁ in
    let listed = selected_bucket w.rows.buckets name u _ bucket loaded in
    let same = (object_upload-SameBeside env u name key body w w' row run).0 in
    (
      bucket,
      up.s,
      listed,
      up.whole,
      up.stored,
      downloaded env name key bucket_path o reader bucket row up.s w' valid_name valid_key
          ready.resolved (ap (select_bucket name) same ∙ listed) up.current.selected
          up.current.alive up.stored,
    )
