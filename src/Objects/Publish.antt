-- ===== src/Objects/Publish.antt =====
-- The `try` of `object_upload`: what it leaves where it returns, and where it raises.
use hidden.Base.{
  ℕ, ◌≡◌, refl, sym, subst, inl, Bool, true, false, not, ◌&&◌, Option, none, some, Text, ◌==◌,
  nat_eq, list_eq, arith,
}
use hidden.Errors.{runtime_error}
use hidden.Bucket.{
  S3Bucket, User, bucket_versioning_disabled, bucket_versioning_enabled,
  bucket_versioning_suspended,
}
use hidden.World.{
  World, Rows, Flags, S3Object, Io, ◌>>=◌, ◌>>◌, return, raise, when, catch, commit, no_flags,
  set_backup_created, set_written,
}
use hidden.World.Triple.{Pred, Triple, bind, after, weaken, catching, given, if_lem}
use hidden.Io.{is_file, copy, rename}
use hidden.Io.Laws.{At}
use hidden.Io.Laws.Calls.{raise_lem, return_lem}
use hidden.Io.Laws.Ops.{isfile_lem, copy_lem, commit_lem}
use hidden.Io.Laws.Three.{Distinct, trio, set_second, set_backup_created_lem, set_written_lem}
use hidden.Objects.{upsert_object}
use hidden.Io.Laws.Compensation.{published_lem}
use hidden.Objects.Current.{Current, upsert_object_lem}
use hidden.Objects.Recovery.{Stopped}
use hidden.Objects.Upload.{rename_conflict, replace_object, publish_object}

abbrev pub flags_of : Bool → Bool → Flags
flags_of backup written = record { backup_created = backup; written = written; moved = false }

-- The rows `r` are committed, the key has the bytes `s`, and its row says so.
pub record Stored (o b g : Text) (bucket : S3Bucket) (key : Text) (n : ℕ) (etag content_type : Text)
    (s : Text) (row : S3Object) (w : World) : Type 0 where
  pub r : Rows
  pub f : Flags
  pub y : Option Text
  pub state : At (record { committed = r; session = r }) f (trio o b g (some s) y none) w
  pub current : Current bucket.id key n etag content_type row r

module _ (o b g : Text) (distinct : Distinct o b g) (k r : Rows) where
  -- What has been watched so far.
  abbrev During : Flags → Option Text → Option Text → Option Text → World → Type 0
  During f a y z = At (record { committed = k; session = r }) f (trio o b g a y z)

  moved_staged :
      {f : Flags} (s : Text) (x y : Option Text) (resource : Text)
      → Triple
          (During f x y (some s))
          (catch (rename g o) (λ e. raise {A = Unit {0}} (rename_conflict resource e)))
          (λ _. During f (some s) y none)
          (During f x y (some s))
  moved_staged {f} s x y resource =
      catching (published_lem distinct s x y) (λ e. raise_lem (rename_conflict resource e))

  backed_up :
      {f : Flags} (x y z : Option Text)
      → Triple (During f x y z) (copy o b) (λ _. During f x x z) (During f x y z)
  backed_up {f} x y z =
      subst
        (λ l.
          Triple (During f x y z) (copy o b) (λ _. At (record { committed = k; session = r }) f l)
            (During f x y z))
        (set_second distinct x x y z) (copy_lem o b x (inl (refl, refl)))

  -- Where the `try` raises.
  pub stopped :
      {A : Type 0} {P : Pred} {m : Io A} {Q : A → Pred} (x : Option Text) (ba wr : Bool)
      (a y z : Option Text)
      → (wr ≡ false → a ≡ x)
      → (ba ≡ true → y ≡ x)
      → (wr ≡ true → ba ≡ false → x ≡ none)
      → Triple P m Q (During (flags_of ba wr) a y z)
      → Triple P m Q (Stopped k o b g x)
  stopped x ba wr a y z unwritten saved unsaved t =
      weaken t (λ _ w h. h)
        (λ w h. record {
          f = flags_of ba wr;
          a = a;
          y = y;
          z = z;
          state = (r, h);
          unwritten = unwritten;
          saved = saved;
          unsaved = unsaved;
        })

-- What the branches leave: a row that is stored, or nothing done where no row is bound.
abbrev pub Published :
    Text
    → Text
    → Text
    → Rows
    → Option Text
    → S3Bucket
    → Text
    → ℕ
    → Text
    → Text
    → Text
    → Option S3Object
    → World
    → Type 0
Published o b g k x bucket key n etag content_type s none w =
    (r : Rows) × (y : Option Text) × At (record { committed = k; session = r }) no_flags
      (trio o b g x y (some s)) w
Published o b g k x bucket key n etag content_type s (some row) w =
    Stored o b g bucket key n etag content_type s row w

module _ (o b g : Text) (distinct : Distinct o b g) (k : Rows) (x : Option Text) (bucket : S3Bucket)
    (u : User) (key resource : Text) (n : ℕ) (etag content_type s : Text) where
  returned :
      (row : S3Object) (r : Rows) (f : Flags) (y : Option Text)
      → Current bucket.id key n etag content_type row r
      → Triple
          (At (record { committed = r; session = r }) f (trio o b g (some s) y none))
          (return (some row))
          (Published o b g k x bucket key n etag content_type s)
          (Stopped k o b g x)
  returned row r f y current = record {
    run = λ w h. record { r = r; f = f; y = y; state = h; current = current };
  }

  -- From the row on.
  written_lem :
      (r : Rows) (ba : Bool) (y : Option Text)
      → (ba ≡ true → y ≡ x)
      → (ba ≡ false → x ≡ none)
      → Triple
          (At (record { committed = k; session = r }) (flags_of ba false) (trio o b g x y (some s)))
          (upsert_object bucket u key n etag content_type none >>= λ s3_object.
            catch (rename g o) (λ e. raise (rename_conflict resource e))
            >> (set_written >> (commit >> return (some s3_object))))
          (Published o b g k x bucket key n etag content_type s)
          (Stopped k o b g x)
  written_lem r ba y saved unsaved =
      bind
        (stopped o b g distinct k r x ba false x y (some s) (λ e. refl) saved (λ e. ground arith)
          (upsert_object_lem bucket u key n etag content_type none))
        λ row. record {
          run = λ w (r', h, current).
              (after
                  (stopped o b g distinct k r' x ba false x y (some s) (λ e. refl) saved
                    (λ e. ground arith) (moved_staged o b g distinct k r' s x y resource))
                  λ _. after set_written_lem λ _.
                    after
                      (stopped o b g distinct k r' x ba true (some s) y none (λ e. ground arith)
                        saved (λ e. unsaved) commit_lem)
                      λ _. returned row r' (flags_of ba true) y current).run
                w h;
        }

  replace_object_lem :
      (r : Rows) (y : Option Text)
      → Triple
          (At (record { committed = k; session = r }) no_flags (trio o b g x y (some s)))
          (replace_object bucket u key resource o b g n etag content_type)
          (Published o b g k x bucket key n etag content_type s)
          (Stopped k o b g x)
  unfolding replace_object
  replace_object_lem r y = bind (unchanged (isfile_lem o x (inl (refl, refl)))) λ exists.
      given λ same.
        subst
          (λ e.
            Triple (At (record { committed = k; session = r }) no_flags (trio o b g x y (some s)))
              (when e (copy o b >> set_backup_created)
                >> (upsert_object bucket u key n etag content_type none >>= λ s3_object.
                    catch (rename g o) (λ e. raise (rename_conflict resource e))
                    >> (set_written >> (commit >> return (some s3_object)))))
              (Published o b g k x bucket key n etag content_type s) (Stopped k o b g x))
          (sym same) (by_payload x refl)
    where
      unchanged :
          {A : Type 0} {m : Io A} {Q : A → Pred}
          → Triple
              (At (record { committed = k; session = r }) no_flags (trio o b g x y (some s)))
              m
              Q
              (At (record { committed = k; session = r }) no_flags (trio o b g x y (some s)))
          → Triple
              (At (record { committed = k; session = r }) no_flags (trio o b g x y (some s)))
              m
              Q
              (Stopped k o b g x)
      unchanged t =
          stopped o b g distinct k r x false false x y (some s) (λ e. refl) (λ e. ground arith)
            (λ e. ground arith) t

      by_payload :
          (p : Option Text)
          → x ≡ p
          → Triple
              (At (record { committed = k; session = r }) no_flags (trio o b g x y (some s)))
              (when (is_file p) (copy o b >> set_backup_created)
                >> (upsert_object bucket u key n etag content_type none >>= λ s3_object.
                    catch (rename g o) (λ e. raise (rename_conflict resource e))
                    >> (set_written >> (commit >> return (some s3_object)))))
              (Published o b g k x bucket key n etag content_type s)
              (Stopped k o b g x)
      by_payload none e =
          after (return_lem tt) λ _. written_lem r false y (λ e. ground arith) (λ _. e)
      by_payload (some v) e =
          after
            (after (unchanged (backed_up o b g distinct k r x y (some s)))
              λ _. set_backup_created_lem)
            λ _. written_lem r true x (λ _. refl) (λ e. ground arith)

  pub publish_object_lem :
      (r : Rows) (y : Option Text)
      → Triple
          (At (record { committed = k; session = r }) no_flags (trio o b g x y (some s)))
          (publish_object bucket u key resource o b g n etag content_type)
          (Published o b g k x bucket key n etag content_type s)
          (Stopped k o b g x)
  unfolding publish_object
  publish_object_lem r y =
      if_lem
        (bucket.versioning_status == bucket_versioning_disabled && not bucket.object_lock_enabled)
        (replace_object_lem r y)
        (if_lem
          (bucket.versioning_status == bucket_versioning_enabled && bucket.object_lock_enabled)
          unbound
          (if_lem
            (bucket.versioning_status == bucket_versioning_enabled
              && not bucket.object_lock_enabled)
            unbound
            (if_lem
              (bucket.versioning_status == bucket_versioning_suspended
                && not bucket.object_lock_enabled)
              unbound
              (stopped o b g distinct k r x false false x y (some s) (λ e. refl) (λ e. ground arith)
                (λ e. ground arith) (raise_lem runtime_error)))))
    where
      unbound :
          Triple
            (At (record { committed = k; session = r }) no_flags (trio o b g x y (some s)))
            (return none)
            (Published o b g k x bucket key n etag content_type s)
            (Stopped k o b g x)
      unbound = record { run = λ w h. (r, y, h) }
