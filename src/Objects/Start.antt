-- ===== src/Objects/Start.antt =====
-- Before the `try` of a service that replaces a file: nothing has been changed, and the tokens give the
-- paths.
use hidden.Base.{ℕ, ◌≡◌, refl, sym, ap, ◌∙◌, inl, Option, none, some, List, Text}
use hidden.Errors.{Error, Result, ok, err}
use hidden.Files.{payload}
use hidden.Bucket.{S3Bucket, User, load_bucket}
use hidden.World.{tick, next_fault, later_faults, raise_fault, World, Rows, Io, go_on, lift}
use hidden.World.Triple.{Pred, Ends, Triple, weaken}
use hidden.Io.Laws.{At, Quiet, AllAvoid}
use hidden.Io.Laws.Three.{Distinct, trio}
use hidden.Io.Laws.Compensation.{Recovered}
use hidden.Objects.{find_bucket}

-- The file at `o` has the payload `x`, the paths differ, the tokens are `t`, none that `next`
-- leaves gives a temporary path that is one of the three, and no synchronisation of a directory is to fail.
pub record Poised (next : ℕ → ℕ) (t : ℕ → Text) (o b g : Text) (x : Option Text) (k r : Rows)
    (w : World) : Type 0 where
  pub held : payload o w.disk ≡ x
  pub distinct : Distinct o b g
  pub fresh : AllAvoid (λ m. w.tokens (next m)) (trio o b g none none none)
  pub synced : Quiet w.sync_faults
  pub tokens : w.tokens ≡ t
  pub committed : w.committed ≡ k
  pub session : w.rows ≡ r

module _ {next : ℕ → ℕ} {t : ℕ → Text} {o b g : Text} {x : Option Text} {k r : Rows} where
  later :
      (w : World) (fs : List (Option Error))
      → Poised next t o b g x k r w
      → Poised next t o b g x k r (record w { faults = fs })
  later w fs h = record {
    held = h.held;
    distinct = h.distinct;
    fresh = h.fresh;
    synced = h.synced;
    tokens = h.tokens;
    committed = h.committed;
    session = h.session;
  }

  -- Once the tokens have been taken.
  pub begun :
      (w : World)
      → Poised next t o b g x k r w
      → At
          (record { committed = k; session = r })
          w.flags
          (trio o b g x (payload b w.disk) (payload g w.disk))
          (record w { tokens = λ m. w.tokens (next m) })
  begun w h = record {
    files = (h.held, (refl, (refl, tt)));
    fresh = h.fresh;
    committed = h.committed;
    session = h.session;
    flags = refl;
    synced = h.synced;
  }

  pub lift_lem :
      {A : Type 0} (m : Result A)
      → Triple
          (Poised next t o b g x k r)
          (lift m)
          (λ a w. Poised next t o b g x k r w × (m ≡ ok a))
          (Poised next t o b g x k r)
  lift_lem (ok a) = record { run = λ w h. (h, refl) }
  lift_lem (err e) = record { run = λ w h. h }

  -- An exception has left the payload where it was.
  pub untouched :
      {A : Type 0} {P : Pred} {m : Io A} {Q : A → Pred}
      → Triple P m Q (Poised next t o b g x k r)
      → Triple P m Q (Recovered k o b x)
  untouched m = weaken m (λ _ w h. h) (λ w h. (h.committed, λ v e. inl (h.held ∙ e)))

  pub find_bucket_lem :
      (name resource : Text) (u : User)
      → Triple
          (Poised next t o b g x k r)
          (find_bucket name u resource)
          (λ bucket w.
            Poised next t o b g x k r w
            × (load_bucket r.buckets name u (some resource) ≡ ok bucket))
          (Poised next t o b g x k r)
  unfolding find_bucket tick
  find_bucket_lem name resource u = record { run = λ w h. ticked w h (next_fault w.faults) }
    where
      loaded :
          (w : World)
          → Poised next t o b g x k r w
          → (m : Result S3Bucket) → load_bucket r.buckets name u (some resource) ≡ m
          → Ends
              (λ bucket w.
                Poised next t o b g x k r w
                × (load_bucket r.buckets name u (some resource) ≡ ok bucket))
              (Poised next t o b g x k r)
              (m, w)
      loaded w h (ok bucket) e = (h, e)
      loaded w h (err e') e = h

      ticked :
          (w : World)
          → Poised next t o b g x k r w
          → (fault : Option Error)
          → Ends
              (λ bucket w.
                Poised next t o b g x k r w
                × (load_bucket r.buckets name u (some resource) ≡ ok bucket))
              (Poised next t o b g x k r)
              (go_on
                (λ _ w. (load_bucket w.rows.buckets name u (some resource), w))
                (raise_fault fault (record w { faults = later_faults w.faults })))
      ticked w h none =
          loaded (record w { faults = later_faults w.faults }) (later w (later_faults w.faults) h) _
            (ap (λ r'. load_bucket r'.buckets name u (some resource)) (sym h.session))
      ticked w h (some e) = later w (later_faults w.faults) h
