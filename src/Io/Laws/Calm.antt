-- ===== src/Io/Laws/Calm.antt =====
-- Where no call fails: each returns, and what it leaves is known.
use hidden.Base.{
  ℕ, zero, suc, ◌≡◌, refl, sym, ap, subst, ◌∙◌, true, false, Option, none, List, [], ◌∷◌, Text,
  ==_refl, nat_eq, list_eq, length, arith,
}
use hidden.Errors.{Error, Result, ok}
use hidden.Paths.Posix.{dirname, abspath}
use hidden.Files.{Disk, dir, find, put, is_directory, parent_dir, mkdir}
use hidden.Files.Laws.{find-put}
use hidden.World.{
  World, Rows, ◌>>=◌, ◌>>◌, return, lift, asks, tick, sync_tick, syscall, flush, commit, next_fault,
  later_faults, raise_fault, on_disk,
}
use hidden.World.Triple.{Pred, Ends, Triple, bind, after, given}
use hidden.Io.{Env, missing, make_all, sync_all, mktree, fsync_directory}

-- The files and the rows, with no call that is to fail but synchronisations of directories.
abbrev pub Calm : Disk → Rows → List (Option Error) → World → Type 0
Calm d r s w = (w.disk ≡ d) × (w.rows ≡ r) × (w.faults ≡ []) × (w.sync_faults ≡ s)

module _ {d : Disk} {r : Rows} {s : List (Option Error)} where
  pub still_tick : Triple (Calm d r s) tick (λ _. Calm d r s) (λ _. ⊥)
  unfolding tick
  still_tick = record {
    run = λ w (disk, rows, faults, sync). ticked w.faults w faults (disk, rows, sync);
  }
    where
      ticked :
          (fs : List (Option Error)) (w : World)
          → fs ≡ []
          → (w.disk ≡ d) × (w.rows ≡ r) × (w.sync_faults ≡ s)
          → Ends
              (λ _. Calm d r s)
              (λ _. ⊥)
              (raise_fault (next_fault fs) (record w { faults = later_faults fs }))
      ticked [] w e (disk, rows, sync) = (disk, rows, refl, sync)
      ticked (f ∷ fs) w e same = absurd (ground (arith, e))

  pub still_lift :
      {A : Type 0} (m : Result A) (a : A)
      → m ≡ ok a
      → Triple (Calm d r s) (lift m) (λ a' w. Calm d r s w × (a' ≡ a)) (λ _. ⊥)
  still_lift m a e =
      subst (λ m'. Triple (Calm d r s) (lift m') (λ a' w. Calm d r s w × (a' ≡ a)) (λ _. ⊥)) (sym e)
        (record { run = λ w h. (h, refl) })

  -- A selection that finds what is there.
  pub still_select :
      {A : Type 0} (f : Rows → Result A) (a : A)
      → f r ≡ ok a
      → Triple
          (Calm d r s)
          (tick >> (λ w. (f w.rows, w)))
          (λ a' w. Calm d r s w × (a' ≡ a))
          (λ _. ⊥)
  still_select {A} f a e = after still_tick λ _. record {
    run = λ w h.
        subst (λ m. Ends (λ a' w. Calm d r s w × (a' ≡ a)) (λ _. ⊥) (m, w)) (sym (ap f h.1 ∙ e))
          (h, refl);
  }

  pub still_syscall :
      (f : Disk → Result Disk) (d' : Disk)
      → f d ≡ ok d'
      → Triple (Calm d r s) (syscall f) (λ _. Calm d' r s) (λ _. ⊥)
  unfolding syscall
  still_syscall f d' e = after still_tick λ _. record {
    run = λ w (disk, rows, faults, sync).
        subst (λ m. Ends (λ _. Calm d' r s) (λ _. ⊥) (on_disk m w)) (sym (ap f disk ∙ e))
          (refl, rows, faults, sync);
  }

  pub still_flush : (g : Rows → Rows) → Triple (Calm d r s) (flush g) (λ _. Calm d (g r) s) (λ _. ⊥)
  unfolding flush
  still_flush g =
      after still_tick
        λ _. record { run = λ w (disk, rows, faults, sync). (disk, ap g rows, faults, sync) }

  pub still_commit : Triple (Calm d r s) commit (λ _. Calm d r s) (λ _. ⊥)
  unfolding commit
  still_commit = after still_tick λ _. record { run = λ w h. h }

module _ {d : Disk} {r : Rows} where
  still_fsync : (p : Text) → Triple (Calm d r []) (fsync_directory p) (λ _. Calm d r []) (λ _. ⊥)
  unfolding fsync_directory sync_tick
  still_fsync p = record {
    run = λ w (disk, rows, faults, sync). ticked w.sync_faults w sync (disk, rows, faults);
  }
    where
      ticked :
          (fs : List (Option Error)) (w : World)
          → fs ≡ []
          → (w.disk ≡ d) × (w.rows ≡ r) × (w.faults ≡ [])
          → Ends
              (λ _. Calm d r [])
              (λ _. ⊥)
              (raise_fault (next_fault fs) (record w { sync_faults = later_faults fs }))
      ticked [] w e (disk, rows, faults) = (disk, rows, faults, refl)
      ticked (f ∷ fs) w e same = absurd (ground (arith, e))

none_missing : (n : ℕ) (p : Text) (d : Disk) → is_directory p d ≡ true → missing n p d ≡ []
unfolding missing
none_missing zero p d h = refl
none_missing (suc n) p d h = rw h refl

-- A directory that is missing, in a parent that is there.
one_missing :
    (n : ℕ) (p : Text) (d : Disk)
    → is_directory p d ≡ false
    → is_directory (dirname p) d ≡ true
    → missing (suc n) p d ≡ p ∷ []
unfolding missing
one_missing n p d h parent = ground (arith, h, none_missing n (dirname p) d parent)

made :
    (p : Text) (d : Disk)
    → find p d ≡ none
    → is_directory (parent_dir p) d ≡ true
    → mkdir p d ≡ ok (put p dir d)
unfolding mkdir is_directory
made p d h parent = ground (arith, h, parent)

absent : (p : Text) (d : Disk) → find p d ≡ none → is_directory p d ≡ false
unfolding is_directory
absent p d h = rw h refl

pub there : (p : Text) (d : Disk) → is_directory p (put p dir d) ≡ true
unfolding is_directory
there p d = ground (arith, find-put p p dir d, ==_refl p)

-- Making a directory in one that is there.
pub still_mktree :
    {d : Disk} {r : Rows} (env : Env) (p : Text)
    → abspath env.cwd p ≡ p
    → find p d ≡ none
    → is_directory (dirname p) d ≡ true
    → is_directory (parent_dir p) d ≡ true
    → Triple (Calm d r []) (mktree env p) (λ _. Calm (put p dir d) r []) (λ _. ⊥)
unfolding mktree
still_mktree {d} {r} env p absolute free above parent =
    subst
      (λ q.
        Triple (Calm d r [])
          (asks (λ w. missing (suc (length q)) q w.disk) >>= λ created.
            make_all created >> sync_all created)
          (λ _. Calm (put p dir d) r []) (λ _. ⊥))
      (sym absolute)
      (bind listed λ created. given λ same.
        subst
          (λ c.
            Triple (Calm d r []) (make_all c >> sync_all c) (λ _. Calm (put p dir d) r []) (λ _. ⊥))
          (sym same)
          (after (after nothing λ _. still_syscall (mkdir p) (put p dir d) (made p d free parent))
            λ _. after nothing λ _. still_fsync (parent_dir p)))
  where
    listed :
        Triple
          (Calm d r [])
          (asks (λ w. missing (suc (length p)) p w.disk))
          (λ created w. Calm d r [] w × (created ≡ p ∷ []))
          (λ _. ⊥)
    listed = record {
      run = λ w h. (
        h,
        ap (missing (suc (length p)) p) h.0 ∙ one_missing (length p) p d (absent p d free) above,
      );
    }

    nothing : {P : Pred} → Triple P (return tt) (λ _. P) (λ _. ⊥)
    nothing = record { run = λ w h. h }
