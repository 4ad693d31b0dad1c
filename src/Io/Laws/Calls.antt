-- ===== src/Io/Laws/Calls.antt =====
-- One system call, and what a fault does.
use hidden.Base.{ℕ, ◌≡◌, ◌∙◌, inl, inr, Option, none, some, List, [], ◌∷◌, Text, All}
use hidden.Errors.{Error, Result, ok, Result-cases}
use hidden.Files.{Disk, payload, write_file, unlink, mkdir}
use hidden.Files.Laws.{payload-write_file, payload-unlink, payload-mkdir}
use hidden.World.{
  World, Flags, return, raise, next_fault, later_faults, raise_fault, tick, sync_tick, syscall,
}
use hidden.World.Triple.{Pred, Ends, Triple, after, weaken, from}
use hidden.Io.Laws.{
  Tables, Quiet, Watched, Stands, AllAvoid, AllAvoid-set, At, set, Changed, Changed-Stands,
}

-- The watched state, and something more about the files.
pub record With (c : Tables) (f : Flags) (l : Watched) (X : Disk → Type 0) (w : World)
    : Type 0 where
  pub state : At c f l w
  pub also : X w.disk

module _ {c : Tables} {f : Flags} {l : Watched} where
  At-faults :
      (w : World) (fs : List (Option Error)) → At c f l w → At c f l (record w { faults = fs })
  At-faults w fs h = record {
    files = h.files;
    fresh = h.fresh;
    committed = h.committed;
    session = h.session;
    flags = h.flags;
    synced = h.synced;
  }

  At-sync :
      (w : World) (fs : List (Option Error))
      → At c f l w
      → Quiet fs
      → At c f l (record w { sync_faults = fs })
  At-sync w fs h q = record {
    files = h.files;
    fresh = h.fresh;
    committed = h.committed;
    session = h.session;
    flags = h.flags;
    synced = q;
  }

  module _ {X : Disk → Type 0} where
    fault_with :
        (o : Option Error) (w : World)
        → With c f l X w
        → Ends (λ _. With c f l X) (At c f l) (raise_fault o w)
    fault_with none w h = h
    fault_with (some e) w h = h.state

    -- A call that fails by itself changes nothing.
    pub tick_with : Triple (With c f l X) tick (λ _. With c f l X) (At c f l)
    unfolding tick
    tick_with = record {
      run = λ w h.
          fault_with (next_fault w.faults) (record w { faults = later_faults w.faults })
            (record { state = At-faults w (later_faults w.faults) h.state; also = h.also });
    }

    sync_with :
        (fs : List (Option Error)) (w : World)
        → With c f l X w
        → Quiet fs
        → Ends
            (λ _. With c f l X)
            (λ _. ⊥)
            (raise_fault (next_fault fs) (record w { sync_faults = later_faults fs }))
    sync_with [] w h q = record { state = At-sync w [] h.state tt; also = h.also }
    sync_with (none ∷ fs) w h q = record { state = At-sync w fs h.state q; also = h.also }
    sync_with (some e ∷ fs) w h q = absurd q

    -- No synchronisation fails.
    pub sync_tick_with : Triple (With c f l X) sync_tick (λ _. With c f l X) (λ _. ⊥)
    unfolding sync_tick
    sync_tick_with = record { run = λ w h. sync_with w.sync_faults w h h.state.synced }

  pub plain : (w : World) → At c f l w → With c f l (λ _. Unit {0}) w
  plain w h = record { state = h; also = tt }

  pub tick_lem : Triple (At c f l) tick (λ _. At c f l) (At c f l)
  tick_lem = from plain (weaken tick_with (λ _ w h. h.state) (λ w h. h))

  pub sync_tick_lem : Triple (At c f l) sync_tick (λ _. At c f l) (λ _. ⊥)
  sync_tick_lem = from plain (weaken sync_tick_with (λ _ w h. h.state) (λ w h. h))

  pub return_lem : {A : Type 0} {R : Pred} (a : A) → Triple (At c f l) (return a) (λ _. At c f l) R
  return_lem a = record { run = λ w h. h }

  pub raise_lem :
      {A : Type 0} {Q : A → Pred} (e : Error) → Triple (At c f l) (raise {A = A} e) Q (At c f l)
  raise_lem e = record { run = λ w h. h }

-- What a call on the files does where it succeeds.
pub syscall_with :
    {c : Tables} {f : Flags} {l : Watched} (g : Disk → Result Disk) (X X' : Disk → Type 0)
    (l' : Watched)
    → ((tokens : ℕ → Text) → AllAvoid tokens l → AllAvoid tokens l')
    → ((d d' : Disk) → All (Stands d) l → X d → g d ≡ ok d' → All (Stands d') l' × X' d')
    → Triple (With c f l X) (syscall g) (λ _. With c f l' X') (At c f l)
unfolding syscall
syscall_with g X X' l' avoid change = after tick_with λ _. record {
  run = λ w h. elim (Result-cases (g w.disk)) [
    | inl (e, failed) ↦ rw failed h.state
    | inr (d, done) ↦ rw done (record {
      state = record {
        files = (change w.disk d h.state.files h.also done).0;
        fresh = avoid w.tokens h.state.fresh;
        committed = h.state.committed;
        session = h.state.session;
        flags = h.state.flags;
        synced = h.state.synced;
      };
      also = (change w.disk d h.state.files h.also done).1;
    })
  ];
}

module _ {c : Tables} {f : Flags} {l : Watched} where
  pub syscall_lem :
      (g : Disk → Result Disk) (l' : Watched)
      → ((tokens : ℕ → Text) → AllAvoid tokens l → AllAvoid tokens l')
      → ((d d' : Disk) → All (Stands d) l → g d ≡ ok d' → All (Stands d') l')
      → Triple (At c f l) (syscall g) (λ _. At c f l') (At c f l)
  syscall_lem g l' avoid change = from plain (
      weaken
        (syscall_with g (λ _. Unit {0}) (λ _. Unit {0}) l' avoid
          (λ d d' h x e. (change d d' h e, tt)))
        (λ _ w h. h.state) (λ w h. h))

  -- A call that changes the bytes at one path.
  pub syscall-Changed :
      (g : Disk → Result Disk) (p : Text) (s : Option Text)
      → ((d d' : Disk) → g d ≡ ok d' → Changed p s d d')
      → Triple (At c f l) (syscall g) (λ _. At c f (set p s l)) (At c f l)
  syscall-Changed g p s change =
      syscall_lem g (set p s l) (λ tokens. AllAvoid-set tokens p s l)
        (λ d d' h e. Changed-Stands p s l d d' (change d d' e) h)

  pub write_file-Changed :
      (p s : Text)
      → Triple (At c f l) (syscall (write_file p s)) (λ _. At c f (set p (some s) l)) (At c f l)
  write_file-Changed p s =
      syscall-Changed (write_file p s) p (some s) (λ d d' e q. payload-write_file p q s d d' e)

  pub unlink-Changed :
      (p : Text) → Triple (At c f l) (syscall (unlink p)) (λ _. At c f (set p none l)) (At c f l)
  unlink-Changed p = syscall-Changed (unlink p) p none (λ d d' e q. payload-unlink p q d d' e)

All-same :
    (l : Watched) (d d' : Disk)
    → ((q : Text) → payload q d' ≡ payload q d)
    → All (Stands d) l
    → All (Stands d') l
All-same [] d d' same h = tt
All-same ((q, t) ∷ l) d d' same h = (same q ∙ h.0, All-same l d d' same h.1)

pub mkdir_same :
    {c : Tables} {f : Flags} {l : Watched} (p : Text)
    → Triple (At c f l) (syscall (mkdir p)) (λ _. At c f l) (At c f l)
mkdir_same {l} p =
    syscall_lem (mkdir p) l (λ tokens h. h)
      (λ d d' h e. All-same l d d' (λ q. payload-mkdir p q d d' e) h)
