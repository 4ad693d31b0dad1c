-- ===== src/Io/Laws/Session.antt =====
-- The file operations leave the rows alone, whatever fails.
use hidden.Base.{
  suc, ◌≡◌, refl, ap, inl, inr, Bool, not, Option, none, some, List, [], ◌∷◌, Text, ◌==◌, nat_eq,
  list_eq, length,
}
use hidden.Errors.{file_exists, Error, file_not_found, Result, Result-cases, ok, err}
use hidden.Paths.Posix.{path_join, abspath}
use hidden.Files.{find, Disk, parent_dir, unlink, replace, mkdir, rmdir}
use hidden.World.{
  World, Rows, Io, return, lift, asks, next_fault, later_faults, raise_fault, tick, sync_tick,
  syscall, uuid4, attempt, when, flush, commit, rollback,
}
use hidden.World.Triple.{raised, Ends, Triple, bind, after, weaken, catching, if_lem}
use hidden.Io.{
  Env, isfile, isdir, listdir, fsync_directory, mktree, make_all, make_above, is_there,
  forgive_existing, sync_all, missing, delete, unlinked, delete_all, rmtree, rmdir_synced, rename,
}

-- What is committed, and what the session sees.
abbrev pub OnRows : Rows → Rows → World → Type 0
OnRows k r w = (w.committed ≡ k) × (w.rows ≡ r)

-- A call that does nothing to the rows.
abbrev pub KeepsRows : {A : Type 0} → Io A → Type 0
KeepsRows m = (k r : Rows) → Triple (OnRows k r) m (λ _. OnRows k r) (OnRows k r)

fault_keeps :
    {k r : Rows} (o : Option Error) (w : World)
    → OnRows k r w
    → Ends (λ _. OnRows k r) (OnRows k r) (raise_fault o w)
fault_keeps none w h = h
fault_keeps (some e) w h = h

pub tick-KeepsRows : KeepsRows tick
unfolding tick
tick-KeepsRows k r = record {
  run = λ w h. fault_keeps (next_fault w.faults) (record w { faults = later_faults w.faults }) h;
}

pub fsync_directory-KeepsRows : (p : Text) → KeepsRows (fsync_directory p)
unfolding fsync_directory sync_tick
fsync_directory-KeepsRows p k r = record {
  run = λ w h.
      fault_keeps (next_fault w.sync_faults) (record w { sync_faults = later_faults w.sync_faults })
        h;
}

pub asks-KeepsRows : {A : Type 0} (f : World → A) → KeepsRows (asks f)
asks-KeepsRows f k r = record { run = λ w h. h }

pub return-KeepsRows : {A : Type 0} (a : A) → KeepsRows (return a)
return-KeepsRows a k r = record { run = λ w h. h }

pub syscall-KeepsRows : (f : Disk → Result Disk) → KeepsRows (syscall f)
unfolding syscall
syscall-KeepsRows f k r = after (tick-KeepsRows k r) λ _. record {
  run = λ w h. elim (Result-cases (f w.disk)) [
    | inl (e, failed) ↦ rw failed h
    | inr (d, done) ↦ rw done h
  ];
}

pub isdir-KeepsRows : (p : Text) → KeepsRows (isdir p)
unfolding isdir
isdir-KeepsRows p = asks-KeepsRows _

pub isfile-KeepsRows : (p : Text) → KeepsRows (isfile p)
unfolding isfile
isfile-KeepsRows p = asks-KeepsRows _

listdir-KeepsRows : (p : Text) → KeepsRows (listdir p)
unfolding listdir
listdir-KeepsRows p k r = after (tick-KeepsRows k r) λ _. looked _
  where
    looked :
        {A : Type 0} (f : World → Result A)
        → Triple (OnRows k r) (λ w. (f w, w)) (λ _. OnRows k r) (OnRows k r)
    looked f = record { run = λ w h. seen (f w) w h }
      where
        seen :
            {A : Type 0} (m : Result A) (w : World)
            → OnRows k r w
            → Ends (λ _. OnRows k r) (OnRows k r) (m, w)
        seen (ok a) w h = h
        seen (err e) w h = h

forgiven_existing : (e : Error) → KeepsRows (forgive_existing e)
forgiven_existing file_exists k r = return-KeepsRows tt k r
forgiven_existing e k r = raised e

make_above-KeepsRows : (ps : List Text) → KeepsRows (make_above ps)
make_above-KeepsRows [] k r = return-KeepsRows tt k r
make_above-KeepsRows (p ∷ ps) k r =
    bind (asks-KeepsRows (λ w. is_there (find p w.disk)) k r) λ there.
      if_lem there (return-KeepsRows tt k r) (
        catching (after (make_above-KeepsRows ps k r) λ _. syscall-KeepsRows (mkdir p) k r)
          (λ e. forgiven_existing e k r))

make_all-KeepsRows : (ps : List Text) → KeepsRows (make_all ps)
make_all-KeepsRows [] k r = return-KeepsRows tt k r
make_all-KeepsRows (p ∷ ps) k r =
    after (make_above-KeepsRows ps k r) λ _. syscall-KeepsRows (mkdir p) k r

sync_all-KeepsRows : (ps : List Text) → KeepsRows (sync_all ps)
sync_all-KeepsRows [] k r = return-KeepsRows tt k r
sync_all-KeepsRows (p ∷ ps) k r =
    after (sync_all-KeepsRows ps k r) λ _. fsync_directory-KeepsRows (parent_dir p) k r

pub mktree-KeepsRows : (env : Env) (p : Text) → KeepsRows (mktree env p)
unfolding mktree
mktree-KeepsRows env p k r =
    bind
      (asks-KeepsRows (λ w. missing (suc (length (abspath env.cwd p))) (abspath env.cwd p) w.disk) k
        r)
      λ created. after (make_all-KeepsRows created k r) λ _. sync_all-KeepsRows created k r

pub delete-KeepsRows : (p : Text) → KeepsRows (delete p)
unfolding delete
delete-KeepsRows p k r = record {
  run = λ w h. ended (syscall (unlink p) w) ((syscall-KeepsRows (unlink p) k r).run w h);
}
  where
    ended :
        (m : Result (Unit {0}) × World)
        → Ends (λ _. OnRows k r) (OnRows k r) m
        → Ends (λ _. OnRows k r) (OnRows k r) (unlinked p m)
    ended (ok u, w) h = (fsync_directory-KeepsRows (parent_dir p) k r).run w h
    ended (err file_not_found, w) h = h
    ended (err e, w) h = h

delete_all-KeepsRows : (p : Text) (names : List Text) → KeepsRows (delete_all p names)
delete_all-KeepsRows p [] k r = return-KeepsRows tt k r
delete_all-KeepsRows p (name ∷ names) k r =
    after (delete-KeepsRows (path_join p name) k r) λ _. delete_all-KeepsRows p names k r

pub rmdir_synced-KeepsRows : (p : Text) → KeepsRows (rmdir_synced p)
unfolding rmdir_synced
rmdir_synced-KeepsRows p k r =
    after (syscall-KeepsRows (rmdir p) k r) λ _. fsync_directory-KeepsRows (parent_dir p) k r

pub rmtree-KeepsRows : (p : Text) → KeepsRows (rmtree p)
unfolding rmtree
rmtree-KeepsRows p k r = bind (isdir-KeepsRows p k r) λ there.
    if_lem (not there) (return-KeepsRows tt k r) (
      bind (listdir-KeepsRows p k r)
        λ names. after (delete_all-KeepsRows p names k r) λ _. rmdir_synced-KeepsRows p k r)

pub rename-KeepsRows : (p q : Text) → KeepsRows (rename p q)
unfolding rename
rename-KeepsRows p q k r = after (syscall-KeepsRows (replace p q) k r) λ _.
    if_lem (parent_dir p == parent_dir q) (fsync_directory-KeepsRows (parent_dir q) k r) (
      after (fsync_directory-KeepsRows (parent_dir p) k r)
        λ _. fsync_directory-KeepsRows (parent_dir q) k r)

pub uuid4-KeepsRows : KeepsRows uuid4
unfolding uuid4
uuid4-KeepsRows k r = record { run = λ w h. h }

pub attempt-KeepsRows : (m : Io (Unit {0})) → KeepsRows m → KeepsRows (attempt m)
attempt-KeepsRows m t k r = catching (t k r) (λ e. return-KeepsRows tt k r)

pub when-KeepsRows : (b : Bool) (m : Io (Unit {0})) → KeepsRows m → KeepsRows (when b m)
when-KeepsRows b m t k r = if_lem b (t k r) (return-KeepsRows tt k r)

pub lift-KeepsRows : {A : Type 0} (m : Result A) → KeepsRows (lift m)
lift-KeepsRows (ok a) k r = record { run = λ w h. h }
lift-KeepsRows (err e) k r = record { run = λ w h. h }

pub flush-rows :
    {k r : Rows} (g : Rows → Rows)
    → Triple (OnRows k r) (flush g) (λ _. OnRows k (g r)) (OnRows k r)
unfolding flush
flush-rows {k} {r} g = after (tick-KeepsRows k r) λ _. record { run = λ w h. (h.0, ap g h.1) }

pub commit-rows : {k r : Rows} → Triple (OnRows k r) commit (λ _. OnRows r r) (OnRows k r)
unfolding commit
commit-rows {k} {r} = after (tick-KeepsRows k r) λ _. record { run = λ w h. (h.1, h.1) }

-- After an attempt to roll back, and attempts on the files, only what is committed is known.
abbrev pub Committed : Rows → World → Type 0
Committed k w = w.committed ≡ k

abbrev pub KeepsCommitted : {A : Type 0} → Io A → Type 0
KeepsCommitted m = (k : Rows) → Triple (Committed k) m (λ _. Committed k) (Committed k)

pub loosened : {A : Type 0} (m : Io A) → KeepsRows m → KeepsCommitted m
loosened m t k = record {
  run = λ w h. (weaken (t k w.rows) (λ _ w h. h.0) (λ w h. h.0)).run w (h, refl);
}

pub rollback-KeepsCommitted : KeepsCommitted (attempt rollback)
unfolding rollback
rollback-KeepsCommitted k =
    catching (after (loosened tick tick-KeepsRows k) λ _. record { run = λ w h. h })
      (λ e. record { run = λ w h. h })

pub held :
    {A : Type 0} {k r : Rows} (m : Io A)
    → KeepsRows m
    → Triple (OnRows k r) m (λ _. OnRows k r) (Committed k)
held {k = k} {r = r} m t = weaken (t k r) (λ _ w h. h) (λ w h. h.0)
