-- ===== src/Locks/Exclusion.antt =====
-- What holds of the lock manager after any interleaving of the tasks.
use hidden.Base.{
  Text, ◌≡◌, option_eq, list_eq, subst, refl, ap₂, ◌⊎◌, inl, inr, true, false, some, List, [], ◌∷◌,
  ◌++◌, map, nat_eq, any, any-append, All, All-append, All-of_append, All-imp, All-map, arith,
  Bool-cases, Option-cases,
}
use hidden.Locks.{read, lock_type_eq, lock_type_beq_iff, resource_eq, conflicts, resources_overlap}
use hidden.Locks.Overlap.{conflicts_comm, Region, IsRegion, Covers, resource_of, overlap_iff}
use hidden.Locks.Manager.{
  LockHolder, Waiter, LockManager, has_conflict, has_owner_conflict, acquire, resume, remove_holder,
  notify, release, Step, acquire_lock, resume_wait, cancel_wait, release_lock, Reach, start, next,
}
use hidden.Locks.Release.{clashes, remove_holder_lem}

-- The two holders do not conflict.
abbrev Apart : LockHolder → LockHolder → Type 0
Apart h k = conflicts h.resource h.lock_type k.resource k.lock_type ≡ false

-- No two holders conflict.
abbrev Exclusive : List LockHolder → Type 0
Exclusive [] = Unit
Exclusive (h ∷ hs) = All (Apart h) hs × Exclusive hs

-- A waiter that sleeps is blocked by a lock that is held now.
abbrev IsBlocked : List LockHolder → Waiter → Type 0
IsBlocked hs w = (w.notified ≡ true) ⊎ (any (clashes w.request) hs ≡ true)

record Inv (m : LockManager) : Type 0 where
  exclusive : Exclusive m.holders
  blocked : All (IsBlocked m.holders) m.waiters

Exclusive-append :
    (h : LockHolder) (hs : List LockHolder)
    → any (clashes h) hs ≡ false
    → Exclusive hs
    → Exclusive (hs ++ h ∷ [])
Exclusive-append h [] free ex = (tt, tt)
Exclusive-append h (k ∷ hs) free ex = (
  All-append (Apart k) hs (h ∷ []) ex.0
      (ground (arith, conflicts_comm h.resource k.resource h.lock_type k.lock_type), tt),
  Exclusive-append h hs (ground arith) ex.1,
)

All-remove {ℓ κ} :
    {A : Type ℓ} (P : A → Type κ) (before : List A) (x : A) (after : List A)
    → All P (before ++ x ∷ after)
    → All P (before ++ after)
All-remove P [] x after h = h.1
All-remove P (b ∷ before) x after h = (h.0, All-remove P before x after h.1)

Exclusive-remove :
    (before : List LockHolder) (h : LockHolder) (after : List LockHolder)
    → Exclusive (before ++ h ∷ after)
    → Exclusive (before ++ after)
Exclusive-remove [] h after ex = ex.1
Exclusive-remove (b ∷ before) h after ex =
    (All-remove (Apart b) before h after ex.0, Exclusive-remove before h after ex.1)

-- A waiter stays blocked when a lock is added.
IsBlocked-append :
    (hs : List LockHolder) (h : LockHolder) (w : Waiter)
    → IsBlocked hs w
    → IsBlocked (hs ++ h ∷ []) w
IsBlocked-append hs h w b = ground (arith, any-append (clashes w.request) hs (h ∷ []))

acquire-Inv : (m : LockManager) (h : LockHolder) → Inv m → Inv (acquire m h).1
unfolding acquire has_conflict
acquire-Inv m h inv = elim (Bool-cases (has_owner_conflict m h.resource h.lock_type h.owner)) [
  | inl own ↦ rw own inv
  | inr not_own ↦ elim (Bool-cases (any (clashes h) m.holders)) [
    | inl clash ↦
        rw (not_own, clash)
          (record {
            exclusive = inv.exclusive;
            blocked = All-append _ m.waiters _ inv.blocked (inr clash, tt);
          })
    | inr free ↦
        rw (not_own, free)
          (record {
            exclusive = Exclusive-append h m.holders free inv.exclusive;
            blocked = All-imp _ _ (IsBlocked-append m.holders h) m.waiters inv.blocked;
          })
  ]
]

resume-Inv :
    (m : LockManager) (before : List Waiter) (h : LockHolder) (after : List Waiter)
    → m.waiters ≡ before ++ record { request = h; notified = true } ∷ after
    → Inv m
    → Inv (resume m before h after)
unfolding resume has_conflict
resume-Inv m before h after e inv = elim (Bool-cases (any (clashes h) m.holders)) [
  | inl clash ↦ rw clash (record {
    exclusive = inv.exclusive;
    blocked = All-append _ before _ others.0 (All-append _ after _ others.1 (inr clash, tt));
  })
  | inr free ↦ rw free (record {
    exclusive = Exclusive-append h m.holders free inv.exclusive;
    blocked =
        All-imp _ _ (IsBlocked-append m.holders h) (before ++ after)
          (All-append _ before after others.0 others.1);
  })
]
  where
    others : All (IsBlocked m.holders) before × All (IsBlocked m.holders) after
    others = All-of_append _ before after (
        All-remove (IsBlocked m.holders) before _ after
          (subst (All (IsBlocked m.holders)) e inv.blocked))

release-Inv : (m n : LockManager) (h : LockHolder) → release m h ≡ some n → Inv m → Inv n
unfolding release
release-Inv m n h e inv = elim (Option-cases (remove_holder h m.holders)) [
  | inl gone ↦ absurd (ground arith)
  | inr (others, found) ↦
      let (before, after, e₁, e₂) = remove_holder_lem h m.holders found in
      let done : n ≡ record { holders = others; waiters = map notify m.waiters } = ground arith in
      rw done (record {
        exclusive = rw e₂ (Exclusive-remove before h after (subst Exclusive e₁ inv.exclusive));
        blocked = All-map _ notify m.waiters (λ w. inl refl);
      })
]

Step-Inv : {m n : LockManager} → Step m n → Inv m → Inv n
Step-Inv {m} (acquire_lock h) inv = acquire-Inv m h inv
Step-Inv {m} (resume_wait before h after e) inv = resume-Inv m before h after e inv
Step-Inv {m} (cancel_wait before w after e) inv = record {
  exclusive = inv.exclusive;
  blocked =
      All-remove (IsBlocked m.holders) before w after
        (subst (All (IsBlocked m.holders)) e inv.blocked);
}
Step-Inv {m} {n} (release_lock h e) inv = release-Inv m n h e inv

Reach-Inv : {m : LockManager} → Reach m → Inv m
Reach-Inv start = record { exclusive = tt; blocked = tt }
Reach-Inv (next r s) = Step-Inv s (Reach-Inv r)

Exclusive-split :
    (before : List LockHolder) (h : LockHolder) (between : List LockHolder) (k : LockHolder)
    (after : List LockHolder)
    → Exclusive (before ++ h ∷ (between ++ k ∷ after))
    → Apart h k
Exclusive-split [] h between k after ex = (All-of_append (Apart h) between _ ex.0).1.0
Exclusive-split (b ∷ before) h between k after ex = Exclusive-split before h between k after ex.1

-- Two entries of the holders whose resources are absolute paths in normal form, with one leading slash,
-- and protect a common path are both READ locks, after any interleaving of acquisitions, waits,
-- cancellations and releases.
pub mutual_exclusion :
    {m : LockManager}
    → Reach m
    → (before : List LockHolder) (h : LockHolder) (between : List LockHolder) (k : LockHolder)
      (after : List LockHolder)
    → m.holders ≡ before ++ h ∷ (between ++ k ∷ after)
    → (a b : Region) → IsRegion a
    → IsRegion b
    → h.resource ≡ resource_of a
    → k.resource ≡ resource_of b
    → (p : List Text) → Covers a p
    → Covers b p
    → (h.lock_type ≡ read) × (k.lock_type ≡ read)
unfolding conflicts
mutual_exclusion r before h between k after e a b ha hb ea eb p ca cb = ground (
  arith,
  Exclusive-split before h between k after (subst Exclusive e (Reach-Inv r).exclusive),
  ap₂ resources_overlap ea eb,
  (overlap_iff a b ha hb).1 (p, ca, cb),
  lock_type_beq_iff h.lock_type read,
  lock_type_beq_iff k.lock_type read,
)

-- A wakeup is never lost: in every reachable state a task that still waits has been notified, or
-- a lock that is held now conflicts with the one it waits for.
pub no_lost_wakeup :
    {m : LockManager}
    → Reach m
    → (before : List Waiter) (w : Waiter) (after : List Waiter) → m.waiters ≡ before ++ w ∷ after
    → (w.notified ≡ true) ⊎ (has_conflict m w.request.resource w.request.lock_type ≡ true)
unfolding has_conflict
no_lost_wakeup {m} r before w after e =
    (All-of_append (IsBlocked m.holders) before (w ∷ after)
      (subst (All (IsBlocked m.holders)) e (Reach-Inv r).blocked)).1.0
