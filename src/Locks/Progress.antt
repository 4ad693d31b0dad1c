-- ===== src/Locks/Progress.antt =====
-- No deadlock: the tasks that hold locks can let every waiting task go on.
use hidden.Base.{◌≡◌, true, some, List, [], ◌∷◌, ◌++◌, map, nat_eq}
use hidden.Locks.{lock_type_eq, resource_eq}
use hidden.Locks.Manager.{LockHolder, Waiter, LockManager, resume, notify, release}

-- Releases of held locks and rounds of notified waiters, and no other step.
pub data Drains : LockManager → LockManager → Type 0 where
  drained : {m : LockManager} → Drains m m
  releases : {m n p : LockManager} (h : LockHolder) → release m h ≡ some n → Drains n p → Drains m p
  resumes :
      {m p : LockManager} (before : List Waiter) (h : LockHolder) (after : List Waiter)
      → m.waiters ≡ before ++ record { request = h; notified = true } ∷ after
      → Drains (resume m before h after) p
      → Drains m p

-- A waiter when the locks have been released one after the other.
abbrev woken : List LockHolder → Waiter → Waiter
woken [] w = w
woken (h ∷ hs) w = notify w

abbrev released : List LockHolder → List Waiter → LockManager
released hs ws = record { holders = []; waiters = map (woken hs) ws }
