-- ===== src/Locks/Manager.antt =====
-- The state of `LockManager` and its operations. Each runs under the condition's own lock, so it is
-- one step; a task that waits has let go of that lock, and goes on in `resume` once notified.
use hidden.Base.{
  ℕ, ◌≡◌, Bool, true, false, ◌&&◌, Option, none, some, List, [], ◌∷◌, ◌++◌, map, ◌==◌, nat_eq,
  if◌then◌else◌, any,
}
use hidden.Locks.{LockType, LockResource, lock_type_eq, resource_eq, conflicts}

-- `owner` identifies the asyncio task.
pub record LockHolder : Type 0 where
  pub resource : LockResource
  pub lock_type : LockType
  pub owner : ℕ

-- A task in the loop of `_acquire`, waiting on the condition.
pub record Waiter : Type 0 where
  pub request : LockHolder
  pub notified : Bool

pub record LockManager : Type 0 where
  pub holders : List LockHolder
  pub waiters : List Waiter

abbrev pub init : LockManager
init = record { holders = []; waiters = [] }

unfoldable pub has_conflict : LockManager → LockResource → LockType → Bool
has_conflict m resource lock_type =
    any (λ holder. conflicts resource lock_type holder.resource holder.lock_type) m.holders

unfoldable pub has_owner_conflict : LockManager → LockResource → LockType → ℕ → Bool
has_owner_conflict m resource lock_type owner =
    any
      (λ holder.
        holder.owner == owner && conflicts resource lock_type holder.resource holder.lock_type)
      m.holders

-- How a call of `_acquire` leaves the first pass: `error` is its RuntimeError.
pub data Acquired : Type 0 where
  acquired waiting error : Acquired

unfoldable pub acquire : LockManager → LockHolder → Acquired × LockManager
acquire m h =
    if has_owner_conflict m h.resource h.lock_type h.owner
    then (error, m)
    else if has_conflict m h.resource h.lock_type
    then (
      waiting,
      record m { waiters = m.waiters ++ record { request = h; notified = false } ∷ [] },
    )
    else (acquired, record m { holders = m.holders ++ h ∷ [] })

-- The next round of the loop for the waiter between `before` and `after`.
unfoldable pub resume : LockManager → List Waiter → LockHolder → List Waiter → LockManager
resume m before h after =
    if has_conflict m h.resource h.lock_type
    then record m { waiters = before ++ (after ++ record { request = h; notified = false } ∷ []) }
    else record { holders = m.holders ++ h ∷ []; waiters = before ++ after }

-- `del` of the first holder that has the resource, the type and the owner.
unfoldable pub remove_holder : LockHolder → List LockHolder → Option (List LockHolder)
remove_holder h [] = none
remove_holder h (k ∷ ks) =
    let rest = remove_holder h ks in
    if k.resource == h.resource && (k.lock_type == h.lock_type && k.owner == h.owner)
    then some ks
    else elim rest [ none ↦ none | some others ↦ some (k ∷ others) ]

-- `notify_all`
abbrev pub notify : Waiter → Waiter
notify w = record w { notified = true }

-- `none` is the RuntimeError of a lock that is not held by the owner.
unfoldable pub release : LockManager → LockHolder → Option LockManager
release m h = elim (remove_holder h m.holders) [
  | none ↦ none
  | some others ↦ some (record { holders = others; waiters = map notify m.waiters })
]

-- What the tasks of the process can do, in any order.
pub data Step (m : LockManager) : LockManager → Type 0 where
  acquire_lock : (h : LockHolder) → Step m (acquire m h).1
  resume_wait :
      (before : List Waiter) (h : LockHolder) (after : List Waiter)
      → m.waiters ≡ before ++ record { request = h; notified = true } ∷ after
      → Step m (resume m before h after)
  cancel_wait :
      (before : List Waiter) (w : Waiter) (after : List Waiter)
      → m.waiters ≡ before ++ w ∷ after
      → Step m (record m { waiters = before ++ after })
  release_lock : (h : LockHolder) {n : LockManager} → release m h ≡ some n → Step m n

pub data Reach : LockManager → Type 0 where
  start : Reach init
  next : {m n : LockManager} → Reach m → Step m n → Reach n
