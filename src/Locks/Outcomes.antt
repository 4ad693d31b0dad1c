-- ===== src/Locks/Outcomes.antt =====
-- How a call of `_acquire` ends, by the locks that are held.
use hidden.Base.{
  ◌≡◌, refl, ◌⊎◌, ◌↔◌, inl, inr, Bool, true, false, ◌&&◌, List, [], ◌∷◌, ◌==◌, if◌then◌else◌,
  nat_eq, ==_iff, any, arith, Bool-cases,
}
use hidden.Locks.{read, lock_type_eq, lock_type_beq_iff, resources_overlap, conflicts}
use hidden.Locks.Manager.{
  LockHolder, LockManager, has_conflict, has_owner_conflict, Acquired, acquired, waiting, error,
  acquire,
}

-- The two locks overlap and are not both READ.
abbrev pub Clashes : LockHolder → LockHolder → Type 0
Clashes h k =
    (resources_overlap h.resource k.resource ≡ true)
    × ¬ ((h.lock_type ≡ read) × (k.lock_type ≡ read))

-- Some lock that is held has the property.
abbrev pub IsHeld : (LockHolder → Type 0) → List LockHolder → Type 0
IsHeld P [] = ⊥
IsHeld P (k ∷ ks) = P k ⊎ IsHeld P ks

abbrev pub IsOwn : LockHolder → LockHolder → Type 0
IsOwn h k = (k.owner ≡ h.owner) × Clashes h k

any_iff :
    (p : LockHolder → Bool) (P : LockHolder → Type 0) (ks : List LockHolder)
    → ((k : LockHolder) → (p k ≡ true) ↔ P k)
    → (any p ks ≡ true) ↔ IsHeld P ks
any_iff p P [] h = (λ e. absurd (ground arith), λ e. absurd e)
any_iff p P (k ∷ ks) h = elim (Bool-cases (p k)) [
  | inl here ↦ (λ e. inl ((h k).0 here), λ e. ground (arith, here))
  | inr not_here ↦ (
    λ e. inr ((any_iff p P ks h).0 (ground (arith, not_here))),
    λ e. elim e [
      | inl held ↦ absurd (ground (arith, not_here, (h k).1 held))
      | inr held ↦ ground (arith, (any_iff p P ks h).1 held)
    ],
  )
]

conflicts_iff :
    (h k : LockHolder)
    → (conflicts h.resource h.lock_type k.resource k.lock_type ≡ true) ↔ Clashes h k
unfolding conflicts
conflicts_iff h k =
    ground (arith, lock_type_beq_iff h.lock_type read, lock_type_beq_iff k.lock_type read)

owner_iff :
    (h k : LockHolder)
    → (k.owner == h.owner && conflicts h.resource h.lock_type k.resource k.lock_type ≡ true)
      ↔ IsOwn h k
owner_iff h k = (
  λ e. ((==_iff k.owner h.owner).0 (ground arith), (conflicts_iff h k).0 (ground arith)),
  λ (same, clash). ground (arith, (==_iff k.owner h.owner).1 same, (conflicts_iff h k).1 clash),
)

IsOwn-Clashes :
    (h : LockHolder) (ks : List LockHolder) → IsHeld (IsOwn h) ks → IsHeld (Clashes h) ks
IsOwn-Clashes h [] held = held
IsOwn-Clashes h (k ∷ ks) (inl own) = inl own.1
IsOwn-Clashes h (k ∷ ks) (inr held) = inr (IsOwn-Clashes h ks held)

-- The two tests of `_acquire` in the order of the code.
abbrev verdict : Bool → Bool → LockManager → LockManager → LockManager → Acquired × LockManager
verdict own clash m w a = if own then (error, m) else if clash then (waiting, w) else (acquired, a)

-- What they mean for the three ends.
outcome :
    (own clash : Bool) {O C : Type 0} (m w a : LockManager)
    → (own ≡ true) ↔ O
    → (clash ≡ true) ↔ C
    → (O → C)
    → (((verdict own clash m w a).0 ≡ error) ↔ O)
      × (((verdict own clash m w a).0 ≡ waiting) ↔ (C × ¬ O))
      × (((verdict own clash m w a).0 ≡ acquired) ↔ ¬ C)
outcome true clash m w a o c sub = (
  (λ e. o.0 refl, λ e. refl),
  (λ e. absurd (ground arith), λ (held, none_own). absurd (none_own (o.0 refl))),
  (λ e. absurd (ground arith), λ free. absurd (free (sub (o.0 refl)))),
)
outcome false true m w a o c sub = (
  (λ e. absurd (ground arith), λ own. absurd (ground (arith, o.1 own))),
  (λ e. (c.0 refl, λ own. ground (arith, o.1 own)), λ e. refl),
  (λ e. absurd (ground arith), λ free. absurd (free (c.0 refl))),
)
outcome false false m w a o c sub = (
  (λ e. absurd (ground arith), λ own. absurd (ground (arith, o.1 own))),
  (λ e. absurd (ground arith), λ (held, none_own). absurd (ground (arith, c.1 held))),
  (λ e held. ground (arith, c.1 held), λ e. refl),
)

-- A call fails exactly if the task itself holds a lock that overlaps the requested one, unless both are
-- READ. It waits exactly if only other tasks hold such locks, and gets the lock exactly if none is held.
pub acquire_iff :
    (m : LockManager) (h : LockHolder)
    → (((acquire m h).0 ≡ error) ↔ IsHeld (IsOwn h) m.holders)
      × (((acquire m h).0 ≡ waiting)
          ↔ (IsHeld (Clashes h) m.holders × ¬ IsHeld (IsOwn h) m.holders))
      × (((acquire m h).0 ≡ acquired) ↔ ¬ IsHeld (Clashes h) m.holders)
unfolding acquire has_conflict has_owner_conflict
acquire_iff m h =
    outcome _ _ m _ _ (any_iff _ (IsOwn h) m.holders (owner_iff h))
      (any_iff _ (Clashes h) m.holders (conflicts_iff h)) (IsOwn-Clashes h m.holders)
