-- ===== src/Locks/Release.antt =====
-- One call of `_acquire` or `_release`: whom it waits for, what it takes out.
use hidden.Base.{
  append-nil, ◌≡◌, option_eq, list_eq, refl, sym, ap, inl, inr, Bool, true, false, ◌&&◌, some, List,
  [], ◌∷◌, ◌++◌, map, ◌==◌, nat_eq, ==_iff, ==_refl, ◌≢◌, any, arith, Bool-cases, Option-cases,
}
use mathlib.Core.List.{Perm, append_cons_eq}
use hidden.Locks.{lock_type_eq, resource_eq, conflicts}
use hidden.Locks.Manager.{
  LockHolder, LockManager, has_conflict, has_owner_conflict, acquired, waiting, acquire,
  remove_holder, notify, release,
}

-- Whether the request conflicts with a lock that is held.
abbrev pub clashes : LockHolder → LockHolder → Bool
clashes h k = conflicts h.resource h.lock_type k.resource k.lock_type

-- Releasing takes out exactly one entry, and it is the one asked for.
pub remove_holder_lem :
    (h : LockHolder) (hs : List LockHolder) {others : List LockHolder}
    → remove_holder h hs ≡ some others
    → (before after : List LockHolder) × (hs ≡ before ++ h ∷ after) × (others ≡ before ++ after)
unfolding remove_holder
remove_holder_lem h [] e = cc
remove_holder_lem h (k ∷ ks) e =
    elim (Bool-cases
      (k.resource == h.resource && (k.lock_type == h.lock_type && k.owner == h.owner))) [
        | inl same ↦ (
          [],
          ks,
          ground (
            arith,
            ==_iff k.resource h.resource,
            ==_iff k.lock_type h.lock_type,
            ==_iff k.owner h.owner,
          ),
          ground arith,
        )
        | inr other ↦ elim (Option-cases (remove_holder h ks)) [
          | inl gone ↦ ground arith
          | inr (rest, found) ↦
              let (before, after, e₁, e₂) = remove_holder_lem h ks found in
              (k ∷ before, after, ap (λ r. k ∷ r) e₁, ground arith)
        ]
      ]

-- A held lock of another task that conflicts with the request.
pub record Blocker (h : LockHolder) (hs : List LockHolder) : Type 0 where
  pub before : List LockHolder
  pub holder : LockHolder
  pub after : List LockHolder
  pub listed : hs ≡ before ++ holder ∷ after
  pub other : holder.owner ≢ h.owner
  pub clash : clashes h holder ≡ true

find-Blocker :
    (h : LockHolder) (hs : List LockHolder)
    → any (λ k. k.owner == h.owner && clashes h k) hs ≡ false
    → any (clashes h) hs ≡ true
    → Blocker h hs
find-Blocker h [] own clash = cc
find-Blocker h (k ∷ hs) own clash = elim (Bool-cases (clashes h k)) [
  | inl here ↦ record {
    before = [];
    holder = k;
    after = hs;
    listed = refl;
    other = ground (arith, here);
    clash = here;
  }
  | inr not_here ↦
      let b = find-Blocker h hs (ground arith) (ground arith) in
      record {
        before = k ∷ b.before;
        holder = b.holder;
        after = b.after;
        listed = ap (λ r. k ∷ r) b.listed;
        other = b.other;
        clash = b.clash;
      }
]

-- A call that waits does so for a lock of another task: no task waits for itself.
waits_for_other :
    (m : LockManager) (h : LockHolder) → (acquire m h).0 ≡ waiting → Blocker h m.holders
unfolding acquire has_conflict has_owner_conflict
waits_for_other m h e = find-Blocker h m.holders (ground arith) (ground arith)

remove_holder-append :
    (h : LockHolder) (hs : List LockHolder)
    → (others : List LockHolder) × (remove_holder h (hs ++ h ∷ []) ≡ some others)
unfolding remove_holder
remove_holder-append h [] =
    ([], ground (arith, ==_refl h.resource, ==_refl h.lock_type, ==_refl h.owner))
remove_holder-append h (k ∷ hs) =
    let (others, found) = remove_holder-append h hs in
    elim (Bool-cases
      (k.resource == h.resource && (k.lock_type == h.lock_type && k.owner == h.owner))) [
        | inl same ↦ (hs ++ h ∷ [], rw same)
        | inr differ ↦ (k ∷ others, rw (differ, found))
      ]

-- Acquiring a lock and releasing it leaves the locks that were held before, in some order, and
-- notifies every waiter; the release does not fail.
pub release-acquire :
    (m : LockManager) (h : LockHolder)
    → (acquire m h).0 ≡ acquired
    → (n : LockManager) × (release (acquire m h).1 h ≡ some n)
      × Perm n.holders m.holders
      × (n.waiters ≡ map notify m.waiters)
unfolding acquire release
release-acquire m h e =
    let (others, found) = remove_holder-append h m.holders in
    let (before, after, e₁, e₂) = remove_holder_lem h (m.holders ++ h ∷ []) found in
    (
      record { holders = others; waiters = map notify m.waiters },
      ground (arith, found),
      rw e₂ (rw append-nil at (append_cons_eq h before after m.holders [] (sym e₁))),
      refl,
    )
