-- ===== src/Tests/Locking.antt =====
-- app/locks.py at concrete locks: two readers of one bucket, and a writer who waits for them.
use hidden.Base.{◌⊎◌, ◌≡◌, ◌↔◌, refl, true, false, some, List, [], ◌∷◌, map, Text, codes}
use hidden.Paths.Normal.{AreNames}
use hidden.Paths.Segments.{IsSegment}
use hidden.Locks.{
  build_directory_resource, LockType, read, write, LockResource, conflicts, resources_overlap,
}
use hidden.Locks.Overlap.{
  Region, subtree, file, IsRegion, resource_of, Covers, overlap_iff, conflicts_comm,
}
use hidden.Locks.Manager.{
  LockHolder, Waiter, LockManager, init, Acquired, waiting, acquired, error, acquire, resume,
  release, notify, has_conflict, has_owner_conflict, Reach, start, next, Step, acquire_lock,
  release_lock,
}
use hidden.Locks.Exclusion.{mutual_exclusion, no_lost_wakeup}
use hidden.Locks.Outcomes.{IsHeld, IsOwn, Clashes, acquire_iff}
use mathlib.Core.List.{Perm}
use hidden.Locks.Release.{release-acquire}

abbrev bucket : Region
bucket = subtree (codes "b" ∷ [])

abbrev object : Region
object = file (codes "b" ∷ []) (codes "o")

b-IsSegment : IsSegment (codes "b")
b-IsSegment = record { nonempty = refl; not_dot = refl; free = (refl, tt) }

o-IsSegment : IsSegment (codes "o")
o-IsSegment = record { nonempty = refl; not_dot = refl; free = (refl, tt) }

bucket-IsRegion : IsRegion bucket
bucket-IsRegion = (b-IsSegment, tt)

object-IsRegion : IsRegion object
object-IsRegion = ((b-IsSegment, tt), o-IsSegment)

abbrev first : LockHolder
first = record { resource = resource_of bucket; lock_type = read; owner = 1 }

abbrev second : LockHolder
second = record { resource = resource_of object; lock_type = read; owner = 2 }

abbrev writer : LockHolder
writer = record { resource = resource_of bucket; lock_type = write; owner = 3 }

abbrev readers : LockManager
readers = record { holders = first ∷ second ∷ []; waiters = [] }

abbrev one : LockManager
one = record { holders = first ∷ []; waiters = [] }

abbrev one_waits : LockManager
one_waits = record {
  holders = first ∷ [];
  waiters = record { request = writer; notified = false } ∷ [];
}

abbrev none_held : LockManager
none_held = record { holders = []; waiters = record { request = writer; notified = true } ∷ [] }

one-Reach : Reach one
unfolding acquire has_conflict has_owner_conflict
one-Reach = next start (acquire_lock first)

readers-Reach : Reach readers
unfolding acquire has_conflict has_owner_conflict conflicts resources_overlap
    hidden.Locks.directory_contains_file hidden.Locks.is_same_or_descendant_path
    hidden.Paths.Posix.commonpath hidden.Paths.Posix.path_join
readers-Reach = next one-Reach (acquire_lock second)

one_waits-Reach : Reach one_waits
unfolding acquire has_conflict has_owner_conflict conflicts resources_overlap
    hidden.Locks.is_same_or_descendant_directory hidden.Locks.is_same_or_descendant_path
    hidden.Paths.Posix.commonpath
one_waits-Reach = next one-Reach (acquire_lock writer)

first_released : release one_waits first ≡ some none_held
unfolding release hidden.Locks.Manager.remove_holder
first_released = refl

none_held-Reach : Reach none_held
none_held-Reach = next one_waits-Reach (release_lock first first_released)

writer_waits : (acquire one writer).0 ≡ waiting
unfolding acquire has_conflict has_owner_conflict conflicts resources_overlap
    hidden.Locks.is_same_or_descendant_directory hidden.Locks.is_same_or_descendant_path
    hidden.Paths.Posix.commonpath
writer_waits = refl

second_acquires : (acquire one second).0 ≡ acquired
unfolding acquire has_conflict has_owner_conflict conflicts resources_overlap
    hidden.Locks.directory_contains_file hidden.Locks.is_same_or_descendant_path
    hidden.Paths.Posix.commonpath hidden.Paths.Posix.path_join
second_acquires = refl

mutual_exclusion_example : (first.lock_type ≡ read) × (second.lock_type ≡ read)
mutual_exclusion_example =
    mutual_exclusion readers-Reach [] first [] second [] refl bucket object bucket-IsRegion
      object-IsRegion refl refl (codes "b" ∷ codes "o" ∷ []) (codes "o" ∷ [], refl) refl

no_lost_wakeup_example :
    (false ≡ true) ⊎ (has_conflict one_waits writer.resource writer.lock_type ≡ true)
no_lost_wakeup_example =
    no_lost_wakeup one_waits-Reach [] (record { request = writer; notified = false }) [] refl

overlap_iff_example :
    (resources_overlap (resource_of bucket) (resource_of object) ≡ true)
    ↔ ((p : List Text) × Covers bucket p × Covers object p)
overlap_iff_example = overlap_iff bucket object bucket-IsRegion object-IsRegion

conflicts_comm_example :
    conflicts (resource_of bucket) write (resource_of object) read
    ≡ conflicts (resource_of object) read (resource_of bucket) write
conflicts_comm_example = conflicts_comm (resource_of bucket) (resource_of object) write read

release-acquire_example :
    (n : LockManager) × (release (acquire one second).1 second ≡ some n)
    × Perm n.holders one.holders
    × (n.waiters ≡ map notify one.waiters)
release-acquire_example = release-acquire one second second_acquires

b-AreNames : AreNames (codes "b" ∷ [])
b-AreNames = record { segments = (b-IsSegment, tt); no_dotdot = (refl, tt) }

acquire_iff_example :
    (((acquire one writer).0 ≡ error) ↔ IsHeld (IsOwn writer) one.holders)
    × (((acquire one writer).0 ≡ waiting)
        ↔ (IsHeld (Clashes writer) one.holders × ¬ IsHeld (IsOwn writer) one.holders))
    × (((acquire one writer).0 ≡ acquired) ↔ ¬ IsHeld (Clashes writer) one.holders)
acquire_iff_example = acquire_iff one writer
