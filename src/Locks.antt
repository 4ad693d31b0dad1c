-- ===== src/Locks.antt =====
-- app/locks.py: the resources that locks are taken on and when two locks conflict.
pub mod Manager
pub mod Overlap
pub mod Exclusion
pub mod Release
pub mod Progress
pub mod Outcomes
use hidden.Base.{
  ℕ, ◌≡◌, refl, Bool, true, false, not, ◌&&◌, ◌||◌, Option, none, some, List, [], ◌∷◌, Text, Eq,
  ◌==◌, nat_eq, list_eq, option_eq, if◌then◌else◌, any, arith, ◌↔◌, ==_iff,
}
use hidden.Paths.Posix.{path_join, commonpath, normpath, abspath, dirname, basename}

pub data LockType : Type 0 where
  read : LockType
  write : LockType

-- A directory has no filename; a file is its directory and its filename.
pub record LockResource : Type 0 where
  pub directory : Text
  pub filename : Option Text

abbrev lock_type_beq : LockType → LockType → Bool
lock_type_beq read read = true
lock_type_beq write write = true
lock_type_beq _ _ = false

pub lock_type_beq_iff : (a b : LockType) → (lock_type_beq a b ≡ true) ↔ (a ≡ b)
lock_type_beq_iff read read = ground arith
lock_type_beq_iff read write = ground arith
lock_type_beq_iff write read = ground arith
lock_type_beq_iff write write = ground arith

instance abbrev pub lock_type_eq : Eq LockType
lock_type_eq = record { beq = lock_type_beq; beq_iff = lock_type_beq_iff }

abbrev resource_beq : LockResource → LockResource → Bool
resource_beq a b = a.directory == b.directory && a.filename == b.filename

pub resource_beq_iff : (a b : LockResource) → (resource_beq a b ≡ true) ↔ (a ≡ b)
resource_beq_iff a b = ground (arith, ==_iff a.directory b.directory, ==_iff a.filename b.filename)

instance abbrev pub resource_eq : Eq LockResource
resource_eq = record { beq = resource_beq; beq_iff = resource_beq_iff }

-- `cwd` is the working directory of the process.
unfoldable pub build_directory_resource : Text → Text → LockResource
build_directory_resource cwd dir_path = record {
  directory = abspath cwd (normpath dir_path);
  filename = none;
}

-- `none` is the ValueError of a path with no file name.
unfoldable pub build_file_resource : Text → Text → Option LockResource
build_file_resource cwd file_path =
    let path = abspath cwd (normpath file_path) in
    if basename path == []
    then none
    else some (record { directory = dirname path; filename = some (basename path) })

unfoldable pub is_same_or_descendant_path : Text → Text → Bool
is_same_or_descendant_path parent child = elim (commonpath parent child) [
  | none ↦ false
  | some path ↦ path == parent
]

unfoldable pub is_same_or_descendant_directory : Text → Text → Bool
is_same_or_descendant_directory parent child = is_same_or_descendant_path parent child

unfoldable pub directory_contains_file : Text → LockResource → Bool
directory_contains_file directory file_resource = elim file_resource.filename [
  | none ↦ false
  | some filename ↦
      is_same_or_descendant_path directory (path_join file_resource.directory filename)
]

unfoldable pub resources_overlap : LockResource → LockResource → Bool
resources_overlap requested held = elim requested.filename [
  | none ↦ elim held.filename [
    | none ↦
        is_same_or_descendant_directory requested.directory held.directory
        || is_same_or_descendant_directory held.directory requested.directory
    | some _ ↦ directory_contains_file requested.directory held
  ]
  | some name ↦ elim held.filename [
    | none ↦ directory_contains_file held.directory requested
    | some held_name ↦ requested.directory == held.directory && name == held_name
  ]
]

unfoldable pub conflicts : LockResource → LockType → LockResource → LockType → Bool
conflicts requested requested_type held held_type =
    if not (resources_overlap requested held)
    then false
    else not (requested_type == read && held_type == read)
