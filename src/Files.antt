-- ===== src/Files.antt =====
-- The file system as app/repositories/io.py uses it: what stands at each path, and what the system
-- calls do to it. A path is looked up as it is written; its parent has to be a directory.
pub mod Laws
use hidden.Base.{
  ℕ, zero, suc, ◌≡◌, refl, Bool, true, false, not, ◌&&◌, ◌||◌, Option, none, some, List, [], ◌∷◌,
  ◌++◌, map, Text, codes, ◌==◌, nat_eq, list_eq, if◌then◌else◌, any, starts_with, drop, length,
}
use hidden.Errors.{
  Error, file_not_found, file_exists, is_a_directory, not_a_directory, os_error, Result, ok, err,
}
use hidden.Paths.Posix.{dirname, sep}

pub data Node : Type 0 where
  file : Text → Node
  dir : Node

abbrev pub Disk : Type 0
Disk = List (Text × Node)

unfoldable pub find : Text → Disk → Option Node
find p [] = none
find p ((q, n) ∷ d) = let later = find p d in if q == p then some n else later

unfoldable pub erase : Text → Disk → Disk
erase p [] = []
erase p ((q, n) ∷ d) = let rest = erase p d in if q == p then rest else (q, n) ∷ rest

abbrev pub put : Text → Node → Disk → Disk
put p n d = (p, n) ∷ erase p d

-- The bytes of the regular file at a path.
abbrev bytes_of : Option Node → Option Text
bytes_of none = none
bytes_of (some dir) = none
bytes_of (some (file s)) = some s

unfoldable pub payload : Text → Disk → Option Text
payload p d = bytes_of (find p d)

abbrev is_dir : Option Node → Bool
is_dir none = false
is_dir (some dir) = true
is_dir (some (file s)) = false

unfoldable pub is_directory : Text → Disk → Bool
is_directory p d = is_dir (find p d)

-- `os.path.dirname(path) or "."`
unfoldable pub parent_dir : Text → Text
parent_dir path = if dirname path == [] then codes "." else dirname path

-- What is raised where the parent of a path is no directory.
abbrev in_directory {ℓ} : {A : Type ℓ} → Option Node → Result A → Result A
in_directory none r = err file_not_found
in_directory (some (file s)) r = err not_a_directory
in_directory (some dir) r = r

-- Opening a file for writing, writing the bytes and closing it.
abbrev write_over : Text → Text → Option Node → Disk → Result Disk
write_over p s (some dir) d = err is_a_directory
write_over p s none d = ok (put p (file s) d)
write_over p s (some (file old)) d = ok (put p (file s) d)

unfoldable pub write_file : Text → Text → Disk → Result Disk
write_file p s d = in_directory (find (parent_dir p) d) (write_over p s (find p d) d)

abbrev unlink_node : Text → Option Node → Disk → Result Disk
unlink_node p none d = err file_not_found
unlink_node p (some dir) d = err is_a_directory
unlink_node p (some (file s)) d = ok (erase p d)

unfoldable pub unlink : Text → Disk → Result Disk
unlink p d = unlink_node p (find p d) d

abbrev mkdir_node : Text → Option Node → Disk → Result Disk
mkdir_node p none d = ok (put p dir d)
mkdir_node p (some n) d = err file_exists

unfoldable pub mkdir : Text → Disk → Result Disk
mkdir p d = in_directory (find (parent_dir p) d) (mkdir_node p (find p d) d)

-- Whether a path lies below a directory.
abbrev pub is_below : Text → Text → Bool
is_below p q = starts_with (p ++ sep ∷ []) q

-- Whether a directory has entries.
unfoldable pub has_entries : Text → Disk → Bool
has_entries p [] = false
has_entries p ((q, n) ∷ d) = is_below p q || has_entries p d

-- The entries below a directory go with it.
unfoldable pub move_below : Text → Text → Disk → Disk
move_below p q [] = []
move_below p q ((r, n) ∷ d) =
    let rest = move_below p q d in
    if is_below p r then (q ++ drop (length p) r, n) ∷ rest else (r, n) ∷ rest

abbrev replace_directory : Text → Text → Option Node → Disk → Result Disk
replace_directory p q (some (file s)) d = err not_a_directory
replace_directory p q none d = ok (put q dir (erase p (move_below p q d)))
replace_directory p q (some dir) d =
    if has_entries q d then err os_error else ok (put q dir (erase p (move_below p q d)))

abbrev replace_file : Text → Text → Text → Option Node → Disk → Result Disk
replace_file p q s (some dir) d = err is_a_directory
replace_file p q s none d = ok (put q (file s) (erase p d))
replace_file p q s (some (file old)) d = ok (put q (file s) (erase p d))

abbrev replace_node : Text → Text → Option Node → Disk → Result Disk
replace_node p q none d = err file_not_found
replace_node p q (some dir) d = replace_directory p q (find q d) d
replace_node p q (some (file s)) d = replace_file p q s (find q d) d

-- `os.replace`, where the paths differ and neither lies below the other.
unfoldable pub replace : Text → Text → Disk → Result Disk
replace p q d = in_directory (find (parent_dir q) d) (replace_node p q (find p d) d)

abbrev rmdir_node : Text → Option Node → Disk → Result Disk
rmdir_node p none d = err file_not_found
rmdir_node p (some (file s)) d = err not_a_directory
rmdir_node p (some dir) d = if has_entries p d then err os_error else ok (erase p d)

unfoldable pub rmdir : Text → Disk → Result Disk
rmdir p d = rmdir_node p (find p d) d
