-- ===== src/Io.antt =====
-- app/repositories/io.py. A directory that has just been changed exists, so opening it to synchronise
-- it fails only by itself. Reading a file that is open does not fail, and its chunks are put together.
pub mod Laws
use hidden.Base.{
  ℕ, zero, suc, ◌+◌, ◌*◌, ◌≡◌, refl, Bool, true, false, not, ◌&&◌, Option, none, some, List, [],
  ◌∷◌, ◌++◌, map, Text, codes, ◌==◌, nat_eq, list_eq, if◌then◌else◌, take, length,
}
use hidden.Errors.{
  Error, file_not_found, file_exists, is_a_directory, not_a_directory, Result, ok, err,
}
use hidden.Paths.Posix.{path_join, dirname, basename, abspath}
use hidden.Files.{
  Node, file, dir, Disk, find, payload, is_directory, is_below, parent_dir, write_file, unlink,
  mkdir, replace, rmdir,
}
use hidden.World.{
  World, Io, go_on, ◌>>=◌, ◌>>◌, return, raise, lift, asks, catch, handle, tick, sync_tick, syscall,
  uuid4,
}

-- What the program takes from outside: its directories, the working directory, the MD5 digest in
-- hexadecimal, the guess of libmagic and filetype from a path and the first bytes of the file, and the
-- size that the system gives for a directory.
pub record Env : Type 0 where
  pub buckets_dir : Text
  pub tmp_dir : Text
  pub cwd : Text
  pub md5 : Text → Text
  pub detect : Text → Text → Option Text
  pub directory_size : ℕ

abbrev pub file_mimetype_read_bytes : ℕ
file_mimetype_read_bytes = 1024 * 16

-- What `read` gives, one call after the other; a stream ends at an empty chunk.
abbrev pub Stream : Type 0
Stream = List (Result Text)

abbrev pub is_file : Option Text → Bool
is_file none = false
is_file (some s) = true

unfoldable pub isfile : Text → Io Bool
isfile path = asks (λ w. is_file (payload path w.disk))

unfoldable pub isdir : Text → Io Bool
isdir path = asks (λ w. is_directory path w.disk)

abbrev size_of : Env → Option Node → Result ℕ
size_of env none = err file_not_found
size_of env (some dir) = ok env.directory_size
size_of env (some (file s)) = ok (length s)

unfoldable pub get_filesize : Env → Text → Io ℕ
get_filesize env path = tick >> (λ w. (size_of env (find path w.disk), w))

abbrev contents : Option Node → Result Text
contents none = err file_not_found
contents (some dir) = err is_a_directory
contents (some (file s)) = ok s

-- `iter_read`, and its chunks put together.
unfoldable pub iter_read : Text → Io Text
iter_read path = tick >> (λ w. (contents (find path w.disk), w))

unfoldable pub get_file_hash : Env → Text → Io Text
get_file_hash env path = iter_read path >>= λ s. return (env.md5 s)

-- A file that cannot be opened has no type.
abbrev pub mimetype : Env → Text → Result Text → Result (Option Text)
mimetype env path (ok s) = ok (env.detect path (take file_mimetype_read_bytes s))
mimetype env path (err file_not_found) = ok none
mimetype env path (err is_a_directory) = ok none
mimetype env path (err e) = err e

unfoldable pub get_mimetype : Env → Text → Io (Option Text)
get_mimetype env path w = let (r, w') = iter_read path w in (mimetype env path r, w')

-- The names of the entries of a directory.
abbrev names_below : Text → Disk → List Text
names_below path [] = []
names_below path ((q, n) ∷ d) =
    let rest = names_below path d in
    if parent_dir q == path && not (q == path) then basename q ∷ rest else rest

abbrev listing : Text → Option Node → Disk → Result (List Text)
listing path none d = err file_not_found
listing path (some (file s)) d = err not_a_directory
listing path (some dir) d = ok (names_below path d)

unfoldable pub listdir : Text → Io (List Text)
listdir path = tick >> (λ w. (listing path (find path w.disk) w.disk, w))

unfoldable pub fsync_directory : Text → Io (Unit {0})
fsync_directory path = sync_tick

-- The directories from a path up to the root, on fuel: a path is longer than its parent, unless it is
-- the root. The missing ones are those before the first that exists.
unfoldable pub missing : ℕ → Text → Disk → List Text
missing zero path d = []
missing (suc fuel) path d =
    let above = if dirname path == path then [] else missing fuel (dirname path) d in
    if is_directory path d then [] else path ∷ above

abbrev pub is_there : Option Node → Bool
is_there none = false
is_there (some n) = true

-- A parent that someone else has made is no failure of `os.makedirs`.
abbrev pub forgive_existing : Error → Io (Unit {0})
forgive_existing file_exists = return tt
forgive_existing e = raise e

-- `os.makedirs` on the missing directories: first the parents, up to one that exists in any form.
abbrev pub make_above : List Text → Io (Unit {0})
make_above [] = return tt
make_above (path ∷ above) = asks (λ w. is_there (find path w.disk)) >>= λ there.
    if there then return tt else catch (make_above above >> syscall (mkdir path)) forgive_existing

abbrev pub make_all : List Text → Io (Unit {0})
make_all [] = return tt
make_all (path ∷ above) = make_above above >> syscall (mkdir path)

abbrev sync_all : List Text → Io (Unit {0})
sync_all [] = return tt
sync_all (path ∷ above) = sync_all above >> fsync_directory (parent_dir path)

-- The program's directories are absolute, so that `os.makedirs` gets the same path.
unfoldable pub mktree : Env → Text → Io (Unit {0})
mktree env path =
    let cursor = abspath env.cwd path in
    asks (λ w. missing (suc (length cursor)) cursor w.disk) >>= λ created.
    make_all created >> sync_all created

unfoldable pub rmdir_synced : Text → Io (Unit {0})
rmdir_synced path = syscall (rmdir path) >> fsync_directory (parent_dir path)

-- A file that is not there any more is no failure of `unlink`.
abbrev pub forgive_missing : Error → Io (Unit {0})
forgive_missing file_not_found = return tt
forgive_missing e = raise e

-- `delete` returns before the synchronisation if the file was missing.
abbrev unlinked : Text → Result (Unit {0}) × World → Result (Unit {0}) × World
unlinked path (ok u, w) = fsync_directory (parent_dir path) w
unlinked path (err e, w) = forgive_missing e w

unfoldable pub delete : Text → Io (Unit {0})
delete path w = unlinked path (syscall (unlink path) w)

abbrev delete_all : Text → List Text → Io (Unit {0})
delete_all path [] = return tt
delete_all path (name ∷ names) = delete (path_join path name) >> delete_all path names

unfoldable pub rmtree : Text → Io (Unit {0})
rmtree path = isdir path >>= λ there.
    if not there
    then return tt
    else (listdir path >>= λ names. delete_all path names >> rmdir_synced path)

unfoldable pub rename : Text → Text → Io (Unit {0})
rename source destination =
    let source_parent = parent_dir source in
    let destination_parent = parent_dir destination in
    syscall (replace source destination)
    >> (if source_parent == destination_parent
        then fsync_directory destination_parent
        else (fsync_directory source_parent >> fsync_directory destination_parent))

unfoldable pub build_temp_path : Text → Text → Text
build_temp_path destination token =
    path_join (parent_dir destination)
      (codes "." ++ (basename destination ++ (codes "." ++ (token ++ codes ".tmp"))))

-- Writing at the end of the open file.
abbrev pub bytes_or_none : Option Text → Text
bytes_or_none none = []
bytes_or_none (some s) = s

unfoldable pub append_file : Text → Text → Disk → Result Disk
append_file path chunk d = write_file path (bytes_or_none (payload path d) ++ chunk) d

abbrev pub write_chunks : Text → Stream → Io (Unit {0})
write_chunks path [] = return tt
write_chunks path (err e ∷ rest) = raise e
write_chunks path (ok chunk ∷ rest) = syscall (append_file path chunk) >> write_chunks path rest

-- The inside of its `try`: the data are produced once the temporary file is open.
unfoldable pub write_stream : {A : Type 0} → Io (Stream × A) → Text → Text → Io A
write_stream produce temporary destination =
    syscall (write_file temporary [])
    >> (produce >>= λ (data_, result).
        write_chunks temporary data_
        >> (tick
            >> (tick
                >> (syscall (replace temporary destination)
                    >> (fsync_directory (parent_dir destination) >> return result)))))

unfoldable pub atomic_write_stream : {A : Type 0} → Io (Stream × A) → Text → Io A
atomic_write_stream produce destination = uuid4 >>= λ token.
    let temporary = build_temp_path destination token in
    catch (write_stream produce temporary destination)
      (λ e. catch (syscall (unlink temporary)) forgive_missing >> raise e)

-- The chunks before the first empty one.
abbrev pub until_empty : Stream → Stream
until_empty [] = []
until_empty (err e ∷ rest) = err e ∷ []
until_empty (ok [] ∷ rest) = []
until_empty (ok (c ∷ cs) ∷ rest) = ok (c ∷ cs) ∷ until_empty rest

unfoldable pub upload : Stream → Text → Io (Unit {0})
upload body destination = atomic_write_stream (return (until_empty body, tt)) destination

unfoldable pub copy : Text → Text → Io (Unit {0})
copy source destination =
    atomic_write_stream (iter_read source >>= λ s. return (ok s ∷ [], tt)) destination

-- The chunks of the sources, one after the other, and the digest of each.
abbrev pub sources_iter : Env → List Text → Io (Stream × List Text)
sources_iter env [] = return ([], [])
sources_iter env (source ∷ sources) = iter_read source >>= λ s.
    sources_iter env sources >>= λ (chunks, hashes). return (ok s ∷ chunks, env.md5 s ∷ hashes)

unfoldable pub concat : Env → List Text → Text → Io (List Text)
concat env sources destination = atomic_write_stream (sources_iter env sources) destination
