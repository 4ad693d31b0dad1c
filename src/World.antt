-- ===== src/World.antt =====
-- What a service runs in: the files, the rows as the session sees them and as they are committed, the
-- clock, the tokens that `uuid4` will give, and what will fail. A service returns or raises, and in
-- both cases leaves the world changed.
pub mod Triple
use hidden.Base.{
  ℕ, ℤ, zero, suc, ◌+◌, ◌≡◌, refl, Bool, true, false, not, Option, none, some, List, [], ◌∷◌, ◌++◌,
  Text, codes, if◌then◌else◌,
}
use hidden.Errors.{Error, Result, ok, err}
use hidden.Files.{Disk}
use hidden.Bucket.{S3Bucket}
use hidden.Multipart.{S3ObjectMultipart, S3ObjectMultipartPart}

-- A row of app/models/object.py.
pub record S3Object : Type 0 where
  pub id : ℕ
  pub bucket_id : ℕ
  pub user_id : ℕ
  pub created_at : ℕ
  pub modified_at : ℕ
  pub object_key : Text
  pub size_bytes : Option ℕ
  pub etag : Option Text
  pub content_type : Option Text
  pub version_uuid : Option Text
  pub delete_marker : Bool
  pub lock_mode : Option Text
  pub retain_until : Option ℤ
  pub legal_hold : Bool

-- The tables that the services use.
pub record Rows : Type 0 where
  pub buckets : List S3Bucket
  pub objects : List S3Object
  pub uploads : List S3ObjectMultipart
  pub parts : List S3ObjectMultipartPart
  pub next_id : ℕ

-- The local flags of the service that runs.
pub record Flags : Type 0 where
  pub backup_created : Bool
  pub written : Bool
  pub moved : Bool

-- `faults` has an entry for each system call and each call of the database that is still to come, and
-- `sync_faults` for each synchronisation of a directory: the exception that it raises, if any.
pub record World : Type 0 where
  pub disk : Disk
  pub rows : Rows
  pub committed : Rows
  pub flags : Flags
  pub now : ℕ
  pub tokens : ℕ → Text
  pub faults : List (Option Error)
  pub sync_faults : List (Option Error)

abbrev pub Io : Type 0 → Type 0
Io A = World → Result A × World

-- What follows a call that has ended.
abbrev pub go_on : {A B : Type 0} → (A → Io B) → Result A × World → Result B × World
go_on k (ok a, w) = k a w
go_on k (err e, w) = (err e, w)

infixl 5 ◌>>=◌ ◌>>◌
abbrev pub ◌>>=◌ : {A B : Type 0} → Io A → (A → Io B) → Io B
◌>>=◌ m k w = go_on k (m w)

abbrev pub ◌>>◌ : {A B : Type 0} → Io A → Io B → Io B
◌>>◌ m k w = go_on (λ _. k) (m w)

abbrev pub return : {A : Type 0} → A → Io A
return a w = (ok a, w)

abbrev pub raise : {A : Type 0} → Error → Io A
raise e w = (err e, w)

abbrev pub lift : {A : Type 0} → Result A → Io A
lift r w = (r, w)

abbrev pub asks : {A : Type 0} → (World → A) → Io A
asks f w = (ok (f w), w)

-- `except Exception`
abbrev pub handle : {A : Type 0} → (Error → Io A) → Result A × World → Result A × World
handle h (ok a, w) = (ok a, w)
handle h (err e, w) = h e w

abbrev pub catch : {A : Type 0} → Io A → (Error → Io A) → Io A
catch m h w = handle h (m w)

-- `try: ... except Exception: log.exception(...)`
abbrev pub attempt : Io (Unit {0}) → Io (Unit {0})
attempt m = catch m (λ _. return tt)

-- `try: m except Exception: log.exception(...) else: k`
abbrev pub or_else : Io (Unit {0}) → Result (Unit {0}) × World → Result (Unit {0}) × World
or_else k (ok u, w) = k w
or_else k (err e, w) = (ok tt, w)

abbrev pub try_else : Io (Unit {0}) → Io (Unit {0}) → Io (Unit {0})
try_else m k w = or_else k (m w)

-- `if b: m`
abbrev pub when : Bool → Io (Unit {0}) → Io (Unit {0})
when b m = if b then m else return tt

-- The next entry of a list of faults, and the others.
abbrev pub next_fault : List (Option Error) → Option Error
next_fault [] = none
next_fault (f ∷ fs) = f

abbrev pub later_faults : List (Option Error) → List (Option Error)
later_faults [] = []
later_faults (f ∷ fs) = fs

abbrev pub raise_fault : Option Error → Io (Unit {0})
raise_fault none = return tt
raise_fault (some e) = raise e

unfoldable pub tick : Io (Unit {0})
tick w = raise_fault (next_fault w.faults) (record w { faults = later_faults w.faults })

unfoldable pub sync_tick : Io (Unit {0})
sync_tick w =
    raise_fault (next_fault w.sync_faults) (record w { sync_faults = later_faults w.sync_faults })

-- A system call on the files, which may fail by itself.
abbrev pub on_disk : Result Disk → Io (Unit {0})
on_disk (ok d) w = (ok tt, record w { disk = d })
on_disk (err e) w = (err e, w)

unfoldable pub syscall : (Disk → Result Disk) → Io (Unit {0})
syscall f = tick >> (λ w. on_disk (f w.disk) w)

-- `uuid.uuid4().hex`
unfoldable pub uuid4 : Io Text
uuid4 w = (ok (w.tokens 0), record w { tokens = λ n. w.tokens (suc n) })

-- What the session sees is changed, or the call fails.
unfoldable pub flush : (Rows → Rows) → Io (Unit {0})
flush f = tick >> (λ w. (ok tt, record w { rows = f w.rows }))

unfoldable pub commit : Io (Unit {0})
commit = tick >> (λ w. (ok tt, record w { committed = w.rows }))

unfoldable pub rollback : Io (Unit {0})
rollback = tick >> (λ w. (ok tt, record w { rows = w.committed }))

abbrev pub no_flags : Flags
no_flags = record { backup_created = false; written = false; moved = false }

abbrev pub reset_flags : Io (Unit {0})
reset_flags w = (ok tt, record w { flags = no_flags })

abbrev pub set_backup_created : Io (Unit {0})
set_backup_created w = (ok tt, record w { flags = record w.flags { backup_created = true } })

abbrev pub set_written : Io (Unit {0})
set_written w = (ok tt, record w { flags = record w.flags { written = true } })

abbrev pub set_moved : Bool → Io (Unit {0})
set_moved b w = (ok tt, record w { flags = record w.flags { moved = b } })
