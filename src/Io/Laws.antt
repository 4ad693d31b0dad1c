-- ===== src/Io/Laws.antt =====
-- What the file operations do to the bytes of the files that a service watches, whichever calls fail,
-- if no synchronisation of a directory does.
pub mod Calls
pub mod Streams
pub mod Writes
pub mod Ops
pub mod Three
pub mod Compensation
pub mod Session
pub mod SessionWrites
pub mod Calm
use hidden.Base.{
  ℕ, ◌≡◌, refl, sym, ap, ◌∙◌, Bool, true, false, Option, none, some, List, [], ◌∷◌, ◌++◌, Text,
  codes, ◌==◌, nat_eq, list_eq, All, if◌then◌else◌, ends_with, arith,
}
use hidden.Errors.{Error}
use hidden.Files.{Disk, payload}
use hidden.World.{World, Rows, Flags}

abbrev pub Quiet : List (Option Error) → Type 0
Quiet [] = Unit
Quiet (none ∷ fs) = Quiet fs
Quiet (some e ∷ fs) = ⊥

-- The files that are watched, with their bytes.
abbrev pub Watched : Type 0
Watched = List (Text × Option Text)

abbrev pub Stands : Disk → Text × Option Text → Type 0
Stands d (p, s) = payload p d ≡ s

-- No temporary path of any token is the path.
abbrev pub Avoids : (ℕ → Text) → Text → Type 0
Avoids tokens p = (n : ℕ) → ends_with (tokens n ++ codes ".tmp") p ≡ false

abbrev pub AllAvoid : (ℕ → Text) → Watched → Type 0
AllAvoid tokens [] = Unit
AllAvoid tokens ((p, s) ∷ l) = Avoids tokens p × AllAvoid tokens l

-- The rows as they are committed, and as the session sees them.
pub record Tables : Type 0 where
  pub committed : Rows
  pub session : Rows

-- The watched files, the flags of the service and the rows have these values, and no
-- synchronisation is to fail.
pub record At (c : Tables) (f : Flags) (l : Watched) (w : World) : Type 0 where
  pub files : All (Stands w.disk) l
  pub fresh : AllAvoid w.tokens l
  pub committed : w.committed ≡ c.committed
  pub session : w.rows ≡ c.session
  pub flags : w.flags ≡ f
  pub synced : Quiet w.sync_faults

-- The bytes at one path are others.
abbrev pub set : Text → Option Text → Watched → Watched
set p s [] = []
set p s ((q, t) ∷ l) = (q, if p == q then s else t) ∷ set p s l

-- A disk that has changed at one path.
abbrev pub Changed : Text → Option Text → Disk → Disk → Type 0
Changed p s d d' = (q : Text) → payload q d' ≡ (if p == q then s else payload q d)

pub Changed-Stands :
    (p : Text) (s : Option Text) (l : Watched) (d d' : Disk)
    → Changed p s d d'
    → All (Stands d) l
    → All (Stands d') (set p s l)
Changed-Stands p s [] d d' h a = tt
Changed-Stands p s ((q, t) ∷ l) d d' h a =
    (h q ∙ ap (λ r. if p == q then s else r) a.0, Changed-Stands p s l d d' h a.1)

-- The path is none of those that are watched.
abbrev pub IsApart : Text → Watched → Type 0
IsApart p [] = Unit
IsApart p ((q, t) ∷ l) = ((p == q) ≡ false) × IsApart p l

pub set-apart : (p : Text) (s : Option Text) (l : Watched) → IsApart p l → set p s l ≡ l
set-apart p s [] h = refl
set-apart p s ((q, t) ∷ l) h = ground (arith, h.0, set-apart p s l h.1)

pub AllAvoid-set :
    (tokens : ℕ → Text) (p : Text) (s : Option Text) (l : Watched)
    → AllAvoid tokens l
    → AllAvoid tokens (set p s l)
AllAvoid-set tokens p s [] h = tt
AllAvoid-set tokens p s ((q, t) ∷ l) h = (h.0, AllAvoid-set tokens p s l h.1)
