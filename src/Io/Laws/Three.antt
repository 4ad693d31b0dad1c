-- ===== src/Io/Laws/Three.antt =====
-- A service that replaces a file watches the file, its backup and what is staged for it.
use hidden.Base.{
  ◌≡◌, refl, ap, Bool, true, false, Option, [], ◌∷◌, Text, nat_eq, list_eq, ◌==◌, ==_iff, ==_refl,
  arith,
}
use hidden.Errors.{Result, ok, err}
use hidden.World.{
  World, Rows, Flags, Io, attempt, try_else, or_else, when, set_backup_created, set_written,
  reset_flags, no_flags,
}
use hidden.World.Triple.{Pred, Ends, Triple, weaken, catching}
use hidden.Io.Laws.{Tables, Watched, At, set, IsApart}

pub ==_sym : (p q : Text) → (p == q) ≡ false → (q == p) ≡ false
==_sym p q h = ground (arith, h, ==_iff p q, ==_iff q p)

-- Three different paths.
pub record Distinct (o b g : Text) : Type 0 where
  pub ob : (o == b) ≡ false
  pub og : (o == g) ≡ false
  pub bg : (b == g) ≡ false

abbrev pub trio : Text → Text → Text → Option Text → Option Text → Option Text → Watched
trio o b g x y z = (o, x) ∷ ((b, y) ∷ ((g, z) ∷ []))

module _ {o b g : Text} (distinct : Distinct o b g) where
  pub set_first : (s x y z : Option Text) → set o s (trio o b g x y z) ≡ trio o b g s y z
  set_first s x y z = rw (==_refl o, distinct.ob, distinct.og) refl

  pub set_second : (s x y z : Option Text) → set b s (trio o b g x y z) ≡ trio o b g x s z
  set_second s x y z = rw (==_refl b, ==_sym o b distinct.ob, distinct.bg) refl

  pub set_third : (s x y z : Option Text) → set g s (trio o b g x y z) ≡ trio o b g x y s
  set_third s x y z = rw (==_refl g, ==_sym o g distinct.og, ==_sym b g distinct.bg) refl

  pub IsApart-backup : (x : Option Text) → IsApart b ((o, x) ∷ [])
  IsApart-backup x = (==_sym o b distinct.ob, tt)

  pub IsApart-staged : (x y : Option Text) → IsApart g ((o, x) ∷ ((b, y) ∷ []))
  IsApart-staged x y = (==_sym o g distinct.og, (==_sym b g distinct.bg, tt))

module _ {c : Tables} {f : Flags} {l : Watched} where
  pub set_backup_created_lem :
      {R : Pred}
      → Triple (At c f l) set_backup_created (λ _. At c (record f { backup_created = true }) l) R
  set_backup_created_lem = record {
    run = λ w h. record {
      files = h.files;
      fresh = h.fresh;
      committed = h.committed;
      session = h.session;
      flags = ap {A = Flags} {B = Flags} (λ f. record f { backup_created = true }) h.flags;
      synced = h.synced;
    };
  }

  pub set_written_lem :
      {R : Pred} → Triple (At c f l) set_written (λ _. At c (record f { written = true }) l) R
  set_written_lem = record {
    run = λ w h. record {
      files = h.files;
      fresh = h.fresh;
      committed = h.committed;
      session = h.session;
      flags = ap {A = Flags} {B = Flags} (λ f. record f { written = true }) h.flags;
      synced = h.synced;
    };
  }

  pub reset_flags_lem : {R : Pred} → Triple (At c f l) reset_flags (λ _. At c no_flags l) R
  reset_flags_lem = record {
    run = λ w h. record {
      files = h.files;
      fresh = h.fresh;
      committed = h.committed;
      session = h.session;
      flags = refl;
      synced = h.synced;
    };
  }

-- What is committed, whatever the session sees, with some flags and some files.
abbrev pub Loose : Rows → Flags → Watched → World → Type 0
Loose k f l w = (s : Rows) × At (record { committed = k; session = s }) f l w

-- Nothing more is said of the file at the head, or of the others.
pub drop_first :
    {k : Rows} {f : Flags} {l : Watched} (x : Text × Option Text) (w : World)
    → Loose k f (x ∷ l) w
    → Loose k f l w
drop_first x w (s, h) = (
  s,
  record {
    files = h.files.1;
    fresh = h.fresh.1;
    committed = h.committed;
    session = h.session;
    flags = h.flags;
    synced = h.synced;
  },
)

pub only_first :
    {k : Rows} {f : Flags} {l : Watched} (x : Text × Option Text) (w : World)
    → Loose k f (x ∷ l) w
    → Loose k f (x ∷ []) w
only_first x w (s, h) = (
  s,
  record {
    files = (h.files.0, tt);
    fresh = (h.fresh.0, tt);
    committed = h.committed;
    session = h.session;
    flags = h.flags;
    synced = h.synced;
  },
)

module _ {k : Rows} {f : Flags} where
  pub loosely :
      {l l' : Watched} {m : Io (Unit {0})}
      → ((s : Rows)
          → Triple
              (At (record { committed = k; session = s }) f l)
              m
              (λ _. At (record { committed = k; session = s }) f l')
              (At (record { committed = k; session = s }) f l))
      → Triple (Loose k f l) m (λ _. Loose k f l') (Loose k f l)
  loosely t = record { run = λ w (s, h). (weaken (t s) (λ _ w h. (s, h)) (λ w h. (s, h))).run w h }

-- An attempt keeps what its call keeps.
pub attempt_lem :
    {P R : Pred} {m : Io (Unit {0})} → Triple P m (λ _. P) P → Triple P (attempt m) (λ _. P) R
attempt_lem t = catching t (λ e. record { run = λ w h. h })

pub when_lem :
    {P R : Pred} {m : Io (Unit {0})} (b : Bool)
    → Triple P m (λ _. P) R
    → Triple P (when b m) (λ _. P) R
when_lem true t = t
when_lem false t = record { run = λ w h. h }

pub try_else_lem :
    {P R S : Pred} {Q : Pred} {m k : Io (Unit {0})}
    → Triple P m (λ _. Q) R
    → Triple Q k (λ _. S) S
    → ((w : World) → R w → S w)
    → Triple P (try_else m k) (λ _. S) S
try_else_lem {R = R} {S = S} {Q = Q} {m = m} {k = k} first next failed = record {
  run = λ w p. chosen (m w) (first.run w p);
}
  where
    chosen : (r : Result (Unit {0}) × World) → Ends (λ _. Q) R r → Ends (λ _. S) S (or_else k r)
    chosen (ok u, w) q = next.run w q
    chosen (err e, w) r = failed w r
