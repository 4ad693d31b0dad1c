-- ===== src/Io/Laws/Compensation.antt =====
-- What the handlers of the services have in common: the rows are rolled back, and a payload that was
-- replaced is at its path or at its backup's.
use hidden.Base.{
  ◌≡◌, refl, ap, subst, ◌∙◌, ◌⊎◌, inl, inr, Option, none, some, [], ◌∷◌, Text, nat_eq, list_eq,
}
use hidden.Files.{payload}
use hidden.World.{World, Rows, Flags, Io, return, asks, attempt, rollback}
use hidden.World.Triple.{Pred, Triple, weaken}
use hidden.Io.{Stream, upload, until_empty, delete, rename}
use hidden.Io.Laws.{Tables, Watched, At, IsApart, set}
use hidden.Io.Laws.Streams.{joined}
use hidden.Io.Laws.Writes.{upload_lem}
use hidden.Io.Laws.Ops.{delete_lem, rollback_lem, rename_lem}
use hidden.Io.Laws.Three.{
  Distinct, trio, set_first, set_second, set_third, Loose, loosely, attempt_lem,
}

-- The payload `x` that there was is at one of two paths.
abbrev pub Intact : Text → Text → Option Text → World → Type 0
Intact o b x w = (v : Text) → x ≡ some v → (payload o w.disk ≡ some v) ⊎ (payload b w.disk ≡ some v)

-- The transaction has left the committed rows and that payload.
abbrev pub Recovered : Rows → Text → Text → Option Text → World → Type 0
Recovered k o b x w = (w.committed ≡ k) × Intact o b x w

pub flags_lem :
    {k : Rows} {f : Flags} {l : Watched} {R : Pred}
    → Triple (Loose k f l) (asks (λ w. w.flags)) (λ f' w. Loose k f l w × (f' ≡ f)) R
flags_lem = record { run = λ w (s, h). ((s, h), h.flags) }

pub rolled_back :
    {k : Rows} {f : Flags} {l : Watched} {R : Pred}
    → Triple (Loose k f l) (attempt rollback) (λ _. Loose k f l) R
rolled_back {k} =
    attempt_lem
      (record { run = λ w (s, h). (weaken rollback_lem (λ _ w h. (k, h)) (λ w h. (s, h))).run w h })

pub deleted :
    {k : Rows} {f : Flags} {l : Watched} {R : Pred} (p : Text)
    → IsApart p l
    → Triple (Loose k f l) (attempt (delete p)) (λ _. Loose k f l) R
deleted p apart = attempt_lem (loosely (λ s. delete_lem p apart))

pub skipped : {P R : Pred} → Triple P (return tt) (λ _. P) R
skipped = record { run = λ w h. h }

-- The old payload is at its path, or at that of the backup.
abbrev pub Somewhere : Rows → Flags → Text → Text → Option Text → World → Type 0
Somewhere k f o b x w = Loose k f ((o, x) ∷ []) w ⊎ Loose k f ((b, x) ∷ []) w

pub somewhere :
    (k : Rows) (f : Flags) (o b : Text) (x : Option Text) (w : World)
    → Somewhere k f o b x w
    → Recovered k o b x w
somewhere k f o b x w (inl (s, h)) = (h.committed, λ v e. inl (h.files.0 ∙ e))
somewhere k f o b x w (inr (s, h)) = (h.committed, λ v e. inr (h.files.0 ∙ e))

pub either_lem :
    {A : Type 0} {P P' R : Pred} {Q : A → Pred} {m : Io A}
    → Triple P m Q R
    → Triple P' m Q R
    → Triple (λ w. P w ⊎ P' w) m Q R
either_lem {P = P} {P' = P'} t t' = record {
  run = λ w h. elim h [ inl p ↦ t.run w p | inr p ↦ t'.run w p ];
}

-- Staging a body beside the files.
pub staged_lem :
    {c : Tables} {f : Flags} {o b g : Text}
    → Distinct o b g
    → (body : Stream) (x y z : Option Text)
    → Triple
        (At c f (trio o b g x y z))
        (upload body g)
        (λ _ w.
          (s : Text) × (joined (until_empty body) ≡ some s) × At c f (trio o b g x y (some s)) w)
        (At c f (trio o b g x y z))
staged_lem {c} {f} {g = g} distinct body x y z =
    weaken (upload_lem body g)
      (λ _ w (s, whole, h).
        (s, whole, subst (λ l. At c f l w) (set_third distinct (some s) x y z) h))
      (λ w h. h)

-- Publishing what is staged, and moving the file to its backup and back.
pub published_lem :
    {c : Tables} {f : Flags} {o b g : Text}
    → Distinct o b g
    → (s : Text) (x y : Option Text)
    → Triple
        (At c f (trio o b g x y (some s)))
        (rename g o)
        (λ _. At c f (trio o b g (some s) y none))
        (At c f (trio o b g x y (some s)))
published_lem {c} {f} {o} {b} {g} distinct s x y =
    subst
      (λ l.
        Triple (At c f (trio o b g x y (some s))) (rename g o) (λ _. At c f l)
          (At c f (trio o b g x y (some s))))
      (ap (set o (some s)) (set_third distinct none x y (some s))
        ∙ set_first distinct (some s) x y none)
      (rename_lem g o s (inr (inr (inl (refl, refl)))))

pub moved_aside_lem :
    {c : Tables} {f : Flags} {o b g : Text}
    → Distinct o b g
    → (v : Text) (y z : Option Text)
    → Triple
        (At c f (trio o b g (some v) y z))
        (rename o b)
        (λ _. At c f (trio o b g none (some v) z))
        (At c f (trio o b g (some v) y z))
moved_aside_lem {c} {f} {o} {b} {g} distinct v y z =
    subst
      (λ l.
        Triple (At c f (trio o b g (some v) y z)) (rename o b) (λ _. At c f l)
          (At c f (trio o b g (some v) y z)))
      (ap (set b (some v)) (set_first distinct none (some v) y z)
        ∙ set_second distinct (some v) none y z)
      (rename_lem o b v (inl (refl, refl)))

pub moved_back_lem :
    {c : Tables} {f : Flags} {o b g : Text}
    → Distinct o b g
    → (v : Text) (a z : Option Text)
    → Triple
        (At c f (trio o b g a (some v) z))
        (rename b o)
        (λ _. At c f (trio o b g (some v) none z))
        (At c f (trio o b g a (some v) z))
moved_back_lem {c} {f} {o} {b} {g} distinct v a z =
    subst
      (λ l.
        Triple (At c f (trio o b g a (some v) z)) (rename b o) (λ _. At c f l)
          (At c f (trio o b g a (some v) z)))
      (ap (set o (some v)) (set_second distinct none a (some v) z)
        ∙ set_first distinct (some v) a none z)
      (rename_lem b o v (inr (inl (refl, refl))))
