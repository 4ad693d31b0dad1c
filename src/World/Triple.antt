-- ===== src/World/Triple.antt =====
-- Reasoning about a call by what holds before it, after it returns and after it raises.
use hidden.Base.{Bool, true, false, if◌then◌else◌}
use hidden.Errors.{Error, Result, ok, err}
use hidden.World.{return, World, Io, go_on, ◌>>=◌, ◌>>◌, raise, handle, catch}

abbrev pub Pred : Type 1
Pred = World → Type 0

abbrev pub Ends : {A : Type 0} → (A → Pred) → Pred → Result A × World → Type 0
Ends Q R (ok a, w) = Q a w
Ends Q R (err e, w) = R w

-- From a world in `P`, the call returns a value in `Q` or raises in `R`.
pub record Triple {A : Type 0} (P : Pred) (m : Io A) (Q : A → Pred) (R : Pred) : Type 0 where
  pub run : (w : World) → P w → Ends Q R (m w)

go_on-Ends :
    {A B : Type 0} {R : Pred} {Q : A → Pred} {S : B → Pred} (k : A → Io B) (r : Result A × World)
    → ((a : A) → Triple (Q a) (k a) S R)
    → Ends Q R r
    → Ends S R (go_on k r)
go_on-Ends k (ok a, w) next q = (next a).run w q
go_on-Ends k (err e, w) next r = r

handle-Ends :
    {A : Type 0} {R T : Pred} {Q : A → Pred} (h : Error → Io A) (r : Result A × World)
    → ((e : Error) → Triple R (h e) Q T)
    → Ends Q R r
    → Ends Q T (handle h r)
handle-Ends h (ok a, w) next q = q
handle-Ends h (err e, w) next r = (next e).run w r

Ends-imp :
    {A : Type 0} {R R' : Pred} {Q Q' : A → Pred} (r : Result A × World)
    → ((a : A) (w : World) → Q a w → Q' a w)
    → ((w : World) → R w → R' w)
    → Ends Q R r
    → Ends Q' R' r
Ends-imp (ok a, w) f g q = f a w q
Ends-imp (err e, w) f g r = g w r

module _ {A B : Type 0} {P R : Pred} {Q : A → Pred} {S : B → Pred} {m : Io A} where
  pub bind :
      {k : A → Io B} → Triple P m Q R → ((a : A) → Triple (Q a) (k a) S R) → Triple P (m >>= k) S R
  bind {k} first next = record { run = λ w p. go_on-Ends k (m w) next (first.run w p) }

  pub after : {k : Io B} → Triple P m Q R → ((a : A) → Triple (Q a) k S R) → Triple P (m >> k) S R
  after {k} first next = record { run = λ w p. go_on-Ends (λ _. k) (m w) next (first.run w p) }

module _ {A : Type 0} {P : Pred} {m : Io A} where
  pub catching :
      {R T : Pred} {Q : A → Pred} {h : Error → Io A}
      → Triple P m Q R
      → ((e : Error) → Triple R (h e) Q T)
      → Triple P (catch m h) Q T
  catching {h} body handler = record { run = λ w p. handle-Ends h (m w) handler (body.run w p) }

  pub weaken :
      {R R' : Pred} {Q Q' : A → Pred}
      → Triple P m Q R
      → ((a : A) (w : World) → Q a w → Q' a w)
      → ((w : World) → R w → R' w)
      → Triple P m Q' R'
  weaken t f g = record { run = λ w p. Ends-imp (m w) f g (t.run w p) }

  pub from :
      {P' R : Pred} {Q : A → Pred} → ((w : World) → P' w → P w) → Triple P m Q R → Triple P' m Q R
  from f t = record { run = λ w p. t.run w (f w p) }

-- What does not depend on the world may be taken out of what holds before.
pub given :
    {A : Type 0} {X : Type 0} {P R : Pred} {m : Io A} {Q : A → Pred}
    → (X → Triple P m Q R)
    → Triple (λ w. P w × X) m Q R
given t = record { run = λ w (p, x). (t x).run w p }

pub if_lem :
    {A : Type 0} {P R : Pred} {Q : A → Pred} {m m' : Io A} (b : Bool)
    → Triple P m Q R
    → Triple P m' Q R
    → Triple P (if b then m else m') Q R
if_lem true t t' = t
if_lem false t t' = t'

pub raised : {A : Type 0} {P : Pred} {Q : A → Pred} (e : Error) → Triple P (raise {A = A} e) Q P
raised e = record { run = λ w h. h }

pub returned : {A : Type 0} {Q : A → Pred} {R : Pred} (a : A) → Triple (Q a) (return a) Q R
returned a = record { run = λ w h. h }
