-- ===== src/Uploads/Selected.antt =====
-- What the session selects is of the rows that it sees.
use hidden.Base.{◌≡◌, sym, ap, some, Text}
use hidden.Errors.{Result, ok, err}
use hidden.Bucket.{User, load_bucket}
use hidden.World.{World, Rows, ◌>>◌, asks, tick}
use hidden.World.Triple.{Pred, Ends, Triple, after, weaken}
use hidden.Io.Laws.Session.{OnRows, Committed, tick-KeepsRows}
use hidden.Objects.{find_bucket}

pub selected :
    {A : Type 0} {k r : Rows} (f : Rows → Result A)
    → Triple
        (OnRows k r)
        (tick >> (λ w. (f w.rows, w)))
        (λ a w. OnRows k r w × (f r ≡ ok a))
        (OnRows k r)
selected {A} {k} {r} f =
    after (tick-KeepsRows k r) λ _. record { run = λ w h. seen (f w.rows) w h (ap f (sym h.1)) }
  where
    seen :
        (m : Result A) (w : World)
        → OnRows k r w
        → f r ≡ m
        → Ends (λ a w. OnRows k r w × (f r ≡ ok a)) (OnRows k r) (m, w)
    seen (ok a) w h e = (h, e)
    seen (err e') w h e = h

pub asked :
    {A : Type 0} {k r : Rows} {R : Pred} (f : World → A) (X : A → Type 0)
    → ((w : World) → X (f w))
    → Triple (OnRows k r) (asks f) (λ a w. OnRows k r w × X a) R
asked f X x = record { run = λ w h. (h, x w) }

pub find_bucket-rows :
    {k r : Rows} (name resource : Text) (u : User)
    → Triple
        (OnRows k r)
        (find_bucket name u resource)
        (λ b w. OnRows k r w × (load_bucket r.buckets name u (some resource) ≡ ok b))
        (Committed k)
unfolding find_bucket
find_bucket-rows name resource u =
    weaken (selected (λ r. load_bucket r.buckets name u (some resource))) (λ _ w h. h) (λ w h. h.0)
