-- ===== src/Uploads/PartRecovery.antt =====
-- The handler of `multipart_upload`: the payload that the part had is at its path or at the backup's.
use hidden.Base.{
  ◌≡◌, refl, sym, subst, inl, inr, Bool, true, false, not, ◌&&◌, Option, none, some, Text, arith,
}
use hidden.World.{World, Rows, Flags, Io, ◌>>◌, attempt, when}
use hidden.World.Triple.{Pred, Triple, bind, after, weaken, from, catching, given}
use hidden.Io.{rename, delete}
use hidden.Io.Laws.Three.{Distinct, trio, Loose, drop_first, only_first, loosely, ==_sym}
use hidden.Io.Laws.Compensation.{
  Recovered, flags_lem, rolled_back, deleted, skipped, Somewhere, somewhere, either_lem,
  moved_back_lem,
}
use hidden.Uploads.Part.{reconcile_part}

-- Where the `try` may raise: once there is a backup it has the payload, and the part has none or
-- another.
pub record StoppedPart (k : Rows) (o b g : Text) (x : Option Text) (w : World) : Type 0 where
  pub f : Flags
  pub a : Option Text
  pub y : Option Text
  pub z : Option Text
  pub state : Loose k f (trio o b g a y z) w
  pub unmoved : f.backup_created ≡ false → f.written ≡ false → a ≡ x
  pub saved : f.backup_created ≡ true → (v : Text) × (x ≡ some v) × (y ≡ some v)
  pub unsaved : f.backup_created ≡ false → f.written ≡ true → x ≡ none

module _ {k : Rows} {f : Flags} {o b g : Text} (distinct : Distinct o b g) (x : Option Text) where
  moved_back :
      {R : World → Type 0} (v : Text) (a z : Option Text)
      → Triple
          (Loose k f (trio o b g a (some v) z))
          (attempt (rename b o))
          (λ _. Somewhere k f o b (some v))
          R
  moved_back v a z =
      catching
        (weaken (loosely (λ s. moved_back_lem distinct v a z))
          (λ _ w h. inl (only_first (o, some v) w h)) (λ w h. h))
        (λ e. from (λ w h. inr (only_first (b, some v) w (drop_first (o, a) w h))) skipped)

  -- The rest of the handler, by what the flags say.
  reconciled_part :
      (ba wr : Bool) (a y z : Option Text)
      → (ba ≡ false → wr ≡ false → a ≡ x)
      → (ba ≡ true → (v : Text) × (x ≡ some v) × (y ≡ some v))
      → (ba ≡ false → wr ≡ true → x ≡ none)
      → Triple
          (Loose k f (trio o b g a y z))
          (when (wr && not ba) (attempt (delete o))
            >> (when ba (attempt (rename b o)) >> attempt (delete g)))
          (λ _. Recovered k o b x)
          (Recovered k o b x)
  reconciled_part false false a y z unmoved saved unsaved =
      from
        (λ w h.
          only_first (o, x) w (subst (λ a'. Loose k f (trio o b g a' y z) w) (unmoved refl refl) h))
        (after skipped λ _. after skipped λ _.
          weaken (deleted g (==_sym o g distinct.og, tt)) (λ _ w h. somewhere k f o b x w (inl h))
            (λ w h. h))
  reconciled_part false true a y z unmoved saved unsaved =
      from (λ w h. drop_first (g, z) w (drop_first (b, y) w (drop_first (o, a) w h)))
        (after (deleted o tt) λ _. after skipped λ _.
          weaken (deleted g tt)
            (λ _ w (s, h). (h.committed, λ v e. ground (arith, unsaved refl refl, e))) (λ w h. h))
  reconciled_part true wr a y z unmoved saved unsaved =
      let (v, was, has) = saved refl in
      from (λ w h. subst (λ y'. Loose k f (trio o b g a y' z) w) has h)
        (subst
          (λ x'.
            Triple (Loose k f (trio o b g a (some v) z))
              (when (wr && false) (attempt (delete o))
                >> (attempt (rename b o) >> attempt (delete g)))
              (λ _. Recovered k o b x') (Recovered k o b x'))
          (sym was)
          (after (never (attempt (delete o)) wr) λ _. after (moved_back v a z) λ _.
            either_lem
              (weaken (deleted g (==_sym o g distinct.og, tt))
                (λ _ w h. somewhere k f o b (some v) w (inl h)) (λ w h. h))
              (weaken (deleted g (==_sym b g distinct.bg, tt))
                (λ _ w h. somewhere k f o b (some v) w (inr h)) (λ w h. h))))
    where
      never :
          {P R : Pred} (m : Io (Unit {0})) (wr : Bool) → Triple P (when (wr && false) m) (λ _. P) R
      never m true = skipped
      never m false = skipped

pub reconcile_part_lem :
    {k : Rows} {o b g : Text}
    → Distinct o b g
    → (x : Option Text)
    → Triple
        (StoppedPart k o b g x)
        (reconcile_part o b g)
        (λ _. Recovered k o b x)
        (Recovered k o b x)
unfolding reconcile_part
reconcile_part_lem {k} {o} {b} {g} distinct x = record {
  run = λ w st.
      (after rolled_back λ _. bind flags_lem λ f. given λ same.
          subst
            (λ f'.
              Triple (Loose k st.f (trio o b g st.a st.y st.z))
                (when (f'.written && not f'.backup_created) (attempt (delete o))
                  >> (when f'.backup_created (attempt (rename b o)) >> attempt (delete g)))
                (λ _. Recovered k o b x) (Recovered k o b x))
            (sym same)
            (reconciled_part distinct x st.f.backup_created st.f.written st.a st.y st.z st.unmoved
              st.saved st.unsaved)).run
        w st.state;
}
