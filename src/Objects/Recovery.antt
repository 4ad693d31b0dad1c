-- ===== src/Objects/Recovery.antt =====
-- The handler of `object_upload`: the payload that the key had is at its path or at the backup's.
use hidden.Base.{
  ◌≡◌, refl, sym, subst, inl, inr, Bool, true, false, not, ◌&&◌, Option, none, Text, arith,
}
use hidden.World.{World, Rows, Flags, ◌>>◌, attempt, try_else, when}
use hidden.World.Triple.{Triple, bind, after, weaken, from, given}
use hidden.Io.{copy, delete}
use hidden.Io.Laws.{At}
use hidden.Io.Laws.Ops.{copy_lem}
use hidden.Io.Laws.Three.{
  ==_sym, Distinct, trio, set_first, IsApart-backup, Loose, drop_first, only_first, loosely,
  when_lem, try_else_lem,
}
use hidden.Objects.Upload.{reconcile}
use hidden.Io.Laws.Compensation.{
  Recovered, flags_lem, rolled_back, deleted, skipped, Somewhere, somewhere, either_lem,
}

-- Where the `try` may raise: the flags say what has become of the payload.
pub record Stopped (k : Rows) (o b g : Text) (x : Option Text) (w : World) : Type 0 where
  pub f : Flags
  pub a : Option Text
  pub y : Option Text
  pub z : Option Text
  pub state : Loose k f (trio o b g a y z) w
  pub unwritten : f.written ≡ false → a ≡ x
  pub saved : f.backup_created ≡ true → y ≡ x
  pub unsaved : f.written ≡ true → f.backup_created ≡ false → x ≡ none

module _ {k : Rows} {f : Flags} {o b g : Text} (distinct : Distinct o b g) (x : Option Text) where
  restored :
      (a z : Option Text)
      → Triple
          (Loose k f (trio o b g a x z))
          (try_else (copy b o) (attempt (delete b)))
          (λ _. Somewhere k f o b x)
          (Somewhere k f o b x)
  restored a z =
      try_else_lem
        (loosely (λ s.
          subst
            (λ l.
              Triple (At (record { committed = k; session = s }) f (trio o b g a x z)) (copy b o)
                (λ _. At (record { committed = k; session = s }) f l)
                (At (record { committed = k; session = s }) f (trio o b g a x z)))
            (set_first distinct x a x z) (copy_lem b o x (inr (inl (refl, refl))))))
        (from (only_first (o, x))
          (weaken (deleted b (IsApart-backup distinct x)) (λ _ w h. inl h) (λ w h. inl h)))
        (λ w h. inr (only_first (b, x) w (drop_first (o, a) w h)))

  -- The rest of the handler, by what the flags say.
  reconciled :
      (wr ba : Bool) (a y z : Option Text)
      → (wr ≡ false → a ≡ x)
      → (ba ≡ true → y ≡ x)
      → (wr ≡ true → ba ≡ false → x ≡ none)
      → Triple
          (Loose k f (trio o b g a y z))
          (when (wr && not ba) (attempt (delete o))
            >> (when (wr && ba) (try_else (copy b o) (attempt (delete b)))
                >> (when (ba && not wr) (attempt (delete b)) >> attempt (delete g))))
          (λ _. Recovered k o b x)
          (Recovered k o b x)
  reconciled false ba a y z unwritten saved unsaved = after skipped λ _. after skipped λ _.
      from
        (λ w h.
          only_first (o, x) w (subst (λ a'. Loose k f (trio o b g a' y z) w) (unwritten refl) h))
        (after (when_lem (ba && true) (deleted b (IsApart-backup distinct x))) λ _.
          weaken (deleted g (==_sym o g distinct.og, tt)) (λ _ w h. somewhere k f o b x w (inl h))
            (λ w h. h))
  reconciled true false a y z unwritten saved unsaved =
      from (λ w h. drop_first (g, z) w (drop_first (b, y) w (drop_first (o, a) w h)))
        (after (deleted o tt) λ _. after skipped λ _. after skipped λ _.
          weaken (deleted g tt)
            (λ _ w (s, h). (h.committed, λ v e. ground (arith, unsaved refl refl, e))) (λ w h. h))
  reconciled true true a y z unwritten saved unsaved = after skipped λ _.
      after
        (from (λ w h. subst (λ y'. Loose k f (trio o b g a y' z) w) (saved refl) h)
          (weaken (restored a z) (λ _ w h. h) (somewhere k f o b x)))
        λ _. after skipped λ _.
          either_lem
            (weaken (deleted g (==_sym o g distinct.og, tt))
              (λ _ w h. somewhere k f o b x w (inl h)) (λ w h. h))
            (weaken (deleted g (==_sym b g distinct.bg, tt))
              (λ _ w h. somewhere k f o b x w (inr h)) (λ w h. h))

pub reconcile_lem :
    {k : Rows} {o b g : Text}
    → Distinct o b g
    → (x : Option Text)
    → Triple (Stopped k o b g x) (reconcile o b g) (λ _. Recovered k o b x) (Recovered k o b x)
unfolding reconcile
reconcile_lem {k} {o} {b} {g} distinct x = record {
  run = λ w st.
      (after rolled_back λ _. bind flags_lem λ f. given λ same.
          subst
            (λ f'.
              Triple (Loose k st.f (trio o b g st.a st.y st.z))
                (when (f'.written && not f'.backup_created) (attempt (delete o))
                  >> (when (f'.written && f'.backup_created)
                        (try_else (copy b o) (attempt (delete b)))
                      >> (when (f'.backup_created && not f'.written) (attempt (delete b))
                          >> attempt (delete g))))
                (λ _. Recovered k o b x) (Recovered k o b x))
            (sym same)
            (reconciled distinct x st.f.written st.f.backup_created st.a st.y st.z st.unwritten
              st.saved st.unsaved)).run
        w st.state;
}
