-- ===== src/Paths/Normal.antt =====
-- The paths that `normpath` and `abspath` leave as they are, and the resource that locks one.
use hidden.Base.{
  ◌≡◌, refl, sym, ap, ◌∙◌, true, false, List, [], ◌∷◌, ◌++◌, Text, codes, ◌==◌, nat_eq, list_eq,
  All, split, split-join, split_first, split_rest, starts_with, append_assoc, append-nil, reverse,
  arith,
}
use mathlib.Core.List.{reverse_aux}
use hidden.Paths.Posix.{
  sep, slash, normpath_step, normpath_loop, initial_slashes, normpath, abspath,
}
use hidden.Paths.Segments.{IsSegment, AreSegments, AreSegments-IsFree, render}

-- Segments none of which is "..".
pub record AreNames (s : List Text) : Type 0 where
  pub segments : AreSegments s
  pub no_dotdot : All (λ f. (f == codes "..") ≡ false) s

reverse_aux-append : (s t : List Text) → reverse_aux s t ≡ reverse s ++ t
reverse_aux-append [] t = refl
reverse_aux-append (c ∷ s) t =
    reverse_aux-append s (c ∷ t)
    ∙ sym (append_assoc (reverse s) (c ∷ []) t)
    ∙ ap (λ r. r ++ t) (sym (reverse_aux-append s (c ∷ [])))

normpath_step-name :
    (done : List Text) (c : Text)
    → IsSegment c
    → (c == codes "..") ≡ false
    → normpath_step true done c ≡ c ∷ done
unfolding normpath_step
normpath_step-name [] c h up = ground (arith, h.nonempty, h.not_dot, up)
normpath_step-name (top ∷ done) c h up = ground (arith, h.nonempty, h.not_dot, up)

normpath_loop-names :
    (done s : List Text)
    → AreSegments s
    → All (λ f. (f == codes "..") ≡ false) s
    → reverse (normpath_loop true done s) ≡ reverse done ++ s
unfolding normpath_loop
normpath_loop-names done [] h up = sym (append-nil (reverse done))
normpath_loop-names done (c ∷ s) h up = rw (normpath_step-name done c h.0 up.0) (
    normpath_loop-names (c ∷ done) s h.1 up.1
    ∙ ap (λ r. r ++ s) (reverse_aux-append done (c ∷ []))
    ∙ append_assoc (reverse done) (c ∷ []) s)

initial_slashes-render : (s : List Text) → AreSegments s → initial_slashes (render s) ≡ slash
unfolding initial_slashes
initial_slashes-render [] h = refl
initial_slashes-render ([] ∷ s) h = absurd (ground (arith, h.0.nonempty))
initial_slashes-render ((c ∷ t) ∷ []) h = ground (arith, h.0.free.0)
initial_slashes-render ((c ∷ t) ∷ (d ∷ s)) h = ground (arith, h.0.free.0)

split-render :
    (c : Text) (s : List Text) → AreSegments (c ∷ s) → split sep (render (c ∷ s)) ≡ [] ∷ c ∷ s
unfolding split_first split_rest
split-render c s h = ap (λ r. [] ∷ r) (split-join sep c s h.0.free (AreSegments-IsFree s h.1))

normpath_loop-render :
    (s : List Text) → AreNames s → reverse (normpath_loop true [] (split sep (render s))) ≡ s
unfolding normpath_loop split_first split_rest
normpath_loop-render [] h = refl
normpath_loop-render (c ∷ s) h =
    ap (λ r. reverse (normpath_loop true [] r)) (split-render c s h.segments)
    ∙ normpath_loop-names [] (c ∷ s) h.segments h.no_dotdot

normpath-parts :
    (path : Text) (s : List Text)
    → starts_with slash path ≡ true
    → (path == []) ≡ false
    → initial_slashes path ≡ slash
    → reverse (normpath_loop true [] (split sep path)) ≡ s
    → normpath path ≡ render s
unfolding normpath
normpath-parts path s rooted filled one parts = ground (arith, rooted, filled, one, parts)

-- Normalising the absolute path of names does nothing.
pub normpath-render : (s : List Text) → AreNames s → normpath (render s) ≡ render s
unfolding starts_with
normpath-render s h =
    normpath-parts (render s) s refl refl (initial_slashes-render s h.segments)
      (normpath_loop-render s h)

-- Nor does making it absolute, in any working directory.
pub abspath-render : (cwd : Text) (s : List Text) → AreNames s → abspath cwd (render s) ≡ render s
unfolding abspath starts_with
abspath-render cwd s h = normpath-render s h
