-- ===== src/Paths/Segments.antt =====
-- Paths in normal form as lists of segments: `render` writes one, `components` reads it back, and
-- the test that the program makes with `commonpath` is the prefix test on segments.
use hidden.Base.{
  ℕ, ◌≡◌, refl, sym, ap, ◌∙◌, false, some, List, [], ◌∷◌, ◌++◌, append_assoc, Text, codes, ◌==◌,
  ==_iff, ==_refl, nat_eq, list_eq, starts_with, ends_with, split, join, join-split, split-join,
  starts_with-append, split_first, length, length-append, ◌≢◌, split-free, IsFree, All, arith,
  Bool-cases, inl, inr, Bool-eq,
}
use hidden.Paths.Posix.{sep, slash, path_join, components, keep_components, common, commonpath}

-- A path component that stands for an entry of a directory, ".." among them.
pub record IsSegment (s : Text) : Type 0 where
  pub nonempty : (s == []) ≡ false
  pub not_dot : (s == codes ".") ≡ false
  pub free : IsFree sep s

abbrev pub AreSegments : List Text → Type 0
AreSegments = All IsSegment

-- The absolute path with these segments.
abbrev pub render : List Text → Text
render segments = sep ∷ join slash segments

keep_components_lem : (s : List Text) → AreSegments s → keep_components s ≡ s
unfolding keep_components
keep_components_lem [] h = refl
keep_components_lem (c ∷ s) h = ground (arith, keep_components_lem s h.1)

pub AreSegments-IsFree : (s : List Text) → AreSegments s → All (IsFree sep) s
AreSegments-IsFree [] h = tt
AreSegments-IsFree (c ∷ s) h = (h.0.free, AreSegments-IsFree s h.1)

components-render : (s : List Text) → AreSegments s → components (render s) ≡ s
unfolding components
components-render [] h = refl
components-render (c ∷ s) h =
    ap keep_components (ap (λ r. [] ∷ r) (split-join sep c s h.0.free (AreSegments-IsFree s h.1)))
    ∙ keep_components_lem (c ∷ s) h

pub render-injective :
    (s t : List Text) → AreSegments s → AreSegments t → render s ≡ render t → s ≡ t
render-injective s t hs ht e =
    sym (components-render s hs) ∙ ap components e ∙ components-render t ht

common-AreSegments : (s t : List Text) → AreSegments s → AreSegments (common s t)
unfolding common
common-AreSegments [] t h = tt
common-AreSegments (c ∷ s) [] h = tt
common-AreSegments (c ∷ s) (d ∷ t) h = elim (Bool-cases (c == d)) [
  | inl same ↦ rw same (h.0, common-AreSegments s t h.1)
  | inr differ ↦ rw differ tt
]

common-eq-left : (s t : List Text) → (common s t == s) ≡ starts_with s t
unfolding common starts_with
common-eq-left [] t = refl
common-eq-left (c ∷ s) [] = refl
common-eq-left (c ∷ s) (d ∷ t) = ground (arith, ==_refl c, common-eq-left s t)

pub commonpath-render :
    (s t : List Text)
    → AreSegments s
    → AreSegments t
    → commonpath (render s) (render t) ≡ some (render (common s t))
unfolding commonpath
commonpath-render s t hs ht = rw (components-render s hs, components-render t ht)

-- The common path of two paths is the first one exactly if its segments begin the second one's.
pub common-render :
    (s t : List Text)
    → AreSegments s
    → AreSegments t
    → (render (common s t) == render s) ≡ starts_with s t
common-render s t hs ht =
    Bool-eq _ _
      (λ h. rw (← common-eq-left s t) (
        (==_iff (common s t) s).1
          (render-injective _ _ (common-AreSegments s t hs) hs ((==_iff _ _).0 h))))
      (λ h. (==_iff _ _).1 (ap render ((==_iff (common s t) s).0 (common-eq-left s t ∙ h))))

join-append :
    (c : Text) (s : List Text) (d : Text) (t : List Text)
    → join slash ((c ∷ s) ++ d ∷ t) ≡ join slash (c ∷ s) ++ sep ∷ join slash (d ∷ t)
join-append c [] d t = refl
join-append c (b ∷ s) d t =
    ap (λ r. c ++ sep ∷ r) (join-append b s d t)
    ∙ sym (append_assoc c (sep ∷ join slash (b ∷ s)) (sep ∷ join slash (d ∷ t)))

ends_with-append :
    (p : Text) (c : ℕ) (s : Text) → ends_with slash (p ++ c ∷ s) ≡ ends_with slash (c ∷ s)
unfolding ends_with
ends_with-append [] c s = refl
ends_with-append (b ∷ []) c s = ground (arith, ends_with-append [] c s)
ends_with-append (b ∷ d ∷ p) c s = ground (arith, ends_with-append (d ∷ p) c s)

ends_with-free : (s : Text) → IsFree sep s → ends_with slash s ≡ false
unfolding ends_with
ends_with-free [] h = refl
ends_with-free (c ∷ s) h = ground (arith, ends_with-free s h.1)

-- A path in normal form that is not the root does not end with a slash.
ends_with-render :
    (c : Text) (s : List Text) → AreSegments (c ∷ s) → ends_with slash (render (c ∷ s)) ≡ false
unfolding ends_with
ends_with-render [] s h = cc (h.0.nonempty)
ends_with-render (b ∷ c) [] h = ends_with-free (b ∷ c) h.0.free
ends_with-render (b ∷ c) (d ∷ s) h =
    ends_with-append (b ∷ c) sep (join slash (d ∷ s)) ∙ ends_with-render d s h.1

-- Joining a relative path to a path in normal form appends its fields, empty ones included.
pub path_join-render :
    (s : List Text) (path : Text)
    → AreSegments s
    → starts_with slash path ≡ false
    → path_join (render s) path ≡ render (s ++ split sep path)
unfolding path_join ends_with
path_join-render [] path h relative = rw (relative, join-split)
path_join-render (c ∷ s) path h relative =
    rw (relative, ends_with-render c s h, join-append, join-split)

-- A segment does not begin with a slash, and is one field.
IsSegment-relative : (n : Text) → IsSegment n → starts_with slash n ≡ false
unfolding starts_with
IsSegment-relative [] h = refl
IsSegment-relative (c ∷ n) h = ground (arith, h.free.0)

pub path_join-segment :
    (s : List Text) (n : Text)
    → AreSegments s
    → IsSegment n
    → path_join (render s) n ≡ render (s ++ n ∷ [])
path_join-segment s n hs hn =
    path_join-render s n hs (IsSegment-relative n hn)
    ∙ ap (λ r. render (s ++ r)) (split-free sep n hn.free)

pub AreSegments-append : (s t : List Text) → AreSegments s → AreSegments t → AreSegments (s ++ t)
AreSegments-append [] t hs ht = ht
AreSegments-append (c ∷ s) t hs ht = (hs.0, AreSegments-append s t hs.1 ht)

pub common-append : (s r : List Text) → common s (s ++ r) ≡ s
common-append s r = (==_iff _ _).0 (common-eq-left s (s ++ r) ∙ starts_with-append s r)

-- A path whose first field is a segment does not begin with a slash.
pub split-relative :
    (path : Text) → IsSegment (split_first sep path) → starts_with slash path ≡ false
unfolding starts_with split_first
split-relative [] h = refl
split-relative (c ∷ path) h = ground (arith, h.nonempty)

pub append_ne : (s : List Text) (d : Text) (t : List Text) → s ++ d ∷ t ≢ s
append_ne s d t e = absurd (omega (arith, ap length e, length-append s (d ∷ t)))
