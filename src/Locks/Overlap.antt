-- ===== src/Locks/Overlap.antt =====
-- What the overlap test of app/locks.py means, for resources that are absolute paths in normal form with
-- one leading slash.
use hidden.Base.{
  ◌≡◌, refl, sym, ap, ◌∙◌, ◌↔◌, inl, inr, true, ◌||◌, none, some, List, [], ◌∷◌, ◌++◌, Text, ==_iff,
  ==_refl, Bool-cases, starts_with→append, starts_with-append, append-nil, nat_eq, list_eq,
  option_eq, arith, starts_with,
}
use hidden.Paths.Segments.{
  IsSegment, AreSegments, AreSegments-append, render, render-injective, common-render,
  commonpath-render, path_join-segment,
}
use hidden.Paths.Posix.{abspath}
use hidden.Paths.Normal.{AreNames, normpath-render, abspath-render}
use hidden.Locks.{
  build_directory_resource, LockType, LockResource, is_same_or_descendant_path,
  is_same_or_descendant_directory, directory_contains_file, resources_overlap, conflicts,
}

-- Overlap does not depend on which lock is requested and which is held, for any two resources.
resources_overlap_comm : (a b : LockResource) → resources_overlap a b ≡ resources_overlap b a
unfolding resources_overlap
resources_overlap_comm a b = ground (
  arith,
  ==_iff a.directory b.directory,
  ==_iff b.directory a.directory,
  ==_iff a.filename b.filename,
  ==_iff b.filename a.filename,
)

-- What a lock protects, as segments: a directory with all below it, or one file.
pub data Region : Type 0 where
  subtree : List Text → Region
  file : List Text → Text → Region

abbrev pub IsRegion : Region → Type 0
IsRegion (subtree s) = AreSegments s
IsRegion (file s n) = AreSegments s × IsSegment n

abbrev pub resource_of : Region → LockResource
resource_of (subtree s) = record { directory = render s; filename = none }
resource_of (file s n) = record { directory = render s; filename = some n }

-- The paths, as segments, that a lock on the region protects.
abbrev pub Covers : Region → List Text → Type 0
Covers (subtree s) p = (r : List Text) × (p ≡ s ++ r)
Covers (file s n) p = p ≡ s ++ n ∷ []

is_same_or_descendant_path-render :
    (s t : List Text)
    → AreSegments s
    → AreSegments t
    → is_same_or_descendant_path (render s) (render t) ≡ starts_with s t
unfolding is_same_or_descendant_path
is_same_or_descendant_path-render s t hs ht =
    rw (commonpath-render s t hs ht, is_same_or_descendant_path) (common-render s t hs ht)

directory_contains_file-render :
    (s t : List Text) (n : Text)
    → AreSegments s
    → AreSegments t
    → IsSegment n
    → directory_contains_file (render s) (resource_of (file t n)) ≡ starts_with s (t ++ n ∷ [])
unfolding directory_contains_file
directory_contains_file-render s t n hs ht hn =
    ap (is_same_or_descendant_path (render s)) (path_join-segment t n ht hn)
    ∙ is_same_or_descendant_path-render s (t ++ n ∷ []) hs
        (AreSegments-append t (n ∷ []) ht (hn, tt))

-- Of two lists that begin a third, one begins the other.
prefix_total : (s t r q : List Text) → s ++ r ≡ t ++ q → (starts_with s t || starts_with t s) ≡ true
unfolding starts_with
prefix_total [] t r q h = refl
prefix_total (c ∷ s) [] r q h = refl
prefix_total (c ∷ s) (d ∷ t) r q h = ground (arith, prefix_total s t r q, ==_iff c d, ==_iff d c)

snoc_injective : (s t : List Text) (n m : Text) → s ++ n ∷ [] ≡ t ++ m ∷ [] → (s ≡ t) × (n ≡ m)
snoc_injective [] [] n m h = ground arith
snoc_injective [] (d ∷ []) n m h = cc
snoc_injective [] (d ∷ e ∷ t) n m h = cc
snoc_injective (c ∷ []) [] n m h = cc
snoc_injective (c ∷ e ∷ s) [] n m h = cc
snoc_injective (c ∷ s) (d ∷ t) n m h = ground (arith, snoc_injective s t n m)

overlap-covered :
    (a b : Region)
    → IsRegion a
    → IsRegion b
    → resources_overlap (resource_of a) (resource_of b) ≡ true
    → (p : List Text) × Covers a p × Covers b p
unfolding resources_overlap is_same_or_descendant_directory
overlap-covered (subtree s) (subtree t) ha hb h = elim (Bool-cases (starts_with s t)) [
  | inl begins ↦ let (r, e) = starts_with→append s t begins in (t, (r, e), ([], sym (append-nil t)))
  | inr not_begins ↦
      let (r, e) = starts_with→append t s (
        ground (
          arith,
          not_begins,
          is_same_or_descendant_path-render s t ha hb,
          is_same_or_descendant_path-render t s hb ha,
        )) in
      (s, ([], sym (append-nil s)), (r, e))
]
overlap-covered (subtree s) (file t n) ha hb h = (
  t ++ n ∷ [],
  starts_with→append s _ (sym (directory_contains_file-render s t n ha hb.0 hb.1) ∙ h),
  refl,
)
overlap-covered (file s n) (subtree t) ha hb h = (
  s ++ n ∷ [],
  refl,
  starts_with→append t _ (sym (directory_contains_file-render t s n hb ha.0 ha.1) ∙ h),
)
overlap-covered (file s n) (file t m) ha hb h = (s ++ n ∷ [], refl, same)
  where
    dirs : s ≡ t
    dirs = render-injective s t ha.0 hb.0 (ground (arith, h, ==_iff (render s) (render t)))

    same : s ++ n ∷ [] ≡ t ++ m ∷ []
    same = ground (arith, h, dirs, ==_iff n m)

covered-overlap :
    (a b : Region) (p : List Text)
    → IsRegion a
    → IsRegion b
    → Covers a p
    → Covers b p
    → resources_overlap (resource_of a) (resource_of b) ≡ true
unfolding resources_overlap is_same_or_descendant_directory
covered-overlap (subtree s) (subtree t) p ha hb ca cb =
    rw (is_same_or_descendant_path-render s t ha hb, is_same_or_descendant_path-render t s hb ha)
      (prefix_total s t ca.0 cb.0 (sym ca.1 ∙ cb.1))
covered-overlap (subtree s) (file t n) p ha hb ca cb =
    directory_contains_file-render s t n ha hb.0 hb.1
    ∙ ap (starts_with s) (sym cb ∙ ca.1)
    ∙ starts_with-append s ca.0
covered-overlap (file s n) (subtree t) p ha hb ca cb =
    directory_contains_file-render t s n hb ha.0 ha.1
    ∙ ap (starts_with t) (sym ca ∙ cb.1)
    ∙ starts_with-append t cb.0
covered-overlap (file s n) (file t m) p ha hb ca cb =
    ground (arith, snoc_injective s t n m (sym ca ∙ cb), ==_refl (render s), ==_refl n)

-- Two locks overlap exactly if some path is protected by both, for resources that are absolute paths in
-- normal form, with one leading slash.
pub overlap_iff :
    (a b : Region)
    → IsRegion a
    → IsRegion b
    → (resources_overlap (resource_of a) (resource_of b) ≡ true)
      ↔ ((p : List Text) × Covers a p × Covers b p)
overlap_iff a b ha hb =
    (overlap-covered a b ha hb, λ (p, ca, cb). covered-overlap a b p ha hb ca cb)

-- Whether two locks conflict does not depend on which one is requested.
pub conflicts_comm : (a b : LockResource) (s t : LockType) → conflicts a s b t ≡ conflicts b t a s
unfolding conflicts
conflicts_comm a b s t = ground (arith, resources_overlap_comm a b)

-- The resource of a directory lock is that of the region below the directory, if its path is
-- absolute, in normal form and without "..", in any working directory.
build_directory_resource-render :
    (cwd : Text) (s : List Text)
    → AreNames s
    → build_directory_resource cwd (render s) ≡ resource_of (subtree s)
unfolding build_directory_resource
build_directory_resource-render cwd s h =
    ap (λ d. record { directory = d; filename = none })
      (ap (abspath cwd) (normpath-render s h) ∙ abspath-render cwd s h)
