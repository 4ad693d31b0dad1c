-- ===== src/Paths/Confined.antt =====
-- Objects are stored below the directory of their bucket, and no two of them at one path.
use hidden.Base.{
  ◌≡◌, refl, sym, ap, ◌∙◌, false, some, List, [], ◌∷◌, ◌++◌, Text, codes, ◌==◌, ==_iff, ==_refl,
  nat_eq, list_eq, arith, split, split_first, split_rest, join, join-split, Bool-cases, inl, inr,
  append_assoc,
}
use hidden.Errors.{ok}
use hidden.Paths.Posix.{sep, slash, path_join, commonpath}
use hidden.Paths.Segments.{
  IsSegment, AreSegments, AreSegments-append, render, render-injective, common-append,
  commonpath-render, path_join-render, path_join-segment, split-relative, append_ne,
}
use hidden.Paths.Resolve.{resolve_bucket_path, resolve_object_path}

-- The segments of a bucket directory and of an object in it.
abbrev pub bucket_segments : List Text → Text → List Text
bucket_segments dirs name = dirs ++ name ∷ []

resolve_object_path_lem :
    (dir name key bucket object : Text)
    → resolve_bucket_path dir name ≡ bucket
    → path_join bucket key ≡ object
    → (object == bucket) ≡ false
    → commonpath bucket object ≡ some bucket
    → resolve_object_path dir name key ≡ ok (bucket, object)
unfolding resolve_object_path
resolve_object_path_lem dir name key bucket object eb eo differ inside =
    ground (arith, eb, eo, differ, inside, ==_refl bucket)

module _ (dirs : List Text) (name key : Text) (hd : AreSegments dirs) (hn : IsSegment name)
    (hk : AreSegments (split sep key)) where
  bucket-AreSegments : AreSegments (bucket_segments dirs name)
  bucket-AreSegments = AreSegments-append dirs (name ∷ []) hd (hn, tt)

  object-AreSegments : AreSegments (bucket_segments dirs name ++ split sep key)
  object-AreSegments =
      AreSegments-append (bucket_segments dirs name) (split sep key) bucket-AreSegments hk

  bucket_path : resolve_bucket_path (render dirs) name ≡ render (bucket_segments dirs name)
  unfolding resolve_bucket_path
  bucket_path = path_join-segment dirs name hd hn

  object_path :
      path_join (render (bucket_segments dirs name)) key
      ≡ render (bucket_segments dirs name ++ split sep key)
  object_path =
      path_join-render (bucket_segments dirs name) key bucket-AreSegments (split-relative key hk.0)

  differs :
      (render (bucket_segments dirs name ++ split sep key) == render (bucket_segments dirs name))
      ≡ false
  differs =
      elim (Bool-cases (
        render (bucket_segments dirs name ++ split sep key)
        == render (bucket_segments dirs name))) [
          | inl same ↦ absurd (
              append_ne (bucket_segments dirs name) _ _
                (render-injective _ _ object-AreSegments bucket-AreSegments ((==_iff _ _).0 same)))
          | inr other ↦ other
        ]

  -- Any key whose fields are segments resolves to the bucket directory and to the path that has the
  -- key's fields below it.
  pub resolve_object_path-render :
      resolve_object_path (render dirs) name key
      ≡ ok (render (bucket_segments dirs name), render (bucket_segments dirs name ++ split sep key))
  resolve_object_path-render =
      resolve_object_path_lem (render dirs) name key _ _ bucket_path object_path differs (
        commonpath-render (bucket_segments dirs name) (bucket_segments dirs name ++ split sep key)
          bucket-AreSegments object-AreSegments
        ∙ ap (λ r. some (render r)) (common-append (bucket_segments dirs name) (split sep key)))

append_cancel {ℓ} : {A : Type ℓ} (s t r : List A) → s ++ t ≡ s ++ r → t ≡ r
append_cancel [] t r e = e
append_cancel (c ∷ s) t r e = append_cancel s t r (ground (arith, e))

-- Two objects whose key fields are segments have one path only if bucket and key are the same.
pub object_path-injective :
    (dirs : List Text) (name key name' key' : Text)
    → AreSegments dirs
    → IsSegment name
    → IsSegment name'
    → AreSegments (split sep key)
    → AreSegments (split sep key')
    → render (bucket_segments dirs name ++ split sep key)
      ≡ render (bucket_segments dirs name' ++ split sep key')
    → (name ≡ name') × (key ≡ key')
object_path-injective dirs name key name' key' hd hn hn' hk hk' e =
    ground (arith, parts, sym (join-split sep key) ∙ ap (join slash) parts.1 ∙ join-split sep key')
  where
    below : name ∷ split sep key ≡ name' ∷ split sep key'
    below = append_cancel dirs _ _ (
        sym (append_assoc dirs (name ∷ []) (split sep key))
        ∙ render-injective _ _ (object-AreSegments dirs name key hd hn hk)
            (object-AreSegments dirs name' key' hd hn' hk') e
        ∙ append_assoc dirs (name' ∷ []) (split sep key'))

    parts : (name ≡ name') × (split sep key ≡ split sep key')
    parts = ground (arith, below)

-- The key "../" followed by segments is accepted, although what it names lies beside the bucket.
dotdot_accepted :
    (dirs : List Text) (name rest : Text)
    → AreSegments dirs
    → IsSegment name
    → AreSegments (split sep rest)
    → resolve_object_path (render dirs) name (codes "../" ++ rest)
      ≡ ok (
        render (bucket_segments dirs name),
        render (bucket_segments dirs name ++ codes ".." ∷ split sep rest),
      )
unfolding split_first split_rest
dotdot_accepted dirs name rest hd hn hr =
    resolve_object_path-render dirs name (codes "../" ++ rest) hd hn
      (record { nonempty = refl; not_dot = refl; free = (refl, (refl, tt)) }, hr)
