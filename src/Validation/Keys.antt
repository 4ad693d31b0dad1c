-- ===== src/Validation/Keys.antt =====
-- What validated bucket names and object keys are as paths.
use hidden.Base.{
  ℕ, ◌≡◌, sym, ◌∙◌, true, false, List, [], ◌∷◌, ◌++◌, Text, codes, ◌==◌, nat_eq, list_eq, arith,
  split, split-IsFree, All, any, all, length, leb, IsFree,
}
use hidden.Errors.{Result, ok}
use hidden.Paths.Posix.{sep}
use hidden.Paths.Segments.{IsSegment, AreSegments, render}
use hidden.Paths.Confined.{bucket_segments, resolve_object_path-render, object_path-injective}
use hidden.Paths.Resolve.{resolve_object_path}
use hidden.Validation.{
  bucket_name_re, is_name_char, is_boundary, is_digit, is_forbidden_segment, validate_bucket_name,
  validate_object_key,
}

segments_of_fields :
    (fields : List Text)
    → any is_forbidden_segment fields ≡ false
    → All (IsFree sep) fields
    → AreSegments fields
segments_of_fields [] h free = tt
segments_of_fields (f ∷ fields) h free = (
  record { nonempty = ground arith; not_dot = ground arith; free = free.0 },
  segments_of_fields fields (ground arith) free.1,
)

-- The fields of a validated key are segments of a path.
validate_object_key-AreSegments :
    (key resource : Text) → validate_object_key key resource ≡ ok tt → AreSegments (split sep key)
unfolding validate_object_key
validate_object_key-AreSegments key resource h =
    segments_of_fields (split sep key) (ground arith) (split-IsFree sep key)

is_name_char_free : (c : ℕ) → is_name_char c ≡ true → (c == sep) ≡ false
unfolding is_name_char is_boundary is_digit
is_name_char_free c h = ground arith

all-IsFree : (s : Text) → all is_name_char s ≡ true → IsFree sep s
all-IsFree [] h = tt
all-IsFree (c ∷ s) h = (is_name_char_free c (ground arith), all-IsFree s (ground arith))

-- A name of three characters or more is neither empty nor ".".
long_name : (s : Text) → leb 3 (length s) ≡ true → ((s == []) ≡ false) × ((s == codes ".") ≡ false)
long_name [] h = cc
long_name (c ∷ []) h = cc
long_name (c ∷ d ∷ s) h = ground arith

-- A validated bucket name is a segment of a path.
validate_bucket_name-IsSegment :
    (name resource : Text) → validate_bucket_name name resource ≡ ok tt → IsSegment name
unfolding validate_bucket_name bucket_name_re
validate_bucket_name-IsSegment name resource h = record {
  nonempty = (long_name name (ground arith)).0;
  not_dot = (long_name name (ground arith)).1;
  free = all-IsFree name (ground arith);
}

no_dotdot :
    (fields : List Text)
    → any is_forbidden_segment fields ≡ false
    → All (λ f. (f == codes "..") ≡ false) fields
no_dotdot [] h = tt
no_dotdot (f ∷ fields) h = (ground arith, no_dotdot fields (ground arith))

-- For a valid bucket name and a valid key, and an absolute buckets directory in normal form,
-- resolving the object path does not fail: it gives the bucket's directory directly below the
-- buckets directory, and below that the fields of the key, none of which is "..".
pub resolve_object_path-validated :
    (dirs : List Text) (name key resource : Text)
    → AreSegments dirs
    → validate_bucket_name name resource ≡ ok tt
    → validate_object_key key resource ≡ ok tt
    → (resolve_object_path (render dirs) name key
        ≡ ok (
          render (bucket_segments dirs name),
          render (bucket_segments dirs name ++ split sep key),
        ))
      × All (λ f. (f == codes "..") ≡ false) (split sep key)
unfolding validate_object_key
resolve_object_path-validated dirs name key resource hd hn hk = (
  resolve_object_path-render dirs name key hd (validate_bucket_name-IsSegment name resource hn)
      (validate_object_key-AreSegments key resource hk),
  no_dotdot (split sep key) (ground arith),
)

-- For an absolute buckets directory in normal form: two uploads with valid bucket names and keys are
-- stored at one path only if they name one bucket and one key.
pub object_path_unique :
    (dirs : List Text) (name key name' key' resource : Text)
    → AreSegments dirs
    → validate_bucket_name name resource ≡ ok tt
    → validate_object_key key resource ≡ ok tt
    → validate_bucket_name name' resource ≡ ok tt
    → validate_object_key key' resource ≡ ok tt
    → resolve_object_path (render dirs) name key ≡ resolve_object_path (render dirs) name' key'
    → (name ≡ name') × (key ≡ key')
object_path_unique dirs name key name' key' resource hd hn hk hn' hk' e =
    object_path-injective dirs name key name' key' hd
      (validate_bucket_name-IsSegment name resource hn)
      (validate_bucket_name-IsSegment name' resource hn')
      (validate_object_key-AreSegments key resource hk)
      (validate_object_key-AreSegments key' resource hk')
      (ok_path (
        sym (resolve_object_path-validated dirs name key resource hd hn hk).0
        ∙ e
        ∙ (resolve_object_path-validated dirs name' key' resource hd hn' hk').0))
  where
    ok_path : {b o b' o' : Text} → ◌≡◌ {A = Result (Text × Text)} (ok (b, o)) (ok (b', o')) → o ≡ o'
    ok_path p = ground (arith, p)
