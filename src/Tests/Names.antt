-- ===== src/Tests/Names.antt =====
-- app/s3/validation.py, app/s3/paths.py and app/errors.py at concrete names and keys.
use hidden.Base.{
  ◌≡◌, ◌≢◌, ◌≤◌, refl, false, none, List, [], ◌∷◌, ◌++◌, Text, codes, All, split, ◌==◌, nat_eq,
  list_eq,
}
use hidden.Errors.{ok}
use hidden.Paths.Posix.{sep}
use hidden.Paths.Segments.{IsSegment, AreSegments, render}
use hidden.Paths.Resolve.{resolve_object_path}
use hidden.Paths.Confined.{bucket_segments}
use hidden.Validation.{validate_bucket_name, validate_object_key}
use hidden.Validation.Keys.{resolve_object_path-validated, object_path_unique}

abbrev root : List Text
root = codes "m" ∷ []

abbrev name : Text
name = codes "abc"

abbrev key : Text
key = codes "d/e"

root-AreSegments : AreSegments root
root-AreSegments = (record { nonempty = refl; not_dot = refl; free = (refl, tt) }, tt)

name-IsSegment : IsSegment name
name-IsSegment = record { nonempty = refl; not_dot = refl; free = (refl, (refl, (refl, tt))) }

name_valid : validate_bucket_name name [] ≡ ok tt
unfolding validate_bucket_name hidden.Validation.bucket_name_re hidden.Validation.is_name_char
    hidden.Validation.is_boundary hidden.Validation.starts_at_boundary
    hidden.Validation.ends_at_boundary hidden.Base.has_infix hidden.Validation.ip_address_re
    hidden.Base.split_rest hidden.Base.ends_with
name_valid = refl

key_valid : validate_object_key key [] ≡ ok tt
unfolding validate_object_key hidden.Validation.encoded_length hidden.Base.split_first
    hidden.Base.split_rest
key_valid = refl

rest_segments : AreSegments (split sep (codes "e"))
unfolding hidden.Base.split_first hidden.Base.split_rest
rest_segments = (record { nonempty = refl; not_dot = refl; free = (refl, tt) }, tt)

resolve_object_path-validated_example :
    (resolve_object_path (render root) name key
      ≡ ok
          (render (bucket_segments root name), render (bucket_segments root name ++ split sep key)))
    × All (λ f. (f == codes "..") ≡ false) (split sep key)
resolve_object_path-validated_example =
    resolve_object_path-validated root name key [] root-AreSegments name_valid key_valid

object_path_unique_example : (name ≡ name) × (key ≡ key)
object_path_unique_example =
    object_path_unique root name key name key [] root-AreSegments name_valid key_valid name_valid
      key_valid refl
