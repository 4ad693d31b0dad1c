-- ===== src/Xml/Versioning.antt =====
-- app/xml/parse_bucket_versioning.py
use hidden.Base.{
  not, Option, none, some, [], ◌∷◌, Text, codes, ◌==◌, nat_eq, list_eq, if◌then◌else◌,
}
use hidden.Xml.{Element, element, Elements, done, also, strip_element}
use hidden.Xml.Literals.{strip}

-- The text of the first `Status` that has one, stripped.
first_status : Elements → Option Text
first_status done = none
first_status (also (element tag text children) rest) =
    let later = first_status rest in
    elim text [
      | none ↦ later
      | some [] ↦ later
      | some (c ∷ s) ↦ if strip_element tag == codes "Status" then some (strip (c ∷ s)) else later
    ]

-- `none` is the ValueError.
unfoldable pub parse_bucket_versioning : Option Element → Option Text
unfolding first_status
parse_bucket_versioning none = none
parse_bucket_versioning (some (element tag text children)) =
    if not (strip_element tag == codes "VersioningConfiguration")
    then none
    else elim (first_status children) [ none ↦ none | some [] ↦ none | some (c ∷ s) ↦ some (c ∷ s) ]
