-- ===== src/Xml.antt =====
-- app/xml/: the parsers of the request bodies. What `ElementTree.fromstring` gives is their input:
-- the root element, or nothing for a ParseError.
pub mod Literals
pub mod Versioning
pub mod ObjectLock
use hidden.Base.{
  ℕ, Option, none, some, List, [], ◌∷◌, Text, codes, ◌==◌, nat_eq, list_eq, if◌then◌else◌,
  split_first, split_rest,
}

-- An element with its tag, its text before the first child, and its children.
mutual
  pub data Element : Type 0 where
    element : Text → Option Text → Elements → Element

  pub data Elements : Type 0 where
    done : Elements
    also : Element → Elements → Elements

abbrev last : Text → List Text → Text
last p [] = p
last p (q ∷ ps) = last q ps

-- `tag.rsplit("}", 1)[-1]`: what stands behind the last brace.
unfoldable pub strip_element : Text → Text
unfolding split_first split_rest
strip_element tag = last (split_first b'}' tag) (split_rest b'}' tag)
