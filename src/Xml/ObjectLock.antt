-- ===== src/Xml/ObjectLock.antt =====
-- app/xml/parse_bucket_object_lock.py; `none` is the ValueError everywhere.
use hidden.Base.{
  not, ◌||◌, Bool, true, false, zero, suc, Option, none, some, [], ◌∷◌, Text, codes, ◌==◌, nat_eq,
  list_eq, if◌then◌else◌, is_some, ℤ, pos, negsuc,
}
use hidden.Xml.{Element, element, Elements, done, also, strip_element}
use hidden.Xml.Literals.{strip, int}

-- The local variables of `_parse_default_retention`.
pub record Retention : Type 0 where
  pub mode : Option Text
  pub days : Option ℤ
  pub years : Option ℤ

-- `element.text` where it is not empty.
abbrev given : Option Text → Option Text
given none = none
given (some []) = none
given (some (c ∷ s)) = some (c ∷ s)

abbrev pub is_mode : Text → Bool
is_mode mode = mode == codes "GOVERNANCE" || mode == codes "COMPLIANCE"

abbrev pub is_positive : ℤ → Bool
is_positive (pos zero) = false
is_positive (pos (suc n)) = true
is_positive (negsuc n) = false

-- One round of its loop.
unfoldable pub retention_element : Text → Option Text → Retention → Option Retention
retention_element name text r =
    if name == codes "Mode"
    then elim (given text) [
      | none ↦ none
      | some s ↦ if not (is_mode (strip s)) then none else some (record r { mode = some (strip s) })
    ]
    else if name == codes "Days"
    then elim (given text) [
      | none ↦ none
      | some s ↦ elim (int (strip s)) [ none ↦ none | some n ↦ some (record r { days = some n }) ]
    ]
    else if name == codes "Years"
    then elim (given text) [
      | none ↦ none
      | some s ↦ elim (int (strip s)) [ none ↦ none | some n ↦ some (record r { years = some n }) ]
    ]
    else none

unfoldable pub retention_elements : Elements → Retention → Option Retention
retention_elements done r = some r
retention_elements (also (element tag text children) rest) r =
    elim (retention_element (strip_element tag) text r) [
      | none ↦ none
      | some r' ↦ retention_elements rest r'
    ]

abbrev same : Bool → Bool → Bool
same true c = c
same false c = not c

-- Its tests behind the loop.
unfoldable pub check_retention : Retention → Option Retention
check_retention r =
    if not (is_some r.mode)
    then none
    else if same (is_some r.days) (is_some r.years)
    then none
    else if (elim r.days [ none ↦ false | some n ↦ not (is_positive n) ])
    then none
    else if (elim r.years [ none ↦ false | some n ↦ not (is_positive n) ])
    then none
    else some r

abbrev pub no_retention : Retention
no_retention = record { mode = none; days = none; years = none }

unfoldable pub parse_default_retention : Elements → Option Retention
parse_default_retention children = elim (retention_elements children no_retention) [
  | none ↦ none
  | some r ↦ check_retention r
]

unfoldable pub parse_rule : Elements → Option Retention
parse_rule done = none
parse_rule (also (element tag text children) (also e es)) = none
parse_rule (also (element tag text children) done) =
    if not (strip_element tag == codes "DefaultRetention")
    then none
    else parse_default_retention children

-- What the parser returns.
pub record Configuration : Type 0 where
  pub object_lock_enabled : Option Text
  pub default_retention : Retention

unfoldable pub configuration_element :
    Text → Option Text → Elements → Configuration → Option Configuration
configuration_element name text children c =
    if name == codes "ObjectLockEnabled"
    then elim (given text) [
      | none ↦ none
      | some s ↦
          if not (strip s == codes "Enabled")
          then none
          else some (record c { object_lock_enabled = some (strip s) })
    ]
    else if name == codes "Rule"
    then elim (parse_rule children) [
      | none ↦ none
      | some r ↦ some (record c { default_retention = r })
    ]
    else none

unfoldable pub configuration_elements : Elements → Configuration → Option Configuration
configuration_elements done c = some c
configuration_elements (also (element tag text children) rest) c =
    elim (configuration_element (strip_element tag) text children c) [
      | none ↦ none
      | some c' ↦ configuration_elements rest c'
    ]

unfoldable pub parse_bucket_object_lock : Option Element → Option Configuration
parse_bucket_object_lock none = none
parse_bucket_object_lock (some (element tag text children)) =
    if not (strip_element tag == codes "ObjectLockConfiguration")
    then none
    else configuration_elements children
        (record { object_lock_enabled = none; default_retention = no_retention })
