-- ===== src/Bucket/Parsed.antt =====
-- What app/xml/parse_bucket_object_lock.py lets through is a valid default retention.
use hidden.Base.{
  [], ◌∷◌, ◌≡◌, refl, Bool, true, Option, none, some, Text, codes, ◌==◌, nat_eq, list_eq, arith,
  Bool-cases, Option-cases, inl, inr, subst,
}
use hidden.Xml.{Element, element, Elements, done, also, strip_element}
use hidden.Xml.Literals.{strip, int}
use hidden.Xml.ObjectLock.{
  Retention, Configuration, is_mode, retention_element, retention_elements, check_retention,
  parse_default_retention, parse_rule, no_retention, configuration_element, configuration_elements,
  parse_bucket_object_lock,
}
use hidden.Bucket.Valid.{retention_valid}

abbrev mode_valid : Option Text → Bool
mode_valid none = true
mode_valid (some mode) = is_mode mode

some-injective {ℓ} : {A : Type ℓ} {x y : A} → some x ≡ some y → x ≡ y
some-injective e = ground arith

same_mode : (q r : Retention) → q ≡ r → mode_valid q.mode ≡ true → mode_valid r.mode ≡ true
same_mode q r e = subst (λ (x : Retention). mode_valid x.mode ≡ true) e

retention_element-mode :
    (name : Text) (text : Option Text) (r r' : Retention)
    → mode_valid r.mode ≡ true
    → retention_element name text r ≡ some r'
    → mode_valid r'.mode ≡ true
unfolding retention_element
retention_element-mode name none r r' keep h = absurd (ground (arith, h))
retention_element-mode name (some []) r r' keep h = absurd (ground (arith, h))
retention_element-mode name (some (c ∷ s)) r r' keep h = elim (Bool-cases (name == codes "Mode")) [
  | inl mode ↦ elim (Bool-cases (is_mode (strip (c ∷ s)))) [
    | inl good ↦
        same_mode (record r { mode = some (strip (c ∷ s)) }) r'
          (some-injective (ground (arith, h, mode, good))) good
    | inr bad ↦ absurd (ground (arith, h, mode, bad))
  ]
  | inr other ↦ elim (Option-cases (int (strip (c ∷ s)))) [
    | inl bad ↦ absurd (ground (arith, h, other, bad))
    | inr (n, good) ↦ elim (Bool-cases (name == codes "Days")) [
      | inl days ↦
          same_mode (record r { days = some n }) r'
            (some-injective (ground (arith, h, other, days, good))) keep
      | inr not_days ↦ elim (Bool-cases (name == codes "Years")) [
        | inl years ↦
            same_mode (record r { years = some n }) r'
              (some-injective (ground (arith, h, other, not_days, years, good))) keep
        | inr not_years ↦ absurd (ground (arith, h, other, not_days, not_years))
      ]
    ]
  ]
]

check_retention-valid :
    (r r' : Retention)
    → mode_valid r.mode ≡ true
    → check_retention r ≡ some r'
    → retention_valid r' ≡ true
unfolding check_retention
check_retention-valid r r' keep h = ground (arith, keep, h)

retention_elements-mode :
    (children : Elements) (r r' : Retention)
    → mode_valid r.mode ≡ true
    → retention_elements children r ≡ some r'
    → mode_valid r'.mode ≡ true
unfolding retention_elements
retention_elements-mode done r r' keep h = same_mode r r' (some-injective h) keep
retention_elements-mode (also (element tag text children) rest) r r' keep h =
    elim (Option-cases (retention_element (strip_element tag) text r)) [
      | inl bad ↦ absurd (ground (arith, h, bad))
      | inr (q, good) ↦
          retention_elements-mode rest q r'
            (retention_element-mode (strip_element tag) text r q keep good)
            (ground (arith, h, good))
    ]

parse_default_retention-valid :
    (children : Elements) (r : Retention)
    → parse_default_retention children ≡ some r
    → retention_valid r ≡ true
unfolding parse_default_retention
parse_default_retention-valid children r h =
    elim (Option-cases (retention_elements children no_retention)) [
      | inl bad ↦ absurd (ground (arith, h, bad))
      | inr (q, good) ↦
          check_retention-valid q r (retention_elements-mode children no_retention q refl good)
            (ground (arith, h, good))
    ]

parse_rule-valid :
    (children : Elements) (r : Retention) → parse_rule children ≡ some r → retention_valid r ≡ true
unfolding parse_rule
parse_rule-valid done r h = absurd (ground (arith, h))
parse_rule-valid (also (element tag text children) (also e es)) r h = absurd (ground (arith, h))
parse_rule-valid (also (element tag text children) done) r h =
    elim (Bool-cases (strip_element tag == codes "DefaultRetention")) [
      | inl named ↦ parse_default_retention-valid children r (ground (arith, h, named))
      | inr other ↦ absurd (ground (arith, h, other))
    ]

same_retention :
    (c d : Configuration)
    → c ≡ d
    → retention_valid c.default_retention ≡ true
    → retention_valid d.default_retention ≡ true
same_retention c d e = subst (λ (x : Configuration). retention_valid x.default_retention ≡ true) e

enabled_element :
    (name : Text) (text : Option Text) (children : Elements) (c c' : Configuration)
    → retention_valid c.default_retention ≡ true
    → (name == codes "ObjectLockEnabled") ≡ true
    → configuration_element name text children c ≡ some c'
    → retention_valid c'.default_retention ≡ true
unfolding configuration_element
enabled_element name none children c c' keep named h = absurd (ground (arith, h, named))
enabled_element name (some []) children c c' keep named h = absurd (ground (arith, h, named))
enabled_element name (some (d ∷ s)) children c c' keep named h =
    elim (Bool-cases (strip (d ∷ s) == codes "Enabled")) [
      | inl good ↦
          same_retention (record c { object_lock_enabled = some (strip (d ∷ s)) }) c'
            (some-injective (ground (arith, h, named, good))) keep
      | inr bad ↦ absurd (ground (arith, h, named, bad))
    ]

configuration_element-valid :
    (name : Text) (text : Option Text) (children : Elements) (c c' : Configuration)
    → retention_valid c.default_retention ≡ true
    → configuration_element name text children c ≡ some c'
    → retention_valid c'.default_retention ≡ true
unfolding configuration_element
configuration_element-valid name text children c c' keep h =
    elim (Bool-cases (name == codes "ObjectLockEnabled")) [
      | inl enabled ↦ enabled_element name text children c c' keep enabled h
      | inr other ↦ elim (Option-cases (parse_rule children)) [
        | inl bad ↦ absurd (ground (arith, h, other, bad))
        | inr (r, good) ↦ elim (Bool-cases (name == codes "Rule")) [
          | inl rule ↦
              same_retention (record c { default_retention = r }) c'
                (some-injective (ground (arith, h, other, good, rule)))
                (parse_rule-valid children r good)
          | inr neither ↦ absurd (ground (arith, h, other, neither))
        ]
      ]
    ]

configuration_elements-valid :
    (children : Elements) (c c' : Configuration)
    → retention_valid c.default_retention ≡ true
    → configuration_elements children c ≡ some c'
    → retention_valid c'.default_retention ≡ true
unfolding configuration_elements
configuration_elements-valid done c c' keep h = same_retention c c' (some-injective h) keep
configuration_elements-valid (also (element tag text children) rest) c c' keep h =
    elim (Option-cases (configuration_element (strip_element tag) text children c)) [
      | inl bad ↦ absurd (ground (arith, h, bad))
      | inr (d, good) ↦
          configuration_elements-valid rest d c'
            (configuration_element-valid (strip_element tag) text children c d keep good)
            (ground (arith, h, good))
    ]

-- Whatever document is parsed: if the parser returns, then either there is no default retention at
-- all, or it has one of the two modes and exactly one of days and years, which is positive.
pub parse_bucket_object_lock-valid :
    (root : Option Element) (c : Configuration)
    → parse_bucket_object_lock root ≡ some c
    → retention_valid c.default_retention ≡ true
unfolding parse_bucket_object_lock
parse_bucket_object_lock-valid none c h = absurd (ground (arith, h))
parse_bucket_object_lock-valid (some (element tag text children)) c h =
    elim (Bool-cases (strip_element tag == codes "ObjectLockConfiguration")) [
      | inl named ↦
          configuration_elements-valid children
            (record { object_lock_enabled = none; default_retention = no_retention }) c refl
            (ground (arith, h, named))
      | inr other ↦ absurd (ground (arith, h, other))
    ]
