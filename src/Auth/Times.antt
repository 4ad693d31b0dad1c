-- ===== src/Auth/Times.antt =====
-- `datetime.strptime(value, "%Y%m%dT%H%M%SZ")`, `_is_amz_date` and `_assert_time_valid` of
-- app/security/sigv4.py. A time is the number of microseconds since the first day of the year 1; the
-- code compares `total_seconds()`, which is exact for the differences that can be near a bound.
use hidden.Base.{
  ℕ, zero, suc, ◌+◌, ◌-◌, ◌*◌, ◌/◌, ◌%◌, ◌≡◌, refl, Bool, true, false, not, ◌&&◌, ◌||◌, Option,
  none, some, List, [], ◌∷◌, Text, codes, ◌==◌, nat_eq, list_eq, if◌then◌else◌, ltb, leb, length,
  take, drop, ends_with,
}
use hidden.Xml.Literals.{decimal}

abbrev then_some : {A B : Type 0} → Option A → (A → Option B) → Option B
then_some none k = none
then_some (some a) k = k a

abbrev is_leap : ℕ → Bool
is_leap y = y % 4 == 0 && (not (y % 100 == 0) || y % 400 == 0)

-- The lengths of the months.
abbrev months : Bool → List ℕ
months leap = 31 ∷ (if leap then 29 else 28) ∷ 31 ∷ 30 ∷ 31 ∷ 30 ∷ 31 ∷ 31 ∷ 30 ∷ 31 ∷ 30 ∷ 31 ∷ []

-- The days before the day `d` of the month `m`, counted from the first of the months; `none` when the
-- month or the day does not exist.
day_in : List ℕ → ℕ → ℕ → Option ℕ
day_in [] m d = none
day_in (n ∷ ns) zero d = none
day_in (n ∷ ns) (suc m) d =
    let later = day_in ns m d in
    if m == 0
    then (if leb 1 d && leb d n then some (d - 1) else none)
    else then_some later (λ days. some (n + days))

-- The days from the first of the year 1 to the first of the year `y`.
abbrev days_before : ℕ → ℕ
days_before y = 365 * (y - 1) + (y - 1) / 4 - (y - 1) / 100 + (y - 1) / 400

-- An ASCII digit, which the pattern asks for as the first character of each field but the year.
abbrev first_digit : ℕ → Option ℕ
first_digit c = if leb b'0' c && leb c b'9' then some (c - b'0') else none

abbrev two : Option ℕ → Option ℕ → Option ℕ
two a b = then_some a (λ t. then_some b (λ u. some (10 * t + u)))

-- `%m`: 01 to 12 in ASCII.
abbrev month : ℕ → ℕ → Option ℕ
month a b = two (first_digit a) (first_digit b)

-- `%d`: a second digit that the pattern names is ASCII, one behind 1 or 2 is any decimal, and a space
-- may stand before 1 to 9.
abbrev day : ℕ → ℕ → Option ℕ
day a b =
    if a == b' '
    then first_digit b
    else two (first_digit a) (if a == b'1' || a == b'2' then decimal b else first_digit b)

-- `%H`: `2[0-3]` or `[0-1]\d`.
abbrev hour : ℕ → ℕ → Option ℕ
hour a b = two (first_digit a) (if a == b'2' then first_digit b else decimal b)

-- `%M` and `%S`: `[0-5]\d`; for the seconds the pattern has 60 and 61 too, which no datetime has.
abbrev sixty : ℕ → ℕ → Option ℕ
sixty a b = two (first_digit a) (decimal b)

abbrev below : ℕ → Option ℕ → Option ℕ
below n o = then_some o (λ k. if ltb k n then some k else none)

-- The seconds since the first day of the year 1, of a text of 16 characters that has T and Z in their
-- places; `none` is the ValueError.
unfoldable pub strptime : Text → Option ℕ
unfolding day_in decimal
strptime (y1 ∷ y2 ∷ y3 ∷ y4 ∷ m1 ∷ m2 ∷ d1 ∷ d2 ∷ t ∷ h1 ∷ h2 ∷ i1 ∷ i2 ∷ s1 ∷ s2 ∷ z ∷ []) =
    then_some (two (decimal y1) (decimal y2)) (λ century.
      then_some (two (decimal y3) (decimal y4)) (λ in_century.
        let year = 100 * century + in_century in
        if year == 0
        then none
        else then_some (month m1 m2) (λ mon. then_some (day d1 d2) (λ d.
          then_some (day_in (months (is_leap year)) mon d) (λ days.
            then_some (below 24 (hour h1 h2)) (λ h. then_some (below 60 (sixty i1 i2)) (λ i.
              then_some (below 60 (sixty s1 s2))
                (λ s. some (((days_before year + days) * 24 + h) * 3600 + i * 60 + s)))))))))
strptime _ = none

unfoldable pub is_amz_date : Text → Bool
unfolding strptime
is_amz_date value =
    if not (length value == 16)
      || not (take 1 (drop 8 value) == codes "T")
      || not (ends_with (codes "Z") value)
    then false
    else elim (strptime value) [ none ↦ false | some t ↦ true ]

strptime_tests :
    (strptime (codes "00010101T000001Z") ≡ some 1)
    × (strptime (codes "20240229T000000Z") ≡ some 63844761600)
    × (strptime (codes "20230229T000000Z") ≡ none)
    × (strptime (codes "20231201T240000Z") ≡ none)
    × (is_amz_date (codes "20231201T235959Z") ≡ true)
    × (is_amz_date (codes "20231201X235959Z") ≡ false)
unfolding strptime is_amz_date ends_with
strptime_tests = (refl, refl, refl, refl, refl, refl)
