-- ===== src/Clock/Civil.antt =====
-- The civil date of a day in the Gregorian calendar, counted from 1 January of year 1.
use datasaver.Base.{
  ℕ, ◌+◌, ◌-◌, ◌*◌, ◌/◌, ◌%◌, min, Bool, not, ◌&&◌, ◌||◌, List, [], ◌∷◌, ltb, ◌==◌, if◌then◌else◌,
  ◌≡◌, refl,
}

pub record Date : Type 0 where
  pub year : ℕ
  pub month : ℕ
  pub day : ℕ

unfoldable pub is_leap : ℕ → Bool
is_leap y = y % 4 == 0 && (not (y % 100 == 0) || y % 400 == 0)

month_lengths : ℕ → List ℕ
unfolding is_leap
month_lengths y =
    31 ∷ (if is_leap y then 29 else 28) ∷ 31 ∷ 30 ∷ 31 ∷ 30 ∷ 31 ∷ 31 ∷ 30 ∷ 31 ∷ 30 ∷ 31 ∷ []

-- The month and the day of a day of the year, counted from 0.
find_month : List ℕ → ℕ → ℕ → ℕ → Date
find_month [] y m d = record { year = y; month = m; day = d + 1 }
find_month (n ∷ ns) y m d =
    let later = find_month ns y (m + 1) (d - n) in
    if ltb d n then record { year = y; month = m; day = d + 1 } else later

-- Whole cycles of 400, 100, 4 and 1 years, and then the months.
unfoldable pub date_of : ℕ → Date
unfolding find_month month_lengths
date_of d =
    let n400 = d / 146097 in
    let d1 = d % 146097 in
    let n100 = min 3 (d1 / 36524) in
    let d2 = d1 - n100 * 36524 in
    let n4 = d2 / 1461 in
    let d3 = d2 % 1461 in
    let n1 = min 3 (d3 / 365) in
    let y = 400 * n400 + 100 * n100 + 4 * n4 + n1 + 1 in
    find_month (month_lengths y) y 1 (d3 - n1 * 365)

-- Day 738890 is 6 January 2024, a Saturday.
date_of_2024 : date_of 738890 ≡ record { year = 2024; month = 1; day = 6 }
unfolding date_of
date_of_2024 = refl
