-- ===== src/Rules/Calendar/Days.antt =====
-- The day count of the calendar of backend/src/domain/rules.ts, and its inverse.
use oyna.Base.{ℕ, suc, ◌+◌, ◌-◌, ◌*◌, ◌/◌, ◌%◌, ◌≤◌, ◌<◌, min, ◌≡◌, ◌⊎◌, inl, inr, arith}
use oyna.Rules.Calendar.{MarchDay, year_start, month_start, march_year, march_day}
use native.Mathlib.Decide.{dec_lt}

module _ (e c q y : ℕ) (hc : c ≤ 3) (hq : q ≤ 24) (hy : y ≤ 3) where
  year_start_parts :
      year_start (400 * e + 100 * c + 4 * q + y) ≡ 146097 * e + 36524 * c + 1461 * q + 365 * y
  unfolding year_start
  year_start_parts =
      let quarters : (400 * e + 100 * c + 4 * q + y) / 4 ≡ 100 * e + 25 * c + q = omega arith in
      let centuries : (400 * e + 100 * c + 4 * q + y) / 100 ≡ 4 * e + c = omega arith in
      let eras : (400 * e + 100 * c + 4 * q + y) / 400 ≡ e = omega arith in omega arith

-- The last day of a year is its day 365 only in a leap year.
year_end_parts :
    (e c q y d : ℕ)
    → c ≤ 3
    → q ≤ 24
    → y ≤ 3
    → (d < 365) ⊎ ((d ≡ 365) × (y ≡ 3) × ((q < 24) ⊎ (c ≡ 3)))
    → 146097 * e + 36524 * c + 1461 * q + 365 * y + d
      < year_start (suc (400 * e + 100 * c + 4 * q + y))
unfolding year_start
year_end_parts e c q y d hc hq hy h = elim (dec_lt y 3) [
  | yes p ↦ omega (arith, year_start_parts e c q (y + 1) hc hq (omega arith))
  | no np ↦ elim (dec_lt q 24) [
    | yes p ↦ omega (arith, year_start_parts e c (q + 1) 0 hc (omega arith) (omega arith))
    | no nq ↦ elim (dec_lt c 3) [
      | yes p ↦
          omega (arith, year_start_parts e (c + 1) 0 0 (omega arith) (omega arith) (omega arith))
      | no nc ↦
          omega (arith, year_start_parts (e + 1) 0 0 0 (omega arith) (omega arith) (omega arith))
    ]
  ]
]

-- The year that `march_year` finds holds the day.
pub march_year_bounds :
    (n : ℕ) → (year_start (march_year n) ≤ n) × (n < year_start (march_year n + 1))
unfolding march_year year_start
march_year_bounds n =
    let r = n % 146097 in
    let c = min 3 (r / 36524) in
    let s = r - 36524 * c in
    let q = s / 1461 in
    let y = min 3 (s % 1461 / 365) in
    let hc : c ≤ 3 = omega arith in
    let hq : q ≤ 24 = omega arith in
    let hy : y ≤ 3 = omega arith in
    let split : n ≡ 146097 * (n / 146097) + 36524 * c + 1461 * q + 365 * y + (s % 1461 - 365 * y) =
      omega arith in
    let inside : (s % 1461 - 365 * y < 365)
        ⊎ ((s % 1461 - 365 * y ≡ 365) × (y ≡ 3) × ((q < 24) ⊎ (c ≡ 3))) =
      elim (dec_lt (s % 1461 - 365 * y) 365) [
        | yes p ↦ inl p
        | no np ↦ inr (
          omega arith,
          omega arith,
          elim (dec_lt q 24) [ yes p ↦ inl p | no nq ↦ inr (omega arith) ],
        )
      ] in
    (
      omega (arith, split, year_start_parts (n / 146097) c q y hc hq hy),
      omega (arith, split, year_end_parts (n / 146097) c q y (s % 1461 - 365 * y) hc hq hy inside),
    )

-- A year has 365 or 366 days.
pub year_length :
    (y : ℕ) → (year_start y + 365 ≤ year_start (y + 1)) × (year_start (y + 1) ≤ year_start y + 366)
unfolding year_start
year_length y = omega arith

-- The day count of the date that `march_day` gives is the day that it was given.
pub record IsMarchDay (n : ℕ) (d : MarchDay) : Type 0 where
  pub count : year_start d.year + month_start d.month + d.day ≡ n + 1
  pub real_month : d.month ≤ 11
  pub first_day : 1 ≤ d.day
  pub last_day : month_start d.month + d.day ≤ month_start (d.month + 1)
  pub in_year : n < year_start (d.year + 1)

pub march_day-IsMarchDay : (n : ℕ) → IsMarchDay n (march_day n)
unfolding march_day
march_day-IsMarchDay n =
    let (lo, hi) = march_year_bounds n in
    let (_, len) = year_length (march_year n) in
    record {
      count = omega arith;
      real_month = omega arith;
      first_day = omega arith;
      last_day = omega arith;
      in_year = hi;
    }
