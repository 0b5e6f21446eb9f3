-- ===== src/Rules/Calendar/Windows.antt =====
-- The windows of backend/src/domain/rules.ts: the hall day, the month.
use oyna.Base.{
  ℕ, ◌+◌, ◌-◌, ◌*◌, ◌/◌, ◌%◌, ◌≤◌, ◌<◌, ◌≡◌, refl, ltb, arith, Bool-cases, tests, inl, inr,
}
use oyna.Rules.Calendar.{
  Date, march_day, civil_year, civil_month, hour_ms, day_ms, almaty_offset_ms, almaty_parts,
  month_first, almaty_date, rating_base, rating_day_window, month_window,
}
use oyna.Rules.Calendar.Days.{march_day-IsMarchDay}
use oyna.Rules.Calendar.Laws.{local, month_first_civil, month_first_next, almaty_date-almaty_parts}

-- The number of the last Almaty day whose ten o'clock has come.
abbrev hall_day : Date → ℕ
hall_day now = (local now - 10 * hour_ms) / day_ms

-- Ten o'clock of a day, as a date.
abbrev ten_of : ℕ → Date
ten_of days = days * day_ms + 10 * hour_ms - almaty_offset_ms

almaty_hour : (now : Date) → (almaty_parts now).hour ≡ local now % day_ms / hour_ms
unfolding almaty_parts
almaty_hour now = refl

almaty_day_pos : (now : Date) → 1 ≤ (almaty_parts now).day
unfolding almaty_parts
almaty_day_pos now = (march_day-IsMarchDay (local now / day_ms)).first_day

rating_base_lem : (now : Date) → day_ms ≤ now → rating_base now ≡ ten_of (hall_day now)
unfolding rating_base
rating_base_lem now h = elim (Bool-cases (ltb (almaty_parts now).hour 10)) [
  | inl early ↦
      rw (early, almaty_date-almaty_parts)
        (omega (tests, early, almaty_hour now, almaty_day_pos now))
  | inr open_hours ↦
      rw (open_hours, almaty_date-almaty_parts)
        (omega (tests, open_hours, almaty_hour now, almaty_day_pos now))
]

-- From the second day of the count of dates on, the hall day begins at the last ten o'clock that
-- has come in Almaty and ends 13 hours later.
pub rating_day_window_lem :
    (now : Date)
    → day_ms ≤ now
    → let w = rating_day_window now in
      (w.from ≤ now)
      × (now < w.from + day_ms)
      × (local w.from % day_ms ≡ 10 * hour_ms)
      × (w.to ≡ w.from + 13 * hour_ms)
      × (w.showing_previous ≡ ltb (local now % day_ms) (10 * hour_ms))
unfolding rating_day_window
rating_day_window_lem now h =
    let base = rating_base_lem now h in
    let from =
      almaty_date-almaty_parts (rating_base now) (almaty_parts (rating_base now)).day 10 0 in
    let to = almaty_date-almaty_parts (rating_base now) (almaty_parts (rating_base now)).day 23 0 in
    (
      omega (arith, base, from),
      omega (arith, base, from),
      omega (arith, base, from),
      omega (arith, base, from, to),
      ground (arith, almaty_hour now),
    )

pub almaty_date_first :
    (year month : ℕ)
    → almaty_date year month 1 0 0 ≡ month_first year month * day_ms - almaty_offset_ms
unfolding almaty_date
almaty_date_first year month = omega arith

-- The two ends of a month are the first days of it and of the month after, in January too.
month_first_year : (year : ℕ) → month_first (year + 1) 1 ≡ month_first year 13
unfolding month_first
month_first_year year = ground arith

pub month_window_ends :
    (year month : ℕ)
    → ((month_window year month).from ≡ month_first year month * day_ms - almaty_offset_ms)
      × ((month_window year month).to ≡ month_first year (month + 1) * day_ms - almaty_offset_ms)
unfolding month_window
month_window_ends year month = ground (
  arith,
  almaty_date_first year month,
  almaty_date_first year (month + 1),
  almaty_date_first (year + 1) 1,
  month_first_year year,
)

month_holds :
    (n : ℕ)
    → let d = march_day n in
      (month_first (civil_year d) (civil_month d.month) ≤ n)
      × (n < month_first (civil_year d) (civil_month d.month + 1))
month_holds n =
    let d = march_day n in
    let m = march_day-IsMarchDay n in
    (
      omega (arith, m, month_first_civil d m.real_month),
      elim (Bool-cases (ltb d.month 11)) [
        | inl before_february ↦
            let next = month_first_next d m.real_month in
            omega (arith, rw before_february at next, m)
        | inr february ↦
            let next = month_first_next d m.real_month in omega (arith, rw february at next, m)
      ],
    )

-- A date lies in the month window of its own Almaty year and month.
pub month_window_holds :
    (now : Date)
    → let p = almaty_parts now in
      let w = month_window p.year p.month in (w.from ≤ now) × (now < w.to)
unfolding almaty_parts
month_window_holds now =
    let d = march_day (local now / day_ms) in
    omega (
      arith,
      month_window_ends (civil_year d) (civil_month d.month),
      month_holds (local now / day_ms),
    )
