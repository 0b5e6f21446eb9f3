-- ===== src/Finance/Laws.antt =====
-- The periods of backend/src/finance/finance-rules.ts and the days of
-- backend/src/dashboard/today-rules.ts around a moment.
use oyna.Base.{ℕ, ◌+◌, ◌-◌, ◌*◌, ◌/◌, ◌%◌, ◌≤◌, ◌<◌, ◌≡◌, refl, ap, ◌∙◌, arith}
use oyna.Rules.Calendar.{Date, day_ms, almaty_offset_ms, almaty_parts}
use oyna.Rules.Calendar.Laws.{local, almaty_date-almaty_parts}
use oyna.Rules.Calendar.Windows.{month_window_ends, month_window_holds, almaty_date_first}
use oyna.Cash.SaleRules.{utc_day}
use oyna.Cash.SaleRules.Laws.{date_utc_parts}
use oyna.Finance.{
  day, week, month, Periods, day_start, weekday_of, resolve_period, almaty_day_bounds,
}

day_start-local : (now : Date) → day_start now ≡ local now / day_ms * day_ms - almaty_offset_ms
day_start-local now =
    let d = almaty_date-almaty_parts now (almaty_parts now).day 0 0 in omega (arith, d)

weekday_local : (now : Date) → weekday_of now ≡ (local now / day_ms + 2) % 7
weekday_local now =
    let same : local now / day_ms * day_ms / day_ms ≡ local now / day_ms = omega arith in
    ap (λ (t : Date). (utc_day t + 6) % 7) (date_utc_parts now) ∙ omega (arith, same)

-- What a period and the one before it have.
pub record IsPeriod (now : Date) (r : Periods) : Type 0 where
  pub begun : r.current.from ≤ now
  pub running : now < r.current.to
  pub follows : r.previous.to ≡ r.current.from

-- From the eighth day of the count of dates on, today, the week and the month hold the moment
-- they are taken at, and the period before each ends where it begins; a day is one day long, and
-- a week, from a Monday of Almaty, is seven.
pub resolve_period_lem :
    (now : Date)
    → 7 * day_ms ≤ now
    → let d = resolve_period day now in
      let w = resolve_period week now in
      IsPeriod now d
      × IsPeriod now w
      × IsPeriod now (resolve_period month now)
      × (d.current.to ≡ d.current.from + day_ms)
      × (w.current.to ≡ w.current.from + 7 * day_ms)
      × ((local w.current.from / day_ms + 2) % 7 ≡ 0)
unfolding resolve_period
resolve_period_lem now late =
    let d = day_start-local now in
    let w = weekday_local now in
    let p = almaty_parts now in
    let m = month_window_holds now in
    let ends = month_window_ends p.year p.month in
    let first = almaty_date_first p.year p.month in
    let next = almaty_date_first p.year (p.month + 1) in
    (
      record { begun = omega (arith, d); running = omega (arith, d); follows = refl },
      record { begun = omega (arith, d, w); running = omega (arith, d, w); follows = refl },
      record {
        begun = omega (arith, m, ends, first);
        running = omega (arith, m, ends, next);
        follows = refl;
      },
      refl,
      refl,
      omega (arith, d, w, late),
    )

-- From the second day of the count of dates on, the bounds of a day of Almaty, some days after a
-- moment's, are one day apart and hold the moment moved by as many days.
pub almaty_day_bounds_lem :
    (now : Date) (shift_days : ℕ)
    → day_ms ≤ now
    → let w = almaty_day_bounds now shift_days in
      (w.to ≡ w.from + day_ms)
      × (w.from ≤ now + shift_days * day_ms)
      × (now + shift_days * day_ms < w.to)
unfolding almaty_day_bounds
almaty_day_bounds_lem now shift_days late =
    let d = (almaty_parts now).day in
    let a = almaty_date-almaty_parts now (d + shift_days) 0 0 in
    let b = almaty_date-almaty_parts now (d + shift_days + 1) 0 0 in
    (omega (arith, a, b, late), omega (arith, a, late), omega (arith, b, late))
