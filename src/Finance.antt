-- ===== src/Finance.antt =====
-- The pure rules of backend/src/finance/finance-rules.ts on periods, and those of
-- backend/src/dashboard/today-rules.ts on the day and on running sessions.
pub mod Laws
mod Examples
use oyna.Base.{
  ℕ, ◌+◌, ◌-◌, ◌*◌, ◌/◌, ◌%◌, Bool, ◌&&◌, max, or_else, Option, none, some, leb, ltb, ◌==◌,
  if◌then◌else◌,
}
use oyna.Rules.Calendar.{Date, day_ms, almaty_parts, almaty_date, date_utc, Window}
use oyna.Cash.SaleRules.{utc_day}

-- A day of the calendar, `YYYY-MM-DD` in the source.
pub record CalendarDay : Type 0 where
  pub year : ℕ
  pub month : ℕ
  pub day : ℕ

-- `custom` with no days given is the month.
pub data Period : Type 0 where
  day week month : Period
  custom : CalendarDay → CalendarDay → Period

-- The label is a text.
pub record Range : Type 0 where
  pub from : Date
  pub to : Date
  pub days : ℕ

pub record Periods : Type 0 where
  pub current : Range
  pub previous : Range

-- `Math.round((to - from) / DAY)`
abbrev pub days_between : Date → Date → ℕ
days_between from to = (2 * (to - from) + day_ms) / (2 * day_ms)

abbrev pub day_start : Date → Date
day_start now = let p = almaty_parts now in almaty_date p.year p.month p.day 0 0

-- 0 is Monday.
abbrev pub weekday_of : Date → ℕ
weekday_of now = let p = almaty_parts now in (utc_day (date_utc p.year p.month p.day 0 0) + 6) % 7

abbrev pub before_and : Date → Date → ℕ → Periods
before_and from to days = record {
  current = record { from = from; to = to; days = days };
  previous = record { from = from - days * day_ms; to = from; days = days };
}

-- `Date.UTC` counts a day below 1 on backwards, so the start of the week is some days before today's.
unfoldable pub resolve_period : Period → Date → Periods
resolve_period day now = let from = day_start now in before_and from (from + day_ms) 1
resolve_period week now =
    let from = day_start now - weekday_of now * day_ms in before_and from (from + 7 * day_ms) 7
resolve_period month now =
    let p = almaty_parts now in
    let from = almaty_date p.year p.month 1 0 0 in
    let to = almaty_date p.year (p.month + 1) 1 0 0 in
    let prev_from = almaty_date p.year (p.month - 1) 1 0 0 in
    record {
      current = record { from = from; to = to; days = days_between from to };
      previous = record { from = prev_from; to = from; days = days_between prev_from from };
    }
resolve_period (custom a b) now =
    let from = almaty_date a.year a.month a.day 0 0 in
    let to = almaty_date b.year b.month (b.day + 1) 0 0 in
    before_and from to (max 1 (days_between from to))

pub record MonthPlan : Type 0 where
  pub plan : ℕ
  pub fact : ℕ
  pub days_passed : ℕ
  pub days_in_month : ℕ

-- `Math.round(n / d)` for d > 0
abbrev pub round_div : ℕ → ℕ → ℕ
round_div n d = (2 * n + d) / (2 * d)

unfoldable pub forecast : MonthPlan → ℕ
forecast input =
    if ltb 0 input.days_passed
    then round_div (input.fact * input.days_in_month) input.days_passed
    else 0

abbrev pub percent_of : ℕ → ℕ → Option ℕ
percent_of fact plan = if plan == 0 then none else some (round_div (fact * 100) plan)

-- dashboard/today-rules.ts
unfoldable pub almaty_day_bounds : Date → ℕ → Window
almaty_day_bounds now shift_days =
    let p = almaty_parts now in
    record {
      from = almaty_date p.year p.month (p.day + shift_days) 0 0;
      to = almaty_date p.year p.month (p.day + shift_days + 1) 0 0;
    }

unfoldable pub is_working_hours : Date → Bool
is_working_hours now = let h = (almaty_parts now).hour in leb 10 h && ltb h 23

abbrev pub offline_alert_ms : ℕ
offline_alert_ms = 5 * 60 * 1000

abbrev pub gap_minutes : Option Date → Date → Option ℕ
gap_minutes none now = none
gap_minutes (some last) now =
    let gap = now - last in if ltb offline_alert_ms gap then some (gap / 60000) else none

unfoldable pub offline_alert_minutes : Option Date → Date → Option ℕ
offline_alert_minutes last_heartbeat_at now =
    if is_working_hours now then gap_minutes last_heartbeat_at now else none

-- A pause holds the clock. The clock is not before the start.
unfoldable pub session_remaining_seconds : Option Date → Option Date → ℕ → Date → Option ℕ
session_remaining_seconds none paused_at duration now = none
session_remaining_seconds (some start) paused_at duration now =
    if leb duration 0 then none else some (duration - (or_else paused_at now - start) / 1000)
