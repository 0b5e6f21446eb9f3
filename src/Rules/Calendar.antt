-- ===== src/Rules/Calendar.antt =====
-- The dates of backend/src/domain/rules.ts. A `Date` is its number of milliseconds since
-- 0000-03-01T00:00Z, that is `getTime()` plus a constant, so that every date of the program is a
-- natural number; the source adds, subtracts and compares times, which the shift does not change.
-- `Date.UTC` and the `getUTC…` methods are JavaScript's proleptic Gregorian calendar, written out.
pub mod Days
pub mod Laws
pub mod Windows
use oyna.Base.{
  ℕ, ◌+◌, ◌-◌, ◌*◌, ◌/◌, ◌%◌, max, min, Bool, false, Option, none, some, ltb, leb, ◌==◌,
  if◌then◌else◌, ◌&&◌,
}
use oyna.Rules.Tier.{LoyaltyTier, bonus_days}

abbrev pub Date : Type 0
Date = ℕ

abbrev pub hour_ms : ℕ
hour_ms = 3600000

abbrev pub day_ms : ℕ
day_ms = 86400000

abbrev pub almaty_offset_ms : ℕ
almaty_offset_ms = 18000000

abbrev pub paid_ttl_ms : ℕ
paid_ttl_ms = 86400000

abbrev pub session_seconds : ℕ
session_seconds = 600

-- A day of the calendar whose year begins on the first of March: `month` 0 is March, 11 February.
pub record MarchDay : Type 0 where
  pub year : ℕ
  pub month : ℕ
  pub day : ℕ

-- The first day of a March year, counted from 0000-03-01.
unfoldable pub year_start : ℕ → ℕ
year_start y = 365 * y + y / 4 - y / 100 + y / 400

abbrev pub month_start : ℕ → ℕ
month_start m = (153 * m + 2) / 5

-- The year of a day, within its four centuries, its century and its four years.
unfoldable pub march_year : ℕ → ℕ
march_year n =
    let r = n % 146097 in
    let c = min 3 (r / 36524) in
    let s = r - 36524 * c in 400 * (n / 146097) + 100 * c + 4 * (s / 1461) + min 3 (s % 1461 / 365)

unfoldable pub march_day : ℕ → MarchDay
march_day n =
    let d = n - year_start (march_year n) in
    let m = (5 * d + 2) / 153 in
    record { year = march_year n; month = m; day = d - month_start m + 1 }

pub record AlmatyParts : Type 0 where
  pub year : ℕ
  pub month : ℕ
  pub day : ℕ
  pub hour : ℕ
  pub minute : ℕ

-- January and February belong to the March year before.
abbrev pub civil_month : ℕ → ℕ
civil_month m = if ltb m 10 then m + 3 else m - 9

abbrev pub civil_year : MarchDay → ℕ
civil_year d = if ltb d.month 10 then d.year else d.year + 1

unfoldable pub almaty_parts : Date → AlmatyParts
almaty_parts now =
    let local = now + almaty_offset_ms in
    let d = march_day (local / day_ms) in
    record {
      year = civil_year d;
      month = civil_month d.month;
      day = d.day;
      hour = local % day_ms / hour_ms;
      minute = local % hour_ms / 60000;
    }

-- The first day of a month, counted from 0000-03-01. The month may lie outside 1 to 12, as an
-- argument of `Date.UTC` may: 0 is the December before and 13 the January after.
unfoldable pub month_first : ℕ → ℕ → ℕ
month_first year month =
    let m = (month + 9) % 12 in year_start (year + (month + 9) / 12 - 1) + month_start m

-- The day may lie outside its month too: 0 is the last of the month before. Years from 100 on: `Date.UTC` takes
-- a year below 100 as one of the twentieth century.
unfoldable pub date_utc : ℕ → ℕ → ℕ → ℕ → ℕ → Date
unfolding month_first
date_utc year month day hour minute =
    (month_first year month + day - 1) * day_ms + hour * hour_ms + minute * 60000

unfoldable pub almaty_date : ℕ → ℕ → ℕ → ℕ → ℕ → Date
unfolding date_utc
almaty_date year month day hour minute = date_utc year month day hour minute - almaty_offset_ms

abbrev pub add_days : Date → ℕ → Date
add_days date days = date + days * 24 * 60 * 60 * 1000

abbrev optional_add_days : Option ℕ → Date → Option Date
optional_add_days none at = none
optional_add_days (some days) at = some (add_days at days)

unfoldable pub bonus_expires_at : LoyaltyTier → Date → Option Date
bonus_expires_at tier at = optional_add_days (bonus_days tier) at

abbrev reward_days : Option ℕ → Option ℕ
reward_days none = none
reward_days (some days) = some (max 30 days)

unfoldable pub reward_expires_at : LoyaltyTier → Date → Option Date
reward_expires_at tier at = optional_add_days (reward_days (bonus_days tier)) at

unfoldable pub is_expired : Option Date → Date → Bool
is_expired none now = false
is_expired (some expires_at) now = leb expires_at now

pub record DayWindow : Type 0 where
  pub from : Date
  pub to : Date
  pub label_date : ℕ × ℕ × ℕ
  pub showing_previous : Bool

-- `base` of `ratingDayWindow`: ten o'clock of the day that is shown.
unfoldable pub rating_base : Date → Date
rating_base now =
    let p = almaty_parts now in
    if ltb p.hour 10
    then almaty_date p.year p.month (p.day - 1) 10 0
    else almaty_date p.year p.month p.day 10 0

unfoldable pub rating_day_window : Date → DayWindow
rating_day_window now =
    let parts = almaty_parts (rating_base now) in
    record {
      from = almaty_date parts.year parts.month parts.day 10 0;
      to = almaty_date parts.year parts.month parts.day 23 0;
      label_date = (parts.year, parts.month, parts.day);
      showing_previous = ltb (almaty_parts now).hour 10;
    }

pub record Window : Type 0 where
  pub from : Date
  pub to : Date

unfoldable pub month_window : ℕ → ℕ → Window
month_window year month = record {
  from = almaty_date year month 1 0 0;
  to = if month == 12 then almaty_date (year + 1) 1 1 0 0 else almaty_date year (month + 1) 1 0 0;
}

unfoldable pub year_window : ℕ → Window
year_window year = record { from = almaty_date year 1 1 0 0; to = almaty_date (year + 1) 1 1 0 0 }

unfoldable pub in_day_window : Date → Date → Date → Bool
in_day_window started_at from to = leb from started_at && ltb started_at to
