-- ===== src/Rules/Calendar/Laws.antt =====
-- `almatyParts` and `almatyDate` of backend/src/domain/rules.ts, one after the other.
use oyna.Base.{ℕ, ◌+◌, ◌-◌, ◌*◌, ◌/◌, ◌%◌, ◌≤◌, ◌≡◌, ap, ◌∙◌, ltb, if◌then◌else◌, arith}
use oyna.Rules.Calendar.{
  Date, MarchDay, year_start, month_start, march_day, civil_year, civil_month, hour_ms, day_ms,
  almaty_offset_ms, almaty_parts, month_first, almaty_date,
}
use oyna.Rules.Calendar.Days.{march_day-IsMarchDay}

-- The local time, in milliseconds since the origin.
abbrev pub local : Date → ℕ
local now = now + almaty_offset_ms

pub month_first_civil :
    (d : MarchDay)
    → d.month ≤ 11
    → month_first (civil_year d) (civil_month d.month) ≡ year_start d.year + month_start d.month
unfolding month_first
month_first_civil d h = ground arith

-- The month that follows, which may be number 13.
pub month_first_next :
    (d : MarchDay)
    → d.month ≤ 11
    → month_first (civil_year d) (civil_month d.month + 1) ≡ (
        if ltb d.month 11
        then year_start d.year + month_start (d.month + 1)
        else year_start (d.year + 1))
unfolding month_first
month_first_next d h = ground arith

-- `almatyDate` at the year and the month of a date counts days from that date's day.
pub almaty_date-almaty_parts :
    (now : Date) (day hour minute : ℕ)
    → let p = almaty_parts now in
      (almaty_date p.year p.month day hour minute)
      ≡ (local now / day_ms + day - p.day) * day_ms
        + hour * hour_ms
        + minute * 60000
        - almaty_offset_ms
unfolding almaty_parts almaty_date
almaty_date-almaty_parts now day hour minute =
    let n = local now / day_ms in
    let d = march_day n in
    let m = march_day-IsMarchDay n in
    let days : month_first (civil_year d) (civil_month d.month) + day - 1 ≡ n + day - d.day =
      omega (arith, m, month_first_civil d m.real_month) in
    ap (λ (t : ℕ). t * day_ms + hour * hour_ms + minute * 60000 - almaty_offset_ms) days

-- `almatyDate` of the parts of a date is the date, cut to its minute.
pub almaty_date-almaty_parts_self :
    (now : Date)
    → let p = almaty_parts now in
      almaty_date p.year p.month p.day p.hour p.minute ≡ now - now % 60000
unfolding almaty_parts
almaty_date-almaty_parts_self now =
    let p = almaty_parts now in almaty_date-almaty_parts now p.day p.hour p.minute ∙ clock now p.day
  where
    clock :
        (now day : ℕ)
        → (local now / day_ms + day - day) * day_ms
            + local now % day_ms / hour_ms * hour_ms
            + local now % hour_ms / 60000 * 60000
            - almaty_offset_ms
          ≡ now - now % 60000
    clock now day = omega arith
