-- ===== src/Cash/SaleRules/Laws.antt =====
-- The rules of backend/src/cash/sale-rules.ts: the weekend, the shares, the amount due.
use oyna.Base.{ℕ, ◌+◌, ◌-◌, ◌*◌, ◌/◌, ◌%◌, ◌≤◌, ◌<◌, ◌≡◌, ◌⊎◌, ◌||◌, ◌==◌, arith}
use native.Mathlib.Nat.{div-add-mod, mul-mod_left, mul-div_cancel}
use oyna.Rules.Calendar.{
  Date, day_ms, march_day, almaty_parts, date_utc, month_first, civil_year, civil_month,
}
use oyna.Rules.Calendar.Days.{march_day-IsMarchDay}
use oyna.Rules.Calendar.Laws.{local, month_first_civil}
use oyna.Cash.SaleRules.{
  utc_day, is_almaty_weekend, each, minutes_per_player, BookingMoney, booking_due, paid,
}

pub date_utc_parts :
    (now : Date)
    → let p = almaty_parts now in date_utc p.year p.month p.day 0 0 ≡ local now / day_ms * day_ms
unfolding almaty_parts date_utc
date_utc_parts now =
    let n = local now / day_ms in
    let d = march_day n in
    let m = march_day-IsMarchDay n in
    let days : month_first (civil_year d) (civil_month d.month) + d.day - 1 ≡ n =
      omega (arith, m, month_first_civil d m.real_month) in
    omega (arith, days)

weekday :
    (n : ℕ)
    → (utc_day (n * day_ms) == 0 || utc_day (n * day_ms) == 6)
      ≡ ((n + 3) % 7 == 0 || (n + 3) % 7 == 6)
weekday n = let same : n * day_ms / day_ms ≡ n = omega arith in rw same

next_week :
    (now next : ℕ)
    → next ≡ now + 7 * day_ms
    → (utc_day (next / day_ms * day_ms) == 0 || utc_day (next / day_ms * day_ms) == 6)
      ≡ (utc_day (now / day_ms * day_ms) == 0 || utc_day (now / day_ms * day_ms) == 6)
next_week now next e =
    let same : utc_day (next / day_ms * day_ms) ≡ utc_day (now / day_ms * day_ms) = omega arith in
    rw same

-- The weekend depends on the day in Almaty alone, and comes back every seven days.
pub is_almaty_weekend_lem :
    (at : Date)
    → let day = (local at / day_ms + 3) % 7 in
      (is_almaty_weekend at ≡ (day == 0 || day == 6))
      × (is_almaty_weekend (at + 7 * day_ms) ≡ is_almaty_weekend at)
unfolding is_almaty_weekend
is_almaty_weekend_lem at = (
  rw (date_utc_parts at) (weekday (local at / day_ms)),
  rw (date_utc_parts (at + 7 * day_ms), date_utc_parts at)
      (next_week (local at) (local (at + 7 * day_ms)) (omega arith)),
)

exact_share : (total players : ℕ) → total % players ≡ 0 → total / players * players ≡ total
exact_share total players h = omega (arith, h, div-add-mod total players)

-- The minutes that each player gets add up to the minutes of the receipt, and are whole sessions of
-- ten minutes; no minutes give nothing, whoever buys.
pub minutes_per_player_sound :
    (total players minutes : ℕ)
    → minutes_per_player total players ≡ each minutes
    → ((minutes * players ≡ total) ⊎ ((total ≡ 0) × (minutes ≡ 0))) × (minutes % 10 ≡ 0)
unfolding minutes_per_player
minutes_per_player_sound total players minutes h = ground (arith, exact_share total players)

-- Conversely, minutes that can be shared so are shared so.
pub minutes_per_player_complete :
    (players minutes : ℕ)
    → 0 < players
    → minutes % 10 ≡ 0
    → minutes_per_player (minutes * players) players ≡ each minutes
unfolding minutes_per_player
minutes_per_player_complete players minutes some_player by_ten =
    let whole : minutes * players % players ≡ 0 = mul-mod_left minutes players in
    let share : minutes * players / players ≡ minutes = mul-div_cancel minutes some_player in
    ground (arith, whole, share)

-- What a booking looks like when the amount due is paid.
abbrev pub pay_due : BookingMoney → BookingMoney
pay_due b = record b { paid_tenge = b.paid_tenge + (booking_due b).amount }

-- A booking that is not paid asks for a positive amount, which never passes what is left, and two
-- payments of the amounts due settle every booking.
pub booking_due_settles :
    (b : BookingMoney)
    → (((booking_due b).kind ≡ paid) ⊎ (0 < (booking_due b).amount))
      × ((booking_due b).amount ≤ b.amount_tenge - b.paid_tenge)
      × ((booking_due (pay_due (pay_due b))).kind ≡ paid)
unfolding booking_due
booking_due_settles b = ground arith
