-- ===== src/Cash/SaleRules.antt =====
-- backend/src/cash/sale-rules.ts: the pure rules of a sale.
pub mod Laws
use oyna.Base.{
  ℕ, ◌+◌, ◌-◌, ◌/◌, ◌%◌, min, Bool, not, ◌&&◌, ◌||◌, Option, none, some, ltb, leb, ◌==◌,
  if◌then◌else◌,
}
use oyna.Rules.Calendar.{Date, day_ms, almaty_parts, date_utc}

-- `getUTCDay`: 0 is Sunday. 0000-03-01 was a Wednesday.
abbrev pub utc_day : Date → ℕ
utc_day date = (date / day_ms + 3) % 7

unfoldable pub is_almaty_weekend : Date → Bool
is_almaty_weekend at =
    let p = almaty_parts at in
    let day = utc_day (date_utc p.year p.month p.day 0 0) in day == 0 || day == 6

pub record Priced : Type 0 where
  pub price_tenge : ℕ
  pub price_weekend_tenge : Option ℕ

abbrev weekend_price : Option ℕ → ℕ → ℕ
weekend_price none price = price
weekend_price (some weekend) price = weekend

unfoldable pub day_price : Priced → Date → ℕ
day_price item at =
    if is_almaty_weekend at
    then weekend_price item.price_weekend_tenge item.price_tenge
    else item.price_tenge

-- The minutes of each player, or the text of the refusal.
pub data Split : Type 0 where
  each : ℕ → Split
  no_player uneven not_by_ten : Split

unfoldable pub minutes_per_player : ℕ → ℕ → Split
minutes_per_player total_minutes players =
    if total_minutes == 0
    then each 0
    else if ltb players 1
    then no_player
    else if not (total_minutes % players == 0)
    then uneven
    else if not (total_minutes / players % 10 == 0)
    then not_by_ten
    else each (total_minutes / players)

pub record BookingMoney : Type 0 where
  pub amount_tenge : ℕ
  pub prepay_tenge : ℕ
  pub paid_tenge : ℕ

pub data DueKind : Type 0 where
  prepay rest paid : DueKind

-- The label of the source goes with the kind.
pub record Due : Type 0 where
  pub kind : DueKind
  pub amount : ℕ
  pub remaining : ℕ

-- `Math.max(0, a - b)` is the truncated `a - b`.
unfoldable pub booking_due : BookingMoney → Due
booking_due booking =
    let remaining = booking.amount_tenge - booking.paid_tenge in
    let prepay_left = booking.prepay_tenge - booking.paid_tenge in
    if remaining == 0
    then record { kind = paid; amount = 0; remaining = remaining }
    else if ltb 0 prepay_left
    then record { kind = prepay; amount = min prepay_left remaining; remaining = remaining }
    else record { kind = rest; amount = remaining; remaining = remaining }

unfoldable pub refundable : ℕ → ℕ → ℕ
refundable total_tenge refund_tenge = total_tenge - refund_tenge

unfoldable pub shift_overdue : Date → Date → ℕ → Bool
shift_overdue opened_at now hour =
    let n = almaty_parts now in
    let o = almaty_parts opened_at in
    let same_day = n.year == o.year && n.month == o.month && n.day == o.day in
    not same_day || leb hour n.hour
