-- ===== src/Cash/Summary.antt =====
-- `report`, `discrepancies`, `overdueShifts`, `operatorSummary` and `listSales` of
-- backend/src/cash/cash.service.ts: the figures that are read out of the tables. Names of people and the
-- paging of rows are left out.
pub mod Laws
use oyna.Base.{
  ℕ, ◌+◌, ◌-◌, ◌*◌, ◌/◌, Bool, true, false, ◌&&◌, ◌||◌, not, is_some, or_else, Option, none, some,
  List, leb, ◌==◌, if◌then◌else◌, keep, length, sum_by,
}
use oyna.Rules.Calendar.{Date}
use oyna.Cash.SaleRules.{shift_overdue, booking_due}
use oyna.Cash.State.{
  PayMethod, cash, kaspi, halyk, freedom, CashShift, Sale, CashMovement, CashMoveType, move_out,
  Booking, BookingStatus, completed_booking, CashDb,
}
use oyna.Cash.Tables.{is_open, is_completed, shift_by_id}
use oyna.Cash.Drawer.{amount_by, is_in_move, Drawer, expected}
use oyna.Cash.Moves.{is_expense}
use oyna.Cash.Shifts.{Gaps, CloseShift, gaps_of, has_gap}
use oyna.Cash.Lines.{is_off, is_paid, money_of}

abbrev pub is_of_shift : ℕ → Sale → Bool
is_of_shift shift_id s = s.shift_id == shift_id

abbrev pub completed_of : ℕ → List Sale → List Sale
completed_of shift_id sales = keep (λ s. is_of_shift shift_id s && is_completed s) sales

abbrev pub not_barter : Sale → Bool
not_barter s = not s.is_barter

-- A total is never less than its refunds.
abbrev pub net_of : Sale → ℕ
net_of s = s.total_tenge - s.refund_tenge

abbrev pub refund_of : Sale → ℕ
refund_of s = s.refund_tenge

abbrev pub credited_of : Sale → ℕ
credited_of s = s.minutes_credited

abbrev pub amount_of_move : CashMovement → ℕ
amount_of_move m = m.amount

abbrev pub paid_by_method : PayMethod → Sale → ℕ
paid_by_method method s = sum_by (amount_by method) s.payments

pub record ByMethod : Type 0 where
  pub cash : ℕ
  pub kaspi : ℕ
  pub halyk : ℕ
  pub freedom : ℕ

abbrev pub by_method : List Sale → ByMethod
by_method sales = record {
  cash = sum_by (paid_by_method PayMethod.cash) sales;
  kaspi = sum_by (paid_by_method PayMethod.kaspi) sales;
  halyk = sum_by (paid_by_method PayMethod.halyk) sales;
  freedom = sum_by (paid_by_method PayMethod.freedom) sales;
}

abbrev is_out_move : CashMoveType → Bool
is_out_move move_out = true
is_out_move _ = false

abbrev pub moves_of : ℕ → (CashMoveType → Bool) → List CashMovement → ℕ
moves_of shift_id p movements =
    sum_by amount_of_move (keep (λ m. m.shift_id == shift_id && p m.type) movements)

pub record Report : Type 0 where
  pub expected : Drawer
  pub sales : ℕ
  pub revenue : ℕ
  pub refunds : ℕ
  pub cancelled : ℕ
  pub minutes : ℕ
  pub by_method : ByMethod
  pub cash_in : ℕ
  pub cash_out : ℕ
  pub expenses : ℕ
  pub unchecked_receipts : ℕ
  pub barter_sales : ℕ
  pub barter_minutes : ℕ

unfoldable pub report_of : CashShift → CashDb → Report
report_of shift db =
    let completed = completed_of shift.id db.sales in
    let paid = keep not_barter completed in
    let barter = keep (λ s. s.is_barter) completed in
    record {
      expected = expected shift.id shift.opening_cash db;
      sales = length paid;
      revenue = sum_by net_of paid;
      refunds = sum_by refund_of paid;
      cancelled = length (keep (λ s. is_of_shift shift.id s && not (is_completed s)) db.sales);
      minutes = sum_by credited_of completed;
      by_method = by_method paid;
      cash_in = moves_of shift.id is_in_move db.movements;
      cash_out = moves_of shift.id is_out_move db.movements;
      expenses = moves_of shift.id is_expense db.movements;
      unchecked_receipts = length (keep (λ s. not s.is_barter && not s.receipt_checked) completed);
      barter_sales = length barter;
      barter_minutes = sum_by credited_of barter;
    }

unfoldable pub report : ℕ → CashDb → Option Report
report shift_id db = elim (shift_by_id shift_id db) [
  | none ↦ none
  | some shift ↦ some (report_of shift db)
]

-- What was counted at the close, or 0.
abbrev pub counted : CashShift → CloseShift
counted s = record {
  closing_cash_actual = or_else s.closing_cash_actual 0;
  closing_kaspi = or_else s.closing_kaspi 0;
  closing_halyk = or_else s.closing_halyk 0;
  closing_freedom = or_else s.closing_freedom 0;
  close_comment = s.close_comment;
}

abbrev pub shift_gaps : CashDb → CashShift → Gaps
shift_gaps db s = gaps_of (counted s) (expected s.id s.opening_cash db)

-- The closed shifts of a venue with a gap or a note, of the rows that are read.
unfoldable pub discrepancies : List CashShift → CashDb → List CashShift
discrepancies shifts db =
    keep (λ s. not (is_open s) && (has_gap (shift_gaps db s) || is_some s.opening_note)) shifts

unfoldable pub overdue_shifts : Option ℕ → Date → ℕ → CashDb → List CashShift
overdue_shifts venue_id now hour db =
    keep (λ s. is_open s && is_venue venue_id s.venue_id && shift_overdue s.opened_at now hour)
      db.shifts
  where
    is_venue : Option ℕ → ℕ → Bool
    is_venue none v = true
    is_venue (some w) v = v == w

-- The bookings of a venue with something left to pay; the search by phone or name is left out.
unfoldable pub bookings_for_cash : ℕ → Date → CashDb → List Booking
bookings_for_cash venue_id since db =
    keep (λ b. not (is_paid (booking_due (money_of b)).kind)) (keep is_coming db.bookings)
  where
    is_over : BookingStatus → Bool
    is_over completed_booking = true
    is_over status = is_off status

    is_coming : Booking → Bool
    is_coming b = b.venue_id == venue_id && not (is_over b.status) && leb since b.starts_at

-- One row of `operatorSummary`, less the manual minutes and the compensations.
pub record OperatorRow : Type 0 where
  pub shifts : ℕ
  pub sales : ℕ
  pub cancelled : ℕ
  pub cancelled_sum : ℕ
  pub unchecked : ℕ
  pub by_method : ByMethod
  pub gaps : ℕ

abbrev pub total_of_sale : Sale → ℕ
total_of_sale s = s.total_tenge

unfoldable pub operator_row : ℕ → List Sale → List CashShift → CashDb → OperatorRow
operator_row operator_id sales shifts db =
    let own = keep (λ s. s.operator_id == operator_id) sales in
    let standing = keep is_completed own in
    let off = keep (λ s. not (is_completed s)) own in
    let opened = keep (λ s. s.opened_by_id == operator_id) shifts in
    record {
      shifts = length opened;
      sales = length standing;
      cancelled = length off;
      cancelled_sum = sum_by total_of_sale off;
      unchecked = length (keep (λ s. not s.is_barter && not s.receipt_checked) standing);
      by_method = by_method standing;
      gaps = length (keep (λ s. not (is_open s) && has_gap (shift_gaps db s)) opened);
    }

-- The totals of a list of sales: those that stand and are no barter.
pub record SaleTotals : Type 0 where
  pub count : ℕ
  pub sum : ℕ
  pub average : ℕ

-- `Math.round` of a quotient that is not negative.
abbrev pub round_div : ℕ → ℕ → ℕ
round_div a b = (2 * a + b) / (2 * b)

unfoldable pub sale_totals : List Sale → SaleTotals
sale_totals sales =
    let counted = keep (λ s. is_completed s && not s.is_barter) sales in
    let sum = sum_by total_of_sale counted - sum_by refund_of counted in
    record {
      count = length counted;
      sum = sum;
      average = if length counted == 0 then 0 else round_div sum (length counted);
    }
