-- ===== src/Cash/Invariant.antt =====
-- What holds of the tables of backend/src/cash/cash.service.ts between two calls.
pub mod Sales
use oyna.Base.{
  ℕ, ◌≤◌, ◌<◌, ◌≡◌, ◌&&◌, Option, none, some, List, All, keep, length, sum_by, update_where,
  if◌then◌else◌, ◌==◌, arith,
}
use oyna.Base.Distinct.{Distinct}
use oyna.Ledger.Invariant.{IsLedger}
use oyna.Cash.State.{CashShift, Sale, SalePayment, Booking, CashDb}
use oyna.Cash.Tables.{is_open_of, is_completed}
use oyna.Cash.Lines.{line_tenge}
use oyna.Cash.Sell.{booking_lines}
use oyna.Cash.Goods.{paid_more}
use oyna.Cash.Returns.{is_of, paid_less}

abbrev pub amount_of : SalePayment → ℕ
amount_of p = p.amount_tenge

abbrev pub paid_of : Sale → ℕ
paid_of s = sum_by amount_of s.payments

-- The payments make up the total, and no more than that is refunded.
abbrev pub IsSettled : Sale → Type 0
IsSettled s = (paid_of s ≡ s.total_tenge) × (s.refund_tenge ≤ s.total_tenge)

abbrev pub sale_id_of : Sale → ℕ
sale_id_of s = s.id

abbrev pub IsSaleBelow : ℕ → Sale → Type 0
IsSaleBelow n s = s.id < n

-- What a sale that stands has paid for a booking.
abbrev pub booked_by : ℕ → Sale → ℕ
booked_by id s =
    if is_completed s && is_of id s.booking_id then sum_by line_tenge (booking_lines s.lines) else 0

abbrev pub booked : ℕ → List Sale → ℕ
booked id = sum_by (booked_by id)

abbrev pub IsBooked : List Sale → Booking → Type 0
IsBooked sales b = b.paid_tenge ≡ booked b.id sales

-- The bookings after a sale, and after its cancellation.
abbrev pub paid_bookings : Option ℕ → ℕ → List Booking → List Booking
paid_bookings none amount bookings = bookings
paid_bookings (some id) amount bookings = update_where (λ b. b.id == id) (paid_more amount) bookings

abbrev pub unpaid_bookings : Option ℕ → ℕ → List Booking → List Booking
unpaid_bookings none amount bookings = bookings
unpaid_bookings (some id) amount bookings =
    update_where (λ b. b.id == id) (paid_less amount) bookings

-- The sales and the bookings.
pub record IsSales (next : ℕ) (sales : List Sale) (bookings : List Booking) : Type 0 where
  pub settled : All IsSettled sales
  pub below : All (IsSaleBelow next) sales
  pub distinct : Distinct sale_id_of sales
  pub counted : All (IsBooked sales) bookings

-- A venue has one open shift at most.
abbrev pub OneOpen : List CashShift → Type 0
OneOpen shifts = (venue_id : ℕ) → length (keep (is_open_of venue_id) shifts) ≤ 1

pub record IsDesk (db : CashDb) : Type 0 where
  pub books : IsLedger db.club.ledger
  pub one_open : OneOpen db.shifts
  pub sales : IsSales db.next_id db.sales db.bookings
