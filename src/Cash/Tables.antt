-- ===== src/Cash/Tables.antt =====
-- How backend/src/cash/cash.service.ts answers, and how it finds and updates rows.
use oyna.Base.{ℕ, Bool, true, false, ◌&&◌, Option, List, [], ◌∷◌, max, ◌==◌, find, update_where}
use oyna.Ledger.State.{Error}
use oyna.Cash.State.{
  Role, admin, open_shift, closed_shift, CashShift, completed, cancelled, Sale, Booking, CashDb,
}

-- The texts of the exceptions.
pub data CashError : Type 0 where
  already_open mismatch_note no_shift_row already_closed not_own_shift gap_comment : CashError
  not_staff open_first other_operator guest_or_players : CashError
  no_lines no_booking_id no_booking_row booking_cancelled booking_paid booking_amount : CashError
  no_item not_in_catalog certificate_tens : CashError
  barter_mixed barter_comment not_total no_payment cash_short : CashError
  no_player_chosen uneven_minutes not_ten_minutes one_booking : CashError
  no_sale sale_cancelled sale_refunded cancel_owner certificate_activated : CashError
  refund_owner barter_refund above_refundable open_for_cash : CashError
  shift_closed move_comment : CashError
  ledger_error : Error → CashError
  -- Exceptions of the database: a key to no user, and a code that a certificate has.
  unknown_user code_taken : CashError

pub data Outcome {ℓ} (A : Type ℓ) : Type ℓ where
  done : A → Outcome A
  failed : CashError → Outcome A

infixl 5 ◌>>=◌
unfoldable pub ◌>>=◌ {ℓ κ} : {A : Type ℓ} {B : Type κ} → Outcome A → (A → Outcome B) → Outcome B
done a >>= f = f a
failed e >>= f = failed e

abbrev pub is_admin : Role → Bool
is_admin admin = true
is_admin _ = false

abbrev pub is_open : CashShift → Bool
is_open s = elim s.status [ open_shift ↦ true | closed_shift ↦ false ]

abbrev pub is_open_of : ℕ → CashShift → Bool
is_open_of venue_id s = s.venue_id == venue_id && is_open s

abbrev pub is_completed : Sale → Bool
is_completed s = elim s.status [ completed ↦ true | cancelled ↦ false ]

abbrev pub open_shift_of : ℕ → CashDb → Option CashShift
open_shift_of venue_id db = find (is_open_of venue_id) db.shifts

abbrev pub shift_by_id : ℕ → CashDb → Option CashShift
shift_by_id id db = find (λ s. s.id == id) db.shifts

abbrev pub sale_by_id : ℕ → CashDb → Option Sale
sale_by_id id db = find (λ s. s.id == id) db.sales

abbrev pub booking_by_id : ℕ → CashDb → Option Booking
booking_by_id id db = find (λ b. b.id == id) db.bookings

abbrev pub update_sale : ℕ → (Sale → Sale) → CashDb → CashDb
update_sale id f db = record db { sales = update_where (λ s. s.id == id) f db.sales }

abbrev pub update_booking : ℕ → (Booking → Booking) → CashDb → CashDb
update_booking id f db = record db { bookings = update_where (λ b. b.id == id) f db.bookings }

-- `_max: { number: true }`, or 0
abbrev pub max_by {ℓ} : {A : Type ℓ} → (A → ℕ) → List A → ℕ
max_by f [] = 0
max_by f (x ∷ xs) = max (f x) (max_by f xs)
