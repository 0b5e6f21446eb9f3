-- ===== src/Cash/Sell.antt =====
-- `sell` of backend/src/cash/cash.service.ts: its checks, in their order, and then what it writes. The rows are
-- written one by one, with no transaction around them.
pub mod Laws
use oyna.Base.{
  ℕ, ◌+◌, ◌-◌, Bool, true, false, ◌&&◌, ◌||◌, not, Option, none, some, List, [], ◌∷◌, ◌++◌, String,
  ltb, leb, ◌==◌, if◌then◌else◌, any, keep, length, sum_by, unique,
}
use oyna.Rules.Calendar.{Date}
use oyna.Cash.SaleRules.{Split, each, no_player, uneven, not_by_ten, minutes_per_player}
use oyna.Cash.State.{
  Role, user, operator, manager, admin, crm_extra, PayMethod, cash, CashShift, SaleLine,
  SalePayment, CashDb,
}
use oyna.Cash.Tables.{
  ◌>>=◌, CashError, not_staff, open_first, other_operator, guest_or_players, not_total, no_payment,
  cash_short, no_player_chosen, uneven_minutes, not_ten_minutes, one_booking, Outcome, done, failed,
  is_admin, open_shift_of,
}
use oyna.Cash.Drawer.{eq_method}
use oyna.Cash.Lines.{LineDto, is_booking, resolve_lines, check_barter, line_tenge, line_minutes}

pub record PayDto : Type 0 where
  pub method : PayMethod
  pub amount_tenge : ℕ
  pub cash_received : Option ℕ

pub record CreateSale : Type 0 where
  pub venue_id : ℕ
  pub user_id : Option ℕ
  pub user_ids : List ℕ
  pub guest : Bool
  pub lines : List LineDto
  pub payments : List PayDto
  pub receipt_checked : Bool
  pub receipt_number : Option String
  pub comment : Option String
  pub entered_after_outage : Bool

abbrev pub is_staff : Role → Bool
is_staff user = false
is_staff operator = true
is_staff manager = true
is_staff admin = true
is_staff crm_extra = false

abbrev pub one_of : Option ℕ → List ℕ
one_of none = []
one_of (some a) = a ∷ []

abbrev pub players_of : CreateSale → List ℕ
players_of dto = unique (dto.user_ids ++ one_of dto.user_id)

abbrev pub paid_by : PayDto → ℕ
paid_by p = p.amount_tenge

abbrev received_less : Option ℕ → ℕ → Bool
received_less none amount = false
received_less (some received) amount = ltb received amount

abbrev pub is_short : PayDto → Bool
is_short p = eq_method p.method cash && received_less p.cash_received p.amount_tenge

abbrev pub require : Bool → CashError → Outcome {0} Unit
require true e = done tt
require false e = failed e

abbrev pub or_fail {ℓ} : {A : Type ℓ} → Option A → CashError → Outcome A
or_fail none e = failed e
or_fail (some a) e = done a

abbrev of_split : Split → Outcome ℕ
of_split (each n) = done n
of_split no_player = failed no_player_chosen
of_split uneven = failed uneven_minutes
of_split not_by_ten = failed not_ten_minutes

unfoldable pub per_player : Bool → ℕ → ℕ → Outcome ℕ
per_player guest game_minutes players =
    if not guest && ltb 0 game_minutes
    then of_split (minutes_per_player game_minutes players)
    else done 0

abbrev pub total_of : List SaleLine → ℕ
total_of lines = sum_by line_tenge lines

abbrev pub game_minutes_of : List SaleLine → ℕ
game_minutes_of lines = sum_by line_minutes lines

abbrev pub booking_lines : List SaleLine → List SaleLine
booking_lines lines = keep (λ l. is_booking l.kind) lines

-- What the checks found out.
pub record Checked : Type 0 where
  pub shift : CashShift
  pub lines : List SaleLine
  pub is_barter : Bool
  pub per_player : ℕ

unfoldable pub check_sale : CreateSale → ℕ → Role → Date → CashDb → Outcome Checked
check_sale dto operator_id role now db = do
  _ ← require (is_staff role) not_staff
  shift ← or_fail (open_shift_of dto.venue_id db) open_first
  _ ← require (is_admin role || shift.opened_by_id == operator_id) other_operator
  _ ← require (not (dto.guest && ltb 0 (length (players_of dto)))) guest_or_players
  lines ← resolve_lines dto.lines (is_admin role) now db
  is_barter ← check_barter lines dto.comment
  _ ← require (total_of lines == sum_by paid_by dto.payments) not_total
  _ ← require (ltb 0 (length dto.payments) || (is_barter && total_of lines == 0)) no_payment
  _ ← require (not (any is_short dto.payments)) cash_short
  n ← per_player dto.guest (game_minutes_of lines) (length (players_of dto))
  _ ← require (leb (length (booking_lines lines)) 1) one_booking
  done (record { shift = shift; lines = lines; is_barter = is_barter; per_player = n })

abbrev pub booking_of_lines : List SaleLine → Option ℕ
booking_of_lines [] = none
booking_of_lines (l ∷ ls) = l.booking_id

abbrev change_of : Bool → Option ℕ → ℕ → Option ℕ
change_of true (some received) amount = some (received - amount)
change_of _ _ amount = none

abbrev pub payment_of : PayDto → SalePayment
payment_of p = record {
  method = p.method;
  amount_tenge = p.amount_tenge;
  cash_received = p.cash_received;
  change_tenge = change_of (eq_method p.method cash) p.cash_received p.amount_tenge;
}

abbrev pub payments_of : List PayDto → List SalePayment
payments_of [] = []
payments_of (p ∷ ps) = payment_of p ∷ payments_of ps
