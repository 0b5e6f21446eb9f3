-- ===== src/Cash/Returns.antt =====
-- `cancel`, `refund` and `removeSaleMinutes` of backend/src/cash/cash.service.ts. A call reads the clock once.
pub mod Laws
pub mod Refunds
use oyna.Base.{
  ℕ, ◌+◌, ◌-◌, ◌/◌, Bool, true, false, ◌&&◌, not, is_some, Option, none, some, List, [], ◌∷◌, ◌++◌,
  String, ltb, ◌==◌, if◌then◌else◌, any, keep, map, sum_by, unique, update_where,
}
use oyna.Rules.Calendar.{Date}
use oyna.Ledger.State.{
  Reason, cancelled_sale, refunded_sale, Grant, Entry, Db, EntryType, create_entry, update_grant,
  remaining,
}
use oyna.Ledger.Service.{prepare_balance}
use oyna.Cash.SaleRules.{refundable}
use oyna.Cash.State.{
  Role, PayMethod, cash, CashShift, cancelled, SaleLine, Sale, CashMovement, move_out, refund_of,
  activated, expired, GiftCertificate, Booking, CashDb,
}
use oyna.Cash.Tables.{
  no_sale, sale_cancelled, sale_refunded, cancel_owner, certificate_activated, refund_owner,
  barter_refund, above_refundable, open_for_cash, Outcome, done, failed, is_admin, is_open,
  is_completed, open_shift_of, shift_by_id, sale_by_id, update_sale, update_booking,
}
use oyna.Cash.Drawer.{eq_method}
use oyna.Cash.Lines.{line_tenge}
use oyna.Cash.Sell.{booking_lines}
use oyna.Cash.Selling.{set_ledger}

abbrev pub is_of : ℕ → Option ℕ → Bool
is_of id none = false
is_of id (some i) = i == id

-- `transactionId: sale.id, remainingSeconds: { gt: 0 }`
abbrev pub is_sale_grant : ℕ → Grant → Bool
is_sale_grant sale_id g = is_of sale_id g.transaction_id && ltb 0 g.remaining_seconds

abbrev pub cancel_entry : Reason → ℕ → Date → Grant → ℕ → Entry
cancel_entry reason actor_id now g id = record {
  id = id;
  user_id = g.user_id;
  grant_id = g.id;
  type = EntryType.cancel;
  seconds = g.remaining_seconds;
  reason = reason;
  session_id = none;
  created_by_id = some actor_id;
  created_at = now;
}

-- The body of the first loop.
unfoldable pub cancel_grant : Reason → ℕ → Date → Grant → Db → Db
cancel_grant reason actor_id now g db =
    update_grant g.id (λ h. record h { remaining_seconds = 0 })
      (create_entry (cancel_entry reason actor_id now g) db)

unfoldable pub cancel_each : Reason → ℕ → Date → List Grant → Db → Db
cancel_each reason actor_id now [] db = db
cancel_each reason actor_id now (g ∷ gs) db =
    cancel_each reason actor_id now gs (cancel_grant reason actor_id now g db)

-- The second loop: the balance of every player whose grants were emptied.
unfoldable pub prepare_each : List ℕ → Date → Db → Db
prepare_each [] now db = db
prepare_each (u ∷ us) now db = prepare_each us now (prepare_balance u now db).1

abbrev pub owner : Grant → ℕ
owner g = g.user_id

-- The minutes taken back, and the tables.
unfoldable pub remove_sale_minutes : ℕ → Reason → ℕ → Date → Db → ℕ × Db
remove_sale_minutes sale_id reason actor_id now db =
    let grants = keep (is_sale_grant sale_id) db.grants in
    (
      sum_by remaining grants / 60,
      prepare_each (unique (map owner grants)) now (cancel_each reason actor_id now grants db),
    )

abbrev shift_is_open : Option CashShift → Bool
shift_is_open none = false
shift_is_open (some s) = is_open s

abbrev pub own_open : Sale → ℕ → CashDb → Bool
own_open sale actor_id db =
    shift_is_open (shift_by_id sale.shift_id db) && sale.operator_id == actor_id

abbrev pub is_activated : GiftCertificate → Bool
is_activated c = elim c.status [ activated ↦ true | _ ↦ false ]

abbrev pub is_of_sale : ℕ → GiftCertificate → Bool
is_of_sale sale_id c = is_of sale_id c.sale_id

abbrev pub expire_certificate : GiftCertificate → GiftCertificate
expire_certificate c = record c { status = expired }

abbrev pub cancelled_by : String → ℕ → Date → Sale → Sale
cancelled_by reason actor_id now s = record s {
  status = cancelled;
  cancel_reason = some reason;
  cancelled_by_id = some actor_id;
  cancelled_at = some now;
}

-- What the sale added is taken off again.
abbrev pub paid_less : ℕ → Booking → Booking
paid_less amount b = record b { paid_tenge = b.paid_tenge - amount }

abbrev pub unpay_booking : Option ℕ → List SaleLine → CashDb → CashDb
unpay_booking none lines db = db
unpay_booking (some id) lines db = update_booking id (paid_less (sum_by line_tenge lines)) db

unfoldable pub cancelled_tables : Sale → String → ℕ → Date → CashDb → CashDb
cancelled_tables sale reason actor_id now db =
    let minutes =
      remove_sale_minutes sale.id (cancelled_sale sale.number reason) actor_id now db.club.ledger in
    let removed = set_ledger minutes.1 db in
    let closed = record removed {
      certificates = update_where (is_of_sale sale.id) expire_certificate removed.certificates;
    } in
    let unpaid = unpay_booking sale.booking_id (booking_lines sale.lines) closed in
    update_sale sale.id (cancelled_by reason actor_id now) unpaid

unfoldable pub cancel_of : Sale → String → ℕ → Role → Date → CashDb → Outcome Sale × CashDb
cancel_of sale reason actor_id role now db =
    if not (is_completed sale)
    then (failed sale_cancelled, db)
    else if ltb 0 sale.refund_tenge
    then (failed sale_refunded, db)
    else if not (own_open sale actor_id db) && not (is_admin role)
    then (failed cancel_owner, db)
    else if any is_activated (keep (is_of_sale sale.id) db.certificates)
    then (failed certificate_activated, db)
    else (
      done (cancelled_by reason actor_id now sale),
      cancelled_tables sale reason actor_id now db,
    )

unfoldable pub cancel_sale : ℕ → String → ℕ → Role → Date → CashDb → Outcome Sale × CashDb
cancel_sale sale_id reason actor_id role now db = elim (sale_by_id sale_id db) [
  | none ↦ (failed no_sale, db)
  | some sale ↦ cancel_of sale reason actor_id role now db
]

pub record RefundSale : Type 0 where
  pub amount_tenge : ℕ
  pub method : PayMethod
  pub reason : String

abbrev pub refunded_by : RefundSale → ℕ → Date → Sale → Sale
refunded_by dto actor_id now s = record s {
  refund_tenge = s.refund_tenge + dto.amount_tenge;
  refund_reason = some dto.reason;
  refunded_by_id = some actor_id;
  refunded_at = some now;
}

abbrev pub refund_movement : Sale → RefundSale → ℕ → ℕ → ℕ → CashMovement
refund_movement sale dto actor_id shift_id id = record {
  id = id;
  shift_id = shift_id;
  type = move_out;
  amount = dto.amount_tenge;
  article = some "Возврат";
  comment = refund_of sale.number dto.reason;
  operator_id = actor_id;
  expense_id = none;
}

-- Cash is paid out of an open shift.
abbrev pub pay_out : Bool → Sale → RefundSale → ℕ → Option CashShift → CashDb → CashDb
pay_out true sale dto actor_id (some s) db = record db {
  movements = db.movements ++ refund_movement sale dto actor_id s.id db.next_id ∷ [];
  next_id = db.next_id + 1;
}
pay_out _ sale dto actor_id o db = db

pub record Refunded : Type 0 where
  pub sale : Sale
  pub removed_minutes : ℕ

unfoldable pub refunded_tables : Sale → RefundSale → ℕ → Date → CashDb → Outcome Refunded × CashDb
refunded_tables sale dto actor_id now db =
    let minutes =
      remove_sale_minutes sale.id (refunded_sale sale.number dto.reason) actor_id now
        db.club.ledger in
    let paid =
      pay_out (eq_method dto.method cash) sale dto actor_id (open_shift_of sale.venue_id db)
        (set_ledger minutes.1 db) in
    (
      done (record { sale = refunded_by dto actor_id now sale; removed_minutes = minutes.0 }),
      update_sale sale.id (refunded_by dto actor_id now) paid,
    )

unfoldable pub refund_of_sale : Sale → RefundSale → ℕ → Date → CashDb → Outcome Refunded × CashDb
refund_of_sale sale dto actor_id now db =
    if not (is_completed sale)
    then (failed sale_cancelled, db)
    else if sale.is_barter
    then (failed barter_refund, db)
    else if ltb (refundable sale.total_tenge sale.refund_tenge) dto.amount_tenge
    then (failed above_refundable, db)
    else if eq_method dto.method cash && not (is_some (open_shift_of sale.venue_id db))
    then (failed open_for_cash, db)
    else refunded_tables sale dto actor_id now db

unfoldable pub refund : ℕ → RefundSale → ℕ → Role → Date → CashDb → Outcome Refunded × CashDb
refund sale_id dto actor_id role now db =
    if not (is_admin role) then (failed refund_owner, db) else elim (sale_by_id sale_id db) [
      | none ↦ (failed no_sale, db)
      | some sale ↦ refund_of_sale sale dto actor_id now db
    ]
