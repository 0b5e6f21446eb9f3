-- ===== src/Cash/Selling.antt =====
-- `sell` of backend/src/cash/cash.service.ts: the minutes of a sale, and the sale from its checks to its answer.
pub mod Laws
pub mod Credits
pub mod Steps
mod Finish
use oyna.Base.{
  ℕ, ◌+◌, ◌*◌, Bool, true, false, Option, none, some, List, [], ◌∷◌, ◌++◌, String, ltb, ◌==◌,
  if◌then◌else◌, find, is_some, keep, length,
}
use oyna.Rules.Tier.{LoyaltyTier, bronze}
use oyna.Rules.Calendar.{Date}
use oyna.Ledger.State.{KeyRef, of_sale, sale_minutes, User, Db, Result, ok, err}
use oyna.Ledger.Service.{TopupInput, ToppedUp, credit_topup}
use oyna.Loyalty.State.{Profile, profile_of}
use oyna.Cash.State.{Role, completed, Sale, CashDb}
use oyna.Cash.Tables.{ledger_error, unknown_user, Outcome, done, failed, update_sale, max_by}
use oyna.Cash.Sell.{
  CreateSale, players_of, total_of, game_minutes_of, booking_lines, booking_of_lines, payments_of,
  Checked, check_sale,
}
use oyna.Cash.Goods.{first_of, issue_certificates, pay_booking, take_lines, add_purchase}

abbrev pub sale_number : Sale → ℕ
sale_number s = s.number

abbrev pub next_sale_number : ℕ → CashDb → ℕ
next_sale_number venue_id db = max_by sale_number (keep (λ s. s.venue_id == venue_id) db.sales) + 1

abbrev pub minutes_of_sale : CreateSale → Checked → ℕ
minutes_of_sale dto c = if dto.guest then 0 else game_minutes_of c.lines

abbrev comment_of : Option String → Bool → Option String
comment_of (some c) guest = some c
comment_of none true = some "Гость"
comment_of none false = none

abbrev pub new_sale : CreateSale → ℕ → Checked → Date → CashDb → Sale
new_sale dto operator_id c now db = record {
  id = db.next_id;
  number = next_sale_number dto.venue_id db;
  venue_id = dto.venue_id;
  shift_id = c.shift.id;
  operator_id = operator_id;
  user_ids = players_of dto;
  is_guest = dto.guest;
  booking_id = booking_of_lines (booking_lines c.lines);
  total_tenge = total_of c.lines;
  minutes_credited = minutes_of_sale dto c;
  bonus_minutes = 0;
  status = completed;
  receipt_checked = dto.receipt_checked;
  receipt_number = dto.receipt_number;
  comment = comment_of dto.comment dto.guest;
  entered_after_outage = dto.entered_after_outage;
  is_barter = c.is_barter;
  refund_tenge = 0;
  refund_reason = none;
  refunded_by_id = none;
  refunded_at = none;
  cancel_reason = none;
  cancelled_by_id = none;
  cancelled_at = none;
  transaction_id = none;
  created_at = now;
  lines = c.lines;
  payments = payments_of dto.payments;
}

-- Each of several players has a key of their own.
abbrev pub key_of : Sale → ℕ → Option KeyRef
key_of sale user_id = if ltb 1 (length sale.user_ids) then some (of_sale sale.id user_id) else none

abbrev pub tier_of : Option Profile → LoyaltyTier
tier_of none = bronze
tier_of (some p) = p.loyalty_status

abbrev pub sale_topup : Sale → ℕ → List Profile → ℕ → TopupInput
sale_topup sale minutes profiles user_id = record {
  user_id = user_id;
  paid_seconds = minutes * 60;
  bonus_seconds = 0;
  tier = tier_of (profile_of user_id profiles);
  operator_id = sale.operator_id;
  transaction_id = sale.id;
  idempotency_key = key_of sale user_id;
  description = sale_minutes sale.number minutes;
}

-- `account_balances.userId` and `transactions.userId` are keys to `users`, which no call of the till deletes from.
abbrev pub has_account : List User → ℕ → Bool
has_account users user_id = is_some (find (λ u. u.id == user_id) users)

-- The bonus minutes of the players together. An exception stops the loop.
abbrev then_credit : Result ToppedUp × Db → Outcome ℕ × Db → Outcome ℕ × Db
then_credit (err e, d) rest = (failed (ledger_error e), d)
then_credit (ok t, d) (done n, d') = (done (t.bonus_minutes + n), d')
then_credit (ok t, d) (failed e, d') = (failed e, d')

-- Nothing has asked whether the players exist: for one who does not, `creditTopup` throws where it locks the
-- balance, and its transaction writes nothing.
unfoldable pub credit_players :
    Sale → ℕ → List Profile → Date → List User → List ℕ → Db → Outcome ℕ × Db
credit_players sale minutes profiles now users [] db = (done 0, db)
credit_players sale minutes profiles now users (u ∷ us) db =
    let r = credit_topup (sale_topup sale minutes profiles u) now db in
    let rest = credit_players sale minutes profiles now users us r.1 in
    if has_account users u then then_credit r rest else (failed unknown_user, db)

pub record Sold : Type 0 where
  pub sale_id : ℕ
  pub minutes_per_player : ℕ
  pub bonus_minutes : ℕ

abbrev pub with_bonus : ℕ → Sale → Sale
with_bonus bonus s = record s { bonus_minutes = bonus }

abbrev pub note_bonus : Sale → ℕ → CashDb → CashDb
note_bonus sale bonus db = if ltb 0 bonus then update_sale sale.id (with_bonus bonus) db else db

abbrev pub may_buy : List User → Option ℕ → Bool
may_buy users none = true
may_buy users (some u) = has_account users u

-- After the certificates: booking, stock and the purchase.
abbrev pub finish_issued :
    Sale → ℕ → ℕ → List User → Outcome {0} Unit × CashDb → Outcome Sold × CashDb
finish_issued sale minutes bonus users (failed e, db) = (failed e, db)
finish_issued sale minutes bonus users (done u, issued) =
    let paid = pay_booking sale.booking_id (booking_lines sale.lines) issued in
    let taken = take_lines sale sale.lines paid in
    if may_buy users (first_of sale.user_ids)
    then (
      done (record { sale_id = sale.id; minutes_per_player = minutes; bonus_minutes = bonus }),
      add_purchase sale taken,
    )
    else (failed unknown_user, taken)

-- After the minutes.
unfoldable pub finish_sale :
    Sale → ℕ → Date → (ℕ → ℕ) → List User → Outcome ℕ × CashDb → Outcome Sold × CashDb
finish_sale sale minutes now code users (failed e, db) = (failed e, db)
finish_sale sale minutes now code users (done bonus, db) =
    finish_issued sale minutes bonus users
      (issue_certificates sale sale.lines now code (note_bonus sale bonus db))

abbrev pub set_ledger : Db → CashDb → CashDb
set_ledger d db = record db { club = record db.club { ledger = d } }

unfoldable pub give_minutes : Sale → ℕ → Date → CashDb → Outcome ℕ × CashDb
give_minutes sale minutes now db =
    let l = db.club.ledger in
    let r = credit_players sale minutes db.club.profiles now l.users sale.user_ids l in
    if ltb 0 minutes then (r.0, set_ledger r.1 db) else (done 0, db)

unfoldable pub write_sale :
    CreateSale → ℕ → Checked → Date → (ℕ → ℕ) → CashDb → Outcome Sold × CashDb
write_sale dto operator_id c now code db =
    let sale = new_sale dto operator_id c now db in
    let created = record db { sales = db.sales ++ sale ∷ []; next_id = db.next_id + 1 } in
    finish_sale sale c.per_player now code db.club.ledger.users
      (give_minutes sale c.per_player now created)

abbrev pub write_checked :
    CreateSale → ℕ → Date → (ℕ → ℕ) → CashDb → Outcome Checked → Outcome Sold × CashDb
write_checked dto operator_id now code db (failed e) = (failed e, db)
write_checked dto operator_id now code db (done c) = write_sale dto operator_id c now code db

unfoldable pub sell : CreateSale → ℕ → Role → Date → (ℕ → ℕ) → CashDb → Outcome Sold × CashDb
sell dto operator_id role now code db =
    write_checked dto operator_id now code db (check_sale dto operator_id role now db)
