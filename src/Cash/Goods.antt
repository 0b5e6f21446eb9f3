-- ===== src/Cash/Goods.antt =====
-- `sell` of backend/src/cash/cash.service.ts: what a sale writes for certificates, bookings and stock, and its
-- purchase row.
use oyna.Base.{
  ℕ, zero, suc, ◌+◌, ◌*◌, Bool, true, Option, none, some, List, [], ◌∷◌, ◌++◌, leb, ◌==◌,
  if◌then◌else◌, sum_by, any, find, update_where,
}
use oyna.Base.Int.{pos, ◌-ℤ◌}
use oyna.Rules.Calendar.{Date, add_days}
use oyna.Cash.State.{
  SaleLine, Sale, CatalogItem, sold, GiftCertificate, BookingStatus, new_booking, confirmed,
  Booking, CashDb,
}
use oyna.Cash.Tables.{code_taken, Outcome, done, failed, update_booking}
use oyna.Cash.Lines.{is_certificate, is_item, line_tenge}

abbrev pub new_certificate : Sale → SaleLine → Date → (ℕ → ℕ) → ℕ → GiftCertificate
new_certificate sale line now code id = record {
  id = id;
  venue_id = sale.venue_id;
  code = code id;
  title = line.name;
  minutes = line.minutes;
  price_tenge = line.price_tenge;
  sale_id = some sale.id;
  status = sold;
  activate_by = add_days now 90;
  activated_at = none;
  activated_for = none;
  created_by_id = sale.operator_id;
}

-- The loop of one line. `code`: the random code of a new certificate, by its id; the column is unique, and a
-- code that is there already is an exception, with the certificates before it written.
unfoldable pub issue_line :
    Sale → SaleLine → Date → (ℕ → ℕ) → ℕ → CashDb → Outcome {0} Unit × CashDb
issue_line sale line now code zero db = (done tt, db)
issue_line sale line now code (suc n) db =
    let added = record db {
      certificates = db.certificates ++ new_certificate sale line now code db.next_id ∷ [];
      next_id = db.next_id + 1;
    } in
    let rest = issue_line sale line now code n added in
    if any (λ c. c.code == code db.next_id) db.certificates then (failed code_taken, db) else rest

abbrev pub add_certificates : Sale → SaleLine → Date → (ℕ → ℕ) → CashDb → Outcome {0} Unit × CashDb
add_certificates sale line now code db =
    if is_certificate line.kind then issue_line sale line now code line.qty db else (done tt, db)

abbrev pub then_issue :
    Outcome {0} Unit × CashDb → Outcome {0} Unit × CashDb → Outcome {0} Unit × CashDb
then_issue (failed e, db) rest = (failed e, db)
then_issue (done u, db) rest = rest

unfoldable pub issue_certificates :
    Sale → List SaleLine → Date → (ℕ → ℕ) → CashDb → Outcome {0} Unit × CashDb
issue_certificates sale [] now code db = (done tt, db)
issue_certificates sale (l ∷ ls) now code db =
    let r = add_certificates sale l now code db in
    then_issue r (issue_certificates sale ls now code r.1)

-- The amount is added, and a new booking whose prepayment is there is confirmed.
abbrev pub status_after : Bool → BookingStatus → BookingStatus
status_after true new_booking = confirmed
status_after _ status = status

abbrev pub paid_more : ℕ → Booking → Booking
paid_more amount b = record b {
  paid_tenge = b.paid_tenge + amount;
  status = status_after (leb b.prepay_tenge (b.paid_tenge + amount)) b.status;
}

abbrev pub pay_booking : Option ℕ → List SaleLine → CashDb → CashDb
pay_booking none lines db = db
pay_booking (some id) lines db = update_booking id (paid_more (sum_by line_tenge lines)) db

abbrev pub take_stock : SaleLine → Sale → CatalogItem → CashDb → CashDb
take_stock line sale i db =
    if i.track_stock
    then record db {
      items =
          update_where (λ j. j.id == i.id)
            (λ j. record j { stock_qty = j.stock_qty -ℤ pos line.qty }) db.items;
      stock_moves =
          db.stock_moves
          ++ record {
            item_id = i.id;
            taken_qty = line.qty;
            shift_id = sale.shift_id;
            operator_id = sale.operator_id;
          }
            ∷ [];
    }
    else db

abbrev pub take_row : SaleLine → Sale → Option CatalogItem → CashDb → CashDb
take_row line sale none db = db
take_row line sale (some i) db = take_stock line sale i db

abbrev pub take_id : SaleLine → Sale → Option ℕ → CashDb → CashDb
take_id line sale none db = db
take_id line sale (some id) db = take_row line sale (find (λ i. i.id == id) db.items) db

unfoldable pub take_lines : Sale → List SaleLine → CashDb → CashDb
take_lines sale [] db = db
take_lines sale (l ∷ ls) db =
    take_lines sale ls (if is_item l.kind then take_id l sale l.item_id db else db)

abbrev pub first_of : List ℕ → Option ℕ
first_of [] = none
first_of (u ∷ us) = some u

abbrev pub with_transaction : ℕ → Sale → Sale
with_transaction id s = record s { transaction_id = some id }

abbrev pub add_purchase : Sale → CashDb → CashDb
add_purchase sale db = record db {
  purchases =
      db.purchases
      ++ record {
        id = db.next_id;
        user_id = first_of sale.user_ids;
        amount_tenge = sale.total_tenge;
        equivalent_seconds = sale.minutes_credited * 60;
        venue_id = sale.venue_id;
      }
        ∷ [];
  sales = update_where (λ s. s.id == sale.id) (with_transaction db.next_id) db.sales;
  next_id = db.next_id + 1;
}
