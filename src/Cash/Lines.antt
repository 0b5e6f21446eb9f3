-- ===== src/Cash/Lines.antt =====
-- `resolveLines` and `checkBarter` of backend/src/cash/cash.service.ts: the lines of a sale with the prices
-- that the server checked.
use oyna.Base.{
  ℕ, ◌*◌, ◌%◌, Bool, true, false, ◌&&◌, ◌||◌, not, is_some, or_else, Option, none, some, List, [],
  ◌∷◌, String, ltb, ◌==◌, if◌then◌else◌, find, keep, length,
}
use oyna.Rules.Calendar.{Date}
use oyna.Cash.SaleRules.{Priced, day_price, BookingMoney, DueKind, paid, Due, booking_due}
use oyna.Cash.State.{
  LineKind, item, certificate, booking, Category, other, certificate_item, barter, booking_line,
  LineName, named, certificate_of, booking_of, SaleLine, CatalogItem, Booking, BookingStatus,
  cancelled_booking, no_show, CashDb,
}
use oyna.Cash.Tables.{
  ◌>>=◌, no_lines, no_booking_id, no_booking_row, booking_cancelled, booking_paid, booking_amount,
  no_item, not_in_catalog, certificate_tens, barter_mixed, barter_comment, Outcome, done, failed,
  booking_by_id,
}

-- `kind` is ITEM where none is given.
pub record LineDto : Type 0 where
  pub kind : LineKind
  pub item_id : Option ℕ
  pub booking_id : Option ℕ
  pub name : String
  pub qty : ℕ
  pub price_tenge : ℕ
  pub minutes : Option ℕ

abbrev pub is_off : BookingStatus → Bool
is_off cancelled_booking = true
is_off no_show = true
is_off _ = false

abbrev pub money_of : Booking → BookingMoney
money_of b = record {
  amount_tenge = b.amount_tenge;
  prepay_tenge = b.prepay_tenge;
  paid_tenge = b.paid_tenge;
}

abbrev pub is_paid : DueKind → Bool
is_paid paid = true
is_paid _ = false

-- The name of the line tells whether the whole amount due is paid.
abbrev pub booking_line_of : Booking → ℕ → Due → SaleLine
booking_line_of b price due = record {
  kind = booking;
  item_id = none;
  booking_id = some b.id;
  name = booking_of (price == due.amount) b.contact_name;
  qty = 1;
  price_tenge = price;
  minutes = 0;
  category = booking_line;
}

unfoldable pub resolve_booking : LineDto → Bool → Booking → Outcome SaleLine
resolve_booking line is_admin b =
    let due = booking_due (money_of b) in
    let price = if is_admin then line.price_tenge else due.amount in
    if is_off b.status
    then failed booking_cancelled
    else if is_paid due.kind
    then failed booking_paid
    else if ltb price 1 || ltb due.remaining price
    then failed booking_amount
    else done (booking_line_of b price due)

abbrev pub item_by_id : Option ℕ → CashDb → Option CatalogItem
item_by_id none db = none
item_by_id (some id) db = find (λ i. i.id == id) db.items

abbrev pub priced : CatalogItem → Priced
priced i = record { price_tenge = i.price_tenge; price_weekend_tenge = i.price_weekend_tenge }

-- An owner's price is the one entered, anybody else's that of the day.
abbrev pub price_of : LineDto → Bool → Date → Option CatalogItem → ℕ
price_of line true now i = line.price_tenge
price_of line false now none = line.price_tenge
price_of line false now (some i) = day_price (priced i) now

abbrev pub id_of : Option CatalogItem → Option ℕ
id_of none = none
id_of (some i) = some i.id

abbrev pub certificate_minutes : LineDto → Option CatalogItem → ℕ
certificate_minutes line none = or_else line.minutes 0
certificate_minutes line (some i) = or_else i.minutes (or_else line.minutes 0)

abbrev pub item_minutes : LineDto → Option CatalogItem → ℕ
item_minutes line none = or_else line.minutes 0
item_minutes line (some i) = or_else i.minutes 0

abbrev pub item_name : LineDto → Option CatalogItem → LineName
item_name line none = named line.name
item_name line (some i) = named i.name

abbrev pub item_category : Option CatalogItem → Category
item_category none = other
item_category (some i) = i.category

unfoldable pub resolve_certificate : LineDto → Bool → Date → Option CatalogItem → Outcome SaleLine
resolve_certificate line is_admin now i =
    let minutes = certificate_minutes line i in
    if minutes == 0 || not (minutes % 10 == 0)
    then failed certificate_tens
    else done (record {
      kind = certificate;
      item_id = id_of i;
      booking_id = none;
      name = certificate_of minutes;
      qty = line.qty;
      price_tenge = price_of line is_admin now i;
      minutes = minutes;
      category = certificate_item;
    })

abbrev pub item_line : LineDto → Bool → Date → Option CatalogItem → SaleLine
item_line line is_admin now i = record {
  kind = item;
  item_id = id_of i;
  booking_id = none;
  name = item_name line i;
  qty = line.qty;
  price_tenge = price_of line is_admin now i;
  minutes = item_minutes line i;
  category = item_category i;
}

abbrev pub is_certificate : LineKind → Bool
is_certificate certificate = true
is_certificate _ = false

abbrev pub is_item : LineKind → Bool
is_item item = true
is_item _ = false

abbrev pub is_booking : LineKind → Bool
is_booking booking = true
is_booking _ = false

unfoldable pub resolve_item : LineDto → Bool → Date → CashDb → Outcome SaleLine
resolve_item line is_admin now db =
    let i = item_by_id line.item_id db in
    if is_some line.item_id && not (is_some i)
    then failed no_item
    else if not (is_some i) && not is_admin
    then failed not_in_catalog
    else if is_certificate line.kind
    then resolve_certificate line is_admin now i
    else done (item_line line is_admin now i)

abbrev pub resolve_booking_row : LineDto → Bool → Option Booking → Outcome SaleLine
resolve_booking_row line is_admin none = failed no_booking_row
resolve_booking_row line is_admin (some b) = resolve_booking line is_admin b

abbrev pub resolve_booking_id : LineDto → Bool → Option ℕ → CashDb → Outcome SaleLine
resolve_booking_id line is_admin none db = failed no_booking_id
resolve_booking_id line is_admin (some id) db =
    resolve_booking_row line is_admin (booking_by_id id db)

unfoldable pub resolve_line : LineDto → Bool → Date → CashDb → Outcome SaleLine
resolve_line line is_admin now db =
    if is_booking line.kind
    then resolve_booking_id line is_admin line.booking_id db
    else resolve_item line is_admin now db

unfoldable pub resolve_each : List LineDto → Bool → Date → CashDb → Outcome (List SaleLine)
resolve_each [] is_admin now db = done []
resolve_each (line ∷ lines) is_admin now db = do
  l ← resolve_line line is_admin now db
  ls ← resolve_each lines is_admin now db
  done (l ∷ ls)

unfoldable pub resolve_lines : List LineDto → Bool → Date → CashDb → Outcome (List SaleLine)
resolve_lines [] is_admin now db = failed no_lines
resolve_lines (line ∷ lines) is_admin now db = resolve_each (line ∷ lines) is_admin now db

abbrev is_barter_category : Category → Bool
is_barter_category barter = true
is_barter_category _ = false

abbrev pub barter_lines : List SaleLine → List SaleLine
barter_lines lines = keep (λ l. is_barter_category l.category) lines

-- A barter is a sale of its own, with a comment.
unfoldable pub check_barter : List SaleLine → Option String → Outcome Bool
check_barter lines comment =
    if length (barter_lines lines) == 0
    then done false
    else if not (length (barter_lines lines) == length lines)
    then failed barter_mixed
    else if not (is_some comment)
    then failed barter_comment
    else done true

abbrev pub line_tenge : SaleLine → ℕ
line_tenge l = l.price_tenge * l.qty

abbrev pub line_minutes : SaleLine → ℕ
line_minutes l = if is_item l.kind then l.minutes * l.qty else 0
