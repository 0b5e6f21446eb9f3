-- ===== src/Cash/Sample.antt =====
-- A small cash desk for tests: an open shift with one sale, two players and a booking.
use oyna.Base.{refl, inl, inr, true, false, Bool-cases, none, some, [], ◌∷◌, arith}
use oyna.Base.Int.{pos}
use oyna.Ledger.Sample.{noon, tables, tables-IsLedger}
use oyna.Loyalty.State.{Club}
use oyna.Cash.State.{
  open_shift, completed, item, games, named, kaspi, CashShift, SaleLine, Sale, CatalogItem, Booking,
  new_booking, birthday, CashDb,
}
use oyna.Cash.Tables.{is_open_of}
use oyna.Cash.Invariant.{OneOpen, IsDesk}

abbrev pub shift : CashShift
shift = record {
  id = 1;
  venue_id = 1;
  number = 1;
  opened_by_id = 5;
  closed_by_id = none;
  status = open_shift;
  opening_cash = 10000;
  previous_close_cash = none;
  opening_note = none;
  closing_cash_actual = none;
  closing_kaspi = none;
  closing_halyk = none;
  closing_freedom = none;
  close_comment = none;
  opened_at = noon;
  closed_at = none;
}

abbrev pub line : SaleLine
line = record {
  kind = item;
  item_id = some 4;
  booking_id = none;
  name = named "20 мин";
  qty = 1;
  price_tenge = 2000;
  minutes = 20;
  category = games;
}

abbrev pub first_sale : Sale
first_sale = record {
  id = 0;
  number = 1;
  venue_id = 1;
  shift_id = 1;
  operator_id = 5;
  user_ids = 7 ∷ [];
  is_guest = false;
  booking_id = none;
  total_tenge = 2000;
  minutes_credited = 20;
  bonus_minutes = 0;
  status = completed;
  receipt_checked = true;
  receipt_number = none;
  comment = none;
  entered_after_outage = false;
  is_barter = false;
  refund_tenge = 0;
  refund_reason = none;
  refunded_by_id = none;
  refunded_at = none;
  cancel_reason = none;
  cancelled_by_id = none;
  cancelled_at = none;
  transaction_id = none;
  created_at = noon;
  lines = line ∷ [];
  payments =
      record { method = kaspi; amount_tenge = 2000; cash_received = none; change_tenge = none }
      ∷ [];
}

abbrev pub packet : CatalogItem
packet = record {
  id = 4;
  venue_id = some 1;
  name = "20 мин";
  category = games;
  price_tenge = 2000;
  price_weekend_tenge = none;
  minutes = some 20;
  active = true;
  track_stock = true;
  stock_qty = pos 9;
}

abbrev pub party : Booking
party = record {
  id = 3;
  venue_id = 1;
  type = birthday;
  starts_at = noon;
  contact_name = "Aza";
  package_name = "LEVEL UP";
  package_minutes = 60;
  price_locked = 5000;
  people = 8;
  amount_tenge = 40000;
  prepay_tenge = 10000;
  paid_tenge = 0;
  brought_by_id = 5;
  status = new_booking;
}

abbrev pub club : Club
club = record {
  ledger = tables;
  profiles = [];
  plays = [];
  visits = [];
  referrals = [];
  drops = [];
}

abbrev pub desk : CashDb
desk = record {
  club = club;
  shifts = shift ∷ [];
  sales = first_sale ∷ [];
  movements = [];
  expenses = [];
  items = packet ∷ [];
  stock_moves = [];
  certificates = [];
  bookings = party ∷ [];
  participants = [];
  purchases = [];
  schedule = [];
  next_id = 10;
}

one_open : OneOpen desk.shifts
one_open venue_id = elim (Bool-cases (is_open_of venue_id shift)) [
  | inl hit ↦ rw hit (omega arith)
  | inr miss ↦ rw miss (omega arith)
]

pub desk-IsDesk : IsDesk desk
desk-IsDesk = record {
  books = tables-IsLedger;
  one_open = one_open;
  sales = record {
    settled = ((refl, omega arith), tt);
    below = (omega arith, tt);
    distinct = (tt, tt);
    counted = (refl, tt);
  };
}
