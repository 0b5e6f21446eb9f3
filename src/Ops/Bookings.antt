-- ===== src/Ops/Bookings.antt =====
-- The bookings of backend/src/ops/ops.service.ts: `createBooking`, `setBookingStatus` and `resizeBooking`.
use oyna.Base.{
  ℕ, ◌+◌, ◌*◌, ◌/◌, Bool, true, false, ◌&&◌, ◌||◌, not, or_else, Option, none, some, [], ◌∷◌, ◌++◌,
  String, ltb, leb, ◌==◌, if◌then◌else◌, find,
}
use oyna.Rules.Calendar.{Date, hour_ms}
use oyna.Cash.State.{
  Role, BookingType, birthday, teambuilding, BookingStatus, new_booking, confirmed, Booking, CashDb,
}
use oyna.Cash.Tables.{is_admin, booking_by_id, update_booking}
use oyna.Cash.Lines.{is_off}
use oyna.Ops.State.{
  no_source, birthday_people, teambuilding_people, cancel_owner, no_booking, below_prepay, Outcome,
  done, failed,
}

-- `Math.round` of a tenth; prices are such that the tenth of a price is exact enough.
abbrev pub birthday_amount : ℕ → ℕ → ℕ
birthday_amount package_price people = (package_price * people + 5) / 10

abbrev pub teambuilding_amount : ℕ → ℕ → ℕ
teambuilding_amount price_per_person people = price_per_person * people

pub record BookingInput : Type 0 where
  pub venue_id : ℕ
  pub type : BookingType
  pub starts_at : Date
  pub contact_name : String
  pub package_name : String
  pub package_minutes : ℕ
  pub package_price : ℕ
  pub people : ℕ
  pub price_per_person : Option ℕ
  pub prepay_tenge : Option ℕ
  pub brought_by_id : Option ℕ
  pub has_source : Bool
  pub actor_id : ℕ

abbrev pub is_birthday : BookingType → Bool
is_birthday birthday = true
is_birthday teambuilding = false

abbrev pub locked_price : BookingInput → ℕ
locked_price input =
    if is_birthday input.type
    then input.package_price
    else or_else input.price_per_person input.package_price

abbrev pub amount_for : BookingType → ℕ → ℕ → ℕ
amount_for type price people =
    if is_birthday type then birthday_amount price people else teambuilding_amount price people

-- Two hours before or after.
abbrev pub is_near : ℕ → Date → Booking → Bool
is_near venue_id at b =
    b.venue_id == venue_id
    && not (is_off b.status)
    && leb at (b.starts_at + 2 * hour_ms)
    && leb b.starts_at (at + 2 * hour_ms)

abbrev pub new_row : BookingInput → ℕ → Booking
new_row input id = record {
  id = id;
  venue_id = input.venue_id;
  type = input.type;
  starts_at = input.starts_at;
  contact_name = input.contact_name;
  package_name = input.package_name;
  package_minutes = input.package_minutes;
  price_locked = locked_price input;
  people = input.people;
  amount_tenge = amount_for input.type (locked_price input) input.people;
  prepay_tenge = or_else input.prepay_tenge 0;
  paid_tenge = 0;
  brought_by_id = or_else input.brought_by_id input.actor_id;
  status = if ltb 0 (or_else input.prepay_tenge 0) then confirmed else new_booking;
}

pub record Created : Type 0 where
  pub booking : Booking
  pub near : Option Booking

unfoldable pub create_booking : BookingInput → CashDb → Outcome Created × CashDb
create_booking input db =
    let b = new_row input db.next_id in
    if not input.has_source
    then (failed no_source, db)
    else if is_birthday input.type && ltb input.people 6
    then (failed birthday_people, db)
    else if not (is_birthday input.type) && (ltb input.people 6 || ltb 20 input.people)
    then (failed teambuilding_people, db)
    else (
      done (record {
        booking = b;
        near = find (is_near input.venue_id input.starts_at) db.bookings;
      }),
      record db { bookings = db.bookings ++ b ∷ []; next_id = db.next_id + 1 },
    )

-- The reason, which is added to the comment, is left out.
unfoldable pub set_booking_status : ℕ → BookingStatus → Role → CashDb → Outcome Booking × CashDb
set_booking_status id status role db =
    if is_off status && not (is_admin role)
    then (failed cancel_owner, db)
    else (elim (booking_by_id id db) [
      | none ↦ (failed no_booking, db)
      | some b ↦ (
        done (record b { status = status }),
        update_booking id (λ c. record c { status = status }) db,
      )
    ])

abbrev pub resized : ℕ → ℕ → Booking → Booking
resized people amount b = record b { people = people; amount_tenge = amount }

abbrev pub resize_of : Booking → ℕ → Role → CashDb → Outcome Booking × CashDb
resize_of b people role db =
    let amount = amount_for b.type b.price_locked people in
    if ltb amount b.prepay_tenge && not (is_admin role)
    then (failed below_prepay, db)
    else (done (resized people amount b), update_booking b.id (resized people amount) db)

unfoldable pub resize_booking : ℕ → ℕ → Role → CashDb → Outcome Booking × CashDb
resize_booking id people role db = elim (booking_by_id id db) [
  | none ↦ (failed no_booking, db)
  | some b ↦ resize_of b people role db
]
