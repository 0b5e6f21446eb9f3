-- ===== src/Ops/Packages.antt =====
-- `creditBooking` of backend/src/ops/ops.service.ts.
pub mod Laws
use oyna.Base.{
  ℕ, ◌*◌, ◌%◌, ◌&&◌, ◌||◌, not, is_some, Option, none, some, List, [], ◌∷◌, ltb, ◌==◌,
  if◌then◌else◌, update_where,
}
use oyna.Rules.Calendar.{Date}
use oyna.Rules.Spend.{paid, bonus}
use oyna.Rules.Tier.{LoyaltyTier}
use oyna.Ledger.State.{Key, booking_package, organizer_bonus, Result, ok, err}
use oyna.Ledger.Ops.{CreditInput, by_kind}
use oyna.Ledger.Service.{Credited, credit}
use oyna.Loyalty.State.{Club, profile_of}
use oyna.Loyalty.Service.{birthday_bonus_for}
use oyna.Cash.State.{
  Role, ParticipantRole, birthday_person, organizer, Participant, Booking, CashDb,
}
use oyna.Cash.Tables.{is_admin, booking_by_id}
use oyna.Cash.Selling.{tier_of, set_ledger}
use oyna.Cash.Lines.{is_off}
use oyna.Ops.State.{
  no_booking, booking_off, not_paid_up, package_tens, ledger_error, Outcome, done, failed,
}
use oyna.Ops.Participants.{participants_of}

abbrev pub package_input : Booking → ℕ → ℕ → LoyaltyTier → CreditInput
package_input b user_id actor_id tier = record {
  user_id = user_id;
  seconds = b.package_minutes * 60;
  kind = paid;
  source = "booking";
  reason = booking_package b.package_name;
  idempotency_key = some (Key.booking b.id user_id);
  created_by_id = some actor_id;
  transaction_id = none;
  session_id = none;
  tier = some tier;
  expires_at = by_kind;
}

abbrev pub organizer_input : Booking → ℕ → LoyaltyTier → CreditInput
organizer_input b user_id tier = record {
  user_id = user_id;
  seconds = 1200;
  kind = bonus;
  source = "organizer";
  reason = organizer_bonus;
  idempotency_key = some (Key.organizer b.id);
  created_by_id = none;
  transaction_id = none;
  session_id = none;
  tier = some tier;
  expires_at = by_kind;
}

abbrev pub set_club : Club → CashDb → CashDb
set_club club db = record db { club = club }

abbrev pub gift_of : ParticipantRole → Booking → ℕ → Date → CashDb → CashDb
gift_of birthday_person b user_id now db =
    set_club (birthday_bonus_for user_id b.starts_at now db.club).1 db
gift_of role b user_id now db = db

-- The organizer's bonus is two whole sessions, which the ledger does not refuse.
abbrev pub bonus_for : ParticipantRole → Booking → ℕ → LoyaltyTier → Date → CashDb → CashDb
bonus_for organizer b user_id tier now db =
    set_ledger (credit (organizer_input b user_id tier) now db.club.ledger).1 db
bonus_for role b user_id tier now db = db

abbrev pub set_credited : Date → Participant → Participant
set_credited now p = record p { credited_at = some now }

abbrev pub credited_tables : Booking → Participant → ℕ → LoyaltyTier → Date → CashDb → CashDb
credited_tables b p user_id tier now db =
    let given = bonus_for p.role b user_id tier now (gift_of p.role b user_id now db) in
    record given {
      participants = update_where (λ q. q.id == p.id) (set_credited now) given.participants;
    }

-- The answer of one credit, then the rest of the loop.
abbrev pub after_person :
    Result Credited → ℕ → CashDb → Outcome (List ℕ) × CashDb → Outcome (List ℕ) × CashDb
after_person (err e) user_id db rest = (failed (ledger_error e), db)
after_person (ok c) user_id db (done us, d) = (done (user_id ∷ us), d)
after_person (ok c) user_id db (failed e, d) = (failed e, d)

-- The user that a participant is credited as, if it is.
abbrev pub creditable : Participant → CashDb → Option ℕ
creditable p db = if p.is_guest || is_some p.credited_at then none else elim p.user_id [
  | none ↦ none
  | some user_id ↦ elim (profile_of user_id db.club.profiles) [
    | none ↦ none
    | some profile ↦ some user_id
  ]
]

abbrev pub tier_in : ℕ → CashDb → LoyaltyTier
tier_in user_id db = tier_of (profile_of user_id db.club.profiles)

unfoldable pub credit_people :
    Booking → ℕ → Date → List Participant → CashDb → Outcome (List ℕ) × CashDb
credit_people b actor_id now [] db = (done [], db)
credit_people b actor_id now (p ∷ ps) db = elim (creditable p db) [
  | none ↦ credit_people b actor_id now ps db
  | some user_id ↦
      let tier = tier_in user_id db in
      let r = credit (package_input b user_id actor_id tier) now db.club.ledger in
      let paid = set_ledger r.1 db in
      after_person r.0 user_id paid
        (credit_people b actor_id now ps (credited_tables b p user_id tier now paid))
]

abbrev pub credit_of : Booking → ℕ → Role → Date → CashDb → Outcome (List ℕ) × CashDb
credit_of b actor_id role now db =
    let r = credit_people b actor_id now (participants_of b.id db) db in
    if is_off b.status
    then (failed booking_off, db)
    else if ltb b.paid_tenge b.amount_tenge && not (is_admin role)
    then (failed not_paid_up, db)
    else if not (b.package_minutes * 60 % 600 == 0)
    then (failed package_tens, db)
    else r

unfoldable pub credit_booking : ℕ → ℕ → Role → Date → CashDb → Outcome (List ℕ) × CashDb
credit_booking booking_id actor_id role now db = elim (booking_by_id booking_id db) [
  | none ↦ (failed no_booking, db)
  | some b ↦ credit_of b actor_id role now db
]
