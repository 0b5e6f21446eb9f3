-- ===== src/Ops/Packages/Laws.antt =====
-- `creditBooking`, `addParticipant` and `removeParticipant` of backend/src/ops/ops.service.ts: who is listed, and
-- who is credited.
use oyna.Base.{
  ℕ, ◌*◌, ◌%◌, ◌≤◌, ◌≡◌, refl, ◌⊎◌, inl, inr, Bool, true, false, Bool-cases, Option-cases, ◌&&◌,
  not, some, List, [], ◌∷◌, ltb, ltb→le, ◌==◌, ==→eq, if◌then◌else◌,
}
use oyna.Rules.Calendar.{Date}
use oyna.Rules.Tier.{LoyaltyTier}
use oyna.Ledger.State.{Result, ok, err}
use oyna.Ledger.Service.{Credited, credit}
use oyna.Ledger.Invariant.{IsLedger}
use oyna.Loyalty.State.{Profile, Club, profile_of}
use oyna.Loyalty.Service.{birthday_gift, birthday_bonus_for, give}
use oyna.Rules.Rank.{in_birthday_window}
use oyna.Loyalty.Keeping.{credit-IsLedger}
use oyna.Cash.State.{
  Role, ParticipantRole, birthday_person, organizer, player, Participant, Booking, CashDb,
}
use oyna.Cash.Tables.{is_admin, booking_by_id}
use oyna.Cash.Selling.{set_ledger}
use oyna.Cash.Lines.{is_off}
use oyna.Ops.State.{OpsError, booking_off, not_paid_up, package_tens, Outcome, done, failed}
use oyna.Ops.Participants.{participants_of}
use oyna.Ops.Packages.{
  package_input, credited_tables, after_person, creditable, tier_in, credit_people, credit_booking,
}

abbrev IsBooks : CashDb → Type 0
IsBooks db = IsLedger db.club.ledger

birthday_bonus_for-IsLedger :
    (user_id : ℕ) (at now : Date) (club : Club)
    → IsLedger club.ledger
    → IsLedger (birthday_bonus_for user_id at now club).1.ledger
unfolding birthday_bonus_for give
birthday_bonus_for-IsLedger user_id at now club l =
    elim (Option-cases (profile_of user_id club.profiles)) [
      | inl missing ↦ rw (missing, birthday_bonus_for) l
      | inr (p, e) ↦ elim (Option-cases p.birth_date) [
        | inl unknown ↦ rw (e, birthday_bonus_for, unknown) l
        | inr (b, known) ↦ rw (e, birthday_bonus_for, known) (of_window p b)
      ]
    ]
  where
    of_window :
        (p : Profile) (birth_date : Date)
        → IsLedger (birthday_gift p birth_date at now club).1.ledger
    of_window p birth_date = elim (Bool-cases (in_birthday_window birth_date at)) [
      | inl inside ↦ rw inside (credit-IsLedger _ now club.ledger l)
      | inr outside ↦ rw outside l
    ]

credited_tables-IsBooks :
    (b : Booking) (p : Participant) (user_id : ℕ) (tier : LoyaltyTier) (now : Date) (db : CashDb)
    → IsBooks db
    → IsBooks (credited_tables b p user_id tier now db)
credited_tables-IsBooks b p user_id tier now db l = of_role p.role
  where
    of_role :
        (role : ParticipantRole)
        → IsBooks (credited_tables b (record p { role = role }) user_id tier now db)
    of_role birthday_person = birthday_bonus_for-IsLedger user_id b.starts_at now db.club l
    of_role organizer = credit-IsLedger _ now db.club.ledger l
    of_role player = l

after_person-IsBooks :
    (x : Result Credited) (user_id : ℕ) (db : CashDb) (rest : Outcome (List ℕ) × CashDb)
    → IsBooks db
    → IsBooks rest.1
    → IsBooks (after_person x user_id db rest).1
after_person-IsBooks (err e) user_id db rest l k = l
after_person-IsBooks (ok c) user_id db (done us, d) l k = k
after_person-IsBooks (ok c) user_id db (failed e, d) l k = k

credit_people-IsBooks :
    (b : Booking) (actor_id : ℕ) (now : Date) (ps : List Participant) (db : CashDb)
    → IsBooks db
    → IsBooks (credit_people b actor_id now ps db).1
unfolding credit_people
credit_people-IsBooks b actor_id now [] db l = l
credit_people-IsBooks b actor_id now (p ∷ ps) db l = elim (Option-cases (creditable p db)) [
  | inl skipped ↦ rw (skipped, credit_people) (credit_people-IsBooks b actor_id now ps db l)
  | inr (u, e) ↦
      let tier = tier_in u db in
      let k = credit-IsLedger (package_input b u actor_id tier) now db.club.ledger l in
      let paid = set_ledger (credit (package_input b u actor_id tier) now db.club.ledger).1 db in
      rw (e, credit_people)
        (after_person-IsBooks _ u paid _ k (
          credit_people-IsBooks b actor_id now ps (credited_tables b p u tier now paid)
            (credited_tables-IsBooks b p u tier now paid k)))
]

-- How the crediting of a booking ends. An exception of the ledger leaves the credits that were made before.
pub data Crediting (b : Booking) (role : Role) (db : CashDb)
    : Outcome (List ℕ) × CashDb → Type 0 where
  not_credited : (e : OpsError) → Crediting b role db (failed e, db)
  credited_people :
      (x : Outcome (List ℕ) × CashDb)
      → is_off b.status ≡ false
      → (b.amount_tenge ≤ b.paid_tenge) ⊎ (is_admin role ≡ true)
      → b.package_minutes * 60 % 600 ≡ 0
      → IsLedger x.1.club.ledger
      → Crediting b role db x

-- Where the books balance and the booking is found, crediting its package is refused and writes nothing, or
-- the booking stands, is paid in full unless the owner credits it, its package is whole sessions, and the
-- books balance, however far the loop over the participants came.
pub credit_booking-Crediting :
    (booking_id actor_id : ℕ) (role : Role) (now : Date) (db : CashDb) (b : Booking)
    → IsLedger db.club.ledger
    → booking_by_id booking_id db ≡ some b
    → Crediting b role db (credit_booking booking_id actor_id role now db)
unfolding credit_booking
credit_booking-Crediting booking_id actor_id role now db b l found =
    rw (found, credit_booking)
      (go (is_off b.status) (ltb b.paid_tenge b.amount_tenge) (is_admin role)
        (b.package_minutes * 60 % 600 == 0) refl refl refl refl)
  where
    people : Outcome (List ℕ) × CashDb
    people = credit_people b actor_id now (participants_of b.id db) db

    go :
        (off low owner whole : Bool)
        → is_off b.status ≡ off
        → ltb b.paid_tenge b.amount_tenge ≡ low
        → is_admin role ≡ owner
        → (b.package_minutes * 60 % 600 == 0) ≡ whole
        → Crediting b role db (
            if off
            then (failed booking_off, db)
            else if low && not owner
            then (failed not_paid_up, db)
            else if not whole
            then (failed package_tens, db)
            else people)
    go true low owner whole e f g h = not_credited _
    go false true false whole e f g h = not_credited _
    go false low true false e f g h = of_low low
      where
        of_low :
            (low : Bool)
            → Crediting b role db
                (if low && not true then (failed not_paid_up, db) else (failed package_tens, db))
        of_low true = not_credited _
        of_low false = not_credited _
    go false true true true e f g h =
        credited_people _ e (inr g) (==→eq _ _ h)
          (credit_people-IsBooks b actor_id now (participants_of b.id db) db l)
    go false false owner false e f g h = not_credited _
    go false false owner true e f g h =
        credited_people _ e (inl (ltb→le _ _ f)) (==→eq _ _ h)
          (credit_people-IsBooks b actor_id now (participants_of b.id db) db l)
