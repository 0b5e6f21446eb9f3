-- ===== src/Ops/Participants.antt =====
-- `addParticipant` and `removeParticipant` of backend/src/ops/ops.service.ts. Names are left out.
pub mod Listing
use oyna.Base.{
  ℕ, ◌+◌, Bool, true, false, ◌&&◌, not, is_some, any, Option, none, some, List, [], ◌∷◌, ◌++◌, ◌==◌,
  if◌then◌else◌, find, keep,
}
use oyna.Cash.State.{ParticipantRole, birthday_person, organizer, player, Participant, CashDb}
use oyna.Cash.Tables.{booking_by_id}
use oyna.Ops.State.{
  no_booking, guest_role, choose_player, already_listed, role_taken, no_participant,
  credited_participant, Outcome, done, failed,
}

-- The role is PLAYER where none is given.
pub record ParticipantInput : Type 0 where
  pub user_id : Option ℕ
  pub is_guest : Bool
  pub role : ParticipantRole

abbrev pub is_special : ParticipantRole → Bool
is_special birthday_person = true
is_special organizer = true
is_special player = false

abbrev pub eq_role : ParticipantRole → ParticipantRole → Bool
eq_role birthday_person birthday_person = true
eq_role organizer organizer = true
eq_role player player = true
eq_role _ _ = false

abbrev pub participants_of : ℕ → CashDb → List Participant
participants_of booking_id db = keep (λ p. p.booking_id == booking_id) db.participants

abbrev pub is_user : ℕ → Option ℕ → Bool
is_user user_id none = false
is_user user_id (some u) = u == user_id

abbrev pub has_user : Option ℕ → List Participant → Bool
has_user none ps = false
has_user (some user_id) ps = any (λ p. is_user user_id p.user_id) ps

abbrev pub has_role : ParticipantRole → List Participant → Bool
has_role role ps = any (λ p. eq_role p.role role) ps

abbrev pub new_participant : ℕ → ParticipantInput → ℕ → Participant
new_participant booking_id input id = record {
  id = id;
  booking_id = booking_id;
  user_id = input.user_id;
  is_guest = input.is_guest;
  role = input.role;
  credited_at = none;
}

unfoldable pub add_participant : ℕ → ParticipantInput → CashDb → Outcome Participant × CashDb
add_participant booking_id input db =
    let p = new_participant booking_id input db.next_id in
    let listed = participants_of booking_id db in
    if input.is_guest && is_special input.role
    then (failed guest_role, db)
    else if not input.is_guest && not (is_some input.user_id)
    then (failed choose_player, db)
    else if not (is_some (booking_by_id booking_id db))
    then (failed no_booking, db)
    else if has_user input.user_id listed
    then (failed already_listed, db)
    else if is_special input.role && has_role input.role listed
    then (failed role_taken, db)
    else (done p, record db { participants = db.participants ++ p ∷ []; next_id = db.next_id + 1 })

abbrev pub remove_of : ℕ → Participant → CashDb → Outcome {0} Unit × CashDb
remove_of booking_id p db =
    if not (p.booking_id == booking_id)
    then (failed no_participant, db)
    else if is_some p.credited_at
    then (failed credited_participant, db)
    else (done tt, record db { participants = keep (λ q. not (q.id == p.id)) db.participants })

unfoldable pub remove_participant : ℕ → ℕ → CashDb → Outcome {0} Unit × CashDb
remove_participant booking_id participant_id db =
    elim (find (λ p. p.id == participant_id) db.participants) [
      | none ↦ (failed no_participant, db)
      | some p ↦ remove_of booking_id p db
    ]
