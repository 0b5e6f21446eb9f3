-- ===== src/Ops/Compensating.antt =====
-- `compensateSession` of backend/src/ops/ops.service.ts. The note, a text, is left out.
pub mod Gifts
pub mod Laws
use oyna.Base.{
  ℕ, ◌+◌, ◌*◌, Bool, ◌||◌, Option, none, some, List, [], ◌∷◌, ◌++◌, any, ◌==◌, find, keep, contains,
  unique,
}
use oyna.Rules.Calendar.{Date}
use oyna.Rules.Spend.{bonus}
use oyna.Ledger.State.{Key, compensated, Db, Result, ok, err}
use oyna.Ledger.Ops.{CreditInput, by_kind}
use oyna.Ledger.Service.{Credited, credit}
use oyna.Loyalty.State.{Profile}
use oyna.Sessions.State.{GameSession}
use oyna.Cash.State.{Role}
use oyna.Cash.Tables.{is_admin}
use oyna.Ops.Compensation.{CompensationReason, CompensationInput, Refusal, validate_compensation}
use oyna.Ops.State.{
  SessionCompensation, OpsDb, no_session, refused_compensation, ledger_error, Outcome, done, failed,
  ledger_of, with_ledger,
}

-- `minutes`: none where the number is not whole or is negative.
pub record CompensateInput : Type 0 where
  pub session_id : ℕ
  pub user_ids : List ℕ
  pub minutes : Option ℕ
  pub reason : CompensationReason
  pub has_comment : Bool
  pub actor_id : ℕ
  pub role : Role

abbrev pub is_compensated : ℕ → OpsDb → Bool
is_compensated session_id db =
    any (λ c. c.session_id == session_id) db.compensations || contains session_id db.compensated

abbrev pub to_rules : CompensateInput → GameSession → OpsDb → CompensationInput
to_rules input session db = record {
  minutes = input.minutes;
  user_ids = unique input.user_ids;
  session_player_ids = session.players;
  reason = input.reason;
  has_comment = input.has_comment;
  already_compensated = is_compensated session.id db;
  is_owner = is_admin input.role;
}

abbrev pub minutes_or_0 : Option ℕ → ℕ
minutes_or_0 none = 0
minutes_or_0 (some m) = m

abbrev pub compensation_row : CompensateInput → GameSession → ℕ → SessionCompensation
compensation_row input session id = record {
  id = id;
  session_id = session.id;
  actor_id = input.actor_id;
  minutes = minutes_or_0 input.minutes;
  user_ids = unique input.user_ids;
  reason = input.reason;
}

abbrev pub gift_input : SessionCompensation → Profile → CreditInput
gift_input row user = record {
  user_id = user.id;
  seconds = row.minutes * 60;
  kind = bonus;
  source = "compensation";
  reason = compensated row.session_id;
  idempotency_key = some (Key.compensation row.id user.id);
  created_by_id = some row.actor_id;
  transaction_id = none;
  session_id = some row.session_id;
  tier = some user.loyalty_status;
  expires_at = by_kind;
}

abbrev pub then_gift : ℕ → Result Credited × Db → Outcome (List ℕ) × Db → Outcome (List ℕ) × Db
then_gift user_id (err e, d) rest = (failed (ledger_error e), d)
then_gift user_id (ok c, d) (done us, d') = (done (user_id ∷ us), d')
then_gift user_id (ok c, d) (failed e, d') = (failed e, d')

-- An exception stops the loop.
unfoldable pub gift_each : SessionCompensation → Date → List Profile → Db → Outcome (List ℕ) × Db
gift_each row now [] db = (done [], db)
gift_each row now (u ∷ us) db =
    let r = credit (gift_input row u) now db in then_gift u.id r (gift_each row now us r.1)

-- The users whose ids are given, in the order of their table.
abbrev pub users_in : List ℕ → List Profile → List Profile
users_in ids profiles = keep (λ u. contains u.id ids) profiles

abbrev pub mark_session : GameSession → Outcome (List ℕ) × OpsDb → Outcome (List ℕ) × OpsDb
mark_session session (failed e, db) = (failed e, db)
mark_session session (done us, db) =
    (done us, record db { compensated = session.id ∷ db.compensated })

abbrev pub compensate_with : CompensateInput → GameSession → Date → OpsDb → Outcome (List ℕ) × OpsDb
compensate_with input session now db =
    let row = compensation_row input session db.next_id in
    let noted = record db {
      compensations = db.compensations ++ row ∷ [];
      next_id = db.next_id + 1;
    } in
    let users = users_in row.user_ids db.till.club.profiles in
    let r = gift_each row now users (ledger_of db) in
    mark_session session (r.0, with_ledger r.1 noted)

abbrev pub compensate_checked :
    CompensateInput → GameSession → Date → OpsDb → Option Refusal → Outcome (List ℕ) × OpsDb
compensate_checked input session now db (some problem) = (failed (refused_compensation problem), db)
compensate_checked input session now db none = compensate_with input session now db

unfoldable pub compensate_session : CompensateInput → Date → OpsDb → Outcome (List ℕ) × OpsDb
compensate_session input now db = elim (find (λ s. s.id == input.session_id) db.sessions) [
  | none ↦ (failed no_session, db)
  | some session ↦
      compensate_checked input session now db (validate_compensation (to_rules input session db))
]
