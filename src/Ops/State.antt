-- ===== src/Ops/State.antt =====
-- The tables that backend/src/ops/ops.service.ts reads and writes: those of the till, the sessions, and what it
-- alone uses.
use oyna.Base.{ℕ, Option, List, ◌==◌, find}
use oyna.Rules.Calendar.{Date}
use oyna.Ledger.State.{Db, Error, User}
use oyna.Sessions.State.{GameSession}
use oyna.Cash.State.{CashDb}
use oyna.Ops.Compensation.{Refusal, CompensationReason}

-- The column `blockStartedAt` of a user, where it is set.
pub record BlockStart : Type 0 where
  pub user_id : ℕ
  pub at : Date

pub record SessionCompensation : Type 0 where
  pub id : ℕ
  pub session_id : ℕ
  pub actor_id : ℕ
  pub minutes : ℕ
  pub user_ids : List ℕ
  pub reason : CompensationReason

-- `compensated`: the sessions whose `compensatedAt` is set.
pub record OpsDb : Type 0 where
  pub till : CashDb
  pub sessions : List GameSession
  pub compensated : List ℕ
  pub compensations : List SessionCompensation
  pub block_starts : List BlockStart
  pub next_id : ℕ

-- The texts of the exceptions.
pub data OpsError : Type 0 where
  no_source birthday_people teambuilding_people : OpsError
  cancel_owner no_booking below_prepay : OpsError
  guest_role choose_player already_listed role_taken no_participant credited_participant : OpsError
  booking_off not_paid_up package_tens : OpsError
  nominal_tens no_certificate already_activated activation_over no_user : OpsError
  no_session : OpsError
  refused_compensation : Refusal → OpsError
  ledger_error : Error → OpsError

pub data Outcome {ℓ} (A : Type ℓ) : Type ℓ where
  done : A → Outcome A
  failed : OpsError → Outcome A

abbrev pub ledger_of : OpsDb → Db
ledger_of db = db.till.club.ledger

abbrev pub with_ledger : Db → OpsDb → OpsDb
with_ledger d db = record db { till = record db.till { club = record db.till.club { ledger = d } } }

abbrev pub user_of : ℕ → OpsDb → Option User
user_of user_id db = find (λ u. u.id == user_id) (ledger_of db).users
