-- ===== src/Sessions/Debit.antt =====
-- `debitBalanceOnSessionStart` of backend/src/game-sessions/game-sessions.service.ts: ten minutes of every player.
pub mod Laws
use Prim.Native.Nat.{compare}
use oyna.Base.{
  ℕ, ◌+◌, ◌/◌, Bool, true, false, ◌&&◌, not, is_some, none, some, List, [], ◌∷◌, ◌++◌, ◌==◌,
  if◌then◌else◌,
}
use oyna.Base.Int.{pos, ◌-ℤ◌}
use oyna.Base.Sort.{sort_by}
use oyna.Rules.Calendar.{Date}
use oyna.Ledger.State.{Db, Result, ok, err}
use oyna.Ledger.Service.{Spent, spend_for_session}
use oyna.Loyalty.Service.{SessionDebit, on_session_debit}
use oyna.Sessions.State.{
  GameSession, Transaction, game_debit, session_debit, Hall, no_session, Outcome, done, failed,
  session_by_id, update_session,
}
use oyna.Sessions.Service.{min_balance_seconds}

-- The three counters of the loop.
pub record Debits : Type 0 where
  pub paid : ℕ
  pub bonus : ℕ
  pub manual : ℕ

-- `-Math.ceil(seconds / 60)` stands in the text.
abbrev pub debit_transaction : GameSession → ℕ → ℕ → ℕ → Transaction
debit_transaction s user_id taken id = record {
  id = id;
  user_id = some user_id;
  type = game_debit;
  amount_tenge = 0;
  equivalent_seconds = pos 0 -ℤ pos taken;
  venue_id = some s.venue_id;
  description = session_debit s.id ((taken + 59) / 60);
}

abbrev pub set_ledger : Db → Hall → Hall
set_ledger db hall = record hall { club = record hall.club { ledger = db } }

abbrev pub loyalty_of : GameSession → ℕ → Spent → SessionDebit
loyalty_of s user_id spent = record {
  user_id = user_id;
  session_id = s.id;
  paid_seconds = spent.paid;
  bonus_seconds = spent.bonus;
  manual_seconds = spent.manual;
}

-- The body of the loop after the spending: every exception of the spending is one that the loop
-- passes over.
unfoldable pub note_spent :
    GameSession → ℕ → Date → Result Spent × Db → Debits × Hall → Debits × Hall
note_spent s user_id now (err e, db) (d, hall) = (d, set_ledger db hall)
note_spent s user_id now (ok spent, db) (d, hall) =
    let paying = set_ledger db hall in
    let noted = record paying {
      transactions =
          paying.transactions ++ debit_transaction s user_id spent.taken paying.next_id ∷ [];
      next_id = paying.next_id + 1;
    } in
    (
      record {
        paid = d.paid + spent.paid;
        bonus = d.bonus + spent.bonus;
        manual = d.manual + spent.manual;
      },
      if s.is_tournament
          then noted
          else record noted { club = on_session_debit (loyalty_of s user_id spent) now noted.club },
    )

unfoldable pub debit_player : GameSession → Date → ℕ → Debits × Hall → Debits × Hall
debit_player s now user_id (d, hall) =
    note_spent s user_id now
      (spend_for_session user_id s.id min_balance_seconds now hall.club.ledger) (d, hall)

unfoldable pub debit_each : GameSession → Date → List ℕ → Debits × Hall → Debits × Hall
debit_each s now [] r = r
debit_each s now (user_id ∷ user_ids) r = debit_each s now user_ids (debit_player s now user_id r)

pub record Debited : Type 0 where
  pub already_debited : Bool
  pub deducted_seconds : ℕ

abbrev pub mark_debited : Date → Debits → GameSession → GameSession
mark_debited now d s = record s {
  balance_debited_at = some now;
  deducted_seconds = min_balance_seconds;
  paid_seconds_debited = d.paid;
  bonus_seconds_debited = d.bonus;
}

-- `isTournament` is the one that was read before the loop.
abbrev pub rate : Debits → Bool → GameSession → GameSession
rate d is_tournament s = record s { counts_for_rating = d.manual == 0 && not is_tournament }

unfoldable pub debit_session : GameSession → Date → Hall → Debited × Hall
debit_session s now hall =
    let (d, h) =
      debit_each s now (sort_by compare s.players)
        (record { paid = 0; bonus = 0; manual = 0 }, hall) in
    (
      record { already_debited = false; deducted_seconds = min_balance_seconds },
      update_session s.id (λ t. rate d s.is_tournament (mark_debited now d t)) h,
    )

unfoldable pub debit_balance : ℕ → Date → Hall → Outcome Debited × Hall
debit_balance session_id now hall = elim (session_by_id session_id hall) [
  | none ↦ (failed no_session, hall)
  | some s ↦
      let (answer, h) = debit_session s now hall in
      if is_some s.balance_debited_at
      then (done (record { already_debited = true; deducted_seconds = s.deducted_seconds }), hall)
      else (done answer, h)
]
