-- ===== src/Sessions/Starting.antt =====
-- `startSession` of backend/src/game-sessions/game-sessions.service.ts: what it leaves.
use oyna.Base.{◌≡◌, none, [], ◌∷◌, ◌++◌, length, unique}
use oyna.Ledger.Invariant.{IsLedger}
use oyna.Ledger.Prepare.{debits}
use oyna.Sessions.State.{pending, GameSession, SessionError, Hall, Outcome, done, failed}
use oyna.Sessions.Service.{StartSession}

-- The books balance, no player has paid for playing, and no session or transaction is touched.
record IsQuiet (hall after : Hall) : Type 0 where
  books : IsLedger after.club.ledger
  not_paid : debits after.club.ledger.entries ≡ debits hall.club.ledger.entries
  sessions : after.sessions ≡ hall.sessions
  transactions : after.transactions ≡ hall.transactions

-- How a start ends: with no new session, or with one more, which waits and has taken nothing.
pub data Started (dto : StartSession) (hall : Hall) : Outcome GameSession → Hall → Type 0 where
  not_started :
      (e : SessionError) (after : Hall)
      → after.sessions ≡ hall.sessions
      → Started dto hall (failed e) after
  waiting :
      (s : GameSession) (after : Hall)
      → after.sessions ≡ hall.sessions ++ s ∷ []
      → s.status ≡ pending
      → s.balance_debited_at ≡ none
      → s.players ≡ dto.player_ids
      → length (unique dto.player_ids) ≡ length dto.player_ids
      → Started dto hall (done s) after

pub record IsStart (dto : StartSession) (hall : Hall) (r : Outcome GameSession × Hall)
    : Type 0 where
  pub books : IsLedger r.1.club.ledger
  pub not_paid : debits r.1.club.ledger.entries ≡ debits hall.club.ledger.entries
  pub transactions : r.1.transactions ≡ hall.transactions
  pub result : Started dto hall r.0 r.1
