-- ===== src/Ledger/Sample.antt =====
-- A small ledger, in the figures of backend/src/domain/rules.spec.ts, for tests.
use oyna.Base.{ℕ, ◌+◌, ◌*◌, true, false, none, some, [], ◌∷◌, arith}
use oyna.Rules.Calendar.{Date}
use oyna.Rules.Spend.{MinuteKind}
use oyna.Ledger.State.{Key, text, Grant, Entry, User, Db, credit}
use oyna.Ledger.Invariant.{IsLedger}

abbrev pub noon : Date
noon = 63954000000000

abbrev pub lot : ℕ → MinuteKind → ℕ → Date → Grant
lot id kind seconds expires_at = record {
  id = id;
  user_id = 7;
  kind = kind;
  seconds = seconds;
  remaining_seconds = seconds;
  expires_at = some expires_at;
  source = "topup";
  idempotency_key = some (Key.other id);
  loyalty_status = none;
  transaction_id = none;
  session_id = none;
  created_by_id = none;
  reason = text "";
  created_at = noon;
}

abbrev pub credit_of : ℕ → ℕ → Entry
credit_of id seconds = record {
  id = id + 10;
  user_id = 7;
  grant_id = id;
  type = credit;
  seconds = seconds;
  reason = text "";
  session_id = none;
  created_by_id = none;
  created_at = noon;
}

abbrev pub player : User
player = record { id = 7; is_active = true; block_permanent = false; blocked_until = none }

-- Thirty bonus minutes for thirty days, twenty paid minutes for one, and ten that are past.
abbrev pub tables : Db
tables = record {
  users = player ∷ record player { id = 8; block_permanent = true } ∷ [];
  grants =
      lot 0 MinuteKind.bonus 1800 (noon + 30 * 86400000)
      ∷ lot 1 MinuteKind.paid 1200 (noon + 86400000)
      ∷ lot 2 MinuteKind.paid 600 noon
      ∷ [];
  entries = credit_of 0 1800 ∷ credit_of 1 1200 ∷ credit_of 2 600 ∷ [];
  balances = record { user_id = 7; available_seconds = 3600 } ∷ [];
  next_id = 20;
}

pub tables-IsLedger : IsLedger tables
tables-IsLedger = omega arith
