-- ===== src/Balance/Laws.antt =====
-- `topup` of backend/src/balance/balance.service.ts: its guards, its rows and its answer.
use oyna.Base.{ℕ, ◌+◌, ◌≡◌, ◌++◌, sum_by}
use oyna.Base.Int.{pos_part}
use oyna.Rules.Tier.{LoyaltyTier}
use oyna.Rules.Calendar.{Date}
use oyna.Ledger.State.{ok}
use oyna.Ledger.Ops.{lock_balance}
use oyna.Ledger.Service.{ToppedUp, credit_topup}
use oyna.Sessions.State.{Transaction}
use oyna.Balance.{Till, TopupDto, topup_rows, credit_input, TopupAnswer, credited}

abbrev pub row_seconds : Transaction → ℕ
row_seconds t = pos_part t.equivalent_seconds

-- A sale that went through: its rows were added, they stand for the seconds sold, and the ledger is as
-- `creditTopup` leaves it for them.
pub record IsSold (dto : TopupDto) (operator_id : ℕ) (now : Date) (till : Till)
    (r : TopupAnswer × Till) : Type 0 where
  pub credit :
      (tier : LoyaltyTier) × (t : ToppedUp) × (credit_topup
          (credit_input dto operator_id tier till.next_id)
          now
          (lock_balance dto.user_id till.ledger)
        ≡ (ok t, r.1.ledger))
      × (r.0 ≡ credited t till.next_id)
  pub sold_seconds :
      (tier : LoyaltyTier)
      → (credit_input dto operator_id tier till.next_id).paid_seconds
          + (credit_input dto operator_id tier till.next_id).bonus_seconds
        ≡ dto.seconds
  pub rows : r.1.transactions ≡ till.transactions ++ topup_rows dto operator_id till.next_id
  pub seconds : sum_by row_seconds (topup_rows dto operator_id till.next_id) ≡ dto.seconds
