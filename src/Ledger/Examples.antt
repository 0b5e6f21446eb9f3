-- ===== src/Ledger/Examples.antt =====
-- A small ledger, in the figures of backend/src/domain/rules.spec.ts, and the ledger's theorems at it.
use oyna.Base.{ℕ, ◌+◌, ◌*◌, ◌≡◌, refl, false, none, some, arith, update_where}
use oyna.Rules.Tier.{silver, topup_bonus_minutes}
use oyna.Rules.Calendar.{paid_ttl_ms}
use oyna.Rules.Spend.{MinuteKind}
use oyna.Ledger.State.{Key, text, ok, is_due_of, balance_of}
use oyna.Ledger.Ops.{
  CreditInput, by_kind, credit_tx, ensure_legacy, expire_user, expire_each, expire_grant,
  sync_balance, is_blocked, lock_balance,
}
use oyna.Ledger.Service.{
  Spent, TopupInput, bonus_minutes_of, credit_topup, opened, prepared, prepare_balance,
  spend_for_session,
}
use oyna.Ledger.Sample.{noon, tables, tables-IsLedger}
use oyna.Ledger.Invariant.{IsLedger}
use oyna.Ledger.Invariant.Rows.{held}
use oyna.Ledger.Spending.{IsPaid, spend_for_session-IsPaid}
use oyna.Ledger.Crediting.{IsAdded, credit_tx_once}
use oyna.Ledger.Topup.{credit_topup-IsAdded}
use oyna.Ledger.Expiry.{NoneDue, emptied, expire_user-grants}
use oyna.Ledger.Prepare.{IsPrepared, prepare_balance-IsPrepared}
use oyna.Ledger.Reports.{expire_all_due, is_open_ended, launch_paid_expiry}
use oyna.Ledger.Sweep.{expire_all_due_lem, dated, launch_paid_expiry_lem}

program : Unit {0}
unfolding prepared opened ensure_legacy lock_balance expire_user expire_each expire_grant is_blocked
    credit_tx sync_balance
program = tt

hall_holds : held 7 (prepared 7 noon tables).grants ≡ 3000
unfolding program
hall_holds = refl

hall_free : is_blocked 7 noon tables ≡ false
unfolding program
hall_free = refl

spend_for_session-IsPaid_example :
    (spent : Spent) × ((spend_for_session 7 100 600 noon tables).0 ≡ ok spent)
    × IsPaid 7 600 (prepared 7 noon tables) (spend_for_session 7 100 600 noon tables).1 spent
spend_for_session-IsPaid_example =
    spend_for_session-IsPaid 7 100 600 noon tables tables-IsLedger hall_free
      (rw hall_holds (omega arith))

abbrev reward_of : ℕ → CreditInput
reward_of seconds = record {
  user_id = 7;
  seconds = seconds;
  kind = MinuteKind.reward;
  source = "lvl10";
  reason = text "";
  idempotency_key = some (Key.other 50);
  created_by_id = none;
  transaction_id = none;
  session_id = none;
  tier = some silver;
  expires_at = by_kind;
}

credit_tx_once_example :
    let (grant, after) = credit_tx (reward_of 600) noon tables in
    credit_tx (reward_of 1200) (noon + 1) after ≡ (grant, after)
credit_tx_once_example =
    credit_tx_once (reward_of 600) (reward_of 1200) noon (noon + 1) (Key.other 50) tables refl refl

abbrev sixty : TopupInput
sixty = record {
  user_id = 7;
  paid_seconds = 3600;
  bonus_seconds = 0;
  tier = silver;
  operator_id = 1;
  transaction_id = 500;
  idempotency_key = none;
  description = text "";
}

credit_topup-IsAdded_example :
    let after = (credit_topup sixty noon tables).1 in
    IsAdded 7 (3600 + bonus_minutes_of sixty * 60) (opened 7 noon tables) after
    × (balance_of 7 after.balances
        ≡ some (record { user_id = 7; available_seconds = held 7 after.grants }))
credit_topup-IsAdded_example =
    credit_topup-IsAdded sixty noon tables tables-IsLedger refl refl (unfold program in refl)
      (unfold program in refl)

sixty_bonus : bonus_minutes_of sixty ≡ 10
unfolding topup_bonus_minutes
sixty_bonus = refl

expire_user-grants_example :
    (expire_user 7 noon tables).grants ≡ update_where (is_due_of 7 noon) emptied tables.grants
expire_user-grants_example = expire_user-grants 7 noon tables tables-IsLedger

prepare_balance-IsPrepared_example :
    let (seconds, after) = prepare_balance 7 noon tables in
    IsPrepared 7 seconds after × NoneDue 7 noon after.grants
prepare_balance-IsPrepared_example =
    prepare_balance-IsPrepared 7 noon tables tables-IsLedger hall_free

expire_all_due_lem_example :
    let after = (expire_all_due noon tables).1 in
    IsLedger after × (after.users ≡ tables.users) × NoneDue 7 noon after.grants
expire_all_due_lem_example = expire_all_due_lem 7 noon tables tables-IsLedger refl refl

launch_paid_expiry_lem_example :
    (launch_paid_expiry noon tables).1.grants
    ≡ update_where is_open_ended (dated (noon + paid_ttl_ms)) tables.grants
launch_paid_expiry_lem_example = launch_paid_expiry_lem noon tables tables-IsLedger
