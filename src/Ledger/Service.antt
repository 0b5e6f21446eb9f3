-- ===== src/Ledger/Service.antt =====
-- The methods of backend/src/ledger/minute-ledger.service.ts that credit, spend and expire minutes.
use oyna.Base.{
  ℕ, ◌+◌, ◌-◌, ◌*◌, ◌/◌, ◌%◌, max, Bool, true, false, ◌||◌, not, Option, none, some, List, [], ◌∷◌,
  ltb, leb, ◌==◌, if◌then◌else◌, or_else, keep, map, sum_by,
}
use oyna.Rules.Tier.{LoyaltyTier, topup_bonus_minutes}
use oyna.Rules.Calendar.{Date, paid_ttl_ms, session_seconds, bonus_expires_at}
use oyna.Rules.Spend.{MinuteKind, paid, bonus, MinuteLot, SpendSlice, plan_spend}
use oyna.Ledger.State.{
  KeyRef, of_transaction, topup, topup_bonus, Reason, topup_bonus_of, session_start, Grant, Entry,
  Db, credit_multiple, paid_multiple, bonus_multiple, blocked, insufficient, Result, ok, err,
  transaction, debit, create_entry, update_grant, is_live_of,
}
use oyna.Ledger.Ops.{
  CreditInput, at_date, credit_tx, ensure_legacy, expire_user, sync_balance, is_blocked,
  lock_balance,
}

-- What the body of a spending or preparing transaction does first.
unfoldable pub opened : ℕ → Date → Db → Db
opened user_id now db = ensure_legacy user_id now (lock_balance user_id db)

-- The part of `prepareBalance` that writes; what it reads out is `breakdown`.
unfoldable pub prepare_balance : ℕ → Date → Db → ℕ × Db
unfolding opened
prepare_balance user_id now db =
    let d = opened user_id now db in
    sync_balance user_id (if is_blocked user_id now d then d else expire_user user_id now d)

pub record Credited : Type 0 where
  pub grant : Grant
  pub available_seconds : ℕ

unfoldable pub credit : CreditInput → Date → Db → Result Credited × Db
unfolding opened
credit input now db =
    if leb input.seconds 0 || not (input.seconds % session_seconds == 0)
    then (err credit_multiple, db)
    else let (grant, d) = credit_tx input now (opened input.user_id now db) in
      let (seconds, d') = sync_balance input.user_id d in
      (ok (record { grant = grant; available_seconds = seconds }), d')

pub record TopupInput : Type 0 where
  pub user_id : ℕ
  pub paid_seconds : ℕ
  pub bonus_seconds : ℕ
  pub tier : LoyaltyTier
  pub operator_id : ℕ
  pub transaction_id : ℕ
  pub idempotency_key : Option KeyRef
  pub description : Reason

abbrev topup_ref : TopupInput → KeyRef
topup_ref input = or_else input.idempotency_key (of_transaction input.transaction_id)

abbrev pub paid_input : TopupInput → Date → CreditInput
paid_input input now = record {
  user_id = input.user_id;
  seconds = input.paid_seconds;
  kind = paid;
  source = "topup";
  reason = input.description;
  idempotency_key = some (topup (topup_ref input));
  created_by_id = some input.operator_id;
  transaction_id = some input.transaction_id;
  session_id = none;
  tier = some input.tier;
  expires_at = at_date (some (now + paid_ttl_ms));
}

-- The bonus: that of the status table, or what the cashier entered, if it is more.
abbrev pub bonus_minutes_of : TopupInput → ℕ
bonus_minutes_of input =
    max (input.bonus_seconds / 60) (topup_bonus_minutes input.tier (input.paid_seconds / 60))

abbrev pub bonus_input : TopupInput → Date → CreditInput
bonus_input input now = record {
  user_id = input.user_id;
  seconds = bonus_minutes_of input * 60;
  kind = bonus;
  source = "topup_bonus";
  reason = topup_bonus_of (bonus_minutes_of input);
  idempotency_key = some (topup_bonus (topup_ref input));
  created_by_id = some input.operator_id;
  transaction_id = some input.transaction_id;
  session_id = none;
  tier = some input.tier;
  expires_at = at_date (bonus_expires_at input.tier now);
}

abbrev pub credit_if : Bool → CreditInput → Date → Db → Option Grant × Db
credit_if false input now db = (none, db)
credit_if true input now db = let (grant, d) = credit_tx input now db in (some grant, d)

pub record ToppedUp : Type 0 where
  pub paid_grant : Option Grant
  pub bonus_grant : Option Grant
  pub bonus_minutes : ℕ
  pub available_seconds : ℕ

-- The transaction of `creditTopup`.
unfoldable pub topup_grants : TopupInput → Date → Db → ToppedUp × Db
unfolding opened
topup_grants input now db =
    let (paid_grant, d) =
      credit_if (ltb 0 input.paid_seconds) (paid_input input now) now
        (opened input.user_id now db) in
    let (bonus_grant, d') =
      credit_if (ltb 0 (bonus_minutes_of input)) (bonus_input input now) now d in
    let (seconds, d'') = sync_balance input.user_id d' in
    (
      record {
        paid_grant = paid_grant;
        bonus_grant = bonus_grant;
        bonus_minutes = bonus_minutes_of input;
        available_seconds = seconds;
      },
      d'',
    )

unfoldable pub credit_topup : TopupInput → Date → Db → Result ToppedUp × Db
unfolding topup_grants
credit_topup input now db =
    if not (input.paid_seconds % session_seconds == 0)
    then (err paid_multiple, db)
    else if not (input.bonus_seconds % session_seconds == 0)
    then (err bonus_multiple, db)
    else let (r, d) = topup_grants input now db in (ok r, d)

abbrev pub to_lot : Grant → MinuteLot
to_lot g = record {
  id = g.id;
  remaining_seconds = g.remaining_seconds;
  expires_at = g.expires_at;
  created_at = g.created_at;
  kind = g.kind;
}

pub record Spent : Type 0 where
  pub paid : ℕ
  pub bonus : ℕ
  pub manual : ℕ
  pub taken : ℕ

abbrev pub debit_entry : ℕ → ℕ → Date → SpendSlice → ℕ → Entry
debit_entry user_id session_id now slice id = record {
  id = id;
  user_id = user_id;
  grant_id = slice.id;
  type = debit;
  seconds = slice.seconds;
  reason = session_start session_id;
  session_id = some session_id;
  created_by_id = none;
  created_at = now;
}

-- The body of the loop over the plan.
unfoldable pub spend_slice : ℕ → ℕ → Date → SpendSlice → Db → Db
spend_slice user_id session_id now slice db =
    create_entry (debit_entry user_id session_id now slice) (
      update_grant slice.id
        (λ g. record g { remaining_seconds = g.remaining_seconds - slice.seconds }) db)

unfoldable pub spend_each : ℕ → ℕ → Date → List SpendSlice → Db → Db
spend_each user_id session_id now [] db = db
spend_each user_id session_id now (s ∷ plan) db =
    spend_each user_id session_id now plan (spend_slice user_id session_id now s db)

-- The counter that a slice is added to: `paid`, `bonus` or `manual`.
abbrev pub counted_as : MinuteKind → MinuteKind
counted_as MinuteKind.manual = MinuteKind.manual
counted_as MinuteKind.bonus = MinuteKind.bonus
counted_as MinuteKind.reward = MinuteKind.bonus
counted_as _ = MinuteKind.paid

abbrev pub eq_kind : MinuteKind → MinuteKind → Bool
eq_kind MinuteKind.paid MinuteKind.paid = true
eq_kind MinuteKind.bonus MinuteKind.bonus = true
eq_kind MinuteKind.manual MinuteKind.manual = true
eq_kind _ _ = false

abbrev pub seconds_as : MinuteKind → SpendSlice → ℕ
seconds_as counter s = if eq_kind (counted_as s.kind) counter then s.seconds else 0

abbrev pub slice_seconds : SpendSlice → ℕ
slice_seconds s = s.seconds

abbrev pub plan_of : ℕ → ℕ → Db → List SpendSlice
plan_of user_id seconds db = plan_spend (map to_lot (keep (is_live_of user_id) db.grants)) seconds

abbrev pub spent_of : List SpendSlice → Spent
spent_of plan = record {
  paid = sum_by (seconds_as MinuteKind.paid) plan;
  bonus = sum_by (seconds_as MinuteKind.bonus) plan;
  manual = sum_by (seconds_as MinuteKind.manual) plan;
  taken = sum_by slice_seconds plan;
}

-- The tables when the plan is made: the old balance is a grant, and what is due has expired.
unfoldable pub prepared : ℕ → Date → Db → Db
prepared user_id now db = expire_user user_id now (opened user_id now db)

abbrev pub pay_plan : ℕ → ℕ → Date → List SpendSlice → Db → Db
pay_plan user_id session_id now plan db =
    (sync_balance user_id (spend_each user_id session_id now plan db)).1

-- The transaction of `spendForSession`.
unfoldable pub spend_body : ℕ → ℕ → ℕ → Date → Db → Result Spent × Db
spend_body user_id session_id seconds now db =
    let d = prepared user_id now db in
    let plan = plan_of user_id seconds d in
    if is_blocked user_id now (lock_balance user_id db)
    then (err blocked, lock_balance user_id db)
    else if ltb (sum_by slice_seconds plan) seconds
    then (err insufficient, d)
    else (ok (spent_of plan), pay_plan user_id session_id now plan d)

unfoldable pub spend_for_session : ℕ → ℕ → ℕ → Date → Db → Result Spent × Db
spend_for_session user_id session_id seconds now =
    transaction (spend_body user_id session_id seconds now)
