-- ===== src/Ledger/Spending.antt =====
-- `spendForSession` of backend/src/ledger/minute-ledger.service.ts: when it pays, and what it takes.
use oyna.Base.{
  ℕ, ◌+◌, ◌≤◌, ◌<◌, ◌≡◌, refl, sym, ap, subst, ◌∙◌, ◌⊎◌, inl, inr, true, false, Bool-cases, some,
  List, [], ◌∷◌, map, keep, sum_by, ltb, lt→ltb, arith,
}
use oyna.Rules.Calendar.{Date}
use oyna.Rules.Spend.{MinuteKind, SpendSlice, plan_spend, MinuteLot}
use oyna.Rules.Spend.Laws.{plan_spend_total}
use oyna.Ledger.State.{
  Grant, Db, Balance, Result, ok, err, Error, blocked, insufficient, commit, live_seconds,
  is_live_of, balance_of, upsert_balance, remaining,
}
use oyna.Ledger.Ops.{is_blocked, lock_balance, sync_balance}
use oyna.Ledger.Service.{
  to_lot, Spent, seconds_as, slice_seconds, spend_each, spend_body, spend_for_session, opened,
  prepared, plan_of, spent_of, pay_plan,
}
use oyna.Ledger.Invariant.{IsLedger}
use oyna.Ledger.Invariant.Rows.{held, live_seconds-eq-held}
use oyna.Ledger.Invariant.Loops.{others_of, spend_each-IsFrame}
use oyna.Ledger.Invariant.Methods.{
  opened-IsLedger, expire_user-IsFrame, lots_of, plan-IsBacked, sync_balance-IsLedger,
}

pub prepared-IsLedger :
    (user_id : ℕ) (now : Date) (db : Db) → IsLedger db → IsLedger (prepared user_id now db)
unfolding prepared
prepared-IsLedger user_id now db l =
    (expire_user-IsFrame user_id now (opened user_id now db)
      (opened-IsLedger user_id now db l)).ledger

lot_seconds :
    (gs : List Grant)
    → sum_by (λ (l : MinuteLot). l.remaining_seconds) (map to_lot gs) ≡ sum_by remaining gs
lot_seconds [] = refl
lot_seconds (g ∷ gs) = omega (arith, lot_seconds gs)

-- The plan takes what is asked for if the player holds it.
plan_taken :
    (user_id seconds : ℕ) (gs : List Grant)
    → seconds ≤ held user_id gs
    → sum_by slice_seconds (plan_spend (lots_of user_id gs) seconds) ≡ seconds
plan_taken user_id seconds gs h = omega (
  arith,
  plan_spend_total (lots_of user_id gs) seconds,
  lot_seconds (keep (is_live_of user_id) gs),
  live_seconds-eq-held user_id gs,
)

plan_short :
    (user_id seconds : ℕ) (gs : List Grant)
    → held user_id gs < seconds
    → sum_by slice_seconds (plan_spend (lots_of user_id gs) seconds) < seconds
plan_short user_id seconds gs h = omega (
  arith,
  plan_spend_total (lots_of user_id gs) seconds,
  lot_seconds (keep (is_live_of user_id) gs),
  live_seconds-eq-held user_id gs,
)

-- Every slice is counted once, as paid, bonus or manual.
counters_total :
    (plan : List SpendSlice)
    → sum_by (seconds_as MinuteKind.paid) plan
        + sum_by (seconds_as MinuteKind.bonus) plan
        + sum_by (seconds_as MinuteKind.manual) plan
      ≡ sum_by slice_seconds plan
counters_total [] = refl
counters_total (s ∷ plan) = ground (arith, counters_total plan)

balance_of-upsert :
    (user_id seconds : ℕ) (bs : List Balance)
    → balance_of user_id
        (upsert_balance user_id (λ b. record b { available_seconds = seconds }) seconds bs)
      ≡ some (record { user_id = user_id; available_seconds = seconds })
balance_of-upsert user_id seconds [] = ground arith
balance_of-upsert user_id seconds (b ∷ bs) = ground (arith, balance_of-upsert user_id seconds bs)

-- After `syncBalance` the cached balance is what the grants hold.
pub sync_balance-held :
    (user_id : ℕ) (db : Db)
    → balance_of user_id (sync_balance user_id db).1.balances
      ≡ some (record { user_id = user_id; available_seconds = held user_id db.grants })
unfolding sync_balance
sync_balance-held user_id db =
    rw (← live_seconds-eq-held user_id db.grants)
      (balance_of-upsert user_id (live_seconds user_id db.grants) db.balances)

-- `syncBalance` writes the balances only.
pub sync_grants : (user_id : ℕ) (db : Db) → (sync_balance user_id db).1.grants ≡ db.grants
unfolding sync_balance
sync_grants user_id db = refl

pub sync_cached :
    (user_id : ℕ) (db : Db)
    → balance_of user_id (sync_balance user_id db).1.balances
      ≡ some (record {
        user_id = user_id;
        available_seconds = held user_id (sync_balance user_id db).1.grants;
      })
sync_cached user_id db = rw (sync_grants user_id db) (sync_balance-held user_id db)

sync_lowered :
    (user_id seconds : ℕ) (before after : Db)
    → held user_id after.grants + seconds ≡ held user_id before.grants
    → held user_id (sync_balance user_id after).1.grants + seconds ≡ held user_id before.grants
sync_lowered user_id seconds before after h = rw (sync_grants user_id after) h

sync_others :
    (user_id : ℕ) (before after : Db)
    → others_of user_id after.grants ≡ others_of user_id before.grants
    → others_of user_id (sync_balance user_id after).1.grants ≡ others_of user_id before.grants
sync_others user_id before after h = rw (sync_grants user_id after) h

pub record IsPaid (user_id seconds : ℕ) (before after : Db) (spent : Spent) : Type 0 where
  pub exact : spent.taken ≡ seconds
  pub counted : spent.paid + spent.bonus + spent.manual ≡ seconds
  pub ledger : IsLedger after
  pub lowered : held user_id after.grants + seconds ≡ held user_id before.grants
  pub others : others_of user_id after.grants ≡ others_of user_id before.grants
  pub cached :
      balance_of user_id after.balances
      ≡ some (record { user_id = user_id; available_seconds = held user_id after.grants })

is_blocked-lock_balance :
    (user_id : ℕ) (now : Date) (db : Db)
    → is_blocked user_id now (lock_balance user_id db) ≡ is_blocked user_id now db
unfolding is_blocked lock_balance
is_blocked-lock_balance user_id now db = refl

module _ (user_id session_id seconds : ℕ) (now : Date) (db : Db) where
  spend_body-blocked :
      is_blocked user_id now db ≡ true
      → spend_body user_id session_id seconds now db ≡ (err blocked, lock_balance user_id db)
  unfolding spend_body
  spend_body-blocked b = rw (is_blocked-lock_balance user_id now db, b)

  spend_body-short :
      is_blocked user_id now db ≡ false
      → ltb (sum_by slice_seconds (plan_of user_id seconds (prepared user_id now db))) seconds
        ≡ true
      → spend_body user_id session_id seconds now db ≡ (err insufficient, prepared user_id now db)
  unfolding spend_body
  spend_body-short free few = rw (is_blocked-lock_balance user_id now db, free, few)

  spend_body-pays :
      is_blocked user_id now db ≡ false
      → ltb (sum_by slice_seconds (plan_of user_id seconds (prepared user_id now db))) seconds
        ≡ false
      → let plan = plan_of user_id seconds (prepared user_id now db) in
        spend_body user_id session_id seconds now db
        ≡ (ok (spent_of plan), pay_plan user_id session_id now plan (prepared user_id now db))
  unfolding spend_body
  spend_body-pays free fits = rw (is_blocked-lock_balance user_id now db, free, fits)

spend_for_session-ok :
    (user_id session_id seconds : ℕ) (now : Date) (db : Db)
    → is_blocked user_id now db ≡ false
    → seconds ≤ held user_id (prepared user_id now db).grants
    → let plan = plan_of user_id seconds (prepared user_id now db) in
      spend_for_session user_id session_id seconds now db
      ≡ (ok (spent_of plan), pay_plan user_id session_id now plan (prepared user_id now db))
unfolding spend_for_session
spend_for_session-ok user_id session_id seconds now db free enough =
    let d = prepared user_id now db in
    let fits : ltb (sum_by slice_seconds (plan_of user_id seconds d)) seconds ≡ false =
      ground (arith, plan_taken user_id seconds d.grants enough) in
    ap (commit db) (spend_body-pays user_id session_id seconds now db free fits)

-- Paying a plan of the player's own rows.
pay_plan-IsPaid :
    (user_id session_id seconds : ℕ) (now : Date) (d : Db)
    → IsLedger d
    → seconds ≤ held user_id d.grants
    → let plan = plan_of user_id seconds d in
      IsPaid user_id seconds d (pay_plan user_id session_id now plan d) (spent_of plan)
pay_plan-IsPaid user_id session_id seconds now d l enough =
    let plan = plan_of user_id seconds d in
    let (backed, apart) = plan-IsBacked user_id seconds d.grants l.distinct in
    let (frame, lowered) = spend_each-IsFrame user_id session_id now plan d apart backed l in
    let total = plan_taken user_id seconds d.grants enough in
    let after = spend_each user_id session_id now plan d in
    record {
      exact = total;
      counted = counters_total plan ∙ total;
      ledger = sync_balance-IsLedger user_id after frame.ledger;
      lowered = sync_lowered user_id seconds d after (omega (arith, total, lowered));
      others = sync_others user_id d after frame.others;
      cached = sync_cached user_id after;
    }

-- Where the books balance, a player who is not blocked and holds enough, after the expiry, pays
-- exactly the seconds asked for: they are split into paid, bonus and manual ones, the books still
-- balance, the player's minutes fall by them from what was left after the expiry, no other
-- player's grant changes, and the cached balance agrees.
pub spend_for_session-IsPaid :
    (user_id session_id seconds : ℕ) (now : Date) (db : Db)
    → IsLedger db
    → is_blocked user_id now db ≡ false
    → seconds ≤ held user_id (prepared user_id now db).grants
    → (spent : Spent) × ((spend_for_session user_id session_id seconds now db).0 ≡ ok spent)
      × IsPaid user_id seconds
          (prepared user_id now db)
          (spend_for_session user_id session_id seconds now db).1
          spent
spend_for_session-IsPaid user_id session_id seconds now db l free enough =
    let d = prepared user_id now db in
    let plan = plan_of user_id seconds d in
    let done = spend_for_session-ok user_id session_id seconds now db free enough in
    (
      spent_of plan,
      ap (λ (r : Result Spent × Db). r.0) done,
      subst (λ (r : Result Spent × Db). IsPaid user_id seconds d r.1 (spent_of plan)) (sym done)
          (pay_plan-IsPaid user_id session_id seconds now d (prepared-IsLedger user_id now db l)
            enough),
    )

-- A blocked player, or one who holds too little, pays nothing: the call fails and no table changes.
pub spend_for_session_refused :
    (user_id session_id seconds : ℕ) (now : Date) (db : Db)
    → (is_blocked user_id now db ≡ true) ⊎ (held user_id (prepared user_id now db).grants < seconds)
    → (e : Error) × (spend_for_session user_id session_id seconds now db ≡ (err e, db))
unfolding spend_for_session
spend_for_session_refused user_id session_id seconds now db (inl b) =
    (blocked, ap (commit db) (spend_body-blocked user_id session_id seconds now db b))
spend_for_session_refused user_id session_id seconds now db (inr short) =
    elim (Bool-cases (is_blocked user_id now db)) [
      | inl b ↦ (blocked, ap (commit db) (spend_body-blocked user_id session_id seconds now db b))
      | inr free ↦
          let few =
            lt→ltb _ _ (plan_short user_id seconds (prepared user_id now db).grants short) in
          (
            insufficient,
            ap (commit db) (spend_body-short user_id session_id seconds now db free few),
          )
    ]
