-- ===== src/Ledger/Invariant/Methods.antt =====
-- The private steps of backend/src/ledger/minute-ledger.service.ts under the invariant.
use mathlib.Core.List.{Memᴰ}
use oyna.Base.{
  ℕ, ◌-◌, ◌%◌, ◌≡◌, refl, Bool, true, Bool-cases, Option-cases, inl, inr, List, [], ◌∷◌, map, All,
  keep, arith,
}
use oyna.Base.Distinct.{Distinct, Distinct-keep, Distinct-map, All-map, All-imp}
use oyna.Rules.Calendar.{Date}
use oyna.Rules.Spend.{MinuteLot, plan_spend}
use oyna.Rules.Spend.Slices.{lot_id, slice_id, All-plan_spend, plan_spend-Distinct}
use oyna.Ledger.State.{Grant, Db, is_live_of, is_due_of, balance_of}
use oyna.Ledger.Ops.{ensure_legacy, expire_user, sync_balance, lock_balance, legacy_input}
use oyna.Ledger.Service.{to_lot, opened}
use oyna.Ledger.Invariant.{grant_id_of, IsLedger}
use oyna.Ledger.Invariant.Steps.{credit_tx-IsLedger}
use oyna.Ledger.Invariant.Rows.{All-Mem}
use oyna.Ledger.Invariant.Loops.{IsFrame, IsRow, IsBacked, expire_each-IsFrame}

pub lock_balance-IsLedger :
    (user_id : ℕ) (db : Db) → IsLedger db → IsLedger (lock_balance user_id db)
unfolding lock_balance
lock_balance-IsLedger user_id db l = record {
  accounted = l.accounted;
  numbered = l.numbered;
  distinct = l.distinct;
  filed = l.filed;
}

pub sync_balance-IsLedger :
    (user_id : ℕ) (db : Db) → IsLedger db → IsLedger (sync_balance user_id db).1
unfolding sync_balance
sync_balance-IsLedger user_id db l = record {
  accounted = l.accounted;
  numbered = l.numbered;
  distinct = l.distinct;
  filed = l.filed;
}

pub ensure_legacy-IsLedger :
    (user_id : ℕ) (now : Date) (db : Db) → IsLedger db → IsLedger (ensure_legacy user_id now db)
unfolding ensure_legacy
ensure_legacy-IsLedger user_id now db l = elim (Option-cases (balance_of user_id db.balances)) [
  | inl none_found ↦ rw none_found (ground arith)
  | inr (b, found) ↦ rw found (
      ground (
        arith,
        credit_tx-IsLedger (legacy_input user_id (b.available_seconds - b.available_seconds % 600))
            now db l,
      ))
]

pub opened-IsLedger :
    (user_id : ℕ) (now : Date) (db : Db) → IsLedger db → IsLedger (opened user_id now db)
unfolding opened
opened-IsLedger user_id now db l =
    ensure_legacy-IsLedger user_id now (lock_balance user_id db)
      (lock_balance-IsLedger user_id db l)

-- A row of a user that the query keeps.
live_mine : (user_id : ℕ) (g : Grant) → is_live_of user_id g ≡ true → g.user_id ≡ user_id
live_mine user_id g h = ground arith

due_mine :
    (user_id : ℕ) (now : Date) (g : Grant) → is_due_of user_id now g ≡ true → g.user_id ≡ user_id
due_mine user_id now g h = ground arith

-- The rows that a query keeps are rows of the table that pass its test.
pub keep-Mem :
    (p : Grant → Bool) (gs xs : List Grant)
    → All (λ g. Memᴰ g gs) xs
    → All (λ g. Memᴰ g gs × (p g ≡ true)) (keep p xs)
keep-Mem p gs [] m = tt
keep-Mem p gs (x ∷ xs) m = elim (Bool-cases (p x)) [
  | inl kept ↦ rw kept ((m.0, kept), keep-Mem p gs xs m.1)
  | inr left ↦ rw left (keep-Mem p gs xs m.1)
]

pub expire_user-IsFrame :
    (user_id : ℕ) (now : Date) (db : Db)
    → IsLedger db
    → IsFrame user_id db (expire_user user_id now db)
unfolding expire_user
expire_user-IsFrame user_id now db l =
    let due = keep (is_due_of user_id now) db.grants in
    expire_each-IsFrame user_id now due db
      (Distinct-keep grant_id_of (is_due_of user_id now) db.grants l.distinct)
      (All-imp {P = λ g. Memᴰ g db.grants × (is_due_of user_id now g ≡ true)}
        {Q = IsRow user_id db.grants} (λ g r. (r.0, due_mine user_id now g r.1)) due
        (keep-Mem (is_due_of user_id now) db.grants db.grants (All-Mem db.grants)))
      l

-- A lot, with the row that it was read from.
pub record IsLotOf (user_id : ℕ) (gs : List Grant) (lot : MinuteLot) : Type 0 where
  pub grant : Grant
  pub member : Memᴰ grant gs
  pub mine : grant.user_id ≡ user_id
  pub read : lot ≡ to_lot grant

abbrev pub lots_of : ℕ → List Grant → List MinuteLot
lots_of user_id gs = map to_lot (keep (is_live_of user_id) gs)

lots_of-IsLotOf : (user_id : ℕ) (gs : List Grant) → All (IsLotOf user_id gs) (lots_of user_id gs)
lots_of-IsLotOf user_id gs =
    let live = keep (is_live_of user_id) gs in
    All-map (IsLotOf user_id gs) to_lot live (
      All-imp {P = λ g. Memᴰ g gs × (is_live_of user_id g ≡ true)}
        {Q = λ g. IsLotOf user_id gs (to_lot g)}
        (λ g r. record { grant = g; member = r.0; mine = live_mine user_id g r.1; read = refl })
        live (keep-Mem (is_live_of user_id) gs gs (All-Mem gs)))

pub plan-IsBacked :
    (user_id seconds : ℕ) (gs : List Grant)
    → Distinct grant_id_of gs
    → All (IsBacked user_id gs) (plan_spend (lots_of user_id gs) seconds)
      × Distinct slice_id (plan_spend (lots_of user_id gs) seconds)
plan-IsBacked user_id seconds gs d = (
  All-plan_spend (IsLotOf user_id gs) (IsBacked user_id gs)
      (λ lot s r fits. record {
        grant = r.grant;
        member = r.member;
        mine = r.mine;
        same = cc r.read;
        fits = rw r.read at fits;
      })
      (lots_of user_id gs) seconds (lots_of-IsLotOf user_id gs),
  plan_spend-Distinct (lots_of user_id gs) seconds (
      Distinct-map lot_id to_lot (keep (is_live_of user_id) gs)
        (Distinct-keep grant_id_of (is_live_of user_id) gs d)),
)
