-- ===== src/Ledger/Topup.antt =====
-- `creditTopup` of backend/src/ledger/minute-ledger.service.ts.
use oyna.Base.{
  ℕ, ◌+◌, ◌*◌, ◌%◌, ◌≡◌, refl, inl, inr, Bool, true, false, Bool-cases, none, some, List, [], ◌∷◌,
  ◌++◌, find, ltb, eq→==, arith,
}
use oyna.Rules.Calendar.{Date}
use oyna.Ledger.State.{Grant, Db, ok, balance_of}
use oyna.Ledger.Ops.{CreditInput, new_grant, find_key, sync_balance}
use oyna.Ledger.Service.{
  opened, TopupInput, paid_input, bonus_input, bonus_minutes_of, credit_if, topup_grants,
  credit_topup,
}
use oyna.Ledger.Invariant.{IsLedger}
use oyna.Ledger.Invariant.Rows.{held}
use oyna.Ledger.Invariant.Methods.{opened-IsLedger, sync_balance-IsLedger}
use oyna.Ledger.Spending.{sync_grants, sync_cached}
use oyna.Ledger.Crediting.{IsAdded, IsAdded-trans, credit_tx-IsAdded, credit_tx-new}

credit_if-IsAdded :
    (given : Bool) (input : CreditInput) (now : Date) (db : Db)
    → IsLedger db
    → find_key input.idempotency_key db.grants ≡ none
    → (given ≡ false → input.seconds ≡ 0)
    → IsAdded input.user_id input.seconds db (credit_if given input now db).1
credit_if-IsAdded true input now db l new z = credit_tx-IsAdded input now db l new
credit_if-IsAdded false input now db l new z = record {
  ledger = l;
  raised = omega (arith, z refl);
  others = refl;
}

no_seconds : (seconds : ℕ) → ltb 0 seconds ≡ false → seconds ≡ 0
no_seconds seconds h = ground arith

find-append_miss :
    (p : Grant → Bool) (gs : List Grant) (g : Grant)
    → find p gs ≡ none
    → p g ≡ false
    → find p (gs ++ g ∷ []) ≡ none
find-append_miss p [] g h t = rw t
find-append_miss p (x ∷ gs) g h t = elim (Bool-cases (p x)) [
  | inl hit ↦ cc (rw hit at h)
  | inr miss ↦ rw miss (find-append_miss p gs g (rw miss at h) t)
]

-- The paid grant does not take the key of the bonus.
bonus_key-new :
    (input : TopupInput) (now : Date) (db : Db)
    → find_key (paid_input input now).idempotency_key db.grants ≡ none
    → find_key (bonus_input input now).idempotency_key db.grants ≡ none
    → find_key
        (bonus_input input now).idempotency_key
        (credit_if (ltb 0 input.paid_seconds) (paid_input input now) now db).1.grants
      ≡ none
bonus_key-new input now db paid_new bonus_new = elim (Bool-cases (ltb 0 input.paid_seconds)) [
  | inl some_paid ↦
      rw (some_paid, credit_tx-new (paid_input input now) now db paid_new)
        (find-append_miss _ db.grants (new_grant (paid_input input now) now db.next_id) bonus_new
          refl)
  | inr no_paid ↦ rw no_paid bonus_new
]

sync-IsAdded :
    (user_id seconds : ℕ) (before after : Db)
    → IsAdded user_id seconds before after
    → IsAdded user_id seconds before (sync_balance user_id after).1
sync-IsAdded user_id seconds before after a = record {
  ledger = sync_balance-IsLedger user_id after a.ledger;
  raised = rw (sync_grants user_id after) a.raised;
  others = rw (sync_grants user_id after) a.others;
}

topup_grants-IsAdded :
    (input : TopupInput) (now : Date) (db : Db)
    → let d = opened input.user_id now db in
      IsLedger d
      → find_key (paid_input input now).idempotency_key d.grants ≡ none
      → find_key (bonus_input input now).idempotency_key d.grants ≡ none
      → IsAdded input.user_id
          (input.paid_seconds + bonus_minutes_of input * 60)
          d
          (topup_grants input now db).1
unfolding topup_grants
topup_grants-IsAdded input now db l paid_new bonus_new =
    let d = opened input.user_id now db in
    let first =
      credit_if-IsAdded (ltb 0 input.paid_seconds) (paid_input input now) now d l paid_new
        (no_seconds input.paid_seconds) in
    let d' = (credit_if (ltb 0 input.paid_seconds) (paid_input input now) now d).1 in
    let second =
      credit_if-IsAdded (ltb 0 (bonus_minutes_of input)) (bonus_input input now) now d' first.ledger
        (bonus_key-new input now d paid_new bonus_new)
        (λ h. omega (arith, no_seconds (bonus_minutes_of input) h)) in
    sync-IsAdded input.user_id _ d _ (IsAdded-trans first second)

topup_grants-cached :
    (input : TopupInput) (now : Date) (db : Db)
    → let after = (topup_grants input now db).1 in
      balance_of input.user_id after.balances
      ≡ some
          (record { user_id = input.user_id; available_seconds = held input.user_id after.grants })
unfolding topup_grants
topup_grants-cached input now db = sync_cached input.user_id _

pub credit_topup-ok :
    (input : TopupInput) (now : Date) (db : Db)
    → input.paid_seconds % 600 ≡ 0
    → input.bonus_seconds % 600 ≡ 0
    → credit_topup input now db ≡ (ok (topup_grants input now db).0, (topup_grants input now db).1)
unfolding credit_topup
credit_topup-ok input now db pm bm =
    rw (eq→== (input.paid_seconds % 600) 0 pm, eq→== (input.bonus_seconds % 600) 0 bm)

-- Where the books balance, a top-up of whole sessions under keys that are not used yet adds to
-- the player's grants the paid seconds and the bonus, which is the larger of the one entered and
-- the one of the status table; no other player's grant changes, the books balance, and the cached
-- balance agrees.
pub credit_topup-IsAdded :
    (input : TopupInput) (now : Date) (db : Db)
    → IsLedger db
    → input.paid_seconds % 600 ≡ 0
    → input.bonus_seconds % 600 ≡ 0
    → find_key (paid_input input now).idempotency_key (opened input.user_id now db).grants ≡ none
    → find_key (bonus_input input now).idempotency_key (opened input.user_id now db).grants ≡ none
    → let after = (credit_topup input now db).1 in
      IsAdded input.user_id
        (input.paid_seconds + bonus_minutes_of input * 60)
        (opened input.user_id now db)
        after
      × (balance_of input.user_id after.balances
          ≡ some (record {
            user_id = input.user_id;
            available_seconds = held input.user_id after.grants;
          }))
credit_topup-IsAdded input now db l pm bm paid_new bonus_new =
    rw (credit_topup-ok input now db pm bm) (
      topup_grants-IsAdded input now db (opened-IsLedger input.user_id now db l) paid_new bonus_new,
      topup_grants-cached input now db,
    )
