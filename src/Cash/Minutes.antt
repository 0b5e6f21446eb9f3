-- ===== src/Cash/Minutes.antt =====
-- `removeSaleMinutes` of backend/src/cash/cash.service.ts, and the credits of a sale, on the books of the ledger.
use mathlib.Core.List.{Memᴰ}
use oyna.Base.{
  ℕ, ◌-◌, ◌%◌, ◌≡◌, ◌≢◌, refl, ap, ◌∙◌, inl, inr, Bool, true, false, Bool-cases, Option-cases,
  Option, none, some, List, [], ◌∷◌, keep, map, unique, All, update_where, ◌==◌, arith,
}
use oyna.Base.Distinct.{Distinct, Distinct-keep, All-imp, All-append}
use oyna.Rules.Calendar.{Date}
use oyna.Ledger.State.{Reason, Grant, Db, is_due_of, balance_of}
use oyna.Ledger.Ops.{
  CreditInput, find_key, credit_tx, ensure_legacy, is_blocked, lock_balance, legacy_input,
}
use oyna.Ledger.Service.{opened, prepared, prepare_balance}
use oyna.Ledger.Invariant.{grant_id_of, IsLedger}
use oyna.Ledger.Invariant.Rows.{All-Mem, update-Mem}
use oyna.Ledger.Invariant.Loops.{draw-IsFrame}
use oyna.Ledger.Invariant.Methods.{keep-Mem, opened-IsLedger}
use oyna.Ledger.Spending.{sync_grants}
use oyna.Ledger.Expiry.{emptied, update_each, update_each-pass, expire_user-grants}
use oyna.Ledger.Prepare.{prepare_balance-free, prepare_balance-frozen, prepare_balance-IsLedger}
use oyna.Cash.Returns.{
  is_sale_grant, cancel_entry, cancel_grant, cancel_each, prepare_each, owner, remove_sale_minutes,
}

Mem-update :
    (id : ℕ) (f : Grant → Grant) (gs due : List Grant)
    → All (λ g. g.id ≢ id) due
    → All (λ g. Memᴰ g gs) due
    → All (λ g. Memᴰ g (update_where (λ h. h.id == id) f gs)) due
Mem-update id f gs [] ne m = tt
Mem-update id f gs (g ∷ due) ne m = (update-Mem id f g ne.0 m.0, Mem-update id f gs due ne.1 m.1)

cancel_each-IsLedger :
    (reason : Reason) (actor_id : ℕ) (now : Date) (due : List Grant) (db : Db)
    → Distinct grant_id_of due
    → All (λ g. Memᴰ g db.grants) due
    → IsLedger db
    → IsLedger (cancel_each reason actor_id now due db)
unfolding cancel_each cancel_grant
cancel_each-IsLedger reason actor_id now [] db d m l = l
cancel_each-IsLedger reason actor_id now (g ∷ due) db d m l =
    let z : 0 ≡ g.remaining_seconds - g.remaining_seconds = omega arith in
    let step =
      draw-IsFrame g.user_id g g.remaining_seconds emptied (cancel_entry reason actor_id now g) db l
        m.0 refl (ap (λ (k : ℕ). record g { remaining_seconds = k }) z) (omega arith) refl refl
        refl in
    cancel_each-IsLedger reason actor_id now due (cancel_grant reason actor_id now g db) d.1
      (Mem-update g.id emptied db.grants due d.0 m.1) step.ledger

cancel_each-grants :
    (reason : Reason) (actor_id : ℕ) (now : Date) (due : List Grant) (db : Db)
    → (cancel_each reason actor_id now due db).grants ≡ update_each emptied due db.grants
unfolding cancel_each cancel_grant
cancel_each-grants reason actor_id now [] db = refl
cancel_each-grants reason actor_id now (g ∷ due) db =
    cancel_each-grants reason actor_id now due (cancel_grant reason actor_id now g db)

-- No grant of the sale holds anything.
abbrev pub NoneLeft : ℕ → List Grant → Type 0
NoneLeft sale_id = All (λ g. is_sale_grant sale_id g ≡ false)

emptied_left : (sale_id : ℕ) (g : Grant) → is_sale_grant sale_id (emptied g) ≡ false
emptied_left sale_id g = of_transaction g.transaction_id
  where
    of_transaction :
        (o : Option ℕ)
        → is_sale_grant sale_id (record g { transaction_id = o; remaining_seconds = 0 }) ≡ false
    of_transaction none = refl
    of_transaction (some t) = ground arith

emptied-NoneLeft :
    (sale_id : ℕ) (gs : List Grant)
    → NoneLeft sale_id (update_where (is_sale_grant sale_id) emptied gs)
emptied-NoneLeft sale_id [] = tt
emptied-NoneLeft sale_id (g ∷ gs) = elim (Bool-cases (is_sale_grant sale_id g)) [
  | inl hit ↦ rw hit (emptied_left sale_id g, emptied-NoneLeft sale_id gs)
  | inr miss ↦ rw miss (miss, emptied-NoneLeft sale_id gs)
]

update-NoneLeft :
    (sale_id : ℕ) (p : Grant → Bool) (gs : List Grant)
    → NoneLeft sale_id gs
    → NoneLeft sale_id (update_where p emptied gs)
update-NoneLeft sale_id p [] h = tt
update-NoneLeft sale_id p (g ∷ gs) h = elim (Bool-cases (p g)) [
  | inl hit ↦ rw hit (emptied_left sale_id g, update-NoneLeft sale_id p gs h.1)
  | inr miss ↦ rw miss (h.0, update-NoneLeft sale_id p gs h.1)
]

-- A grant that belongs to no transaction is none of the sale's.
credit_tx-NoneLeft :
    (sale_id : ℕ) (input : CreditInput) (now : Date) (db : Db)
    → input.transaction_id ≡ none
    → NoneLeft sale_id db.grants
    → NoneLeft sale_id (credit_tx input now db).1.grants
unfolding credit_tx
credit_tx-NoneLeft sale_id input now db free h =
    elim (Option-cases (find_key input.idempotency_key db.grants)) [
      | inl e ↦
          rw (e, credit_tx)
            (All-append (λ g. is_sale_grant sale_id g ≡ false) db.grants _ h (rw free refl, tt))
      | inr (g, e) ↦ rw (e, credit_tx) h
    ]

opened-NoneLeft :
    (sale_id user_id : ℕ) (now : Date) (db : Db)
    → NoneLeft sale_id db.grants
    → NoneLeft sale_id (opened user_id now db).grants
unfolding opened ensure_legacy lock_balance
opened-NoneLeft sale_id user_id now db h =
    elim (Option-cases (balance_of user_id (lock_balance user_id db).balances)) [
      | inl e ↦ rw (e, opened, ensure_legacy) (ground arith)
      | inr (b, e) ↦
          rw (e, opened, ensure_legacy)
            (ground (
              arith,
              credit_tx-NoneLeft sale_id
                  (legacy_input user_id (b.available_seconds - b.available_seconds % 600)) now
                  (lock_balance user_id db) refl h,
            ))
    ]

prepare_balance-NoneLeft :
    (sale_id user_id : ℕ) (now : Date) (db : Db)
    → IsLedger db
    → NoneLeft sale_id db.grants
    → NoneLeft sale_id (prepare_balance user_id now db).1.grants
unfolding prepared
prepare_balance-NoneLeft sale_id user_id now db l h =
    let o = opened-NoneLeft sale_id user_id now db h in
    elim (Bool-cases (is_blocked user_id now db)) [
      | inl stopped ↦
          rw
            (
              prepare_balance-frozen user_id now db stopped,
              sync_grants user_id (opened user_id now db),
            )
            o
      | inr free ↦
          rw
            (
              prepare_balance-free user_id now db free,
              sync_grants user_id (prepared user_id now db),
              expire_user-grants user_id now (opened user_id now db)
                  (opened-IsLedger user_id now db l),
            )
            (update-NoneLeft sale_id (is_due_of user_id now) (opened user_id now db).grants o)
    ]

prepare_each-lem :
    (sale_id : ℕ) (users : List ℕ) (now : Date) (db : Db)
    → IsLedger db
    → NoneLeft sale_id db.grants
    → IsLedger (prepare_each users now db) × NoneLeft sale_id (prepare_each users now db).grants
unfolding prepare_each
prepare_each-lem sale_id [] now db l h = (l, h)
prepare_each-lem sale_id (u ∷ us) now db l h =
    prepare_each-lem sale_id us now (prepare_balance u now db).1
      (prepare_balance-IsLedger u now db l) (prepare_balance-NoneLeft sale_id u now db l h)

-- Where the books balance, taking the minutes of a sale back empties every grant of the sale, with an
-- entry for each, and the books balance again.
pub remove_sale_minutes-NoneLeft :
    (sale_id : ℕ) (reason : Reason) (actor_id : ℕ) (now : Date) (db : Db)
    → IsLedger db
    → let after = (remove_sale_minutes sale_id reason actor_id now db).1 in
      IsLedger after × NoneLeft sale_id after.grants
unfolding remove_sale_minutes
remove_sale_minutes-NoneLeft sale_id reason actor_id now db l =
    let due = keep (is_sale_grant sale_id) db.grants in
    let after = cancel_each reason actor_id now due db in
    let rows =
      All-imp {P = λ g. Memᴰ g db.grants × (is_sale_grant sale_id g ≡ true)}
        {Q = λ g. Memᴰ g db.grants} (λ g r. r.0) due
        (keep-Mem (is_sale_grant sale_id) db.grants db.grants (All-Mem db.grants)) in
    let books =
      cancel_each-IsLedger reason actor_id now due db
        (Distinct-keep grant_id_of (is_sale_grant sale_id) db.grants l.distinct) rows l in
    let written =
      cancel_each-grants reason actor_id now due db
      ∙ update_each-pass emptied (is_sale_grant sale_id) db.grants (λ g. refl) (λ g. refl)
          l.distinct in
    prepare_each-lem sale_id (unique (map owner due)) now after books
      (rw written (emptied-NoneLeft sale_id db.grants))
