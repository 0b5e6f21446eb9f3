-- ===== src/Ledger/Sweep.antt =====
-- `expireAllDue` and `launchPaidExpiry` of backend/src/ledger/minute-ledger.service.ts.
use oyna.Base.{
  ℕ, ◌+◌, ◌≡◌, refl, ap, ◌∙◌, sym, subst, inl, inr, Bool, true, false, Bool-cases, some, List, [],
  ◌∷◌, contains, find, is_some, keep, update_where, ◌==◌, ◌&&◌, ==→eq, arith,
}
use oyna.Rules.Calendar.{Date, paid_ttl_ms}
use oyna.Ledger.State.{Grant, User, Db, is_due_of, update_grant}
use oyna.Ledger.Ops.{expire_user, lock_balance, sync_balance}
use oyna.Ledger.Invariant.{IsLedger}
use oyna.Ledger.Invariant.Methods.{
  lock_balance-IsLedger, sync_balance-IsLedger, expire_user-IsFrame,
}
use oyna.Ledger.Spending.{sync_grants}
use oyna.Ledger.Expiry.{NoneDue, emptied, expire_user-grants, update_each, update_each-pass}
use oyna.Ledger.Reports.{
  is_held_back, sweep_user, sweep_each, due_users, expire_all_due, is_open_ended, launch_each,
  launch_paid_expiry,
}

-- Emptying rows makes none due.
still-NoneDue :
    (u v : ℕ) (now : Date) (gs : List Grant)
    → NoneDue u now gs
    → NoneDue u now (update_where (is_due_of v now) emptied gs)
still-NoneDue u v now [] h = tt
still-NoneDue u v now (g ∷ gs) h = (ground arith, still-NoneDue u v now gs h.1)

now-NoneDue :
    (u : ℕ) (now : Date) (gs : List Grant)
    → NoneDue u now (update_where (is_due_of u now) emptied gs)
now-NoneDue u now [] = tt
now-NoneDue u now (g ∷ gs) = (ground arith, now-NoneDue u now gs)

abbrev pub held_back : Date → ℕ → List User → Bool
held_back now user_id users = is_some (find (λ u. u.id == user_id && is_held_back now u) users)

-- What a sweep of any player keeps.
record IsSwept (now : Date) (before after : Db) : Type 0 where
  ledger : IsLedger after
  users : after.users ≡ before.users
  none_due : (u : ℕ) → NoneDue u now before.grants → NoneDue u now after.grants

sweep_body : ℕ → Date → Db → Db
sweep_body user_id now db =
    (sync_balance user_id (expire_user user_id now (lock_balance user_id db))).1

sweep_body-grants :
    (user_id : ℕ) (now : Date) (db : Db)
    → IsLedger db
    → (sweep_body user_id now db).grants ≡ update_where (is_due_of user_id now) emptied db.grants
unfolding sweep_body lock_balance
sweep_body-grants user_id now db l =
    sync_grants user_id (expire_user user_id now (lock_balance user_id db))
    ∙ expire_user-grants user_id now (lock_balance user_id db) (lock_balance-IsLedger user_id db l)

sync_users : (user_id : ℕ) (db : Db) → (sync_balance user_id db).1.users ≡ db.users
unfolding sync_balance
sync_users user_id db = refl

sweep_body-IsSwept :
    (user_id : ℕ) (now : Date) (db : Db) → IsLedger db → IsSwept now db (sweep_body user_id now db)
unfolding sweep_body lock_balance
sweep_body-IsSwept user_id now db l =
    let locked = lock_balance-IsLedger user_id db l in
    let frame = expire_user-IsFrame user_id now (lock_balance user_id db) locked in
    record {
      ledger = sync_balance-IsLedger user_id _ frame.ledger;
      users = sync_users user_id _ ∙ frame.same_users;
      none_due = λ u h.
          subst (NoneDue u now) (sym (sweep_body-grants user_id now db l))
            (still-NoneDue u user_id now db.grants h);
    }

sweep_user-IsSwept :
    (user_id : ℕ) (now : Date) (db : Db) → IsLedger db → IsSwept now db (sweep_user now user_id db)
unfolding sweep_user
sweep_user-IsSwept user_id now db l = elim (Bool-cases (held_back now user_id db.users)) [
  | inl stopped ↦ rw stopped (record { ledger = l; users = refl; none_due = λ u h. h })
  | inr free ↦ rw free (unfold sweep_body in sweep_body-IsSwept user_id now db l)
]

sweep_user_clears :
    (user_id : ℕ) (now : Date) (db : Db)
    → IsLedger db
    → held_back now user_id db.users ≡ false
    → NoneDue user_id now (sweep_user now user_id db).grants
unfolding sweep_user
sweep_user_clears user_id now db l free = rw free (
    unfold sweep_body in
    subst (NoneDue user_id now) (sym (sweep_body-grants user_id now db l))
      (now-NoneDue user_id now db.grants))

sweep_each-IsSwept :
    (now : Date) (due : List ℕ) (db : Db) → IsLedger db → IsSwept now db (sweep_each now due db)
unfolding sweep_each
sweep_each-IsSwept now [] db l = record { ledger = l; users = refl; none_due = λ u h. h }
sweep_each-IsSwept now (user_id ∷ due) db l =
    let first = sweep_user-IsSwept user_id now db l in
    let rest = sweep_each-IsSwept now due (sweep_user now user_id db) first.ledger in
    record {
      ledger = rest.ledger;
      users = rest.users ∙ first.users;
      none_due = λ u h. rest.none_due u (first.none_due u h);
    }

sweep_each_clears :
    (user_id : ℕ) (now : Date) (due : List ℕ) (db : Db)
    → IsLedger db
    → contains user_id due ≡ true
    → held_back now user_id db.users ≡ false
    → NoneDue user_id now (sweep_each now due db).grants
unfolding sweep_each
sweep_each_clears user_id now [] db l listed free = cc
sweep_each_clears user_id now (u ∷ due) db l listed free =
    let first = sweep_user-IsSwept u now db l in
    elim (Bool-cases (user_id == u)) [
      | inl here ↦
          let e = ==→eq user_id u here in
          (sweep_each-IsSwept now due (sweep_user now u db) first.ledger).none_due user_id (
            subst (λ (k : ℕ). NoneDue user_id now (sweep_user now k db).grants) e
              (sweep_user_clears user_id now db l free))
      | inr later ↦
          sweep_each_clears user_id now due (sweep_user now u db) first.ledger (rw later at listed)
            (ap (λ (us : List User). held_back now user_id us) first.users ∙ free)
    ]

-- Where the books balance, a sweep keeps them and the users, and leaves none of the due grants of a
-- player that it picked and that no block holds back.
pub expire_all_due_lem :
    (user_id : ℕ) (now : Date) (db : Db)
    → IsLedger db
    → contains user_id (due_users now db.grants) ≡ true
    → held_back now user_id db.users ≡ false
    → let after = (expire_all_due now db).1 in
      IsLedger after × (after.users ≡ db.users) × NoneDue user_id now after.grants
unfolding expire_all_due
expire_all_due_lem user_id now db l listed free =
    let swept = sweep_each-IsSwept now (due_users now db.grants) db l in
    (
      swept.ledger,
      swept.users,
      sweep_each_clears user_id now (due_users now db.grants) db l listed free,
    )

abbrev pub dated : Date → Grant → Grant
dated at g = record g { expires_at = some at }

launch_each-grants :
    (at : Date) (due : List Grant) (db : Db)
    → (launch_each at due db).grants ≡ update_each (dated at) due db.grants
unfolding launch_each
launch_each-grants at [] db = refl
launch_each-grants at (d ∷ due) db = launch_each-grants at due (update_grant d.id (dated at) db)

-- Where the books balance, the launch of the 24-hour rule gives exactly the live paid and legacy
-- grants without a date the date of one day later, and changes nothing else in the table of grants.
pub launch_paid_expiry_lem :
    (now : Date) (db : Db)
    → IsLedger db
    → (launch_paid_expiry now db).1.grants
      ≡ update_where is_open_ended (dated (now + paid_ttl_ms)) db.grants
unfolding launch_paid_expiry
launch_paid_expiry_lem now db l =
    launch_each-grants (now + paid_ttl_ms) (keep is_open_ended db.grants) db
    ∙ update_each-pass (dated (now + paid_ttl_ms)) is_open_ended db.grants (λ g. refl) (λ g. refl)
        l.distinct
