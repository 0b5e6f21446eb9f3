-- ===== src/Cash/Selling/Credits.antt =====
-- The minutes of a sale of backend/src/cash/cash.service.ts on the books of the ledger.
use oyna.Base.{
  ℕ, ◌+◌, ◌*◌, ◌%◌, ◌≡◌, refl, inl, inr, Bool, true, false, Bool-cases, List, [], ◌∷◌, All, ltb,
  arith,
}
use oyna.Rules.Calendar.{Date}
use oyna.Ledger.State.{User, Db, ok}
use oyna.Ledger.Ops.{CreditInput}
use oyna.Ledger.Service.{
  TopupInput, ToppedUp, paid_input, bonus_input, bonus_minutes_of, credit_if, topup_grants,
}
use oyna.Ledger.Invariant.{IsLedger}
use oyna.Ledger.Invariant.Steps.{credit_tx-IsLedger}
use oyna.Ledger.Invariant.Methods.{opened-IsLedger, sync_balance-IsLedger}
use oyna.Ledger.Topup.{credit_topup-ok}
use oyna.Loyalty.State.{Profile}
use oyna.Cash.State.{Sale, CashDb}
use oyna.Cash.Tables.{Outcome, done, failed}
use oyna.Cash.Selling.{
  has_account, sale_topup, credit_players, then_credit, set_ledger, give_minutes,
}

credit_if-IsLedger :
    (given : Bool) (input : CreditInput) (now : Date) (db : Db)
    → IsLedger db
    → IsLedger (credit_if given input now db).1
credit_if-IsLedger true input now db l = credit_tx-IsLedger input now db l
credit_if-IsLedger false input now db l = l

pub topup_grants-IsLedger :
    (input : TopupInput) (now : Date) (db : Db)
    → IsLedger db
    → IsLedger (topup_grants input now db).1
unfolding topup_grants
topup_grants-IsLedger input now db l = sync_balance-IsLedger input.user_id _ (
    credit_if-IsLedger (ltb 0 (bonus_minutes_of input)) (bonus_input input now) now _ (
      credit_if-IsLedger (ltb 0 input.paid_seconds) (paid_input input now) now _
        (opened-IsLedger input.user_id now db l)))

whole_sessions : (minutes : ℕ) → minutes % 10 ≡ 0 → minutes * 60 % 600 ≡ 0
whole_sessions minutes h = omega (arith, h)

-- A loop of credits that came to its end, with the books balanced.
abbrev IsCredited : Outcome ℕ × Db → Type 0
IsCredited r = (bonus : ℕ) × (r.0 ≡ done bonus) × IsLedger r.1

then_credit-IsCredited :
    (t : ToppedUp) (d : Db) (r : Outcome ℕ × Db)
    → IsCredited r
    → IsCredited (then_credit (ok t, d) r)
then_credit-IsCredited t d (done n, d') (m, e, l) = (t.bonus_minutes + n, refl, l)
then_credit-IsCredited t d (failed x, d') (m, e, l) = cc

abbrev pub AllKnown : List User → List ℕ → Type 0
AllKnown users = All (λ u. has_account users u ≡ true)

-- The ledger refuses no known player of a sale whose share is whole tens of minutes.
credit_players-IsCredited :
    (sale : Sale) (minutes : ℕ) (profiles : List Profile) (now : Date) (users : List User)
    (players : List ℕ) (db : Db)
    → AllKnown users players
    → minutes % 10 ≡ 0
    → IsLedger db
    → IsCredited (credit_players sale minutes profiles now users players db)
unfolding credit_players
credit_players-IsCredited sale minutes profiles now users [] db k tens l = (0, refl, l)
credit_players-IsCredited sale minutes profiles now users (u ∷ us) db k tens l =
    let input = sale_topup sale minutes profiles u in
    let one = credit_topup-ok input now db (whole_sessions minutes tens) refl in
    rw (k.0, one)
      (then_credit-IsCredited (topup_grants input now db).0 (topup_grants input now db).1 _ (
        credit_players-IsCredited sale minutes profiles now users us (topup_grants input now db).1
          k.1 tens (topup_grants-IsLedger input now db l)))

abbrev pub IsGiven : CashDb → Outcome ℕ × CashDb → Type 0
IsGiven db r = (bonus : ℕ) × (r.0 ≡ done bonus) × (d : Db) × (r.1 ≡ set_ledger d db) × IsLedger d

pub give_minutes-IsGiven :
    (sale : Sale) (minutes : ℕ) (now : Date) (db : CashDb)
    → AllKnown db.club.ledger.users sale.user_ids
    → minutes % 10 ≡ 0
    → IsLedger db.club.ledger
    → IsGiven db (give_minutes sale minutes now db)
unfolding give_minutes
give_minutes-IsGiven sale minutes now db known tens l = elim (Bool-cases (ltb 0 minutes)) [
  | inl some_minutes ↦
      let (n, e, k) =
        credit_players-IsCredited sale minutes db.club.profiles now db.club.ledger.users
          sale.user_ids db.club.ledger known tens l in
      rw (some_minutes, give_minutes) (n, e, _, refl, k)
  | inr no_minutes ↦ rw (no_minutes, give_minutes) (0, refl, db.club.ledger, refl, l)
]
