-- ===== src/Ledger/Prepare.antt =====
-- `prepareBalance` of backend/src/ledger/minute-ledger.service.ts.
use oyna.Base.{
  ℕ, ◌≡◌, ◌∙◌, ◌-◌, ◌%◌, ◌||◌, ◌==◌, leb, ltb, length, Option, none, ◌++◌, refl, ap, inl, inr, Bool,
  true, false, Bool-cases, Option-cases, some, List, [], ◌∷◌, keep,
}
use oyna.Rules.Calendar.{Date, session_seconds}
use oyna.Ledger.State.{EntryType, debit, Grant, Entry, Balance, Db, balance_of}
use oyna.Ledger.Ops.{
  CreditInput, find_key, credit_tx, ensure_legacy, legacy_from, legacy_input, expire_grant,
  expire_each, expire_user, lock_balance, is_blocked, sync_balance,
}
use oyna.Ledger.Service.{opened, prepared, prepare_balance}
use oyna.Ledger.Invariant.{IsLedger}
use oyna.Ledger.Invariant.Rows.{held, live_seconds-eq-held}
use oyna.Ledger.Invariant.Methods.{opened-IsLedger, sync_balance-IsLedger}
use oyna.Ledger.Spending.{sync_grants, sync_balance-held, prepared-IsLedger}
use oyna.Ledger.Expiry.{NoneDue, expire_user-NoneDue, is_blocked-opened}

sync_seconds : (user_id : ℕ) (db : Db) → (sync_balance user_id db).0 ≡ held user_id db.grants
unfolding sync_balance
sync_seconds user_id db = live_seconds-eq-held user_id db.grants

pub prepare_balance-free :
    (user_id : ℕ) (now : Date) (db : Db)
    → is_blocked user_id now db ≡ false
    → prepare_balance user_id now db ≡ sync_balance user_id (prepared user_id now db)
unfolding prepare_balance prepared
prepare_balance-free user_id now db free = rw (is_blocked-opened user_id now db ∙ free)

pub prepare_balance-frozen :
    (user_id : ℕ) (now : Date) (db : Db)
    → is_blocked user_id now db ≡ true
    → prepare_balance user_id now db ≡ sync_balance user_id (opened user_id now db)
unfolding prepare_balance
prepare_balance-frozen user_id now db stopped = rw (is_blocked-opened user_id now db ∙ stopped)

abbrev pub is_debit : EntryType → Bool
is_debit debit = true
is_debit _ = false

-- The entries that take minutes from a player for playing.
abbrev pub debits : List Entry → List Entry
debits = keep (λ e. is_debit e.type)

debits_append :
    (es : List Entry) (e : Entry) → is_debit e.type ≡ false → debits (es ++ e ∷ []) ≡ debits es
debits_append [] e h = rw h refl
debits_append (x ∷ es) e h = elim (Bool-cases (is_debit x.type)) [
  | inl hit ↦ rw hit (ap (λ (t : List Entry). x ∷ t) (debits_append es e h))
  | inr miss ↦ rw miss (debits_append es e h)
]

credit_tx-debits :
    (input : CreditInput) (now : Date) (db : Db)
    → debits (credit_tx input now db).1.entries ≡ debits db.entries
unfolding credit_tx
credit_tx-debits input now db = elim (Option-cases (find_key input.idempotency_key db.grants)) [
  | inl new ↦ rw (new, credit_tx) (debits_append db.entries _ refl)
  | inr (g, old) ↦ rw (old, credit_tx) refl
]

expire_each-debits :
    (user_id : ℕ) (now : Date) (due : List Grant) (db : Db)
    → debits (expire_each user_id now due db).entries ≡ debits db.entries
unfolding expire_each expire_grant
expire_each-debits user_id now [] db = refl
expire_each-debits user_id now (g ∷ due) db =
    expire_each-debits user_id now due (expire_grant user_id now g db)
    ∙ debits_append db.entries _ refl

legacy_from-debits :
    (user_id : ℕ) (now : Date) (o : Option Balance) (db : Db)
    → debits (legacy_from user_id now o db).entries ≡ debits db.entries
legacy_from-debits user_id now none db = refl
legacy_from-debits user_id now (some b) db =
    let seconds = b.available_seconds - b.available_seconds % session_seconds in
    elim (Bool-cases (leb b.available_seconds 0 || leb seconds 0)) [
      | inl nothing ↦ rw nothing refl
      | inr some_left ↦ rw some_left (credit_tx-debits (legacy_input user_id seconds) now db)
    ]

opened-debits :
    (user_id : ℕ) (now : Date) (db : Db)
    → debits (opened user_id now db).entries ≡ debits db.entries
unfolding opened ensure_legacy lock_balance
opened-debits user_id now db =
    let locked = lock_balance user_id db in
    elim (Bool-cases (ltb 0 (length (keep (λ g. g.user_id == user_id) locked.grants)))) [
      | inl known ↦ rw known refl
      | inr fresh ↦
          rw fresh (legacy_from-debits user_id now (balance_of user_id locked.balances) locked)
    ]

-- Preparing a balance takes nothing for playing.
pub prepare_balance-debits :
    (user_id : ℕ) (now : Date) (db : Db)
    → debits (prepare_balance user_id now db).1.entries ≡ debits db.entries
unfolding prepare_balance sync_balance expire_user
prepare_balance-debits user_id now db =
    elim (Bool-cases (is_blocked user_id now (opened user_id now db))) [
      | inl stopped ↦ rw stopped (opened-debits user_id now db)
      | inr free ↦ rw free (expire_each-debits user_id now _ _ ∙ opened-debits user_id now db)
    ]

pub record IsPrepared (user_id : ℕ) (seconds : ℕ) (after : Db) : Type 0 where
  pub ledger : IsLedger after
  pub answer : seconds ≡ held user_id after.grants
  pub cached :
      balance_of user_id after.balances
      ≡ some (record { user_id = user_id; available_seconds = seconds })

sync-IsPrepared :
    (user_id : ℕ) (db : Db)
    → IsLedger db
    → IsPrepared user_id (sync_balance user_id db).0 (sync_balance user_id db).1
sync-IsPrepared user_id db l = record {
  ledger = sync_balance-IsLedger user_id db l;
  answer = rw (sync_grants user_id db) (sync_seconds user_id db);
  cached = rw (sync_seconds user_id db) (sync_balance-held user_id db);
}

-- Where the books balance, preparing the balance of a player who is not blocked leaves none of
-- the player's grants with seconds past their date; the books still balance, and what it answers
-- is what the grants hold, and the cached balance.
pub prepare_balance-IsPrepared :
    (user_id : ℕ) (now : Date) (db : Db)
    → IsLedger db
    → is_blocked user_id now db ≡ false
    → let (seconds, after) = prepare_balance user_id now db in
      IsPrepared user_id seconds after × NoneDue user_id now after.grants
unfolding prepared
prepare_balance-IsPrepared user_id now db l free = rw (prepare_balance-free user_id now db free) (
  sync-IsPrepared user_id (prepared user_id now db) (prepared-IsLedger user_id now db l),
  rw (sync_grants user_id (prepared user_id now db))
      (expire_user-NoneDue user_id now (opened user_id now db) (opened-IsLedger user_id now db l)),
)

-- The minutes of a blocked player are frozen: where the books balance, preparing the balance
-- expires nothing, and what it answers is what the grants hold.
pub prepare_balance_frozen :
    (user_id : ℕ) (now : Date) (db : Db)
    → IsLedger db
    → is_blocked user_id now db ≡ true
    → let (seconds, after) = prepare_balance user_id now db in
      IsPrepared user_id seconds after × (after.grants ≡ (opened user_id now db).grants)
prepare_balance_frozen user_id now db l stopped =
    rw (prepare_balance-frozen user_id now db stopped) (
      sync-IsPrepared user_id (opened user_id now db) (opened-IsLedger user_id now db l),
      sync_grants user_id (opened user_id now db),
    )

pub prepare_balance-IsLedger :
    (user_id : ℕ) (now : Date) (db : Db) → IsLedger db → IsLedger (prepare_balance user_id now db).1
prepare_balance-IsLedger user_id now db l = elim (Bool-cases (is_blocked user_id now db)) [
  | inl stopped ↦ (prepare_balance_frozen user_id now db l stopped).0.ledger
  | inr free ↦ (prepare_balance-IsPrepared user_id now db l free).0.ledger
]
