-- ===== src/Ledger/Crediting.antt =====
-- `creditTx` and `credit` of backend/src/ledger/minute-ledger.service.ts: what is added, and keys.
use oyna.Base.{
  ℕ, ◌+◌, ◌≡◌, refl, ◌∙◌, inl, inr, Bool, true, false, Bool-cases, Option-cases, Option, none, some,
  List, [], ◌∷◌, ◌++◌, find, sum_by-append, arith,
}
use oyna.Rules.Calendar.{Date}
use oyna.Ledger.State.{Key, KeyRef, eq_key, eq_ref, Grant, Db}
use oyna.Ledger.Ops.{CreditInput, credit_tx, create_grant, new_grant, find_key, has_key}
use oyna.Ledger.Invariant.{IsLedger}
use oyna.Ledger.Invariant.Steps.{credit_tx-IsLedger}
use oyna.Ledger.Invariant.Rows.{held, held_by}
use oyna.Ledger.Invariant.Loops.{others_of}

eq_ref_refl : (r : KeyRef) → eq_ref r r ≡ true
eq_ref_refl (KeyRef.of_transaction t) = ground arith
eq_ref_refl (KeyRef.of_sale s u) = ground arith

eq_key_refl : (k : Key) → eq_key k k ≡ true
eq_key_refl (Key.topup r) = eq_ref_refl r
eq_key_refl (Key.topup_bonus r) = eq_ref_refl r
eq_key_refl (Key.legacy u) = ground arith
eq_key_refl (Key.visits8 u n) = ground arith
eq_key_refl (Key.streak5 u n) = ground arith
eq_key_refl (Key.birthday u n) = ground arith
eq_key_refl (Key.lvl10 u n) = ground arith
eq_key_refl (Key.referral true u) = ground arith
eq_key_refl (Key.referral false u) = ground arith
eq_key_refl (Key.booking a u) = ground arith
eq_key_refl (Key.compensation a u) = ground arith
eq_key_refl (Key.organizer a) = ground arith
eq_key_refl (Key.certificate a) = ground arith
eq_key_refl (Key.other n) = ground arith

find-append_none :
    (p : Grant → Bool) (gs : List Grant) (g : Grant)
    → find p gs ≡ none
    → p g ≡ true
    → find p (gs ++ g ∷ []) ≡ some g
find-append_none p [] g h t = rw t
find-append_none p (x ∷ gs) g h t = elim (Bool-cases (p x)) [
  | inl hit ↦ cc (rw hit at h)
  | inr miss ↦ rw miss (find-append_none p gs g (rw miss at h) t)
]

pub credit_tx-new :
    (input : CreditInput) (now : Date) (db : Db)
    → find_key input.idempotency_key db.grants ≡ none
    → credit_tx input now db ≡ create_grant input now db
unfolding credit_tx
credit_tx-new input now db h = rw (h, credit_tx)

credit_tx-old :
    (input : CreditInput) (now : Date) (db : Db) (grant : Grant)
    → find_key input.idempotency_key db.grants ≡ some grant
    → credit_tx input now db ≡ (grant, db)
unfolding credit_tx
credit_tx-old input now db grant h = rw (h, credit_tx)

has_key-new :
    (input : CreditInput) (now : Date) (id : ℕ) (key : Key)
    → input.idempotency_key ≡ some key
    → has_key key (new_grant input now id) ≡ true
has_key-new input now id key e = rw e (eq_key_refl key)

find_key-cast :
    (o : Option Key) (key : Key) (gs : List Grant) (r : Option Grant)
    → o ≡ some key
    → find (has_key key) gs ≡ r
    → find_key o gs ≡ r
find_key-cast o key gs r e h = rw e h

-- A key is honoured once: a second credit with the key of a first one, whatever else it asks for,
-- returns the first one's grant and changes no table.
pub credit_tx_once :
    (first second : CreditInput) (now later : Date) (key : Key) (db : Db)
    → first.idempotency_key ≡ some key
    → second.idempotency_key ≡ some key
    → let (grant, after) = credit_tx first now db in credit_tx second later after ≡ (grant, after)
credit_tx_once first second now later key db ef es =
    elim (Option-cases (find (has_key key) db.grants)) [
      | inr (grant, old) ↦
          let seen = λ (o : Option Key) (e : o ≡ some key).
            find_key-cast o key db.grants (some grant) e old in
          rw (credit_tx-old first now db grant (seen first.idempotency_key ef))
            (credit_tx-old second later db grant (seen second.idempotency_key es))
      | inl new ↦
          let (grant, after) = create_grant first now db in
          let found =
            find-append_none (has_key key) db.grants grant new
              (has_key-new first now db.next_id key ef) in
          rw
            (credit_tx-new first now db
              (find_key-cast first.idempotency_key key db.grants none ef new))
            (credit_tx-old second later after grant
              (find_key-cast second.idempotency_key key after.grants (some grant) es found))
    ]

-- What a credit adds to the rows of its player.
pub record IsAdded (user_id seconds : ℕ) (before after : Db) : Type 0 where
  pub ledger : IsLedger after
  pub raised : held user_id after.grants ≡ held user_id before.grants + seconds
  pub others : others_of user_id after.grants ≡ others_of user_id before.grants

others-append :
    (user_id : ℕ) (gs : List Grant) (g : Grant)
    → g.user_id ≡ user_id
    → others_of user_id (gs ++ g ∷ []) ≡ others_of user_id gs
others-append user_id [] g h = ground arith
others-append user_id (x ∷ gs) g h = ground (arith, others-append user_id gs g h)

held-append :
    (user_id : ℕ) (gs : List Grant) (g : Grant)
    → g.user_id ≡ user_id
    → held user_id (gs ++ g ∷ []) ≡ held user_id gs + g.remaining_seconds
held-append user_id gs g h = ground (arith, sum_by-append (held_by user_id) gs (g ∷ []))

pub credit_tx-IsAdded :
    (input : CreditInput) (now : Date) (db : Db)
    → IsLedger db
    → find_key input.idempotency_key db.grants ≡ none
    → IsAdded input.user_id input.seconds db (credit_tx input now db).1
credit_tx-IsAdded input now db l new =
    let g = new_grant input now db.next_id in
    record {
      ledger = credit_tx-IsLedger input now db l;
      raised = rw (credit_tx-new input now db new) (held-append input.user_id db.grants g refl);
      others = rw (credit_tx-new input now db new) (others-append input.user_id db.grants g refl);
    }

pub IsAdded-trans :
    {user_id m n : ℕ} {a b c : Db}
    → IsAdded user_id m a b
    → IsAdded user_id n b c
    → IsAdded user_id (m + n) a c
IsAdded-trans p q = record {
  ledger = q.ledger;
  raised = omega (arith, p.raised, q.raised);
  others = q.others ∙ p.others;
}
