-- ===== src/Ledger/Expiry.antt =====
-- `expireUser` and `prepareBalance` of backend/src/ledger/minute-ledger.service.ts: what expires, and when.
use mathlib.Core.List.{Memᴰ}
use mathlib.Core.Path.{ap₂}
use oyna.Base.{
  ℕ, ◌≡◌, ◌≢◌, refl, sym, ap, ◌∙◌, subst, inl, inr, Bool, true, false, Bool-cases, List, [], ◌∷◌,
  keep, any, All, update_where, if◌then◌else◌, ◌==◌, ne→==, eq→==, arith,
}
use oyna.Base.Distinct.{Distinct, All-imp}
use oyna.Rules.Calendar.{Date}
use oyna.Ledger.State.{Grant, Db, is_due_of}
use oyna.Ledger.Ops.{
  expire_grant, expire_each, expire_user, ensure_legacy, is_blocked, lock_balance, credit_tx,
}
use oyna.Ledger.Service.{opened}
use oyna.Ledger.Invariant.{grant_id_of, IsLedger}
use oyna.Ledger.Invariant.Rows.{All-Mem, Distinct-Mem, All-at}
use oyna.Ledger.Invariant.Methods.{keep-Mem}

abbrev pub emptied : Grant → Grant
emptied g = record g { remaining_seconds = 0 }

abbrev listed : List Grant → Grant → Bool
listed due g = any (λ h. g.id == h.id) due

-- The loop `for (const grant of due) update(grant.id, f)`.
abbrev pub update_each : (Grant → Grant) → List Grant → List Grant → List Grant
update_each f [] gs = gs
update_each f (d ∷ due) gs = update_each f due (update_where (λ g. g.id == d.id) f gs)

module _ (f : Grant → Grant) (same_id : (g : Grant) → (f g).id ≡ g.id)
    (twice : (g : Grant) → f (f g) ≡ f g) where
  once : (b : Bool) (g : Grant) → (if b then f (f g) else f g) ≡ f g
  once true g = twice g
  once false g = refl

  update-twice :
      (d : Grant) (due gs : List Grant)
      → update_where (listed due) f (update_where (λ g. g.id == d.id) f gs)
        ≡ update_where (listed (d ∷ due)) f gs
  update-twice d due [] = refl
  update-twice d due (g ∷ gs) = elim (Bool-cases (g.id == d.id)) [
    | inl hit ↦ rw hit (ap₂ ◌∷◌ (once (listed due (f g)) g) (update-twice d due gs))
    | inr miss ↦ rw miss (ap₂ ◌∷◌ refl (update-twice d due gs))
  ]

  update_nothing : (gs : List Grant) → gs ≡ update_where (listed []) f gs
  update_nothing [] = refl
  update_nothing (g ∷ gs) = ap (λ (t : List Grant). g ∷ t) (update_nothing gs)

  update_each-listed : (due gs : List Grant) → update_each f due gs ≡ update_where (listed due) f gs
  update_each-listed [] gs = update_nothing gs
  update_each-listed (d ∷ due) gs =
      update_each-listed due (update_where (λ g. g.id == d.id) f gs) ∙ update-twice d due gs

-- The loop over the due rows writes the grants' table so.
expire_each-grants :
    (user_id : ℕ) (now : Date) (due : List Grant) (db : Db)
    → (expire_each user_id now due db).grants ≡ update_each emptied due db.grants
unfolding expire_each expire_grant
expire_each-grants user_id now [] db = refl
expire_each-grants user_id now (d ∷ due) db =
    expire_each-grants user_id now due (expire_grant user_id now d db)

any_false : (g : Grant) (due : List Grant) → All (λ h. g.id ≢ h.id) due → listed due g ≡ false
any_false g [] h = refl
any_false g (d ∷ due) h = rw (ne→== g.id d.id h.0) (any_false g due h.1)

any_true : (g : Grant) {due : List Grant} → Memᴰ g due → listed due g ≡ true
any_true g (Memᴰ.head {x = x} e) = rw (eq→== g.id x.id (ap grant_id_of e))
any_true g (Memᴰ.tail {x = x} {xs = xs} m) = ground (arith, any_true g m)

keep_member :
    (p : Grant → Bool) (g : Grant) {gs : List Grant} → Memᴰ g gs → p g ≡ true → Memᴰ g (keep p gs)
keep_member p g (Memᴰ.head {x = x} {xs = xs} e) t =
    rw (subst (λ (h : Grant). p h ≡ true) e t) (Memᴰ.head e)
keep_member p g (Memᴰ.tail {x = x} {xs = xs} m) t = elim (Bool-cases (p x)) [
  | inl kept ↦ rw kept (Memᴰ.tail (keep_member p g m t))
  | inr left ↦ rw left (keep_member p g m t)
]

-- A row is listed among the rows that a test keeps exactly if it passes the test.
listed-keep :
    (p : Grant → Bool) (gs : List Grant) (g : Grant)
    → Distinct grant_id_of gs
    → Memᴰ g gs
    → listed (keep p gs) g ≡ p g
listed-keep p gs g d m = elim (Bool-cases (p g)) [
  | inl t ↦ any_true g (keep_member p g m t) ∙ sym t
  | inr f ↦
      any_false g (keep p gs) (
        All-imp {P = λ h. Memᴰ h gs × (p h ≡ true)} {Q = λ h. g.id ≢ h.id}
          (λ h r same. false_true (
            sym f
            ∙ subst (λ (k : Grant). p k ≡ true)
                (All-at (λ (k : Grant). k.id ≡ g.id → k ≡ g) r.0 (Distinct-Mem g d m) (sym same))
                r.1))
          (keep p gs) (keep-Mem p gs gs (All-Mem gs)))
      ∙ sym f
]
  where
    false_true : false ≡ true → ⊥
    false_true e = cc

update_where-eq :
    (p q : Grant → Bool) (f : Grant → Grant) (gs : List Grant)
    → All (λ g. p g ≡ q g) gs
    → update_where p f gs ≡ update_where q f gs
update_where-eq p q f [] h = refl
update_where-eq p q f (g ∷ gs) h = rw (h.0, update_where-eq p q f gs h.1)

-- The loop over the rows that a test finds is one pass over the table.
pub update_each-pass :
    (f : Grant → Grant) (p : Grant → Bool) (gs : List Grant)
    → ((g : Grant) → (f g).id ≡ g.id)
    → ((g : Grant) → f (f g) ≡ f g)
    → Distinct grant_id_of gs
    → update_each f (keep p gs) gs ≡ update_where p f gs
update_each-pass f p gs same_id twice d =
    update_each-listed f same_id twice (keep p gs) gs
    ∙ update_where-eq (listed (keep p gs)) p f gs (
        All-imp {P = λ g. Memᴰ g gs} {Q = λ g. listed (keep p gs) g ≡ p g}
          (λ g m. listed-keep p gs g d m) gs (All-Mem gs))

-- Where the books balance, `expireUser` is one pass that empties the player's due grants and
-- leaves every other grant.
pub expire_user-grants :
    (user_id : ℕ) (now : Date) (db : Db)
    → IsLedger db
    → (expire_user user_id now db).grants ≡ update_where (is_due_of user_id now) emptied db.grants
unfolding expire_user
expire_user-grants user_id now db l =
    expire_each-grants user_id now (keep (is_due_of user_id now) db.grants) db
    ∙ update_each-pass emptied (is_due_of user_id now) db.grants (λ g. refl) (λ g. refl) l.distinct

none_due :
    (user_id : ℕ) (now : Date) (gs : List Grant)
    → All (λ g. is_due_of user_id now g ≡ false) (update_where (is_due_of user_id now) emptied gs)
none_due user_id now [] = tt
none_due user_id now (g ∷ gs) = (ground arith, none_due user_id now gs)

abbrev pub NoneDue : ℕ → Date → List Grant → Type 0
NoneDue user_id now = All (λ g. is_due_of user_id now g ≡ false)

pub expire_user-NoneDue :
    (user_id : ℕ) (now : Date) (db : Db)
    → IsLedger db
    → NoneDue user_id now (expire_user user_id now db).grants
expire_user-NoneDue user_id now db l =
    rw (expire_user-grants user_id now db l) (none_due user_id now db.grants)

opened-users : (user_id : ℕ) (now : Date) (db : Db) → (opened user_id now db).users ≡ db.users
unfolding opened ensure_legacy lock_balance credit_tx
opened-users user_id now db = ground arith

pub is_blocked-opened :
    (user_id : ℕ) (now : Date) (db : Db)
    → is_blocked user_id now (opened user_id now db) ≡ is_blocked user_id now db
unfolding is_blocked
is_blocked-opened user_id now db = rw (opened-users user_id now db)
