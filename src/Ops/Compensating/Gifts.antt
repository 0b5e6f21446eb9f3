-- ===== src/Ops/Compensating/Gifts.antt =====
-- The credits of `compensateSession` of backend/src/ops/ops.service.ts: one grant for each player.
use oyna.Base.{
  ℕ, ◌-◌, ◌*◌, ◌%◌, ◌≤◌, ◌≡◌, refl, sym, subst, ◌⊎◌, inl, inr, Bool, true, Bool-cases, Option-cases,
  ◌&&◌, ◌||◌, Option, none, some, List, [], ◌∷◌, ◌++◌, All, find, keep, length, leb, ltb, ◌==◌,
  eq→==, lt→leb, if◌then◌else◌, arith,
}
use oyna.Rules.Calendar.{Date, session_seconds}
use oyna.Ledger.State.{Key, Grant, Balance, Db, Result, ok, err, balance_of}
use oyna.Ledger.Ops.{
  CreditInput, find_key, has_key, new_grant, credit_tx, legacy_from, legacy_input, ensure_legacy,
  lock_balance, sync_balance,
}
use oyna.Ledger.Service.{Credited, opened, credit}
use oyna.Loyalty.State.{Profile}
use oyna.Ops.State.{SessionCompensation, Outcome, done, failed}
use oyna.Ops.Compensating.{gift_input, then_gift, gift_each}

module _ (id seconds : ℕ) where
  abbrev pub gift_key : ℕ → Key
  gift_key user_id = Key.compensation id user_id

  -- The player has the grant of the compensation.
  abbrev pub IsGifted : ℕ → List Grant → Type 0
  IsGifted user_id gs =
      (g : Grant) × (find (has_key (gift_key user_id)) gs ≡ some g)
      × (g.user_id ≡ user_id)
      × (g.seconds ≡ seconds)

  -- Whatever grant has a key of the compensation is its player's.
  abbrev pub IsClear : List Grant → Type 0
  IsClear gs = (user_id : ℕ) → (find (has_key (gift_key user_id)) gs ≡ none) ⊎ IsGifted user_id gs

  abbrev IsFitting : Grant → Type 0
  IsFitting g =
      (user_id : ℕ)
      → has_key (gift_key user_id) g ≡ true
      → (g.user_id ≡ user_id) × (g.seconds ≡ seconds)

  found_still :
      (p : Grant → Bool) (gs : List Grant) (g a : Grant)
      → find p gs ≡ some a
      → find p (gs ++ g ∷ []) ≡ some a
  found_still p [] g a h = cc
  found_still p (x ∷ gs) g a h = elim (Bool-cases (p x)) [
    | inl hit ↦ rw hit (rw hit at h)
    | inr miss ↦ rw miss (found_still p gs g a (rw miss at h))
  ]

  found_last :
      (p : Grant → Bool) (gs : List Grant) (g : Grant)
      → find p gs ≡ none
      → find p (gs ++ g ∷ []) ≡ (if p g then some g else none)
  found_last p [] g h = refl
  found_last p (x ∷ gs) g h = elim (Bool-cases (p x)) [
    | inl hit ↦ cc (rw hit at h)
    | inr miss ↦ rw miss (found_last p gs g (rw miss at h))
  ]

  -- What a step does to the grants: none of the compensation's is lost, and it stays clear.
  pub record IsStep (before after : List Grant) : Type 0 where
    pub clear : IsClear before → IsClear after
    pub kept : (user_id : ℕ) → IsGifted user_id before → IsGifted user_id after

  IsStep-none : (gs : List Grant) → IsStep gs gs
  IsStep-none gs = record { clear = λ c. c; kept = λ u k. k }

  IsStep-then : {a b c : List Grant} → IsStep a b → IsStep b c → IsStep a c
  IsStep-then p q = record { clear = λ c. q.clear (p.clear c); kept = λ u k. q.kept u (p.kept u k) }

  IsStep-append : (gs : List Grant) (g : Grant) → IsFitting g → IsStep gs (gs ++ g ∷ [])
  IsStep-append gs g fits = record {
    clear = λ c user_id. go user_id (c user_id);
    kept = λ user_id k. (k.0, found_still (has_key (gift_key user_id)) gs g k.0 k.1, k.2, k.3);
  }
    where
      go :
          (user_id : ℕ)
          → (find (has_key (gift_key user_id)) gs ≡ none) ⊎ IsGifted user_id gs
          → (find (has_key (gift_key user_id)) (gs ++ g ∷ []) ≡ none)
            ⊎ IsGifted user_id (gs ++ g ∷ [])
      go user_id (inr k) =
          inr (k.0, found_still (has_key (gift_key user_id)) gs g k.0 k.1, k.2, k.3)
      go user_id (inl h) =
          let last = found_last (has_key (gift_key user_id)) gs g h in
          elim (Bool-cases (has_key (gift_key user_id) g)) [
            | inl hit ↦ let (own, much) = fits user_id hit in inr (g, rw hit at last, own, much)
            | inr miss ↦ inl (rw miss at last)
          ]

  credit_tx-IsStep :
      (input : CreditInput) (now : Date) (db : Db)
      → IsFitting (new_grant input now db.next_id)
      → IsStep db.grants (credit_tx input now db).1.grants
  unfolding credit_tx
  credit_tx-IsStep input now db fits =
      elim (Option-cases (find_key input.idempotency_key db.grants)) [
        | inl new ↦ rw (new, credit_tx) (IsStep-append db.grants _ fits)
        | inr (g, old) ↦ rw (old, credit_tx) (IsStep-none db.grants)
      ]

  legacy_from-IsStep :
      (user_id : ℕ) (now : Date) (o : Option Balance) (db : Db)
      → IsStep db.grants (legacy_from user_id now o db).grants
  legacy_from-IsStep user_id now none db = IsStep-none db.grants
  legacy_from-IsStep user_id now (some b) db =
      let left = b.available_seconds - b.available_seconds % session_seconds in
      elim (Bool-cases (leb b.available_seconds 0 || leb left 0)) [
        | inl nothing ↦ rw nothing (IsStep-none db.grants)
        | inr some_left ↦
            rw some_left (credit_tx-IsStep (legacy_input user_id left) now db (λ u e. cc))
      ]

  opened-IsStep :
      (user_id : ℕ) (now : Date) (db : Db) → IsStep db.grants (opened user_id now db).grants
  unfolding opened ensure_legacy lock_balance
  opened-IsStep user_id now db =
      let locked = lock_balance user_id db in
      elim (Bool-cases (ltb 0 (length (keep (λ g. g.user_id == user_id) locked.grants)))) [
        | inl known ↦ rw known (IsStep-none db.grants)
        | inr fresh ↦
            rw fresh (legacy_from-IsStep user_id now (balance_of user_id locked.balances) locked)
      ]

  -- A credit under a key of the compensation leaves its player the grant.
  credit_tx-IsGifted :
      (input : CreditInput) (now : Date) (db : Db)
      → input.idempotency_key ≡ some (gift_key input.user_id)
      → input.seconds ≡ seconds
      → IsClear db.grants
      → IsGifted input.user_id (credit_tx input now db).1.grants
  unfolding credit_tx
  credit_tx-IsGifted input now db key much c = elim (c input.user_id) [
    | inr k ↦ rw (key, k.1, credit_tx) k
    | inl new ↦
        let g = new_grant input now db.next_id in
        let own : has_key (gift_key input.user_id) g ≡ true =
          rw (key, eq→== id id refl, eq→== input.user_id input.user_id refl) refl in
        rw (key, new, credit_tx)
          (g, rw own at (found_last (has_key (gift_key input.user_id)) db.grants g new), refl, much)
  ]

-- The whole credit of one player.
credit_grants :
    (input : CreditInput) (now : Date) (db : Db)
    → 1 ≤ input.seconds
    → input.seconds % 600 ≡ 0
    → (credit input now db).1.grants ≡ (credit_tx input now (opened input.user_id now db)).1.grants
unfolding credit sync_balance
credit_grants input now db some_seconds whole =
    rw (lt→leb input.seconds 0 some_seconds, eq→== (input.seconds % 600) 0 whole) refl

-- The grants that a player has of a compensation.
abbrev pub HasGift : SessionCompensation → List Grant → Profile → Type 0
HasGift row gs p = IsGifted row.id (row.minutes * 60) p.id gs

gift-IsStep :
    (row : SessionCompensation) (now : Date) (p : Profile) (db : Db)
    → 1 ≤ row.minutes
    → row.minutes % 10 ≡ 0
    → let after = (credit (gift_input row p) now db).1.grants in
      IsStep row.id (row.minutes * 60) db.grants after
      × (IsClear row.id (row.minutes * 60) db.grants → HasGift row after p)
gift-IsStep row now p db some_minutes tens =
    let input = gift_input row p in
    let locked = opened p.id now db in
    let open_step = opened-IsStep row.id (row.minutes * 60) p.id now db in
    rw (credit_grants input now db (omega (arith, some_minutes)) (omega (arith, tens))) (
      IsStep-then row.id (row.minutes * 60) open_step
          (credit_tx-IsStep row.id (row.minutes * 60) input now locked (λ u e. own u e)),
      λ c.
          credit_tx-IsGifted row.id (row.minutes * 60) input now locked refl refl
            (open_step.clear c),
    )
  where
    own :
        (u : ℕ)
        → (row.id == row.id && p.id == u) ≡ true
        → (p.id ≡ u) × (row.minutes * 60 ≡ row.minutes * 60)
    own u e = (ground (arith, e), refl)

then_gift-tables :
    (user_id : ℕ) (x : Result Credited × Db) (c : Credited) (rest : Outcome (List ℕ) × Db)
    → x.0 ≡ ok c
    → (then_gift user_id x rest).1 ≡ rest.1
then_gift-tables user_id (ok a, d) c (done us, d') e = refl
then_gift-tables user_id (ok a, d) c (failed x, d') e = refl
then_gift-tables user_id (err x, d) c rest e = cc

-- The ledger takes a credit of whole sessions.
pub credit_taken :
    (input : CreditInput) (now : Date) (db : Db)
    → 1 ≤ input.seconds
    → input.seconds % 600 ≡ 0
    → (c : Credited) × ((credit input now db).0 ≡ ok c)
unfolding credit
credit_taken input now db some_seconds whole =
    rw (lt→leb input.seconds 0 some_seconds, eq→== (input.seconds % 600) 0 whole) (_, refl)

pub gift_each-gifts :
    (row : SessionCompensation) (now : Date) (users : List Profile) (db : Db)
    → 1 ≤ row.minutes
    → row.minutes % 10 ≡ 0
    → let after = (gift_each row now users db).1.grants in
      IsStep row.id (row.minutes * 60) db.grants after
      × (IsClear row.id (row.minutes * 60) db.grants → All (HasGift row after) users)
unfolding gift_each
gift_each-gifts row now [] db some_minutes tens =
    (IsStep-none row.id (row.minutes * 60) db.grants, λ c. tt)
gift_each-gifts row now (p ∷ ps) db some_minutes tens =
    let x = credit (gift_input row p) now db in
    let (c, e) =
      credit_taken (gift_input row p) now db (omega (arith, some_minutes)) (omega (arith, tens)) in
    let (one, gifted) = gift-IsStep row now p db some_minutes tens in
    let (rest, others) = gift_each-gifts row now ps x.1 some_minutes tens in
    subst
      (λ (d : Db).
        IsStep row.id (row.minutes * 60) db.grants d.grants
        × (IsClear row.id (row.minutes * 60) db.grants → All (HasGift row d.grants) (p ∷ ps)))
      (sym (then_gift-tables p.id x c (gift_each row now ps x.1) e))
      (
        IsStep-then row.id (row.minutes * 60) one rest,
        λ k. (rest.kept p.id (gifted k), others (one.clear k)),
      )
