-- ===== src/Ledger/Invariant/Loops.antt =====
-- The loops of backend/src/ledger/minute-ledger.service.ts, over the due grants and over the plan.
use mathlib.Core.List.{Memᴰ}
use oyna.Base.{
  ℕ, ◌+◌, ◌-◌, ◌≤◌, ◌≡◌, ◌≢◌, refl, sym, ap, ◌∙◌, subst, true, List, [], ◌∷◌, All, update_where,
  sum_by, keep, ◌==◌, arith, not,
}
use oyna.Base.Distinct.{Distinct, All-imp}
use oyna.Rules.Calendar.{Date}
use oyna.Rules.Spend.{SpendSlice}
use oyna.Rules.Spend.Slices.{slice_id}
use oyna.Ledger.State.{Grant, Entry, Db, create_entry, update_grant}
use oyna.Ledger.Ops.{expire_entry, expire_grant, expire_each}
use oyna.Ledger.Service.{slice_seconds, debit_entry, spend_slice, spend_each}
use oyna.Ledger.Invariant.{is_out, grant_id_of, IsBelow, IsDrawn, IsLedger}
use oyna.Ledger.Invariant.Steps.{draw-IsLedger}
use oyna.Ledger.Invariant.Rows.{All-at, Distinct-Mem, update-Mem, held, update-held, update-others}

IsDrawn-member :
    (g : Grant) (seconds : ℕ) (f : Grant → Grant) (gs : List Grant)
    → Distinct grant_id_of gs
    → Memᴰ g gs
    → f g ≡ record g { remaining_seconds = g.remaining_seconds - seconds }
    → seconds ≤ g.remaining_seconds
    → All (IsDrawn g.id seconds f) gs
IsDrawn-member g seconds f gs d m shape fits =
    All-imp {P = λ h. h.id ≡ g.id → h ≡ g} {Q = IsDrawn g.id seconds f}
      (λ h only same.
        subst
          (λ (k : Grant).
            (f k ≡ record k { remaining_seconds = k.remaining_seconds - seconds })
            × (seconds ≤ k.remaining_seconds))
          (sym (only same)) (shape, fits))
      gs (Distinct-Mem g d m)

abbrev pub others_of : ℕ → List Grant → List Grant
others_of user_id = keep (λ g. not (g.user_id == user_id))

-- What drawing from the rows of one user leaves alone, and that the books still balance.
pub record IsFrame (user_id : ℕ) (before after : Db) : Type 0 where
  pub ledger : IsLedger after
  pub others : others_of user_id after.grants ≡ others_of user_id before.grants
  pub same_users : after.users ≡ before.users
  pub same_balances : after.balances ≡ before.balances

pub IsFrame-trans :
    {user_id : ℕ} {a b c : Db} → IsFrame user_id a b → IsFrame user_id b c → IsFrame user_id a c
IsFrame-trans p q = record {
  ledger = q.ledger;
  others = q.others ∙ p.others;
  same_users = q.same_users ∙ p.same_users;
  same_balances = q.same_balances ∙ p.same_balances;
}

-- One draw from a row of the user.
module _ (user_id : ℕ) (g : Grant) (seconds : ℕ) (f : Grant → Grant) (entry : ℕ → Entry) (db : Db)
    (l : IsLedger db) (m : Memᴰ g db.grants) (mine : g.user_id ≡ user_id)
    (shape : f g ≡ record g { remaining_seconds = g.remaining_seconds - seconds })
    (fits : seconds ≤ g.remaining_seconds) where
  draw_rows : All (IsDrawn g.id seconds f) db.grants
  draw_rows = IsDrawn-member g seconds f db.grants l.distinct m shape fits

  draw_mine : All (λ h. h.id ≡ g.id → h.user_id ≡ user_id) db.grants
  draw_mine =
      All-imp {P = λ h. h.id ≡ g.id → h ≡ g} {Q = λ h. h.id ≡ g.id → h.user_id ≡ user_id}
        (λ h only same. ap (λ (k : Grant). k.user_id) (only same) ∙ mine) db.grants
        (Distinct-Mem g l.distinct m)

  pub draw-IsFrame :
      (entry db.next_id).grant_id ≡ g.id
      → is_out (entry db.next_id).type ≡ true
      → (entry db.next_id).seconds ≡ seconds
      → IsFrame user_id db (create_entry entry (update_grant g.id f db))
  draw-IsFrame eg eo es = record {
    ledger =
        draw-IsLedger g.id seconds f entry db (All-at (IsBelow db.next_id) m l.numbered)
          (record { entry_grant = eg; entry_out = eo; entry_seconds = es; fits = draw_rows }) l;
    others = update-others user_id g.id seconds f db.grants draw_mine draw_rows;
    same_users = refl;
    same_balances = refl;
  }

  draw-held :
      held user_id (update_where (λ h. h.id == g.id) f db.grants) + seconds ≡ held user_id db.grants
  draw-held = update-held user_id g.id seconds f g m refl mine l.distinct draw_rows

-- A row of the user that a loop still has to visit.
abbrev pub IsRow : ℕ → List Grant → Grant → Type 0
IsRow user_id gs g = Memᴰ g gs × (g.user_id ≡ user_id)

IsRow-update :
    (user_id id : ℕ) (f : Grant → Grant) (gs due : List Grant)
    → All (λ g. g.id ≢ id) due
    → All (IsRow user_id gs) due
    → All (IsRow user_id (update_where (λ h. h.id == id) f gs)) due
IsRow-update user_id id f gs [] ne r = tt
IsRow-update user_id id f gs (g ∷ due) ne r =
    ((update-Mem id f g ne.0 r.0.0, r.0.1), IsRow-update user_id id f gs due ne.1 r.1)

pub expire_each-IsFrame :
    (user_id : ℕ) (now : Date) (due : List Grant) (db : Db)
    → Distinct grant_id_of due
    → All (IsRow user_id db.grants) due
    → IsLedger db
    → IsFrame user_id db (expire_each user_id now due db)
unfolding expire_each expire_grant
expire_each-IsFrame user_id now [] db d r l = record {
  ledger = l;
  others = refl;
  same_users = refl;
  same_balances = refl;
}
expire_each-IsFrame user_id now (g ∷ due) db d r l =
    let f = λ (h : Grant). record h { remaining_seconds = 0 } in
    let z : 0 ≡ g.remaining_seconds - g.remaining_seconds = omega arith in
    let step =
      draw-IsFrame user_id g g.remaining_seconds f (expire_entry user_id now g) db l r.0.0 r.0.1
        (ap (λ (k : ℕ). record g { remaining_seconds = k }) z) (omega arith) refl refl refl in
    IsFrame-trans step (
      expire_each-IsFrame user_id now due (expire_grant user_id now g db) d.1
        (IsRow-update user_id g.id f db.grants due d.0 r.1) step.ledger)

-- A slice of a plan, with the row that it draws from.
pub record IsBacked (user_id : ℕ) (gs : List Grant) (s : SpendSlice) : Type 0 where
  pub grant : Grant
  pub member : Memᴰ grant gs
  pub mine : grant.user_id ≡ user_id
  pub same : grant.id ≡ s.id
  pub fits : s.seconds ≤ grant.remaining_seconds

IsBacked-update :
    (user_id id : ℕ) (f : Grant → Grant) (gs : List Grant) (plan : List SpendSlice)
    → All (λ s. slice_id s ≢ id) plan
    → All (IsBacked user_id gs) plan
    → All (IsBacked user_id (update_where (λ h. h.id == id) f gs)) plan
IsBacked-update user_id id f gs [] ne b = tt
IsBacked-update user_id id f gs (s ∷ plan) ne b = (
  record {
    grant = b.0.grant;
    member = update-Mem id f b.0.grant (λ q. ne.0 (sym b.0.same ∙ q)) b.0.member;
    mine = b.0.mine;
    same = b.0.same;
    fits = b.0.fits;
  },
  IsBacked-update user_id id f gs plan ne.1 b.1,
)

-- The loop of `spendForSession` keeps the books and takes exactly the seconds of the plan.
pub spend_each-IsFrame :
    (user_id session_id : ℕ) (now : Date) (plan : List SpendSlice) (db : Db)
    → Distinct slice_id plan
    → All (IsBacked user_id db.grants) plan
    → IsLedger db
    → let after = spend_each user_id session_id now plan db in
      IsFrame user_id db after
      × (held user_id after.grants + sum_by slice_seconds plan ≡ held user_id db.grants)
unfolding spend_each spend_slice
spend_each-IsFrame user_id session_id now [] db d b l =
    (record { ledger = l; others = refl; same_users = refl; same_balances = refl }, omega arith)
spend_each-IsFrame user_id session_id now (s ∷ plan) db d b l =
    let f = λ (h : Grant). record h { remaining_seconds = h.remaining_seconds - s.seconds } in
    let g = b.0.grant in
    let after = spend_slice user_id session_id now s db in
    let entry = debit_entry user_id session_id now s in
    let step : IsFrame user_id db after =
      subst (λ (i : ℕ). IsFrame user_id db (create_entry entry (update_grant i f db))) b.0.same
        (draw-IsFrame user_id g s.seconds f entry db l b.0.member b.0.mine refl b.0.fits
          (sym b.0.same) refl refl) in
    let drawn : held user_id (update_where (λ h. h.id == s.id) f db.grants) + s.seconds
        ≡ held user_id db.grants =
      subst
        (λ (i : ℕ).
          held user_id (update_where (λ h. h.id == i) f db.grants) + s.seconds
          ≡ held user_id db.grants)
        b.0.same (draw-held user_id g s.seconds f entry db l b.0.member b.0.mine refl b.0.fits) in
    let (rest, total) =
      spend_each-IsFrame user_id session_id now plan after d.1
        (IsBacked-update user_id s.id f db.grants plan d.0 b.1) step.ledger in
    (IsFrame-trans step rest, omega (arith, drawn, total))
