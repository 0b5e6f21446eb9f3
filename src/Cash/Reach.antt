-- ===== src/Cash/Reach.antt =====
-- The calls of backend/src/cash/cash.service.ts as steps, one after the other, in any order and by anybody.
use oyna.Base.{ℕ, inl, inr, Bool-cases, Option-cases, String}
use oyna.Rules.Calendar.{Date}
use oyna.Cash.State.{Role, CashShift, CashMovement, Sale, CashDb}
use oyna.Cash.Tables.{Outcome, is_admin, shift_by_id, sale_by_id}
use oyna.Cash.Shifts.{OpenShift, open_cash_shift, CloseShift, Closed, close_cash_shift}
use oyna.Cash.Moves.{CashMove, move}
use oyna.Cash.Shifts.Laws.{Opened, not_opened, opened_shift, open_cash_shift-Opened}
use oyna.Cash.Shifts.Closing.{Closing, not_closed, closed_as, close_cash_shift-Closing}
use oyna.Cash.Moves.Laws.{Moved, not_moved, moved_as, move-Moved}
use oyna.Cash.Sell.{CreateSale, players_of}
use oyna.Cash.Selling.Credits.{AllKnown}
use oyna.Cash.Selling.Steps.{IsFresh, IsDrawn}
use oyna.Cash.Selling.{sell}
use oyna.Cash.Selling.Laws.{sell_all_or_nothing}
use oyna.Cash.Returns.{cancel_sale, RefundSale, Refunded, refund}
use oyna.Cash.Returns.Laws.{Cancelling, not_cancelled, cancelled_as, cancel_sale-Cancelling}
use oyna.Cash.Returns.Refunds.{Refunding, not_refunded, refunded_as, refund-Refunding}
use oyna.Cash.Invariant.{IsDesk}

-- A sale is to known players, and draws codes that are new: no other sale stops half-way.
pub data Step : CashDb → CashDb → Type 0 where
  opens :
      (dto : OpenShift) (operator_id : ℕ) (now : Date) (db : CashDb)
      → Step db (open_cash_shift dto operator_id now db).1
  closes :
      (shift_id : ℕ) (dto : CloseShift) (actor_id : ℕ) (role : Role) (now : Date) (db : CashDb)
      → Step db (close_cash_shift shift_id dto actor_id role now db).1
  moves :
      (shift_id : ℕ) (dto : CashMove) (operator_id : ℕ) (now : Date) (db : CashDb)
      → Step db (move shift_id dto operator_id now db).1
  sells :
      (dto : CreateSale) (operator_id : ℕ) (role : Role) (now : Date) (code : ℕ → ℕ) (db : CashDb)
      → AllKnown db.club.ledger.users (players_of dto)
      → IsDrawn code
      → IsFresh code db
      → Step db (sell dto operator_id role now code db).1
  cancels :
      (sale_id : ℕ) (reason : String) (actor_id : ℕ) (role : Role) (now : Date) (db : CashDb)
      → Step db (cancel_sale sale_id reason actor_id role now db).1
  refunds :
      (sale_id : ℕ) (dto : RefundSale) (actor_id : ℕ) (role : Role) (now : Date) (db : CashDb)
      → Step db (refund sale_id dto actor_id role now db).1

pub data Reach (db : CashDb) : CashDb → Type 0 where
  here : Reach db db
  next : {a b : CashDb} → Reach db a → Step a b → Reach db b

Opened-IsDesk :
    (dto : OpenShift) (db : CashDb) (x : Outcome CashShift × CashDb)
    → IsDesk db
    → Opened dto db x
    → IsDesk x.1
Opened-IsDesk dto db x desk (not_opened e) = desk
Opened-IsDesk dto db x desk (opened_shift s after a b c d k) = k

Closing-IsDesk :
    (dto : CloseShift) (s : CashShift) (actor_id : ℕ) (role : Role) (db : CashDb)
    (x : Outcome Closed × CashDb)
    → IsDesk db
    → Closing dto s actor_id role db x
    → IsDesk x.1
Closing-IsDesk dto s actor_id role db x desk (not_closed e w) = desk
Closing-IsDesk dto s actor_id role db x desk (closed_as r after a o m b c k d e f) = k

Moved-IsDesk :
    (s : CashShift) (dto : CashMove) (db : CashDb) (x : Outcome CashMovement × CashDb)
    → IsDesk db
    → Moved s dto db x
    → IsDesk x.1
Moved-IsDesk s dto db x desk (not_moved e) = desk
Moved-IsDesk s dto db x desk (moved_as m after a b c k) = k

Cancelling-IsDesk :
    (s : Sale) (db : CashDb) (x : Outcome Sale × CashDb)
    → IsDesk db
    → Cancelling s db x
    → IsDesk x.1
Cancelling-IsDesk s db x desk (not_cancelled e) = desk
Cancelling-IsDesk s db x desk (cancelled_as t after k) = k.desk

Refunding-IsDesk :
    (s : Sale) (dto : RefundSale) (db : CashDb) (x : Outcome Refunded × CashDb)
    → IsDesk db
    → Refunding s dto db x
    → IsDesk x.1
Refunding-IsDesk s dto db x desk (not_refunded e) = desk
Refunding-IsDesk s dto db x desk (refunded_as r after k) = k.desk

Step-IsDesk : {a b : CashDb} → Step a b → IsDesk a → IsDesk b
unfolding close_cash_shift move cancel_sale refund
Step-IsDesk (opens dto operator_id now db) desk =
    Opened-IsDesk dto db _ desk (open_cash_shift-Opened dto operator_id now db desk)
Step-IsDesk (closes shift_id dto actor_id role now db) desk =
    elim (Option-cases (shift_by_id shift_id db)) [
      | inl e ↦ rw (e, close_cash_shift) desk
      | inr (s, e) ↦
          Closing-IsDesk dto s actor_id role db _ desk
            (close_cash_shift-Closing shift_id dto actor_id role now db s desk e)
    ]
Step-IsDesk (moves shift_id dto operator_id now db) desk =
    elim (Option-cases (shift_by_id shift_id db)) [
      | inl e ↦ rw (e, move) desk
      | inr (s, e) ↦
          Moved-IsDesk s dto db _ desk (move-Moved shift_id dto operator_id now db s desk e)
    ]
Step-IsDesk (sells dto operator_id role now code db known drawn fresh) desk =
    elim (sell_all_or_nothing dto operator_id role now code db desk known drawn fresh) [
      | inl (e, refused) ↦ rw refused desk
      | inr (c, checked, k) ↦ k.desk
    ]
Step-IsDesk (cancels sale_id reason actor_id role now db) desk =
    elim (Option-cases (sale_by_id sale_id db)) [
      | inl e ↦ rw (e, cancel_sale) desk
      | inr (s, e) ↦
          Cancelling-IsDesk s db _ desk
            (cancel_sale-Cancelling sale_id reason actor_id role now db s desk e)
    ]
Step-IsDesk (refunds sale_id dto actor_id role now db) desk =
    elim (Option-cases (sale_by_id sale_id db)) [
      | inl e ↦ elim (Bool-cases (is_admin role)) [
        | inl owner ↦ rw (owner, refund, e) desk
        | inr other ↦ rw (other, refund) desk
      ]
      | inr (s, e) ↦
          Refunding-IsDesk s dto db _ desk
            (refund-Refunding sale_id dto actor_id role now db s desk e)
    ]

-- Every table state that calls, one after the other, reach from well-formed tables is well-formed, where sales
-- are to known players and the codes they draw for certificates are new and do not repeat: the books of the ledger
-- balance, no venue has two open shifts, the payments of each sale are its total and its refunds are at
-- most that, and each booking's paid amount is what the sales that stand have paid for it.
pub Reach-IsDesk : {a b : CashDb} → Reach a b → IsDesk a → IsDesk b
Reach-IsDesk here desk = desk
Reach-IsDesk (next r step) desk = Step-IsDesk step (Reach-IsDesk r desk)
