-- ===== src/Cash/Moves/Laws.antt =====
-- `move` of backend/src/cash/cash.service.ts: what a movement does to the drawer.
use oyna.Base.{
  ℕ, ◌+◌, ◌≡◌, refl, Bool, true, false, not, Option, none, some, List, [], ◌∷◌, ◌++◌, String,
  sum_by, sum_by-append, if◌then◌else◌, eq→==, arith,
}
use oyna.Base.Int.{ℤ, pos, ◌-ℤ◌, ◌+ℤ◌}
use oyna.Rules.Calendar.{Date}
use oyna.Cash.State.{
  CashMoveType, move_in, move_out, move_expense, PayMethod, Expense, CashShift, CashMovement,
  CashDb,
}
use oyna.Cash.Tables.{
  shift_closed, move_comment, CashError, Outcome, done, failed, is_open, shift_by_id,
}
use oyna.Cash.Drawer.{expected, is_in_move, taken_by, moved_in, moved_out}
use oyna.Cash.Moves.{new_movement, CashMove, is_expense, moved, move}
use oyna.Cash.Invariant.Sales.{IsSales-weaken}
use oyna.Cash.Invariant.{IsDesk}

abbrev pub expense_amount : Expense → ℕ
expense_amount e = e.amount_tenge

abbrev after_move : CashMove → ℤ → ℤ
after_move dto drawer =
    if is_in_move dto.type then drawer +ℤ pos dto.amount else drawer -ℤ pos dto.amount

pub data Moved (shift : CashShift) (dto : CashMove) (db : CashDb)
    : Outcome CashMovement × CashDb → Type 0 where
  not_moved : (e : CashError) → Moved shift dto db (failed e, db)
  moved_as :
      (m : CashMovement) (after : CashDb)
      → is_open shift ≡ true
      → (expected shift.id shift.opening_cash after).cash
        ≡ after_move dto (expected shift.id shift.opening_cash db).cash
      → sum_by expense_amount after.expenses
        ≡ sum_by expense_amount db.expenses + (if is_expense dto.type then dto.amount else 0)
      → IsDesk after
      → Moved shift dto db (done m, after)

pub in_append :
    (shift_id : ℕ) (ms : List CashMovement) (m : CashMovement)
    → sum_by (moved_in shift_id) (ms ++ m ∷ [])
      ≡ sum_by (moved_in shift_id) ms + moved_in shift_id m
in_append shift_id ms m = omega (arith, sum_by-append (moved_in shift_id) ms (m ∷ []))

pub out_append :
    (shift_id : ℕ) (ms : List CashMovement) (m : CashMovement)
    → sum_by (moved_out shift_id) (ms ++ m ∷ [])
      ≡ sum_by (moved_out shift_id) ms + moved_out shift_id m
out_append shift_id ms m = omega (arith, sum_by-append (moved_out shift_id) ms (m ∷ []))

-- The sum in the drawer, with one more movement of the shift.
drawer_in :
    (a ins outs n : ℕ)
    → pos (a + (ins + n)) -ℤ pos (outs + 0) ≡ (pos (a + ins) -ℤ pos outs) +ℤ pos n
unfolding ◌-ℤ◌ ◌+ℤ◌
drawer_in a ins outs n = ground arith

drawer_out :
    (a ins outs n : ℕ)
    → pos (a + (ins + 0)) -ℤ pos (outs + n) ≡ (pos (a + ins) -ℤ pos outs) -ℤ pos n
unfolding ◌-ℤ◌
drawer_out a ins outs n = ground arith

module _ (shift : CashShift) (dto : CashMove) (comment : String) (operator_id : ℕ) (now : Date)
    (db : CashDb) (desk : IsDesk db) (is_open_now : is_open shift ≡ true) where
  row : CashMoveType → Option ℕ → CashMovement
  row t expense_id =
      new_movement shift.id (record dto { type = t }) comment operator_id expense_id db.next_id

  own_in :
      (t : CashMoveType) (o : Option ℕ)
      → moved_in shift.id (row t o) ≡ (if is_in_move t then dto.amount else 0)
  unfolding row
  own_in t o = rw (eq→== shift.id shift.id refl) refl

  own_out :
      (t : CashMoveType) (o : Option ℕ)
      → moved_out shift.id (row t o) ≡ (if not (is_in_move t) then dto.amount else 0)
  unfolding row
  own_out t o = rw (eq→== shift.id shift.id refl) refl

  drawer_after :
      (t : CashMoveType) (o : Option ℕ) (after : CashDb)
      → after.movements ≡ db.movements ++ row t o ∷ []
      → after.sales ≡ db.sales
      → (expected shift.id shift.opening_cash after).cash
        ≡ after_move (record dto { type = t }) (expected shift.id shift.opening_cash db).cash
  unfolding expected
  drawer_after t o after moves sales =
      rw
        (
          moves,
          sales,
          in_append shift.id db.movements (row t o),
          out_append shift.id db.movements (row t o),
          own_in t o,
          own_out t o,
        )
        (of_type t)
    where
      a : ℕ
      a = shift.opening_cash + taken_by PayMethod.cash shift.id db.sales

      of_type :
          (t : CashMoveType)
          → pos (
                a
                + (sum_by (moved_in shift.id) db.movements
                    + (if is_in_move t then dto.amount else 0)))
              -ℤ pos (
                  sum_by (moved_out shift.id) db.movements
                  + (if not (is_in_move t) then dto.amount else 0))
            ≡ after_move
                (record dto { type = t })
                (pos (a + sum_by (moved_in shift.id) db.movements)
                  -ℤ pos (sum_by (moved_out shift.id) db.movements))
      of_type move_in = drawer_in a _ _ dto.amount
      of_type move_out = drawer_out a _ _ dto.amount
      of_type move_expense = drawer_out a _ _ dto.amount

  moved-Moved :
      (t : CashMoveType)
      → Moved shift
          (record dto { type = t })
          db
          (moved shift (record dto { type = t }) comment operator_id now db)
  unfolding row expected
  moved-Moved move_in =
      let after = (moved shift (record dto { type = move_in }) comment operator_id now db).1 in
      moved_as _ after is_open_now (drawer_after move_in none after refl refl) (omega arith)
        (record {
          books = desk.books;
          one_open = desk.one_open;
          sales = IsSales-weaken db.next_id (db.next_id + 1) _ _ (omega arith) desk.sales;
        })
  moved-Moved move_out =
      let after = (moved shift (record dto { type = move_out }) comment operator_id now db).1 in
      moved_as _ after is_open_now (drawer_after move_out none after refl refl) (omega arith)
        (record {
          books = desk.books;
          one_open = desk.one_open;
          sales = IsSales-weaken db.next_id (db.next_id + 1) _ _ (omega arith) desk.sales;
        })
  moved-Moved move_expense =
      let after = (moved shift (record dto { type = move_expense }) comment operator_id now db).1 in
      moved_as _ after is_open_now
        (drawer_after move_expense (some (db.next_id + 1)) after refl refl)
        (omega (arith, sum_by-append expense_amount db.expenses _))
        (record {
          books = desk.books;
          one_open = desk.one_open;
          sales = IsSales-weaken db.next_id (db.next_id + 2) _ _ (omega arith) desk.sales;
        })

-- Where the tables are well-formed and the shift is found, a movement of cash is refused and writes
-- nothing, or the shift is open, the sum expected in its drawer changes by exactly the amount, upwards for
-- a deposit and downwards for a withdrawal or an expense, an expense is also entered among the expenses,
-- and the tables stay well-formed.
pub move-Moved :
    (shift_id : ℕ) (dto : CashMove) (operator_id : ℕ) (now : Date) (db : CashDb) (shift : CashShift)
    → IsDesk db
    → shift_by_id shift_id db ≡ some shift
    → Moved shift dto db (move shift_id dto operator_id now db)
unfolding move
move-Moved shift_id dto operator_id now db shift desk found =
    rw (found, move) (of_status (is_open shift) dto.comment refl)
  where
    of_status :
        (b : Bool) (o : Option String)
        → is_open shift ≡ b
        → Moved shift dto db (
            if not b then (failed shift_closed, db) else elim o [
              | none ↦ (failed move_comment, db)
              | some comment ↦ moved shift dto comment operator_id now db
            ])
    of_status false o e = not_moved _
    of_status true none e = not_moved _
    of_status true (some comment) e =
        moved-Moved shift dto comment operator_id now db desk e dto.type
