-- ===== src/Cash/Moves.antt =====
-- `move` of backend/src/cash/cash.service.ts: cash put in, taken out or spent.
pub mod Laws
use oyna.Base.{
  ℕ, ◌+◌, Bool, true, false, not, or_else, Option, none, some, [], ◌∷◌, ◌++◌, String, if◌then◌else◌,
}
use oyna.Rules.Calendar.{Date}
use oyna.Cash.State.{CashShift, CashMoveType, move_expense, noted, CashMovement, Expense, CashDb}
use oyna.Cash.Tables.{
  no_shift_row, shift_closed, move_comment, Outcome, done, failed, is_open, shift_by_id,
}

pub record CashMove : Type 0 where
  pub type : CashMoveType
  pub amount : ℕ
  pub article : Option String
  pub comment : Option String

abbrev pub is_expense : CashMoveType → Bool
is_expense move_expense = true
is_expense _ = false

abbrev pub new_expense : CashShift → CashMove → String → ℕ → Date → ℕ → Expense
new_expense shift dto comment operator_id now id = record {
  id = id;
  venue_id = shift.venue_id;
  occurred_on = now;
  amount_tenge = dto.amount;
  article = or_else dto.article "Расход из кассы";
  shift_number = shift.number;
  comment = comment;
  shift_id = some shift.id;
  created_by_id = operator_id;
}

-- The movement is linked to its expense at once; the row that is answered is the one before that.
abbrev pub new_movement : ℕ → CashMove → String → ℕ → Option ℕ → ℕ → CashMovement
new_movement shift_id dto comment operator_id expense_id id = record {
  id = id;
  shift_id = shift_id;
  type = dto.type;
  amount = dto.amount;
  article = dto.article;
  comment = noted comment;
  operator_id = operator_id;
  expense_id = expense_id;
}

abbrev pub moved : CashShift → CashMove → String → ℕ → Date → CashDb → Outcome CashMovement × CashDb
moved shift dto comment operator_id now db =
    let answer = new_movement shift.id dto comment operator_id none db.next_id in
    let expense = new_expense shift dto comment operator_id now (db.next_id + 1) in
    if is_expense dto.type
    then (
      done answer,
      record db {
        movements =
            db.movements
            ++ new_movement shift.id dto comment operator_id (some expense.id) db.next_id ∷ [];
        expenses = db.expenses ++ expense ∷ [];
        next_id = db.next_id + 2;
      },
    )
    else (
      done answer,
      record db { movements = db.movements ++ answer ∷ []; next_id = db.next_id + 1 },
    )

abbrev pub move_of : CashShift → CashMove → ℕ → Date → CashDb → Outcome CashMovement × CashDb
move_of shift dto operator_id now db =
    if not (is_open shift) then (failed shift_closed, db) else (elim dto.comment [
      | none ↦ (failed move_comment, db)
      | some comment ↦ moved shift dto comment operator_id now db
    ])

unfoldable pub move : ℕ → CashMove → ℕ → Date → CashDb → Outcome CashMovement × CashDb
move shift_id dto operator_id now db = elim (shift_by_id shift_id db) [
  | none ↦ (failed no_shift_row, db)
  | some shift ↦ move_of shift dto operator_id now db
]
