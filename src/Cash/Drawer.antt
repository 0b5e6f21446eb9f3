-- ===== src/Cash/Drawer.antt =====
-- `expected` of backend/src/cash/cash.service.ts: what should be in the drawer and at the banks.
use oyna.Base.{ℕ, ◌+◌, Bool, true, false, ◌&&◌, not, List, ◌==◌, if◌then◌else◌, sum_by}
use oyna.Base.Int.{ℤ, pos, ◌-ℤ◌}
use oyna.Cash.State.{
  PayMethod, cash, kaspi, halyk, freedom, Sale, SalePayment, CashMoveType, move_in, CashMovement,
  CashDb,
}
use oyna.Cash.Tables.{is_completed}

-- The payments of one method, and those of the completed sales of a shift.
abbrev pub eq_method : PayMethod → PayMethod → Bool
eq_method cash cash = true
eq_method kaspi kaspi = true
eq_method halyk halyk = true
eq_method freedom freedom = true
eq_method _ _ = false

abbrev pub amount_by : PayMethod → SalePayment → ℕ
amount_by method p = if eq_method p.method method then p.amount_tenge else 0

abbrev pub sale_by : PayMethod → ℕ → Sale → ℕ
sale_by method shift_id s =
    if s.shift_id == shift_id && is_completed s then sum_by (amount_by method) s.payments else 0

abbrev pub taken_by : PayMethod → ℕ → List Sale → ℕ
taken_by method shift_id = sum_by (sale_by method shift_id)

abbrev pub is_in_move : CashMoveType → Bool
is_in_move move_in = true
is_in_move _ = false

abbrev pub moved_in : ℕ → CashMovement → ℕ
moved_in shift_id m = if m.shift_id == shift_id && is_in_move m.type then m.amount else 0

abbrev pub moved_out : ℕ → CashMovement → ℕ
moved_out shift_id m = if m.shift_id == shift_id && not (is_in_move m.type) then m.amount else 0

pub record Drawer : Type 0 where
  pub cash : ℤ
  pub kaspi : ℕ
  pub halyk : ℕ
  pub freedom : ℕ

-- The movements out may exceed what is there.
unfoldable pub expected : ℕ → ℕ → CashDb → Drawer
expected shift_id opening_cash db = record {
  cash =
      pos (
        opening_cash
        + taken_by PayMethod.cash shift_id db.sales
        + sum_by (moved_in shift_id) db.movements)
      -ℤ pos (sum_by (moved_out shift_id) db.movements);
  kaspi = taken_by PayMethod.kaspi shift_id db.sales;
  halyk = taken_by PayMethod.halyk shift_id db.sales;
  freedom = taken_by PayMethod.freedom shift_id db.sales;
}
