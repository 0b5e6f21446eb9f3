-- ===== src/Cash/Witnesses.antt =====
-- The theorems on backend/src/cash/cash.service.ts at the sample desk.
use oyna.Base.{ℕ, ◌+◌, ◌≡◌, refl, true, false, none, some, [], ◌∷◌, length, arith}
use oyna.Base.Int.{◌-ℤ◌}
use oyna.Ledger.State.{text}
use oyna.Ledger.Sample.{noon, tables, tables-IsLedger}
use oyna.Ledger.Invariant.{IsLedger}
use oyna.Cash.State.{operator, admin, item, cash, CashShift, CashDb, move_expense, Sale}
use oyna.Cash.Tables.{
  CashError, already_closed, sale_cancelled, unknown_user, Outcome, done, failed, ◌>>=◌,
}
use oyna.Cash.SaleRules.{minutes_per_player}
use oyna.Cash.Shifts.{OpenShift, open_cash_shift, CloseShift, Closed, close_of, close_cash_shift}
use oyna.Cash.Drawer.{expected}
use oyna.Cash.Moves.{CashMove, move}
use oyna.Cash.Shifts.Closing.{Closing, close_cash_shift-Closing, close_cash_shift_once}
use oyna.Cash.Moves.Laws.{Moved, move-Moved}
use oyna.Cash.Lines.{resolve_item, resolve_line, resolve_each, resolve_lines, check_barter}
use oyna.Cash.Sell.{CreateSale, per_player, check_sale}
use oyna.Ledger.Service.{topup_grants, credit_topup}
use oyna.Cash.Selling.{credit_players, finish_sale, give_minutes, write_sale, sell}
use oyna.Cash.Selling.Steps.{IsDrawn}
use oyna.Cash.Returns.{cancel_of, cancel_sale, RefundSale, refund, remove_sale_minutes}
use oyna.Cash.Returns.Laws.{Cancelling, cancel_sale-Cancelling, cancel_sale_final}
use oyna.Cash.Minutes.{NoneLeft, remove_sale_minutes-NoneLeft}
use oyna.Cash.Invariant.{IsDesk}
use oyna.Cash.Reach.{sells, cancels, here, next, Reach-IsDesk}
use oyna.Cash.Handover.{handover_done}
use oyna.Cash.Summary.{report_of}
use oyna.Cash.Summary.Laws.{sum_of_methods, report_of_balances}
use oyna.Cash.Sample.{shift, first_sale, desk, desk-IsDesk}

abbrev code : ℕ → ℕ
code id = id + 1000

-- Forty minutes for two players, paid in cash.
abbrev order : CreateSale
order = record {
  venue_id = 1;
  user_id = some 7;
  user_ids = 8 ∷ 7 ∷ [];
  guest = false;
  lines =
      record {
        kind = item;
        item_id = some 4;
        booking_id = none;
        name = "";
        qty = 2;
        price_tenge = 2000;
        minutes = none;
      }
      ∷ [];
  payments = record { method = cash; amount_tenge = 4000; cash_received = some 5000 } ∷ [];
  receipt_checked = true;
  receipt_number = none;
  comment = none;
  entered_after_outage = false;
}

order_shares : (check_sale order 5 admin noon desk >>= λ c. done c.per_player) ≡ done 20
unfolding check_sale resolve_lines resolve_each resolve_line resolve_item check_barter per_player
    minutes_per_player ◌>>=◌
order_shares = refl

code-IsDrawn : IsDrawn code
code-IsDrawn i j e = omega (arith, e)

-- A sale to a user who does not exist stops half-way: it stands, and the player before has the minutes.
abbrev stranger : CreateSale
stranger = record order { user_ids = 7 ∷ 99 ∷ []; user_id = none }

half_written :
    ((sell stranger 5 operator noon code desk).0 ≡ failed unknown_user)
    × (length (sell stranger 5 operator noon code desk).1.sales ≡ length desk.sales + 1)
unfolding sell check_sale resolve_lines resolve_each resolve_line resolve_item check_barter
    per_player minutes_per_player ◌>>=◌ write_sale give_minutes credit_players finish_sale
    credit_topup topup_grants oyna.Cash.SaleRules.day_price oyna.Cash.SaleRules.is_almaty_weekend
    oyna.Rules.Calendar.date_utc oyna.Rules.Calendar.year_start oyna.Rules.Calendar.almaty_parts
    oyna.Rules.Calendar.march_day oyna.Rules.Calendar.march_year
half_written = (refl, refl)

abbrev opening : OpenShift
opening = record { venue_id = 1; opening_cash = 500; opening_note = some "пересчёт" }

-- Twenty tenge too little in the drawer.
abbrev closing : CloseShift
closing = record {
  closing_cash_actual = 9980;
  closing_kaspi = 2000;
  closing_halyk = 0;
  closing_freedom = 0;
  close_comment = some "недостача";
}

close_cash_shift-Closing_example :
    Closing closing shift 5 operator desk (close_cash_shift 1 closing 5 operator noon desk)
close_cash_shift-Closing_example =
    close_cash_shift-Closing 1 closing 5 operator noon desk shift desk-IsDesk refl

abbrev closed : Outcome Closed × CashDb
closed = close_cash_shift 1 closing 5 operator noon desk

closed_done : (r : Closed) × (closed.0 ≡ done r)
unfolding close_cash_shift close_of expected ◌-ℤ◌
closed_done = (_, refl)

close_cash_shift_once_example :
    close_cash_shift 1 closing 9 admin noon closed.1 ≡ (failed already_closed, closed.1)
close_cash_shift_once_example =
    close_cash_shift_once 1 closing 5 operator noon desk closed_done.0 closing 9 admin noon
      desk-IsDesk closed_done.1

handover_done_example :
    ((r : Closed) × (closed.0 ≡ done r))
    × ((t : CashShift) × ((open_cash_shift opening 6 noon closed.1).0 ≡ done t))
handover_done_example =
    handover_done 1 closing 5 operator noon desk shift opening 6 noon desk-IsDesk refl refl refl
      refl refl refl

abbrev paper : CashMove
paper = record { type = move_expense; amount = 300; article = none; comment = some "бумага" }

move-Moved_example : Moved shift paper desk (move 1 paper 5 noon desk)
move-Moved_example = move-Moved 1 paper 5 noon desk shift desk-IsDesk refl

abbrev undone : Outcome Sale × CashDb
undone = cancel_sale 0 "ошибка" 5 operator noon desk

cancel_sale-Cancelling_example : Cancelling first_sale desk undone
cancel_sale-Cancelling_example =
    cancel_sale-Cancelling 0 "ошибка" 5 operator noon desk first_sale desk-IsDesk refl

undone_done : (s : Sale) × (undone.0 ≡ done s)
unfolding cancel_sale cancel_of
undone_done = (_, refl)

abbrev half : RefundSale
half = record { amount_tenge = 1000; method = cash; reason = "сбой" }

cancel_sale_final_example :
    (cancel_sale 0 "ещё раз" 9 admin noon undone.1 ≡ (failed sale_cancelled, undone.1))
    × ((e : CashError) × (refund 0 half 9 admin noon undone.1 ≡ (failed e, undone.1)))
cancel_sale_final_example =
    cancel_sale_final 0 "ошибка" 5 operator noon desk undone_done.0 "ещё раз" half 9 admin noon
      desk-IsDesk undone_done.1

remove_sale_minutes-NoneLeft_example :
    let after = (remove_sale_minutes 0 (text "отмена") 9 noon tables).1 in
    IsLedger after × NoneLeft 0 after.grants
remove_sale_minutes-NoneLeft_example =
    remove_sale_minutes-NoneLeft 0 (text "отмена") 9 noon tables tables-IsLedger

Reach-IsDesk_example :
    IsDesk (cancel_sale 0 "ошибка" 9 admin noon (sell order 5 operator noon code desk).1).1
Reach-IsDesk_example =
    Reach-IsDesk
      (next
        (next here
          (sells order 5 operator noon code desk (refl, (refl, tt)) code-IsDrawn (λ i h. refl)))
        (cancels 0 "ошибка" 9 admin noon (sell order 5 operator noon code desk).1))
      desk-IsDesk

report_of_balances_example :
    (report_of shift desk).revenue + (report_of shift desk).refunds
    ≡ sum_of_methods (report_of shift desk).by_method
report_of_balances_example = report_of_balances shift desk desk-IsDesk
