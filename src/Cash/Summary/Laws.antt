-- ===== src/Cash/Summary/Laws.antt =====
-- The report of a shift, `report` of backend/src/cash/cash.service.ts, against its sales.
use oyna.Base.{ℕ, ◌+◌, ◌≡◌, refl, List, [], ◌∷◌, All, sum_by, ◌&&◌, arith}
use oyna.Base.Distinct.{All-keep}
use oyna.Cash.State.{PayMethod, cash, kaspi, halyk, freedom, CashShift, Sale, SalePayment, CashDb}
use oyna.Cash.Tables.{is_completed}
use oyna.Cash.Drawer.{amount_by}
use oyna.Cash.Summary.{
  is_of_shift, completed_of, not_barter, net_of, refund_of, ByMethod, by_method, report_of,
}
use oyna.Cash.Invariant.{amount_of, IsSettled, IsDesk}

abbrev pub sum_of_methods : ByMethod → ℕ
sum_of_methods m = m.cash + m.kaspi + m.halyk + m.freedom

one_method :
    (p : SalePayment)
    → amount_by cash p + amount_by kaspi p + amount_by halyk p + amount_by freedom p ≡ amount_of p
one_method p = of_method p.method
  where
    of_method :
        (m : PayMethod)
        → amount_by cash (record p { method = m })
            + amount_by kaspi (record p { method = m })
            + amount_by halyk (record p { method = m })
            + amount_by freedom (record p { method = m })
          ≡ amount_of p
    of_method cash = omega arith
    of_method kaspi = omega arith
    of_method halyk = omega arith
    of_method freedom = omega arith

payments_split :
    (ps : List SalePayment)
    → sum_by (amount_by cash) ps
        + sum_by (amount_by kaspi) ps
        + sum_by (amount_by halyk) ps
        + sum_by (amount_by freedom) ps
      ≡ sum_by amount_of ps
payments_split [] = refl
payments_split (p ∷ ps) = omega (arith, one_method p, payments_split ps)

sales_split :
    (sales : List Sale)
    → All IsSettled sales
    → sum_by net_of sales + sum_by refund_of sales ≡ sum_of_methods (by_method sales)
sales_split [] h = refl
sales_split (s ∷ ss) h = omega (arith, h.0.0, h.0.1, payments_split s.payments, sales_split ss h.1)

-- Where the tables are well-formed, a shift's report is consistent: its revenue and its refunds together
-- are the payments by the four methods.
pub report_of_balances :
    (shift : CashShift) (db : CashDb)
    → IsDesk db
    → (report_of shift db).revenue + (report_of shift db).refunds
      ≡ sum_of_methods (report_of shift db).by_method
unfolding report_of
report_of_balances shift db desk = sales_split _ (
    All-keep IsSettled not_barter (completed_of shift.id db.sales) (
      All-keep IsSettled (λ s. is_of_shift shift.id s && is_completed s) db.sales
        desk.sales.settled))
