-- ===== src/Cash/Selling/Finish.antt =====
-- The end of `sell` of backend/src/cash/cash.service.ts, from the minutes to the purchase.
use oyna.Base.{
  ℕ, ◌≤◌, ◌≡◌, refl, sym, subst, true, ap, ◌∙◌, inl, inr, Bool-cases, Option, none, some, List,
  sum_by, update_where, ltb, ◌==◌, arith,
}
use oyna.Base.Rows.{sum_by-update_same}
use oyna.Rules.Calendar.{Date}
use oyna.Cash.State.{PayMethod, SaleLine, Sale, Booking, CashDb}
use oyna.Cash.Tables.{Outcome, done, failed}
use oyna.Cash.Lines.{line_tenge}
use oyna.Cash.Sell.{booking_lines}
use oyna.Ledger.State.{User}
use oyna.Cash.Goods.{first_of, pay_booking, take_lines, with_transaction}
use oyna.Cash.Selling.{Sold, with_bonus, note_bonus, may_buy, finish_issued, finish_sale}
use oyna.Cash.Drawer.{sale_by, taken_by}
use oyna.Cash.Selling.Steps.{
  IsFresh, IsDrawn, IsIssued, issue_certificates-IsIssued, take_lines-IsSide,
}
use oyna.Cash.Invariant.{IsSales, paid_bookings}
use oyna.Cash.Invariant.Sales.{IsSales-relabel}

module _ (sale : Sale) (bonus : ℕ) (db : CashDb) where
  -- What the bonus note leaves alone.
  pub note_bonus-IsSales :
      (next : ℕ) (bookings : List Booking)
      → IsSales next db.sales bookings
      → IsSales next (note_bonus sale bonus db).sales bookings
  note_bonus-IsSales next bookings k = elim (Bool-cases (ltb 0 bonus)) [
    | inl some_bonus ↦ rw some_bonus (
        IsSales-relabel next _ (with_bonus bonus) db.sales bookings (λ s. refl) (λ s h. h)
          (λ id s. refl) k)
    | inr no_bonus ↦ rw no_bonus k
  ]

  pub note_bonus-taken :
      (method : PayMethod) (shift_id : ℕ)
      → taken_by method shift_id (note_bonus sale bonus db).sales
        ≡ taken_by method shift_id db.sales
  note_bonus-taken method shift_id = elim (Bool-cases (ltb 0 bonus)) [
    | inl some_bonus ↦
        rw some_bonus
          (sum_by-update_same (sale_by method shift_id) _ (with_bonus bonus) db.sales (λ s. refl))
    | inr no_bonus ↦ rw no_bonus refl
  ]

  note_bonus-rest :
      (note_bonus sale bonus db ≡ record db { sales = (note_bonus sale bonus db).sales })
  note_bonus-rest = elim (Bool-cases (ltb 0 bonus)) [
    | inl some_bonus ↦ rw some_bonus refl
    | inr no_bonus ↦ rw no_bonus refl
  ]

pay_booking-bookings :
    (o : Option ℕ) (lines : List SaleLine) (db : CashDb)
    → pay_booking o lines db
      ≡ record db { bookings = paid_bookings o (sum_by line_tenge lines) db.bookings }
pay_booking-bookings none lines db = refl
pay_booking-bookings (some id) lines db = refl

-- The tables at the end of a sale, from those with its minutes.
pub record IsFinished (sale : Sale) (bonus : ℕ) (db : CashDb) (r : Outcome Sold × CashDb)
    : Type 0 where
  pub answer : (s : Sold) × (r.0 ≡ done s)
  pub same_club : r.1.club ≡ db.club
  pub same_shifts : r.1.shifts ≡ db.shifts
  pub same_movements : r.1.movements ≡ db.movements
  pub sales :
      (id : ℕ) × (r.1.sales
        ≡ update_where
            (λ s. s.id == sale.id)
            (with_transaction id)
            (note_bonus sale bonus db).sales)
  pub bookings :
      r.1.bookings
      ≡ paid_bookings sale.booking_id (sum_by line_tenge (booking_lines sale.lines)) db.bookings
  pub grown : db.next_id ≤ r.1.next_id

module _ (sale : Sale) (minutes bonus : ℕ) (users : List User) (code : ℕ → ℕ) (db : CashDb)
    (known : may_buy users (first_of sale.user_ids) ≡ true) where
  issued-IsFinished :
      (x : Outcome {0} Unit × CashDb)
      → IsIssued code (note_bonus sale bonus db) x
      → IsFinished sale bonus db (finish_issued sale minutes bonus users x)
  issued-IsFinished (failed e, issued) k = cc (k.answer)
  issued-IsFinished (done u, issued) k =
      let i = k.side in
      let paid = pay_booking sale.booking_id (booking_lines sale.lines) issued in
      let t = take_lines-IsSide sale sale.lines paid in
      let n = note_bonus-rest sale bonus db in
      let p = pay_booking-bookings sale.booking_id (booking_lines sale.lines) issued in
      let amount = sum_by line_tenge (booking_lines sale.lines) in
      rw known (record {
        answer = (_, refl);
        same_club =
            t.same_club
            ∙ ap (λ (d : CashDb). d.club) p
            ∙ i.same_club
            ∙ ap (λ (d : CashDb). d.club) n;
        same_shifts =
            t.same_shifts
            ∙ ap (λ (d : CashDb). d.shifts) p
            ∙ i.same_shifts
            ∙ ap (λ (d : CashDb). d.shifts) n;
        same_movements =
            t.same_movements
            ∙ ap (λ (d : CashDb). d.movements) p
            ∙ i.same_movements
            ∙ ap (λ (d : CashDb). d.movements) n;
        sales = (
          (take_lines sale sale.lines paid).next_id,
          ap (update_where (λ s. s.id == sale.id) (with_transaction _))
              (t.same_sales ∙ ap (λ (d : CashDb). d.sales) p ∙ i.same_sales),
        );
        bookings =
            t.same_bookings
            ∙ ap (λ (d : CashDb). d.bookings) p
            ∙ ap (paid_bookings sale.booking_id amount)
                (i.same_bookings ∙ ap (λ (d : CashDb). d.bookings) n);
        grown = omega (
          arith,
          i.grown,
          t.grown,
          ap (λ (d : CashDb). d.next_id) p,
          ap (λ (d : CashDb). d.next_id) n,
        );
      })

  note_bonus-IsFresh : IsFresh code db → IsFresh code (note_bonus sale bonus db)
  note_bonus-IsFresh f = subst (IsFresh code) (sym (note_bonus-rest sale bonus db)) f

  -- Where the codes to be drawn are new, and the purchase is a known player's or nobody's.
  pub finish_sale-IsFinished :
      (now : Date)
      → IsDrawn code
      → IsFresh code db
      → IsFinished sale bonus db (finish_sale sale minutes now code users (done bonus, db))
  unfolding finish_sale
  finish_sale-IsFinished now drawn fresh = issued-IsFinished _ (
      issue_certificates-IsIssued code drawn sale sale.lines now (note_bonus sale bonus db)
        (note_bonus-IsFresh fresh))
