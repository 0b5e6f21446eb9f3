-- ===== src/Cash/Selling/Laws.antt =====
-- What `sell` of backend/src/cash/cash.service.ts leaves, and that it does not stop half-way.
use oyna.Base.{
  ℕ, ◌+◌, ◌%◌, ◌≡◌, refl, sym, subst, ap, ◌∙◌, ◌⊎◌, inl, inr, Bool-cases, List, [], ◌∷◌, ◌++◌,
  sum_by, sum_by-append, true, if◌then◌else◌, ◌==◌, arith,
}
use oyna.Base.Rows.{sum_by-update_same}
use oyna.Rules.Calendar.{Date}
use oyna.Ledger.State.{User, Db}
use oyna.Ledger.Invariant.{IsLedger}
use oyna.Loyalty.State.{Club}
use oyna.Cash.State.{Role, PayMethod, Sale, CashDb}
use oyna.Cash.Tables.{CashError, Outcome, done, failed}
use oyna.Cash.Sell.{
  PayDto, CreateSale, players_of, paid_by, total_of, Checked, check_sale, payments_of,
}
use oyna.Cash.Sell.Laws.{IsChecked, check_sale-IsChecked}
use oyna.Cash.Selling.{
  new_sale, Sold, may_buy, finish_sale, set_ledger, write_sale, write_checked, sell,
}
use oyna.Cash.Goods.{first_of, with_transaction}
use oyna.Cash.Drawer.{amount_by, sale_by, taken_by}
use oyna.Cash.Selling.Credits.{AllKnown, IsGiven, give_minutes-IsGiven}
use oyna.Cash.Selling.Steps.{IsFresh, IsDrawn}
use oyna.Cash.Selling.Finish.{finish_sale-IsFinished, note_bonus-IsSales, note_bonus-taken}
use oyna.Cash.Invariant.{amount_of, IsSettled, IsSales, OneOpen, IsDesk}
use oyna.Cash.Invariant.Sales.{IsSales-weaken, IsSales-relabel, IsSales-sold}

payments_of_total : (ps : List PayDto) → sum_by amount_of (payments_of ps) ≡ sum_by paid_by ps
payments_of_total [] = refl
payments_of_total (p ∷ ps) = omega (arith, payments_of_total ps)

new_sale-IsSettled :
    (dto : CreateSale) (operator_id : ℕ) (c : Checked) (now : Date) (db : CashDb)
    → total_of c.lines ≡ sum_by paid_by dto.payments
    → IsSettled (new_sale dto operator_id c now db)
new_sale-IsSettled dto operator_id c now db paid =
    (payments_of_total dto.payments ∙ sym paid, omega arith)

-- The counters of the shift after a sale: what its payments are by each method.
abbrev pub sale_amount : PayMethod → ℕ → CreateSale → Checked → ℕ
sale_amount method shift_id dto c =
    if c.shift.id == shift_id then sum_by (amount_by method) (payments_of dto.payments) else 0

pub record IsSold (dto : CreateSale) (c : Checked) (db : CashDb) (r : Outcome Sold × CashDb)
    : Type 0 where
  pub answer : (s : Sold) × (r.0 ≡ done s)
  pub desk : IsDesk r.1
  pub same_shifts : r.1.shifts ≡ db.shifts
  pub same_movements : r.1.movements ≡ db.movements
  pub taken :
      (method : PayMethod) (shift_id : ℕ)
      → taken_by method shift_id r.1.sales
        ≡ taken_by method shift_id db.sales + sale_amount method shift_id dto c

taken_by-append :
    (method : PayMethod) (shift_id : ℕ) (sales : List Sale) (s : Sale)
    → taken_by method shift_id (sales ++ s ∷ [])
      ≡ taken_by method shift_id sales + sale_by method shift_id s
taken_by-append method shift_id sales s =
    omega (arith, sum_by-append (sale_by method shift_id) sales (s ∷ []))

new_sale_by :
    (method : PayMethod) (shift_id : ℕ) (dto : CreateSale) (operator_id : ℕ) (c : Checked)
    (now : Date) (db : CashDb)
    → sale_by method shift_id (new_sale dto operator_id c now db)
      ≡ sale_amount method shift_id dto c
new_sale_by method shift_id dto operator_id c now db = elim (Bool-cases (c.shift.id == shift_id)) [
  | inl hit ↦ rw hit refl
  | inr miss ↦ rw miss refl
]

first_known :
    (users : List User) (us : List ℕ) → AllKnown users us → may_buy users (first_of us) ≡ true
first_known users [] k = refl
first_known users (u ∷ us) k = k.0

module _ (dto : CreateSale) (operator_id : ℕ) (c : Checked) (now : Date) (code : ℕ → ℕ)
    (db : CashDb) (desk : IsDesk db) (paid : total_of c.lines ≡ sum_by paid_by dto.payments)
    (known : AllKnown db.club.ledger.users (players_of dto)) (drawn : IsDrawn code)
    (fresh : IsFresh code db) where
  made : Sale
  made = new_sale dto operator_id c now db

  made_tables : CashDb
  made_tables = record db { sales = db.sales ++ made ∷ []; next_id = db.next_id + 1 }

  finish-IsSold :
      (d : Db) (bonus : ℕ)
      → IsLedger d
      → IsSold dto c db (
          finish_sale made c.per_player now code db.club.ledger.users
            (done bonus, set_ledger d made_tables))
  unfolding finish_sale made made_tables
  finish-IsSold d bonus l =
      let start = set_ledger d made_tables in
      let users = db.club.ledger.users in
      let f =
        finish_sale-IsFinished made c.per_player bonus users code start
          (first_known users (players_of dto) known) now drawn
          (λ i h. fresh i (omega (arith, h))) in
      let after = (finish_sale made c.per_player now code users (done bonus, start)).1 in
      let sold =
        IsSales-sold db.next_id db.sales made db.bookings refl
          (new_sale-IsSettled dto operator_id c now db paid) refl desk.sales made.booking_id refl in
      let noted = note_bonus-IsSales made bonus start (db.next_id + 1) _ sold in
      let linked =
        IsSales-relabel (db.next_id + 1) _ (with_transaction f.sales.0) _ _ (λ s. refl) (λ s h. h)
          (λ id s. refl) noted in
      record {
        answer = f.answer;
        desk = record {
          books = subst (λ (k : Club). IsLedger k.ledger) (sym f.same_club) l;
          one_open = subst OneOpen (sym f.same_shifts) desk.one_open;
          sales =
              subst (λ (ss : List Sale). IsSales after.next_id ss after.bookings) (sym f.sales.1)
                (subst (IsSales after.next_id _) (sym f.bookings)
                  (IsSales-weaken (db.next_id + 1) after.next_id _ _ f.grown linked));
        };
        same_shifts = f.same_shifts;
        same_movements = f.same_movements;
        taken = λ method shift_id.
            ap (taken_by method shift_id) f.sales.1
            ∙ sum_by-update_same (sale_by method shift_id) _ (with_transaction f.sales.0) _
                (λ s. refl)
            ∙ note_bonus-taken made bonus start method shift_id
            ∙ taken_by-append method shift_id db.sales made
            ∙ ap (λ (n : ℕ). taken_by method shift_id db.sales + n)
                (new_sale_by method shift_id dto operator_id c now db);
      }

  given-IsSold :
      (r : Outcome ℕ × CashDb)
      → IsGiven made_tables r
      → IsSold dto c db (finish_sale made c.per_player now code db.club.ledger.users r)
  given-IsSold (failed e, db') (n, answer, d, same, l) = cc
  given-IsSold (done bonus, db') (n, answer, d, same, l) =
      subst
        (λ (x : CashDb).
          IsSold dto c db
            (finish_sale made c.per_player now code db.club.ledger.users (done bonus, x)))
        (sym same) (finish-IsSold d bonus l)

  write_sale-IsSold :
      c.per_player % 10 ≡ 0 → IsSold dto c db (write_sale dto operator_id c now code db)
  unfolding write_sale made made_tables
  write_sale-IsSold tens =
      given-IsSold _ (give_minutes-IsGiven made c.per_player now made_tables known tens desk.books)

pub sell_all_or_nothing :
    (dto : CreateSale) (operator_id : ℕ) (role : Role) (now : Date) (code : ℕ → ℕ) (db : CashDb)
    → IsDesk db
    → AllKnown db.club.ledger.users (players_of dto)
    → IsDrawn code
    → IsFresh code db
    → ((e : CashError) × (sell dto operator_id role now code db ≡ (failed e, db)))
      ⊎ ((c : Checked) × IsChecked dto operator_id role now db c
          × IsSold dto c db (sell dto operator_id role now code db))
unfolding sell
sell_all_or_nothing dto operator_id role now code db desk known drawn fresh =
    of_check (check_sale dto operator_id role now db) refl
  where
    of_check :
        (o : Outcome Checked)
        → check_sale dto operator_id role now db ≡ o
        → ((e : CashError) × (write_checked dto operator_id now code db o ≡ (failed e, db)))
          ⊎ ((c : Checked) × IsChecked dto operator_id role now db c
              × IsSold dto c db (write_checked dto operator_id now code db o))
    of_check (failed e) h = inl (e, refl)
    of_check (done c) h =
        let k = check_sale-IsChecked dto operator_id role now db c h in
        inr (
          c,
          k,
          write_sale-IsSold dto operator_id c now code db desk k.paid known drawn fresh k.tens,
        )
