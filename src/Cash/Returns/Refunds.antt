-- ===== src/Cash/Returns/Refunds.antt =====
-- `refund` of backend/src/cash/cash.service.ts: what a refund leaves, and how much is paid back at most.
use oyna.Base.{
  ℕ, ◌+◌, ◌-◌, ◌≤◌, ◌≡◌, refl, sym, subst, ap, ◌∙◌, inl, inr, Bool, true, false, Bool-cases, ◌&&◌,
  not, is_some, Option, none, some, List, find, ltb, ltb→le, sum_by, update_where, if◌then◌else◌,
  ◌==◌, ==→eq, arith,
}
use oyna.Base.Distinct.{All-imp}
use oyna.Base.Find.{find_test, All-find, find-update_where}
use oyna.Base.Rows.{
  sum_by-update_same, sum_by-update_found, All-update, All-update_found, Distinct-update,
}
use oyna.Rules.Calendar.{Date}
use oyna.Ledger.State.{refunded_sale}
use oyna.Cash.SaleRules.{refundable}
use oyna.Cash.State.{Role, PayMethod, cash, CashShift, Sale, Booking, CashDb}
use oyna.Cash.Tables.{
  CashError, sale_cancelled, barter_refund, above_refundable, open_for_cash, Outcome, done, failed,
  is_admin, is_completed, open_shift_of, sale_by_id,
}
use oyna.Cash.Drawer.{eq_method, sale_by, taken_by, moved_in, moved_out}
use oyna.Cash.Moves.Laws.{in_append, out_append}
use oyna.Cash.Selling.{set_ledger}
use oyna.Cash.Returns.{
  remove_sale_minutes, RefundSale, refunded_by, refund_movement, pay_out, Refunded, refunded_tables,
  refund_of_sale, refund,
}
use oyna.Cash.Minutes.{NoneLeft, remove_sale_minutes-NoneLeft}
use oyna.Cash.Invariant.{IsSettled, sale_id_of, IsSaleBelow, booked_by, IsBooked, IsSales, IsDesk}
use oyna.Cash.Invariant.Sales.{IsSales-weaken}

IsSales-refunded :
    (next : ℕ) (sales : List Sale) (bookings : List Booking) (s : Sale) (dto : RefundSale)
    (actor_id : ℕ) (now : Date)
    → find (λ t. t.id == s.id) sales ≡ some s
    → dto.amount_tenge ≤ s.total_tenge - s.refund_tenge
    → IsSales next sales bookings
    → IsSales next (update_where (λ t. t.id == s.id) (refunded_by dto actor_id now) sales) bookings
IsSales-refunded next sales bookings s dto actor_id now found few k =
    let f = refunded_by dto actor_id now in
    record {
      settled =
          All-update_found sale_id_of IsSettled s.id f sales s k.distinct found k.settled
            (λ h. (h.0, omega (arith, h.1, few)));
      below = All-update (IsSaleBelow next) _ f sales (λ t h. h) k.below;
      distinct = Distinct-update sale_id_of _ f sales (λ t. refl) k.distinct;
      counted =
          All-imp {P = IsBooked sales} {Q = IsBooked (update_where (λ t. t.id == s.id) f sales)}
            (λ b h. h ∙ sym (sum_by-update_same (booked_by b.id) _ f sales (λ t. refl))) bookings
            k.counted;
    }

-- What leaves a shift's drawer: the amount, where it is paid in cash out of that shift.
abbrev pub paid_out : Bool → Option CashShift → ℕ → ℕ → ℕ
paid_out true (some s) amount shift_id = if s.id == shift_id then amount else 0
paid_out _ _ amount shift_id = 0

pay_out_moved :
    (b : Bool) (o : Option CashShift) (sale : Sale) (dto : RefundSale) (actor_id : ℕ) (db : CashDb)
    (shift_id : ℕ)
    → sum_by (moved_out shift_id) (pay_out b sale dto actor_id o db).movements
      ≡ sum_by (moved_out shift_id) db.movements + paid_out b o dto.amount_tenge shift_id
pay_out_moved true (some s) sale dto actor_id db shift_id =
    out_append shift_id db.movements (refund_movement sale dto actor_id s.id db.next_id)
    ∙ ap (λ (n : ℕ). sum_by (moved_out shift_id) db.movements + n) own
  where
    own :
        moved_out shift_id (refund_movement sale dto actor_id s.id db.next_id)
        ≡ (if s.id == shift_id then dto.amount_tenge else 0)
    own = elim (Bool-cases (s.id == shift_id)) [ inl hit ↦ rw hit refl | inr miss ↦ rw miss refl ]
pay_out_moved true none sale dto actor_id db shift_id = omega arith
pay_out_moved false o sale dto actor_id db shift_id = omega arith

-- Nothing comes into a drawer.
pay_out_in :
    (b : Bool) (o : Option CashShift) (sale : Sale) (dto : RefundSale) (actor_id : ℕ) (db : CashDb)
    (shift_id : ℕ)
    → sum_by (moved_in shift_id) (pay_out b sale dto actor_id o db).movements
      ≡ sum_by (moved_in shift_id) db.movements
pay_out_in true (some s) sale dto actor_id db shift_id = omega (
  arith,
  in_append shift_id db.movements (refund_movement sale dto actor_id s.id db.next_id),
  own,
)
  where
    own : moved_in shift_id (refund_movement sale dto actor_id s.id db.next_id) ≡ 0
    own = elim (Bool-cases (s.id == shift_id)) [ inl hit ↦ rw hit refl | inr miss ↦ rw miss refl ]
pay_out_in true none sale dto actor_id db shift_id = refl
pay_out_in false o sale dto actor_id db shift_id = refl

abbrev pub refunded_of : Sale → ℕ
refunded_of s = s.refund_tenge

-- `all_refunds`: with `sale_row`, no other sale has been refunded anything.
pub record IsRefunded (sale : Sale) (dto : RefundSale) (db after : CashDb) : Type 0 where
  pub desk : IsDesk after
  pub no_minutes : NoneLeft sale.id after.club.ledger.grants
  pub sale_row :
      (s : Sale) × (sale_by_id sale.id after ≡ some s)
      × (s.refund_tenge ≡ sale.refund_tenge + dto.amount_tenge)
      × (s.total_tenge ≡ sale.total_tenge)
      × (s.refund_tenge ≤ s.total_tenge)
  pub all_refunds : sum_by refunded_of after.sales ≡ sum_by refunded_of db.sales + dto.amount_tenge
  pub taken :
      (method : PayMethod) (shift_id : ℕ)
      → taken_by method shift_id after.sales ≡ taken_by method shift_id db.sales
  pub not_in :
      (shift_id : ℕ)
      → sum_by (moved_in shift_id) after.movements ≡ sum_by (moved_in shift_id) db.movements
  pub paid :
      (shift_id : ℕ)
      → sum_by (moved_out shift_id) after.movements
        ≡ sum_by (moved_out shift_id) db.movements
          + paid_out
              (eq_method dto.method cash)
              (open_shift_of sale.venue_id db)
              dto.amount_tenge
              shift_id

-- How a refund ends: refused with nothing written, or paid back.
pub data Refunding (sale : Sale) (dto : RefundSale) (db : CashDb)
    : Outcome Refunded × CashDb → Type 0 where
  not_refunded : (e : CashError) → Refunding sale dto db (failed e, db)
  refunded_as :
      (r : Refunded) (after : CashDb)
      → IsRefunded sale dto db after
      → Refunding sale dto db (done r, after)

-- The payout writes a movement only.
pay_out_rest :
    (b : Bool) (o : Option CashShift) (sale : Sale) (dto : RefundSale) (actor_id : ℕ) (db : CashDb)
    → (n : ℕ) × (pay_out b sale dto actor_id o db ≡ record db {
      movements = (pay_out b sale dto actor_id o db).movements;
      next_id = db.next_id + n;
    })
pay_out_rest true (some s) sale dto actor_id db = (1, refl)
pay_out_rest true none sale dto actor_id db = (0, next_eq db)
  where
    next_eq : (db : CashDb) → db ≡ record db { next_id = db.next_id + 0 }
    next_eq db = ap (λ (n : ℕ). record db { next_id = n }) (omega arith)
pay_out_rest false o sale dto actor_id db = (0, next_eq db)
  where
    next_eq : (db : CashDb) → db ≡ record db { next_id = db.next_id + 0 }
    next_eq db = ap (λ (n : ℕ). record db { next_id = n }) (omega arith)

refunded_tables-IsRefunded :
    (sale : Sale) (dto : RefundSale) (actor_id : ℕ) (now : Date) (db : CashDb)
    → IsDesk db
    → sale_by_id sale.id db ≡ some sale
    → dto.amount_tenge ≤ refundable sale.total_tenge sale.refund_tenge
    → IsRefunded sale dto db (refunded_tables sale dto actor_id now db).1
unfolding refunded_tables refundable
refunded_tables-IsRefunded sale dto actor_id now db desk found few =
    let (books, none_left) =
      remove_sale_minutes-NoneLeft sale.id (refunded_sale sale.number dto.reason) actor_id now
        db.club.ledger desk.books in
    let removed =
      (remove_sale_minutes sale.id (refunded_sale sale.number dto.reason) actor_id now
        db.club.ledger).1 in
    let settled =
      All-find (λ s. s.id == sale.id) IsSettled db.sales sale found desk.sales.settled in
    let (n, rest) =
      pay_out_rest (eq_method dto.method cash) (open_shift_of sale.venue_id db) sale dto actor_id
        (set_ledger removed db) in
    rw rest (record {
      desk = record {
        books = books;
        one_open = desk.one_open;
        sales = IsSales-weaken db.next_id (db.next_id + n) _ _ (omega arith) (
            IsSales-refunded db.next_id db.sales db.bookings sale dto actor_id now found few
              desk.sales);
      };
      no_minutes = none_left;
      sale_row = (
        refunded_by dto actor_id now sale,
        find-update_where (λ s. s.id == sale.id) (refunded_by dto actor_id now) db.sales sale
            (λ s e. e) found,
        refl,
        refl,
        omega (arith, settled.1, few),
      );
      all_refunds = omega (
        arith,
        sum_by-update_found sale_id_of refunded_of sale.id (refunded_by dto actor_id now) db.sales
            sale desk.sales.distinct found,
      );
      not_in =
          pay_out_in (eq_method dto.method cash) (open_shift_of sale.venue_id db) sale dto actor_id
            (set_ledger removed db);
      taken = λ method shift_id.
          sum_by-update_same (sale_by method shift_id) _ (refunded_by dto actor_id now) db.sales
            (λ s. refl);
      paid =
          pay_out_moved (eq_method dto.method cash) (open_shift_of sale.venue_id db) sale dto
            actor_id (set_ledger removed db);
    })

refunded_answer :
    (sale : Sale) (dto : RefundSale) (actor_id : ℕ) (now : Date) (db : CashDb)
    → (r : Refunded) × ((refunded_tables sale dto actor_id now db).0 ≡ done r)
unfolding refunded_tables
refunded_answer sale dto actor_id now db = (_, refl)

refund_of_sale-Refunding :
    (sale : Sale) (dto : RefundSale) (actor_id : ℕ) (now : Date) (db : CashDb)
    → IsDesk db
    → sale_by_id sale.id db ≡ some sale
    → Refunding sale dto db (refund_of_sale sale dto actor_id now db)
unfolding refund_of_sale
refund_of_sale-Refunding sale dto actor_id now db desk found =
    go (is_completed sale) sale.is_barter
      (ltb (refundable sale.total_tenge sale.refund_tenge) dto.amount_tenge)
      (eq_method dto.method cash && not (is_some (open_shift_of sale.venue_id db))) refl
  where
    of_answer :
        (x : Outcome Refunded × CashDb)
        → (r : Refunded) × (x.0 ≡ done r)
        → IsRefunded sale dto db x.1
        → Refunding sale dto db x
    of_answer (done r, after) h k = refunded_as r after k
    of_answer (failed e, after) (r, h) k = cc

    go :
        (a b c d : Bool)
        → ltb (refundable sale.total_tenge sale.refund_tenge) dto.amount_tenge ≡ c
        → Refunding sale dto db (
            if not a
            then (failed sale_cancelled, db)
            else if b
            then (failed barter_refund, db)
            else if c
            then (failed above_refundable, db)
            else if d
            then (failed open_for_cash, db)
            else refunded_tables sale dto actor_id now db)
    go false b c d e = not_refunded _
    go true true c d e = not_refunded _
    go true false true d e = not_refunded _
    go true false false true e = not_refunded _
    go true false false false e =
        of_answer _ (refunded_answer sale dto actor_id now db)
          (refunded_tables-IsRefunded sale dto actor_id now db desk found (ltb→le _ _ e))

pub refund-Refunding :
    (sale_id : ℕ) (dto : RefundSale) (actor_id : ℕ) (role : Role) (now : Date) (db : CashDb)
    (sale : Sale)
    → IsDesk db
    → sale_by_id sale_id db ≡ some sale
    → Refunding sale dto db (refund sale_id dto actor_id role now db)
unfolding refund
refund-Refunding sale_id dto actor_id role now db sale desk found =
    let same = ==→eq _ _ (find_test (λ s. s.id == sale_id) db.sales sale found) in
    let own = subst (λ (i : ℕ). sale_by_id i db ≡ some sale) (sym same) found in
    elim (Bool-cases (is_admin role)) [
      | inl owner ↦
          rw (owner, refund, found) (refund_of_sale-Refunding sale dto actor_id now db desk own)
      | inr not_owner ↦ rw (not_owner, refund) (not_refunded _)
    ]
