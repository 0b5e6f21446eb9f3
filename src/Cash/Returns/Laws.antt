-- ===== src/Cash/Returns/Laws.antt =====
-- `cancel` of backend/src/cash/cash.service.ts: what a cancelled sale leaves.
use oyna.Base.{
  ℕ, ◌+◌, ◌≡◌, refl, sym, subst, inl, inr, Bool, true, false, Bool-cases, Option-cases, ◌&&◌, not,
  any, Option, none, some, List, [], ◌∷◌, String, All, keep, ltb, sum_by, update_where,
  if◌then◌else◌, ◌==◌, ==→eq, arith,
}
use oyna.Base.Find.{find_test, find-update_where}
use oyna.Base.Rows.{sum_by-update_found}
use oyna.Rules.Calendar.{Date}
use oyna.Ledger.State.{cancelled_sale}
use oyna.Cash.State.{Role, PayMethod, SaleLine, Sale, GiftCertificate, expired, CashDb}
use oyna.Cash.Tables.{
  CashError, sale_cancelled, sale_refunded, cancel_owner, certificate_activated, Outcome, done,
  failed, is_admin, is_completed, sale_by_id,
}
use oyna.Cash.Lines.{line_tenge}
use oyna.Cash.Drawer.{sale_by, taken_by}
use oyna.Cash.Sell.{booking_lines}
use oyna.Cash.Returns.{
  own_open, is_activated, is_of_sale, expire_certificate, cancelled_by, unpay_booking,
  cancelled_tables, cancel_of, cancel_sale, RefundSale, refund_of_sale, refund,
}
use oyna.Cash.Minutes.{NoneLeft, remove_sale_minutes-NoneLeft}
use oyna.Cash.Invariant.{sale_id_of, IsDesk, unpaid_bookings}
use oyna.Cash.Invariant.Sales.{IsSales-cancelled}

abbrev pub is_voided : GiftCertificate → Bool
is_voided c = elim c.status [ expired ↦ true | _ ↦ false ]

-- A certificate that a player could still bring.
abbrev pub is_usable_of : ℕ → GiftCertificate → Bool
is_usable_of sale_id c = is_of_sale sale_id c && not (is_voided c)

expired_unusable :
    (sale_id : ℕ) (c : GiftCertificate) → is_usable_of sale_id (expire_certificate c) ≡ false
expired_unusable sale_id c = ground arith

none_usable :
    (sale_id : ℕ) (cs : List GiftCertificate)
    → All
        (λ c. is_usable_of sale_id c ≡ false)
        (update_where (is_of_sale sale_id) expire_certificate cs)
none_usable sale_id [] = tt
none_usable sale_id (c ∷ cs) = elim (Bool-cases (is_of_sale sale_id c)) [
  | inl hit ↦ rw hit (expired_unusable sale_id c, none_usable sale_id cs)
  | inr miss ↦ rw miss (rw miss refl, none_usable sale_id cs)
]

pub record IsCancelled (sale : Sale) (db after : CashDb) : Type 0 where
  pub desk : IsDesk after
  pub no_minutes : NoneLeft sale.id after.club.ledger.grants
  pub no_certificate : All (λ c. is_usable_of sale.id c ≡ false) after.certificates
  pub taken :
      (method : PayMethod) (shift_id : ℕ)
      → taken_by method shift_id after.sales + sale_by method shift_id sale
        ≡ taken_by method shift_id db.sales
  pub sale_row : (s : Sale) × (sale_by_id sale.id after ≡ some s) × (is_completed s ≡ false)

unpay_booking-bookings :
    (o : Option ℕ) (lines : List SaleLine) (db : CashDb)
    → unpay_booking o lines db
      ≡ record db { bookings = unpaid_bookings o (sum_by line_tenge lines) db.bookings }
unpay_booking-bookings none lines db = refl
unpay_booking-bookings (some id) lines db = refl

cancelled_tables-IsCancelled :
    (sale : Sale) (reason : String) (actor_id : ℕ) (now : Date) (db : CashDb)
    → IsDesk db
    → sale_by_id sale.id db ≡ some sale
    → is_completed sale ≡ true
    → IsCancelled sale db (cancelled_tables sale reason actor_id now db)
unfolding cancelled_tables
cancelled_tables-IsCancelled sale reason actor_id now db desk found standing =
    let f = cancelled_by reason actor_id now in
    let (books, none_left) =
      remove_sale_minutes-NoneLeft sale.id (cancelled_sale sale.number reason) actor_id now
        db.club.ledger desk.books in
    rw (unpay_booking-bookings sale.booking_id (booking_lines sale.lines) _) (record {
      desk = record {
        books = books;
        one_open = desk.one_open;
        sales =
            IsSales-cancelled db.next_id db.sales sale f db.bookings found standing refl (λ t. refl)
              (λ t h. h) desk.sales sale.booking_id refl;
      };
      no_minutes = none_left;
      no_certificate = none_usable sale.id db.certificates;
      taken = λ method shift_id. omega (
        arith,
        sum_by-update_found sale_id_of (sale_by method shift_id) sale.id f db.sales sale
            desk.sales.distinct found,
        cancelled_by_none method shift_id,
      );
      sale_row =
          (f sale, find-update_where (λ s. s.id == sale.id) f db.sales sale (λ s e. e) found, refl);
    })
  where
    cancelled_by_none :
        (method : PayMethod) (shift_id : ℕ)
        → sale_by method shift_id (cancelled_by reason actor_id now sale) ≡ 0
    cancelled_by_none method shift_id = ground arith

-- How a cancellation ends: refused with nothing written, or the sale is undone.
pub data Cancelling (sale : Sale) (db : CashDb) : Outcome Sale × CashDb → Type 0 where
  not_cancelled : (e : CashError) → Cancelling sale db (failed e, db)
  cancelled_as :
      (s : Sale) (after : CashDb) → IsCancelled sale db after → Cancelling sale db (done s, after)

cancel_of-Cancelling :
    (sale : Sale) (reason : String) (actor_id : ℕ) (role : Role) (now : Date) (db : CashDb)
    → IsDesk db
    → sale_by_id sale.id db ≡ some sale
    → Cancelling sale db (cancel_of sale reason actor_id role now db)
unfolding cancel_of
cancel_of-Cancelling sale reason actor_id role now db desk found =
    go (is_completed sale) (ltb 0 sale.refund_tenge)
      (not (own_open sale actor_id db) && not (is_admin role))
      (any is_activated (keep (is_of_sale sale.id) db.certificates)) refl
  where
    go :
        (a b c d : Bool)
        → is_completed sale ≡ a
        → Cancelling sale db (
            if not a
            then (failed sale_cancelled, db)
            else if b
            then (failed sale_refunded, db)
            else if c
            then (failed cancel_owner, db)
            else if d
            then (failed certificate_activated, db)
            else (
              done (cancelled_by reason actor_id now sale),
              cancelled_tables sale reason actor_id now db,
            ))
    go false b c d e = not_cancelled _
    go true true c d e = not_cancelled _
    go true false true d e = not_cancelled _
    go true false false true e = not_cancelled _
    go true false false false e =
        cancelled_as _ _ (cancelled_tables-IsCancelled sale reason actor_id now db desk found e)

-- Where the tables are well-formed and the sale is found, a cancellation is refused and writes nothing, or
-- the sale is undone: none of its grants holds minutes, none of its certificates can be used, what its
-- shift has taken by each method falls by its payments, its booking's paid amount by what it paid for it,
-- and the tables stay well-formed.
pub cancel_sale-Cancelling :
    (sale_id : ℕ) (reason : String) (actor_id : ℕ) (role : Role) (now : Date) (db : CashDb)
    (sale : Sale)
    → IsDesk db
    → sale_by_id sale_id db ≡ some sale
    → Cancelling sale db (cancel_sale sale_id reason actor_id role now db)
unfolding cancel_sale
cancel_sale-Cancelling sale_id reason actor_id role now db sale desk found =
    let same = ==→eq _ _ (find_test (λ s. s.id == sale_id) db.sales sale found) in
    let own = subst (λ (i : ℕ). sale_by_id i db ≡ some sale) (sym same) found in
    rw (found, cancel_sale) (cancel_of-Cancelling sale reason actor_id role now db desk own)

cancelled_after :
    (sale : Sale) (db : CashDb) (x : Outcome Sale × CashDb) (r : Sale)
    → Cancelling sale db x
    → x.0 ≡ done r
    → (s : Sale) × (sale_by_id sale.id x.1 ≡ some s) × (is_completed s ≡ false)
cancelled_after sale db x r (not_cancelled e) h = cc
cancelled_after sale db x r (cancelled_as s after k) h = k.sale_row

refused_after :
    (sale_id : ℕ) (reason : String) (dto : RefundSale) (actor_id : ℕ) (role : Role) (now : Date)
    (db : CashDb) (s : Sale)
    → sale_by_id sale_id db ≡ some s
    → is_completed s ≡ false
    → (cancel_sale sale_id reason actor_id role now db ≡ (failed sale_cancelled, db))
      × ((e : CashError) × (refund sale_id dto actor_id role now db ≡ (failed e, db)))
unfolding cancel_sale cancel_of refund refund_of_sale
refused_after sale_id reason dto actor_id role now db s found off = (
  rw (found, cancel_sale, cancel_of, off) refl,
  elim (Bool-cases (is_admin role)) [
    | inl owner ↦ rw (owner, refund, found, refund_of_sale, off) (_, refl)
    | inr not_owner ↦ rw (not_owner, refund) (_, refl)
  ],
)

-- A sale is undone once: where the tables are well-formed and a cancellation went through, every later
-- cancellation of the sale is refused, every refund of it is, and neither writes anything.
pub cancel_sale_final :
    (sale_id : ℕ) (reason : String) (actor_id : ℕ) (role : Role) (now : Date) (db : CashDb)
    (r : Sale) (reason' : String) (dto : RefundSale) (actor_id' : ℕ) (role' : Role) (now' : Date)
    → IsDesk db
    → (cancel_sale sale_id reason actor_id role now db).0 ≡ done r
    → let after = (cancel_sale sale_id reason actor_id role now db).1 in
      (cancel_sale sale_id reason' actor_id' role' now' after ≡ (failed sale_cancelled, after))
      × ((e : CashError) × (refund sale_id dto actor_id' role' now' after ≡ (failed e, after)))
unfolding cancel_sale
cancel_sale_final sale_id reason actor_id role now db r reason' dto actor_id' role' now' desk h =
    elim (Option-cases (sale_by_id sale_id db)) [
      | inl missing ↦ cc (rw (missing, cancel_sale) at h)
      | inr (sale, found) ↦
          let same = ==→eq _ _ (find_test (λ s. s.id == sale_id) db.sales sale found) in
          let (s, e, off) =
            cancelled_after sale db _ r
              (cancel_sale-Cancelling sale_id reason actor_id role now db sale desk found) h in
          refused_after sale_id reason' dto actor_id' role' now' _ s
            (subst
              (λ (i : ℕ). sale_by_id i (cancel_sale sale_id reason actor_id role now db).1 ≡ some s)
              same e)
            off
    ]
