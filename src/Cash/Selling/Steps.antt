-- ===== src/Cash/Selling/Steps.antt =====
-- The steps of `sell` of backend/src/cash/cash.service.ts that write neither money nor minutes.
use oyna.Base.{
  ℕ, zero, suc, ◌+◌, ◌++◌, any, ne→==, ◌≤◌, ◌≡◌, refl, ◌∙◌, inl, inr, Bool, true, false, Bool-cases,
  Option, none, some, List, [], ◌∷◌, find, if◌then◌else◌, ◌==◌, arith,
}
use oyna.Rules.Calendar.{Date}
use oyna.Cash.State.{SaleLine, Sale, CatalogItem, GiftCertificate, CashDb}
use oyna.Cash.Tables.{Outcome, done, failed}
use oyna.Cash.Lines.{is_certificate, is_item}
use oyna.Cash.Goods.{
  new_certificate, issue_line, add_certificates, then_issue, issue_certificates, take_stock,
  take_row, take_id, take_lines,
}

-- A step of a sale that writes neither shifts nor sales, bookings, movements or minutes.
pub record IsSide (before after : CashDb) : Type 0 where
  pub same_club : after.club ≡ before.club
  pub same_shifts : after.shifts ≡ before.shifts
  pub same_sales : after.sales ≡ before.sales
  pub same_bookings : after.bookings ≡ before.bookings
  pub same_movements : after.movements ≡ before.movements
  pub grown : before.next_id ≤ after.next_id

IsSide-refl : (db : CashDb) → IsSide db db
IsSide-refl db = record {
  same_club = refl;
  same_shifts = refl;
  same_sales = refl;
  same_bookings = refl;
  same_movements = refl;
  grown = omega arith;
}

pub IsSide-trans : {a b c : CashDb} → IsSide a b → IsSide b c → IsSide a c
IsSide-trans p q = record {
  same_club = q.same_club ∙ p.same_club;
  same_shifts = q.same_shifts ∙ p.same_shifts;
  same_sales = q.same_sales ∙ p.same_sales;
  same_bookings = q.same_bookings ∙ p.same_bookings;
  same_movements = q.same_movements ∙ p.same_movements;
  grown = omega (arith, p.grown, q.grown);
}

-- No certificate has a code that is drawn from now on.
abbrev pub IsFresh : (ℕ → ℕ) → CashDb → Type 0
IsFresh code db = (i : ℕ) → db.next_id ≤ i → any (λ c. c.code == code i) db.certificates ≡ false

-- The codes that are drawn do not repeat.
abbrev pub IsDrawn : (ℕ → ℕ) → Type 0
IsDrawn code = (i j : ℕ) → code i ≡ code j → i ≡ j

-- A step that went through and left the codes to come as new as they were.
pub record IsIssued (code : ℕ → ℕ) (before : CashDb) (r : Outcome {0} Unit × CashDb) : Type 0 where
  pub answer : r.0 ≡ done tt
  pub side : IsSide before r.1
  pub fresh : IsFresh code r.1

any_append :
    (p : GiftCertificate → Bool) (cs : List GiftCertificate) (c : GiftCertificate)
    → any p cs ≡ false
    → p c ≡ false
    → any p (cs ++ c ∷ []) ≡ false
any_append p [] c h k = ground (arith, k)
any_append p (x ∷ cs) c h k = ground (arith, h, any_append p cs c, k)

module _ (code : ℕ → ℕ) (drawn : IsDrawn code) where
  none-IsIssued : (db : CashDb) → IsFresh code db → IsIssued code db (done tt, db)
  none-IsIssued db f = record { answer = refl; side = IsSide-refl db; fresh = f }

  issue_line-IsIssued :
      (sale : Sale) (line : SaleLine) (now : Date) (n : ℕ) (db : CashDb)
      → IsFresh code db
      → IsIssued code db (issue_line sale line now code n db)
  unfolding issue_line
  issue_line-IsIssued sale line now zero db f = none-IsIssued db f
  issue_line-IsIssued sale line now (suc n) db f =
      let added = record db {
        certificates = db.certificates ++ new_certificate sale line now code db.next_id ∷ [];
        next_id = db.next_id + 1;
      } in
      let still : IsFresh code added = λ i h.
        any_append (λ c. c.code == code i) db.certificates _ (f i (omega (arith, h)))
          (ne→== (code db.next_id) (code i) (λ e. later (drawn db.next_id i e) h)) in
      let rest = issue_line-IsIssued sale line now n added still in
      rw (f db.next_id (omega arith)) (record {
        answer = rest.answer;
        side = record {
          same_club = rest.side.same_club;
          same_shifts = rest.side.same_shifts;
          same_sales = rest.side.same_sales;
          same_bookings = rest.side.same_bookings;
          same_movements = rest.side.same_movements;
          grown = omega (arith, rest.side.grown);
        };
        fresh = rest.fresh;
      })
    where
      later : {i j : ℕ} → i ≡ j → i + 1 ≤ j → ⊥
      later e h = omega (arith, e, h)

  add_certificates-IsIssued :
      (sale : Sale) (line : SaleLine) (now : Date) (db : CashDb)
      → IsFresh code db
      → IsIssued code db (add_certificates sale line now code db)
  add_certificates-IsIssued sale line now db f = elim (Bool-cases (is_certificate line.kind)) [
    | inl hit ↦ rw hit (issue_line-IsIssued sale line now line.qty db f)
    | inr miss ↦ rw miss (none-IsIssued db f)
  ]

  then-IsIssued :
      (db : CashDb) (r rest : Outcome {0} Unit × CashDb)
      → IsIssued code db r
      → IsIssued code r.1 rest
      → IsIssued code db (then_issue r rest)
  then-IsIssued db (done u, d) rest k m = record {
    answer = m.answer;
    side = IsSide-trans k.side m.side;
    fresh = m.fresh;
  }
  then-IsIssued db (failed e, d) rest k m = cc (k.answer)

  pub issue_certificates-IsIssued :
      (sale : Sale) (lines : List SaleLine) (now : Date) (db : CashDb)
      → IsFresh code db
      → IsIssued code db (issue_certificates sale lines now code db)
  unfolding issue_certificates
  issue_certificates-IsIssued sale [] now db f = none-IsIssued db f
  issue_certificates-IsIssued sale (l ∷ ls) now db f =
      let r = add_certificates-IsIssued sale l now db f in
      then-IsIssued db _ _ r (issue_certificates-IsIssued sale ls now _ r.fresh)

take_stock-IsSide :
    (line : SaleLine) (sale : Sale) (i : CatalogItem) (db : CashDb)
    → IsSide db (take_stock line sale i db)
take_stock-IsSide line sale i db = elim (Bool-cases i.track_stock) [
  | inl hit ↦ rw hit (record {
    same_club = refl;
    same_shifts = refl;
    same_sales = refl;
    same_bookings = refl;
    same_movements = refl;
    grown = omega arith;
  })
  | inr miss ↦ rw miss (IsSide-refl db)
]

take_line-IsSide :
    (line : SaleLine) (sale : Sale) (db : CashDb)
    → IsSide db (if is_item line.kind then take_id line sale line.item_id db else db)
take_line-IsSide line sale db = of_kind (is_item line.kind) line.item_id
  where
    of_row : (o : Option CatalogItem) → IsSide db (take_row line sale o db)
    of_row none = IsSide-refl db
    of_row (some i) = take_stock-IsSide line sale i db

    of_kind : (b : Bool) (o : Option ℕ) → IsSide db (if b then take_id line sale o db else db)
    of_kind false o = IsSide-refl db
    of_kind true none = IsSide-refl db
    of_kind true (some id) = of_row (find (λ i. i.id == id) db.items)

pub take_lines-IsSide :
    (sale : Sale) (lines : List SaleLine) (db : CashDb) → IsSide db (take_lines sale lines db)
unfolding take_lines
take_lines-IsSide sale [] db = IsSide-refl db
take_lines-IsSide sale (l ∷ ls) db =
    IsSide-trans (take_line-IsSide l sale db) (take_lines-IsSide sale ls _)
