-- ===== src/Cash/Shifts/Closing.antt =====
-- `closeShift` of backend/src/cash/cash.service.ts: how it ends, and that it ends once.
use oyna.Base.{
  ℕ, ◌≡◌, refl, sym, subst, ◌⊎◌, inl, inr, Bool, true, false, Option-cases, ◌&&◌, not, is_some,
  some, List, update_where, if◌then◌else◌, ◌==◌, ==→eq, ==→ne, arith,
}
use oyna.Base.Find.{find_test, find-update_where}
use oyna.Base.Rows.{length-keep-update}
use oyna.Rules.Calendar.{Date}
use oyna.Cash.State.{Role, CashShift, CashDb}
use oyna.Cash.Tables.{
  CashError, already_closed, gap_comment, not_own_shift, Outcome, done, failed, is_admin, is_open,
  is_open_of, shift_by_id,
}
use oyna.Cash.Shifts.{
  is_present, CloseShift, gaps_of, has_gap, closed_with, Closed, close_of, close_cash_shift,
}
use oyna.Cash.Drawer.{expected}
use oyna.Cash.Invariant.{OneOpen, IsDesk}

-- A shift that is closed takes no row into a query for open ones.
close-OneOpen :
    (dto : CloseShift) (actor_id : ℕ) (now : Date) (id : ℕ) (shifts : List CashShift)
    → OneOpen shifts
    → OneOpen (update_where (λ s. s.id == id) (closed_with dto actor_id now) shifts)
close-OneOpen dto actor_id now id shifts h venue_id = omega (
  arith,
  h venue_id,
  length-keep-update (is_open_of venue_id) (λ s. s.id == id) (closed_with dto actor_id now) shifts
      (λ s e. not_open venue_id s e),
)
  where
    not_open :
        (venue_id : ℕ) (s : CashShift)
        → is_open_of venue_id (closed_with dto actor_id now s) ≡ true
        → is_open_of venue_id s ≡ true
    not_open venue_id s e = ground arith

-- Who may close a shift: an owner, or whoever opened it.
abbrev pub MayClose : Role → CashShift → ℕ → Type 0
MayClose role shift actor_id = (is_admin role ≡ true) ⊎ (shift.opened_by_id ≡ actor_id)

-- What was counted is what was expected, or there is a comment.
abbrev pub IsExplained : CloseShift → CashShift → CashDb → Type 0
IsExplained dto shift db =
    (has_gap (gaps_of dto (expected shift.id shift.opening_cash db)) ≡ false)
    ⊎ (is_some dto.close_comment ≡ true)

-- Each refusal, with what it is for.
pub data ClosingRefused (dto : CloseShift) (shift : CashShift) (actor_id : ℕ) (role : Role)
    (db : CashDb) : CashError → Type 0 where
  is_shut : is_open shift ≡ false → ClosingRefused dto shift actor_id role db already_closed
  is_other :
      (MayClose role shift actor_id → ⊥) → ClosingRefused dto shift actor_id role db not_own_shift
  has_no_comment :
      (IsExplained dto shift db → ⊥) → ClosingRefused dto shift actor_id role db gap_comment

-- How a closing ends: refused for a reason with nothing written, or the shift is closed.
pub data Closing (dto : CloseShift) (shift : CashShift) (actor_id : ℕ) (role : Role) (db : CashDb)
    : Outcome Closed × CashDb → Type 0 where
  not_closed :
      (e : CashError)
      → ClosingRefused dto shift actor_id role db e
      → Closing dto shift actor_id role db (failed e, db)
  closed_as :
      (r : Closed) (after : CashDb)
      → r.expected ≡ expected shift.id shift.opening_cash db
      → is_open shift ≡ true
      → MayClose role shift actor_id
      → IsExplained dto shift db
      → is_open r.shift ≡ false
      → IsDesk after
      → after.sales ≡ db.sales
      → after.movements ≡ db.movements
      → shift_by_id shift.id after ≡ some r.shift
      → Closing dto shift actor_id role db (done r, after)

module _ (shift : CashShift) (dto : CloseShift) (actor_id : ℕ) (role : Role) (now : Date)
    (db : CashDb) (desk : IsDesk db) (found : shift_by_id shift.id db ≡ some shift) where
  closed_tables : CashDb
  closed_tables = record db {
    shifts = update_where (λ s. s.id == shift.id) (closed_with dto actor_id now) db.shifts;
    schedule =
        update_where (is_present shift.opened_by_id) (λ s. record s { left_at = some now })
          db.schedule;
  }

  closed_answer : Closed
  closed_answer = record {
    shift = closed_with dto actor_id now shift;
    expected = expected shift.id shift.opening_cash db;
    gaps = gaps_of dto (expected shift.id shift.opening_cash db);
  }

  closed-Closing :
      is_open shift ≡ true
      → MayClose role shift actor_id
      → IsExplained dto shift db
      → Closing dto shift actor_id role db (done closed_answer, closed_tables)
  unfolding closed_tables closed_answer
  closed-Closing o m x =
      closed_as _ _ refl o m x refl
        (record {
          books = desk.books;
          one_open = close-OneOpen dto actor_id now shift.id db.shifts desk.one_open;
          sales = desk.sales;
        })
        refl refl
        (find-update_where (λ s. s.id == shift.id) (closed_with dto actor_id now) db.shifts shift
          (λ s e. e) found)

  counted-Closing :
      (gap note : Bool)
      → has_gap (gaps_of dto (expected shift.id shift.opening_cash db)) ≡ gap
      → is_some dto.close_comment ≡ note
      → is_open shift ≡ true
      → MayClose role shift actor_id
      → Closing dto shift actor_id role db (
          if gap && not note then (failed gap_comment, db) else (done closed_answer, closed_tables))
  counted-Closing true false g n o m =
      not_closed _ (has_no_comment (λ x. elim x [ inl a ↦ cc | inr b ↦ cc ]))
  counted-Closing true true g n o m = closed-Closing o m (inr n)
  counted-Closing false note g n o m = closed-Closing o m (inl g)

  allowed-Closing :
      (owner own : Bool)
      → is_admin role ≡ owner
      → (shift.opened_by_id == actor_id) ≡ own
      → is_open shift ≡ true
      → Closing dto shift actor_id role db (
          if not owner && not own
          then (failed not_own_shift, db)
          else if has_gap (gaps_of dto (expected shift.id shift.opening_cash db))
              && not (is_some dto.close_comment)
          then (failed gap_comment, db)
          else (done closed_answer, closed_tables))
  allowed-Closing false false a b o = not_closed _ (
      is_other
        (λ m. elim m [ inl owner ↦ cc | inr same ↦ ==→ne shift.opened_by_id actor_id b same ]))
  allowed-Closing true own a b o = counted-Closing _ _ refl refl o (inl a)
  allowed-Closing false true a b o = counted-Closing _ _ refl refl o (inr (==→eq _ _ b))

  close_of-Closing : Closing dto shift actor_id role db (close_of shift dto actor_id role now db)
  unfolding close_of closed_tables closed_answer
  close_of-Closing = go (is_open shift) refl
    where
      go :
          (a : Bool)
          → is_open shift ≡ a
          → Closing dto shift actor_id role db (
              if not a
              then (failed already_closed, db)
              else if not (is_admin role) && not (shift.opened_by_id == actor_id)
              then (failed not_own_shift, db)
              else if has_gap (gaps_of dto (expected shift.id shift.opening_cash db))
                  && not (is_some dto.close_comment)
              then (failed gap_comment, db)
              else (done closed_answer, closed_tables))
      go false e = not_closed _ (is_shut e)
      go true e = allowed-Closing _ _ refl refl e

-- Where the tables are well-formed and the shift is found, a closing is refused, writes nothing, and says why:
-- the shift is closed already, the caller neither opened it nor is an owner, or what was counted is not what
-- was expected and there is no comment; or none of this is so, and the shift is closed, with what was expected
-- in the answer, no sale or movement changed, and the tables well-formed.
pub close_cash_shift-Closing :
    (shift_id : ℕ) (dto : CloseShift) (actor_id : ℕ) (role : Role) (now : Date) (db : CashDb)
    (shift : CashShift)
    → IsDesk db
    → shift_by_id shift_id db ≡ some shift
    → Closing dto shift actor_id role db (close_cash_shift shift_id dto actor_id role now db)
unfolding close_cash_shift
close_cash_shift-Closing shift_id dto actor_id role now db shift desk found =
    let same = ==→eq _ _ (find_test (λ s. s.id == shift_id) db.shifts shift found) in
    let own = subst (λ (i : ℕ). shift_by_id i db ≡ some shift) (sym same) found in
    rw (found, close_cash_shift) (close_of-Closing shift dto actor_id role now db desk own)

closed_after :
    (dto : CloseShift) (shift : CashShift) (actor_id : ℕ) (role : Role) (db : CashDb)
    (x : Outcome Closed × CashDb) (r : Closed)
    → Closing dto shift actor_id role db x
    → x.0 ≡ done r
    → (t : CashShift) × (shift_by_id shift.id x.1 ≡ some t) × (is_open t ≡ false)
closed_after dto shift actor_id role db x r (not_closed e w) h = cc
closed_after dto shift actor_id role db x r (closed_as q after a o m b c d e f g) h =
    (q.shift, g, c)

close_closed :
    (shift_id : ℕ) (dto : CloseShift) (actor_id : ℕ) (role : Role) (now : Date) (db : CashDb)
    (t : CashShift)
    → shift_by_id shift_id db ≡ some t
    → is_open t ≡ false
    → close_cash_shift shift_id dto actor_id role now db ≡ (failed already_closed, db)
unfolding close_cash_shift close_of
close_closed shift_id dto actor_id role now db t found shut =
    rw (found, close_cash_shift, close_of, shut) refl

-- A shift is closed once: where the tables are well-formed and a closing went through, every later closing
-- of the shift, by anybody and with any figures, is refused and writes nothing.
pub close_cash_shift_once :
    (shift_id : ℕ) (dto : CloseShift) (actor_id : ℕ) (role : Role) (now : Date) (db : CashDb)
    (r : Closed) (dto' : CloseShift) (actor_id' : ℕ) (role' : Role) (now' : Date)
    → IsDesk db
    → (close_cash_shift shift_id dto actor_id role now db).0 ≡ done r
    → let after = (close_cash_shift shift_id dto actor_id role now db).1 in
      close_cash_shift shift_id dto' actor_id' role' now' after ≡ (failed already_closed, after)
unfolding close_cash_shift
close_cash_shift_once shift_id dto actor_id role now db r dto' actor_id' role' now' desk h =
    elim (Option-cases (shift_by_id shift_id db)) [
      | inl missing ↦ cc (rw (missing, close_cash_shift) at h)
      | inr (shift, found) ↦
          let same = ==→eq _ _ (find_test (λ s. s.id == shift_id) db.shifts shift found) in
          let (t, e, shut) =
            closed_after dto shift actor_id role db _ r
              (close_cash_shift-Closing shift_id dto actor_id role now db shift desk found) h in
          close_closed shift_id dto' actor_id' role' now' _ t
            (subst
              (λ (i : ℕ).
                shift_by_id i (close_cash_shift shift_id dto actor_id role now db).1 ≡ some t)
              same e)
            shut
    ]
