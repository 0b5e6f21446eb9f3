-- ===== src/Cash/Shifts/Laws.antt =====
-- `openShift` of backend/src/cash/cash.service.ts: the shifts of a venue.
use oyna.Base.{
  ℕ, ◌+◌, ◌≤◌, ◌≡◌, refl, subst, inl, inr, Bool, true, false, Bool-cases, Option-cases, ◌&&◌, not,
  is_some, none, List, [], ◌∷◌, ◌++◌, find, keep, length, length-append, if◌then◌else◌, ◌==◌, ==→eq,
  arith,
}
use oyna.Base.Rows.{keep-append}
use oyna.Rules.Calendar.{Date}
use oyna.Cash.State.{CashShift, CashDb}
use oyna.Cash.Tables.{
  CashError, mismatch_note, Outcome, done, failed, is_open, is_open_of, open_shift_of,
}
use oyna.Cash.Shifts.{
  mark_arrival, OpenShift, previous_cash, previous_shift, differs_from, new_shift, open_cash_shift,
}
use oyna.Cash.Invariant.{OneOpen, IsDesk}
use oyna.Cash.Invariant.Sales.{IsSales-weaken}

-- No row passes a test that `find` finds none for.
pub none-keep :
    (p : CashShift → Bool) (ss : List CashShift) → find p ss ≡ none → length (keep p ss) ≡ 0
none-keep p [] h = refl
none-keep p (s ∷ ss) h = elim (Bool-cases (p s)) [
  | inl hit ↦ cc (rw hit at h)
  | inr miss ↦ rw miss (none-keep p ss (rw miss at h))
]

open-OneOpen :
    (shifts : List CashShift) (s : CashShift)
    → find (is_open_of s.venue_id) shifts ≡ none
    → OneOpen shifts
    → OneOpen (shifts ++ s ∷ [])
open-OneOpen shifts s free h venue_id =
    rw (keep-append (is_open_of venue_id) shifts (s ∷ []))
      (elim (Bool-cases (s.venue_id == venue_id)) [
        | inl here ↦
            let none_open =
              none-keep (is_open_of venue_id) shifts
                (subst (λ (v : ℕ). find (is_open_of v) shifts ≡ none) (==→eq _ _ here) free) in
            omega (
              arith,
              none_open,
              length-append (keep (is_open_of venue_id) shifts) _,
              few s venue_id,
            )
        | inr elsewhere ↦
            rw elsewhere
              (omega (arith, h venue_id, length-append (keep (is_open_of venue_id) shifts) []))
      ])
  where
    few : (s : CashShift) (venue_id : ℕ) → length (keep (is_open_of venue_id) (s ∷ [])) ≤ 1
    few s venue_id = elim (Bool-cases (is_open_of venue_id s)) [
      | inl hit ↦ rw hit (omega arith)
      | inr miss ↦ rw miss (omega arith)
    ]

-- How an opening ends: refused with nothing written, or with the venue's only open shift.
pub data Opened (dto : OpenShift) (db : CashDb) : Outcome CashShift × CashDb → Type 0 where
  not_opened : (e : CashError) → Opened dto db (failed e, db)
  opened_shift :
      (s : CashShift) (after : CashDb)
      → s.venue_id ≡ dto.venue_id
      → s.opening_cash ≡ dto.opening_cash
      → is_open s ≡ true
      → after.shifts ≡ db.shifts ++ s ∷ []
      → IsDesk after
      → Opened dto db (done s, after)

-- Where the tables are well-formed, opening a shift is refused and writes nothing, or adds an open shift of
-- the venue with the counted cash, and the tables stay well-formed: no venue has two open shifts.
pub open_cash_shift-Opened :
    (dto : OpenShift) (operator_id : ℕ) (now : Date) (db : CashDb)
    → IsDesk db
    → Opened dto db (open_cash_shift dto operator_id now db)
unfolding open_cash_shift
open_cash_shift-Opened dto operator_id now db desk =
    elim (Option-cases (open_shift_of dto.venue_id db)) [
      | inr (t, e) ↦ rw (e, open_cash_shift) (not_opened _)
      | inl free ↦
          rw (free, open_cash_shift)
            (of_note
              (differs_from (previous_cash (previous_shift dto.venue_id db)) dto.opening_cash
                && not (is_some dto.opening_note))
              free)
    ]
  where
    s : CashShift
    s = new_shift dto operator_id now db

    after : CashDb
    after = record db {
      shifts = db.shifts ++ s ∷ [];
      schedule = mark_arrival operator_id dto.venue_id now db.schedule;
      next_id = db.next_id + 1;
    }

    of_note :
        (b : Bool)
        → open_shift_of dto.venue_id db ≡ none
        → Opened dto db (if b then (failed mismatch_note, db) else (done s, after))
    of_note true free = not_opened _
    of_note false free = opened_shift s after refl refl refl refl (record {
      books = desk.books;
      one_open = open-OneOpen db.shifts s free desk.one_open;
      sales = IsSales-weaken db.next_id (db.next_id + 1) _ _ (omega arith) desk.sales;
    })
