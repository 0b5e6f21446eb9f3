-- ===== src/Cash/Shifts.antt =====
-- `openShift` and `closeShift` of backend/src/cash/cash.service.ts, and `markArrival` of
-- backend/src/team/team.service.ts. A call reads the clock once, `now`.
pub mod Laws
pub mod Closing
use oyna.Base.{
  ℕ, ◌+◌, ◌-◌, Bool, false, ◌&&◌, ◌||◌, not, is_some, or_else, Option, none, some, List, [], ◌∷◌,
  ◌++◌, String, leb, ltb, ◌==◌, if◌then◌else◌, keep, update_where,
}
use oyna.Base.Int.{ℤ, pos, ◌-ℤ◌, eqb_ℤ}
use oyna.Rules.Calendar.{Date, hour_ms}
use oyna.Cash.State.{
  Role, cash, kaspi, halyk, freedom, open_shift, closed_shift, CashShift, StaffShift, CashDb,
}
use oyna.Cash.Tables.{
  already_open, mismatch_note, no_shift_row, already_closed, not_own_shift, gap_comment, Outcome,
  done, failed, is_admin, is_open, open_shift_of, shift_by_id, max_by,
}
use oyna.Cash.Drawer.{Drawer, expected}

-- `markArrival`: the first shift of the schedule that goes on now, or begins within an hour.
abbrev pub is_arriving : ℕ → ℕ → Date → StaffShift → Bool
is_arriving user_id venue_id now s =
    s.user_id == user_id
    && s.venue_id == venue_id
    && not (is_some s.arrived_at)
    && leb s.starts_at (now + hour_ms)
    && leb now s.ends_at

abbrev earlier : StaffShift → Option StaffShift → StaffShift
earlier s none = s
earlier s (some t) = if leb s.starts_at t.starts_at then s else t

abbrev pub earliest : List StaffShift → Option StaffShift
earliest [] = none
earliest (s ∷ ss) = some (earlier s (earliest ss))

abbrev pub arrived_at_now : Date → StaffShift → StaffShift
arrived_at_now now s = record s { arrived_at = some now }

unfoldable pub mark_arrival : ℕ → ℕ → Date → List StaffShift → List StaffShift
mark_arrival user_id venue_id now schedule =
    elim (earliest (keep (is_arriving user_id venue_id now) schedule)) [
      | none ↦ schedule
      | some row ↦ update_where (λ s. s.id == row.id) (arrived_at_now now) schedule
    ]

pub record OpenShift : Type 0 where
  pub venue_id : ℕ
  pub opening_cash : ℕ
  pub opening_note : Option String

abbrev pub is_closed_of : ℕ → CashShift → Bool
is_closed_of venue_id s = s.venue_id == venue_id && not (is_open s)

abbrev closed_time : CashShift → ℕ
closed_time s = or_else s.closed_at 0

abbrev later : CashShift → Option CashShift → CashShift
later s none = s
later s (some t) = if ltb (closed_time s) (closed_time t) then t else s

-- `orderBy: { closedAt: 'desc' }`, the first row
abbrev pub last_closed : List CashShift → Option CashShift
last_closed [] = none
last_closed (s ∷ ss) = some (later s (last_closed ss))

abbrev pub previous_shift : ℕ → CashDb → Option CashShift
previous_shift venue_id db = last_closed (keep (is_closed_of venue_id) db.shifts)

abbrev pub previous_cash : Option CashShift → Option ℕ
previous_cash none = none
previous_cash (some s) = s.closing_cash_actual

abbrev pub differs_from : Option ℕ → ℕ → Bool
differs_from none n = false
differs_from (some m) n = not (m == n)

abbrev number_of : CashShift → ℕ
number_of s = s.number

abbrev pub next_number : ℕ → CashDb → ℕ
next_number venue_id db = max_by number_of (keep (λ s. s.venue_id == venue_id) db.shifts) + 1

abbrev pub new_shift : OpenShift → ℕ → Date → CashDb → CashShift
new_shift dto operator_id now db = record {
  id = db.next_id;
  venue_id = dto.venue_id;
  number = next_number dto.venue_id db;
  opened_by_id = operator_id;
  closed_by_id = none;
  status = open_shift;
  opening_cash = dto.opening_cash;
  previous_close_cash = previous_cash (previous_shift dto.venue_id db);
  opening_note = dto.opening_note;
  closing_cash_actual = none;
  closing_kaspi = none;
  closing_halyk = none;
  closing_freedom = none;
  close_comment = none;
  opened_at = now;
  closed_at = none;
}

unfoldable pub open_cash_shift : OpenShift → ℕ → Date → CashDb → Outcome CashShift × CashDb
open_cash_shift dto operator_id now db =
    let shift = new_shift dto operator_id now db in
    if is_some (open_shift_of dto.venue_id db)
    then (failed already_open, db)
    else if differs_from (previous_cash (previous_shift dto.venue_id db)) dto.opening_cash
        && not (is_some dto.opening_note)
    then (failed mismatch_note, db)
    else (
      done shift,
      record db {
        shifts = db.shifts ++ shift ∷ [];
        schedule = mark_arrival operator_id dto.venue_id now db.schedule;
        next_id = db.next_id + 1;
      },
    )

pub record Gaps : Type 0 where
  pub cash : ℤ
  pub kaspi : ℤ
  pub halyk : ℤ
  pub freedom : ℤ

pub record CloseShift : Type 0 where
  pub closing_cash_actual : ℕ
  pub closing_kaspi : ℕ
  pub closing_halyk : ℕ
  pub closing_freedom : ℕ
  pub close_comment : Option String

abbrev pub gaps_of : CloseShift → Drawer → Gaps
gaps_of dto drawer = record {
  cash = pos dto.closing_cash_actual -ℤ drawer.cash;
  kaspi = pos dto.closing_kaspi -ℤ pos drawer.kaspi;
  halyk = pos dto.closing_halyk -ℤ pos drawer.halyk;
  freedom = pos dto.closing_freedom -ℤ pos drawer.freedom;
}

abbrev pub has_gap : Gaps → Bool
has_gap g =
    not (eqb_ℤ g.cash (pos 0))
    || not (eqb_ℤ g.kaspi (pos 0))
    || not (eqb_ℤ g.halyk (pos 0))
    || not (eqb_ℤ g.freedom (pos 0))

abbrev pub closed_with : CloseShift → ℕ → Date → CashShift → CashShift
closed_with dto actor_id now s = record s {
  status = closed_shift;
  closed_by_id = some actor_id;
  closed_at = some now;
  closing_cash_actual = some dto.closing_cash_actual;
  closing_kaspi = some dto.closing_kaspi;
  closing_halyk = some dto.closing_halyk;
  closing_freedom = some dto.closing_freedom;
  close_comment = dto.close_comment;
}

abbrev pub is_present : ℕ → StaffShift → Bool
is_present user_id s = s.user_id == user_id && not (is_some s.left_at) && is_some s.arrived_at

pub record Closed : Type 0 where
  pub shift : CashShift
  pub expected : Drawer
  pub gaps : Gaps

unfoldable pub close_of :
    CashShift → CloseShift → ℕ → Role → Date → CashDb → Outcome Closed × CashDb
close_of shift dto actor_id role now db =
    let drawer = expected shift.id shift.opening_cash db in
    let gaps = gaps_of dto drawer in
    if not (is_open shift)
    then (failed already_closed, db)
    else if not (is_admin role) && not (shift.opened_by_id == actor_id)
    then (failed not_own_shift, db)
    else if has_gap gaps && not (is_some dto.close_comment)
    then (failed gap_comment, db)
    else (
      done (record { shift = closed_with dto actor_id now shift; expected = drawer; gaps = gaps }),
      record db {
        shifts = update_where (λ s. s.id == shift.id) (closed_with dto actor_id now) db.shifts;
        schedule =
            update_where (is_present shift.opened_by_id) (λ s. record s { left_at = some now })
              db.schedule;
      },
    )

unfoldable pub close_cash_shift :
    ℕ → CloseShift → ℕ → Role → Date → CashDb → Outcome Closed × CashDb
close_cash_shift shift_id dto actor_id role now db = elim (shift_by_id shift_id db) [
  | none ↦ (failed no_shift_row, db)
  | some shift ↦ close_of shift dto actor_id role now db
]
