-- ===== src/Team/Shifts.antt =====
-- backend/src/team/team-rules.ts: lateness, and the copy of a week of shifts.
use oyna.Base.{
  ℕ, ◌+◌, ◌-◌, ◌*◌, ◌/◌, ◌≡◌, refl, sym, subst, inl, inr, Bool, true, false, Bool-cases, ◌&&◌, ◌||◌,
  Option, none, some, List, [], ◌∷◌, ltb, ◌==◌, if◌then◌else◌, any, All, arith,
}
use oyna.Base.Distinct.{All-imp}
use oyna.Rules.Calendar.{Date, day_ms}

abbrev pub late_grace_ms : ℕ
late_grace_ms = 10 * 60 * 1000

pub record ShiftRow : Type 0 where
  pub user_id : ℕ
  pub starts_at : Date
  pub ends_at : Date

-- `Math.round(gap / 60000)`
unfoldable pub late_minutes : Date → Option Date → ℕ
late_minutes starts_at none = 0
late_minutes starts_at (some arrived_at) =
    let gap = arrived_at - starts_at in
    if ltb late_grace_ms gap then (2 * gap + 60000) / 120000 else 0

abbrev pub week_ms : ℕ
week_ms = 7 * day_ms

-- `user:start`, the key of a shift
abbrev pub same_slot : ShiftRow → ShiftRow → Bool
same_slot a b = a.user_id == b.user_id && a.starts_at == b.starts_at

abbrev pub next_week : ShiftRow → ShiftRow
next_week row = record row { starts_at = row.starts_at + week_ms; ends_at = row.ends_at + week_ms }

-- The loop over last week's shifts; `taken` are the shifts whose keys are in the set.
unfoldable pub copy_each : List ShiftRow → List ShiftRow → List ShiftRow
copy_each taken [] = []
copy_each taken (row ∷ previous) =
    let copy = next_week row in
    if any (same_slot copy) taken
    then copy_each taken previous
    else copy ∷ copy_each (copy ∷ taken) previous

unfoldable pub copy_week : List ShiftRow → List ShiftRow → List ShiftRow
copy_week previous existing = copy_each existing previous

-- Rows of which none has the key of another one, nor of a row that was there before.
pub data IsFresh : List ShiftRow → List ShiftRow → Type 0 where
  nothing : (taken : List ShiftRow) → IsFresh taken []
  fresh :
      (taken : List ShiftRow) (row : ShiftRow) (rows : List ShiftRow)
      → any (same_slot row) taken ≡ false
      → IsFresh (row ∷ taken) rows
      → IsFresh taken (row ∷ rows)

copy_each-IsFresh : (taken previous : List ShiftRow) → IsFresh taken (copy_each taken previous)
unfolding copy_each
copy_each-IsFresh taken [] = nothing taken
copy_each-IsFresh taken (row ∷ previous) =
    elim (Bool-cases (any (same_slot (next_week row)) taken)) [
      | inl hit ↦ rw hit (copy_each-IsFresh taken previous)
      | inr miss ↦
          rw miss (
            fresh taken (next_week row) _ miss (copy_each-IsFresh (next_week row ∷ taken) previous))
    ]

-- Every shift of last week has its key among the copies or the rows that were there.
abbrev pub IsCovered : List ShiftRow → List ShiftRow → ShiftRow → Type 0
IsCovered taken copies row =
    (any (same_slot (next_week row)) taken || any (same_slot (next_week row)) copies) ≡ true

same_slot_refl : (a : ShiftRow) → same_slot a a ≡ true
same_slot_refl a = ground arith

IsCovered-later :
    (copy : ShiftRow) (taken copies : List ShiftRow) (row : ShiftRow)
    → IsCovered (copy ∷ taken) copies row
    → IsCovered taken (copy ∷ copies) row
IsCovered-later copy taken copies row h = ground (arith, h)

copy_each_taken :
    (taken previous : List ShiftRow) (row : ShiftRow)
    → any (same_slot (next_week row)) taken ≡ true
    → copy_each taken (row ∷ previous) ≡ copy_each taken previous
unfolding copy_each
copy_each_taken taken previous row hit = rw hit refl

copy_each_open :
    (taken previous : List ShiftRow) (row : ShiftRow)
    → any (same_slot (next_week row)) taken ≡ false
    → copy_each taken (row ∷ previous) ≡ next_week row ∷ copy_each (next_week row ∷ taken) previous
unfolding copy_each
copy_each_open taken previous row miss = rw miss refl

copy_each-IsCovered :
    (taken previous : List ShiftRow) → All (IsCovered taken (copy_each taken previous)) previous
copy_each-IsCovered taken [] = tt
copy_each-IsCovered taken (row ∷ previous) =
    elim (Bool-cases (any (same_slot (next_week row)) taken)) [
      | inl hit ↦
          subst (λ (c : List ShiftRow). IsCovered taken c row × All (IsCovered taken c) previous)
            (sym (copy_each_taken taken previous row hit))
            (rw hit refl, copy_each-IsCovered taken previous)
      | inr miss ↦
          let copy = next_week row in
          let rest = copy_each (copy ∷ taken) previous in
          subst (λ (c : List ShiftRow). IsCovered taken c row × All (IsCovered taken c) previous)
            (sym (copy_each_open taken previous row miss))
            (
              rw (miss, same_slot_refl copy) refl,
              All-imp (λ r c. IsCovered-later copy taken rest r c) previous
                  (copy_each-IsCovered (copy ∷ taken) previous),
            )
    ]

-- Copying a week adds no shift whose worker and start are taken, by a row that was there or by another
-- copy, and leaves none of last week's shifts without its counterpart a week later.
pub copy_week_lem :
    (previous existing : List ShiftRow)
    → IsFresh existing (copy_week previous existing)
      × All (IsCovered existing (copy_week previous existing)) previous
unfolding copy_week
copy_week_lem previous existing =
    (copy_each-IsFresh existing previous, copy_each-IsCovered existing previous)
