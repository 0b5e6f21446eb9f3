-- ===== src/Team/Examples.antt =====
-- The theorem on shifts at concrete ones.
use oyna.Base.{List, [], ◌∷◌, All}
use oyna.Team.Shifts.{ShiftRow, copy_week, IsFresh, IsCovered, copy_week_lem}

abbrev monday : ShiftRow
monday = record { user_id = 1; starts_at = 36000000; ends_at = 82800000 }

abbrev rows : List ShiftRow
rows = monday ∷ record monday { user_id = 2 } ∷ monday ∷ []

abbrev planned : List ShiftRow
planned = record monday { starts_at = 640800000; ends_at = 687600000 } ∷ []

copy_week_lem_example :
    IsFresh planned (copy_week rows planned) × All (IsCovered planned (copy_week rows planned)) rows
copy_week_lem_example = copy_week_lem rows planned
