-- ===== src/Rules/Examples.antt =====
-- The theorems on backend/src/domain/rules.ts at figures like those of backend/src/domain/rules.spec.ts.
use oyna.Base.{ℕ, ◌-◌, ◌%◌, ◌≡◌, none, some, List, [], ◌∷◌, sum_by, keep}
use mathlib.Core.List.{Perm}
use oyna.Base.Sort.{IsSorted}
use oyna.Rules.Calendar.{Date, almaty_parts, almaty_date}
use oyna.Rules.Calendar.Laws.{almaty_date-almaty_parts_self}
use oyna.Rules.Spend.{MinuteKind, MinuteLot, compare_lots, has_remaining, sorted_lots, plan_spend}
use oyna.Rules.Spend.Laws.{taken, plan_spend_total, Covers, plan_spend-Covers}
use oyna.Rules.Spend.Order.{IsInOrder}
use oyna.Rules.Rank.{RatingRow, rank_rows}
use oyna.Rules.Rank.Laws.{IsRanked, tied_at, rank_rows_lem}

-- Some moment of the year 2026.
abbrev now : Date
now = 63954012345678

almaty_date-almaty_parts_self_example :
    let p = almaty_parts now in almaty_date p.year p.month p.day p.hour p.minute ≡ now - now % 60000
almaty_date-almaty_parts_self_example = almaty_date-almaty_parts_self now

abbrev lots : List MinuteLot
lots =
    record {
      id = 1;
      remaining_seconds = 600;
      expires_at = none;
      created_at = 5;
      kind = MinuteKind.bonus;
    }
    ∷ record {
      id = 2;
      remaining_seconds = 0;
      expires_at = some 20;
      created_at = 6;
      kind = MinuteKind.paid;
    }
    ∷ record {
      id = 3;
      remaining_seconds = 400;
      expires_at = some 30;
      created_at = 7;
      kind = MinuteKind.paid;
    }
    ∷ []

spent_seconds : sum_by taken (plan_spend lots 700) ≡ 700
spent_seconds = plan_spend_total lots 700

plan_spend-Covers_example :
    Covers 700 (sorted_lots lots) (plan_spend lots 700)
    × IsSorted compare_lots (sorted_lots lots)
    × IsInOrder (sorted_lots lots)
    × Perm (sorted_lots lots) (keep has_remaining lots)
plan_spend-Covers_example = plan_spend-Covers lots 700

abbrev rows : List RatingRow
rows =
    record { user_id = 1; points = 40; reached_at = 9 }
    ∷ record { user_id = 2; points = 50; reached_at = 8 }
    ∷ record { user_id = 3; points = 40; reached_at = 7 }
    ∷ []

rank_rows_lem_example :
    IsRanked (rank_rows rows)
    × Perm (rank_rows rows) rows
    × ((points : ℕ) (at : ℕ)
        → keep (tied_at points at) (rank_rows rows) ≡ keep (tied_at points at) rows)
rank_rows_lem_example = rank_rows_lem rows

abbrev shifts : List ℕ
shifts = 3 ∷ 0 ∷ 4 ∷ []
