-- ===== src/Rules/Rank.antt =====
-- The rates, the shares, the stock and the rating order of backend/src/domain/rules.ts.
pub mod Laws
use Prim.Native.Nat.{compare, Ordering}
use oyna.Base.{
  ℕ, ◌+◌, ◌-◌, ◌*◌, ◌/◌, Bool, List, [], ◌∷◌, map, sum_by, ltb, leb, if◌then◌else◌, ◌&&◌, any,
}
use oyna.Base.Int.{ℤ, pos, ◌-ℤ◌}
use oyna.Base.Sort.{sort_by}
use oyna.Rules.Calendar.{Date, day_ms, almaty_parts, almaty_date, add_days}
use oyna.Rules.Spend.{then_by}

pub record PlanRates : Type 0 where
  pub plan : ℕ
  pub overplan : ℕ
  pub below : ℕ
  pub at : ℕ
  pub over : ℕ

unfoldable pub plan_rate_percent : ℕ → PlanRates → ℕ
plan_rate_percent revenue rates =
    if leb rates.overplan revenue
    then rates.over
    else if leb rates.plan revenue
    then rates.at
    else rates.below

abbrev identity : ℕ → ℕ
identity n = n

abbrev pub sum : List ℕ → ℕ
sum = sum_by identity

-- `Math.round((fund * n) / total)` of whole numbers, `total > 0`.
abbrev pub share : ℕ → ℕ → ℕ → ℕ
share fund total n = (2 * (fund * n) + total) / (2 * total)

unfoldable pub split_by_shifts : ℕ → List ℕ → List ℕ
split_by_shifts fund shifts =
    if leb (sum shifts) 0 then map (λ n. 0) shifts else map (share fund (sum shifts)) shifts

pub record Stock : Type 0 where
  pub received : ℕ
  pub sold : ℕ
  pub written_off : ℕ

unfoldable pub stock_after : Stock → ℤ
stock_after input = pos input.received -ℤ pos input.sold -ℤ pos input.written_off

pub record RatingRow : Type 0 where
  pub user_id : ℕ
  pub points : ℕ
  pub reached_at : Date

-- More points first, then whoever reached them earlier.
unfoldable pub compare_rows : RatingRow → RatingRow → Ordering
compare_rows a b = then_by (compare b.points a.points) (compare a.reached_at b.reached_at)

unfoldable pub rank_rows : List RatingRow → List RatingRow
rank_rows rows = sort_by compare_rows rows

-- `Math.round((nowMid - c) / day)` lies between -6 and 6.
abbrev pub in_six_days : Date → Date → Bool
in_six_days now_mid c =
    leb (2 * c) (2 * now_mid + 13 * day_ms) && ltb (2 * now_mid) (2 * c + 13 * day_ms)

unfoldable pub in_birthday_window : Date → Date → Bool
in_birthday_window birth_date now =
    let b = almaty_parts birth_date in
    let n = almaty_parts now in
    let this_year = almaty_date n.year b.month b.day 12 0 in
    let now_mid = almaty_date n.year n.month n.day 12 0 in
    any (in_six_days now_mid) ((this_year - 365 * day_ms) ∷ this_year ∷ add_days this_year 366 ∷ [])
