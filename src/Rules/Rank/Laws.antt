-- ===== src/Rules/Rank/Laws.antt =====
-- The rating order and the shares of backend/src/domain/rules.ts.
use mathlib.Core.List.{Perm}
use native.Mathlib.Nat.{le_of_mul-le-mul_right}
use oyna.Base.{
  ℕ, ◌+◌, ◌*◌, ◌≤◌, ◌<◌, ◌≡◌, refl, ap, ◌∙◌, ◌⊎◌, inl, inr, Bool, Bool-cases, ◌&&◌, ◌==◌, All, keep,
  if◌then◌else◌, true, false, List, [], ◌∷◌, map, length, arith, lt→leb,
}
use oyna.Base.Distinct.{All-imp}
use oyna.Base.Sort.{not_after, insert_sorted, sort_by, IsSorted}
use oyna.Rules.Calendar.{Date}
use oyna.Base.Sort.Laws.{sort_by-IsSorted, sort_by-perm}
use oyna.Rules.Rank.{RatingRow, compare_rows, rank_rows, share, sum, split_by_shifts}

compare_rows_total :
    (x y : RatingRow) → not_after (compare_rows x y) ≡ false → not_after (compare_rows y x) ≡ true
unfolding compare_rows
compare_rows_total x y h = ground arith

compare_rows_trans :
    (x y z : RatingRow)
    → not_after (compare_rows x y) ≡ true
    → not_after (compare_rows y z) ≡ true
    → not_after (compare_rows x z) ≡ true
unfolding compare_rows
compare_rows_trans x y z h k = ground arith

-- More points, or as many and not later.
abbrev pub IsAhead : RatingRow → RatingRow → Type 0
IsAhead a b = (b.points < a.points) ⊎ ((a.points ≡ b.points) × (a.reached_at ≤ b.reached_at))

abbrev pub IsRanked : List RatingRow → Type 0
IsRanked [] = Unit
IsRanked (r ∷ rows) = All (IsAhead r) rows × IsRanked rows

compare_rows-IsAhead : (a b : RatingRow) → not_after (compare_rows a b) ≡ true → IsAhead a b
unfolding compare_rows
compare_rows-IsAhead a b h = ground (arith, h)

sorted-IsRanked : (rows : List RatingRow) → IsSorted compare_rows rows → IsRanked rows
sorted-IsRanked [] h = tt
sorted-IsRanked (r ∷ rows) h =
    (All-imp (λ x k. compare_rows-IsAhead r x k) rows h.0, sorted-IsRanked rows h.1)

-- The rows that tie at these points and this time.
abbrev pub tied_at : ℕ → Date → RatingRow → Bool
tied_at points at r = r.points == points && r.reached_at == at

tied_not_after :
    (points : ℕ) (at : Date) (x y : RatingRow)
    → tied_at points at x ≡ true
    → not_after (compare_rows x y) ≡ false
    → tied_at points at y ≡ false
unfolding compare_rows
tied_not_after points at x y h k = ground (arith, h, k)

insert_keeps :
    (points : ℕ) (at : Date) (x : RatingRow) (ys : List RatingRow)
    → keep (tied_at points at) (insert_sorted compare_rows x ys) ≡ keep (tied_at points at) (x ∷ ys)
insert_keeps points at x [] = refl
insert_keeps points at x (y ∷ ys) = elim (Bool-cases (not_after (compare_rows x y))) [
  | inl first ↦ rw first refl
  | inr later ↦
      let rest = insert_keeps points at x ys in
      elim (Bool-cases (tied_at points at x)) [
        | inl tied ↦ rw (later, tied_not_after points at x y tied later, tied) (rw tied at rest)
        | inr loose ↦
            rw (later, loose)
              (elim (Bool-cases (tied_at points at y)) [
                | inl here ↦ rw here (ap (λ (t : List RatingRow). y ∷ t) (rw loose at rest))
                | inr off ↦ rw off (rw loose at rest)
              ])
      ]
]

rank_rows_ties :
    (points : ℕ) (at : Date) (rows : List RatingRow)
    → keep (tied_at points at) (rank_rows rows) ≡ keep (tied_at points at) rows
unfolding rank_rows sort_by
rank_rows_ties points at [] = refl
rank_rows_ties points at (r ∷ rows) =
    insert_keeps points at r (sort_by compare_rows rows)
    ∙ rest (tied_at points at r) (rank_rows_ties points at rows)
  where
    rest :
        (b : Bool)
        → keep (tied_at points at) (sort_by compare_rows rows) ≡ keep (tied_at points at) rows
        → (if b
            then r ∷ keep (tied_at points at) (sort_by compare_rows rows)
            else keep (tied_at points at) (sort_by compare_rows rows))
          ≡ (if b then r ∷ keep (tied_at points at) rows else keep (tied_at points at) rows)
    rest true e = ap (λ (t : List RatingRow). r ∷ t) e
    rest false e = e

-- The rating is a rearrangement of the rows in which each row has more points than those after it, or as
-- many and reached no later; rows that tie in both stay in the order in which they came.
pub rank_rows_lem :
    (rows : List RatingRow)
    → IsRanked (rank_rows rows)
      × Perm (rank_rows rows) rows
      × ((points : ℕ) (at : Date)
          → keep (tied_at points at) (rank_rows rows) ≡ keep (tied_at points at) rows)
unfolding rank_rows
rank_rows_lem rows = (
  sorted-IsRanked _ (sort_by-IsSorted compare_rows compare_rows_total compare_rows_trans rows),
  sort_by-perm compare_rows rows,
  λ points at. rank_rows_ties points at rows,
)

-- Twice a share is its exact value, with an error of at most one.
share_bounds :
    (fund total n : ℕ)
    → 0 < total
    → (2 * (share fund total n * total) ≤ 2 * (fund * n) + total)
      × (2 * (fund * n) ≤ 2 * (share fund total n * total) + total)
share_bounds fund total n h = omega arith

shares_bounds :
    (fund total : ℕ) (shifts : List ℕ)
    → 0 < total
    → (2 * (sum (map (share fund total) shifts) * total)
        ≤ 2 * (fund * sum shifts) + length shifts * total)
      × (2 * (fund * sum shifts)
          ≤ 2 * (sum (map (share fund total) shifts) * total) + length shifts * total)
shares_bounds fund total [] h = omega arith
shares_bounds fund total (n ∷ shifts) h =
    let (a, b) = share_bounds fund total n h in
    let (c, d) = shares_bounds fund total shifts h in (omega (arith, a, c), omega (arith, b, d))

-- The shares of a fund add up to the fund, with an error of at most half a unit for each worker,
-- whenever somebody has worked.
pub split_by_shifts_bounds :
    (fund : ℕ) (shifts : List ℕ)
    → 0 < sum shifts
    → let shares = split_by_shifts fund shifts in
      (2 * sum shares ≤ 2 * fund + length shifts) × (2 * fund ≤ 2 * sum shares + length shifts)
unfolding split_by_shifts
split_by_shifts_bounds fund shifts h =
    let (lo, hi) = shares_bounds fund (sum shifts) shifts h in
    rw (lt→leb (sum shifts) 0 h) (
      le_of_mul-le-mul_right {k = sum shifts} (omega (arith, lo)) h,
      le_of_mul-le-mul_right {k = sum shifts} (omega (arith, hi)) h,
    )
