-- ===== src/Rules/Spend/Laws.antt =====
-- `planSpend` of backend/src/domain/rules.ts: how much it takes, and from which lots.
use oyna.Base.{
  ℕ, ◌+◌, ◌-◌, ◌≤◌, ◌<◌, min, ◌≡◌, refl, inl, inr, Bool-cases, List, [], ◌∷◌, ◌++◌, map, All, keep,
  sum_by, arith, ltb→lt,
}
use native.Mathlib.Decide.{dec_lt, dec_le}
use mathlib.Core.List.{Perm}
use oyna.Base.Sort.{IsSorted}
use oyna.Base.Sort.Laws.{sum_by-sort_by, All-sort_by, sort_by-perm}
use oyna.Rules.Spend.Order.{sorted_lots-IsSorted, IsInOrder, sorted_lots-IsInOrder}
use oyna.Rules.Spend.{
  MinuteLot, SpendSlice, compare_lots, has_remaining, take_slices, sorted_lots, plan_spend,
}

abbrev pub remaining : MinuteLot → ℕ
remaining l = l.remaining_seconds

abbrev pub taken : SpendSlice → ℕ
taken s = s.seconds

sum_by-take_slices :
    (left : ℕ) (lots : List MinuteLot)
    → sum_by taken (take_slices left lots) ≡ min left (sum_by remaining lots)
unfolding take_slices
sum_by-take_slices left [] = omega arith
sum_by-take_slices left (lot ∷ lots) =
    ground (arith, sum_by-take_slices (left - min lot.remaining_seconds left) lots)

sum_by-keep-has_remaining :
    (lots : List MinuteLot) → sum_by remaining (keep has_remaining lots) ≡ sum_by remaining lots
sum_by-keep-has_remaining [] = refl
sum_by-keep-has_remaining (lot ∷ lots) = ground (arith, sum_by-keep-has_remaining lots)

pub sum_by-sorted_lots :
    (lots : List MinuteLot) → sum_by remaining (sorted_lots lots) ≡ sum_by remaining lots
unfolding sorted_lots
sum_by-sorted_lots lots = omega (
  arith,
  sum_by-sort_by compare_lots remaining (keep has_remaining lots),
  sum_by-keep-has_remaining lots,
)

-- A plan takes the seconds that are asked for, or all that there are if they are fewer.
pub plan_spend_total :
    (lots : List MinuteLot) (seconds : ℕ)
    → sum_by taken (plan_spend lots seconds) ≡ min seconds (sum_by remaining lots)
unfolding plan_spend
plan_spend_total lots seconds =
    omega (arith, sum_by-take_slices seconds (sorted_lots lots), sum_by-sorted_lots lots)

abbrev pub IsLive : MinuteLot → Type 0
IsLive l = 0 < l.remaining_seconds

All-keep-has_remaining : (lots : List MinuteLot) → All IsLive (keep has_remaining lots)
All-keep-has_remaining [] = tt
All-keep-has_remaining (lot ∷ lots) = elim (Bool-cases (has_remaining lot)) [
  | inl live ↦ rw live (ltb→lt _ _ live, All-keep-has_remaining lots)
  | inr spent ↦ rw spent (All-keep-has_remaining lots)
]

sorted_lots-IsLive : (lots : List MinuteLot) → All IsLive (sorted_lots lots)
unfolding sorted_lots
sorted_lots-IsLive lots =
    All-sort_by compare_lots IsLive (keep has_remaining lots) (All-keep-has_remaining lots)

sorted_lots-perm : (lots : List MinuteLot) → Perm (sorted_lots lots) (keep has_remaining lots)
unfolding sorted_lots
sorted_lots-perm lots = sort_by-perm compare_lots (keep has_remaining lots)

-- The slice that takes some seconds of a lot, and the one that takes all of it.
abbrev pub part_of : ℕ → MinuteLot → SpendSlice
part_of seconds l = record { id = l.id; seconds = seconds; kind = l.kind }

abbrev pub whole : MinuteLot → SpendSlice
whole l = part_of l.remaining_seconds l

-- How a plan covers `seconds` from lots in a given order: some lots wholly, and then nothing more
-- (no lot is left, or enough is taken), or a part of the next lot that makes up the seconds.
pub data Covers (seconds : ℕ) (lots : List MinuteLot) (plan : List SpendSlice) : Type 0 where
  exhausted : plan ≡ map whole lots → sum_by remaining lots < seconds → Covers seconds lots plan
  exact :
      (full rest : List MinuteLot)
      → lots ≡ full ++ rest
      → plan ≡ map whole full
      → sum_by remaining full ≡ seconds
      → Covers seconds lots plan
  partial :
      (full rest : List MinuteLot) (next : MinuteLot) (part : ℕ)
      → lots ≡ full ++ next ∷ rest
      → plan ≡ map whole full ++ part_of part next ∷ []
      → sum_by remaining full + part ≡ seconds
      → 0 < part
      → part < next.remaining_seconds
      → Covers seconds lots plan

Covers-cons :
    (seconds left : ℕ) (lot : MinuteLot) (lots : List MinuteLot) (plan : List SpendSlice)
    → seconds ≡ lot.remaining_seconds + left
    → Covers left lots plan
    → Covers seconds (lot ∷ lots) (whole lot ∷ plan)
Covers-cons seconds left lot lots plan e (exhausted p s) = exhausted (rw p) (omega arith)
Covers-cons seconds left lot lots plan e (exact full rest l p s) =
    exact (lot ∷ full) rest (rw l) (rw p) (omega arith)
Covers-cons seconds left lot lots plan e (partial full rest next part l p s z b) =
    partial (lot ∷ full) rest next part (rw l) (rw p) (omega arith) z b

take_slices_step :
    (left : ℕ) (lot : MinuteLot) (lots : List MinuteLot)
    → IsLive lot
    → lot.remaining_seconds ≤ left
    → take_slices left (lot ∷ lots) ≡ whole lot ∷ take_slices (left - lot.remaining_seconds) lots
unfolding take_slices
take_slices_step left lot lots live fits =
    let e : min lot.remaining_seconds left ≡ lot.remaining_seconds = omega arith in
    rw e (ground arith)

take_slices_none : (lots : List MinuteLot) → take_slices 0 lots ≡ []
unfolding take_slices
take_slices_none [] = refl
take_slices_none (lot ∷ lots) = refl

take_slices_part :
    (left : ℕ) (lot : MinuteLot) (lots : List MinuteLot)
    → 0 < left
    → left < lot.remaining_seconds
    → take_slices left (lot ∷ lots) ≡ part_of left lot ∷ []
unfolding take_slices
take_slices_part left lot lots some_left short =
    let e : min lot.remaining_seconds left ≡ left = omega arith in
    let z : left - left ≡ 0 = omega arith in rw (e, z, take_slices_none) (ground arith)

take_slices-nil : (left : ℕ) → take_slices left [] ≡ []
unfolding take_slices
take_slices-nil left = refl

take_slices-Covers :
    (left : ℕ) (lots : List MinuteLot) → All IsLive lots → Covers left lots (take_slices left lots)
take_slices-Covers left [] live = elim (dec_lt 0 left) [
  | yes p ↦ exhausted (take_slices-nil left) p
  | no np ↦ exact [] [] refl (take_slices-nil left) (omega arith)
]
take_slices-Covers left (lot ∷ lots) live = elim (dec_lt 0 left) [
  | yes p ↦ elim (dec_le lot.remaining_seconds left) [
    | yes fits ↦ rw (take_slices_step left lot lots live.0 fits) (
        Covers-cons left (left - lot.remaining_seconds) lot lots _ (omega arith)
          (take_slices-Covers (left - lot.remaining_seconds) lots live.1))
    | no short ↦
        partial [] lots lot left refl (take_slices_part left lot lots p (omega arith)) (omega arith)
          p (omega arith)
  ]
  | no np ↦
      let e : left ≡ 0 = omega arith in
      exact [] (lot ∷ lots) refl (rw e (take_slices_none (lot ∷ lots))) (omega arith)
]

-- A plan spends the live lots strictly in the order of the comparator (earliest expiry first,
-- lots that never expire last, ties by creation and then by id): each lot is emptied before the
-- next is touched, and only the last one taken from may keep a rest.
pub plan_spend-Covers :
    (lots : List MinuteLot) (seconds : ℕ)
    → Covers seconds (sorted_lots lots) (plan_spend lots seconds)
      × IsSorted compare_lots (sorted_lots lots)
      × IsInOrder (sorted_lots lots)
      × Perm (sorted_lots lots) (keep has_remaining lots)
unfolding plan_spend
plan_spend-Covers lots seconds = (
  take_slices-Covers seconds (sorted_lots lots) (sorted_lots-IsLive lots),
  sorted_lots-IsSorted lots,
  sorted_lots-IsInOrder lots,
  sorted_lots-perm lots,
)
