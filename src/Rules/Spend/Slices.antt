-- ===== src/Rules/Spend/Slices.antt =====
-- The slices of a plan of backend/src/domain/rules.ts, and the lots they come from.
use oyna.Base.{
  ℕ, ◌-◌, ◌≤◌, ◌≢◌, Bool-cases, inl, inr, List, [], ◌∷◌, min, ltb, leb, keep, All, arith,
}
use oyna.Base.Distinct.{Distinct, All-keep, Distinct-keep, Distinct-sort_by}
use oyna.Base.Sort.Laws.{All-sort_by}
use oyna.Rules.Spend.{
  MinuteLot, SpendSlice, compare_lots, has_remaining, take_slices, sorted_lots, plan_spend,
}
use oyna.Rules.Spend.Laws.{part_of}

abbrev pub lot_id : MinuteLot → ℕ
lot_id l = l.id

abbrev pub slice_id : SpendSlice → ℕ
slice_id s = s.id

module _ {κ μ} (P : MinuteLot → Type κ) (Q : SpendSlice → Type μ)
    (slice : (lot : MinuteLot) (s : ℕ)
      → P lot
      → s ≤ lot.remaining_seconds
      → Q (part_of s lot)) where
  All-take_slices : (left : ℕ) (lots : List MinuteLot) → All P lots → All Q (take_slices left lots)
  unfolding take_slices
  All-take_slices left [] h = tt
  All-take_slices left (lot ∷ lots) h =
      let take = min lot.remaining_seconds left in
      let rest = All-take_slices (left - take) lots h.1 in
      elim (Bool-cases (leb left 0)) [
        | inl done ↦ rw done tt
        | inr more ↦ elim (Bool-cases (ltb 0 take)) [
          | inl some_taken ↦ rw (more, some_taken) (slice lot take h.0 (omega arith), rest)
          | inr none_taken ↦ rw (more, none_taken) rest
        ]
      ]

  pub All-plan_spend :
      (lots : List MinuteLot) (seconds : ℕ) → All P lots → All Q (plan_spend lots seconds)
  unfolding plan_spend sorted_lots
  All-plan_spend lots seconds h =
      All-take_slices seconds _
        (All-sort_by compare_lots P (keep has_remaining lots) (All-keep P has_remaining lots h))

take_slices-Distinct :
    (left : ℕ) (lots : List MinuteLot)
    → Distinct lot_id lots
    → Distinct slice_id (take_slices left lots)
unfolding take_slices
take_slices-Distinct left [] d = tt
take_slices-Distinct left (lot ∷ lots) d =
    let take = min lot.remaining_seconds left in
    let rest = take_slices-Distinct (left - take) lots d.1 in
    let apart =
      All-take_slices (λ l. lot_id l ≢ lot.id) (λ s. slice_id s ≢ lot.id) (λ l s ne _. ne)
        (left - take) lots d.0 in
    elim (Bool-cases (leb left 0)) [
      | inl done ↦ rw done tt
      | inr more ↦ elim (Bool-cases (ltb 0 take)) [
        | inl some_taken ↦ rw (more, some_taken) (apart, rest)
        | inr none_taken ↦ rw (more, none_taken) rest
      ]
    ]

pub plan_spend-Distinct :
    (lots : List MinuteLot) (seconds : ℕ)
    → Distinct lot_id lots
    → Distinct slice_id (plan_spend lots seconds)
unfolding plan_spend sorted_lots
plan_spend-Distinct lots seconds d = take_slices-Distinct seconds _ (
    Distinct-sort_by lot_id compare_lots (keep has_remaining lots)
      (Distinct-keep lot_id has_remaining lots d))
