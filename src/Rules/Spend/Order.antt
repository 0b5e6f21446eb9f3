-- ===== src/Rules/Spend/Order.antt =====
-- The comparator of `planSpend` of backend/src/domain/rules.ts, as an order.
use Prim.Native.Nat.{compare}
use oyna.Base.{
  ℕ, ◌≤◌, ◌<◌, ◌≡◌, refl, ◌⊎◌, inl, inr, ap, Option, none, some, List, [], ◌∷◌, All, true, false,
  arith,
}
use oyna.Base.Distinct.{All-imp}
use oyna.Rules.Calendar.{Date}
use oyna.Base.Sort.{not_after, IsSorted}
use oyna.Base.Sort.Laws.{sort_by-IsSorted}
use oyna.Rules.Spend.{MinuteLot, then_by, compare_expiry, compare_lots, sorted_lots}

compare_lots_total :
    (x y : MinuteLot) → not_after (compare_lots x y) ≡ false → not_after (compare_lots y x) ≡ true
unfolding compare_lots
compare_lots_total x y h = ground arith

compare_lots_trans :
    (x y z : MinuteLot)
    → not_after (compare_lots x y) ≡ true
    → not_after (compare_lots y z) ≡ true
    → not_after (compare_lots x z) ≡ true
unfolding compare_lots
compare_lots_trans x y z h k = ground arith

-- The lots stand in the order in which they are spent.
pub sorted_lots-IsSorted : (lots : List MinuteLot) → IsSorted compare_lots (sorted_lots lots)
unfolding sorted_lots
sorted_lots-IsSorted lots = sort_by-IsSorted compare_lots compare_lots_total compare_lots_trans _

-- A lot with a date expires before one with a later date or none.
abbrev pub IsSooner : Option Date → Option Date → Type 0
IsSooner (some a) (some b) = a < b
IsSooner (some a) none = Unit
IsSooner none o = ⊥

-- Created earlier, or at one time with an id that is not larger.
abbrev pub IsOlder : ℕ → ℕ → ℕ → ℕ → Type 0
IsOlder created id created' id' = (created < created') ⊎ ((created ≡ created') × (id ≤ id'))

-- The lot that is spent first.
abbrev pub IsFirst : MinuteLot → MinuteLot → Type 0
IsFirst a b =
    IsSooner a.expires_at b.expires_at
    ⊎ ((a.expires_at ≡ b.expires_at) × IsOlder a.created_at a.id b.created_at b.id)

abbrev pub IsInOrder : List MinuteLot → Type 0
IsInOrder [] = Unit
IsInOrder (l ∷ ls) = All (IsFirst l) ls × IsInOrder ls

older : (c i d j : ℕ) → not_after (then_by (compare c d) (compare i j)) ≡ true → IsOlder c i d j
older c i d j h = ground (arith, h)

sooner :
    (a b c i d j : ℕ)
    → not_after (then_by (compare a b) (then_by (compare c d) (compare i j))) ≡ true
    → (a < b) ⊎ ((a ≡ b) × IsOlder c i d j)
sooner a b c i d j h = ground (arith, h)

dates_decide :
    (o p : Option Date) (c i d j : ℕ)
    → not_after (then_by (compare_expiry o p) (then_by (compare c d) (compare i j))) ≡ true
    → IsSooner o p ⊎ ((o ≡ p) × IsOlder c i d j)
dates_decide (some a) (some b) c i d j h = elim (sooner a b c i d j h) [
  | inl k ↦ inl k
  | inr k ↦ inr (ap some k.0, k.1)
]
dates_decide (some a) none c i d j h = inl tt
dates_decide none (some b) c i d j h = cc
dates_decide none none c i d j h = inr (refl, older c i d j h)

compare_lots-IsFirst : (a b : MinuteLot) → not_after (compare_lots a b) ≡ true → IsFirst a b
unfolding compare_lots
compare_lots-IsFirst a b h =
    dates_decide a.expires_at b.expires_at a.created_at a.id b.created_at b.id h

sorted-IsInOrder : (ls : List MinuteLot) → IsSorted compare_lots ls → IsInOrder ls
sorted-IsInOrder [] h = tt
sorted-IsInOrder (l ∷ ls) h =
    (All-imp (λ x k. compare_lots-IsFirst l x k) ls h.0, sorted-IsInOrder ls h.1)

pub sorted_lots-IsInOrder : (lots : List MinuteLot) → IsInOrder (sorted_lots lots)
sorted_lots-IsInOrder lots = sorted-IsInOrder (sorted_lots lots) (sorted_lots-IsSorted lots)
