-- ===== src/Base/Sort.antt =====
-- `Array.prototype.sort(cmp)`, which is stable: for a comparator that is a total preorder every
-- stable sort gives one result, and this is the insertion sort. The comparator's number is kept as
-- its sign, an `Ordering`.
pub mod Laws
use Prim.Native.Nat.{Ordering}
use mathlib.Core.Path.{◌≡◌}
use mathlib.Core.Bool.{Bool, true, false}
use mathlib.Core.List.{List, [], ◌∷◌}
use oyna.Base.Tests.{if◌then◌else◌}
use oyna.Base.Lists.{All}

-- `cmp(a, b) <= 0`
abbrev pub not_after : Ordering → Bool
not_after Ordering.gt = false
not_after _ = true

module _ {ℓ} {A : Type ℓ} (cmp : A → A → Ordering) where
  abbrev pub insert_sorted : A → List A → List A
  insert_sorted x [] = x ∷ []
  insert_sorted x (y ∷ ys) = if not_after (cmp x y) then x ∷ y ∷ ys else y ∷ insert_sorted x ys

  unfoldable pub sort_by : List A → List A
  sort_by [] = []
  sort_by (x ∷ xs) = insert_sorted x (sort_by xs)

  -- Each element stands before those that follow it, or ties with them.
  abbrev pub IsSorted : List A → Type ℓ
  IsSorted [] = Unit
  IsSorted (x ∷ xs) = All (λ y. not_after (cmp x y) ≡ true) xs × IsSorted xs
