-- ===== src/Base/Sort/Laws.antt =====
-- The sorted array beside the array: its elements, the sums over them, and the order.
use Prim.Native.Nat.{ℕ, ◌+◌, Ordering}
use mathlib.Core.Path.{◌≡◌, refl}
use mathlib.Core.Logic.{inl, inr}
use mathlib.Core.Bool.{true, false}
use mathlib.Core.List.{List, [], ◌∷◌, Perm}
use mathlib.Core.List.Perm
use native.Mathlib.Omega.{arith}
use oyna.Base.Tests.{Bool-cases}
use oyna.Base.Lists.{All, sum_by}
use oyna.Base.Sort.{not_after, insert_sorted, sort_by, IsSorted}

module _ {ℓ} {A : Type ℓ} (cmp : A → A → Ordering) where
  insert_sorted-perm : (x : A) (xs : List A) → Perm (insert_sorted cmp x xs) (x ∷ xs)
  insert_sorted-perm x [] = Perm.rfl
  insert_sorted-perm x (y ∷ ys) = elim (Bool-cases (not_after (cmp x y))) [
    | inl first ↦ rw first Perm.rfl
    | inr later ↦ rw later (Perm.trans (Perm.cons y (insert_sorted-perm x ys)) (Perm.swap x y ys))
  ]

  pub sort_by-perm : (xs : List A) → Perm (sort_by cmp xs) xs
  unfolding sort_by
  sort_by-perm [] = Perm.rfl
  sort_by-perm (x ∷ xs) =
      Perm.trans (insert_sorted-perm x (sort_by cmp xs)) (Perm.cons x (sort_by-perm xs))

  sum_by-insert_sorted :
      (f : A → ℕ) (x : A) (xs : List A) → sum_by f (insert_sorted cmp x xs) ≡ f x + sum_by f xs
  sum_by-insert_sorted f x [] = refl
  sum_by-insert_sorted f x (y ∷ ys) = elim (Bool-cases (not_after (cmp x y))) [
    | inl first ↦ rw first
    | inr later ↦ rw later (omega (arith, sum_by-insert_sorted f x ys))
  ]

  pub sum_by-sort_by : (f : A → ℕ) (xs : List A) → sum_by f (sort_by cmp xs) ≡ sum_by f xs
  unfolding sort_by
  sum_by-sort_by f [] = refl
  sum_by-sort_by f (x ∷ xs) =
      omega (arith, sum_by-insert_sorted f x (sort_by cmp xs), sum_by-sort_by f xs)

  module _ {κ} (P : A → Type κ) where
    pub All-insert_sorted : (x : A) (xs : List A) → P x → All P xs → All P (insert_sorted cmp x xs)
    All-insert_sorted x [] p h = (p, tt)
    All-insert_sorted x (y ∷ ys) p h = elim (Bool-cases (not_after (cmp x y))) [
      | inl first ↦ rw first (p, h)
      | inr later ↦ rw later (h.0, All-insert_sorted x ys p h.1)
    ]

    pub All-sort_by : (xs : List A) → All P xs → All P (sort_by cmp xs)
    unfolding sort_by
    All-sort_by [] h = tt
    All-sort_by (x ∷ xs) h = All-insert_sorted x (sort_by cmp xs) h.0 (All-sort_by xs h.1)

module _ {ℓ} {A : Type ℓ} (cmp : A → A → Ordering)
    (total : (x y : A) → not_after (cmp x y) ≡ false → not_after (cmp y x) ≡ true)
    (trans : (x y z : A)
      → not_after (cmp x y) ≡ true
      → not_after (cmp y z) ≡ true
      → not_after (cmp x z) ≡ true) where
  weaken :
      (x y : A) (ys : List A)
      → not_after (cmp x y) ≡ true
      → All (λ z. not_after (cmp y z) ≡ true) ys
      → All (λ z. not_after (cmp x z) ≡ true) ys
  weaken x y [] h below = tt
  weaken x y (z ∷ zs) h below = (trans x y z h below.0, weaken x y zs h below.1)

  insert_sorted-IsSorted :
      (x : A) (xs : List A) → IsSorted cmp xs → IsSorted cmp (insert_sorted cmp x xs)
  insert_sorted-IsSorted x [] s = (tt, tt)
  insert_sorted-IsSorted x (y ∷ ys) s = elim (Bool-cases (not_after (cmp x y))) [
    | inl first ↦ rw first ((first, weaken x y ys first s.0), s)
    | inr later ↦ rw later (
      All-insert_sorted cmp (λ z. not_after (cmp y z) ≡ true) x ys (total x y later) s.0,
      insert_sorted-IsSorted x ys s.1,
    )
  ]

  pub sort_by-IsSorted : (xs : List A) → IsSorted cmp (sort_by cmp xs)
  unfolding sort_by
  sort_by-IsSorted [] = tt
  sort_by-IsSorted (x ∷ xs) = insert_sorted-IsSorted x (sort_by cmp xs) (sort_by-IsSorted xs)
