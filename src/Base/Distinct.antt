-- ===== src/Base/Distinct.antt =====
-- Lists whose elements have distinct ids, and predicates on all elements, under the array operations.
use Prim.Native.Nat.{ℕ, Ordering}
use mathlib.Core.Path.{sym}
use mathlib.Core.Logic.{◌≢◌, inl, inr}
use mathlib.Core.Bool.{Bool}
use mathlib.Core.List.{List, [], ◌∷◌, ◌++◌, map}
use oyna.Base.Tests.{Bool-cases}
use oyna.Base.Lists.{All, keep}
use oyna.Base.Sort.{not_after, insert_sorted, sort_by}
use oyna.Base.Sort.Laws.{All-insert_sorted, All-sort_by}

module _ {ℓ κ} {A : Type ℓ} (P : A → Type κ) where
  pub All-keep : (p : A → Bool) (xs : List A) → All P xs → All P (keep p xs)
  All-keep p [] h = tt
  All-keep p (x ∷ xs) h = elim (Bool-cases (p x)) [
    | inl kept ↦ rw kept (h.0, All-keep p xs h.1)
    | inr left ↦ rw left (All-keep p xs h.1)
  ]

  pub All-append : (xs ys : List A) → All P xs → All P ys → All P (xs ++ ys)
  All-append [] ys hx hy = hy
  All-append (x ∷ xs) ys hx hy = (hx.0, All-append xs ys hx.1 hy)

  pub All-map {μ} :
      {B : Type μ} (f : B → A) (xs : List B) → All (λ x. P (f x)) xs → All P (map f xs)
  All-map f [] h = tt
  All-map f (x ∷ xs) h = (h.0, All-map f xs h.1)

module _ {ℓ κ μ} {A : Type ℓ} {P : A → Type κ} {Q : A → Type μ} where
  pub All-imp : ((x : A) → P x → Q x) → (xs : List A) → All P xs → All Q xs
  All-imp f [] h = tt
  All-imp f (x ∷ xs) h = (f x h.0, All-imp f xs h.1)

module _ {ℓ} {A : Type ℓ} where
  abbrev pub Distinct : (A → ℕ) → List A → Type 0
  Distinct id [] = Unit
  Distinct id (x ∷ xs) = All (λ y. id y ≢ id x) xs × Distinct id xs

  pub Distinct-keep :
      (id : A → ℕ) (p : A → Bool) (xs : List A) → Distinct id xs → Distinct id (keep p xs)
  Distinct-keep id p [] h = tt
  Distinct-keep id p (x ∷ xs) h = elim (Bool-cases (p x)) [
    | inl kept ↦ rw kept (All-keep (λ y. id y ≢ id x) p xs h.0, Distinct-keep id p xs h.1)
    | inr left ↦ rw left (Distinct-keep id p xs h.1)
  ]

  pub Distinct-append_one :
      (id : A → ℕ) (xs : List A) (a : A)
      → Distinct id xs
      → All (λ y. id a ≢ id y) xs
      → Distinct id (xs ++ a ∷ [])
  Distinct-append_one id [] a h k = (tt, tt)
  Distinct-append_one id (x ∷ xs) a h k =
      (All-append (λ y. id y ≢ id x) xs (a ∷ []) h.0 (k.0, tt), Distinct-append_one id xs a h.1 k.1)

  insert_sorted-Distinct :
      (id : A → ℕ) (cmp : A → A → Ordering) (x : A) (xs : List A)
      → All (λ y. id y ≢ id x) xs
      → Distinct id xs
      → Distinct id (insert_sorted cmp x xs)
  insert_sorted-Distinct id cmp x [] h d = (tt, tt)
  insert_sorted-Distinct id cmp x (y ∷ ys) h d = elim (Bool-cases (not_after (cmp x y))) [
    | inl first ↦ rw first (h, d)
    | inr later ↦ rw later (
      All-insert_sorted cmp (λ z. id z ≢ id y) x ys (λ e. h.0 (sym e)) d.0,
      insert_sorted-Distinct id cmp x ys h.1 d.1,
    )
  ]

  pub Distinct-sort_by :
      (id : A → ℕ) (cmp : A → A → Ordering) (xs : List A)
      → Distinct id xs
      → Distinct id (sort_by cmp xs)
  unfolding sort_by
  Distinct-sort_by id cmp [] h = tt
  Distinct-sort_by id cmp (x ∷ xs) h =
      insert_sorted-Distinct id cmp x (sort_by cmp xs) (All-sort_by cmp (λ y. id y ≢ id x) xs h.0)
        (Distinct-sort_by id cmp xs h.1)

pub Distinct-map {ℓ κ} :
    {A : Type ℓ} {B : Type κ} (id : A → ℕ) (f : B → A) (xs : List B)
    → Distinct (λ x. id (f x)) xs
    → Distinct id (map f xs)
Distinct-map id f [] h = tt
Distinct-map id f (x ∷ xs) h = (All-map (λ y. id y ≢ id (f x)) f xs h.0, Distinct-map id f xs h.1)
