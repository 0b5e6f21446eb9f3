-- ===== src/Base/Rows.antt =====
-- Sums, predicates and distinct ids of a table after its rows are rewritten.
use Prim.Native.Nat.{ℕ, ◌+◌, ◌≤◌}
use mathlib.Core.Path.{◌≡◌, refl, sym, ap, ◌∙◌, subst}
use mathlib.Core.Logic.{◌≢◌, inl, inr}
use mathlib.Core.Bool.{Bool, true, false, ◌&&◌}
use mathlib.Core.Option.{some}
use mathlib.Core.List.{List, [], ◌∷◌, ◌++◌}
use native.Mathlib.Omega.{arith}
use oyna.Base.Tests.{◌==◌, if◌then◌else◌, Bool-cases, ==→eq, ne→==}
use oyna.Base.Lists.{All, any, find, keep, length, sum_by, update_where}
use oyna.Base.Distinct.{Distinct}

module _ {ℓ} {A : Type ℓ} where
  -- The sum of a column that the update leaves alone.
  pub sum_by-update_same :
      (f : A → ℕ) (p : A → Bool) (g : A → A) (xs : List A)
      → ((x : A) → f (g x) ≡ f x)
      → sum_by f (update_where p g xs) ≡ sum_by f xs
  sum_by-update_same f p g [] same = refl
  sum_by-update_same f p g (x ∷ xs) same = elim (Bool-cases (p x)) [
    | inl hit ↦ rw hit (omega (arith, same x, sum_by-update_same f p g xs same))
    | inr miss ↦ rw miss (omega (arith, sum_by-update_same f p g xs same))
  ]

  pub All-update {κ} :
      (P : A → Type κ) (p : A → Bool) (g : A → A) (xs : List A)
      → ((x : A) → P x → P (g x))
      → All P xs
      → All P (update_where p g xs)
  All-update P p g [] keeps h = tt
  All-update P p g (x ∷ xs) keeps h = elim (Bool-cases (p x)) [
    | inl hit ↦ rw hit (keeps x h.0, All-update P p g xs keeps h.1)
    | inr miss ↦ rw miss (h.0, All-update P p g xs keeps h.1)
  ]

  -- An update that only takes rows out of a query.
  pub length-keep-update :
      (q p : A → Bool) (g : A → A) (xs : List A)
      → ((x : A) → q (g x) ≡ true → q x ≡ true)
      → length (keep q (update_where p g xs)) ≤ length (keep q xs)
  length-keep-update q p g [] out = omega arith
  length-keep-update q p g (x ∷ xs) out =
      let rest = length-keep-update q p g xs out in
      elim (Bool-cases (p x)) [
        | inr miss ↦ rw miss (kept x (q x) refl rest)
        | inl hit ↦ rw hit (elim (Bool-cases (q (g x))) [
          | inl still ↦ rw (still, out x still) (omega (arith, rest))
          | inr gone ↦ rw gone (elim (Bool-cases (q x)) [
            | inl before ↦ rw before (omega (arith, rest))
            | inr not_before ↦ rw not_before rest
          ])
        ])
      ]
    where
      kept :
          (x : A) (b : Bool)
          → q x ≡ b
          → length (keep q (update_where p g xs)) ≤ length (keep q xs)
          → length (keep q (x ∷ update_where p g xs)) ≤ length (keep q (x ∷ xs))
      kept x true e h = rw e (omega (arith, h))
      kept x false e h = rw e h

  pub keep-append : (p : A → Bool) (xs ys : List A) → keep p (xs ++ ys) ≡ keep p xs ++ keep p ys
  keep-append p [] ys = refl
  keep-append p (x ∷ xs) ys = elim (Bool-cases (p x)) [
    | inl hit ↦ rw hit (ap (λ (t : List A). x ∷ t) (keep-append p xs ys))
    | inr miss ↦ rw miss (keep-append p xs ys)
  ]

  -- Rows that are taken out do not add to a query.
  pub length-keep-keep :
      (q r : A → Bool) (xs : List A) → length (keep q (keep r xs)) ≤ length (keep q xs)
  length-keep-keep q r [] = omega arith
  length-keep-keep q r (x ∷ xs) =
      let rest = length-keep-keep q r xs in
      elim (Bool-cases (r x)) [
        | inl kept ↦ rw kept (elim (Bool-cases (q x)) [
          | inl hit ↦ rw hit (omega (arith, rest))
          | inr miss ↦ rw miss rest
        ])
        | inr left ↦ rw left (elim (Bool-cases (q x)) [
          | inl hit ↦ rw hit (omega (arith, rest))
          | inr miss ↦ rw miss rest
        ])
      ]

  -- No row of a query passes another test.
  pub none_both :
      (q r : A → Bool) (xs : List A)
      → any q (keep r xs) ≡ false
      → length (keep (λ x. r x && q x) xs) ≡ 0
  none_both q r [] h = refl
  none_both q r (x ∷ xs) h = elim (Bool-cases (r x)) [
    | inr out ↦ rw out (none_both q r xs (rw out at h))
    | inl kept ↦ elim (Bool-cases (q x)) [
      | inl hit ↦ cc (rw (kept, hit) at h)
      | inr miss ↦ rw (kept, miss) (none_both q r xs (rw (kept, miss) at h))
    ]
  ]

module _ {ℓ} {A : Type ℓ} (id : A → ℕ) where
  pub update_where-absent :
      (i : ℕ) (g : A → A) (xs : List A)
      → All (λ x. id x ≢ i) xs
      → update_where (λ x. id x == i) g xs ≡ xs
  update_where-absent i g [] h = refl
  update_where-absent i g (x ∷ xs) h =
      rw (ne→== (id x) i h.0) (ap (λ (t : List A). x ∷ t) (update_where-absent i g xs h.1))

  some_eq : {a b : A} → some a ≡ some b → a ≡ b
  some_eq e = cc

  head_found :
      (i : ℕ) (x : A) (xs : List A) (a : A) (b : Bool)
      → (id x == i) ≡ b
      → find (λ y. id y == i) (x ∷ xs) ≡ some a
      → (if b then some x else find (λ y. id y == i) xs) ≡ some a
  head_found i x xs a b e h =
      sym (ap (λ (c : Bool). if c then some x else find (λ y. id y == i) xs) e) ∙ h

  -- The update of the row that was found, where the ids are distinct.
  pub sum_by-update_found :
      (f : A → ℕ) (i : ℕ) (g : A → A) (xs : List A) (a : A)
      → Distinct id xs
      → find (λ x. id x == i) xs ≡ some a
      → sum_by f (update_where (λ x. id x == i) g xs) + f a ≡ sum_by f xs + f (g a)
  sum_by-update_found f i g [] a d h = cc
  sum_by-update_found f i g (x ∷ xs) a d h = elim (Bool-cases (id x == i)) [
    | inl hit ↦
        let same = some_eq (head_found i x xs a _ hit h) in
        let rest =
          update_where-absent i g xs
            (subst (λ (j : ℕ). All (λ y. id y ≢ j) xs) (==→eq (id x) i hit) d.0) in
        rw (hit, rest)
          (subst (λ (y : A). f (g x) + sum_by f xs + f y ≡ f x + sum_by f xs + f (g y)) same
            (omega arith))
    | inr miss ↦
        rw miss (omega (arith, sum_by-update_found f i g xs a d.1 (head_found i x xs a _ miss h)))
  ]

  pub All-update_found {κ} :
      (P : A → Type κ) (i : ℕ) (g : A → A) (xs : List A) (a : A)
      → Distinct id xs
      → find (λ x. id x == i) xs ≡ some a
      → All P xs
      → (P a → P (g a))
      → All P (update_where (λ x. id x == i) g xs)
  All-update_found P i g [] a d h all keeps = tt
  All-update_found P i g (x ∷ xs) a d h all keeps = elim (Bool-cases (id x == i)) [
    | inl hit ↦
        let same = some_eq (head_found i x xs a _ hit h) in
        let rest =
          update_where-absent i g xs
            (subst (λ (j : ℕ). All (λ y. id y ≢ j) xs) (==→eq (id x) i hit) d.0) in
        rw (hit, rest) (subst (λ (y : A). P y → P (g y)) (sym same) keeps all.0, all.1)
    | inr miss ↦
        rw miss (all.0, All-update_found P i g xs a d.1 (head_found i x xs a _ miss h) all.1 keeps)
  ]

  ids_ne :
      (j : ℕ) (p : A → Bool) (g : A → A) (xs : List A)
      → ((x : A) → id (g x) ≡ id x)
      → All (λ x. id x ≢ j) xs
      → All (λ x. id x ≢ j) (update_where p g xs)
  ids_ne j p g xs same =
      All-update (λ x. id x ≢ j) p g xs (λ x h. subst (λ (k : ℕ). k ≢ j) (sym (same x)) h)

  pub Distinct-update :
      (p : A → Bool) (g : A → A) (xs : List A)
      → ((x : A) → id (g x) ≡ id x)
      → Distinct id xs
      → Distinct id (update_where p g xs)
  Distinct-update p g [] same d = tt
  Distinct-update p g (x ∷ xs) same d = elim (Bool-cases (p x)) [
    | inl hit ↦ rw hit (
      subst (λ (j : ℕ). All (λ y. id y ≢ j) (update_where p g xs)) (sym (same x))
          (ids_ne (id x) p g xs same d.0),
      Distinct-update p g xs same d.1,
    )
    | inr miss ↦ rw miss (ids_ne (id x) p g xs same d.0, Distinct-update p g xs same d.1)
  ]
