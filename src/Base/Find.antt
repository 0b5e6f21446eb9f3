-- ===== src/Base/Find.antt =====
-- What `find` finds, also after an update of the rows it looks for.
use mathlib.Core.Path.{◌≡◌, sym, subst, ap, ◌∙◌}
use mathlib.Core.Logic.{inl, inr}
use mathlib.Core.Bool.{Bool, true}
use mathlib.Core.Option.{some}
use mathlib.Core.List.{List, [], ◌∷◌}
use oyna.Base.Tests.{if◌then◌else◌, Bool-cases}
use oyna.Base.Lists.{All, find, update_where}

module _ {ℓ} {A : Type ℓ} (p : A → Bool) where
  some_eq : {a b : A} → some a ≡ some b → a ≡ b
  some_eq e = cc

  head_case :
      (x : A) (xs : List A) (a : A) (b : Bool)
      → p x ≡ b
      → find p (x ∷ xs) ≡ some a
      → (if b then some x else find p xs) ≡ some a
  head_case x xs a b e h = sym (ap (λ (c : Bool). if c then some x else find p xs) e) ∙ h

  pub find_test : (xs : List A) (a : A) → find p xs ≡ some a → p a ≡ true
  find_test [] a h = cc
  find_test (x ∷ xs) a h = elim (Bool-cases (p x)) [
    | inl hit ↦ ap p (sym (some_eq (head_case x xs a _ hit h))) ∙ hit
    | inr miss ↦ find_test xs a (head_case x xs a _ miss h)
  ]

  pub find-update_where :
      (f : A → A) (xs : List A) (a : A)
      → ((x : A) → p x ≡ true → p (f x) ≡ true)
      → find p xs ≡ some a
      → find p (update_where p f xs) ≡ some (f a)
  find-update_where f [] a keeps h = cc
  find-update_where f (x ∷ xs) a keeps h = elim (Bool-cases (p x)) [
    | inl hit ↦ rw (hit, keeps x hit) (ap some (ap f (some_eq (head_case x xs a _ hit h))))
    | inr miss ↦ rw (miss, miss) (find-update_where f xs a keeps (head_case x xs a _ miss h))
  ]

  pub All-find {κ} : (P : A → Type κ) (xs : List A) (a : A) → find p xs ≡ some a → All P xs → P a
  All-find P [] a h all = cc
  All-find P (x ∷ xs) a h all = elim (Bool-cases (p x)) [
    | inl hit ↦ subst P (some_eq (head_case x xs a _ hit h)) all.0
    | inr miss ↦ All-find P xs a (head_case x xs a _ miss h) all.1
  ]

  -- An update by another test, which does not change what this one says.
  pub find-update_other :
      (q : A → Bool) (f : A → A) (xs : List A) (a : A)
      → ((x : A) → p (f x) ≡ p x)
      → q a ≡ true
      → find p xs ≡ some a
      → find p (update_where q f xs) ≡ some (f a)
  find-update_other q f [] a same hit h = cc
  find-update_other q f (x ∷ xs) a same hit h = elim (Bool-cases (p x)) [
    | inl here ↦
        let e = some_eq (head_case x xs a _ here h) in
        rw (subst (λ (y : A). q y ≡ true) (sym e) hit, same x, here) (ap some (ap f e))
    | inr later ↦ elim (Bool-cases (q x)) [
      | inl touched ↦
          rw (touched, same x, later)
            (find-update_other q f xs a same hit (head_case x xs a _ later h))
      | inr left ↦
          rw (left, later) (find-update_other q f xs a same hit (head_case x xs a _ later h))
    ]
  ]
