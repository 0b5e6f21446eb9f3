-- ===== src/Ledger/Invariant/Rows.antt =====
-- A row of the grants' table under an update of another row, as in the loops of
-- backend/src/ledger/minute-ledger.service.ts.
use mathlib.Core.List.{Memᴰ}
use oyna.Base.{
  ℕ, ◌+◌, ◌≡◌, ◌≢◌, refl, sym, ap, ◌∙◌, subst, List, [], ◌∷◌, All, update_where, sum_by, keep, ◌==◌,
  ==→eq, eq→==, ne→==, Bool-cases, inl, inr, if◌then◌else◌, arith, not,
}
use oyna.Base.Distinct.{Distinct, All-imp}
use oyna.Ledger.State.{Grant, live_seconds}
use oyna.Ledger.Invariant.{grant_id_of, IsDrawn}

-- Every element of a list is a member of it.
pub All-Mem {ℓ} : {A : Type ℓ} (xs : List A) → All (λ x. Memᴰ x xs) xs
All-Mem [] = tt
All-Mem (x ∷ xs) = (
  Memᴰ.head refl,
  All-imp {P = λ y. Memᴰ y xs} {Q = λ y. Memᴰ y (x ∷ xs)} (λ y m. Memᴰ.tail m) xs (All-Mem xs),
)

pub All-at {ℓ κ} : {A : Type ℓ} (P : A → Type κ) {a : A} {xs : List A} → Memᴰ a xs → All P xs → P a
All-at P (Memᴰ.head e) h = subst P (sym e) h.0
All-at P (Memᴰ.tail m) h = All-at P m h.1

-- Under distinct ids a row is determined by its id.
pub Distinct-Mem :
    (g : Grant) {gs : List Grant}
    → Distinct grant_id_of gs
    → Memᴰ g gs
    → All (λ h. h.id ≡ g.id → h ≡ g) gs
Distinct-Mem g d (Memᴰ.head {x = x} {xs = xs} e) = (
  λ _. sym e,
  All-imp {P = λ y. y.id ≢ x.id} {Q = λ h. h.id ≡ g.id → h ≡ g}
      (λ y ne same. absurd (ne (same ∙ ap grant_id_of e))) xs d.0,
)
Distinct-Mem g d (Memᴰ.tail {x = x} {xs = xs} m) =
    (λ same. absurd (All-at (λ y. y.id ≢ x.id) m d.0 (sym same)), Distinct-Mem g d.1 m)

pub update-Mem :
    (id : ℕ) (f : Grant → Grant) (g : Grant) {gs : List Grant}
    → g.id ≢ id
    → Memᴰ g gs
    → Memᴰ g (update_where (λ h. h.id == id) f gs)
update-Mem id f g ne (Memᴰ.head {x = x} {xs = xs} e) =
    Memᴰ.head (rw (ne→== x.id id (λ same. ne (ap grant_id_of e ∙ same))) e)
update-Mem id f g ne (Memᴰ.tail m) = Memᴰ.tail (update-Mem id f g ne m)

-- What the grants of a user hold.
abbrev pub held_by : ℕ → Grant → ℕ
held_by user_id g = if g.user_id == user_id then g.remaining_seconds else 0

abbrev pub held : ℕ → List Grant → ℕ
held user_id = sum_by (held_by user_id)

pub live_seconds-eq-held :
    (user_id : ℕ) (gs : List Grant) → live_seconds user_id gs ≡ held user_id gs
live_seconds-eq-held user_id [] = refl
live_seconds-eq-held user_id (g ∷ gs) = ground (arith, live_seconds-eq-held user_id gs)

module _ (user_id id seconds : ℕ) (f : Grant → Grant) where
  update-held_none :
      (gs : List Grant)
      → All (λ g. g.id ≢ id) gs
      → held user_id (update_where (λ g. g.id == id) f gs) ≡ held user_id gs
  update-held_none [] h = refl
  update-held_none (g ∷ gs) h = rw (ne→== g.id id h.0) (omega (arith, update-held_none gs h.1))

  -- Drawing from a row of a user lowers what the user holds by the seconds drawn.
  pub update-held :
      (g : Grant) {gs : List Grant}
      → Memᴰ g gs
      → g.id ≡ id
      → g.user_id ≡ user_id
      → Distinct grant_id_of gs
      → All (IsDrawn id seconds f) gs
      → held user_id (update_where (λ h. h.id == id) f gs) + seconds ≡ held user_id gs
  update-held g (Memᴰ.head {x = x} {xs = xs} e) same mine d h =
      let hit : x.id ≡ id = sym (ap grant_id_of e) ∙ same in
      let own : x.user_id ≡ user_id = sym (ap (λ (y : Grant). y.user_id) e) ∙ mine in
      let (shape, fits) = h.0 hit in
      let rest =
        update-held_none xs (
          All-imp {P = λ y. y.id ≢ x.id} {Q = λ y. y.id ≢ id} (λ y ne q. ne (q ∙ sym hit)) xs
            d.0) in
      rw (eq→== x.id id hit, shape) (ground (arith, rest))
  update-held g (Memᴰ.tail {x = x} {xs = xs} m) same mine d h =
      let miss : x.id ≢ id = λ q. All-at (λ y. y.id ≢ x.id) m d.0 (same ∙ sym q) in
      rw (ne→== x.id id miss) (omega (arith, update-held g m same mine d.1 h.1))

  -- The rows of the other users stay as they are.
  pub update-others :
      (gs : List Grant)
      → All (λ g. g.id ≡ id → g.user_id ≡ user_id) gs
      → All (IsDrawn id seconds f) gs
      → keep (λ g. not (g.user_id == user_id)) (update_where (λ g. g.id == id) f gs)
        ≡ keep (λ g. not (g.user_id == user_id)) gs
  update-others [] own h = refl
  update-others (g ∷ gs) own h = elim (Bool-cases (g.id == id)) [
    | inl hit ↦
        let same = ==→eq g.id id hit in
        let (shape, _) = h.0 same in
        let mine = eq→== g.user_id user_id (own.0 same) in
        rw (hit, shape, mine) (update-others gs own.1 h.1)
    | inr miss ↦ rw miss (ground (arith, update-others gs own.1 h.1))
  ]
