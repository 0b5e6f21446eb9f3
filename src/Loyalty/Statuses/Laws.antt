-- ===== src/Loyalty/Statuses/Laws.antt =====
-- The monthly recalculation of backend/src/loyalty/loyalty.service.ts on the table of players.
use oyna.Base.{
  ℕ, ◌≡◌, ◌≢◌, ◌≤◌, ◌||◌, ltb, le→ltb, refl, sym, ap, ◌∙◌, inl, inr, Bool, true, false, Bool-cases,
  not, List, [], ◌∷◌, ◌++◌, map, ◌==◌, if◌then◌else◌, keep, All, arith, contains, ne→==, eq→==,
}
use oyna.Base.Distinct.{Distinct, All-append}
use oyna.Rules.Tier.{LoyaltyTier, tier_index}
use oyna.Rules.Calendar.{Date, almaty_parts}
use oyna.Loyalty.State.{Profile, StatusPlay, Club, set_status, update_profile}
use oyna.Loyalty.Service.{month_number}
use oyna.Loyalty.Statuses.{
  is_ranked, dropped, is_changed, drop_each, monthly_drop, maybe_monthly_drop,
}

abbrev pub profile_id : Profile → ℕ
profile_id p = p.id

-- A ranked player's row with the status that the recalculation gives, and any other row as it was.
abbrev pub recalculated : Date → List StatusPlay → Profile → Profile
recalculated now plays p = if is_ranked p then set_status (dropped now plays p) p else p

tier_of_index : (a b : LoyaltyTier) → (tier_index a == tier_index b) ≡ true → a ≡ b
tier_of_index a b h = ground (arith, h)

abbrev IsOther : ℕ → Profile → Type 0
IsOther id p = p.id ≢ id

update_profile-miss :
    (id : ℕ) (f : Profile → Profile) (ps : List Profile)
    → All (IsOther id) ps
    → update_profile id f ps ≡ ps
update_profile-miss id f [] h = refl
update_profile-miss id f (p ∷ ps) h = rw (ne→== p.id id h.0, update_profile-miss id f ps h.1)

update_profile-split :
    (u : Profile) (f : Profile → Profile) (done us : List Profile)
    → All (IsOther u.id) done
    → All (IsOther u.id) us
    → update_profile u.id f (done ++ u ∷ us) ≡ done ++ f u ∷ us
update_profile-split u f [] us hd hu = rw (eq→== u.id u.id refl, update_profile-miss u.id f us hu)
update_profile-split u f (d ∷ done) us hd hu =
    rw (ne→== d.id u.id hd.0, update_profile-split u f done us hd.1 hu)

append-assoc_one : (done us : List Profile) (u : Profile) → (done ++ u ∷ []) ++ us ≡ done ++ u ∷ us
append-assoc_one [] us u = refl
append-assoc_one (d ∷ done) us u = ap (λ (t : List Profile). d ∷ t) (append-assoc_one done us u)

-- One step of the loop, at the row it read.
step_at :
    (now : Date) (plays : List StatusPlay) (u : Profile) (done us : List Profile)
    → All (IsOther u.id) done
    → All (IsOther u.id) us
    → (if is_changed now plays u
        then update_profile u.id (set_status (dropped now plays u)) (done ++ u ∷ us)
        else done ++ u ∷ us)
      ≡ done ++ set_status (dropped now plays u) u ∷ us
step_at now plays u done us hd hu =
    elim (Bool-cases (tier_index (dropped now plays u) == tier_index u.loyalty_status)) [
      | inl same ↦ rw (same, tier_of_index (dropped now plays u) u.loyalty_status same) refl
      | inr other ↦
          rw other (update_profile-split u (set_status (dropped now plays u)) done us hd hu)
    ]

abbrev IsApart : List Profile → Profile → Type 0
IsApart done u = All (IsOther u.id) done

IsApart-step :
    (done us : List Profile) (u v : Profile)
    → v.id ≡ u.id
    → All (IsApart done) us
    → All (IsOther u.id) us
    → All (IsApart (done ++ v ∷ [])) us
IsApart-step done [] u v e a h = tt
IsApart-step done (w ∷ us) u v e a h = (
  All-append (IsOther w.id) done (v ∷ []) a.0 ((λ same. h.0 (sym same ∙ e)), tt),
  IsApart-step done us u v e a.1 h.1,
)

drop_each-pass :
    (now : Date) (plays : List StatusPlay) (done us : List Profile)
    → All (IsApart done) us
    → Distinct profile_id us
    → drop_each now plays (keep is_ranked us) (done ++ us) ≡ done ++ map (recalculated now plays) us
unfolding drop_each
drop_each-pass now plays done [] a d = refl
drop_each-pass now plays done (u ∷ us) a d = elim (Bool-cases (is_ranked u)) [
  | inl ranked ↦
      let v = set_status (dropped now plays u) u in
      rw ranked (
        ap (drop_each now plays (keep is_ranked us))
          (step_at now plays u done us a.0 d.0 ∙ sym (append-assoc_one done us v))
        ∙ drop_each-pass now plays (done ++ v ∷ []) us (IsApart-step done us u v refl a.1 d.0) d.1
        ∙ append-assoc_one done (map (recalculated now plays) us) v)
  | inr unranked ↦ rw unranked (
      ap (drop_each now plays (keep is_ranked us)) (sym (append-assoc_one done us u))
      ∙ drop_each-pass now plays (done ++ u ∷ []) us (IsApart-step done us u u refl a.1 d.0) d.1
      ∙ append-assoc_one done (map (recalculated now plays) us) u)
]

IsApart-nil : (us : List Profile) → All (IsApart []) us
IsApart-nil [] = tt
IsApart-nil (u ∷ us) = (tt, IsApart-nil us)

-- Where the players' ids are distinct, the recalculation is one pass over them: every player who
-- is not deleted gets the status that the rule gives for the minutes of the last 90 days, and no
-- other row changes.
pub monthly_drop_lem :
    (now : Date) (club : Club)
    → Distinct profile_id club.profiles
    → (monthly_drop now club).1.profiles ≡ map (recalculated now club.plays) club.profiles
unfolding monthly_drop
monthly_drop_lem now club d =
    drop_each-pass now club.plays [] club.profiles (IsApart-nil club.profiles) d

drops_kept : (now : Date) (club : Club) → (monthly_drop now club).1.drops ≡ club.drops
unfolding monthly_drop
drops_kept now club = refl

listed_month : (m n : ℕ) (ms : List ℕ) → m ≡ n → contains m (n ∷ ms) ≡ true
listed_month m n ms e = rw (eq→== m n e)

month_done :
    (now : Date) (club : Club)
    → (almaty_parts now).day ≡ 1
    → 4 ≤ (almaty_parts now).hour
    → contains (month_number now) (maybe_monthly_drop now club).drops ≡ true
unfolding maybe_monthly_drop
month_done now club first late = elim (Bool-cases (contains (month_number now) club.drops)) [
  | inl done ↦
      rw (eq→== (almaty_parts now).day 1 first, le→ltb (almaty_parts now).hour 4 late, done) done
  | inr open_month ↦
      let marked = record club { drops = month_number now ∷ club.drops } in
      rw
        (
          eq→== (almaty_parts now).day 1 first,
          le→ltb (almaty_parts now).hour 4 late,
          open_month,
          drops_kept now marked,
        )
        (listed_month (month_number now) (month_number now) club.drops refl)
]

or_true : (b c : Bool) → c ≡ true → (b || c) ≡ true
or_true true c h = refl
or_true false c h = h

done_already :
    (later : Date) (club : Club)
    → contains (month_number later) club.drops ≡ true
    → maybe_monthly_drop later club ≡ club
unfolding maybe_monthly_drop
done_already later club h =
    rw
      (or_true (not ((almaty_parts later).day == 1) || ltb (almaty_parts later).hour 4)
        (contains (month_number later) club.drops) h)
      refl

-- The recalculation runs once in a month: after a first of the month, from four o'clock on, no later
-- call of that month changes anything.
pub maybe_monthly_drop_once :
    (now later : Date) (club : Club)
    → (almaty_parts now).day ≡ 1
    → 4 ≤ (almaty_parts now).hour
    → month_number later ≡ month_number now
    → maybe_monthly_drop later (maybe_monthly_drop now club) ≡ maybe_monthly_drop now club
maybe_monthly_drop_once now later club first late same =
    done_already later (maybe_monthly_drop now club) (
      ap (λ (m : ℕ). contains m (maybe_monthly_drop now club).drops) same
      ∙ month_done now club first late)
