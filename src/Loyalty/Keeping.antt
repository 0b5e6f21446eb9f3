-- ===== src/Loyalty/Keeping.antt =====
-- The handlers of backend/src/loyalty/loyalty.service.ts keep the ledger's books and add no play.
use oyna.Base.{
  ℕ, ◌+◌, ◌*◌, ◌%◌, ◌≡◌, refl, ◌∙◌, inl, inr, Bool, true, false, Bool-cases, ◌||◌, not, Option,
  none, some, List, leb, ltb, ◌==◌, if◌then◌else◌, any, length, keep,
}
use oyna.Rules.Calendar.{Date}
use oyna.Ledger.State.{Db}
use oyna.Ledger.Ops.{CreditInput, credit_tx}
use oyna.Ledger.Service.{opened, credit}
use oyna.Ledger.Invariant.{IsLedger}
use oyna.Ledger.Invariant.Steps.{credit_tx-IsLedger}
use oyna.Ledger.Invariant.Methods.{opened-IsLedger, sync_balance-IsLedger}
use oyna.Rules.Tier.{LoyaltyTier}
use oyna.Loyalty.State.{Profile, Club, profile_of, day_of, days_before}
use oyna.Loyalty.Service.{
  give, refreshed, refresh_status, maybe_streak, create_visit, maybe_card, visit_rewards,
  record_visit, reward_referral, reward_inviter, streak_from, is_from, is_visit_of, recent_days,
  referral_total, set_referral, month_start_of, referral_step, referral_of, add_referral_progress,
}

pub credit-IsLedger :
    (input : CreditInput) (now : Date) (db : Db) → IsLedger db → IsLedger (credit input now db).1
unfolding credit
credit-IsLedger input now db l =
    elim (Bool-cases (leb input.seconds 0 || not (input.seconds % 600 == 0))) [
      | inl refused ↦ rw refused l
      | inr taken ↦ rw taken (
          sync_balance-IsLedger input.user_id (credit_tx input now (opened input.user_id now db)).1
            (credit_tx-IsLedger input now (opened input.user_id now db)
              (opened-IsLedger input.user_id now db l)))
    ]

-- A step that keeps the books and adds no play.
pub record IsKept (before after : Club) : Type 0 where
  pub books : IsLedger before.ledger → IsLedger after.ledger
  pub plays : after.plays ≡ before.plays

kept : (club : Club) → IsKept club club
kept club = record { books = λ l. l; plays = refl }

pub then-IsKept : {a b c : Club} → IsKept a b → IsKept b c → IsKept a c
then-IsKept p q = record { books = λ l. q.books (p.books l); plays = q.plays ∙ p.plays }

pub either-IsKept :
    {before c d : Club} (b : Bool)
    → IsKept before c
    → IsKept before d
    → IsKept before (if b then c else d)
either-IsKept true kc kd = kc
either-IsKept false kc kd = kd

give-IsKept : (input : CreditInput) (now : Date) (club : Club) → IsKept club (give input now club)
unfolding give
give-IsKept input now club = record { books = credit-IsLedger input now club.ledger; plays = refl }

pub refresh_status-IsKept :
    (u : ℕ) (at : Date) (club : Club) → IsKept club (refresh_status u at club)
unfolding refresh_status
refresh_status-IsKept u at club = go (profile_of u club.profiles)
  where
    go : (p : Option Profile) → IsKept club (refreshed u p at club)
    go none = kept club
    go (some p) = record { books = λ l. l; plays = refl }

create_visit-IsKept : (u : ℕ) (at : Date) (club : Club) → IsKept club (create_visit u at club)
unfolding create_visit
create_visit-IsKept u at club =
    either-IsKept (any (is_visit_of u (day_of at)) club.visits) (kept club)
      (record { books = λ l. l; plays = refl })

maybe_streak-IsKept :
    (u : ℕ) (days : List Date) (tier : LoyaltyTier) (at : Date) (club : Club)
    → IsKept club (maybe_streak u days tier at club)
unfolding maybe_streak
maybe_streak-IsKept u days tier at club =
    either-IsKept
      (ltb (streak_from 5 0 (day_of at) days) 5
        || any (is_from u "streak5" (days_before 30 at)) club.ledger.grants)
      (kept club) (give-IsKept _ at club)

maybe_card-IsKept :
    (u : ℕ) (days : List Date) (tier : LoyaltyTier) (at : Date) (club : Club)
    → IsKept club (maybe_card u days tier at club)
unfolding maybe_card
maybe_card-IsKept u days tier at club =
    either-IsKept
      (leb (8 * (length (keep (is_from u "visits8" 0) club.ledger.grants) + 1)) (length days))
      (give-IsKept _ at club) (kept club)

visit_rewards-IsKept :
    (u : ℕ) (p : Option Profile) (at : Date) (club : Club) → IsKept club (visit_rewards u p at club)
visit_rewards-IsKept u none at club = kept club
visit_rewards-IsKept u (some p) at club =
    let days = recent_days u (days_before 60 at) club.visits in
    then-IsKept (maybe_card-IsKept u days p.loyalty_status at club)
      (maybe_streak-IsKept u days p.loyalty_status at (maybe_card u days p.loyalty_status at club))

pub record_visit-IsKept : (u : ℕ) (at : Date) (club : Club) → IsKept club (record_visit u at club)
unfolding record_visit
record_visit-IsKept u at club =
    let c = create_visit u at club in
    then-IsKept (create_visit-IsKept u at club)
      (visit_rewards-IsKept u (profile_of u c.profiles) at c)

reward_inviter-IsKept :
    (inviter : Option Profile) (invitee : Profile) (now : Date) (club : Club)
    → IsKept club (reward_inviter inviter invitee now club)
unfolding reward_referral
reward_inviter-IsKept none invitee now club = kept club
reward_inviter-IsKept (some inviter) invitee now club =
    then-IsKept (give-IsKept _ now club) (give-IsKept _ now (give _ now club))

referral_step-IsKept :
    (invitee : Profile) (inviter_id paid : ℕ) (now : Date) (club : Club)
    → IsKept club (referral_step invitee inviter_id paid now club)
referral_step-IsKept invitee inviter_id paid now club =
    let total = referral_total invitee.id club.referrals + paid in
    let c = record club { referrals = set_referral invitee.id total club.referrals } in
    let same : IsKept club c = record { books = λ l. l; plays = refl } in
    either-IsKept
      (ltb total 1200
        || leb 5
            (length (keep (is_from inviter_id "referral" (month_start_of now)) c.ledger.grants)))
      same
      (then-IsKept same (reward_inviter-IsKept (profile_of inviter_id c.profiles) invitee now c))

pub add_referral_progress-IsKept :
    (u paid : ℕ) (now : Date) (club : Club) → IsKept club (add_referral_progress u paid now club)
unfolding add_referral_progress
add_referral_progress-IsKept u paid now club = go (profile_of u club.profiles)
  where
    of_inviter :
        (invitee : Profile) (inviter : Option ℕ)
        → IsKept club (elim inviter [
          | none ↦ club
          | some inviter_id ↦
              if inviter_id == invitee.id
              then club
              else referral_step invitee inviter_id paid now club
        ])
    of_inviter invitee none = kept club
    of_inviter invitee (some inviter_id) =
        either-IsKept (inviter_id == invitee.id) (kept club)
          (referral_step-IsKept invitee inviter_id paid now club)

    go : (p : Option Profile) → IsKept club (referral_of p paid now club)
    go none = kept club
    go (some invitee) = of_inviter invitee invitee.referred_by_id
