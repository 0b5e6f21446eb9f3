-- ===== src/Rules/Tier/Laws.antt =====
-- The tier rules of backend/src/domain/rules.ts: thresholds, recalculation, bonus.
use oyna.Base.{ℕ, ◌≤◌, ◌-◌, ◌%◌, max, ◌≡◌, refl, false, arith}
use oyna.Rules.Tier.{
  LoyaltyTier, bronze, silver, gold, platinum, legend, tier_index, tier_at, tier_minutes,
  topup_bonus_minutes, tier_from_minutes, apply_monthly_drop, promote_immediately,
}

-- Without an invitation, the tier earned by played minutes is one whose threshold they
-- reach, and is at least any tier whose threshold they reach.
pub tier_from_minutes_highest :
    (minutes : ℕ) (tier : LoyaltyTier)
    → tier_minutes tier ≤ minutes
    → (tier_minutes (tier_from_minutes minutes false) ≤ minutes)
      × (tier_index tier ≤ tier_index (tier_from_minutes minutes false))
unfolding tier_from_minutes
tier_from_minutes_highest minutes tier reached = ground arith

tier_index-tier_at : (t : LoyaltyTier) → tier_index (tier_at (tier_index t - 1)) ≡ tier_index t - 1
tier_index-tier_at bronze = refl
tier_index-tier_at silver = refl
tier_index-tier_at gold = refl
tier_index-tier_at platinum = refl
tier_index-tier_at legend = refl

-- The monthly recalculation leaves a player at the earned tier or one step below the current one,
-- whichever is higher; an immediate promotion leaves the higher of the current and the earned tier.
pub tier_recalculation :
    (current earned : LoyaltyTier)
    → (tier_index (apply_monthly_drop current earned)
        ≡ max (tier_index earned) (tier_index current - 1))
      × (tier_index (promote_immediately current earned)
          ≡ max (tier_index current) (tier_index earned))
unfolding apply_monthly_drop promote_immediately
tier_recalculation current earned = ground (arith, tier_index-tier_at current)

-- The status bonus is a whole number of ten-minute sessions, and of two tiers the one that is not
-- lower never gets less.
pub topup_bonus_minutes_monotone :
    (low high : LoyaltyTier) (paid_minutes : ℕ)
    → tier_index low ≤ tier_index high
    → (topup_bonus_minutes low paid_minutes ≤ topup_bonus_minutes high paid_minutes)
      × (topup_bonus_minutes low paid_minutes % 10 ≡ 0)
unfolding topup_bonus_minutes
topup_bonus_minutes_monotone low high paid_minutes h = ground arith
