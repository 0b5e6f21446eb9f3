-- ===== src/Rules/Tier.antt =====
-- The loyalty tiers of backend/src/domain/rules.ts and the tables by tier.
pub mod Laws
use oyna.Base.{
  ℕ, zero, suc, ◌-◌, Bool, ◌||◌, Option, none, some, List, [], ◌∷◌, ltb, leb, ◌==◌, if◌then◌else◌,
  or_else,
}

pub data LoyaltyTier : Type 0 where
  bronze silver gold platinum legend : LoyaltyTier

abbrev pub tier_order : List LoyaltyTier
tier_order = bronze ∷ silver ∷ gold ∷ platinum ∷ legend ∷ []

-- `TIER_ORDER.indexOf(tier)`
abbrev pub tier_index : LoyaltyTier → ℕ
tier_index bronze = 0
tier_index silver = 1
tier_index gold = 2
tier_index platinum = 3
tier_index legend = 4

-- `TIER_ORDER[i]`, at the indices that `applyMonthlyDrop` reads.
abbrev pub tier_at : ℕ → LoyaltyTier
tier_at zero = bronze
tier_at (suc zero) = silver
tier_at (suc (suc zero)) = gold
tier_at (suc (suc (suc zero))) = platinum
tier_at (suc (suc (suc (suc i)))) = legend

abbrev pub tier_minutes : LoyaltyTier → ℕ
tier_minutes bronze = 0
tier_minutes silver = 60
tier_minutes gold = 180
tier_minutes platinum = 400
tier_minutes legend = 800

abbrev pub bonus_days : LoyaltyTier → Option ℕ
bonus_days bronze = some 30
bonus_days silver = some 45
bonus_days gold = some 60
bonus_days platinum = some 90
bonus_days legend = none

-- The row of `TOPUP_BONUS` for 20, 40 and 60 paid minutes.
abbrev topup_bonus_20 : LoyaltyTier → Option ℕ
topup_bonus_20 platinum = some 10
topup_bonus_20 legend = some 10
topup_bonus_20 _ = none

abbrev topup_bonus_40 : LoyaltyTier → Option ℕ
topup_bonus_40 gold = some 10
topup_bonus_40 platinum = some 10
topup_bonus_40 legend = some 20
topup_bonus_40 _ = none

abbrev topup_bonus_60 : LoyaltyTier → Option ℕ
topup_bonus_60 silver = some 10
topup_bonus_60 gold = some 10
topup_bonus_60 platinum = some 20
topup_bonus_60 legend = some 20
topup_bonus_60 bronze = none

abbrev topup_bonus : ℕ → LoyaltyTier → Option ℕ
topup_bonus paid_minutes tier =
    if paid_minutes == 20
    then topup_bonus_20 tier
    else if paid_minutes == 40
    then topup_bonus_40 tier
    else if paid_minutes == 60
    then topup_bonus_60 tier
    else none

abbrev pub birthday_bonus : LoyaltyTier → ℕ
birthday_bonus bronze = 10
birthday_bonus silver = 20
birthday_bonus gold = 30
birthday_bonus platinum = 40
birthday_bonus legend = 60

unfoldable pub topup_bonus_minutes : LoyaltyTier → ℕ → ℕ
topup_bonus_minutes tier paid_minutes = or_else (topup_bonus paid_minutes tier) 0

unfoldable pub tier_from_minutes : ℕ → Bool → LoyaltyTier
tier_from_minutes minutes_90 legend_invite =
    if legend_invite || leb (tier_minutes legend) minutes_90
    then legend
    else if leb (tier_minutes platinum) minutes_90
    then platinum
    else if leb (tier_minutes gold) minutes_90
    then gold
    else if leb (tier_minutes silver) minutes_90
    then silver
    else bronze

-- `Math.max(0, cur - 1)` is the truncated `cur - 1`.
unfoldable pub apply_monthly_drop : LoyaltyTier → LoyaltyTier → LoyaltyTier
apply_monthly_drop current earned =
    if leb (tier_index current) (tier_index earned)
    then earned
    else tier_at (tier_index current - 1)

unfoldable pub promote_immediately : LoyaltyTier → LoyaltyTier → LoyaltyTier
promote_immediately current earned =
    if ltb (tier_index current) (tier_index earned) then earned else current

pub data GuestLimit : Type 0 where
  no_guest per_visit : GuestLimit
  guests : ℕ → GuestLimit

unfoldable pub guest_limit : LoyaltyTier → GuestLimit
guest_limit legend = per_visit
guest_limit platinum = guests 2
guest_limit gold = guests 1
guest_limit _ = no_guest
