-- ===== src/Loyalty/Statuses.antt =====
-- The monthly recalculation of backend/src/loyalty/loyalty.service.ts.
pub mod Laws
use oyna.Base.{
  ℕ, Bool, ◌&&◌, ◌||◌, not, is_some, List, [], ◌∷◌, ltb, ◌==◌, if◌then◌else◌, keep, length,
  contains,
}
use oyna.Rules.Tier.{LoyaltyTier, tier_index, apply_monthly_drop}
use oyna.Rules.Calendar.{Date, almaty_parts}
use oyna.Loyalty.State.{Profile, StatusPlay, Club, set_status, update_profile}
use oyna.Loyalty.Service.{earned_by, month_number}

-- `role: 'USER', deletedAt: null`
abbrev pub is_ranked : Profile → Bool
is_ranked p = p.is_player && not (is_some p.deleted_at)

unfoldable pub dropped : Date → List StatusPlay → Profile → LoyaltyTier
dropped now plays p = apply_monthly_drop p.loyalty_status (earned_by p now plays)

-- `next !== user.loyaltyStatus`
abbrev pub is_changed : Date → List StatusPlay → Profile → Bool
is_changed now plays p = not (tier_index (dropped now plays p) == tier_index p.loyalty_status)

-- The loop over the players that were read, on the table.
unfoldable pub drop_each : Date → List StatusPlay → List Profile → List Profile → List Profile
drop_each now plays [] ps = ps
drop_each now plays (u ∷ us) ps = drop_each now plays us (
    if is_changed now plays u
    then update_profile u.id (set_status (dropped now plays u)) ps
    else ps)

unfoldable pub monthly_drop : Date → Club → ℕ × Club
monthly_drop now club =
    let users = keep is_ranked club.profiles in
    (
      length (keep (is_changed now club.plays) users),
      record club { profiles = drop_each now club.plays users club.profiles },
    )

-- The row of the month is created first; where it exists the month is done.
unfoldable pub maybe_monthly_drop : Date → Club → Club
maybe_monthly_drop now club =
    let p = almaty_parts now in
    if not (p.day == 1) || ltb p.hour 4 || contains (month_number now) club.drops
    then club
    else (monthly_drop now (record club { drops = month_number now ∷ club.drops })).1
