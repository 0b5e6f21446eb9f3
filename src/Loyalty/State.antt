-- ===== src/Loyalty/State.antt =====
-- The tables that backend/src/loyalty/loyalty.service.ts reads and writes, beside those of the ledger.
use oyna.Base.{
  ℕ, ◌-◌, ◌*◌, ◌&&◌, Bool, Option, List, String, ◌==◌, leb, find, keep, sum_by, update_where,
}
use Prim.Native.String.{compare}
use text.Mathlib.Text.{is_eq}
use oyna.Rules.Tier.{LoyaltyTier}
use oyna.Rules.Calendar.{Date, day_ms, almaty_parts, date_utc}
use oyna.Ledger.State.{Db}

-- The columns of `User` that the ledger does not read. `is_player`: the role is USER.
pub record Profile : Type 0 where
  pub id : ℕ
  pub nickname : String
  pub birth_date : Option Date
  pub loyalty_status : LoyaltyTier
  pub legend_invite : Bool
  pub referred_by_id : Option ℕ
  pub is_player : Bool
  pub deleted_at : Option Date
  pub total_score : ℕ

pub record StatusPlay : Type 0 where
  pub user_id : ℕ
  pub session_id : ℕ
  pub minutes : ℕ
  pub played_at : Date

-- A day, `YYYY-MM-DD` in the source, is its midnight in UTC.
pub record VisitDay : Type 0 where
  pub user_id : ℕ
  pub day : Date
  pub created_at : Date

-- A row `referral_paid:user` of the settings.
pub record ReferralPaid : Type 0 where
  pub invitee_id : ℕ
  pub seconds : ℕ

-- `drops` are the months, written 12 * year + month, whose row `loyalty-drop-…` the settings have.
pub record Club : Type 0 where
  pub ledger : Db
  pub profiles : List Profile
  pub plays : List StatusPlay
  pub visits : List VisitDay
  pub referrals : List ReferralPaid
  pub drops : List ℕ

abbrev pub profile_of : ℕ → List Profile → Option Profile
profile_of user_id = find (λ p. p.id == user_id)

abbrev pub set_status : LoyaltyTier → Profile → Profile
set_status tier p = record p { loyalty_status = tier }

abbrev pub update_profile : ℕ → (Profile → Profile) → List Profile → List Profile
update_profile user_id = update_where (λ p. p.id == user_id)

-- A moment some days before another one; 0000-03-01 is the first.
abbrev pub days_before : ℕ → Date → Date
days_before days at = at - days * day_ms

abbrev pub counted_play : ℕ → Date → StatusPlay → Bool
counted_play user_id since p = p.user_id == user_id && leb since p.played_at

abbrev pub play_minutes : StatusPlay → ℕ
play_minutes p = p.minutes

-- `statusPlay.aggregate` since a moment
abbrev pub minutes_since : ℕ → Date → List StatusPlay → ℕ
minutes_since user_id since plays = sum_by play_minutes (keep (counted_play user_id since) plays)

-- `===` of two texts
abbrev pub same_text : String → String → Bool
same_text s t = is_eq (compare s t)

abbrev pub day_of : Date → Date
day_of at = let p = almaty_parts at in date_utc p.year p.month p.day 0 0
