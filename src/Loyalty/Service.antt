-- ===== src/Loyalty/Service.antt =====
-- The handlers of backend/src/loyalty/loyalty.service.ts that run when a session is paid for, when a level is
-- reached and on a birthday. A handler reads the clock once. The seconds of every reward are whole
-- sessions, which `credit` takes.
use oyna.Base.{
  ℕ, zero, suc, ◌+◌, ◌-◌, ◌*◌, Bool, true, false, ◌&&◌, ◌||◌, not, Option, none, some, List, [],
  ◌∷◌, ◌++◌, String, ltb, leb, ◌==◌, if◌then◌else◌, any, find, keep, length, map, contains,
}
use oyna.Rules.Tier.{LoyaltyTier, tier_from_minutes, promote_immediately, birthday_bonus}
use oyna.Rules.Calendar.{Date, day_ms, almaty_parts, almaty_date}
use oyna.Rules.Rank.{in_birthday_window}
use oyna.Rules.Spend.{MinuteKind, bonus, reward}
use oyna.Ledger.State.{
  Key, visits8, streak5, birthday, lvl10, referral, Reason, text, birthday_of, tenth_level,
  friend_played, Grant,
}
use oyna.Ledger.Ops.{CreditInput, by_kind}
use oyna.Ledger.Service.{credit}
use oyna.Loyalty.State.{
  Profile, StatusPlay, VisitDay, ReferralPaid, Club, profile_of, set_status, update_profile,
  days_before, minutes_since, same_text, day_of,
}

-- The months as numbers that follow each other.
abbrev pub month_number : Date → ℕ
month_number at = let p = almaty_parts at in 12 * p.year + p.month

-- What the rewards ask of the ledger.
abbrev pub reward_input : ℕ → ℕ → MinuteKind → String → Reason → Key → LoyaltyTier → CreditInput
reward_input user_id seconds kind source reason key tier = record {
  user_id = user_id;
  seconds = seconds;
  kind = kind;
  source = source;
  reason = reason;
  idempotency_key = some key;
  created_by_id = none;
  transaction_id = none;
  session_id = none;
  tier = some tier;
  expires_at = by_kind;
}

unfoldable pub give : CreditInput → Date → Club → Club
give input now club = record club { ledger = (credit input now club.ledger).1 }

-- `minuteGrant` rows of a player from one source, since a moment.
abbrev pub is_from : ℕ → String → Date → Grant → Bool
is_from user_id source since g =
    g.user_id == user_id && same_text g.source source && leb since g.created_at

-- The row is unique for the session and the player.
abbrev pub is_play_of : ℕ → ℕ → StatusPlay → Bool
is_play_of session_id user_id p = p.session_id == session_id && p.user_id == user_id

unfoldable pub create_play : ℕ → ℕ → Date → Club → Club
create_play user_id session_id at club =
    if any (is_play_of session_id user_id) club.plays then club else record club {
      plays =
          club.plays
          ++ record { user_id = user_id; session_id = session_id; minutes = 10; played_at = at }
            ∷ [];
    }

abbrev pub earned_by : Profile → Date → List StatusPlay → LoyaltyTier
earned_by p at plays =
    tier_from_minutes (minutes_since p.id (days_before 90 at) plays) p.legend_invite

abbrev pub refreshed : ℕ → Option Profile → Date → Club → Club
refreshed user_id none at club = club
refreshed user_id (some p) at club =
    let minutes = minutes_since user_id (days_before 90 at) club.plays in
    let next = promote_immediately p.loyalty_status (tier_from_minutes minutes p.legend_invite) in
    record club { profiles = update_profile user_id (set_status next) club.profiles }

-- Writing the status that a player already has changes nothing.
unfoldable pub refresh_status : ℕ → Date → Club → Club
refresh_status user_id at club = refreshed user_id (profile_of user_id club.profiles) at club

-- The loop over the last days, `left` of them from the i-th: how many follow each other.
unfoldable pub streak_from : ℕ → ℕ → Date → List Date → ℕ
streak_from zero i today days = 0
streak_from (suc left) i today days =
    let more = streak_from left (i + 1) today days in
    if contains (today - i * day_ms) days then suc more else 0

unfoldable pub maybe_streak : ℕ → List Date → LoyaltyTier → Date → Club → Club
maybe_streak user_id days tier at club =
    if ltb (streak_from 5 0 (day_of at) days) 5
      || any (is_from user_id "streak5" (days_before 30 at)) club.ledger.grants
    then club
    else give
        (reward_input user_id 1200 reward "streak5" (text "Серия 5 дней")
          (streak5 user_id (month_number at)) tier)
        at club

abbrev pub is_visit_of : ℕ → Date → VisitDay → Bool
is_visit_of user_id day v = v.user_id == user_id && v.day == day

-- The row is unique for the player and the day.
unfoldable pub create_visit : ℕ → Date → Club → Club
create_visit user_id at club =
    if any (is_visit_of user_id (day_of at)) club.visits then club else record club {
      visits = club.visits ++ record { user_id = user_id; day = day_of at; created_at = at } ∷ [];
    }

abbrev pub recent_days : ℕ → Date → List VisitDay → List Date
recent_days user_id from visits =
    map (λ v. v.day) (keep (λ v. v.user_id == user_id && leb from v.created_at) visits)

-- The card of eight visits.
unfoldable pub maybe_card : ℕ → List Date → LoyaltyTier → Date → Club → Club
maybe_card user_id days tier at club =
    let cards = length (keep (is_from user_id "visits8" 0) club.ledger.grants) in
    if leb (8 * (cards + 1)) (length days)
    then give
        (reward_input user_id 3600 reward "visits8" (text "8 визитов") (visits8 user_id (cards + 1))
          tier)
        at club
    else club

abbrev pub visit_rewards : ℕ → Option Profile → Date → Club → Club
visit_rewards user_id none at club = club
visit_rewards user_id (some p) at club =
    let days = recent_days user_id (days_before 60 at) club.visits in
    maybe_streak user_id days p.loyalty_status at (maybe_card user_id days p.loyalty_status at club)

unfoldable pub record_visit : ℕ → Date → Club → Club
record_visit user_id at club =
    let c = create_visit user_id at club in
    visit_rewards user_id (profile_of user_id c.profiles) at c

abbrev pub referral_total : ℕ → List ReferralPaid → ℕ
referral_total invitee_id rows = elim (find (λ r. r.invitee_id == invitee_id) rows) [
  | none ↦ 0
  | some r ↦ r.seconds
]

abbrev pub set_referral : ℕ → ℕ → List ReferralPaid → List ReferralPaid
set_referral invitee_id total [] = record { invitee_id = invitee_id; seconds = total } ∷ []
set_referral invitee_id total (r ∷ rows) =
    if r.invitee_id == invitee_id
    then record r { seconds = total } ∷ rows
    else r ∷ set_referral invitee_id total rows

-- `monthStart()`
abbrev pub month_start_of : Date → Date
month_start_of now = let p = almaty_parts now in almaty_date p.year p.month 1 0 0

-- Both sides of an invitation get twenty minutes.
unfoldable pub reward_referral : Profile → Profile → Date → Club → Club
reward_referral inviter invitee now club =
    give
      (reward_input invitee.id 1200 reward "referral"
        (text "Бонус за первое оплаченное время по приглашению") (referral false invitee.id)
        invitee.loyalty_status)
      now
      (give
        (reward_input inviter.id 1200 reward "referral" (friend_played invitee.nickname)
          (referral true invitee.id) inviter.loyalty_status)
        now club)

abbrev pub reward_inviter : Option Profile → Profile → Date → Club → Club
reward_inviter none invitee now club = club
reward_inviter (some inviter) invitee now club = reward_referral inviter invitee now club

abbrev pub referral_step : Profile → ℕ → ℕ → Date → Club → Club
referral_step invitee inviter_id paid_seconds now club =
    let total = referral_total invitee.id club.referrals + paid_seconds in
    let c = record club { referrals = set_referral invitee.id total club.referrals } in
    let rewarded =
      length (keep (is_from inviter_id "referral" (month_start_of now)) c.ledger.grants) in
    if ltb total 1200 || leb 5 rewarded
    then c
    else reward_inviter (profile_of inviter_id c.profiles) invitee now c

abbrev pub referral_of : Option Profile → ℕ → Date → Club → Club
referral_of none paid_seconds now club = club
referral_of (some invitee) paid_seconds now club = elim invitee.referred_by_id [
  | none ↦ club
  | some inviter_id ↦
      if inviter_id == invitee.id
      then club
      else referral_step invitee inviter_id paid_seconds now club
]

unfoldable pub add_referral_progress : ℕ → ℕ → Date → Club → Club
add_referral_progress invitee_id paid_seconds now club =
    referral_of (profile_of invitee_id club.profiles) paid_seconds now club

pub record SessionDebit : Type 0 where
  pub user_id : ℕ
  pub session_id : ℕ
  pub paid_seconds : ℕ
  pub bonus_seconds : ℕ
  pub manual_seconds : ℕ

unfoldable pub on_session_debit : SessionDebit → Date → Club → Club
on_session_debit input at club =
    let c =
      record_visit input.user_id at
        (refresh_status input.user_id at (create_play input.user_id input.session_id at club)) in
    if leb (input.paid_seconds + input.bonus_seconds + input.manual_seconds) 0
    then club
    else if ltb 0 input.paid_seconds
    then add_referral_progress input.user_id input.paid_seconds at c
    else c

abbrev pub level_ten_of : Option Profile → ℕ → Date → Club → Club
level_ten_of none mode_id now club = club
level_ten_of (some p) mode_id now club =
    if not p.is_player
    then club
    else give
        (reward_input p.id 600 reward "lvl10" (tenth_level mode_id) (lvl10 p.id mode_id)
          p.loyalty_status)
        now club

unfoldable pub on_level_ten : List ℕ → ℕ → Date → Club → Club
on_level_ten [] mode_id now club = club
on_level_ten (user_id ∷ user_ids) mode_id now club =
    on_level_ten user_ids mode_id now
      (level_ten_of (profile_of user_id club.profiles) mode_id now club)

pub data Birthday : Type 0 where
  no_birth_date out_of_window : Birthday
  granted : ℕ → Birthday

-- `at` is the day of the party, and the credit is made now.
abbrev pub birthday_gift : Profile → Date → Date → Date → Club → Birthday × Club
birthday_gift p birth_date at now club =
    let minutes = birthday_bonus p.loyalty_status in
    let year = (almaty_parts at).year in
    if not (in_birthday_window birth_date at) then (out_of_window, club) else (
      granted minutes,
      give
          (reward_input p.id (minutes * 60) bonus "birthday" (birthday_of year) (birthday p.id year)
            p.loyalty_status)
          now club,
    )

unfoldable pub birthday_bonus_for : ℕ → Date → Date → Club → Birthday × Club
birthday_bonus_for user_id at now club = elim (profile_of user_id club.profiles) [
  | none ↦ (no_birth_date, club)
  | some p ↦ elim p.birth_date [
    | none ↦ (no_birth_date, club)
    | some birth_date ↦ birthday_gift p birth_date at now club
  ]
]
