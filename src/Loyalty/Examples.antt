-- ===== src/Loyalty/Examples.antt =====
-- The theorems on backend/src/loyalty/loyalty.service.ts at a small club.
use oyna.Base.{◌+◌, ◌≡◌, refl, true, false, none, some, [], ◌∷◌, map, arith}
use oyna.Rules.Tier.{gold}
use oyna.Rules.Calendar.{Date, almaty_parts, march_day, year_start, march_year}
use oyna.Ledger.Invariant.{IsLedger}
use oyna.Ledger.Sample.{noon, tables, tables-IsLedger}
use oyna.Loyalty.State.{Profile, Club}
use oyna.Loyalty.Service.{SessionDebit, on_session_debit}
use oyna.Loyalty.Laws.{plays_in, on_session_debit_once}
use oyna.Loyalty.Statuses.{monthly_drop, maybe_monthly_drop}
use oyna.Loyalty.Statuses.Laws.{recalculated, monthly_drop_lem, maybe_monthly_drop_once}

abbrev regular : Profile
regular = record {
  id = 7;
  nickname = "regular";
  birth_date = none;
  loyalty_status = gold;
  legend_invite = false;
  referred_by_id = some 8;
  is_player = true;
  deleted_at = none;
  total_score = 0;
}

abbrev club : Club
club = record {
  ledger = tables;
  profiles = regular ∷ record regular { id = 8; referred_by_id = none } ∷ [];
  plays = record { user_id = 7; session_id = 3; minutes = 10; played_at = noon } ∷ [];
  visits = [];
  referrals = [];
  drops = [];
}

abbrev debit : SessionDebit
debit = record {
  user_id = 7;
  session_id = 4;
  paid_seconds = 400;
  bonus_seconds = 200;
  manual_seconds = 0;
}

on_session_debit_once_example :
    let after = on_session_debit debit noon club in
    IsLedger after.ledger × (plays_in 4 7 after.plays ≡ 1)
on_session_debit_once_example =
    on_session_debit_once debit noon club tables-IsLedger (omega arith) (omega arith)

monthly_drop_lem_example :
    (monthly_drop noon club).1.profiles ≡ map (recalculated noon club.plays) club.profiles
monthly_drop_lem_example = monthly_drop_lem noon club (((λ e. omega (arith, e)), tt), (tt, tt))

-- Five in the morning and noon of a first of a month, in Almaty.
abbrev five : Date
five = 63942307200000

first_day : (almaty_parts five).day ≡ 1
unfolding almaty_parts march_day year_start march_year
first_day = refl

maybe_monthly_drop_once_example :
    maybe_monthly_drop (five + 25200000) (maybe_monthly_drop five club)
    ≡ maybe_monthly_drop five club
unfolding almaty_parts
maybe_monthly_drop_once_example =
    maybe_monthly_drop_once five (five + 25200000) club first_day (omega arith) refl
