-- ===== src/Balance/Examples.antt =====
-- The theorem on backend/src/balance/balance.service.ts at a till with one venue.
use oyna.Base.{true, false, none, some, [], ◌∷◌}
use oyna.Rules.Tier.{silver}
use oyna.Ledger.Sample.{tables}
use oyna.Balance.{Till, TopupDto}

abbrev till : Till
till = record {
  ledger = tables;
  profiles =
      record {
        id = 7;
        nickname = "player";
        birth_date = none;
        loyalty_status = silver;
        legend_invite = false;
        referred_by_id = none;
        is_player = true;
        deleted_at = none;
        total_score = 0;
      }
      ∷ [];
  transactions = [];
  venues = 1 ∷ [];
  rooms = [];
  open_shifts = 1 ∷ [];
  next_id = 100;
}

abbrev hour_with_bonus : TopupDto
hour_with_bonus = record {
  user_id = 7;
  seconds = 4200;
  bonus_seconds = some 600;
  amount_tenge = 5000;
  venue_id = some 1;
  description = none;
}
