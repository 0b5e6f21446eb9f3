-- ===== src/Ops/Examples.antt =====
-- The theorems on backend/src/ops at concrete sessions.
use oyna.Base.{◌≡◌, inl, refl, false, none, some, [], ◌∷◌, arith}
use oyna.Ops.Compensation.{CompensationInput, game_failure, validate_compensation, IsAllowed}

abbrev broken_game : CompensationInput
broken_game = record {
  minutes = some 20;
  user_ids = 7 ∷ [];
  session_player_ids = 8 ∷ 7 ∷ [];
  reason = game_failure;
  has_comment = false;
  already_compensated = false;
  is_owner = false;
}

broken_game_passes : validate_compensation broken_game ≡ none
unfolding validate_compensation
broken_game_passes = refl

broken_game-IsAllowed : IsAllowed broken_game
broken_game-IsAllowed = record {
  owner = inl refl;
  known = refl;
  explained = inl refl;
  players = omega arith;
  in_session = refl;
  minutes = (20, refl, omega arith, omega arith, refl);
}
