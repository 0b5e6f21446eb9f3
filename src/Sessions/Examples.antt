-- ===== src/Sessions/Examples.antt =====
-- The theorems on backend/src/game-sessions/game-sessions.service.ts at a hall with one room.
use oyna.Base.{◌+◌, ◌-◌, ◌*◌, ◌≤◌, ◌≡◌, refl, true, false, none, some, [], ◌∷◌, length, arith}
use oyna.Rules.Tier.{bronze}
use oyna.Rules.Calendar.{Date}
use oyna.Ledger.Invariant.{IsLedger}
use oyna.Ledger.Sample.{noon, tables, tables-IsLedger}
use oyna.Sessions.State.{active, completed, GameSession, Hall, done, session_by_id}
use oyna.Sessions.Debit.{debit_balance}
use oyna.Sessions.Debit.Laws.{charged, debited_row, debit_balance_once}
use oyna.Sessions.Life.{EndSession, scores_of, pause_session, resume_session, end_session}
use oyna.Sessions.Life.Clock.{pause-resume_session}
use oyna.Sessions.Life.Ending.{end_session_final}

abbrev game : GameSession
game = record {
  id = 50;
  room_id = 1;
  mode_id = 2;
  venue_id = 3;
  session_token = 51;
  engine_session_id = some 9;
  start_time = some noon;
  end_time = none;
  paused_at = none;
  deducted_seconds = 0;
  balance_debited_at = none;
  paid_seconds_debited = 0;
  bonus_seconds_debited = 0;
  counts_for_rating = true;
  is_tournament = false;
  status = active;
  created_at = noon;
  players = 7 ∷ 8 ∷ [];
}

abbrev hall : Hall
hall = record {
  club = record {
    ledger = tables;
    profiles =
        record {
          id = 7;
          nickname = "player";
          birth_date = none;
          loyalty_status = bronze;
          legend_invite = false;
          referred_by_id = none;
          is_player = true;
          deleted_at = none;
          total_score = 0;
        }
        ∷ [];
    plays = [];
    visits = [];
    referrals = [];
    drops = [];
  };
  rooms = record { id = 1; use_dev_commands = true } ∷ [];
  modes =
      record {
        id = 2;
        room_id = 1;
        min_players = some 1;
        max_players = some 4;
        engine_mode_id = some 5;
      }
      ∷ [];
  sessions = game ∷ [];
  scores = [];
  transactions = [];
  commands = [];
  next_id = 60;
}

debit_balance_once_example :
    let after = (debit_balance 50 noon hall).1 in
    let row = debited_row game noon (charged game noon hall).0 in
    IsLedger after.club.ledger
    × (session_by_id 50 after ≡ some row)
    × (row.paid_seconds_debited + row.bonus_seconds_debited + 600 * length hall.transactions
        ≤ 600 * length after.transactions)
    × (debit_balance 50 (noon + 9) after
        ≡ (done (record { already_debited = true; deducted_seconds = 600 }), after))
debit_balance_once_example =
    debit_balance_once 50 noon (noon + 9) hall game tables-IsLedger refl refl

pause-resume_session_example :
    let after = (resume_session 50 (noon + 9000) (pause_session 50 (noon + 5000) hall).1).1 in
    (restart : Date) × (session_by_id 50 after ≡ some (record game { start_time = some restart }))
    × (noon + 9000 - restart ≡ noon + 5000 - noon)
pause-resume_session_example =
    pause-resume_session 50 (noon + 5000) (noon + 9000) noon hall game refl refl refl refl
      (omega arith) (omega arith)

abbrev results : EndSession
results = record {
  results = record { user_id = 7; score = 40 } ∷ record { user_id = 8; score = 0 } ∷ [];
  duration_seconds = 180;
}

end_session_final_example :
    let after = (end_session 50 results noon hall).1 in
    ((t : GameSession) × (session_by_id 50 after ≡ some t) × (t.status ≡ completed))
    × (length (scores_of 50 after) ≡ length (scores_of 50 hall) + length results.results)
    × ((end_session 50 results (noon + 9) after).1 ≡ after)
end_session_final_example =
    end_session_final 50 results results noon (noon + 9) hall game tables-IsLedger refl refl refl
      refl
