-- ===== src/Sessions/Service.antt =====
-- The handlers of backend/src/game-sessions/game-sessions.service.ts. A handler reads the clock once.
use oyna.Base.{
  ℕ, ◌+◌, ◌/◌, Bool, true, false, ◌||◌, not, Option, none, some, List, [], ◌∷◌, ◌++◌, ltb, leb,
  ◌==◌, if◌then◌else◌, find, length, max, unique,
}
use oyna.Rules.Calendar.{Date}
use oyna.Ledger.State.{balance_of}
use oyna.Ledger.Ops.{user_blocked}
use oyna.Ledger.Service.{prepare_balance}
use oyna.Sessions.State.{
  pending, Room, GameMode, GameSession, CommandType, Command, dev_select, lobby_add_player, Hall,
  SessionError, no_room, no_mode, other_room, player_count, blocked_player, no_minutes, same_player,
  Outcome, done, failed, session_by_id, session_by_token, enqueue,
}

abbrev pub min_balance_seconds : ℕ
min_balance_seconds = 600

pub record Limits : Type 0 where
  pub least : ℕ
  pub most : ℕ

-- A limit below one, or none, leaves the default.
abbrev pub limit_or : Option ℕ → ℕ → ℕ
limit_or none default = default
limit_or (some n) default = if leb 1 n then n else default

unfoldable pub mode_player_limits : GameMode → Limits
mode_player_limits mode =
    let least = limit_or mode.min_players 1 in
    record { least = least; most = max (limit_or mode.max_players 16) least }

unfoldable pub find_session : ℕ → Hall → Option GameSession
find_session id_or_token hall = elim (session_by_id id_or_token hall) [
  | some s ↦ some s
  | none ↦ session_by_token id_or_token hall
]

pub record StartSession : Type 0 where
  pub room_id : ℕ
  pub mode_id : ℕ
  pub venue_id : ℕ
  pub player_ids : List ℕ

-- The loop over the players: each one's balance is prepared, and the first who may not play ends it.
unfoldable pub check_players : List ℕ → Date → Hall → Option SessionError × Hall
check_players [] now hall = (none, hall)
check_players (player_id ∷ player_ids) now hall =
    let db = hall.club.ledger in
    let (seconds, db') = prepare_balance player_id now db in
    let prepared = record hall { club = record hall.club { ledger = db' } } in
    let rest = check_players player_ids now prepared in
    if user_blocked (find (λ u. u.id == player_id) db.users) now
    then (some blocked_player, hall)
    else if ltb seconds min_balance_seconds
    then (some no_minutes, prepared)
    else rest

abbrev pub new_session : StartSession → ℕ → Date → ℕ → GameSession
new_session dto token now id = record {
  id = id;
  room_id = dto.room_id;
  mode_id = dto.mode_id;
  venue_id = dto.venue_id;
  session_token = token;
  engine_session_id = none;
  start_time = none;
  end_time = none;
  paused_at = none;
  deducted_seconds = 0;
  balance_debited_at = none;
  paid_seconds_debited = 0;
  bonus_seconds_debited = 0;
  counts_for_rating = true;
  is_tournament = false;
  status = pending;
  created_at = now;
  players = dto.player_ids;
}

abbrev pub command : GameSession → CommandType → Command
command s type = record { room_id = s.room_id; type = type; session_id = s.id }

-- The mode is selected in virtual rooms only.
abbrev pub select_mode : Bool → GameMode → GameSession → Hall → Hall
select_mode use_dev mode s hall = elim mode.engine_mode_id [
  | none ↦ hall
  | some engine_id ↦ if use_dev then enqueue (command s (dev_select engine_id)) hall else hall
]

abbrev pub minutes_left : ℕ → Hall → Option ℕ
minutes_left user_id hall = elim (balance_of user_id hall.club.ledger.balances) [
  | none ↦ none
  | some b ↦ some (b.available_seconds / 60)
]

unfoldable pub seat_players : GameSession → List ℕ → Hall → Hall
seat_players s [] hall = hall
seat_players s (user_id ∷ user_ids) hall =
    seat_players s user_ids
      (enqueue (command s (lobby_add_player user_id (minutes_left user_id hall))) hall)

-- The session is created, and its players are seated; a player may be in it once.
unfoldable pub open_session :
    StartSession → Room → GameMode → ℕ → Date → Hall → Outcome GameSession × Hall
open_session dto room mode token now hall =
    let s = new_session dto token now hall.next_id in
    let created = record hall { sessions = hall.sessions ++ s ∷ []; next_id = hall.next_id + 1 } in
    if not (length (unique dto.player_ids) == length dto.player_ids)
    then (failed same_player, hall)
    else (done s, seat_players s s.players (select_mode room.use_dev_commands mode s created))

abbrev pub after_check :
    StartSession
    → Room
    → GameMode
    → ℕ
    → Date
    → Option SessionError × Hall
    → Outcome GameSession × Hall
after_check dto room mode token now (some e, hall) = (failed e, hall)
after_check dto room mode token now (none, hall) = open_session dto room mode token now hall

unfoldable pub start_in :
    StartSession → Room → GameMode → ℕ → Date → Hall → Outcome GameSession × Hall
start_in dto room mode token now hall =
    let limits = mode_player_limits mode in
    let count = length dto.player_ids in
    if not (mode.room_id == dto.room_id)
    then (failed other_room, hall)
    else if ltb count limits.least || ltb limits.most count
    then (failed player_count, hall)
    else after_check dto room mode token now (check_players dto.player_ids now hall)

-- `token`: 32 random bytes.
unfoldable pub start_session : StartSession → ℕ → Date → Hall → Outcome GameSession × Hall
start_session dto token now hall = elim (find (λ r. r.id == dto.room_id) hall.rooms) [
  | none ↦ (failed no_room, hall)
  | some room ↦ elim (find (λ m. m.id == dto.mode_id) hall.modes) [
    | none ↦ (failed no_mode, hall)
    | some mode ↦ start_in dto room mode token now hall
  ]
]
