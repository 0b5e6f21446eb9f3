-- ===== src/Sessions/State.antt =====
-- The tables that backend/src/game-sessions/game-sessions.service.ts reads and writes, beside those of the
-- ledger and of the loyalty service. A session's id and its token are numbers of one kind.
use oyna.Base.{String, ℕ, Bool, true, false, Option, List, [], ◌∷◌, ◌++◌, ◌==◌, find, update_where}
use oyna.Base.Int.{ℤ}
use oyna.Rules.Calendar.{Date}
use oyna.Loyalty.State.{Club}

pub data SessionStatus : Type 0 where
  pending active completed error cancelled : SessionStatus

pub record Room : Type 0 where
  pub id : ℕ
  pub use_dev_commands : Bool

-- `config`: the two limits, where they are numbers, in either spelling, cut to whole ones.
pub record GameMode : Type 0 where
  pub id : ℕ
  pub room_id : ℕ
  pub min_players : Option ℕ
  pub max_players : Option ℕ
  pub engine_mode_id : Option ℕ

pub record GameSession : Type 0 where
  pub id : ℕ
  pub room_id : ℕ
  pub mode_id : ℕ
  pub venue_id : ℕ
  pub session_token : ℕ
  pub engine_session_id : Option ℕ
  pub start_time : Option Date
  pub end_time : Option Date
  pub paused_at : Option Date
  pub deducted_seconds : ℕ
  pub balance_debited_at : Option Date
  pub paid_seconds_debited : ℕ
  pub bonus_seconds_debited : ℕ
  pub counts_for_rating : Bool
  pub is_tournament : Bool
  pub status : SessionStatus
  pub created_at : Date
  pub players : List ℕ

pub record Score : Type 0 where
  pub user_id : ℕ
  pub session_id : ℕ
  pub room_id : ℕ
  pub mode_id : ℕ
  pub score : ℕ

pub data TransactionType : Type 0 where
  purchase bonus_grant game_debit : TransactionType

-- The texts of the descriptions, by their variable parts.
pub data Description : Type 0 where
  session_debit : ℕ → ℕ → Description
  given : String → Description
  topup_of : ℕ → ℕ → Description
  bonus_part : ℕ → Description → Description
  guest_sale_of : String → Option String → ℕ → String → Description
  balance_debit : String → Description

pub record Transaction : Type 0 where
  pub id : ℕ
  pub user_id : Option ℕ
  pub type : TransactionType
  pub amount_tenge : ℕ
  pub equivalent_seconds : ℤ
  pub venue_id : Option ℕ
  pub description : Description

-- The commands to a room's agent. Of what goes with a player into the lobby, the minutes that are
-- left are kept here; the rating and the open levels are only shown there.
pub data CommandType : Type 0 where
  dev_select : ℕ → CommandType
  dev_start : CommandType
  lobby_add_player : ℕ → Option ℕ → CommandType
  lobby_remove_player : ℕ → CommandType
  session_stop : ℕ → CommandType

pub record Command : Type 0 where
  pub room_id : ℕ
  pub type : CommandType
  pub session_id : ℕ

pub record Hall : Type 0 where
  pub club : Club
  pub rooms : List Room
  pub modes : List GameMode
  pub sessions : List GameSession
  pub scores : List Score
  pub transactions : List Transaction
  pub commands : List Command
  pub next_id : ℕ

-- The texts of the exceptions.
pub data SessionError : Type 0 where
  no_room no_mode other_room : SessionError
  player_count blocked_player no_minutes same_player : SessionError
  no_session not_pending hud_only not_active no_start already_paused not_paused : SessionError
  not_a_player : SessionError

pub data Outcome {ℓ} (A : Type ℓ) : Type ℓ where
  done : A → Outcome A
  failed : SessionError → Outcome A

abbrev pub eq_status : SessionStatus → SessionStatus → Bool
eq_status pending pending = true
eq_status active active = true
eq_status completed completed = true
eq_status error error = true
eq_status cancelled cancelled = true
eq_status _ _ = false

abbrev pub session_by_id : ℕ → Hall → Option GameSession
session_by_id id hall = find (λ s. s.id == id) hall.sessions

abbrev pub session_by_token : ℕ → Hall → Option GameSession
session_by_token token hall = find (λ s. s.session_token == token) hall.sessions

-- `gameSession.update` by id
abbrev pub update_session : ℕ → (GameSession → GameSession) → Hall → Hall
update_session id f hall = record hall { sessions = update_where (λ s. s.id == id) f hall.sessions }

abbrev pub enqueue : Command → Hall → Hall
enqueue command hall = record hall { commands = hall.commands ++ command ∷ [] }
