-- ===== src/Sessions/Life.antt =====
-- The handlers of backend/src/game-sessions/game-sessions.service.ts that start, pause, cancel and end a session.
pub mod Clock
pub mod Ending
use oyna.Base.{
  ℕ, ◌+◌, ◌-◌, Bool, true, false, ◌&&◌, ◌||◌, not, is_some, Option, none, some, List, [], ◌∷◌, ◌++◌,
  ltb, ◌==◌, if◌then◌else◌, every, find, keep, length, contains,
}
use oyna.Rules.Calendar.{Date}
use oyna.Loyalty.State.{Profile, update_profile}
use oyna.Sessions.State.{
  SessionStatus, pending, active, completed, error, cancelled, GameSession, Score, dev_start,
  lobby_remove_player, session_stop, Hall, no_session, not_pending, hud_only, not_active, no_start,
  already_paused, not_paused, not_a_player, Outcome, done, failed, eq_status, session_by_token,
  update_session, enqueue,
}
use oyna.Sessions.Service.{find_session, command, select_mode}
use oyna.Sessions.Debit.{debit_balance}

-- A room or a mode that a session names exists.
abbrev pub room_uses_dev : ℕ → Hall → Bool
room_uses_dev room_id hall = elim (find (λ r. r.id == room_id) hall.rooms) [
  | none ↦ false
  | some r ↦ r.use_dev_commands
]

abbrev pub select_of : GameSession → Hall → Hall
select_of s hall = elim (find (λ m. m.id == s.mode_id) hall.modes) [
  | none ↦ hall
  | some mode ↦ select_mode true mode s hall
]

abbrev pub activated : Date → GameSession → GameSession
activated now s = record s { status = active; start_time = some now }

unfoldable pub activate_of : GameSession → Date → Hall → Outcome GameSession × Hall
activate_of s now hall =
    let h = update_session s.id (activated now) hall in
    if not (eq_status s.status pending)
    then (failed not_pending, hall)
    else if not (room_uses_dev s.room_id hall)
    then (failed hud_only, hall)
    else (done (activated now s), enqueue (command s dev_start) (select_of s h))

unfoldable pub activate_session : ℕ → Date → Hall → Outcome GameSession × Hall
activate_session session_token now hall = elim (session_by_token session_token hall) [
  | none ↦ (failed no_session, hall)
  | some s ↦ activate_of s now hall
]

abbrev pub with_pause : Option Date → GameSession → GameSession
with_pause at s = record s { paused_at = at }

unfoldable pub pause_of : GameSession → Date → Hall → Outcome GameSession × Hall
pause_of s now hall =
    if not (eq_status s.status active)
    then (failed not_active, hall)
    else if not (is_some s.start_time)
    then (failed no_start, hall)
    else if is_some s.paused_at
    then (failed already_paused, hall)
    else (done (with_pause (some now) s), update_session s.id (with_pause (some now)) hall)

unfoldable pub pause_session : ℕ → Date → Hall → Outcome GameSession × Hall
pause_session session_id now hall = elim (find_session session_id hall) [
  | none ↦ (failed no_session, hall)
  | some s ↦ pause_of s now hall
]

abbrev pub restarted : Date → GameSession → GameSession
restarted start s = record s { paused_at = none; start_time = some start }

-- The clock does not run backwards: `now` is not before the pause.
abbrev pub resumed :
    GameSession → Option Date → Option Date → Date → Hall → Outcome GameSession × Hall
resumed s (some start) (some paused) now hall =
    let start' = start + (now - paused) in
    (done (restarted start' s), update_session s.id (restarted start') hall)
resumed s _ _ now hall = (failed not_paused, hall)

unfoldable pub resume_of : GameSession → Date → Hall → Outcome GameSession × Hall
resume_of s now hall =
    if not (eq_status s.status active)
    then (failed not_active, hall)
    else resumed s s.start_time s.paused_at now hall

unfoldable pub resume_session : ℕ → Date → Hall → Outcome GameSession × Hall
resume_session session_id now hall = elim (find_session session_id hall) [
  | none ↦ (failed no_session, hall)
  | some s ↦ resume_of s now hall
]

unfoldable pub unseat_players : GameSession → List ℕ → Hall → Hall
unseat_players s [] hall = hall
unseat_players s (user_id ∷ user_ids) hall =
    unseat_players s user_ids (enqueue (command s (lobby_remove_player user_id)) hall)

abbrev pub with_status : SessionStatus → GameSession → GameSession
with_status status s = record s { status = status }

unfoldable pub cancel_of : GameSession → Hall → Outcome GameSession × Hall
cancel_of s hall = if not (eq_status s.status pending) then (failed not_pending, hall) else (
  done (with_status cancelled s),
  update_session s.id (with_status cancelled) (unseat_players s s.players hall),
)

unfoldable pub cancel_pending : ℕ → Hall → Outcome GameSession × Hall
cancel_pending session_id hall = elim (find_session session_id hall) [
  | none ↦ (failed no_session, hall)
  | some s ↦ cancel_of s hall
]

-- A session that is over, or has waited for ten minutes, is not shown.
unfoldable pub find_by_token : ℕ → Date → Hall → Option GameSession
find_by_token session_token now hall = elim (session_by_token session_token hall) [
  | none ↦ none
  | some s ↦
      let dead =
        eq_status s.status completed || eq_status s.status cancelled || eq_status s.status error in
      let waited = eq_status s.status pending && ltb 600000 (now - s.created_at) in
      if dead || waited then none else some s
]

pub record PlayerScore : Type 0 where
  pub user_id : ℕ
  pub score : ℕ

pub record EndSession : Type 0 where
  pub results : List PlayerScore
  pub duration_seconds : ℕ

pub record Ended : Type 0 where
  pub session_id : ℕ
  pub deducted_seconds : ℕ
  pub scores : List PlayerScore
  pub late_scores_applied : Bool

-- No results, or zeros only: the operator's stop.
abbrev pub is_operator_stop : List PlayerScore → Bool
is_operator_stop results = every (λ r. r.score == 0) results

abbrev pub score_row : GameSession → PlayerScore → Score
score_row s r = record {
  user_id = r.user_id;
  session_id = s.id;
  room_id = s.room_id;
  mode_id = s.mode_id;
  score = r.score;
}

abbrev pub add_score : ℕ → Profile → Profile
add_score n p = record p { total_score = p.total_score + n }

-- A score of zero adds nothing to the total.
unfoldable pub write_scores : GameSession → List PlayerScore → Hall → Hall
write_scores s [] hall = hall
write_scores s (r ∷ results) hall = write_scores s results (record hall {
  scores = hall.scores ++ score_row s r ∷ [];
  club = record hall.club {
    profiles = update_profile r.user_id (add_score r.score) hall.club.profiles;
  };
})

abbrev pub scores_of : ℕ → Hall → List Score
scores_of session_id hall = keep (λ c. c.session_id == session_id) hall.scores

abbrev pub to_result : Score → PlayerScore
to_result c = record { user_id = c.user_id; score = c.score }

-- A session that is completed: real scores that come late are written, if none are there.
unfoldable pub end_completed : GameSession → EndSession → Hall → Ended × Hall
end_completed s dto hall =
    let existing = scores_of s.id hall in
    let late = length existing == 0 && not (is_operator_stop dto.results) in
    (
      record {
        session_id = s.id;
        deducted_seconds = s.deducted_seconds;
        scores = if late then dto.results else mapped existing;
        late_scores_applied = late;
      },
      if late then write_scores s dto.results hall else hall,
    )
  where
    mapped : List Score → List PlayerScore
    mapped [] = []
    mapped (c ∷ cs) = to_result c ∷ mapped cs

abbrev pub finished : Date → Bool → ℕ → GameSession → GameSession
finished now already_debited duration s = record s {
  status = completed;
  end_time = some now;
  deducted_seconds = if already_debited then s.deducted_seconds else duration;
}

-- The room is asked to stop, if the operator ends a running game of the engine.
abbrev pub stop_room : GameSession → List PlayerScore → Hall → Hall
stop_room s results hall = elim s.engine_session_id [
  | none ↦ hall
  | some engine_id ↦
      if is_operator_stop results && eq_status s.status active
      then enqueue (command s (session_stop engine_id)) hall
      else hall
]

unfoldable pub finish : GameSession → EndSession → Date → Hall → Ended × Hall
finish s dto now hall =
    let already = is_some s.balance_debited_at in
    let stop = is_operator_stop dto.results in
    let h =
      update_session s.id (finished now already dto.duration_seconds)
        (stop_room s dto.results hall) in
    let scored = if stop then h else write_scores s dto.results h in
    (
      record {
        session_id = s.id;
        deducted_seconds = (finished now already dto.duration_seconds s).deducted_seconds;
        scores = if stop then [] else dto.results;
        late_scores_applied = false;
      },
      if already then scored else (debit_balance s.id now scored).1,
    )

unfoldable pub end_of : GameSession → EndSession → Date → Hall → Outcome Ended × Hall
end_of s dto now hall =
    let (a, h) = end_completed s dto hall in
    let (b, k) = finish s dto now hall in
    if not (every (λ r. contains r.user_id s.players) dto.results)
    then (failed not_a_player, hall)
    else if eq_status s.status completed
    then (done a, h)
    else (done b, k)

unfoldable pub end_session : ℕ → EndSession → Date → Hall → Outcome Ended × Hall
end_session session_id dto now hall = elim (find_session session_id hall) [
  | none ↦ (failed no_session, hall)
  | some s ↦ end_of s dto now hall
]
