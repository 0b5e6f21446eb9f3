-- ===== src/Sessions/Life/Clock.antt =====
-- Pause and resumption in backend/src/game-sessions/game-sessions.service.ts.
use oyna.Base.{ℕ, ◌+◌, ◌-◌, ◌≤◌, ◌≡◌, refl, sym, ap, ◌∙◌, Option, none, some, arith}
use oyna.Rules.Calendar.{Date}
use oyna.Sessions.State.{active, GameSession, Hall, done, session_by_id, update_session}
use oyna.Sessions.Service.{find_session}
use oyna.Sessions.Debit.Laws.{session-updated}
use oyna.Sessions.Life.{with_pause, pause_of, pause_session, restarted, resume_of, resume_session}

pub find_session-by_id :
    (id : ℕ) (hall : Hall) (s : GameSession)
    → session_by_id id hall ≡ some s
    → find_session id hall ≡ some s
unfolding find_session
find_session-by_id id hall s h = rw (find_session, h) refl

pause_session-ok :
    (id : ℕ) (at start : Date) (hall : Hall) (s : GameSession)
    → session_by_id id hall ≡ some s
    → s.status ≡ active
    → s.start_time ≡ some start
    → s.paused_at ≡ none
    → pause_session id at hall
      ≡ (done (with_pause (some at) s), update_session s.id (with_pause (some at)) hall)
unfolding pause_session pause_of
pause_session-ok id at start hall s found running started unpaused =
    rw (pause_session, find_session-by_id id hall s found, running, started, unpaused) refl

resume_session-ok :
    (id : ℕ) (now at start : Date) (hall : Hall) (s : GameSession)
    → session_by_id id hall ≡ some s
    → s.status ≡ active
    → s.start_time ≡ some start
    → s.paused_at ≡ some at
    → resume_session id now hall ≡ (
      done (restarted (start + (now - at)) s),
      update_session s.id (restarted (start + (now - at))) hall,
    )
unfolding resume_session resume_of
resume_session-ok id now at start hall s found running started paused =
    rw (resume_session, find_session-by_id id hall s found, running, started, paused) refl

-- A running session, found by its id, started and not paused, that is paused and later resumed,
-- has been played for as long at the resumption as it had at the pause; nothing else of its row
-- has changed. The pause is not before the start, nor the resumption before the pause.
pub pause-resume_session :
    (id : ℕ) (at now start : Date) (hall : Hall) (s : GameSession)
    → session_by_id id hall ≡ some s
    → s.status ≡ active
    → s.start_time ≡ some start
    → s.paused_at ≡ none
    → start ≤ at
    → at ≤ now
    → let after = (resume_session id now (pause_session id at hall).1).1 in
      (restart : Date) × (session_by_id id after ≡ some (record s { start_time = some restart }))
      × (now - restart ≡ at - start)
pause-resume_session id at now start hall s found running started unpaused before later =
    let p = pause_session-ok id at start hall s found running started unpaused in
    let paused = update_session s.id (with_pause (some at)) hall in
    let row = session-updated id (with_pause (some at)) hall s (λ t. refl) found in
    let restart = start + (now - at) in
    let r =
      resume_session-ok id now at start paused (with_pause (some at) s) row running started refl in
    (
      restart,
      rw (p, r)
          (session-updated id (restarted restart) paused (with_pause (some at) s) (λ t. refl) row
            ∙ ap some (same_row s unpaused restart)),
      omega (arith, before, later),
    )
  where
    same_row :
        (s : GameSession)
        → s.paused_at ≡ none
        → (restart : Date)
        → restarted restart (with_pause (some at) s) ≡ record s { start_time = some restart }
    same_row s h restart =
        ap (λ (o : Option Date). record s { paused_at = o; start_time = some restart }) (sym h)
