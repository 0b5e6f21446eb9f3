-- ===== src/Sessions/Life/Ending.antt =====
-- `endSession` of backend/src/game-sessions/game-sessions.service.ts with scores, and once more after it.
use oyna.Base.{
  ℕ, ◌+◌, ◌<◌, ◌≡◌, refl, sym, ap, ◌∙◌, subst, inl, inr, Bool, true, false, Bool-cases, is_some,
  Option, none, some, List, [], ◌∷◌, ◌++◌, ◌==◌, ◌&&◌, if◌then◌else◌, every, find, keep, length,
  contains, arith, eq→==, ==→eq, ne→==,
}
use oyna.Base.Find.{find_test}
use oyna.Rules.Calendar.{Date}
use oyna.Ledger.Invariant.{IsLedger}
use oyna.Loyalty.State.{Club}
use oyna.Sessions.State.{
  SessionStatus, active, completed, GameSession, Score, Hall, Outcome, eq_status, session_by_id,
  update_session,
}
use oyna.Sessions.Debit.{debit_balance}
use oyna.Sessions.Debit.Laws.{session-updated, debit_balance-row, debit_balance-scores}
use oyna.Sessions.Life.{
  PlayerScore, EndSession, Ended, is_operator_stop, score_row, write_scores, scores_of,
  end_completed, finished, stop_room, finish, end_of, end_session,
}
use oyna.Sessions.Life.Clock.{find_session-by_id}

abbrev is_of : ℕ → Score → Bool
is_of session_id c = c.session_id == session_id

keep-append_one :
    (id : ℕ) (cs : List Score) (c : Score)
    → c.session_id ≡ id
    → length (keep (is_of id) (cs ++ c ∷ [])) ≡ length (keep (is_of id) cs) + 1
keep-append_one id [] c h = rw (eq→== c.session_id id h) refl
keep-append_one id (d ∷ cs) c h = ground (arith, keep-append_one id cs c h)

-- Writing scores touches no session and no minute, and adds one row for each result.
record IsScored (s : GameSession) (results : List PlayerScore) (hall after : Hall) : Type 0 where
  sessions : after.sessions ≡ hall.sessions
  ledger : after.club.ledger ≡ hall.club.ledger
  rows : length (scores_of s.id after) ≡ length (scores_of s.id hall) + length results

write_scores-IsScored :
    (s : GameSession) (results : List PlayerScore) (hall : Hall)
    → IsScored s results hall (write_scores s results hall)
unfolding write_scores
write_scores-IsScored s [] hall = record { sessions = refl; ledger = refl; rows = omega arith }
write_scores-IsScored s (r ∷ results) hall =
    let p = write_scores-IsScored s results _ in
    record {
      sessions = p.sessions;
      ledger = p.ledger;
      rows = p.rows ∙ omega (arith, keep-append_one s.id hall.scores (score_row s r) refl);
    }

some_results : (results : List PlayerScore) → is_operator_stop results ≡ false → 0 < length results
some_results [] h = cc
some_results (r ∷ results) h = omega arith

-- A hall in which a session is completed and has scores.
record IsOver (id : ℕ) (n : ℕ) (hall : Hall) : Type 0 where
  row : (t : GameSession) × (session_by_id id hall ≡ some t) × (t.status ≡ completed)
  scored : length (scores_of id hall) ≡ n

end_session-found :
    (id : ℕ) (dto : EndSession) (now : Date) (hall : Hall) (s : GameSession)
    → session_by_id id hall ≡ some s
    → end_session id dto now hall ≡ end_of s dto now hall
unfolding end_session
end_session-found id dto now hall s found =
    rw (end_session, find_session-by_id id hall s found) refl

some_scored :
    (t : GameSession) (dto : EndSession) (hall : Hall)
    → 0 < length (scores_of t.id hall)
    → (end_completed t dto hall).1 ≡ hall
unfolding end_completed
some_scored t dto hall h =
    rw (ne→== (length (scores_of t.id hall)) 0 (λ e. omega (arith, h, e))) refl

end_of-completed :
    (t : GameSession) (dto : EndSession) (now : Date) (hall : Hall)
    → eq_status t.status completed ≡ true
    → 0 < length (scores_of t.id hall)
    → (end_of t dto now hall).1 ≡ hall
unfolding end_of
end_of-completed t dto now hall over h =
    elim (Bool-cases (every (λ r. contains r.user_id t.players) dto.results)) [
      | inl ours ↦ rw (ours, over) (some_scored t dto hall h)
      | inr others ↦ rw others refl
    ]

over_again :
    (id n : ℕ) (again : EndSession) (later : Date) (hall : Hall)
    → IsOver id n hall
    → 0 < n
    → (end_session id again later hall).1 ≡ hall
over_again id n again later hall over positive =
    let (t, found, status) = over.row in
    let same : t.id ≡ id = ==→eq t.id id (find_test (λ u. u.id == id) hall.sessions t found) in
    ap (λ (r : Outcome Ended × Hall). r.1) (end_session-found id again later hall t found)
    ∙ end_of-completed t again later hall (ap (λ (c : SessionStatus). eq_status c completed) status)
        (subst (λ (i : ℕ). 0 < length (scores_of i hall)) (sym same)
          (omega (arith, over.scored, positive)))

stop_room-same :
    (s : GameSession) (results : List PlayerScore) (hall : Hall)
    → let h = stop_room s results hall in
      (h.sessions ≡ hall.sessions) × (h.scores ≡ hall.scores) × (h.club ≡ hall.club)
stop_room-same s results hall = go s.engine_session_id
  where
    go :
        (o : Option ℕ)
        → let h = stop_room (record s { engine_session_id = o }) results hall in
          (h.sessions ≡ hall.sessions) × (h.scores ≡ hall.scores) × (h.club ≡ hall.club)
    go none = (refl, refl, refl)
    go (some e) = elim (Bool-cases (is_operator_stop results && eq_status s.status active)) [
      | inl stop ↦ rw stop (refl, refl, refl)
      | inr play ↦ rw play (refl, refl, refl)
    ]

-- The hall when the session is completed and its scores are written.
abbrev scored_hall : GameSession → EndSession → Date → Bool → Hall → Hall
scored_hall s dto now already hall =
    write_scores s dto.results (
      update_session s.id (finished now already dto.duration_seconds)
        (stop_room s dto.results hall))

scored_hall-row :
    (s : GameSession) (dto : EndSession) (now : Date) (already : Bool) (hall : Hall)
    → session_by_id s.id hall ≡ some s
    → session_by_id s.id (scored_hall s dto now already hall)
      ≡ some (finished now already dto.duration_seconds s)
scored_hall-row s dto now already hall found =
    let (sessions, scores, club) = stop_room-same s dto.results hall in
    let stopped = stop_room s dto.results hall in
    let f = finished now already dto.duration_seconds in
    ap (λ (ss : List GameSession). find (λ t. t.id == s.id) ss)
      (write_scores-IsScored s dto.results (update_session s.id f stopped)).sessions
    ∙ session-updated s.id f stopped s (λ t. refl)
        (ap (λ (ss : List GameSession). find (λ t. t.id == s.id) ss) sessions ∙ found)

scored_hall-rows :
    (s : GameSession) (dto : EndSession) (now : Date) (already : Bool) (hall : Hall)
    → length (scores_of s.id (scored_hall s dto now already hall))
      ≡ length (scores_of s.id hall) + length dto.results
scored_hall-rows s dto now already hall =
    let (sessions, scores, club) = stop_room-same s dto.results hall in
    (write_scores-IsScored s dto.results (
      update_session s.id (finished now already dto.duration_seconds)
        (stop_room s dto.results hall))).rows
    ∙ ap (λ (cs : List Score). length (keep (is_of s.id) cs) + length dto.results) scores

scored_hall-books :
    (s : GameSession) (dto : EndSession) (now : Date) (already : Bool) (hall : Hall)
    → IsLedger hall.club.ledger
    → IsLedger (scored_hall s dto now already hall).club.ledger
scored_hall-books s dto now already hall l =
    let (sessions, scores, club) = stop_room-same s dto.results hall in
    subst IsLedger
      (sym (
        (write_scores-IsScored s dto.results (
          update_session s.id (finished now already dto.duration_seconds)
            (stop_room s dto.results hall))).ledger
        ∙ ap (λ (c : Club). c.ledger) club))
      l

finish-scored :
    (s : GameSession) (dto : EndSession) (now : Date) (hall : Hall)
    → is_operator_stop dto.results ≡ false
    → (finish s dto now hall).1 ≡ (
        let already = is_some s.balance_debited_at in
        let scored = scored_hall s dto now already hall in
        if already then scored else (debit_balance s.id now scored).1)
unfolding finish
finish-scored s dto now hall real = rw real refl

finish-IsOver :
    (s : GameSession) (dto : EndSession) (now : Date) (hall : Hall)
    → IsLedger hall.club.ledger
    → session_by_id s.id hall ≡ some s
    → is_operator_stop dto.results ≡ false
    → IsOver s.id (length (scores_of s.id hall) + length dto.results) (finish s dto now hall).1
finish-IsOver s dto now hall l found real =
    subst (IsOver s.id (length (scores_of s.id hall) + length dto.results))
      (sym (finish-scored s dto now hall real)) (go s.balance_debited_at refl)
  where
    go :
        (o : Option Date)
        → s.balance_debited_at ≡ o
        → IsOver s.id (length (scores_of s.id hall) + length dto.results) (
            if is_some o
            then scored_hall s dto now (is_some o) hall
            else (debit_balance s.id now (scored_hall s dto now (is_some o) hall)).1)
    go (some at) e = record {
      row = (_, scored_hall-row s dto now true hall found, refl);
      scored = scored_hall-rows s dto now true hall;
    }
    go none e =
        let scored = scored_hall s dto now false hall in
        let t = finished now false dto.duration_seconds s in
        let books = scored_hall-books s dto now false hall l in
        let row = scored_hall-row s dto now false hall found in
        record {
          row = (_, debit_balance-row s.id now scored t books row e, refl);
          scored =
              ap (λ (cs : List Score). length (keep (is_of s.id) cs))
                (debit_balance-scores s.id now scored t books row e)
              ∙ scored_hall-rows s dto now false hall;
        }

end_of-running :
    (s : GameSession) (dto : EndSession) (now : Date) (hall : Hall)
    → eq_status s.status completed ≡ false
    → every (λ r. contains r.user_id s.players) dto.results ≡ true
    → (end_of s dto now hall).1 ≡ (finish s dto now hall).1
unfolding end_of
end_of-running s dto now hall open_yet ours = rw (ours, open_yet) refl

-- Where the ledger's books balance, ending a session, found by its id and not completed, with
-- results of its own players that are not all zero, completes it and adds one score for each
-- result; whatever ends it again changes nothing.
pub end_session_final :
    (id : ℕ) (dto again : EndSession) (now later : Date) (hall : Hall) (s : GameSession)
    → IsLedger hall.club.ledger
    → session_by_id id hall ≡ some s
    → eq_status s.status completed ≡ false
    → every (λ r. contains r.user_id s.players) dto.results ≡ true
    → is_operator_stop dto.results ≡ false
    → let after = (end_session id dto now hall).1 in
      ((t : GameSession) × (session_by_id id after ≡ some t) × (t.status ≡ completed))
      × (length (scores_of id after) ≡ length (scores_of id hall) + length dto.results)
      × ((end_session id again later after).1 ≡ after)
end_session_final id dto again now later hall s l found open_yet ours real =
    let same : s.id ≡ id = ==→eq s.id id (find_test (λ u. u.id == id) hall.sessions s found) in
    let n = length (scores_of id hall) + length dto.results in
    let ended : (finish s dto now hall).1 ≡ (end_session id dto now hall).1 = sym (
      ap (λ (r : Outcome Ended × Hall). r.1) (end_session-found id dto now hall s found)
      ∙ end_of-running s dto now hall open_yet ours) in
    let over : IsOver id n (end_session id dto now hall).1 = subst (IsOver id n) ended (
      subst
        (λ (i : ℕ).
          IsOver i (length (scores_of i hall) + length dto.results) (finish s dto now hall).1)
        same
        (finish-IsOver s dto now hall l
          (subst (λ (i : ℕ). session_by_id i hall ≡ some s) (sym same) found) real)) in
    (
      over.row,
      over.scored,
      over_again id n again later (end_session id dto now hall).1 over
          (omega (arith, some_results dto.results real)),
    )
