-- ===== src/Ops/Outcome.antt =====
-- backend/src/ops/session-outcome.ts: how the journal calls the end of a session.
use oyna.Base.{
  ℕ, ◌+◌, ◌*◌, ◌≤◌, ◌<◌, ◌≡◌, ◌↔◌, Bool, true, false, ◌&&◌, is_some, Option, none, some, ltb,
  if◌then◌else◌, arith,
}
use oyna.Rules.Calendar.{Date}
use oyna.Sessions.State.{SessionStatus, pending, active, completed, error, cancelled}

pub data SessionOutcome : Type 0 where
  is_pending is_active is_completed is_interrupted is_compensated is_cancelled : SessionOutcome

pub record JournalRow : Type 0 where
  pub status : SessionStatus
  pub start_time : Option Date
  pub end_time : Option Date
  pub deducted_seconds : ℕ
  pub compensated_at : Option Date

abbrev pub early_stop_grace_seconds : ℕ
early_stop_grace_seconds = 60

-- `played < deducted - 60`, in milliseconds, with the subtractions brought to the other sides.
abbrev pub stopped_early : ℕ → Option Date → Option Date → Bool
stopped_early deducted (some start) (some stop) =
    ltb 0 deducted && ltb (stop + early_stop_grace_seconds * 1000) (start + deducted * 1000)
stopped_early deducted _ _ = false

abbrev pub outcome_of : SessionStatus → Bool → SessionOutcome
outcome_of pending early = is_pending
outcome_of active early = is_active
outcome_of cancelled early = is_cancelled
outcome_of error early = is_interrupted
outcome_of completed true = is_interrupted
outcome_of completed false = is_completed

unfoldable pub session_outcome : JournalRow → SessionOutcome
session_outcome row =
    if is_some row.compensated_at
    then is_compensated
    else outcome_of row.status (stopped_early row.deducted_seconds row.start_time row.end_time)

-- A completed session without a compensation that ended not before its start is called
-- interrupted exactly if it was played for less than the paid time by more than the grace of a
-- minute.
pub session_outcome_interrupted :
    (start stop : Date) (paid : ℕ)
    → start ≤ stop
    → session_outcome (record {
      status = completed;
      start_time = some start;
      end_time = some stop;
      deducted_seconds = paid;
      compensated_at = none;
    })
        ≡ is_interrupted
      ↔ stop + 60000 < start + paid * 1000
unfolding session_outcome
session_outcome_interrupted start stop paid h = ground (arith, h)
