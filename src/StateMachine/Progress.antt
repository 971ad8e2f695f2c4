-- ===== src/StateMachine/Progress.antt =====
-- Runs of the operations of state_machine.py as a step relation: how far a run can go.
use i_promise.Base.{
  ℕ, suc, ◌+◌, ◌≤◌, ◌<◌, ◌≡◌, ◌≢◌, refl, ap, Bool, true, false, String, [], ◌∷◌, ◌++◌, arith,
  Bool-cases, inl, inr, string_eq,
}
use i_promise.Lists.{last?-snoc, last?-update_last}
use i_promise.Models.{
  AuditRun, RunEvent, RunStatus, received, capturing, compiling, binding, probing, evaluating,
  remediating, verifying, routing_action, complete, failed_retryable, failed_safe, is_running,
  status_value,
}
use i_promise.Models
use i_promise.Errors.{ok}
use i_promise.StateMachine.{
  start_stage, finish_stage, fail_run, fail_events, last_is_running, event_is_running, is_terminal,
  is_failure, close_event, failure_limitation,
}
use i_promise.StateMachine.Trail.{
  Extends, Extends-refl, Extends-trans, start_stage-Extends, finish_stage-Extends, fail_run-Extends,
}

-- One successful call of an operation.
pub data Step (run after : AuditRun) : Type 0 where
  started :
      (now : ℕ) (status : RunStatus) (title detail system : String)
      → start_stage now run status title detail system ≡ ok after
      → Step run after
  finished : (now : ℕ) (detail : String) → finish_stage now run detail ≡ ok after → Step run after
  failed :
      (now : ℕ) (status : RunStatus) (detail : String) (retryable uncertain : Bool)
      → fail_run now run status detail retryable uncertain ≡ ok after
      → Step run after

pub data Reach (run : AuditRun) : AuditRun → Type 0 where
  here : Reach run run
  next : {mid after : AuditRun} → Reach run mid → Step mid after → Reach run after

-- The number of stages that were started on the way.
abbrev pub starts : {run after : AuditRun} → Reach run after → ℕ
starts here = 0
starts (next r (started now status title detail system h)) = suc (starts r)
starts (next r (finished now detail h)) = starts r
starts (next r (failed now status detail retryable uncertain h)) = starts r

-- How far along the longest way through the stages a status lies.
abbrev pub rank : RunStatus → ℕ
rank received = 0
rank capturing = 1
rank compiling = 2
rank binding = 3
rank probing = 4
rank evaluating = 5
rank remediating = 6
rank verifying = 7
rank routing_action = 8
rank complete = 9
rank failed_retryable = 9
rank failed_safe = 9

rank-le : (status : RunStatus) → rank status ≤ 9
rank-le received = omega arith
rank-le _ = omega arith

-- Starting a stage sets the status that was asked for, further along.
pub start_stage-rank :
    (now : ℕ) (run : AuditRun) (status : RunStatus) (title detail system : String)
    {after : AuditRun}
    → start_stage now run status title detail system ≡ ok after
    → (after.status ≡ status) × (rank run.status < rank after.status)
unfolding start_stage
start_stage-rank now run status title detail system h = ground arith

pub finish_stage-status :
    (now : ℕ) (run : AuditRun) (detail : String) {after : AuditRun}
    → finish_stage now run detail ≡ ok after
    → after.status ≡ run.status
unfolding finish_stage
finish_stage-status now run detail h = ground arith

pub fail_run-status :
    (now : ℕ) (run : AuditRun) (status : RunStatus) (detail : String) (retryable uncertain : Bool)
    {after : AuditRun}
    → fail_run now run status detail retryable uncertain ≡ ok after
    → (after.status ≡ status) × (is_failure status ≡ true) × (is_terminal run.status ≡ false)
unfolding fail_run
fail_run-status now run status detail retryable uncertain h = ground arith

failed-rank : (before status : RunStatus) → is_failure status ≡ true → rank before ≤ rank status
failed-rank before failed_retryable h = rank-le before
failed-rank before failed_safe h = rank-le before
failed-rank before _ h = cc

-- Every stage that was started raised the rank, and nothing lowers it.
Reach-rank :
    {run after : AuditRun} (r : Reach run after) → rank run.status + starts r ≤ rank after.status
Reach-rank here = omega arith
Reach-rank {after} (next {mid} r (started now status title detail system h)) =
    omega (arith, Reach-rank r, start_stage-rank now mid status title detail system h)
Reach-rank {after} (next {mid} r (finished now detail h)) =
    rw (finish_stage-status now mid detail h) (Reach-rank r)
Reach-rank {after} (next {mid} r (failed now status detail retryable uncertain h)) =
    let facts = fail_run-status now mid status detail retryable uncertain h in
    rw facts.0 (omega (arith, Reach-rank r, failed-rank mid.status status facts.1))

-- Over any successful calls of start_stage, finish_stage and fail_run, in any order and from any run, at
-- most nine stages are started, less one for each stage on the longest way that the run had passed. A
-- reset of the run by the service is not one of these calls.
pub Reach-starts_bounded :
    {run after : AuditRun} (r : Reach run after) → rank run.status + starts r ≤ 9
Reach-starts_bounded {run} {after} r = omega (arith, Reach-rank r, rank-le after.status)

Step-Extends : {run after : AuditRun} → Step run after → Extends run after
Step-Extends {run} (started now status title detail system h) =
    start_stage-Extends now run status title detail system h
Step-Extends {run} (finished now detail h) = finish_stage-Extends now run detail h
Step-Extends {run} (failed now status detail retryable uncertain h) =
    fail_run-Extends now run status detail retryable uncertain h

-- Over any of these calls the run keeps its id, the stages of the earlier
-- events stay at the front of the trail, and if the events were numbered in order, they still are.
pub Reach-Extends : {run after : AuditRun} → Reach run after → Extends run after
Reach-Extends {run} here = Extends-refl run
Reach-Extends (next r s) = Extends-trans (Reach-Extends r) (Step-Extends s)

-- A terminal run stays as it is: no stage starts, and it cannot fail again.
pub terminal_absorbs :
    (now : ℕ) (run : AuditRun) (status : RunStatus) (title detail system : String)
    (retryable uncertain : Bool) {after : AuditRun}
    → is_terminal run.status ≡ true
    → (start_stage now run status title detail system ≢ ok after)
      × (fail_run now run status detail retryable uncertain ≢ ok after)
unfolding start_stage fail_run
terminal_absorbs now run status title detail system retryable uncertain h =
    (λ e. ground arith, λ e. ground arith)

fail_events_closed :
    (now : ℕ) (run : AuditRun) (status : RunStatus) (detail : String)
    → last_is_running (fail_events now run status detail) ≡ false
unfolding fail_events
fail_events_closed now run status detail = elim (Bool-cases (last_is_running run)) [
  | inl open_event ↦
      rw open_event
        (ground (arith, last?-update_last (close_event Models.EventState.failed detail) run.events))
  | inr closed ↦ rw closed (ap event_is_running (last?-snoc run.events _))
]

-- Whatever state the trail is in, a run that has not ended can be failed, in either failure state:
-- it then has that status, no event of it runs on, one limitation is added at the end, and the
-- verdict, the evidence, the actions and the verification stay.
pub fail_run_total :
    (now : ℕ) (run : AuditRun) (status : RunStatus) (detail : String) (retryable uncertain : Bool)
    → is_failure status ≡ true
    → is_terminal run.status ≡ false
    → (after : AuditRun) × (fail_run now run status detail retryable uncertain ≡ ok after)
      × (after.status ≡ status)
      × (last_is_running after ≡ false)
      × (after.limitations ≡ run.limitations ++ failure_limitation uncertain retryable ∷ [])
      × (after.verdict ≡ run.verdict)
      × (after.evidence ≡ run.evidence)
      × (after.actions ≡ run.actions)
      × (after.verification ≡ run.verification)
unfolding fail_run
fail_run_total now run status detail retryable uncertain h k =
    let failed = fail_events now run status detail in
    let after : AuditRun = record failed {
      status = status;
      updated_at = now;
      limitations = run.limitations ++ failure_limitation uncertain retryable ∷ [];
    } in
    (
      after,
      ground arith,
      refl,
      fail_events_closed now run status detail,
      refl,
      ground arith,
      ground arith,
      ground arith,
      ground arith,
    )
