-- ===== src/StateMachine.antt =====
-- services/agent/src/ipromise_agent/state_machine.py: the transitions of a run and its event trail.
-- A function that mutates the run returns the new one, or raises and leaves the old one as it was.
-- `now` is what `utc_now()` returns.
pub mod Trail
pub mod Progress
pub mod Closed
pub mod Routing
use i_promise.Base.{
  ℕ, ◌+◌, Bool, true, false, not, ◌||◌, String, Option, none, some, [], ◌∷◌, ◌++◌, if◌then◌else◌,
}
use i_promise.Lists.{length, last?, update_last}
use i_promise.Text.{concat, two_digits}
use i_promise.Models.{
  RunStatus, received, capturing, compiling, binding, probing, evaluating, remediating, verifying,
  routing_action, complete, failed_retryable, failed_safe, EventState, running, RunEvent, AuditRun,
  status_value, is_running,
}
use i_promise.Models
use i_promise.Errors.{Result, ok, err, invalid_transition, ◌>>=◌, ◌>>◌, guard}

-- `_TERMINAL`
abbrev pub is_terminal : RunStatus → Bool
is_terminal complete = true
is_terminal failed_retryable = true
is_terminal failed_safe = true
is_terminal _ = false

-- `status in _ALLOWED.get(current, set())`
abbrev pub is_allowed : RunStatus → RunStatus → Bool
is_allowed received capturing = true
is_allowed capturing compiling = true
is_allowed compiling binding = true
is_allowed binding probing = true
is_allowed binding routing_action = true
is_allowed probing evaluating = true
is_allowed evaluating remediating = true
is_allowed evaluating routing_action = true
is_allowed remediating verifying = true
is_allowed verifying routing_action = true
is_allowed routing_action complete = true
is_allowed _ _ = false

-- `status in {FAILED_RETRYABLE, FAILED_SAFE}`
abbrev pub is_failure : RunStatus → Bool
is_failure failed_retryable = true
is_failure failed_safe = true
is_failure _ = false

-- `f"{run.id}:event:{len(run.events) + 1:02d}"` where the number is `n`
unfoldable pub event_id : String → ℕ → String
event_id run_id n = concat (run_id ∷ ":event:" ∷ two_digits n ∷ [])

-- `run.events.append(RunEvent(…))`
unfoldable pub append_event :
    AuditRun → String → EventState → String → String → ℕ → String → AuditRun
append_event run stage state title detail at system = record run {
  events =
      run.events
      ++ record {
        id = event_id run.id (length run.events + 1);
        stage = stage;
        state = state;
        title = title;
        at = at;
        detail = some detail;
        system = some system;
        artifact_ref = none;
      }
        ∷ [];
}

-- The change of `run.events[-1]` to a state with a detail.
abbrev pub close_event : EventState → String → RunEvent → RunEvent
close_event state detail event = record event { state = state; detail = some detail }

abbrev pub event_is_running : Option RunEvent → Bool
event_is_running none = false
event_is_running (some event) = is_running event.state

-- `run.events and run.events[-1].state == EventState.RUNNING`
abbrev pub last_is_running : AuditRun → Bool
last_is_running run = event_is_running (last? run.events)

unfoldable pub start_stage : ℕ → AuditRun → RunStatus → String → String → String → Result AuditRun
unfolding append_event
start_stage now run status title detail system =
    if is_terminal run.status || not (is_allowed run.status status)
    then err (
        invalid_transition (
          concat (
            "Invalid audit transition: "
            ∷ status_value run.status
            ∷ " -> "
            ∷ status_value status
            ∷ [])))
    else ok (
        append_event (record run { status = status; updated_at = now }) (status_value status)
          running title detail now system)

unfoldable pub finish_stage : ℕ → AuditRun → String → Result AuditRun
finish_stage now run detail =
    if last_is_running run
    then ok (record run {
      events = update_last (close_event EventState.succeeded detail) run.events;
      updated_at = now;
    })
    else err (invalid_transition "There is no running event to finish")

-- What `fail_run` appends to the limitations.
abbrev pub failure_limitation : Bool → Bool → String
failure_limitation true retryable = concat (
    "The external-action outcome is uncertain; reconcile the recorded intent "
    ∷ (if retryable then "before retrying." else "before operator resolution.")
    ∷ [])
failure_limitation false retryable = concat (
    "The workflow stopped without external side effects; "
    ∷ (if retryable then "the trigger may be retried." else "operator review is required.")
    ∷ [])

-- The event trail of a failed run: the running event fails, or an event for the failure follows.
unfoldable pub fail_events : ℕ → AuditRun → RunStatus → String → AuditRun
unfolding append_event
fail_events now run status detail =
    if last_is_running run
    then record run { events = update_last (close_event EventState.failed detail) run.events }
    else append_event run (status_value status) EventState.failed "Audit stopped safely" detail now
        "Safety boundary"

unfoldable pub fail_run : ℕ → AuditRun → RunStatus → String → Bool → Bool → Result AuditRun
unfolding fail_events
fail_run now run status detail retryable side_effects_uncertain = do
  guard (is_failure status) (invalid_transition "Failure must use a terminal failure state")
  guard (not (is_terminal run.status)) (invalid_transition "A terminal run cannot fail again")
  let failed = fail_events now run status detail
  ok (record failed {
    status = status;
    updated_at = now;
    limitations = run.limitations ++ failure_limitation side_effects_uncertain retryable ∷ [];
  })
