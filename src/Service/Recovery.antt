-- ===== src/Service/Recovery.antt =====
-- What service.py does to a run whose attempt was interrupted or has failed, and the fallback from a
-- pull request to an issue.
use i_promise.Base.{
  ℕ, Bool, false, ◌&&◌, ◌||◌, String, Option, none, some, List, [], ◌∷◌, if◌then◌else◌, ◌==◌,
  string_eq,
}
use i_promise.Lists.{any, last?, update_last}
use i_promise.Errors.{Result, ok, err, other}
use i_promise.Models.{
  AuditRun, RunEvent, PlannedAction, RunStatus, Verdict, EventState, ActionState, is_opened,
  is_ready, is_planned, is_pull_request, is_issue, status_value,
}
use i_promise.StateMachine.{append_event, close_event, last_is_running}

unfoldable pub reset_interrupted_run : ℕ → AuditRun → AuditRun
unfolding append_event
reset_interrupted_run now run =
    let closed : List RunEvent =
      if last_is_running run
      then update_last (close_event EventState.failed "Worker stopped before this stage completed")
          run.events
      else run.events in
    append_event
      (record run {
        events = closed;
        status = RunStatus.received;
        verdict = Verdict.pending;
        evidence = [];
        actions = [];
        remediation = none;
        verification = none;
        verified_candidate = none;
        synthetic_fixture_id = none;
        updated_at = now;
      })
      (status_value RunStatus.received) EventState.succeeded "Audit resumed"
      "Interrupted attempt restarted from a safe checkpoint" now "Run dispatcher"

unfoldable pub resume_action_dispatch : ℕ → AuditRun → AuditRun
unfolding append_event
resume_action_dispatch now run =
    append_event (record run { status = RunStatus.routing_action; updated_at = now })
      (status_value RunStatus.routing_action) EventState.running "Action retry resumed"
      "Reconciling the existing action intent before any write" now "Run dispatcher"

-- `action.kind in {PULL_REQUEST, ISSUE}`
abbrev pub is_external : PlannedAction → Bool
is_external action = is_pull_request action.kind || is_issue action.kind

-- `run.events and run.events[-1].stage == "ROUTING_ACTION"`
abbrev pub is_at_routing : Option RunEvent → Bool
is_at_routing none = false
is_at_routing (some event) = event.stage == status_value RunStatus.routing_action

unfoldable pub failed_during_action_dispatch : AuditRun → Bool
failed_during_action_dispatch run =
    any (λ action. is_external action && is_opened action.state) run.actions
    || is_at_routing (last? run.events)
      && any (λ action. is_external action && (is_ready action.state || is_planned action.state))
          run.actions

-- The first action of a kind is changed; `next` raises where there is none,
-- which the calling coroutine turns into a RuntimeError.
unfoldable pub change_first :
    (PlannedAction → Bool)
    → (PlannedAction → PlannedAction)
    → List PlannedAction
    → Result (List PlannedAction)
change_first is_it change [] = err (other "StopIteration")
change_first is_it change (action ∷ rest) =
    let later = change_first is_it change rest in
    if is_it action
    then ok (change action ∷ rest)
    else elim later [ ok actions ↦ ok (action ∷ actions) | err e ↦ err e ]

abbrev pub block_pull_request : String → PlannedAction → PlannedAction
block_pull_request reason action = record action {
  state = ActionState.blocked;
  verified = false;
  reason = some reason;
}

abbrev pub plan_issue : String → PlannedAction → PlannedAction
plan_issue reason action = record action { state = ActionState.planned; reason = some reason }

-- Both actions are looked up before either is changed.
unfoldable pub select_issue_fallback : AuditRun → String → Result AuditRun
unfolding change_first
select_issue_fallback run reason =
    elim (change_first (λ action. is_pull_request action.kind) (block_pull_request reason)
      run.actions) [
        | err e ↦ err e
        | ok blocked ↦
            elim (change_first (λ action. is_issue action.kind) (plan_issue reason) blocked) [
              | err e ↦ err e
              | ok planned ↦ ok (record run { actions = planned })
            ]
      ]
