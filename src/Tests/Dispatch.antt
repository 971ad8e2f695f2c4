-- ===== src/Tests/Dispatch.antt =====
-- Tests of the dispatch of Service.
use i_promise.Base.{
  ltb, if◌then◌else◌, ◌==◌, string_eq, ◌+◌, ◌≤◌, ◌≡◌, refl, true, false, none, some, [], ◌∷◌, arith,
}
use i_promise.Errors.{Exception, completion_checkpoint, other, ok, err, publication_rejected}
use i_promise.Models.{
  status_value, AuditRun, PlannedAction, RunStatus, EventState, ActionKind, pull_request, issue,
  ActionState,
}
use i_promise.Exec.{Exec, ◌>>◌}
use i_promise.StateMachine.{is_terminal, start_stage, finish_stage, append_event}
use i_promise.Service.Recovery.{select_issue_fallback, change_first}
use i_promise.Service.{attempt_count, fail_retryable}
use i_promise.Service.Checkpoints.{run_with_execution_lease}
use i_promise.Service.Recovered.{
  IsRecovered, IsSavedOrRaised, checkpoint_detail, checkpoint_limitation,
  run_with_execution_lease-IsRecovered,
}
use i_promise.Service.Restored.{IsRestored, complete_run-restores}
use i_promise.Service.Jobs.{
  restore_routing, run_released, note, return_run, Job, Services, change, save, save_or,
  save_complete, complete_run,
}
use i_promise.Service.Dispatch.{
  update_first, open_action, record_receipt, publish_issue, settle_issue, acquire, issue_body,
  dispatch_issue_with_lease, publish_pull_request, settle_pull_request, pull_request_body,
  after_attempt, dispatch_pr_with_lease, dispatch_issue_at, dispatch_issue, dispatch_pr_at,
  dispatch_unrouted, dispatch_and_complete, route_and_complete,
}
use i_promise.Service.Requests.{requests}
use i_promise.Service.Routed.{route_and_complete-once}
use i_promise.Service.Single.{dispatch_and_complete-once}
use i_promise.Service.Depth.{dispatch_and_complete-two_deep}
use i_promise.Tests.Samples.{sample_run}

abbrev action_of : ActionKind → ActionState → PlannedAction
action_of kind state = record {
  id = "run_0001:action";
  kind = kind;
  state = state;
  title = "";
  verified = false;
  reason = none;
  url = none;
}

-- A run that routes a ready pull request, with the issue as its fallback.
abbrev routing_run : AuditRun
routing_run = record sample_run {
  status = RunStatus.routing_action;
  events =
      record {
        id = "run_0001:event:01";
        stage = "ROUTING_ACTION";
        state = EventState.running;
        title = "Select action";
        at = 1000;
        detail = none;
        system = none;
        artifact_ref = none;
      }
      ∷ [];
  actions = action_of pull_request ActionState.ready ∷ action_of issue ActionState.skipped ∷ [];
  repository = some (record {
    id = 7;
    full_name = "kostakarathana/iPromise";
    default_branch = "main";
    private = false;
    archived = false;
    html_url = "https://github.com/kostakarathana/iPromise";
  });
  verified_candidate = some (record {
    schema_version = "";
    repository_url = "";
    base_sha = "";
    unified_diff_sha256 = "";
    files = [];
  });
}

-- GitHub refuses the pull request and opens the issue.
abbrev services : Services
services = record {
  github_actions_enabled = true;
  now = λ job. 2000;
  save = λ job. ok tt;
  stored = λ job. none;
  acquire_action_lease = λ job id. ok true;
  publish_draft_pull_request = λ job action. err (publication_rejected "moved");
  publish_issue = λ job action.
      ok (record { url = "https://github.com/i/4"; number = 4; remote_id = 9; reconciled = false });
}

abbrev start : Job
start = record { run = routing_run; log = [] }

falls_back_once :
    ((dispatch_and_complete 2 services start).1.run.status ≡ RunStatus.complete)
    × (requests pull_request (dispatch_and_complete 2 services start).1 ≡ 1)
    × (requests issue (dispatch_and_complete 2 services start).1 ≡ 1)
unfolding dispatch_and_complete dispatch_unrouted dispatch_pr_at dispatch_pr_with_lease acquire
    pull_request_body publish_pull_request settle_pull_request after_attempt select_issue_fallback
    change_first change save save_or save_complete complete_run dispatch_issue dispatch_issue_at
    dispatch_issue_with_lease issue_body publish_issue settle_issue record_receipt update_first
    open_action start_stage finish_stage append_event
falls_back_once = (refl, refl, refl)

dispatch_and_complete-once_example :
    (requests pull_request (dispatch_and_complete 2 services start).1
      ≤ 1 + requests pull_request start)
    × (requests issue (dispatch_and_complete 2 services start).1 ≤ 1 + requests issue start)
dispatch_and_complete-once_example = dispatch_and_complete-once 2 services start (omega arith)

dispatch_and_complete-two_deep_example :
    dispatch_and_complete 5 services start ≡ dispatch_and_complete 2 services start
dispatch_and_complete-two_deep_example =
    dispatch_and_complete-two_deep 3 services start (omega arith)

route_and_complete-once_example :
    (requests pull_request (route_and_complete 2 services start).1
      ≤ 1 + requests pull_request start)
    × (requests issue (route_and_complete 2 services start).1 ≤ 1 + requests issue start)
route_and_complete-once_example = route_and_complete-once 2 services start

-- The store refuses the final record.
abbrev unsaved : Services
unsaved = record services {
  save = λ job.
      if status_value job.run.status == status_value RunStatus.complete
      then err (other "unavailable")
      else ok tt;
}

abbrev completing : Exec Job AuditRun
completing = complete_run unsaved >> return_run

abbrev final_failure : Exception
final_failure = completion_checkpoint "Final run checkpoint could not be persisted"

unsaved_fails : (complete_run unsaved start).0 ≡ err final_failure
unfolding complete_run change start_stage append_event finish_stage save_complete save_or
unsaved_fails = refl

complete_run-restores_example :
    IsRestored start.run (complete_run unsaved start).1.run
    × (failed : AuditRun) × (fail_retryable 9 (complete_run unsaved start).1.run "stop" true
        ≡ ok failed)
    × (failed.status ≡ (
        if ltb (attempt_count (complete_run unsaved start).1.run) 3
        then RunStatus.failed_retryable
        else RunStatus.failed_safe))
complete_run-restores_example =
    complete_run-restores unsaved start final_failure 9 "stop" true unsaved_fails refl

completing_fails :
    ((completing start).0 ≡ err final_failure)
    × (is_terminal (completing start).1.run.status ≡ false)
unfolding complete_run change start_stage append_event finish_stage save_complete save_or
    restore_routing
completing_fails = (refl, refl)

run_with_execution_lease-IsRecovered_example :
    (failed after : AuditRun) × (fail_retryable
        (unsaved.now (completing start).1)
        (completing start).1.run
        (checkpoint_detail final_failure)
        true
      ≡ ok failed)
    × IsRecovered (completing start).1.run after (checkpoint_limitation final_failure failed)
    × ((run_with_execution_lease unsaved completing start).1.run ≡ after)
    × IsSavedOrRaised unsaved
        (record (completing start).1 { run = after })
        (run_with_execution_lease unsaved completing start).0
    × ((before : Job) × ((run_with_execution_lease unsaved completing start).1
          ≡ note run_released before))
run_with_execution_lease-IsRecovered_example =
    run_with_execution_lease-IsRecovered unsaved completing start final_failure completing_fails.0
      refl completing_fails.1
