-- ===== src/Service/Jobs.antt =====
-- A run in the hands of a worker (service.py): the calls of its stages on the outside, and its end.
--
-- A `Job` is the run in memory, which the code changes in place, and a log of the calls it has made on
-- the outside, the last first. `Services` is the outside: what each call answers may depend on all that
-- was done before. A failed release of a lease is logged by the code and changes nothing; so an attempt
-- to release is an entry of the log.
use i_promise.Base.{
  ℕ, Bool, true, false, String, Option, none, some, List, ◌∷◌, if◌then◌else◌, ◌==◌, string_eq,
}
use i_promise.Lists.{last?, update_last}
use i_promise.Errors.{
  Exception, Result, ok, err, publication_rejected, publish_uncertain, github_integration,
  github_not_configured, github_authorization, completion_checkpoint,
}
use i_promise.Exec.{Exec, raise, ◌>>◌}
use i_promise.Models.{
  AuditRun, RunEvent, PlannedAction, RunStatus, EventState, ActionKind, status_value,
}
use i_promise.StateMachine.{start_stage, finish_stage, fail_run, close_event}
use i_promise.Github.{PublishedPullRequest, PublishedIssue}
use i_promise.Service.{fail_retryable}

pub data Effect : Type 0 where
  saved : AuditRun → Effect
  acquired released : String → Effect
  requested : ActionKind → Effect
  run_released : Effect

pub record Job : Type 0 where
  pub run : AuditRun
  pub log : List Effect

pub record Services : Type 0 where
  pub github_actions_enabled : Bool
  pub now : Job → ℕ
  pub save : Job → Result (Unit {0})
  pub stored : Job → Option AuditRun
  pub acquire_action_lease : Job → String → Result Bool
  pub publish_draft_pull_request : Job → PlannedAction → Result PublishedPullRequest
  pub publish_issue : Job → PlannedAction → Result PublishedIssue

abbrev pub note : Effect → Job → Job
note effect job = record job { log = effect ∷ job.log }

-- A function on the run that may raise, and leaves the run as it was if it does.
unfoldable pub change : (ℕ → AuditRun → Result AuditRun) → Services → Exec Job (Unit {0})
change f svc job = elim (f (svc.now job) job.run) [
  | ok run ↦ (ok tt, record job { run = run })
  | err e ↦ (err e, job)
]

-- `await self.store.save(run)`
unfoldable pub save : Services → Exec Job (Unit {0})
save svc job = elim (svc.save job) [
  | ok _ ↦ (ok tt, note (saved job.run) job)
  | err e ↦ (err e, job)
]

abbrev pub return_run : Exec Job AuditRun
return_run job = (ok job.run, job)

-- The exception that a failed save is turned into, after a change of the run.
unfoldable pub save_or : Services → (AuditRun → AuditRun) → Exception → Exec Job (Unit {0})
save_or svc repair raised job = elim (svc.save job) [
  | ok _ ↦ (ok tt, note (saved job.run) job)
  | err e ↦ (err raised, record job { run = repair job.run })
]

abbrev pub is_complete_stage : Option RunEvent → Bool
is_complete_stage none = false
is_complete_stage (some event) = event.stage == status_value RunStatus.complete

-- The last durable routing checkpoint is restored.
unfoldable pub restore_routing : ℕ → AuditRun → AuditRun
restore_routing now run = record run {
  status = RunStatus.routing_action;
  events =
      if is_complete_stage (last? run.events)
      then update_last (close_event EventState.failed "Final run checkpoint was not persisted")
          run.events
      else run.events;
  updated_at = now;
}

unfoldable pub save_complete : Services → Exec Job (Unit {0})
unfolding restore_routing
save_complete svc job =
    save_or svc (restore_routing (svc.now job))
      (completion_checkpoint "Final run checkpoint could not be persisted") job

unfoldable pub complete_run : Services → Exec Job (Unit {0})
unfolding save_complete start_stage finish_stage
complete_run svc = do
  change
      (λ now run.
        start_stage now run RunStatus.complete "Audit complete" "Evidence and action recorded"
          "iPromise")
      svc
  change (λ now run. finish_stage now run "Audit record saved") svc
  save_complete svc

-- `isinstance(exc, GitHubIntegrationError)`
abbrev pub is_integration_error : Exception → Bool
is_integration_error (publication_rejected _) = true
is_integration_error (publish_uncertain _) = true
is_integration_error (github_integration _) = true
is_integration_error (github_not_configured _) = true
is_integration_error (github_authorization _) = true
is_integration_error _ = false

-- `str(exc)` of such an error.
abbrev pub message_of : Exception → String
message_of (publication_rejected detail) = detail
message_of (publish_uncertain detail) = detail
message_of (github_integration detail) = detail
message_of (github_not_configured detail) = detail
message_of (github_authorization detail) = detail
message_of _ = ""

-- `except GitHubIntegrationError`; any other exception goes on.
unfoldable pub stop_safely : Services → Exception → Exec Job AuditRun
unfolding fail_run
stop_safely svc e =
    if is_integration_error e
    then (do
      change (λ now run. fail_run now run RunStatus.failed_safe (message_of e) false false) svc
      save svc
      return_run)
    else raise e

-- `except GitHubPublishUncertain`
unfoldable pub stop_uncertain : Services → String → Exec Job AuditRun
unfolding fail_retryable
stop_uncertain svc detail = do
  change (λ now run. fail_retryable now run detail true) svc
  save svc
  return_run
