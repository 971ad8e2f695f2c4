-- ===== src/Service/Routed.antt =====
-- The dispatch of the actions that the planner selects (service.py, actions.py).
use mathlib.Core.Path.{subst}
use i_promise.Base.{ℕ, ◌+◌, ◌≤◌, ◌≡◌, inl, inr, Bool, false, String, List, arith}
use i_promise.Lists.{count_if}
use i_promise.Errors.{ok, Result-cases, ok_injective}
use i_promise.Exec.{◌>>◌}
use i_promise.Models.{
  AuditRun, PlannedAction, RunStatus, pull_request, issue, is_pull_request, Verdict, contradicted,
  inconclusive,
}
use i_promise.StateMachine.{start_stage}
use i_promise.Actions.{
  receipt_proves_candidate, contradicted_actions, skipped, proposed_actions, validate_action_plan,
  plan_actions,
}
use i_promise.Service.Jobs.{Job, Services, saved, note, change, save}
use i_promise.Service.Dispatch.{dispatch_and_complete, plan_run, route_and_complete}
use i_promise.Service.Requests.{requests}
use i_promise.Service.Publish.{HasOnePr}
use i_promise.Service.Single.{dispatch_and_complete-once}

proposed_actions-one_pr :
    (run_id : String) (verdict : Verdict) (proven : Bool) (contradictions : ℕ)
    (email_enabled : Bool)
    → count_if
        (λ action. is_pull_request action.kind)
        (proposed_actions run_id verdict proven contradictions email_enabled)
      ≤ 1
unfolding proposed_actions contradicted_actions skipped
proposed_actions-one_pr run_id contradicted proven contradictions email_enabled = omega arith
proposed_actions-one_pr run_id inconclusive proven contradictions email_enabled = omega arith
proposed_actions-one_pr run_id _ proven contradictions email_enabled = omega arith

-- A planned run has one pull request at most.
plan_run-HasOnePr :
    (run : AuditRun) {planned : AuditRun} → plan_run run ≡ ok planned → HasOnePr planned
unfolding plan_run plan_actions
plan_run-HasOnePr run {planned} h =
    elim (Result-cases (validate_action_plan proposed run.verification)) [
      | inl (e, refused) ↦ absurd (ground (arith, rw (refused, plan_run) at h))
      | inr (done, valid) ↦
          subst HasOnePr (ok_injective (rw (valid, plan_run) at h))
            (proposed_actions-one_pr run.id run.verdict proven 1 false)
    ]
  where
    proven : Bool
    proven = receipt_proves_candidate run.verification

    proposed : List PlannedAction
    proposed = proposed_actions run.id run.verdict proven 1 false

-- At most one request of each kind from one job to the other.
abbrev IsOnce : Job → Job → Type 0
IsOnce before after =
    (requests pull_request after ≤ 1 + requests pull_request before)
    × (requests issue after ≤ 1 + requests issue before)

module _ (fuel : ℕ) (svc : Services) where
  saved-IsOnce :
      (job : Job)
      → HasOnePr job.run
      → IsOnce job ((save svc >> dispatch_and_complete fuel svc) job).1
  unfolding save
  saved-IsOnce job one = elim (Result-cases (svc.save job)) [
    | inl (e, failed) ↦ rw (failed, save) (omega arith, omega arith)
    | inr (done, kept) ↦
        rw (kept, save) (dispatch_and_complete-once fuel svc (note (saved job.run) job) one)
  ]

  planned-IsOnce :
      (job : Job)
      → IsOnce job
          ((change (λ now run. plan_run run) svc >> (save svc >> dispatch_and_complete fuel svc))
            job).1
  unfolding change
  planned-IsOnce job = elim (Result-cases (plan_run job.run)) [
    | inl (e, raised) ↦ rw (raised, change) (omega arith, omega arith)
    | inr (run, planned) ↦
        rw (planned, change)
          (saved-IsOnce (record job { run = run }) (plan_run-HasOnePr job.run planned))
  ]

-- Routing and dispatching a run asks GitHub for at most one pull request and at most one issue, whatever
-- the run is and whatever GitHub, the store and the leases answer.
pub route_and_complete-once :
    (fuel : ℕ) (svc : Services) (job : Job)
    → (requests pull_request (route_and_complete fuel svc job).1 ≤ 1 + requests pull_request job)
      × (requests issue (route_and_complete fuel svc job).1 ≤ 1 + requests issue job)
unfolding route_and_complete change
route_and_complete-once fuel svc job =
    elim (Result-cases (
      start_stage (svc.now job) job.run RunStatus.routing_action "Select action"
        "Choose one allowed response" "Action planner")) [
          | inl (e, raised) ↦ rw (raised, route_and_complete, change) (omega arith, omega arith)
          | inr (run, started) ↦
              rw (started, route_and_complete, change)
                (planned-IsOnce fuel svc (record job { run = run }))
        ]
