-- ===== src/Service/Dispatch.antt =====
-- The dispatch of the planned actions of a run to GitHub (service.py, `_dispatch_and_complete` and what
-- it calls).
use i_promise.Base.{
  ℕ, zero, suc, Bool, true, false, not, ◌&&◌, String, Option, none, some, List, [], ◌∷◌,
  if◌then◌else◌, ◌==◌, string_eq,
}
use i_promise.Lists.{last?, find_first}
use i_promise.Text.{concat, decimal}
use i_promise.Errors.{
  Result, ok, err, publication_rejected, publish_uncertain, external_action_checkpoint, other,
}
use i_promise.Exec.{Exec, pure, ◌>>=◌, ◌>>◌}
use i_promise.Models.{
  AuditRun, RunEvent, PlannedAction, RunStatus, ActionKind, pull_request, issue, ActionState,
  is_opened, is_ready, is_planned, is_pull_request, is_issue, is_succeeded, kind_words,
  status_value,
}
use i_promise.StateMachine.{start_stage, finish_stage}
use i_promise.Github.{PublishedPullRequest, PublishedIssue}
use i_promise.Actions.{plan_actions}
use i_promise.Service.{is_some}
use i_promise.Service.Recovery.{select_issue_fallback, is_external}
use i_promise.Service.Jobs.{
  acquired, released, requested, Job, Services, note, change, save, return_run, save_or,
  complete_run, stop_safely, stop_uncertain,
}

-- A change of the first action that passes a test.
unfoldable pub update_first :
    (PlannedAction → Bool)
    → (PlannedAction → PlannedAction)
    → List PlannedAction
    → List PlannedAction
update_first is_it f [] = []
update_first is_it f (action ∷ rest) =
    let later = update_first is_it f rest in
    if is_it action then f action ∷ rest else action ∷ later

-- `selected_pr` and `selected_issue` are actions of the run, found by these tests.
abbrev pub is_selected_pr : PlannedAction → Bool
is_selected_pr action = is_pull_request action.kind && is_ready action.state

abbrev pub is_selected_issue : PlannedAction → Bool
is_selected_issue action = is_issue action.kind && is_planned action.state

unfoldable pub open_action : String → String → PlannedAction → PlannedAction
open_action url reason action = record action {
  state = ActionState.opened;
  url = some url;
  reason = some reason;
}

-- A confirmed receipt: the action is opened, and the run is saved and completed.
unfoldable pub record_receipt :
    Services
    → (PlannedAction → Bool)
    → ActionKind
    → String
    → ℕ
    → String
    → String
    → Exec Job AuditRun
unfolding update_first open_action complete_run finish_stage
record_receipt svc is_it kind url number reason detail = do
  change
      (λ now run.
        ok (record run { actions = update_first is_it (open_action url reason) run.actions }))
      svc
  change (λ now run. finish_stage now run detail) svc
  save_or svc (λ run. run) (external_action_checkpoint kind number url)
  complete_run svc
  return_run

unfoldable pub publish_issue : Services → PlannedAction → Exec Job (Result PublishedIssue)
publish_issue svc action job = (ok (svc.publish_issue job action), note (requested issue) job)

-- What follows the answer of GitHub about an issue.
unfoldable pub settle_issue : Services → Result PublishedIssue → Exec Job AuditRun
unfolding record_receipt stop_safely stop_uncertain
settle_issue svc (ok receipt) =
    record_receipt svc is_selected_issue issue receipt.url receipt.number
      (if receipt.reconciled
        then "Existing marker-matched issue reconciled"
        else "Evidence-backed issue created with a repository-scoped GitHub App token")
      (concat ("GitHub issue #" ∷ decimal receipt.number ∷ " opened" ∷ []))
settle_issue svc (err (publish_uncertain detail)) = stop_uncertain svc detail
settle_issue svc (err e) = stop_safely svc e

-- `finally`: the lease is released, whatever the result is.
abbrev pub finally_release : {A : Type 0} → String → Exec Job A → Exec Job A
finally_release action_id body job =
    let (result, job') = body job in (result, note (released action_id) job')

-- What happens without the lease: another worker dispatches the action.
unfoldable pub leave_to_other : Services → Exec Job AuditRun
leave_to_other svc job = elim (svc.stored job) [
  | none ↦ (ok job.run, job)
  | some current ↦ (ok current, job)
]

unfoldable pub acquire : Services → String → Exec Job Bool
acquire svc action_id job = elim (svc.acquire_action_lease job action_id) [
  | err e ↦ (err e, job)
  | ok false ↦ (ok false, job)
  | ok true ↦ (ok true, note (acquired action_id) job)
]

unfoldable pub issue_body : Services → PlannedAction → Exec Job AuditRun
unfolding publish_issue settle_issue
issue_body svc action = publish_issue svc action >>= settle_issue svc

unfoldable pub dispatch_issue_with_lease : Services → PlannedAction → Exec Job AuditRun
unfolding issue_body
dispatch_issue_with_lease svc action = acquire svc action.id >>= λ is_mine.
    if is_mine then finally_release action.id (issue_body svc action) else leave_to_other svc

-- What the attempt to publish the pull request comes to: the run is done, or the issue is the fallback,
-- for a reason.
pub data Attempt : Type 0 where
  settled : AuditRun → Attempt
  falls_back : String → Attempt

unfoldable pub settling : Exec Job AuditRun → Exec Job Attempt
settling m = m >>= λ run. pure (settled run)

unfoldable pub publish_pull_request :
    Services → PlannedAction → Exec Job (Result PublishedPullRequest)
publish_pull_request svc action job =
    (ok (svc.publish_draft_pull_request job action), note (requested pull_request) job)

-- What follows the answer of GitHub about a pull request.
unfoldable pub settle_pull_request : Services → Result PublishedPullRequest → Exec Job Attempt
unfolding record_receipt stop_safely stop_uncertain
settle_pull_request svc (ok receipt) = settling (
    record_receipt svc is_selected_pr pull_request receipt.url receipt.number
      (if receipt.reconciled
        then "Existing exact draft PR reconciled"
        else "Verified exact candidate published as a draft. The implemented publisher exposes no merge or deploy operation and creates draft pull requests only.")
      (concat ("GitHub draft PR #" ∷ decimal receipt.number ∷ " opened" ∷ [])))
settle_pull_request svc (err (publication_rejected detail)) =
    pure
      (falls_back (concat ("Draft PR publication was rejected by a safety gate: " ∷ detail ∷ [])))
settle_pull_request svc (err (publish_uncertain detail)) = settling (stop_uncertain svc detail)
settle_pull_request svc (err e) = settling (stop_safely svc e)

unfoldable pub pull_request_body : Services → PlannedAction → Exec Job Attempt
unfolding publish_pull_request settle_pull_request
pull_request_body svc action job =
    (if is_some job.run.verified_candidate
        then publish_pull_request svc action >>= settle_pull_request svc
        else pure (falls_back "The verified candidate checkpoint was unavailable."))
      job

-- After the lease is released: the issue becomes the selected action, and the dispatch starts again.
unfoldable pub after_attempt : Services → Exec Job AuditRun → Attempt → Exec Job AuditRun
unfolding select_issue_fallback
after_attempt svc again (settled run) = pure run
after_attempt svc again (falls_back reason) = do
  change (λ now run. select_issue_fallback run reason) svc
  save svc
  again

unfoldable pub dispatch_pr_with_lease :
    Services → Exec Job AuditRun → PlannedAction → Exec Job AuditRun
unfolding pull_request_body after_attempt
dispatch_pr_with_lease svc again action = acquire svc action.id >>= λ is_mine.
    if is_mine
    then finally_release action.id (pull_request_body svc action) >>= after_attempt svc again
    else leave_to_other svc

-- The run is completed without a publication.
unfoldable pub finish_without : Services → String → Exec Job AuditRun
unfolding complete_run finish_stage
finish_without svc detail = do
  change (λ now run. finish_stage now run detail) svc
  save svc
  complete_run svc
  return_run

-- The second half of the dispatch: the issue, or no action.
unfoldable pub dispatch_issue_at : Services → Option PlannedAction → Exec Job AuditRun
unfolding dispatch_issue_with_lease finish_without
dispatch_issue_at svc none job = finish_without svc "No external action required" job
dispatch_issue_at svc (some action) job =
    (if svc.github_actions_enabled && is_some job.run.repository
        then dispatch_issue_with_lease svc action
        else if not (is_some job.run.repository)
        then finish_without svc "Issue selected · connect a repository to dispatch"
        else finish_without svc "Issue selected · external actions are disabled")
      job

unfoldable pub dispatch_issue : Services → Exec Job AuditRun
unfolding dispatch_issue_at
dispatch_issue svc job = dispatch_issue_at svc (find_first is_selected_issue job.run.actions) job

-- Why a ready pull request is not dispatched.
abbrev pub fallback_reason : Services → String
fallback_reason svc =
    if svc.github_actions_enabled
    then "Verified draft PR could not be dispatched because its exact candidate or selected repository was unavailable."
    else "Verified draft PR publication is disabled for this run; no external action was attempted."

-- The first half: a ready pull request.
unfoldable pub dispatch_pr_at :
    Services → Exec Job AuditRun → Option PlannedAction → Exec Job AuditRun
unfolding dispatch_pr_with_lease dispatch_issue select_issue_fallback
dispatch_pr_at svc again none job = dispatch_issue svc job
dispatch_pr_at svc again (some action) job =
    (if svc.github_actions_enabled
          && is_some job.run.repository
          && is_some job.run.verified_candidate
        then dispatch_pr_with_lease svc again action
        else do
          change (λ now run. select_issue_fallback run (fallback_reason svc)) svc
          save svc
          dispatch_issue svc)
      job

-- `run.events[-1]` is the routing stage, and has succeeded.
abbrev pub is_routed : Option RunEvent → Bool
is_routed none = false
is_routed (some event) =
    event.stage == status_value RunStatus.routing_action && is_succeeded event.state

abbrev pub is_confirmed : PlannedAction → Bool
is_confirmed action = is_external action && is_opened action.state && is_some action.url

-- A receipt that was confirmed before is kept.
unfoldable pub preserve_receipt : Services → PlannedAction → Exec Job AuditRun
unfolding finish_without
preserve_receipt svc action =
    finish_without svc
      (concat ("Confirmed GitHub " ∷ kind_words action.kind ∷ " receipt preserved" ∷ []))

unfoldable pub dispatch_unrouted :
    Services → Exec Job AuditRun → Option PlannedAction → Exec Job AuditRun
unfolding preserve_receipt dispatch_pr_at
dispatch_unrouted svc again (some action) job = preserve_receipt svc action job
dispatch_unrouted svc again none job =
    dispatch_pr_at svc again (find_first is_selected_pr job.run.actions) job

-- `_dispatch_and_complete`. The depth of the recursion is bounded by `fuel`, as Python bounds it.
unfoldable pub dispatch_and_complete : ℕ → Services → Exec Job AuditRun
unfolding complete_run dispatch_unrouted
dispatch_and_complete zero svc job = (err (other "RecursionError"), job)
dispatch_and_complete (suc fuel) svc job =
    let again = dispatch_and_complete fuel svc in
    (if is_routed (last? job.run.events)
        then complete_run svc >> return_run
        else dispatch_unrouted svc again (find_first is_confirmed job.run.actions))
      job

-- `run.actions = plan_actions(...)`, with the defaults of the planner.
unfoldable pub plan_run : AuditRun → Result AuditRun
unfolding plan_actions
plan_run run = elim (plan_actions run.id run.verdict run.verification 1 false) [
  | err e ↦ err e
  | ok actions ↦ ok (record run { actions = actions })
]

-- `_route_and_complete`
unfoldable pub route_and_complete : ℕ → Services → Exec Job AuditRun
unfolding dispatch_and_complete start_stage plan_run
route_and_complete fuel svc = do
  change
      (λ now run.
        start_stage now run RunStatus.routing_action "Select action" "Choose one allowed response"
          "Action planner")
      svc
  change (λ now run. plan_run run) svc
  save svc
  dispatch_and_complete fuel svc
