-- ===== src/Service/Single.antt =====
-- At most one pull request and one issue for a dispatch (service.py).
use mathlib.Core.Path.{subst}
use i_promise.Base.{
  ℕ, zero, suc, ◌+◌, ◌≤◌, ◌≡◌, ◌≢◌, refl, sym, inl, inr, Bool, true, false, ◌&&◌, String, Option,
  none, some, [], ◌∷◌, arith, if◌then◌else◌, string_eq, Bool-cases,
}
use i_promise.Lists.{find_first, last?}
use i_promise.Errors.{Result, ok, err, publication_rejected, publish_uncertain, Result-cases}
use i_promise.Text.{concat}
use i_promise.Exec.{Exec, pure, continue, ◌>>=◌, ◌>>◌}
use i_promise.Models.{AuditRun, PlannedAction, pull_request, issue, kind_words}
use i_promise.Github.{PublishedPullRequest}
use i_promise.Service.{is_some}
use i_promise.Service.Recovery.{select_issue_fallback}
use i_promise.Service.Jobs.{saved, acquired, released, requested, Job, Services, note, change, save}
use i_promise.Service.Dispatch.{
  is_selected_pr, finally_release, acquire, Attempt, settled, falls_back, settling,
  publish_pull_request, settle_pull_request, pull_request_body, after_attempt,
  dispatch_pr_with_lease, dispatch_pr_at, fallback_reason, is_routed, is_confirmed,
  preserve_receipt, dispatch_unrouted, dispatch_and_complete,
}
use i_promise.Service.Requests.{
  requests, quiet_then, change-quiet, save-quiet, return_run-quiet, complete_run-quiet,
  finish_without-quiet, leave_to_other-quiet,
}
use i_promise.Service.Once.{dispatch_issue-AtMost, pull_request_body-AtMost, dispatch-issue}
use i_promise.Service.Publish.{
  HasNoReady, HasOnePr, pr_requests, fallback-HasNoReady, at_one, dispatch-no_ready,
}

-- What `again` does where no pull request is ready.
abbrev IsQuietAgain : Exec Job AuditRun → Type 0
IsQuietAgain again =
    (job : Job) → HasNoReady job.run.actions → pr_requests (again job).1 ≤ pr_requests job

module _ (svc : Services) where
  never_falls_at :
      (r : Result AuditRun) (job : Job) (reason : String)
      → (continue r (λ run. pure (settled run)) job).0 ≢ ok (falls_back reason)
  never_falls_at (ok run) job reason h = cc
  never_falls_at (err e) job reason h = cc

  never_falls :
      (m : Exec Job AuditRun) (job : Job) (reason : String)
      → (settling m job).0 ≢ ok (falls_back reason)
  unfolding settling
  never_falls m job reason = never_falls_at (m job).0 (m job).1 reason

  -- Falling back leaves the run as it was.
  settle-run :
      (answer : Result PublishedPullRequest) (job : Job) (reason : String)
      → (settle_pull_request svc answer job).0 ≡ ok (falls_back reason)
      → (settle_pull_request svc answer job).1.run ≡ job.run
  unfolding settle_pull_request
  settle-run (ok receipt) job reason h = absurd (never_falls _ job reason h)
  settle-run (err (publication_rejected detail)) job reason h = refl
  settle-run (err (publish_uncertain detail)) job reason h = absurd (never_falls _ job reason h)
  settle-run (err e) job reason h = absurd (never_falls _ job reason h)

  pub body-run :
      (action : PlannedAction) (job : Job) (reason : String)
      → (pull_request_body svc action job).0 ≡ ok (falls_back reason)
      → (pull_request_body svc action job).1.run ≡ job.run
  unfolding pull_request_body publish_pull_request
  body-run action job reason = at (is_some job.run.verified_candidate)
    where
      asked : Exec Job Attempt
      asked = publish_pull_request svc action >>= settle_pull_request svc

      unavailable : Exec Job Attempt
      unavailable = pure (falls_back "The verified candidate checkpoint was unavailable.")

      at :
          (b : Bool)
          → ((if b then asked else unavailable) job).0 ≡ ok (falls_back reason)
          → ((if b then asked else unavailable) job).1.run ≡ job.run
      at true h = settle-run _ (note (requested pull_request) job) reason h
      at false h = refl

module _ (svc : Services) (again : Exec Job AuditRun) (h : IsQuietAgain again) where
  saved_again :
      (job : Job)
      → HasNoReady job.run.actions
      → pr_requests ((save svc >> again) job).1 ≤ pr_requests job
  unfolding save
  saved_again job none_ready = elim (Result-cases (svc.save job)) [
    | inl (e, failed) ↦ rw (failed, save) (omega arith)
    | inr (done, kept) ↦ rw (kept, save) (h (note (saved job.run) job) none_ready)
  ]

  falls_back-quiet :
      (reason : String) (job : Job)
      → HasOnePr job.run
      → pr_requests (after_attempt svc again (falls_back reason) job).1 ≤ pr_requests job
  unfolding after_attempt change
  falls_back-quiet reason job one = elim (Result-cases (select_issue_fallback job.run reason)) [
    | inl (e, raised) ↦ rw (raised, after_attempt, change) (omega arith)
    | inr (run, done) ↦
        rw (done, after_attempt, change)
          (saved_again (record job { run = run }) (fallback-HasNoReady job.run reason done one))
  ]

  attempt-bound :
      (r : Result Attempt) (job : Job)
      → ((reason : String) → r ≡ ok (falls_back reason) → HasOnePr job.run)
      → pr_requests (continue r (after_attempt svc again) job).1 ≤ pr_requests job
  unfolding after_attempt
  attempt-bound (err e) job one = omega arith
  attempt-bound (ok (settled run)) job one = omega arith
  attempt-bound (ok (falls_back reason)) job one = falls_back-quiet reason job (one reason refl)

  released_body-bound :
      (action : PlannedAction) (job : Job)
      → HasOnePr job.run
      → pr_requests
          ((finally_release action.id (pull_request_body svc action) >>= after_attempt svc again)
            job).1
        ≤ 1 + pr_requests job
  released_body-bound action job one = omega (
    arith,
    (pull_request_body-AtMost pull_request svc action).bound job,
    attempt-bound (pull_request_body svc action job).0
        (note (released action.id) (pull_request_body svc action job).1)
        (λ reason fell. subst HasOnePr (sym (body-run svc action job reason fell)) one),
  )

  dispatch_pr_with_lease-bound :
      (action : PlannedAction) (job : Job)
      → HasOnePr job.run
      → pr_requests (dispatch_pr_with_lease svc again action job).1 ≤ 1 + pr_requests job
  unfolding dispatch_pr_with_lease acquire
  dispatch_pr_with_lease-bound action job one =
      elim (Result-cases (svc.acquire_action_lease job action.id)) [
        | inl (e, failed) ↦ rw (failed, dispatch_pr_with_lease, acquire) (omega arith)
        | inr (is_mine, answered) ↦ elim (Bool-cases is_mine) [
          | inl mine ↦
              rw (answered, mine, dispatch_pr_with_lease, acquire)
                (omega (arith, released_body-bound action (note (acquired action.id) job) one))
          | inr taken ↦
              rw (answered, taken, dispatch_pr_with_lease, acquire)
                (omega (arith, (leave_to_other-quiet pull_request svc).bound job))
        ]
      ]

  dispatch_pr_at-bound :
      (action : Option PlannedAction) (job : Job)
      → HasOnePr job.run
      → pr_requests (dispatch_pr_at svc again action job).1 ≤ 1 + pr_requests job
  unfolding dispatch_pr_at
  dispatch_pr_at-bound none job one =
      omega (arith, (dispatch_issue-AtMost pull_request svc).bound job)
  dispatch_pr_at-bound (some action) job one =
      at_one
        (svc.github_actions_enabled
          && is_some job.run.repository
          && is_some job.run.verified_candidate)
        (dispatch_pr_with_lease svc again action) _ job (1 + pr_requests job)
        (dispatch_pr_with_lease-bound action job one)
        (omega (
          arith,
          (quiet_then pull_request
                (change-quiet pull_request
                  (λ now run. select_issue_fallback run (fallback_reason svc)) svc)
                (quiet_then pull_request (save-quiet pull_request svc)
                  (dispatch_issue-AtMost pull_request svc))).bound
              job,
        ))

  dispatch_unrouted-bound :
      (confirmed : Option PlannedAction) (job : Job)
      → HasOnePr job.run
      → pr_requests (dispatch_unrouted svc again confirmed job).1 ≤ 1 + pr_requests job
  unfolding dispatch_unrouted preserve_receipt
  dispatch_unrouted-bound (some action) job one = omega (
    arith,
    (finish_without-quiet pull_request svc
          (concat ("Confirmed GitHub " ∷ kind_words action.kind ∷ " receipt preserved" ∷ []))).bound
        job,
  )
  dispatch_unrouted-bound none job one =
      dispatch_pr_at-bound (find_first is_selected_pr job.run.actions) job one

-- A dispatch asks GitHub for at most one issue and, if the plan has one pull request at most, for at most
-- one pull request, whatever GitHub, the store and the leases answer, at every depth of the recursion.
pub dispatch_and_complete-once :
    (fuel : ℕ) (svc : Services) (job : Job)
    → HasOnePr job.run
    → (requests pull_request (dispatch_and_complete fuel svc job).1 ≤ 1 + requests pull_request job)
      × (requests issue (dispatch_and_complete fuel svc job).1 ≤ 1 + requests issue job)
unfolding dispatch_and_complete
dispatch_and_complete-once zero svc job one = (omega arith, omega arith)
dispatch_and_complete-once (suc fuel) svc job one = (
  at_one (is_routed (last? job.run.events)) _ _ job _
      (omega (
        arith,
        (quiet_then pull_request (complete_run-quiet pull_request svc)
              (return_run-quiet pull_request)).bound
            job,
      ))
      (dispatch_unrouted-bound svc (dispatch_and_complete fuel svc) (dispatch-no_ready fuel svc)
        (find_first is_confirmed job.run.actions) job one),
  (dispatch-issue (suc fuel) svc).bound job,
)
