-- ===== src/Service/Depth.antt =====
-- How deep a dispatch calls itself (service.py): once, after a pull request was refused.
use mathlib.Core.Path.{subst}
use i_promise.Base.{
  ℕ, suc, ◌≡◌, refl, sym, inl, inr, Bool, true, false, ◌&&◌, String, Option, none, some,
  if◌then◌else◌, string_eq, Bool-cases,
}
use i_promise.Lists.{find_first, last?}
use i_promise.Errors.{Result, ok, err, Result-cases}
use i_promise.Exec.{Exec, continue, ◌>>◌}
use i_promise.Models.{AuditRun, PlannedAction}
use i_promise.Service.{is_some}
use i_promise.Service.Recovery.{select_issue_fallback}
use i_promise.Service.Jobs.{saved, acquired, released, Job, Services, note, change, save}
use i_promise.Service.Dispatch.{
  is_selected_pr, acquire, Attempt, settled, falls_back, pull_request_body, after_attempt,
  dispatch_pr_with_lease, dispatch_pr_at, is_routed, is_confirmed, dispatch_unrouted,
  dispatch_and_complete,
}
use i_promise.Service.Publish.{HasNoReady, HasOnePr, fallback-HasNoReady}
use i_promise.Service.Single.{body-run}

module _ (svc : Services) (again again' : Exec Job AuditRun) where
  -- The two agree where no pull request is ready.
  abbrev AgreeQuietly : Type 0
  AgreeQuietly = (job : Job) → HasNoReady job.run.actions → again job ≡ again' job

  unrouted-same :
      (confirmed : Option PlannedAction) (job : Job)
      → HasNoReady job.run.actions
      → dispatch_unrouted svc again confirmed job ≡ dispatch_unrouted svc again' confirmed job
  unfolding dispatch_unrouted dispatch_pr_at
  unrouted-same (some action) job h = refl
  unrouted-same none job h = rw (h, dispatch_pr_at) refl

  saved_again-same :
      AgreeQuietly
      → (job : Job) → HasNoReady job.run.actions
      → (save svc >> again) job ≡ (save svc >> again') job
  unfolding save
  saved_again-same agree job none_ready = elim (Result-cases (svc.save job)) [
    | inl (e, failed) ↦ rw (failed, save) refl
    | inr (done, kept) ↦ rw (kept, save) (agree (note (saved job.run) job) none_ready)
  ]

  falls_back-same :
      AgreeQuietly
      → (reason : String) (job : Job) → HasOnePr job.run
      → after_attempt svc again (falls_back reason) job
        ≡ after_attempt svc again' (falls_back reason) job
  unfolding after_attempt change
  falls_back-same agree reason job one =
      elim (Result-cases (select_issue_fallback job.run reason)) [
        | inl (e, raised) ↦ rw (raised, after_attempt, change) refl
        | inr (run, done) ↦
            rw (done, after_attempt, change)
              (saved_again-same agree (record job { run = run })
                (fallback-HasNoReady job.run reason done one))
      ]

  attempt-same :
      AgreeQuietly
      → (r : Result Attempt) (job : Job)
      → ((reason : String) → r ≡ ok (falls_back reason) → HasOnePr job.run)
      → continue r (after_attempt svc again) job ≡ continue r (after_attempt svc again') job
  unfolding after_attempt
  attempt-same agree (err e) job one = refl
  attempt-same agree (ok (settled run)) job one = refl
  attempt-same agree (ok (falls_back reason)) job one =
      falls_back-same agree reason job (one reason refl)

  lease-same :
      AgreeQuietly
      → (action : PlannedAction) (job : Job) → HasOnePr job.run
      → dispatch_pr_with_lease svc again action job ≡ dispatch_pr_with_lease svc again' action job
  unfolding dispatch_pr_with_lease acquire
  lease-same agree action job one = elim (Result-cases (svc.acquire_action_lease job action.id)) [
    | inl (e, failed) ↦ rw (failed, dispatch_pr_with_lease, acquire) refl
    | inr (is_mine, answered) ↦ elim (Bool-cases is_mine) [
      | inl mine ↦
          rw (answered, mine, dispatch_pr_with_lease, acquire)
            (attempt-same agree (pull_request_body svc action (note (acquired action.id) job)).0
              (note (released action.id)
                (pull_request_body svc action (note (acquired action.id) job)).1)
              (λ reason fell.
                subst HasOnePr
                  (sym (body-run svc action (note (acquired action.id) job) reason fell)) one))
      | inr taken ↦ rw (answered, taken, dispatch_pr_with_lease, acquire) refl
    ]
  ]

  pr_at-same :
      AgreeQuietly
      → (action : Option PlannedAction) (job : Job) → HasOnePr job.run
      → dispatch_pr_at svc again action job ≡ dispatch_pr_at svc again' action job
  unfolding dispatch_pr_at
  pr_at-same agree none job one = refl
  pr_at-same agree (some action) job one =
      at
        (svc.github_actions_enabled
          && is_some job.run.repository
          && is_some job.run.verified_candidate)
        _ _ _ (lease-same agree action job one)
    where
      at :
          (b : Bool) (m m' k : Exec Job AuditRun)
          → m job ≡ m' job
          → (if b then m else k) job ≡ (if b then m' else k) job
      at true m m' k h = h
      at false m m' k h = refl

  unrouted_once-same :
      AgreeQuietly
      → (confirmed : Option PlannedAction) (job : Job) → HasOnePr job.run
      → dispatch_unrouted svc again confirmed job ≡ dispatch_unrouted svc again' confirmed job
  unfolding dispatch_unrouted
  unrouted_once-same agree (some action) job one = refl
  unrouted_once-same agree none job one =
      pr_at-same agree (find_first is_selected_pr job.run.actions) job one

at_same :
    (b : Bool) (k m m' : Exec Job AuditRun) (job : Job)
    → m job ≡ m' job
    → (if b then k else m) job ≡ (if b then k else m') job
at_same true k m m' job h = refl
at_same false k m m' job h = h

-- Without a ready pull request, the dispatch does not call itself.
dispatch-one_deep :
    (fuel : ℕ) (svc : Services) (job : Job)
    → HasNoReady job.run.actions
    → dispatch_and_complete (suc fuel) svc job ≡ dispatch_and_complete 1 svc job
unfolding dispatch_and_complete
dispatch-one_deep fuel svc job h = at_same (is_routed (last? job.run.events)) _ _ _ job (
    unrouted-same svc (dispatch_and_complete fuel svc) (dispatch_and_complete 0 svc)
      (find_first is_confirmed job.run.actions) job h)

-- A dispatch of a plan with one pull request at most needs two levels of recursion: with any more, it
-- gives the same result and does the same, so the bound on the recursion is never what stops it.
pub dispatch_and_complete-two_deep :
    (fuel : ℕ) (svc : Services) (job : Job)
    → HasOnePr job.run
    → dispatch_and_complete (suc (suc fuel)) svc job ≡ dispatch_and_complete 2 svc job
unfolding dispatch_and_complete
dispatch_and_complete-two_deep fuel svc job one =
    at_same (is_routed (last? job.run.events)) _ _ _ job (
      unrouted_once-same svc (dispatch_and_complete (suc fuel) svc) (dispatch_and_complete 1 svc)
        (λ j h. dispatch-one_deep fuel svc j h) (find_first is_confirmed job.run.actions) job one)
