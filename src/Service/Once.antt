-- ===== src/Service/Once.antt =====
-- A dispatch asks GitHub for at most one issue and for at most one pull request (service.py).
use i_promise.Base.{
  ℕ, zero, suc, ◌+◌, ◌≤◌, not, ◌&&◌, Option, none, some, arith, if◌then◌else◌, string_eq,
}
use i_promise.Lists.{find_first, last?}
use i_promise.Exec.{Exec}
use i_promise.Models.{AuditRun, PlannedAction, ActionKind, pull_request, issue}
use i_promise.Service.{is_some}
use i_promise.Service.Jobs.{requested, Job, Services, note}
use i_promise.Service.Dispatch.{
  is_selected_pr, is_selected_issue, publish_issue, issue_body, dispatch_issue_with_lease, Attempt,
  settled, falls_back, publish_pull_request, pull_request_body, after_attempt,
  dispatch_pr_with_lease, dispatch_issue_at, dispatch_issue, dispatch_pr_at, is_routed,
  is_confirmed, preserve_receipt, dispatch_unrouted, dispatch_and_complete,
}
use i_promise.Service.Requests.{
  same_kind, requests, AtMost, quiet_bind, quiet_then, bind_quiet, change-quiet, save-quiet,
  return_run-quiet, complete_run-quiet, finish_without-quiet, acquire-quiet, leave_to_other-quiet,
  finally_release-AtMost, settle_issue-quiet, settle_pull_request-quiet, if_both,
}

-- How often a request of one kind counts for another.
abbrev weight : ActionKind → ActionKind → ℕ
weight kind asked = if same_kind kind asked then 1 else 0

module _ (kind : ActionKind) where
  pub weaken : {A : Type 0} {n : ℕ} {m : Exec Job A} → AtMost kind 0 m → AtMost kind n m
  weaken h = record { bound = λ job. omega (arith, h.bound job) }

  requested-once :
      (asked : ActionKind) (job : Job)
      → requests kind (note (requested asked) job) ≤ weight kind asked + requests kind job
  requested-once asked job = ground arith

  issue_body-AtMost :
      (svc : Services) (action : PlannedAction)
      → AtMost kind (weight kind issue) (issue_body svc action)
  unfolding issue_body publish_issue
  issue_body-AtMost svc action =
      bind_quiet kind {m = publish_issue svc action}
        (record { bound = λ job. requested-once issue job }) (settle_issue-quiet kind svc)

  dispatch_issue_with_lease-AtMost :
      (svc : Services) (action : PlannedAction)
      → AtMost kind (weight kind issue) (dispatch_issue_with_lease svc action)
  unfolding dispatch_issue_with_lease
  dispatch_issue_with_lease-AtMost svc action =
      quiet_bind kind (acquire-quiet kind svc action.id) (λ is_mine.
        if_both kind is_mine (finally_release-AtMost kind action.id (issue_body-AtMost svc action))
          (weaken (leave_to_other-quiet kind svc)))

  dispatch_issue_at-AtMost :
      (svc : Services) (action : Option PlannedAction)
      → AtMost kind (weight kind issue) (dispatch_issue_at svc action)
  unfolding dispatch_issue_at
  dispatch_issue_at-AtMost svc none = record {
    bound = λ job. (weaken {n = weight kind issue} (finish_without-quiet kind svc _)).bound job;
  }
  dispatch_issue_at-AtMost svc (some action) = record {
    bound = λ job.
        (if_both kind (svc.github_actions_enabled && is_some job.run.repository)
            (dispatch_issue_with_lease-AtMost svc action)
            (if_both kind (not (is_some job.run.repository))
              (weaken
                (finish_without-quiet kind svc "Issue selected · connect a repository to dispatch"))
              (weaken (
                finish_without-quiet kind svc
                  "Issue selected · external actions are disabled")))).bound
          job;
  }

  pub dispatch_issue-AtMost :
      (svc : Services) → AtMost kind (weight kind issue) (dispatch_issue svc)
  unfolding dispatch_issue
  dispatch_issue-AtMost svc = record {
    bound = λ job.
        (dispatch_issue_at-AtMost svc (find_first is_selected_issue job.run.actions)).bound job;
  }

  pub pull_request_body-AtMost :
      (svc : Services) (action : PlannedAction)
      → AtMost kind (weight kind pull_request) (pull_request_body svc action)
  unfolding pull_request_body publish_pull_request
  pull_request_body-AtMost svc action = record {
    bound = λ job.
        (if_both kind (is_some job.run.verified_candidate)
            (bind_quiet kind {m = publish_pull_request svc action}
              (record { bound = λ j. requested-once pull_request j })
              (settle_pull_request-quiet kind svc))
            (record { bound = λ j. omega arith })).bound
          job;
  }

-- Issues: whatever happens to a pull request, the dispatch asks for one issue at most.
module _ (svc : Services) (again : Exec Job AuditRun) (h : AtMost issue 1 again) where
  after_attempt-issue : (a : Attempt) → AtMost issue 1 (after_attempt svc again a)
  unfolding after_attempt
  after_attempt-issue (settled run) = record { bound = λ job. omega arith }
  after_attempt-issue (falls_back reason) =
      quiet_then issue (change-quiet issue _ svc) (quiet_then issue (save-quiet issue svc) h)

  dispatch_pr_with_lease-issue :
      (action : PlannedAction) → AtMost issue 1 (dispatch_pr_with_lease svc again action)
  unfolding dispatch_pr_with_lease
  dispatch_pr_with_lease-issue action =
      quiet_bind issue (acquire-quiet issue svc action.id) (λ is_mine.
        if_both issue is_mine
          (quiet_bind issue
            (finally_release-AtMost issue action.id (pull_request_body-AtMost issue svc action))
            after_attempt-issue)
          (weaken issue (leave_to_other-quiet issue svc)))

  dispatch_pr_at-issue :
      (action : Option PlannedAction) → AtMost issue 1 (dispatch_pr_at svc again action)
  unfolding dispatch_pr_at
  dispatch_pr_at-issue none = record { bound = λ job. (dispatch_issue-AtMost issue svc).bound job }
  dispatch_pr_at-issue (some action) = record {
    bound = λ job.
        (if_both issue
            (svc.github_actions_enabled
              && is_some job.run.repository
              && is_some job.run.verified_candidate)
            (dispatch_pr_with_lease-issue action)
            (quiet_then issue (change-quiet issue _ svc)
              (quiet_then issue (save-quiet issue svc) (dispatch_issue-AtMost issue svc)))).bound
          job;
  }

  dispatch_unrouted-issue :
      (confirmed : Option PlannedAction) → AtMost issue 1 (dispatch_unrouted svc again confirmed)
  unfolding dispatch_unrouted preserve_receipt
  dispatch_unrouted-issue (some action) = record {
    bound = λ job. (weaken issue {n = 1} (finish_without-quiet issue svc _)).bound job;
  }
  dispatch_unrouted-issue none = record {
    bound = λ job. (dispatch_pr_at-issue (find_first is_selected_pr job.run.actions)).bound job;
  }

pub dispatch-issue : (fuel : ℕ) (svc : Services) → AtMost issue 1 (dispatch_and_complete fuel svc)
unfolding dispatch_and_complete
dispatch-issue zero svc = record { bound = λ job. omega arith }
dispatch-issue (suc fuel) svc = record {
  bound = λ job.
      (if_both issue (is_routed (last? job.run.events))
          (weaken issue (quiet_then issue (complete_run-quiet issue svc) (return_run-quiet issue)))
          (dispatch_unrouted-issue svc (dispatch_and_complete fuel svc) (dispatch-issue fuel svc)
            (find_first is_confirmed job.run.actions))).bound
        job;
}
