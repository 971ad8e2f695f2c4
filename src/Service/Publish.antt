-- ===== src/Service/Publish.antt =====
-- A dispatch publishes at most once (service.py): after a pull request was refused, the issue is the one
-- action left.
use mathlib.Core.Path.{subst}
use i_promise.Base.{
  ℕ, zero, suc, ◌≤◌, ◌≡◌, refl, ◌⊎◌, inl, inr, Bool, true, false, String, Option, none, some, List,
  [], ◌∷◌, arith, if◌then◌else◌, string_eq, Bool-cases,
}
use i_promise.Lists.{count_if, find_first, last?}
use i_promise.Errors.{ok, Result-cases, ok_injective}
use i_promise.Text.{concat}
use i_promise.Exec.{Exec}
use i_promise.Models.{
  AuditRun, PlannedAction, ActionKind, pull_request, issue, email, is_pull_request, is_issue,
  kind_words,
}
use i_promise.Service.Recovery.{select_issue_fallback, change_first, block_pull_request, plan_issue}
use i_promise.Service.Jobs.{Job, Services}
use i_promise.Service.Dispatch.{
  is_selected_pr, dispatch_pr_at, is_routed, is_confirmed, preserve_receipt, dispatch_unrouted,
  dispatch_and_complete,
}
use i_promise.Service.Requests.{
  requests, quiet_then, return_run-quiet, complete_run-quiet, finish_without-quiet,
}
use i_promise.Service.Once.{dispatch_issue-AtMost}

-- No action of the run is a pull request that is ready.
abbrev pub HasNoReady : List PlannedAction → Type 0
HasNoReady actions = find_first is_selected_pr actions ≡ none

-- The plan has one pull request at most.
abbrev pub HasOnePr : AuditRun → Type 0
HasOnePr run = count_if (λ action. is_pull_request action.kind) run.actions ≤ 1

no_pr-HasNoReady :
    (actions : List PlannedAction)
    → count_if (λ action. is_pull_request action.kind) actions ≤ 0
    → HasNoReady actions
no_pr-HasNoReady [] h = refl
no_pr-HasNoReady (action ∷ rest) h = ground (arith, no_pr-HasNoReady rest)

-- The first action is changed, or a later one is.
change_first-cons :
    (is_it : PlannedAction → Bool) (f : PlannedAction → PlannedAction) (action : PlannedAction)
    (rest : List PlannedAction) {changed : List PlannedAction}
    → change_first is_it f (action ∷ rest) ≡ ok changed
    → ((is_it action ≡ true) × (f action ∷ rest ≡ changed))
      ⊎ ((is_it action ≡ false)
          × (later : List PlannedAction) × (change_first is_it f rest ≡ ok later)
          × (action ∷ later ≡ changed))
unfolding change_first
change_first-cons is_it f action rest h = elim (Bool-cases (is_it action)) [
  | inl this ↦ inl (this, ok_injective (rw (this, change_first) at h))
  | inr not_this ↦ elim (Result-cases (change_first is_it f rest)) [
    | inl (e, raised) ↦ absurd (ground (arith, rw (not_this, raised, change_first) at h))
    | inr (later, done) ↦
        inr (not_this, later, done, ok_injective (rw (not_this, done, change_first) at h))
  ]
]

block-HasNoReady :
    (reason : String) (actions : List PlannedAction) {blocked : List PlannedAction}
    → change_first (λ action. is_pull_request action.kind) (block_pull_request reason) actions
      ≡ ok blocked
    → count_if (λ action. is_pull_request action.kind) actions ≤ 1
    → HasNoReady blocked
unfolding change_first
block-HasNoReady reason [] h one = cc
block-HasNoReady reason (action ∷ rest) {blocked} h one =
    elim (change_first-cons (λ a. is_pull_request a.kind) (block_pull_request reason) action rest
      h) [
        | inl (this, same) ↦ subst HasNoReady same (ground (arith, no_pr-HasNoReady rest))
        | inr (not_this, later, done, same) ↦
            let still = block-HasNoReady reason rest done (ground arith) in
            subst HasNoReady same (ground arith)
      ]

planned_is_no_pr : (kind : ActionKind) → is_issue kind ≡ true → is_pull_request kind ≡ false
planned_is_no_pr pull_request h = cc
planned_is_no_pr issue h = refl
planned_is_no_pr email h = refl

plan-HasNoReady :
    (reason : String) (actions : List PlannedAction) {planned : List PlannedAction}
    → change_first (λ action. is_issue action.kind) (plan_issue reason) actions ≡ ok planned
    → HasNoReady actions
    → HasNoReady planned
unfolding change_first
plan-HasNoReady reason [] h none_ready = cc
plan-HasNoReady reason (action ∷ rest) {planned} h none_ready =
    elim (change_first-cons (λ a. is_issue a.kind) (plan_issue reason) action rest h) [
      | inl (this, same) ↦
          let other = planned_is_no_pr action.kind this in subst HasNoReady same (ground arith)
      | inr (not_this, later, done, same) ↦
          subst HasNoReady same (ground (arith, plan-HasNoReady reason rest done))
    ]

-- The fallback leaves no pull request that is ready.
pub fallback-HasNoReady :
    (run : AuditRun) (reason : String) {fallen : AuditRun}
    → select_issue_fallback run reason ≡ ok fallen
    → HasOnePr run
    → HasNoReady fallen.actions
unfolding select_issue_fallback
fallback-HasNoReady run reason {fallen} h one =
    elim (Result-cases (
      change_first (λ action. is_pull_request action.kind) (block_pull_request reason)
        run.actions)) [
          | inl (e, raised) ↦ absurd (ground (arith, rw (raised, select_issue_fallback) at h))
          | inr (blocked, first) ↦
              elim (Result-cases
                (change_first (λ action. is_issue action.kind) (plan_issue reason) blocked)) [
                  | inl (e, raised) ↦
                      absurd (ground (arith, rw (first, raised, select_issue_fallback) at h))
                  | inr (planned, second) ↦
                      subst (λ r. HasNoReady r.actions)
                        (ok_injective (rw (first, second, select_issue_fallback) at h))
                        (plan-HasNoReady reason blocked second
                          (block-HasNoReady reason run.actions first one))
                ]
        ]

abbrev pub pr_requests : Job → ℕ
pr_requests = requests pull_request

-- Pointwise: what a step asks at one job.
pub at_one :
    {A : Type 0} (b : Bool) (m k : Exec Job A) (job : Job) (n : ℕ)
    → pr_requests (m job).1 ≤ n
    → pr_requests (k job).1 ≤ n
    → pr_requests ((if b then m else k) job).1 ≤ n
at_one true m k job n h g = h
at_one false m k job n h g = g

-- Without a ready pull request, none is asked for.
pub dispatch_unrouted-no_ready :
    (svc : Services) (again : Exec Job AuditRun) (confirmed : Option PlannedAction) (job : Job)
    → HasNoReady job.run.actions
    → pr_requests (dispatch_unrouted svc again confirmed job).1 ≤ pr_requests job
unfolding dispatch_unrouted preserve_receipt dispatch_pr_at
dispatch_unrouted-no_ready svc again (some action) job h = omega (
  arith,
  (finish_without-quiet pull_request svc
        (concat ("Confirmed GitHub " ∷ kind_words action.kind ∷ " receipt preserved" ∷ []))).bound
      job,
)
dispatch_unrouted-no_ready svc again none job h =
    rw h (omega (arith, (dispatch_issue-AtMost pull_request svc).bound job))

pub dispatch-no_ready :
    (fuel : ℕ) (svc : Services) (job : Job)
    → HasNoReady job.run.actions
    → pr_requests (dispatch_and_complete fuel svc job).1 ≤ pr_requests job
unfolding dispatch_and_complete
dispatch-no_ready zero svc job h = omega arith
dispatch-no_ready (suc fuel) svc job h =
    at_one (is_routed (last? job.run.events)) _ _ job _
      (omega (
        arith,
        (quiet_then pull_request (complete_run-quiet pull_request svc)
              (return_run-quiet pull_request)).bound
            job,
      ))
      (dispatch_unrouted-no_ready svc (dispatch_and_complete fuel svc)
        (find_first is_confirmed job.run.actions) job h)
