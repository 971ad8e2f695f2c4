-- ===== src/Service/Requests.antt =====
-- How often a dispatch asks GitHub to publish (service.py).
use i_promise.Base.{
  ℕ, ◌+◌, ◌≤◌, inl, inr, Bool, true, false, String, arith, if◌then◌else◌, string_eq, Bool-cases,
  Option-cases,
}
use i_promise.Lists.{count_if}
use i_promise.Errors.{
  Exception, Result, ok, err, publication_rejected, publish_uncertain, completion_checkpoint,
  Result-cases,
}
use i_promise.Exec.{Exec, raise, continue, ◌>>=◌, ◌>>◌}
use i_promise.Models.{AuditRun, PlannedAction, ActionKind, pull_request, issue, email}
use i_promise.Github.{PublishedPullRequest, PublishedIssue}
use i_promise.Service.Jobs.{
  Effect, requested, Job, Services, change, save, return_run, save_or, complete_run, save_complete,
  restore_routing, is_integration_error, stop_safely, stop_uncertain,
}
use i_promise.Service.Dispatch.{
  record_receipt, settle_issue, finally_release, leave_to_other, acquire, settling,
  settle_pull_request, finish_without,
}

abbrev pub same_kind : ActionKind → ActionKind → Bool
same_kind pull_request pull_request = true
same_kind issue issue = true
same_kind email email = true
same_kind _ _ = false

abbrev pub is_request : ActionKind → Effect → Bool
is_request kind (requested k) = same_kind kind k
is_request kind _ = false

-- The publications of a kind that were asked for.
abbrev pub requests : ActionKind → Job → ℕ
requests kind job = count_if (is_request kind) job.log

-- A step asks at most `n` times.
pub record AtMost {A : Type 0} (kind : ActionKind) (n : ℕ) (m : Exec Job A) : Type 0 where
  pub bound : (job : Job) → requests kind (m job).1 ≤ n + requests kind job

module _ (kind : ActionKind) where
  continue-bound :
      {A B : Type 0} (n : ℕ) (r : Result A) (f : A → Exec Job B) (job : Job)
      → ((a : A) → AtMost kind n (f a))
      → requests kind (continue r f job).1 ≤ n + requests kind job
  continue-bound n (ok a) f job h = (h a).bound job
  continue-bound n (err e) f job h = omega arith

  -- After a step that asks for nothing.
  pub quiet_bind :
      {A B : Type 0} {n : ℕ} {m : Exec Job A} {f : A → Exec Job B}
      → AtMost kind 0 m
      → ((a : A) → AtMost kind n (f a))
      → AtMost kind n (m >>= f)
  quiet_bind {n} {m} {f} h g = record {
    bound = λ job. omega (arith, h.bound job, continue-bound n (m job).0 f (m job).1 g);
  }

  pub quiet_then :
      {A B : Type 0} {n : ℕ} {m : Exec Job A} {k : Exec Job B}
      → AtMost kind 0 m
      → AtMost kind n k
      → AtMost kind n (m >> k)
  quiet_then {n} {m} {k} h g = record {
    bound =
        λ job. omega (arith, h.bound job, continue-bound n (m job).0 (λ a. k) (m job).1 (λ a. g));
  }

  -- Before steps that ask for nothing.
  pub bind_quiet :
      {A B : Type 0} {n : ℕ} {m : Exec Job A} {f : A → Exec Job B}
      → AtMost kind n m
      → ((a : A) → AtMost kind 0 (f a))
      → AtMost kind n (m >>= f)
  bind_quiet {n} {m} {f} h g = record {
    bound = λ job. omega (arith, h.bound job, continue-bound 0 (m job).0 f (m job).1 g);
  }

  pub change-quiet :
      (f : ℕ → AuditRun → Result AuditRun) (svc : Services) → AtMost kind 0 (change f svc)
  unfolding change
  change-quiet f svc = record {
    bound = λ job. elim (Result-cases (f (svc.now job) job.run)) [
      | inl (e, raised) ↦ rw (raised, change) (omega arith)
      | inr (run, done) ↦ rw (done, change) (omega arith)
    ];
  }

  save_or-quiet :
      (svc : Services) (repair : AuditRun → AuditRun) (raised : Exception)
      → AtMost kind 0 (save_or svc repair raised)
  unfolding save_or
  save_or-quiet svc repair raised = record {
    bound = λ job. elim (Result-cases (svc.save job)) [
      | inl (e, failed) ↦ rw (failed, save_or) (omega arith)
      | inr (done, kept) ↦ rw (kept, save_or) (omega arith)
    ];
  }

  pub save-quiet : (svc : Services) → AtMost kind 0 (save svc)
  unfolding save
  save-quiet svc = record {
    bound = λ job. elim (Result-cases (svc.save job)) [
      | inl (e, failed) ↦ rw (failed, save) (omega arith)
      | inr (done, kept) ↦ rw (kept, save) (omega arith)
    ];
  }

  pub return_run-quiet : AtMost kind 0 return_run
  return_run-quiet = record { bound = λ job. omega arith }

  save_complete-quiet : (svc : Services) → AtMost kind 0 (save_complete svc)
  unfolding save_complete
  save_complete-quiet svc = record {
    bound = λ job.
        (save_or-quiet svc (restore_routing (svc.now job))
            (completion_checkpoint "Final run checkpoint could not be persisted")).bound
          job;
  }

  pub complete_run-quiet : (svc : Services) → AtMost kind 0 (complete_run svc)
  unfolding complete_run
  complete_run-quiet svc =
      quiet_then (change-quiet _ svc) (quiet_then (change-quiet _ svc) (save_complete-quiet svc))

  -- A change of the run, a save, and the end.
  finish-quiet :
      (f : ℕ → AuditRun → Result AuditRun) (svc : Services)
      → AtMost kind 0 (change f svc >> (save svc >> return_run))
  finish-quiet f svc =
      quiet_then (change-quiet f svc) (quiet_then (save-quiet svc) return_run-quiet)

  pub if_both :
      {A : Type 0} {n : ℕ} (b : Bool) {m k : Exec Job A}
      → AtMost kind n m
      → AtMost kind n k
      → AtMost kind n (if b then m else k)
  if_both true h g = h
  if_both false h g = g

  pub raise-quiet : {A : Type 0} (e : Exception) → AtMost kind 0 (raise {A = A} e)
  raise-quiet e = record { bound = λ job. omega arith }

  stop_safely-quiet : (svc : Services) (e : Exception) → AtMost kind 0 (stop_safely svc e)
  unfolding stop_safely
  stop_safely-quiet svc e = if_both (is_integration_error e) (finish-quiet _ svc) (raise-quiet e)

  stop_uncertain-quiet :
      (svc : Services) (detail : String) → AtMost kind 0 (stop_uncertain svc detail)
  unfolding stop_uncertain
  stop_uncertain-quiet svc detail = finish-quiet _ svc

  record_receipt-quiet :
      (svc : Services) (is_it : PlannedAction → Bool) (k : ActionKind) (url : String) (number : ℕ)
      (reason detail : String)
      → AtMost kind 0 (record_receipt svc is_it k url number reason detail)
  unfolding record_receipt
  record_receipt-quiet svc is_it k url number reason detail = quiet_then (change-quiet _ svc) (
      quiet_then (change-quiet _ svc)
        (quiet_then (save_or-quiet svc _ _) (quiet_then (complete_run-quiet svc) return_run-quiet)))

  pub finish_without-quiet :
      (svc : Services) (detail : String) → AtMost kind 0 (finish_without svc detail)
  unfolding finish_without
  finish_without-quiet svc detail =
      quiet_then (change-quiet _ svc)
        (quiet_then (save-quiet svc) (quiet_then (complete_run-quiet svc) return_run-quiet))

  pub acquire-quiet : (svc : Services) (id : String) → AtMost kind 0 (acquire svc id)
  unfolding acquire
  acquire-quiet svc id = record {
    bound = λ job. elim (Result-cases (svc.acquire_action_lease job id)) [
      | inl (e, failed) ↦ rw (failed, acquire) (omega arith)
      | inr (is_mine, answered) ↦ elim (Bool-cases is_mine) [
        | inl mine ↦ rw (answered, mine, acquire) (omega arith)
        | inr taken ↦ rw (answered, taken, acquire) (omega arith)
      ]
    ];
  }

  pub leave_to_other-quiet : (svc : Services) → AtMost kind 0 (leave_to_other svc)
  unfolding leave_to_other
  leave_to_other-quiet svc = record {
    bound = λ job. elim (Option-cases (svc.stored job)) [
      | inl missing ↦ rw (missing, leave_to_other) (omega arith)
      | inr (current, there) ↦ rw (there, leave_to_other) (omega arith)
    ];
  }

  pub finally_release-AtMost :
      {A : Type 0} {n : ℕ} {m : Exec Job A} (id : String)
      → AtMost kind n m
      → AtMost kind n (finally_release id m)
  finally_release-AtMost id h = record { bound = λ job. h.bound job }

  pub settle_issue-quiet :
      (svc : Services) (answer : Result PublishedIssue) → AtMost kind 0 (settle_issue svc answer)
  unfolding settle_issue
  settle_issue-quiet svc (ok receipt) = record_receipt-quiet svc _ _ _ _ _ _
  settle_issue-quiet svc (err (publish_uncertain detail)) = stop_uncertain-quiet svc detail
  settle_issue-quiet svc (err e) = stop_safely-quiet svc e

  settling-quiet : {m : Exec Job AuditRun} → AtMost kind 0 m → AtMost kind 0 (settling m)
  unfolding settling
  settling-quiet h = quiet_bind h (λ run. record { bound = λ job. omega arith })

  pub settle_pull_request-quiet :
      (svc : Services) (answer : Result PublishedPullRequest)
      → AtMost kind 0 (settle_pull_request svc answer)
  unfolding settle_pull_request
  settle_pull_request-quiet svc (ok receipt) = settling-quiet (record_receipt-quiet svc _ _ _ _ _ _)
  settle_pull_request-quiet svc (err (publication_rejected detail)) = record {
    bound = λ job. omega arith;
  }
  settle_pull_request-quiet svc (err (publish_uncertain detail)) =
      settling-quiet (stop_uncertain-quiet svc detail)
  settle_pull_request-quiet svc (err e) = settling-quiet (stop_safely-quiet svc e)
