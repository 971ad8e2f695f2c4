-- ===== src/Tests/Service.antt =====
-- Tests of Service.
use i_promise.Base.{
  string_eq, ◌⊎◌, ℕ, ◌+◌, ◌≡◌, refl, true, false, none, some, List, [], ◌∷◌, arith, ltb,
  if◌then◌else◌, ◌&&◌,
}
use i_promise.Lists.{any, count_if}
use i_promise.Errors.{ok}
use i_promise.Models.{AuditRun, RunStatus, Mode, ActionState, is_issue, is_planned, is_ready}
use i_promise.Actions.{
  is_selected, proposed_actions, validate_action_plan, receipt_proves_candidate,
}
use i_promise.Actions.Gates.{IsSafe, validate_action_plan_sound}
use i_promise.RunStore.{
  RunStore, new, reserve, apply_all, acquire_run_lease, Call, acquiring_run, releasing_run, saving,
}
use i_promise.RunStore.Leases.{AreForeign}
use i_promise.StateMachine.{last_is_running}
use i_promise.StateMachine.Trail.{Extends}
use i_promise.Service.{Settings, new_run, attempt_count, fail_retryable}
use i_promise.Service.Recovery.{select_issue_fallback}
use i_promise.Dict.{lookup}
use i_promise.Service.Claimed.{is_barred, claim_reserved-starts}
use i_promise.Service.Claiming.{
  Operation, execute, choose, claim_reserved, claim_after, claim_run, settle, finish_claim,
}
use i_promise.Service.Budget.{fail_retryable_lem}
use i_promise.Service.Exclusive.{claim_run-excludes}
use i_promise.Service.Fallback.{select_issue_fallback-IsSafe}
use i_promise.Service.History.{choose-Extends}
use i_promise.Tests.Samples.{sample_run, later_run, proving_receipt}
use i_promise.Tests.RunStore.{new-IsConsistent, rivals}
use i_promise.Tests.Actions.{plan}

abbrev settings : Settings
settings = record {
  mode = Mode.demonstration;
  is_deterministic = true;
  demo_base_url = "http://127.0.0.1:8081";
  execution_target = "local-process";
  cloud_run_revision = none;
  github_actions_enabled = false;
}

starts_fresh : attempt_count (new_run settings 1000 "run_0001" "key-00001" none) ≡ 1
unfolding attempt_count new_run
starts_fresh = refl

fail_retryable_lem_example :
    (after : AuditRun) × (fail_retryable 7 sample_run "timed out" false ≡ ok after)
    × (attempt_count after ≡ attempt_count sample_run)
    × (after.status ≡ (
        if ltb (attempt_count sample_run) 3
        then RunStatus.failed_retryable
        else RunStatus.failed_safe))
    × (last_is_running after ≡ false)
fail_retryable_lem_example = fail_retryable_lem 7 sample_run "timed out" false refl

abbrev retryable : AuditRun
retryable = record sample_run { status = RunStatus.failed_retryable }

choose-Extends_example : Extends retryable (choose 8 false retryable).run
choose-Extends_example = choose-Extends 8 false retryable

abbrev finished : AuditRun
finished = record sample_run { status = RunStatus.complete }

abbrev with_finished : RunStore
with_finished = record new { runs = ("run_0001", finished) ∷ [] }

abbrev with_retryable : RunStore
with_retryable = record new { runs = ("run_0001", retryable) ∷ [] }

claim_reserved-starts_example :
    let (result, after) = claim_reserved 9 8 "worker_a" false retryable false with_retryable in
    ((is_barred 9 "worker_a" false retryable with_retryable ≡ true)
      × (result ≡ ok (none, retryable))
      × (after.runs ≡ with_retryable.runs))
    ⊎ ((is_barred 9 "worker_a" false retryable with_retryable ≡ false)
        × (operation : Operation) × ((choose 8 false retryable).operation ≡ some operation)
        × (result ≡ ok (some operation, (choose 8 false retryable).run))
        × (lookup "run_0001" after.run_leases ≡ some ("worker_a", 9 + 1200)))
claim_reserved-starts_example =
    claim_reserved-starts 9 8 "worker_a" false retryable with_retryable refl

-- The run is free, so the claim starts its execution.
retryable_is_free : is_barred 9 "worker_a" false retryable with_retryable ≡ false
unfolding attempt_count
retryable_is_free = refl

finished_is_barred : is_barred 9 "worker_a" false finished with_finished ≡ true
finished_is_barred = refl

-- Another worker tries for the lease while the first executes.
abbrev attempts : List (ℕ × Call)
attempts =
    (10, acquiring_run "run_0001" "worker_b" 60)
    ∷ (11, saving sample_run)
    ∷ (12, releasing_run "run_0001" "worker_b")
    ∷ []

strangers : AreForeign "run_0001" "worker_a" (5 + 1200) attempts
strangers = (omega arith, refl, (omega arith, refl, (omega arith, refl, tt)))

claimed :
    (claim_run 5 0 "key-00001" sample_run "worker_a" (λ _. false) new).0
    ≡ ok (some execute, sample_run)
unfolding claim_run claim_after claim_reserved reserve acquire_run_lease settle finish_claim choose
claimed = refl

claim_run-excludes_example :
    let t =
      apply_all attempts (claim_run 5 0 "key-00001" sample_run "worker_a" (λ _. false) new).1 in
    (again : AuditRun) × (claim_run 1000 1 "key-00001" later_run "worker_b" (λ _. false) t
      ≡ (ok (none, again), t))
    × (again.id ≡ "run_0001")
claim_run-excludes_example =
    claim_run-excludes 5 0 1000 1 "key-00001" "worker_a" "worker_b" sample_run later_run
      (λ _. false) (λ _. false) new attempts new-IsConsistent claimed strangers (omega arith) rivals

abbrev routed : AuditRun
routed = record sample_run { actions = plan }

plan-IsSafe : IsSafe plan (some proving_receipt)
unfolding plan proposed_actions validate_action_plan receipt_proves_candidate
plan-IsSafe = validate_action_plan_sound plan (some proving_receipt) refl

pull_request_is_ready : plan-IsSafe.pr.state ≡ ActionState.ready
unfolding plan proposed_actions
pull_request_is_ready = ground (arith, plan-IsSafe.three)

select_issue_fallback-IsSafe_example :
    (after : AuditRun) × (select_issue_fallback routed "rejected" ≡ ok after)
    × IsSafe after.actions (some proving_receipt)
    × (count_if is_selected after.actions ≡ 1)
    × (any (λ action. is_issue action.kind && is_planned action.state) after.actions ≡ true)
    × (any (λ action. is_ready action.state) after.actions ≡ false)
select_issue_fallback-IsSafe_example =
    select_issue_fallback-IsSafe routed (some proving_receipt) "rejected" plan-IsSafe
      pull_request_is_ready
