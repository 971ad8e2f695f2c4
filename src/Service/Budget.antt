-- ===== src/Service/Budget.antt =====
-- The attempts of a run: what counts as one, and how the service bounds them (service.py).
use i_promise.Base.{
  ℕ, suc, ◌+◌, ◌≤◌, ◌≡◌, refl, ◌∙◌, inl, inr, ◌⊎◌, Bool, true, false, String, none, arith, ltb, leb,
  if◌then◌else◌, Bool-cases, string_eq, not, nat_eq,
}
use i_promise.Dict.{lookup, contains}
use i_promise.Lists.{count_if, update_last, count_if-append, count_if-update_last}
use i_promise.Errors.{ok}
use i_promise.Models.{AuditRun, RunStatus, EventState}
use i_promise.StateMachine.{
  append_event, close_event, last_is_running, fail_events, fail_run, is_terminal,
}
use i_promise.StateMachine.Progress.{fail_run_total}
use i_promise.RunStore.{RunStore, acquire_run_lease, release_run_lease, is_held_by_other}
use i_promise.Service.{
  attempt_count, is_attempt, fail_retryable, max_run_attempts, run_lease_seconds,
}
use i_promise.Service.Recovery.{reset_interrupted_run, resume_action_dispatch}
use i_promise.Service.Claiming.{
  keep, choose, choose_at, retry_choice, is_over, claim_reserved, settle,
}

close_event-attempts :
    (run : AuditRun) (state : EventState) (detail : String)
    → count_if is_attempt (update_last (close_event state detail) run.events)
      ≡ count_if is_attempt run.events
close_event-attempts run state detail =
    count_if-update_last is_attempt (close_event state detail) run.events (λ e. refl)

fail_events-attempts :
    (now : ℕ) (run : AuditRun) (status : RunStatus) (detail : String)
    → count_if is_attempt (fail_events now run status detail).events
      ≡ count_if is_attempt run.events
unfolding fail_events append_event
fail_events-attempts now run status detail = elim (Bool-cases (last_is_running run)) [
  | inl open_event ↦ rw open_event (close_event-attempts run EventState.failed detail)
  | inr closed ↦ rw closed (omega (arith, count_if-append is_attempt run.events _))
]

reset-attempts :
    (now : ℕ) (run : AuditRun)
    → attempt_count (reset_interrupted_run now run) ≡ suc (attempt_count run)
unfolding reset_interrupted_run append_event attempt_count
reset-attempts now run = elim (Bool-cases (last_is_running run)) [
  | inl open_event ↦ rw open_event (
      omega (
        arith,
        count_if-append is_attempt
            (update_last
              (close_event EventState.failed "Worker stopped before this stage completed")
              run.events)
            _,
        close_event-attempts run EventState.failed "Worker stopped before this stage completed",
      ))
  | inr closed ↦ rw closed (omega (arith, count_if-append is_attempt run.events _))
]

resume-attempts :
    (now : ℕ) (run : AuditRun)
    → attempt_count (resume_action_dispatch now run) ≡ suc (attempt_count run)
unfolding resume_action_dispatch append_event attempt_count
resume-attempts now run = omega (arith, count_if-append is_attempt run.events _)

fail_run-attempts :
    (now : ℕ) (run : AuditRun) (status : RunStatus) (detail : String) (retryable uncertain : Bool)
    {after : AuditRun}
    → fail_run now run status detail retryable uncertain ≡ ok after
    → attempt_count after ≡ attempt_count run
unfolding fail_run attempt_count
fail_run-attempts now run status detail retryable uncertain {after} h =
    let same : after.events ≡ (fail_events now run status detail).events = ground arith in
    rw same (fail_events-attempts now run status detail)

-- Failing a run that has not ended never raises and is not an attempt. The run can be retried exactly
-- if fewer than three attempts were made; from the third on it is failed safe.
pub fail_retryable_lem :
    (now : ℕ) (run : AuditRun) (detail : String) (uncertain : Bool)
    → is_terminal run.status ≡ false
    → (after : AuditRun) × (fail_retryable now run detail uncertain ≡ ok after)
      × (attempt_count after ≡ attempt_count run)
      × (after.status ≡ (
          if ltb (attempt_count run) 3 then RunStatus.failed_retryable else RunStatus.failed_safe))
      × (last_is_running after ≡ false)
unfolding fail_retryable
fail_retryable_lem now run detail uncertain running =
    let exhausted = leb max_run_attempts (attempt_count run) in
    let status : RunStatus =
      if exhausted then RunStatus.failed_safe else RunStatus.failed_retryable in
    let (after, failed, status_of, closed, _, _, _, _, _) =
      fail_run_total now run status _ (not exhausted) uncertain (ground arith) running in
    (
      after,
      failed,
      fail_run-attempts now run status _ (not exhausted) uncertain failed,
      status_of ∙ ground arith,
      closed,
    )

-- A choice makes an attempt exactly if it changes the run, and then one.
pub choose-attempts :
    (now : ℕ) (created : Bool) (run : AuditRun)
    → attempt_count (choose now created run).run
      ≡ attempt_count run + (if (choose now created run).is_changed then 1 else 0)
unfolding choose choose_at retry_choice
choose-attempts now created run = ground (arith, reset-attempts now run, resume-attempts now run)

exhausted_choice :
    (now : ℕ) (run : AuditRun)
    → run.status ≡ RunStatus.failed_retryable
    → 3 ≤ attempt_count run
    → choose now false run ≡ keep none run
unfolding choose choose_at retry_choice
exhausted_choice now run failed used =
    let spent : ltb (attempt_count run) max_run_attempts ≡ false = ground arith in
    rw (failed, spent) refl

release_keeps_runs :
    (run_id owner : String) (s : RunStore) → (release_run_lease run_id owner s).runs ≡ s.runs
unfolding release_run_lease
release_keeps_runs run_id owner s = ground arith

-- A run that is complete or failed safe, that failed retryably with its three attempts used up, or whose
-- lease another worker holds.
abbrev pub IsBarred : ℕ → String → AuditRun → RunStore → Type 0
IsBarred now owner run s =
    (is_over run.status ≡ true)
    ⊎ ((run.status ≡ RunStatus.failed_retryable) × (3 ≤ attempt_count run))
    ⊎ (is_held_by_other now owner (lookup run.id s.run_leases) ≡ true)

-- A claim of such a run that was stored before starts nothing and changes no run: the worker gets the
-- run as it was reserved.
pub claim_reserved-barred :
    (now at : ℕ) (owner : String) (busy : Bool) (run : AuditRun) (s : RunStore)
    → contains run.id s.runs ≡ true
    → IsBarred now owner run s
    → ((claim_reserved now at owner busy run false s).0 ≡ ok (none, run))
      × ((claim_reserved now at owner busy run false s).1.runs ≡ s.runs)
unfolding claim_reserved acquire_run_lease settle
claim_reserved-barred now at owner busy run s there (inl over) = ground arith
claim_reserved-barred now at owner busy run s there (inr (inl (failed, used))) =
    let taken = (acquire_run_lease now run.id owner run_lease_seconds s).1 in
    ground (arith, exhausted_choice at run failed used, release_keeps_runs run.id owner taken)
claim_reserved-barred now at owner busy run s there (inr (inr held)) = ground arith
