-- ===== src/Service/History.antt =====
-- Recovery (service.py) keeps the history of a run.
use i_promise.Base.{ℕ, refl, inl, inr, Bool, true, false, Bool-cases, ltb}
use i_promise.Models.{AuditRun, RunStatus, EventState}
use i_promise.StateMachine.{last_is_running}
use i_promise.StateMachine.Trail.{
  Extends, Extends-refl, Extends-same, Extends-trans, append_event-Extends, close_event-Extends,
}
use i_promise.Service.{attempt_count, is_some, max_run_attempts}
use i_promise.Service.Recovery.{
  reset_interrupted_run, resume_action_dispatch, failed_during_action_dispatch,
}
use i_promise.Service.Claiming.{choose, choose_at, retry_choice}

reset-Extends : (now : ℕ) (run : AuditRun) → Extends run (reset_interrupted_run now run)
unfolding reset_interrupted_run
reset-Extends now run = elim (Bool-cases (last_is_running run)) [
  | inl open_event ↦
      let closed =
        close_event-Extends run EventState.failed "Worker stopped before this stage completed" in
      rw open_event
        (Extends-trans (Extends-same _ refl refl closed) (append_event-Extends _ _ _ _ _ _ _))
  | inr closed ↦ rw closed (
      Extends-trans (Extends-same _ refl refl (Extends-refl run))
        (append_event-Extends _ _ _ _ _ _ _))
]

resume-Extends : (now : ℕ) (run : AuditRun) → Extends run (resume_action_dispatch now run)
unfolding resume_action_dispatch
resume-Extends now run =
    Extends-trans (Extends-same _ refl refl (Extends-refl run)) (append_event-Extends _ _ _ _ _ _ _)

retry-Extends : (now : ℕ) (run : AuditRun) → Extends run (retry_choice now run).run
unfolding retry_choice
retry-Extends now run = elim (Bool-cases (ltb (attempt_count run) max_run_attempts)) [
  | inr spent ↦ rw (spent, retry_choice) (Extends-refl run)
  | inl left ↦ elim (Bool-cases (failed_during_action_dispatch run)) [
    | inl dispatching ↦ rw (left, dispatching, retry_choice) (resume-Extends now run)
    | inr elsewhere ↦ rw (left, elsewhere, retry_choice) (reset-Extends now run)
  ]
]

chosen-Extends :
    (now : ℕ) (run : AuditRun) (status : RunStatus) → Extends run (choose_at now run status).run
unfolding choose_at
chosen-Extends now run RunStatus.failed_retryable = retry-Extends now run
chosen-Extends now run RunStatus.routing_action = Extends-refl run
chosen-Extends now run RunStatus.verifying = elim (Bool-cases (is_some run.verification)) [
  | inl verified ↦ rw verified (Extends-refl run)
  | inr unverified ↦ rw unverified (reset-Extends now run)
]
chosen-Extends now run _ = reset-Extends now run

-- A worker that takes over a run, whatever state it is in, only adds to its history: the run keeps its
-- id, the stages of the earlier events stay at the front of the trail, and if the events were numbered
-- in order, they still are.
pub choose-Extends :
    (now : ℕ) (created : Bool) (run : AuditRun) → Extends run (choose now created run).run
unfolding choose
choose-Extends now true run = Extends-refl run
choose-Extends now false run = chosen-Extends now run run.status
