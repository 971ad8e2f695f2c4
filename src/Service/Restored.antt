-- ===== src/Service/Restored.antt =====
-- What a failed final checkpoint leaves of a run (service.py, `_complete_run`).
use i_promise.Base.{
  Bool, ltb, if◌then◌else◌, some, string_eq, ℕ, ◌≡◌, refl, ap, ◌∙◌, inl, inr, true, false, String,
  arith,
}
use i_promise.Errors.{Exception, Result, ok, err, Result-cases, err_injective}
use i_promise.Exec.{◌>>◌}
use i_promise.Lists.{last?, last?-update_last}
use i_promise.Models.{RunEvent, EventState, status_value, AuditRun, RunStatus}
use i_promise.Service.{attempt_count, fail_retryable}
use i_promise.Service.Budget.{fail_retryable_lem}
use i_promise.StateMachine.{close_event, start_stage, finish_stage, is_terminal}
use i_promise.Service.Jobs.{
  is_complete_stage, Job, Services, change, complete_run, save_complete, save_or, restore_routing,
}
use i_promise.Service.Recovered.{is_checkpoint}
use i_promise.Service.Completion.{
  start_stage-raises, finish_stage-raises, start_stage-actions, finish_stage-actions,
  start_stage-last, finish_stage-last,
}

restore_routing-last :
    (now : ℕ) (run : AuditRun) (event : RunEvent)
    → last? run.events ≡ some event
    → event.stage ≡ status_value RunStatus.complete
    → last? (restore_routing now run).events
      ≡ some (close_event EventState.failed "Final run checkpoint was not persisted" event)
unfolding restore_routing
restore_routing-last now run event last stage =
    let close = close_event EventState.failed "Final run checkpoint was not persisted" in
    let seen : is_complete_stage (last? run.events) ≡ true = rw (last, stage) refl in
    rw (seen, restore_routing) (last?-update_last close run.events ∙ rw last refl)

-- What a failed final checkpoint leaves of the run: it is at its routing with its actions, and its last
-- event is the one of the completion, failed.
pub record IsRestored (before after : AuditRun) : Type 0 where
  pub status_of : after.status ≡ RunStatus.routing_action
  pub kept_actions : after.actions ≡ before.actions
  pub last_event : RunEvent
  pub is_last : last? after.events ≡ some last_event
  pub stage_of : last_event.stage ≡ status_value RunStatus.complete
  pub state_of : last_event.state ≡ EventState.failed
  pub detail_of : last_event.detail ≡ some "Final run checkpoint was not persisted"

-- The later of two runs matters for its actions only.
IsRestored-before : {a b c : AuditRun} → b.actions ≡ a.actions → IsRestored b c → IsRestored a c
IsRestored-before {a} {b} {c} same h = record {
  status_of = h.status_of;
  kept_actions = h.kept_actions ∙ same;
  last_event = h.last_event;
  is_last = h.is_last;
  stage_of = h.stage_of;
  state_of = h.state_of;
  detail_of = h.detail_of;
}

no_checkpoint :
    {A : Type 0} {e f : Exception}
    → Path (Result A) (err f) (err e)
    → is_checkpoint e ≡ true
    → is_checkpoint f ≡ false
    → ⊥
no_checkpoint h checkpoint ordinary = let same = ap is_checkpoint (err_injective h) in ground arith

abbrev start_complete : ℕ → AuditRun → Result AuditRun
start_complete now run =
    start_stage now run RunStatus.complete "Audit complete" "Evidence and action recorded"
      "iPromise"

module _ (svc : Services) (e : Exception) (checkpoint : is_checkpoint e ≡ true) where
  save_complete-restores :
      (job : Job) (event : RunEvent)
      → last? job.run.events ≡ some event
      → event.stage ≡ status_value RunStatus.complete
      → (save_complete svc job).0 ≡ err e
      → IsRestored job.run (save_complete svc job).1.run
  unfolding save_complete save_or restore_routing
  save_complete-restores job event last stage h = elim (Result-cases (svc.save job)) [
    | inl (e2, failed) ↦
        rw (failed, save_complete, save_or)
          (record {
            status_of = refl;
            kept_actions = refl;
            last_event =
                close_event EventState.failed "Final run checkpoint was not persisted" event;
            is_last = restore_routing-last (svc.now job) job.run event last stage;
            stage_of = stage;
            state_of = refl;
            detail_of = refl;
          })
    | inr (done, kept) ↦ absurd (ground (arith, rw (kept, save_complete, save_or) at h))
  ]

  finished-restores :
      (job : Job) (event : RunEvent)
      → last? job.run.events ≡ some event
      → event.stage ≡ status_value RunStatus.complete
      → ((change (λ now run. finish_stage now run "Audit record saved") svc >> save_complete svc)
          job).0
        ≡ err e
      → IsRestored job.run
          ((change (λ now run. finish_stage now run "Audit record saved") svc >> save_complete svc)
            job).1.run
  unfolding change
  finished-restores job event last stage h =
      elim (Result-cases (finish_stage (svc.now job) job.run "Audit record saved")) [
        | inl (e2, raised) ↦ absurd (
            no_checkpoint (rw (raised, change) at h) checkpoint
              (finish_stage-raises (svc.now job) job.run "Audit record saved" raised))
        | inr (run, finished) ↦
            rw (finished, change)
              (IsRestored-before
                (finish_stage-actions (svc.now job) job.run "Audit record saved" finished)
                (save_complete-restores (record job { run = run })
                  (close_event EventState.succeeded "Audit record saved" event)
                  (finish_stage-last (svc.now job) job.run "Audit record saved" last finished) stage
                  (rw (finished, change) at h)))
      ]

  complete_run-IsRestored :
      (job : Job)
      → (complete_run svc job).0 ≡ err e
      → IsRestored job.run (complete_run svc job).1.run
  unfolding complete_run change
  complete_run-IsRestored job h = elim (Result-cases (start_complete (svc.now job) job.run)) [
    | inl (e2, raised) ↦ absurd (
        no_checkpoint (rw (raised, complete_run, change) at h) checkpoint (
          start_stage-raises (svc.now job) job.run RunStatus.complete "Audit complete"
            "Evidence and action recorded" "iPromise" raised))
    | inr (run, started) ↦
        let kept =
          start_stage-actions (svc.now job) job.run RunStatus.complete "Audit complete"
            "Evidence and action recorded" "iPromise" started in
        let (event, last, stage) =
          start_stage-last (svc.now job) job.run RunStatus.complete "Audit complete"
            "Evidence and action recorded" "iPromise" started in
        rw (started, complete_run, change)
          (IsRestored-before kept (
            finished-restores (record job { run = run }) event last stage
              (rw (started, complete_run, change) at h)))
  ]

-- Where the final checkpoint of a run cannot be saved, the run is back at its routing with its actions,
-- and its last event is the one of the completion, failed. Failing it for a retry does not raise: it is
-- then failed retryably if fewer than three attempts were made, and failed safe otherwise.
pub complete_run-restores :
    (svc : Services) (job : Job) (e : Exception) (now : ℕ) (detail : String) (uncertain : Bool)
    → (complete_run svc job).0 ≡ err e
    → is_checkpoint e ≡ true
    → let after = (complete_run svc job).1.run in
      IsRestored job.run after
      × (failed : AuditRun) × (fail_retryable now after detail uncertain ≡ ok failed)
      × (failed.status ≡ (
          if ltb (attempt_count after) 3
          then RunStatus.failed_retryable
          else RunStatus.failed_safe))
complete_run-restores svc job e now detail uncertain h checkpoint =
    let restored = complete_run-IsRestored svc e checkpoint job h in
    let running : is_terminal (complete_run svc job).1.run.status ≡ false =
      rw restored.status_of refl in
    let (failed, done, _, status, _) =
      fail_retryable_lem now (complete_run svc job).1.run detail uncertain running in
    (restored, failed, done, status)
