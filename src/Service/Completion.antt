-- ===== src/Service/Completion.antt =====
-- What a stage that is started and finished leaves of a run (service.py, `_complete_run`).
use mathlib.Core.Path.{subst}
use i_promise.Base.{
  some, string_eq, Bool-cases, ◌||◌, ℕ, ◌≡◌, refl, ap, ◌∙◌, inl, inr, false, String, not, arith,
}
use i_promise.Errors.{Exception, ok, err, err_injective, ok_injective}
use i_promise.Lists.{last?, update_last, last?-snoc, last?-update_last}
use i_promise.Models.{RunEvent, EventState, status_value, AuditRun, RunStatus}
use i_promise.StateMachine.{
  close_event, start_stage, finish_stage, append_event, is_terminal, is_allowed, last_is_running,
}
use i_promise.Service.Recovered.{is_checkpoint}

pub start_stage-raises :
    (now : ℕ) (run : AuditRun) (status : RunStatus) (title detail system : String) {e : Exception}
    → start_stage now run status title detail system ≡ err e
    → is_checkpoint e ≡ false
unfolding start_stage
start_stage-raises now run status title detail system {e} h =
    elim (Bool-cases (is_terminal run.status || not (is_allowed run.status status))) [
      | inl bad ↦
          subst (λ x. is_checkpoint x ≡ false) (err_injective (rw (bad, start_stage) at h)) refl
      | inr good ↦ absurd (ground (arith, rw (good, start_stage) at h))
    ]

pub finish_stage-raises :
    (now : ℕ) (run : AuditRun) (detail : String) {e : Exception}
    → finish_stage now run detail ≡ err e
    → is_checkpoint e ≡ false
unfolding finish_stage
finish_stage-raises now run detail {e} h = elim (Bool-cases (last_is_running run)) [
  | inl good ↦ absurd (ground (arith, rw (good, finish_stage) at h))
  | inr bad ↦
      subst (λ x. is_checkpoint x ≡ false) (err_injective (rw (bad, finish_stage) at h)) refl
]

pub start_stage-actions :
    (now : ℕ) (run : AuditRun) (status : RunStatus) (title detail system : String)
    {after : AuditRun}
    → start_stage now run status title detail system ≡ ok after
    → after.actions ≡ run.actions
unfolding start_stage append_event
start_stage-actions now run status title detail system {after} h =
    elim (Bool-cases (is_terminal run.status || not (is_allowed run.status status))) [
      | inl bad ↦ absurd (ground (arith, rw (bad, start_stage) at h))
      | inr good ↦
          subst (λ r. r.actions ≡ run.actions) (ok_injective (rw (good, start_stage) at h)) refl
    ]

pub finish_stage-actions :
    (now : ℕ) (run : AuditRun) (detail : String) {after : AuditRun}
    → finish_stage now run detail ≡ ok after
    → after.actions ≡ run.actions
unfolding finish_stage
finish_stage-actions now run detail {after} h = elim (Bool-cases (last_is_running run)) [
  | inl good ↦
      subst (λ r. r.actions ≡ run.actions) (ok_injective (rw (good, finish_stage) at h)) refl
  | inr bad ↦ absurd (ground (arith, rw (bad, finish_stage) at h))
]

pub start_stage-last :
    (now : ℕ) (run : AuditRun) (status : RunStatus) (title detail system : String)
    {after : AuditRun}
    → start_stage now run status title detail system ≡ ok after
    → (event : RunEvent) × (last? after.events ≡ some event) × (event.stage ≡ status_value status)
unfolding start_stage append_event
start_stage-last now run status title detail system {after} h =
    let moved : AuditRun = record run { status = status; updated_at = now } in
    let e : after
        ≡ append_event moved (status_value status) EventState.running title detail now system =
      ground arith in
    rw e (_, last?-snoc run.events _, refl)

pub finish_stage-last :
    (now : ℕ) (run : AuditRun) (detail : String) {after : AuditRun} {event : RunEvent}
    → last? run.events ≡ some event
    → finish_stage now run detail ≡ ok after
    → last? after.events ≡ some (close_event EventState.succeeded detail event)
unfolding finish_stage
finish_stage-last now run detail {after} {event} last h =
    let e : after.events ≡ update_last (close_event EventState.succeeded detail) run.events =
      ground arith in
    ap last? e
    ∙ last?-update_last (close_event EventState.succeeded detail) run.events
    ∙ rw last refl
