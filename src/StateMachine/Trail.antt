-- ===== src/StateMachine/Trail.antt =====
-- The event trail of state_machine.py: it only grows, its ids count the events, and what a failure
-- leaves behind.
use i_promise.Base.{
  ℕ, zero, suc, ◌+◌, ◌≡◌, refl, sym, ap, ◌∙◌, Bool, String, List, [], ◌∷◌, ◌++◌, map, arith,
  Bool-cases, inl, inr,
}
use i_promise.Lists.{length, update_last, length-snoc, length-update_last, map-update_last}
use i_promise.Models.{AuditRun, RunEvent, RunStatus, EventState, status_value}
use i_promise.Errors.{ok}
use i_promise.StateMachine.{
  event_id, append_event, start_stage, finish_stage, fail_events, fail_run, last_is_running,
  close_event,
}
use mathlib.Core.List.{map-append, append-nil, append_assoc}

abbrev pub id_of : RunEvent → String
id_of event = event.id

abbrev pub stage_of : RunEvent → String
stage_of event = event.stage

-- The ids of the first `n` events of a run.
abbrev pub event_ids : String → ℕ → List String
event_ids run_id zero = []
event_ids run_id (suc n) = event_ids run_id n ++ event_id run_id (n + 1) ∷ []

-- Event number `i` has the id for `i`, so an id names a position of the trail.
abbrev pub IsNumbered : AuditRun → Type 0
IsNumbered run = map id_of run.events ≡ event_ids run.id (length run.events)

-- What one operation does to the trail of a run: its id stays, the stages and the ids of earlier
-- events stay, and the numbering goes on.
pub record Extends (before after : AuditRun) : Type 0 where
  pub same_id : after.id ≡ before.id
  pub added : List String
  pub stages : map stage_of after.events ≡ map stage_of before.events ++ added
  pub numbered : IsNumbered before → IsNumbered after

pub Extends-refl : (run : AuditRun) → Extends run run
Extends-refl run = record {
  same_id = refl;
  added = [];
  stages = sym (append-nil (map stage_of run.events));
  numbered = λ h. h;
}

pub Extends-trans : {a b c : AuditRun} → Extends a b → Extends b c → Extends a c
Extends-trans {a} {b} {c} p q = record {
  same_id = q.same_id ∙ p.same_id;
  added = p.added ++ q.added;
  stages =
      q.stages
      ∙ ap (λ l. l ++ q.added) p.stages
      ∙ append_assoc (map stage_of a.events) p.added q.added;
  numbered = λ h. q.numbered (p.numbered h);
}

-- Only the id and the events of the later run matter.
pub Extends-same :
    {a b : AuditRun} (c : AuditRun) → c.id ≡ b.id → c.events ≡ b.events → Extends a b → Extends a c
Extends-same {a} {b} c same_id same_events p = record {
  same_id = same_id ∙ p.same_id;
  added = p.added;
  stages = ap (map stage_of) same_events ∙ p.stages;
  numbered = λ h. rw (same_id, same_events) (p.numbered h);
}

pub append_event-Extends :
    (run : AuditRun) (stage : String) (state : EventState) (title detail : String) (at : ℕ)
    (system : String)
    → Extends run (append_event run stage state title detail at system)
unfolding append_event
append_event-Extends run stage state title detail at system = record {
  same_id = refl;
  added = stage ∷ [];
  stages = map-append stage_of run.events _;
  numbered = λ h. map-append id_of run.events _ ∙ simp length-snoc (rw h refl);
}

pub close_event-Extends :
    (run : AuditRun) (state : EventState) (detail : String)
    → Extends run (record run { events = update_last (close_event state detail) run.events })
close_event-Extends run state detail = record {
  same_id = refl;
  added = [];
  stages =
      map-update_last stage_of (close_event state detail) run.events (λ e. refl)
      ∙ sym (append-nil (map stage_of run.events));
  numbered = λ h.
      map-update_last id_of (close_event state detail) run.events (λ e. refl)
      ∙ h
      ∙ ap (event_ids run.id) (sym (length-update_last (close_event state detail) run.events));
}

-- Starting a stage extends the trail by the stage's event.
pub start_stage-Extends :
    (now : ℕ) (run : AuditRun) (status : RunStatus) (title detail system : String)
    {after : AuditRun}
    → start_stage now run status title detail system ≡ ok after
    → Extends run after
unfolding start_stage
start_stage-Extends now run status title detail system {after} h =
    let moved : AuditRun = record run { status = status; updated_at = now } in
    let e : after
        ≡ append_event moved (status_value status) EventState.running title detail now system =
      ground arith in
    rw e (
      Extends-trans (Extends-same moved refl refl (Extends-refl run)) (
        append_event-Extends moved (status_value status) EventState.running title detail now
          system))

pub finish_stage-Extends :
    (now : ℕ) (run : AuditRun) (detail : String) {after : AuditRun}
    → finish_stage now run detail ≡ ok after
    → Extends run after
unfolding finish_stage
finish_stage-Extends now run detail {after} h =
    let e : after ≡ record run {
      events = update_last (close_event EventState.succeeded detail) run.events;
      updated_at = now;
    } =
      ground arith in
    rw e (Extends-same _ refl refl (close_event-Extends run EventState.succeeded detail))

fail_events-Extends :
    (now : ℕ) (run : AuditRun) (status : RunStatus) (detail : String)
    → Extends run (fail_events now run status detail)
unfolding fail_events
fail_events-Extends now run status detail = elim (Bool-cases (last_is_running run)) [
  | inl open_event ↦ rw open_event (close_event-Extends run EventState.failed detail)
  | inr closed ↦ rw closed (
      append_event-Extends run (status_value status) EventState.failed "Audit stopped safely" detail
        now "Safety boundary")
]

pub fail_run-Extends :
    (now : ℕ) (run : AuditRun) (status : RunStatus) (detail : String) (retryable uncertain : Bool)
    {after : AuditRun}
    → fail_run now run status detail retryable uncertain ≡ ok after
    → Extends run after
unfolding fail_run
fail_run-Extends now run status detail retryable uncertain {after} h =
    let failed : AuditRun = fail_events now run status detail in
    let same : (after.id ≡ failed.id) × (after.events ≡ failed.events) = ground arith in
    Extends-same after same.0 same.1 (fail_events-Extends now run status detail)
