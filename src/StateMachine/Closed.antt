-- ===== src/StateMachine/Closed.antt =====
-- What the operations of state_machine.py leave of the events before: the trail is append-only.
use i_promise.Base.{
  ℕ, ◌≡◌, refl, sym, ap, ◌∙◌, Bool, true, String, none, List, [], ◌∷◌, ◌++◌, map, arith, Bool-cases,
  inl, inr, if◌then◌else◌,
}
use i_promise.Lists.{last?, update_last, map-update_last}
use i_promise.Models.{AuditRun, RunEvent, RunStatus, EventState, status_value, is_running}
use i_promise.Errors.{ok}
use i_promise.StateMachine.{
  append_event, start_stage, finish_stage, fail_events, fail_run, last_is_running, event_is_running,
  close_event,
}
use i_promise.StateMachine.Trail.{Extends}
use i_promise.StateMachine.Progress.{
  Step, started, finished, failed, Reach, here, next, Reach-Extends,
}
use mathlib.Core.List.{map-append, append-nil, append_assoc}

-- The events without the last one, if that one still runs: only a running last event can be closed.
abbrev pub closed_events : List RunEvent → List RunEvent
closed_events [] = []
closed_events (event ∷ []) = if is_running event.state then [] else event ∷ []
closed_events (event ∷ other ∷ rest) = event ∷ closed_events (other ∷ rest)

-- An event without what closing it sets.
abbrev pub heading : RunEvent → RunEvent
heading event = record event { state = EventState.running; detail = none }

abbrev StartsWith : {A : Type 0} → List A → List A → Type 0
StartsWith {A} whole start = (rest : List A) × (whole ≡ start ++ rest)

StartsWith-trans : {A : Type 0} (a b c : List A) → StartsWith b a → StartsWith c b → StartsWith c a
StartsWith-trans a b c (more, h) (rest, g) =
    (more ++ rest, g ∙ ap (λ l. l ++ rest) h ∙ append_assoc a more rest)

-- What is left of the trail: every closed event, whole and in its place, and of every event all but
-- what closing it sets.
pub record IsKept (before after : List RunEvent) : Type 0 where
  pub closed : StartsWith (closed_events after) (closed_events before)
  pub headings : StartsWith (map heading after) (map heading before)

IsKept-refl : (events : List RunEvent) → IsKept events events
IsKept-refl events = record {
  closed = ([], sym (append-nil (closed_events events)));
  headings = ([], sym (append-nil (map heading events)));
}

IsKept-trans : {a b c : List RunEvent} → IsKept a b → IsKept b c → IsKept a c
IsKept-trans {a} {b} {c} h g = record {
  closed = StartsWith-trans (closed_events a) (closed_events b) (closed_events c) h.closed g.closed;
  headings = StartsWith-trans (map heading a) (map heading b) (map heading c) h.headings g.headings;
}

closed_events-StartsWith : (events : List RunEvent) → StartsWith events (closed_events events)
closed_events-StartsWith [] = ([], refl)
closed_events-StartsWith (event ∷ []) = elim (Bool-cases (is_running event.state)) [
  | inl open_event ↦ (event ∷ [], rw open_event refl)
  | inr closed ↦ ([], rw closed refl)
]
closed_events-StartsWith (event ∷ other ∷ rest) =
    let (more, h) = closed_events-StartsWith (other ∷ rest) in (more, ap (λ l. event ∷ l) h)

-- Before an event that follows, every event stays.
closed_events-snoc :
    (events : List RunEvent) (event : RunEvent)
    → StartsWith (closed_events (events ++ event ∷ [])) events
closed_events-snoc [] event = (closed_events (event ∷ []), refl)
closed_events-snoc (first ∷ []) event = (closed_events (event ∷ []), refl)
closed_events-snoc (first ∷ second ∷ rest) event =
    let (more, h) = closed_events-snoc (second ∷ rest) event in (more, ap (λ l. first ∷ l) h)

snoc-IsKept : (events : List RunEvent) (event : RunEvent) → IsKept events (events ++ event ∷ [])
snoc-IsKept events event = record {
  closed =
      StartsWith-trans (closed_events events) events (closed_events (events ++ event ∷ []))
        (closed_events-StartsWith events) (closed_events-snoc events event);
  headings = (heading event ∷ [], map-append heading events (event ∷ []));
}

closed_events-close :
    (state : EventState) (detail : String) (events : List RunEvent)
    → event_is_running (last? events) ≡ true
    → StartsWith
        (closed_events (update_last (close_event state detail) events))
        (closed_events events)
closed_events-close state detail [] h = cc
closed_events-close state detail (event ∷ []) h =
    rw h (closed_events (close_event state detail event ∷ []), refl)
closed_events-close state detail (event ∷ other ∷ []) h =
    let (more, g) = closed_events-close state detail (other ∷ []) h in (more, ap (λ l. event ∷ l) g)
closed_events-close state detail (event ∷ other ∷ third ∷ rest) h =
    let (more, g) = closed_events-close state detail (other ∷ third ∷ rest) h in
    (more, ap (λ l. event ∷ l) g)

close-IsKept :
    (state : EventState) (detail : String) (events : List RunEvent)
    → event_is_running (last? events) ≡ true
    → IsKept events (update_last (close_event state detail) events)
close-IsKept state detail events h = record {
  closed = closed_events-close state detail events h;
  headings = (
    [],
    map-update_last heading (close_event state detail) events (λ e. refl)
        ∙ sym (append-nil (map heading events)),
  );
}

started-IsKept :
    (now : ℕ) (run : AuditRun) (status : RunStatus) (title detail system : String)
    {after : AuditRun}
    → start_stage now run status title detail system ≡ ok after
    → IsKept run.events after.events
unfolding start_stage append_event
started-IsKept now run status title detail system {after} h =
    let moved : AuditRun = record run { status = status; updated_at = now } in
    let e : after
        ≡ append_event moved (status_value status) EventState.running title detail now system =
      ground arith in
    rw e (snoc-IsKept run.events _)

finished-IsKept :
    (now : ℕ) (run : AuditRun) (detail : String) {after : AuditRun}
    → finish_stage now run detail ≡ ok after
    → IsKept run.events after.events
unfolding finish_stage
finished-IsKept now run detail {after} h =
    let open_event : last_is_running run ≡ true = ground arith in
    let e : after.events ≡ update_last (close_event EventState.succeeded detail) run.events =
      ground arith in
    rw e (close-IsKept EventState.succeeded detail run.events open_event)

fail_events-IsKept :
    (now : ℕ) (run : AuditRun) (status : RunStatus) (detail : String)
    → IsKept run.events (fail_events now run status detail).events
unfolding fail_events append_event
fail_events-IsKept now run status detail = elim (Bool-cases (last_is_running run)) [
  | inl open_event ↦ rw open_event (close-IsKept EventState.failed detail run.events open_event)
  | inr closed ↦ rw closed (snoc-IsKept run.events _)
]

failed-IsKept :
    (now : ℕ) (run : AuditRun) (status : RunStatus) (detail : String) (retryable uncertain : Bool)
    {after : AuditRun}
    → fail_run now run status detail retryable uncertain ≡ ok after
    → IsKept run.events after.events
unfolding fail_run
failed-IsKept now run status detail retryable uncertain {after} h =
    let same : after.events ≡ (fail_events now run status detail).events = ground arith in
    rw same (fail_events-IsKept now run status detail)

Step-IsKept : {run after : AuditRun} → Step run after → IsKept run.events after.events
Step-IsKept {run} (started now status title detail system h) =
    started-IsKept now run status title detail system h
Step-IsKept {run} (finished now detail h) = finished-IsKept now run detail h
Step-IsKept {run} (failed now status detail retryable uncertain h) =
    failed-IsKept now run status detail retryable uncertain h

Reach-IsKept : {run after : AuditRun} → Reach run after → IsKept run.events after.events
Reach-IsKept {run} here = IsKept-refl run.events
Reach-IsKept (next r s) = IsKept-trans (Reach-IsKept r) (Step-IsKept s)

-- Over any calls of start_stage, finish_stage and fail_run the trail is append-only: every event but a
-- running last one stays whole and in its place at the front of the trail, of every event all but the
-- state and the detail stays, the run keeps its id, and events numbered in order still are.
pub Reach-IsAppendOnly :
    {run after : AuditRun} → Reach run after → IsKept run.events after.events × Extends run after
Reach-IsAppendOnly r = (Reach-IsKept r, Reach-Extends r)
