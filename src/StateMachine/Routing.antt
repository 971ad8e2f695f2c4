-- ===== src/StateMachine/Routing.antt =====
-- The way of a run of state_machine.py through the routing of its action.
use i_promise.Base.{
  ℕ, ◌≡◌, refl, Bool, true, false, String, List, [], ◌∷◌, ◌++◌, map, arith, ◌==◌, string_eq,
}
use i_promise.Lists.{update_last, any, any-append, map-update_last}
use i_promise.Models.{
  AuditRun, RunEvent, RunStatus, received, capturing, compiling, binding, probing, evaluating,
  remediating, verifying, routing_action, complete, failed_retryable, failed_safe, is_running,
  status_value,
}
use i_promise.Models
use mathlib.Core.List.{map-append}
use i_promise.Errors.{ok}
use i_promise.StateMachine.{
  start_stage, finish_stage, append_event, is_failure, is_allowed, close_event,
}
use i_promise.StateMachine.Trail.{stage_of}
use i_promise.StateMachine.Progress.{
  started, finished, failed, Reach, here, next, start_stage-rank, finish_stage-status,
  fail_run-status,
}

abbrev pub is_routed : RunStatus → Bool
is_routed routing_action = true
is_routed complete = true
is_routed _ = false

abbrev pub has_routing : List String → Bool
has_routing stages = any (λ stage. stage == "ROUTING_ACTION") stages

-- A run that is being routed, or is complete, has a stage ROUTING_ACTION in its trail.
abbrev pub IsRouted : AuditRun → Type 0
IsRouted run = is_routed run.status ≡ true → has_routing (map stage_of run.events) ≡ true

start_stage-allowed :
    (now : ℕ) (run : AuditRun) (status : RunStatus) (title detail system : String)
    {after : AuditRun}
    → start_stage now run status title detail system ≡ ok after
    → is_allowed run.status status ≡ true
unfolding start_stage
start_stage-allowed now run status title detail system h = ground arith

started_stages :
    (now : ℕ) (run : AuditRun) (status : RunStatus) (title detail system : String)
    {after : AuditRun}
    → start_stage now run status title detail system ≡ ok after
    → map stage_of after.events ≡ map stage_of run.events ++ status_value status ∷ []
unfolding start_stage
started_stages now run status title detail system {after} h =
    let moved : AuditRun = record run { status = status; updated_at = now } in
    let e : after
        ≡ append_event moved (status_value status) Models.EventState.running title detail now
            system =
      ground arith in
    rw e (map-append stage_of run.events _)

finished_stages :
    (now : ℕ) (run : AuditRun) (detail : String) {after : AuditRun}
    → finish_stage now run detail ≡ ok after
    → map stage_of after.events ≡ map stage_of run.events
unfolding finish_stage
finished_stages now run detail {after} h =
    let e : after.events ≡ update_last (close_event Models.EventState.succeeded detail) run.events =
      ground arith in
    rw e (map-update_last stage_of _ run.events (λ event. refl))

failure_not_routed : (status : RunStatus) → is_failure status ≡ true → is_routed status ≡ true → ⊥
failure_not_routed failed_safe h k = cc
failure_not_routed failed_retryable h k = cc
failure_not_routed _ h k = cc

route_step :
    (before status : RunStatus) (stages : List String)
    → is_allowed before status ≡ true
    → (is_routed before ≡ true → has_routing stages ≡ true)
    → is_routed status ≡ true
    → has_routing (stages ++ status_value status ∷ []) ≡ true
route_step before routing_action stages allowed routed h =
    ground
      (arith, any-append (λ (s : String). s == "ROUTING_ACTION") stages ("ROUTING_ACTION" ∷ []))
route_step routing_action complete stages allowed routed h =
    ground (arith, any-append (λ (s : String). s == "ROUTING_ACTION") stages ("COMPLETE" ∷ []))
route_step _ complete stages allowed routed h = cc
route_step _ _ stages allowed routed h = cc

-- No operation loses the routing stage, and none completes a run without it.
Reach-IsRouted : {run after : AuditRun} → IsRouted run → Reach run after → IsRouted after
Reach-IsRouted routed here = routed
Reach-IsRouted routed (next {mid} {after} r (started now status title detail system h)) = λ k.
    let same = (start_stage-rank now mid status title detail system h).0 in
    rw (started_stages now mid status title detail system h) (
      route_step mid.status status (map stage_of mid.events)
        (start_stage-allowed now mid status title detail system h) (Reach-IsRouted routed r)
        (rw same at k))
Reach-IsRouted routed (next {mid} {after} r (finished now detail h)) = λ k.
    rw (finished_stages now mid detail h)
      (Reach-IsRouted routed r (rw (finish_stage-status now mid detail h) at k))
Reach-IsRouted routed (next {mid} {after} r (failed now status detail retryable uncertain h)) =
    let facts = fail_run-status now mid status detail retryable uncertain h in
    λ k. absurd (failure_not_routed status facts.1 (rw facts.0 at k))

-- Whatever the calls were, a run that started anew and is complete has been routed: a stage
-- ROUTING_ACTION stands in its trail.
pub complete_was_routed :
    {run after : AuditRun}
    → Reach run after
    → run.status ≡ received
    → after.status ≡ complete
    → has_routing (map stage_of after.events) ≡ true
complete_was_routed {run} {after} r fresh done =
    Reach-IsRouted (λ h. absurd (ground arith)) r (rw done refl)
