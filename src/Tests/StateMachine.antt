-- ===== src/Tests/StateMachine.antt =====
-- Tests of StateMachine.
use i_promise.Base.{◌+◌, ◌≤◌, ◌≡◌, refl, true, map}
use i_promise.Models.{AuditRun, RunStatus, received}
use i_promise.Text.{two_digits}
use i_promise.StateMachine.{start_stage, finish_stage, event_id}
use i_promise.StateMachine.Trail.{Extends, IsNumbered, stage_of}
use i_promise.StateMachine.Closed.{IsKept, Reach-IsAppendOnly}
use i_promise.StateMachine.Progress.{
  Reach, here, next, Step, started, finished, starts, rank, Reach-starts_bounded,
}
use i_promise.StateMachine.Routing.{complete_was_routed, has_routing}
use i_promise.Tests.Samples.{sample_run}

first_id : event_id "run_0001" 1 ≡ "run_0001:event:01"
unfolding event_id two_digits
first_id = refl

sample-IsNumbered : IsNumbered sample_run
unfolding event_id two_digits
sample-IsNumbered = refl

-- One stage started, and finished.
one_stage :
    (after : AuditRun) × (finished_run : AuditRun) × (Reach sample_run after)
    × (Step after finished_run)
unfolding start_stage finish_stage
one_stage = (
  _,
  _,
  next here (started 5 RunStatus.capturing "Capture promise" "Read" "HTTP source capture" refl),
  finished 6 "Source captured" refl,
)

one_stage_run : Reach sample_run one_stage.1
unfolding one_stage
one_stage_run = next one_stage.2 one_stage.3

Reach-starts_bounded_example : rank received + starts one_stage_run ≤ 9
Reach-starts_bounded_example = Reach-starts_bounded one_stage_run

Reach-IsAppendOnly_example :
    IsKept sample_run.events one_stage.1.events × Extends sample_run one_stage.1
Reach-IsAppendOnly_example = Reach-IsAppendOnly one_stage_run

-- The shortest way to the end: no stage need be finished before the next one starts.
abbrev ended : AuditRun
ended = record sample_run { status = RunStatus.complete }

routed :
    (a b c d e : AuditRun) × (Step sample_run a)
    × (Step a b)
    × (Step b c)
    × (Step c d)
    × (Step d e)
    × (e.status ≡ RunStatus.complete)
unfolding start_stage
routed = (
  _,
  _,
  _,
  _,
  _,
  started 1 RunStatus.capturing "" "" "" refl,
  started 2 RunStatus.compiling "" "" "" refl,
  started 3 RunStatus.binding "" "" "" refl,
  started 4 RunStatus.routing_action "" "" "" refl,
  started 5 RunStatus.complete "" "" "" refl,
  refl,
)

complete_was_routed_example : has_routing (map stage_of routed.4.events) ≡ true
complete_was_routed_example =
    complete_was_routed
      (next (next (next (next (next here routed.5) routed.6) routed.7) routed.8) routed.9) refl
      routed.10
