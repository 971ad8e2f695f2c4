-- ===== src/Service.antt =====
-- services/agent/src/ipromise_agent/service.py: the life of a run outside its stages. How a run is
-- made, claimed by a worker, reset or resumed after a failure, failed against its budget of attempts,
-- and dispatched to GitHub and completed. The stages of `_execute` are not modelled.
--
-- A run id is an argument where the source draws one, and `busy` says whether a task of this process
-- executes the run.
pub mod Claimed
pub mod Claiming
pub mod Completion
pub mod Checkpoints
pub mod Recovered
pub mod Restored
pub mod Budget
pub mod Dispatch
pub mod Jobs
pub mod Requests
pub mod Once
pub mod Publish
pub mod Single
pub mod Routed
pub mod Depth
pub mod Exclusive
pub mod Fallback
pub mod History
pub mod Recovery
use i_promise.Base.{
  ℕ, suc, ◌+◌, ◌*◌, Bool, true, false, not, ◌&&◌, ◌||◌, String, Option, none, some, List, [], ◌∷◌,
  ◌++◌, map, ltb, leb, if◌then◌else◌, ◌==◌, string_eq,
}
use Prim.Native.String
use i_promise.Lists.{length, any, count_if, last?, update_last}
use i_promise.Text.{concat, decimal}
use i_promise.Errors.{Result, ok, err, value_error, key_error}
use i_promise.Models.{
  GitHubRepository, AuditRun, RunEvent, PlannedAction, Mode, RunStatus, Verdict, Testability,
  EventState, ActionKind, ActionState, is_opened, is_ready, is_planned, is_pull_request, is_issue,
  is_running, status_value,
}
use i_promise.Models
use i_promise.StateMachine.{
  is_terminal, event_id, append_event, close_event, last_is_running, fail_run,
}
use i_promise.RunStore.{RunStore, reserve, save, acquire_run_lease, release_run_lease}

abbrev pub max_run_attempts : ℕ
max_run_attempts = 3

abbrev pub run_lease_seconds : ℕ
run_lease_seconds = 20 * 60

-- What the settings say that a new run records.
pub record Settings : Type 0 where
  pub mode : Mode
  pub is_deterministic : Bool
  pub demo_base_url : String
  pub execution_target : String
  pub cloud_run_revision : Option String
  pub github_actions_enabled : Bool

abbrev pub is_some {ℓ} : {A : Type ℓ} → Option A → Bool
is_some o = elim o [ none ↦ false | some _ ↦ true ]

unfoldable pub new_limitations : Settings → Option GitHubRepository → List String
new_limitations settings repository =
    ("All user and store data in this run is synthetic."
      ∷ "The verdict applies only to the configured two-store deletion control; it is not a legal-compliance conclusion."
      ∷ [])
    ++ (if settings.github_actions_enabled && is_some repository
        then []
        else ("GitHub issue publication was not enabled with a selected repository for this run."
            ∷ []))
    ++ (if settings.is_deterministic
        then ("This local workflow did not use Gemini or Google ADK." ∷ [])
        else [])

unfoldable pub new_run : Settings → ℕ → String → String → Option GitHubRepository → AuditRun
unfolding new_limitations
new_run settings now run_id idempotency_key repository = record {
  id = run_id;
  mode = settings.mode;
  status = RunStatus.received;
  verdict = Verdict.pending;
  started_at = now;
  updated_at = now;
  claim = record {
    exact_quote = "Claim capture not completed.";
    source_url = concat (settings.demo_base_url ∷ "/privacy" ∷ []);
    source_title = "Source not captured";
    captured_at = now;
    content_hash = "unavailable";
    actor = none;
    action = none;
    object = none;
    deadline_hours = none;
    qualifiers = [];
    testability = Testability.not_testable;
    control_id = none;
  };
  evidence = [];
  events =
      record {
        id = concat (run_id ∷ ":event:01" ∷ []);
        stage = status_value RunStatus.received;
        state = EventState.succeeded;
        title = "Audit started";
        at = now;
        detail = some "Trigger accepted";
        system = some "Run dispatcher";
        artifact_ref = none;
      }
      ∷ [];
  actions = [];
  runtime = record {
    agent_framework =
        if settings.is_deterministic
        then "Deterministic local workflow · Google ADK not used"
        else "Google Agent Development Kit 2 Graph Workflow";
    model_invocation_attempted = false;
    model_invoked = false;
    model = none;
    execution_target = settings.execution_target;
    cloud_run_revision = settings.cloud_run_revision;
  };
  limitations = new_limitations settings repository;
  remediation = none;
  verification = none;
  repository = repository;
  idempotency_key = idempotency_key;
  synthetic_fixture_id = none;
  verified_candidate = none;
}

-- `event.title in attempt_titles`
abbrev pub is_attempt : RunEvent → Bool
is_attempt event =
    event.title == "Audit started"
    || event.title == "Audit resumed"
    || event.title == "Action retry resumed"

unfoldable pub attempt_count : AuditRun → ℕ
attempt_count run = count_if is_attempt run.events

unfoldable pub fail_retryable : ℕ → AuditRun → String → Bool → Result AuditRun
unfolding attempt_count fail_run
fail_retryable now run detail side_effects_uncertain =
    let attempts = attempt_count run in
    let exhausted = leb max_run_attempts attempts in
    fail_run now run (if exhausted then RunStatus.failed_safe else RunStatus.failed_retryable)
      (if exhausted
        then concat
            (detail ∷ "; retry budget exhausted after " ∷ decimal attempts ∷ " attempts" ∷ [])
        else detail)
      (not exhausted) side_effects_uncertain
