-- ===== src/Tests/Samples.antt =====
-- A run as `AuditService._new_run` creates it, and values that the tests share.
use i_promise.Base.{true, false, none, some, [], ◌∷◌}
use i_promise.Models.{
  AuditRun, Claim, Mode, RunStatus, Verdict, Testability, EventState, VerificationReceipt,
  VerificationResult,
}

abbrev pub sample_claim : Claim
sample_claim = record {
  exact_quote = "Claim capture not completed.";
  source_url = "http://127.0.0.1:8081/privacy";
  source_title = "Source not captured";
  captured_at = 1000;
  content_hash = "unavailable";
  actor = none;
  action = none;
  object = none;
  deadline_hours = none;
  qualifiers = [];
  testability = Testability.not_testable;
  control_id = none;
}

abbrev pub sample_run : AuditRun
sample_run = record {
  id = "run_0001";
  mode = Mode.demonstration;
  status = RunStatus.received;
  verdict = Verdict.pending;
  started_at = 1000;
  updated_at = 1000;
  claim = sample_claim;
  evidence = [];
  events =
      record {
        id = "run_0001:event:01";
        stage = "RECEIVED";
        state = EventState.succeeded;
        title = "Audit started";
        at = 1000;
        detail = some "Trigger accepted";
        system = some "Run dispatcher";
        artifact_ref = none;
      }
      ∷ [];
  actions = [];
  runtime = record {
    agent_framework = "Deterministic local workflow";
    model_invocation_attempted = false;
    model_invoked = false;
    model = none;
    execution_target = "local-process";
    cloud_run_revision = none;
  };
  limitations = [];
  remediation = none;
  verification = none;
  repository = none;
  idempotency_key = "key-00001";
  synthetic_fixture_id = none;
  verified_candidate = none;
}

abbrev pub later_run : AuditRun
later_run = record sample_run { id = "run_0002"; started_at = 2000 }

abbrev pub proving_receipt : VerificationReceipt
proving_receipt = record {
  verifier = "Google Cloud Build red-before/green-after gate";
  baseline_control = VerificationResult.fail;
  candidate_control = VerificationResult.pass;
  regression_suite = VerificationResult.pass;
  exact_tree_verified = true;
  isolated = true;
  publishable = true;
  detail = "";
  build_id = some "b1";
  log_url = some "https://example.com/log";
  artifact_binding = none;
}
