-- ===== src/Verifier/Interpret.antt =====
-- `_evidence` and `_interpret` of services/agent/src/ipromise_agent/cloudbuild_verifier.py.
use i_promise.Base.{
  Bool, true, false, not, ◌&&◌, String, Option, none, some, [], map, if◌then◌else◌, ◌==◌, string_eq,
}
use i_promise.Dict.{Dict, lookup, contains}
use i_promise.Lists.{any, all, find_first}
use i_promise.Remediation.{BoundedRemediationArtifact}
use i_promise.Verifier.{
  Config, BuildSubmission, BuildSnapshot, CloudBuildEvidence, VerifiedCandidate,
  VerificationOutcome,
}
use i_promise.Verifier.Kinds.{VerificationDecision, VerificationFailureCode, CheckResult}
use i_promise.Verifier.Decisions.{
  required_step_ids, step_states_from, is_status, is_failed_state, baseline_result, pass_result,
  failed_step_outcome, outcome,
}

unfoldable pub evidence_of :
    Config
    → BoundedRemediationArtifact
    → Option BuildSnapshot
    → BuildSubmission
    → CloudBuildEvidence
evidence_of config artifact (some snapshot) submission = record {
  build_id = snapshot.build_id;
  build_name = snapshot.build_name;
  status = snapshot.status;
  log_url = snapshot.log_url;
  requested_source_url = config.repository_url;
  resolved_source_url = snapshot.resolved_source_url;
  requested_base_sha = artifact.base_reference;
  resolved_base_sha = snapshot.resolved_revision;
  unified_diff_sha256 = artifact.unified_diff_sha256;
  step_results = snapshot.steps;
}
evidence_of config artifact none submission = record {
  build_id = submission.build_id;
  build_name = submission.build_name;
  status = "STATUS_UNKNOWN";
  log_url = none;
  requested_source_url = config.repository_url;
  resolved_source_url = none;
  requested_base_sha = artifact.base_reference;
  resolved_base_sha = none;
  unified_diff_sha256 = artifact.unified_diff_sha256;
  step_results = [];
}

-- `set(step_states) == set(REQUIRED_STEP_IDS) and all(... == "SUCCESS" ...)`
unfoldable pub is_complete_receipt : Dict String String → Bool
is_complete_receipt states =
    all (λ entry. any (λ step_id. step_id == entry.0) required_step_ids) states
    && all (λ step_id. contains step_id states) required_step_ids
    && all (λ step_id. is_status "SUCCESS" (lookup step_id states)) required_step_ids

-- `_valid_log_url`
unfoldable pub is_valid_log_url : Config → Option String → Bool
is_valid_log_url config none = false
is_valid_log_url config (some log_url) = not (log_url == "") && config.is_https log_url

unfoldable pub is_exact_source : Config → BoundedRemediationArtifact → BuildSnapshot → Bool
is_exact_source config artifact snapshot =
    is_status config.repository_url snapshot.resolved_source_url
    && is_status artifact.base_reference snapshot.resolved_revision

-- The answer to a build that succeeded with every trusted step, from the exact source, with a log.
unfoldable pub verified_candidate :
    Config → BoundedRemediationArtifact → CloudBuildEvidence → VerifiedCandidate
verified_candidate config artifact evidence = record {
  schema_version = "ipromise.verified-candidate.v1";
  repository_url = config.repository_url;
  base_sha = artifact.base_reference;
  unified_diff_sha256 = artifact.unified_diff_sha256;
  files =
      map
        (λ item. record {
          path = item.path;
          preimage_sha256 = item.preimage_sha256;
          candidate_sha256 = item.candidate_sha256;
          content = item.content;
        })
        artifact.candidate_files;
  evidence = evidence;
}

abbrev pub verified_outcome : CloudBuildEvidence → VerifiedCandidate → VerificationOutcome
verified_outcome evidence candidate = record {
  decision = VerificationDecision.verified;
  failure_code = VerificationFailureCode.none;
  detail =
      "Cloud Build proved the expected analytics-residual baseline, the exact candidate bytes, the green hidden control, and the full demo SaaS regression.";
  baseline_control = CheckResult.expected_failure;
  candidate_control = CheckResult.pass;
  regression_suite = CheckResult.pass;
  exact_source_verified = true;
  exact_candidate_verified = true;
  evidence = some evidence;
  candidate = some candidate;
}

-- The statuses that end the interpretation before any step is read.
unfoldable pub ended_outcome : String → Option (VerificationFailureCode × String)
ended_outcome status =
    if status == "TIMEOUT"
    then some (
      VerificationFailureCode.deadline_exceeded,
      "Cloud Build timed out; candidate publication remains blocked.",
    )
    else if status == "INTERNAL_ERROR"
    then some
        (VerificationFailureCode.build_internal_error, "Cloud Build reported an internal error.")
    else if status == "CANCELLED"
    then some (
      VerificationFailureCode.build_cancelled,
      "Cloud Build was cancelled before verification completed.",
    )
    else if status == "EXPIRED"
    then some (
      VerificationFailureCode.build_expired,
      "Cloud Build expired in the queue before verification completed.",
    )
    else none

-- A build that ended without success: the first trusted step that failed says why.
unfoldable pub failed_build :
    Dict String String
    → CheckResult
    → CheckResult
    → CheckResult
    → CloudBuildEvidence
    → VerificationOutcome
unfolding failed_step_outcome
failed_build states baseline candidate regression evidence =
    let failed_step : Option String =
      find_first (λ step_id. is_failed_state (lookup step_id states)) required_step_ids in
    let (decision, code, detail) = failed_step_outcome failed_step in
    outcome decision code detail baseline candidate regression (some evidence)

unfoldable pub interpret :
    Config → BoundedRemediationArtifact → BuildSubmission → BuildSnapshot → VerificationOutcome
unfolding ended_outcome is_complete_receipt is_exact_source is_valid_log_url failed_build
interpret config artifact submission snapshot =
    let evidence = evidence_of config artifact (some snapshot) submission in
    let states = step_states_from [] snapshot.steps in
    let baseline = baseline_result states in
    let candidate = pass_result states "candidate-hidden-control" in
    let regression = pass_result states "demo-saas-regression" in
    elim (ended_outcome snapshot.status) [
      | some (code, detail) ↦
          outcome VerificationDecision.unavailable code detail baseline candidate regression
            (some evidence)
      | none ↦
          if not (snapshot.status == "SUCCESS")
          then failed_build states baseline candidate regression evidence
          else if not (is_complete_receipt states)
          then outcome VerificationDecision.unavailable VerificationFailureCode.evidence_incomplete
              "Cloud Build succeeded without a complete trusted step receipt." baseline candidate
              regression (some evidence)
          else if not (is_exact_source config artifact snapshot)
          then outcome VerificationDecision.rejected VerificationFailureCode.source_mismatch
              "Cloud Build source provenance did not match the requested repository and base SHA."
              baseline candidate regression (some evidence)
          else if not (is_valid_log_url config snapshot.log_url)
          then (record (outcome VerificationDecision.unavailable
              VerificationFailureCode.evidence_incomplete
              "Cloud Build returned no durable HTTPS log reference." baseline candidate regression
              (some evidence)) { exact_source_verified = true })
          else verified_outcome evidence (verified_candidate config artifact evidence)
    ]
