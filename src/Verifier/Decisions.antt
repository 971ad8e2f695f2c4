-- ===== src/Verifier/Decisions.antt =====
-- `_interpret` of services/agent/src/ipromise_agent/cloudbuild_verifier.py: the outcome of a build
-- that has ended.
use i_promise.Base.{
  Bool, false, ◌||◌, String, Option, none, some, List, [], ◌∷◌, if◌then◌else◌, ◌==◌, string_eq,
}
use i_promise.Dict.{Dict, lookup, insert}
use i_promise.Verifier.{BuildStepSnapshot, CloudBuildEvidence, VerificationOutcome}
use i_promise.Verifier.Kinds.{VerificationDecision, VerificationFailureCode, CheckResult}

abbrev pub required_step_ids : List String
required_step_ids =
    "source-integrity" ∷ "install-locked-dependencies" ∷ "baseline-hidden-control"
    ∷ "materialize-candidate" ∷ "candidate-hidden-control" ∷ "demo-saas-regression"
    ∷ "candidate-integrity" ∷ []

-- `{item.id: item.status for item in snapshot.steps}`: a later step of an id replaces an earlier one.
unfoldable pub step_states_from : Dict String String → List BuildStepSnapshot → Dict String String
step_states_from states [] = states
step_states_from states (item ∷ rest) = step_states_from (insert item.id item.status states) rest

abbrev pub is_status : String → Option String → Bool
is_status expected state = elim state [ none ↦ false | some value ↦ value == expected ]

-- `state in {"FAILURE", "TIMEOUT", "CANCELLED"}`
abbrev pub is_failed_state : Option String → Bool
is_failed_state state =
    is_status "FAILURE" state || is_status "TIMEOUT" state || is_status "CANCELLED" state

unfoldable pub baseline_result : Dict String String → CheckResult
baseline_result states =
    let state = lookup "baseline-hidden-control" states in
    if is_status "SUCCESS" state
    then CheckResult.expected_failure
    else if is_failed_state state
    then CheckResult.fail
    else CheckResult.not_run

unfoldable pub pass_result : Dict String String → String → CheckResult
pass_result states step_id =
    let state = lookup step_id states in
    if is_status "SUCCESS" state
    then CheckResult.pass
    else if is_failed_state state
    then CheckResult.fail
    else CheckResult.not_run

-- `step_id in logical_failures`, and what it says.
unfoldable pub logical_failure : String → Option (VerificationFailureCode × String)
logical_failure step_id =
    if step_id == "source-integrity"
    then some (
      VerificationFailureCode.source_mismatch,
      "The fetched source did not match the exact repository preimages or base SHA.",
    )
    else if step_id == "baseline-hidden-control"
    then some (
      VerificationFailureCode.baseline_mismatch,
      "The hidden baseline control did not fail for the expected analytics-residual reason.",
    )
    else if step_id == "materialize-candidate"
    then some (
      VerificationFailureCode.candidate_mismatch,
      "Candidate bytes, preimages, or canonical unified diff did not match.",
    )
    else if step_id == "candidate-hidden-control"
    then some (
      VerificationFailureCode.candidate_control_failed,
      "The hidden deletion control did not pass against the candidate.",
    )
    else if step_id == "demo-saas-regression"
    then some (
      VerificationFailureCode.regression_failed,
      "The full demo SaaS regression suite failed against the candidate.",
    )
    else if step_id == "candidate-integrity"
    then some (
      VerificationFailureCode.candidate_mismatch,
      "The final candidate working tree did not match the verified byte hashes.",
    )
    else none

unfoldable pub failed_step_outcome :
    Option String → VerificationDecision × VerificationFailureCode × String
unfolding logical_failure
failed_step_outcome step_id =
    let known : Option (VerificationFailureCode × String) = elim step_id [
      | none ↦ none
      | some id ↦ logical_failure id
    ] in
    elim known [
      | some (code, detail) ↦ (VerificationDecision.rejected, code, detail)
      | none ↦ (
        VerificationDecision.unavailable, VerificationFailureCode.build_failed,
        "Cloud Build failed outside the trusted control gates.",
      )
    ]

-- `_outcome` where both exactness flags and the candidate keep their defaults.
abbrev pub outcome :
    VerificationDecision
    → VerificationFailureCode
    → String
    → CheckResult
    → CheckResult
    → CheckResult
    → Option CloudBuildEvidence
    → VerificationOutcome
outcome decision failure_code detail baseline candidate regression evidence = record {
  decision = decision;
  failure_code = failure_code;
  detail = detail;
  baseline_control = baseline;
  candidate_control = candidate;
  regression_suite = regression;
  exact_source_verified = false;
  exact_candidate_verified = false;
  evidence = evidence;
  candidate = none;
}

-- `_outcome` where the three checks keep their defaults too.
abbrev pub unchecked :
    VerificationDecision
    → VerificationFailureCode
    → String
    → Option CloudBuildEvidence
    → VerificationOutcome
unchecked decision failure_code detail evidence =
    outcome decision failure_code detail CheckResult.not_run CheckResult.not_run CheckResult.not_run
      evidence
