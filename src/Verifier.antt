-- ===== src/Verifier.antt =====
-- services/agent/src/ipromise_agent/cloudbuild_verifier.py: the data of the cloud verification, and its
-- gate for publication.
--
-- The fields of the configuration that the decisions read are kept, times in milliseconds; `is_https`
-- is the test `parsed.scheme == "https" and bool(parsed.hostname)` of `urlparse`.
pub mod Kinds
pub mod Accepts
pub mod Artifact
pub mod Decisions
pub mod Gate
pub mod Interpret
pub mod Poll
pub mod Bound
pub mod Receipt
pub mod Run
use i_promise.Base.{
  ℕ, zero, suc, Bool, true, false, ◌&&◌, String, Option, none, some, List, [], ◌∷◌, map, leb,
  nat_beq, ◌==◌, string_eq, Eq,
}
use i_promise.Dict.{Dict}
use i_promise.Lists.{all}
use i_promise.Text.{concat, is_hex}
use i_promise.Bytes.{Bytes, encode, base64_length}
use i_promise.Verifier.Kinds.{
  VerificationDecision, VerificationFailureCode, CheckResult, is_verified, is_no_failure,
  is_expected_failure, is_check_pass,
}
use i_promise.Errors.{Result, ok, verifier_artifact, ◌>>=◌, ◌>>◌, guard}
use i_promise.Remediation.{
  Platform, CandidateFile, BoundedRemediationArtifact, preimage_hashes, candidate_hashes,
  candidate_tree, store_path, test_path, expected_store_preimage, expected_test_preimage,
  expected_store_candidate, expected_test_candidate, expected_unified_diff_sha256,
}

pub record Config : Type 0 where
  pub repository_url : String
  pub overall_timeout : ℕ
  pub poll_interval : ℕ
  pub is_https : String → Bool

pub record BuildSubmission : Type 0 where
  pub build_id : String
  pub build_name : String

pub record BuildStepSnapshot : Type 0 where
  pub id : String
  pub status : String

pub record BuildSnapshot : Type 0 where
  pub build_id : String
  pub build_name : String
  pub status : String
  pub log_url : Option String
  pub resolved_source_url : Option String
  pub resolved_revision : Option String
  pub steps : List BuildStepSnapshot
  pub status_detail : Option String

pub record CandidateFileEvidence : Type 0 where
  pub path : String
  pub preimage_sha256 : String
  pub candidate_sha256 : String
  pub content : Bytes

pub record CloudBuildEvidence : Type 0 where
  pub build_id : String
  pub build_name : String
  pub status : String
  pub log_url : Option String
  pub requested_source_url : String
  pub resolved_source_url : Option String
  pub requested_base_sha : String
  pub resolved_base_sha : Option String
  pub unified_diff_sha256 : String
  pub step_results : List BuildStepSnapshot

pub record VerifiedCandidate : Type 0 where
  pub schema_version : String
  pub repository_url : String
  pub base_sha : String
  pub unified_diff_sha256 : String
  pub files : List CandidateFileEvidence
  pub evidence : CloudBuildEvidence

pub record VerificationOutcome : Type 0 where
  pub decision : VerificationDecision
  pub failure_code : VerificationFailureCode
  pub detail : String
  pub baseline_control : CheckResult
  pub candidate_control : CheckResult
  pub regression_suite : CheckResult
  pub exact_source_verified : Bool
  pub exact_candidate_verified : Bool
  pub evidence : Option CloudBuildEvidence
  pub candidate : Option VerifiedCandidate

abbrev pub is_some {ℓ} : {A : Type ℓ} → Option A → Bool
is_some o = elim o [ none ↦ false | some _ ↦ true ]

-- The property `publishable`.
unfoldable pub publishable : VerificationOutcome → Bool
publishable outcome =
    is_verified outcome.decision
    && is_no_failure outcome.failure_code
    && is_expected_failure outcome.baseline_control
    && is_check_pass outcome.candidate_control
    && is_check_pass outcome.regression_suite
    && outcome.exact_source_verified
    && outcome.exact_candidate_verified
    && is_some outcome.candidate
