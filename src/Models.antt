-- ===== src/Models.antt =====
-- The wire models, services/agent/src/ipromise_agent/models.py: its enumerations (`Kinds`) and its
-- records. A `datetime` is a number of microseconds. Field constraints of pydantic are checks on
-- values that arrive over the wire; the records of a run that the agent builds itself carry none; those of the artifact binding are in `Binding`.
pub mod Binding
mod Kinds
pub use Kinds.*
use i_promise.Base.{ℕ, Bool, String, Option, List}
use i_promise.Dict.{Dict}

pub record GitHubRepository : Type 0 where
  pub id : ℕ
  pub full_name : String
  pub default_branch : String
  pub private : Bool
  pub archived : Bool
  pub html_url : String

pub record Claim : Type 0 where
  pub exact_quote : String
  pub source_url : String
  pub source_title : String
  pub captured_at : ℕ
  pub content_hash : String
  pub actor : Option String
  pub action : Option String
  pub object : Option String
  pub deadline_hours : Option ℕ
  pub qualifiers : List String
  pub testability : Testability
  pub control_id : Option String

pub record Evidence : Type 0 where
  pub id : String
  pub label : String
  pub expected : String
  pub observed : String
  pub result : EvidenceResult
  pub scope : Option String
  pub artifact_ref : Option String

pub record RunEvent : Type 0 where
  pub id : String
  pub stage : String
  pub state : EventState
  pub title : String
  pub at : ℕ
  pub detail : Option String
  pub system : Option String
  pub artifact_ref : Option String

pub record PlannedAction : Type 0 where
  pub id : String
  pub kind : ActionKind
  pub state : ActionState
  pub title : String
  pub verified : Bool
  pub reason : Option String
  pub url : Option String

pub record RuntimeInfo : Type 0 where
  pub agent_framework : String
  pub model_invocation_attempted : Bool
  pub model_invoked : Bool
  pub model : Option String
  pub execution_target : String
  pub cloud_run_revision : Option String

pub record FileEdit : Type 0 where
  pub path : String
  pub operation : String
  pub rationale : String
  pub content_preview : String

pub record RemediationProposal : Type 0 where
  pub summary : String
  pub base_reference : String
  pub edits : List FileEdit
  pub generated_by : String

pub record VerificationArtifactBinding : Type 0 where
  pub schema_version : String
  pub repository_url : String
  pub base_sha : String
  pub unified_diff_sha256 : String
  pub preimage_hashes : Dict String String
  pub candidate_hashes : Dict String String
  pub build_id : String
  pub build_name : String
  pub log_url : String
  pub binding_sha256 : String

pub record VerificationReceipt : Type 0 where
  pub verifier : String
  pub baseline_control : VerificationResult
  pub candidate_control : VerificationResult
  pub regression_suite : VerificationResult
  pub exact_tree_verified : Bool
  pub isolated : Bool
  pub publishable : Bool
  pub detail : String
  pub build_id : Option String
  pub log_url : Option String
  -- the private attribute `_artifact_binding`
  pub artifact_binding : Option VerificationArtifactBinding

pub record VerifiedCandidateFileCheckpoint : Type 0 where
  pub path : String
  pub preimage_sha256 : String
  pub candidate_sha256 : String
  pub content_base64 : String

pub record VerifiedCandidateCheckpoint : Type 0 where
  pub schema_version : String
  pub repository_url : String
  pub base_sha : String
  pub unified_diff_sha256 : String
  pub files : List VerifiedCandidateFileCheckpoint

pub record AuditRun : Type 0 where
  pub id : String
  pub mode : Mode
  pub status : RunStatus
  pub verdict : Verdict
  pub started_at : ℕ
  pub updated_at : ℕ
  pub claim : Claim
  pub evidence : List Evidence
  pub events : List RunEvent
  pub actions : List PlannedAction
  pub runtime : RuntimeInfo
  pub limitations : List String
  pub remediation : Option RemediationProposal
  pub verification : Option VerificationReceipt
  pub repository : Option GitHubRepository
  pub idempotency_key : String
  pub synthetic_fixture_id : Option String
  -- the private attribute `_verified_candidate`
  pub verified_candidate : Option VerifiedCandidateCheckpoint

pub record CompilationPayload : Type 0 where
  pub exact_quote : String
  pub actor : String
  pub action : String
  pub object : String
  pub deadline_hours : Option ℕ
  pub qualifiers : List String
  pub testability : Testability

pub record CreateRunRequest : Type 0 where
  pub trigger : String
  pub source : String
  pub control_id : String
  pub idempotency_key : Option String
