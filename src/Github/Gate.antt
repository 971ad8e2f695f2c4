-- ===== src/Github/Gate.antt =====
-- `_require_pull_request_gate` and `_bound_repository` of github.py: the checks between a snapshot and
-- the first call over the network.
use i_promise.Base.{
  Bool, true, false, not, ◌&&◌, ◌||◌, String, Option, none, some, map, ◌==◌, string_eq, nat_eq,
}
use i_promise.Dict.{Dict}
use i_promise.Lists.{find_first}
use i_promise.Models.{
  GitHubRepository, AuditRun, PlannedAction, VerificationReceipt, VerificationArtifactBinding,
  is_pull_request, is_ready, is_fail, is_pass,
}
use i_promise.Errors.{
  Result, ok, err, publication_rejected, github_not_configured, github_authorization, ◌>>◌, guard,
}
use i_promise.Verifier.Artifact.{same_dict}
use i_promise.Github.{CandidateSnapshot, Connection}

-- The digests of a snapshot by path.
abbrev pub candidate_digests : CandidateSnapshot → Dict String String
candidate_digests snapshot = map (λ file. (file.path, file.candidate_sha256)) snapshot.files

abbrev pub preimage_digests : CandidateSnapshot → Dict String String
preimage_digests snapshot = map (λ file. (file.path, file.preimage_sha256)) snapshot.files

-- `not (receipt is not None and …)`, negated
unfoldable pub is_complete : Option VerificationReceipt → Bool
is_complete none = false
is_complete (some receipt) =
    receipt.publishable
    && receipt.isolated
    && receipt.exact_tree_verified
    && is_fail receipt.baseline_control
    && is_pass receipt.candidate_control
    && is_pass receipt.regression_suite

unfoldable pub is_bound_to : VerificationArtifactBinding → CandidateSnapshot → Bool
unfolding same_dict
is_bound_to binding snapshot =
    binding.repository_url == snapshot.repository_url
    && binding.base_sha == snapshot.base_sha
    && binding.unified_diff_sha256 == snapshot.unified_diff_sha256
    && same_dict binding.candidate_hashes (candidate_digests snapshot)
    && same_dict binding.preimage_hashes (preimage_digests snapshot)

abbrev pub receipt_binding : Option VerificationReceipt → Option VerificationArtifactBinding
receipt_binding none = none
receipt_binding (some receipt) = receipt.artifact_binding

-- The last two checks.
unfoldable pub check_binding :
    Option VerificationArtifactBinding → CandidateSnapshot → Result (Unit {0})
unfolding is_bound_to
check_binding none snapshot =
    err
      (publication_rejected "The verification receipt is not bound to an exact build and candidate")
check_binding (some binding) snapshot =
    guard (is_bound_to binding snapshot) (
      publication_rejected
        "The candidate did not match the verification receipt's artifact binding")

abbrev pub is_some {ℓ} : {A : Type ℓ} → Option A → Bool
is_some o = elim o [ none ↦ false | some _ ↦ true ]

-- The checks on the settings, the run and the action.
unfoldable pub check_action : Bool → AuditRun → PlannedAction → Result (Unit {0})
check_action github_actions_enabled run action = do
  guard github_actions_enabled (github_not_configured "GitHub actions are disabled")
  guard (is_some run.repository) (publication_rejected "The run has no immutable repository target")
  guard (is_pull_request action.kind)
      (publication_rejected "Only a pull-request action can invoke draft PR publication")
  guard (is_ready action.state && action.verified)
      (publication_rejected "The draft PR action is not verified and ready")

unfoldable pub check_receipt : Option VerificationReceipt → CandidateSnapshot → Result (Unit {0})
unfolding is_complete check_binding
check_receipt receipt snapshot = do
  guard (is_complete receipt)
      (publication_rejected "The run does not contain a complete isolated verification receipt")
  check_binding (receipt_binding receipt) snapshot

unfoldable pub require_pull_request_gate :
    Bool → AuditRun → PlannedAction → CandidateSnapshot → Result (Unit {0})
unfolding check_action check_receipt
require_pull_request_gate github_actions_enabled run action snapshot = do
  check_action github_actions_enabled run action
  check_receipt run.verification snapshot

abbrev same_flag : Bool → Bool → Bool
same_flag true b = b
same_flag false b = not b

-- `immutable_identity == target_identity`
abbrev pub has_same_identity : GitHubRepository → GitHubRepository → Bool
has_same_identity repository target =
    repository.full_name == target.full_name
    && repository.default_branch == target.default_branch
    && same_flag repository.private target.private
    && repository.html_url == target.html_url

unfoldable pub check_repository : GitHubRepository → GitHubRepository → Result GitHubRepository
check_repository repository target = do
  guard (has_same_identity repository target)
      (github_authorization "The run's bound repository identity no longer matches the connection")
  guard (not (repository.archived || target.archived))
      (github_authorization "The run's repository is archived")
  ok repository

unfoldable pub bound_repository : Option Connection → GitHubRepository → Result GitHubRepository
unfolding check_repository
bound_repository none target =
    err (github_authorization "The run's repository is no longer connected")
bound_repository (some connection) target =
    elim (find_first (λ item. item.id == target.id) connection.repositories) [
      | none ↦ err (
          github_authorization "The run's repository is not available to the verified installation")
      | some repository ↦ check_repository repository target
    ]
