-- ===== src/Tests/Github.antt =====
-- Tests of Github.
use i_promise.Base.{
  ◌*◌, ◌≤◌, ◌≡◌, ◌≢◌, refl, true, false, String, none, some, List, [], ◌∷◌, map, string_eq, nat_eq,
}
use mathlib.Core.List.{Permᴰ}
use i_promise.Lists.{Every}
use i_promise.Text.{is_hex}
use i_promise.Bytes.{count, encode}
use i_promise.Errors.{ok, err, github_not_configured}
use i_promise.Models.{GitHubRepository, AuditRun, PlannedAction, ActionKind, ActionState}
use i_promise.Remediation.{
  store_path, test_path, expected_store_preimage, expected_test_preimage, expected_store_candidate,
  expected_test_candidate, expected_unified_diff_sha256, store_docstring_before,
  store_docstring_after, store_defect_after, test_name_before, test_name_after,
  test_assertion_after,
}
use i_promise.Verifier.Artifact.{same_dict}
use i_promise.Verifier.Interpret.{evidence_of, verified_candidate}
use i_promise.Github.{VerifiedCandidateInput, CandidateSnapshot, Primitives, Connection}
use i_promise.Github.Path.{
  safe_candidate_path, safe_candidate_path-resolve, resolve, join, has_char, ends_with_slash, split,
  is_safe_part,
}
use i_promise.Github.Candidate.{
  snapshot_candidate, snapshot_of, keys, check_candidate, snapshot_files, snapshot_file,
  check_content, file_at, sorted, insert_sorted, ends_with,
}
use i_promise.Github.Authentic.{
  IsAuthentic, snapshot_candidate-IsAuthentic, snapshot_candidate-bounded, total_bytes,
}
use i_promise.Github.Gate.{
  require_pull_request_gate, check_action, check_receipt, is_complete, check_binding, is_bound_to,
  bound_repository, check_repository,
}
use i_promise.Github.Cleared.{IsCleared, require_pull_request_gate-IsCleared}
use i_promise.Github.Authorized.{IsVerified, snapshot_candidate-IsVerified}
use i_promise.Tests.Samples.{sample_run}
use i_promise.Tests.Remediation.{candidates, base, sample_digest}
use i_promise.Tests.Verifier.{
  config, artifact, evidence, digests, published, can_publish, translated,
}

abbrev primitives : Primitives
primitives = record {
  sha256 = sample_digest;
  sha1 = λ content. "";
  casefold = λ text. text;
  dumps_intent = λ intent. intent.base_sha;
  dumps_finding = λ finding. finding.source_url;
  dumps_evidence = λ evidence. evidence.id;
}

abbrev candidate : VerifiedCandidateInput
candidate = record {
  base_sha = base;
  repository_url = config.repository_url;
  unified_diff_sha256 = expected_unified_diff_sha256;
  candidate_tree = (test_path, candidates.test) ∷ (store_path, candidates.store) ∷ [];
  candidate_hashes =
      (test_path, expected_test_candidate) ∷ (store_path, expected_store_candidate) ∷ [];
  preimage_hashes =
      (test_path, expected_test_preimage) ∷ (store_path, expected_store_preimage) ∷ [];
}

is_safe : safe_candidate_path primitives.casefold store_path ≡ true
unfolding safe_candidate_path has_char ends_with_slash split is_safe_part
is_safe = refl

is_unsafe : safe_candidate_path primitives.casefold "apps/../../secret" ≡ false
unfolding safe_candidate_path has_char ends_with_slash split is_safe_part
is_unsafe = refl

safe_candidate_path-resolve_example :
    (parts : List String) × (resolve store_path ≡ some parts)
    × (join parts ≡ store_path)
    × Every (λ part. primitives.casefold part ≢ ".git") parts
safe_candidate_path-resolve_example =
    safe_candidate_path-resolve primitives.casefold store_path is_safe

taken : (s : CandidateSnapshot) × (snapshot_candidate primitives candidate ≡ ok s)
unfolding snapshot_candidate check_candidate snapshot_files snapshot_file check_content file_at
    sorted insert_sorted ends_with safe_candidate_path has_char ends_with_slash split is_safe_part
    is_hex sample_digest count encode store_docstring_before store_docstring_after
    store_defect_after test_name_before test_name_after test_assertion_after
taken = (_, refl)

snapshot_candidate-IsAuthentic_example :
    (taken.0 ≡ snapshot_of candidate taken.0.files)
    × Permᴰ (map (λ f. f.path) taken.0.files) (keys candidate.candidate_tree)
    × Every (IsAuthentic primitives candidate) taken.0.files
snapshot_candidate-IsAuthentic_example = snapshot_candidate-IsAuthentic primitives candidate taken.1

snapshot_candidate-bounded_example : total_bytes taken.0.files ≤ 10 * 1024 * 1024
snapshot_candidate-bounded_example = snapshot_candidate-bounded primitives candidate taken.1

abbrev repository : GitHubRepository
repository = record {
  id = 7;
  full_name = "kostakarathana/iPromise";
  default_branch = "main";
  private = false;
  archived = false;
  html_url = "https://github.com/kostakarathana/iPromise";
}

abbrev other_repository : GitHubRepository
other_repository = record repository { id = 8 }

abbrev run : AuditRun
run = record sample_run { repository = some repository; verification = some translated.0 }

abbrev ready_action : PlannedAction
ready_action = record {
  id = "run_0001:pr";
  kind = ActionKind.pull_request;
  state = ActionState.ready;
  title = "Remove overdue analytics profile during account deletion";
  verified = true;
  reason = none;
  url = none;
}

passes : require_pull_request_gate true run ready_action taken.0 ≡ ok tt
unfolding require_pull_request_gate check_action check_receipt is_complete check_binding is_bound_to
    same_dict translated taken evidence_of verified_candidate
passes = refl

stops_disabled :
    require_pull_request_gate false run ready_action taken.0
    ≡ err (github_not_configured "GitHub actions are disabled")
unfolding require_pull_request_gate check_action
stops_disabled = refl

require_pull_request_gate-IsCleared_example : IsCleared true run ready_action taken.0
require_pull_request_gate-IsCleared_example =
    require_pull_request_gate-IsCleared true run ready_action taken.0 passes

snapshot_candidate-IsVerified_example :
    IsVerified primitives (verified_candidate config artifact evidence) taken.0
snapshot_candidate-IsVerified_example =
    snapshot_candidate-IsVerified primitives digests config.is_https published
      (verified_candidate config artifact evidence) evidence true run ready_action candidate
      can_publish refl refl translated.1 refl taken.1 passes

abbrev connected : Connection
connected = record {
  installation_id = 5;
  account_login = "kostakarathana";
  repositories = other_repository ∷ repository ∷ [];
  selected_repository_id = some 7;
}

is_bound : bound_repository (some connected) repository ≡ ok repository
unfolding bound_repository check_repository
is_bound = refl
