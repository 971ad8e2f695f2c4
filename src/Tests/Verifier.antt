-- ===== src/Tests/Verifier.antt =====
-- Runs of the cloud verification at concrete inputs.
use i_promise.Base.{
  ◌∙◌, ap, ◌&&◌, ℕ, zero, suc, ◌+◌, ◌*◌, ◌≡◌, ◌↔◌, refl, true, false, ◌&&◌, String, none, some, [],
  ◌∷◌, map, arith, inl, ◌==◌, string_eq,
}
use i_promise.Errors.{ok}
use i_promise.Text.{is_hex}
use i_promise.Bytes.{encode, count}
use i_promise.Models.{VerificationReceipt}
use i_promise.Models.Binding.{
  Digests, create, validate_binding, has_valid_fields, has_same_paths, check_entries,
}
use i_promise.Actions.{receipt_proves_candidate}
use i_promise.Remediation.{
  store_docstring_before, store_docstring_after, store_defect_after, test_name_before,
  test_name_after, test_assertion_after, BoundedRemediationArtifact, store_path, test_path,
  expected_store_preimage, expected_test_preimage, expected_store_candidate,
  expected_test_candidate, expected_unified_diff_sha256,
}
use i_promise.Tests.Remediation.{candidates, platform, base, sample_digest}
use i_promise.Verifier.{
  VerifiedCandidate, CloudBuildEvidence, Config, CloudBuildEvidence, BuildSubmission, BuildSnapshot,
  VerificationOutcome, publishable,
}
use i_promise.Verifier.Artifact.{
  validate_artifact, check_files, check_file, check_locked, same_dict, is_allowlist,
}
use i_promise.Verifier.Decisions.{required_step_ids, step_states_from}
use i_promise.Verifier.Interpret.{
  interpret, evidence_of, ended_outcome, is_complete_receipt, is_exact_source, is_valid_log_url,
  verified_outcome, verified_candidate,
}
use i_promise.Verifier.Gate.{IsProven, interpret-IsProven}
use i_promise.Verifier.Poll.{
  PollAnswer, Gateway, submitted, got, poll, verify, is_ended, Verification,
}
use i_promise.Verifier.Bound.{IsBoundTo, receipt-IsBoundTo}
use i_promise.Models.{VerificationArtifactBinding}
use i_promise.Verifier.Receipt.{
  to_verification_receipt, plain_receipt, finish_receipt, bound_receipt, receipt-proves,
}
use i_promise.Verifier.Run.{Ended, IsPaced, verify-total, verify-published}

abbrev log : String
log = "https://console.example/build/1"

abbrev pub config : Config
config = record {
  repository_url = "https://github.com/kostakarathana/iPromise.git";
  overall_timeout = 750000;
  poll_interval = 2000;
  is_https = λ url. url == log;
}

abbrev pub artifact : BoundedRemediationArtifact
artifact = record {
  schema_version = "ipromise.bounded-remediation.v1";
  base_reference = base;
  candidate_files =
      record {
        path = store_path;
        preimage_sha256 = expected_store_preimage;
        candidate_sha256 = expected_store_candidate;
        content = candidates.store;
      }
      ∷ record {
        path = test_path;
        preimage_sha256 = expected_test_preimage;
        candidate_sha256 = expected_test_candidate;
        content = candidates.test;
      }
      ∷ [];
  unified_diff = "d";
  unified_diff_sha256 = expected_unified_diff_sha256;
}

abbrev submission : BuildSubmission
submission = record { build_id = "b1"; build_name = "builds/b1" }

abbrev snapshot_with : String → BuildSnapshot
snapshot_with status = record {
  build_id = "b1";
  build_name = "builds/b1";
  status = status;
  log_url = some log;
  resolved_source_url = some config.repository_url;
  resolved_revision = some base;
  steps = map (λ id. record { id = id; status = "SUCCESS" }) required_step_ids;
  status_detail = none;
}

abbrev answer_at : ℕ → PollAnswer
answer_at zero = got (snapshot_with "WORKING")
answer_at (suc n) = got (snapshot_with "SUCCESS")

-- The build works at the first poll, and has succeeded at the second.
abbrev gateway : Gateway
gateway = record {
  submit = λ _. submitted submission;
  started = 1000;
  reading = λ n. 1000 + n * 2000;
  answer = answer_at;
}

abbrev pub published : VerificationOutcome
published =
    let evidence = evidence_of config artifact (some (snapshot_with "SUCCESS")) submission in
    verified_outcome evidence (verified_candidate config artifact evidence)

run_published : verify config artifact platform gateway 3 ≡ some (ok published, false)
unfolding verify validate_artifact check_files check_file check_locked same_dict is_allowlist is_hex
    sample_digest count encode store_docstring_before store_docstring_after store_defect_after
    test_name_before test_name_after test_assertion_after poll is_ended interpret ended_outcome
    is_complete_receipt is_exact_source is_valid_log_url step_states_from
run_published = refl

pub can_publish : publishable published ≡ true
unfolding publishable
can_publish = refl

verify-published_example :
    (validate_artifact platform artifact ≡ ok tt)
    × ((sent : BuildSubmission) × (gateway.submit artifact ≡ submitted sent)
        × (ended : Ended config artifact gateway sent published) × IsProven config artifact
            ended.snapshot)
    × (false ≡ false)
verify-published_example =
    verify-published config artifact platform gateway 3 run_published can_publish

interpret-IsProven_example :
    (publishable (interpret config artifact submission (snapshot_with "SUCCESS")) ≡ true)
    ↔ IsProven config artifact (snapshot_with "SUCCESS")
interpret-IsProven_example = interpret-IsProven config artifact submission (snapshot_with "SUCCESS")

abbrev hex_64 : String
hex_64 = expected_store_preimage

abbrev pub digests : Digests
digests = record { sha256 = λ content. hex_64; dumps = λ payload. payload.base_sha }

abbrev pub evidence : CloudBuildEvidence
evidence = evidence_of config artifact (some (snapshot_with "SUCCESS")) submission

unfoldable pub translated :
    (r : VerificationReceipt) × (to_verification_receipt digests config.is_https published ≡ ok r)
unfolding to_verification_receipt plain_receipt finish_receipt bound_receipt create validate_binding
    has_valid_fields has_same_paths check_entries is_hex publishable evidence_of verified_candidate
translated = (_, refl)

receipt-proves_example :
    receipt_proves_candidate (some translated.0) ≡ (publishable published && true)
receipt-proves_example = receipt-proves digests config.is_https published translated.1

published_proves : receipt_proves_candidate (some translated.0) ≡ true
published_proves =
    receipt-proves digests config.is_https published translated.1 ∙ ap (λ b. b && true) can_publish

receipt-IsBoundTo_example :
    (candidate : VerifiedCandidate) × (found : CloudBuildEvidence)
    × (binding : VerificationArtifactBinding) × (published.candidate ≡ some candidate)
    × (published.evidence ≡ some found)
    × (translated.0.artifact_binding ≡ some binding)
    × IsBoundTo digests binding candidate found
receipt-IsBoundTo_example =
    receipt-IsBoundTo digests config.is_https published translated.1 published_proves

paced : IsPaced config gateway
paced = record { first = omega arith; slept = λ n. inl (omega arith) }

verify-total_example : (r : Verification) × (verify config artifact platform gateway 376 ≡ some r)
verify-total_example = verify-total config artifact platform gateway 375 paced (omega arith)
