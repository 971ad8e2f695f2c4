-- ===== src/Remediation/Build.antt =====
-- remediation.py: `build_bounded_remediation_artifact`, and the texts of a proposal and of the
-- receipts without a verified candidate.
use i_promise.Base.{
  ℕ, ◌-◌, Bool, false, not, ◌&&◌, ◌||◌, String, Option, none, some, [], ◌∷◌, leb, if◌then◌else◌,
  ◌==◌, string_eq,
}
use text.Mathlib.Text.{starts_with}
use i_promise.Dict.{Dict}
use i_promise.Lists.{length, count_if}
use i_promise.Text.{concat, is_hex}
use i_promise.Bytes.{Bytes, encode}
use i_promise.Models.{RemediationProposal, VerificationReceipt, VerificationResult}
use i_promise.Errors.{Result, ok, err, bounded_remediation, ◌>>=◌, ◌>>◌, guard}
use i_promise.Remediation.{
  Platform, BoundedRemediationArtifact, Pair, load_preimages, apply_approved_edits, store_path,
  test_path, expected_store_preimage, expected_test_preimage, expected_store_candidate,
  expected_test_candidate, expected_unified_diff_sha256, max_preimage_file_bytes,
  max_candidate_growth_bytes, max_unified_diff_bytes, max_changed_diff_lines,
}

-- `abs(len(a) - len(b))`
abbrev pub distance : ℕ → ℕ → ℕ
distance a b = if leb b a then a - b else b - a

-- `line.startswith(("+", "-")) and not line.startswith(("+++", "---"))`
abbrev pub is_changed_line : String → Bool
is_changed_line line =
    (starts_with line "+" || starts_with line "-")
    && not (starts_with line "+++" || starts_with line "---")

module _ (p : Platform) where
  check_preimage : String → Bytes → String → Result (Unit {0})
  check_preimage path content expected_hash = guard (p.sha256 content == expected_hash) (
      bounded_remediation (
        concat (
          "Preimage drift for "
          ∷ path
          ∷ ": expected "
          ∷ expected_hash
          ∷ ", observed "
          ∷ p.sha256 content
          ∷ [])))

  check_size : String → Bytes → Bytes → Result (Unit {0})
  check_size path candidate preimage = do
    guard (leb (length candidate) max_preimage_file_bytes)
        (bounded_remediation (concat ("Candidate " ∷ path ∷ " exceeds 32768 bytes" ∷ [])))
    guard (leb (distance (length candidate) (length preimage)) max_candidate_growth_bytes) (
        bounded_remediation
          (concat ("Candidate " ∷ path ∷ " changes file size by more than 1024 bytes" ∷ [])))

  -- The part of the diff for one file.
  file_diff : String → Bytes → Bytes → Result String
  file_diff path before after = elim (p.decode before) [
    | none ↦
        err (
          bounded_remediation
            (concat ("Approved remediation file " ∷ path ∷ " must be UTF-8" ∷ [])))
    | some old ↦ elim (p.decode after) [
      | none ↦ err (
          bounded_remediation
            (concat ("Approved remediation file " ∷ path ∷ " must be UTF-8" ∷ [])))
      | some new ↦
          ok (p.unified_diff old new (concat ("a/" ∷ path ∷ [])) (concat ("b/" ∷ path ∷ [])))
    ]
  ]

  unfoldable pub canonical_unified_diff : Pair → Pair → Result String
  unfolding file_diff
  canonical_unified_diff preimages candidates = do
    store ← file_diff store_path preimages.store candidates.store
    test ← file_diff test_path preimages.test candidates.test
    ok (concat (store ∷ test ∷ []))

  -- The checks between the edits and the artifact.
  unfoldable pub check_candidates : Pair → Pair → String → Result (Unit {0})
  check_candidates loaded candidates diff = do
    guard (leb (length (encode diff)) max_unified_diff_bytes)
        (bounded_remediation "Candidate diff exceeds 8192 bytes")
    guard (leb (count_if is_changed_line (p.splitlines diff)) max_changed_diff_lines)
        (bounded_remediation "Candidate diff exceeds 16 changed lines")
    guard
        (p.sha256 candidates.store == expected_store_candidate
          && p.sha256 candidates.test == expected_test_candidate)
        (bounded_remediation
          "Approved remediation template did not produce the locked candidate bytes")
    guard (p.sha256 (encode diff) == expected_unified_diff_sha256) (
        bounded_remediation
          "Approved remediation template did not produce the locked canonical diff")

  -- The artifact for candidates that passed every check.
  unfoldable pub artifact_of : String → Pair → Pair → String → BoundedRemediationArtifact
  artifact_of base_reference loaded candidates diff = record {
    schema_version = "ipromise.bounded-remediation.v1";
    base_reference = base_reference;
    candidate_files =
        record {
          path = store_path;
          preimage_sha256 = p.sha256 loaded.store;
          candidate_sha256 = p.sha256 candidates.store;
          content = candidates.store;
        }
        ∷ record {
          path = test_path;
          preimage_sha256 = p.sha256 loaded.test;
          candidate_sha256 = p.sha256 candidates.test;
          content = candidates.test;
        }
        ∷ [];
    unified_diff = diff;
    unified_diff_sha256 = p.sha256 (encode diff);
  }

  -- The build once the edits are made.
  unfoldable pub finish_artifact : String → Pair → Pair → Result BoundedRemediationArtifact
  unfolding check_size check_candidates artifact_of
  finish_artifact base_reference loaded candidates = do
    check_size store_path candidates.store loaded.store
    check_size test_path candidates.test loaded.test
    diff ← canonical_unified_diff loaded candidates
    check_candidates loaded candidates diff
    ok (artifact_of base_reference loaded candidates diff)

  -- The build once the preimages are loaded.
  unfoldable pub artifact_from : String → Pair → Result BoundedRemediationArtifact
  unfolding check_preimage
  artifact_from base_reference loaded = do
    check_preimage store_path loaded.store expected_store_preimage
    check_preimage test_path loaded.test expected_test_preimage
    candidates ← apply_approved_edits loaded
    finish_artifact base_reference loaded candidates

  unfoldable pub build_bounded_remediation_artifact :
      String
      → Option (Dict String Bytes)
      → Option (String → String → Result Bytes)
      → Result BoundedRemediationArtifact
  build_bounded_remediation_artifact base_reference preimages fetch_preimage = do
    guard (is_hex 40 base_reference) (
        bounded_remediation "base_reference must be the full lowercase 40-character Git commit SHA")
    loaded ← load_preimages base_reference preimages fetch_preimage
    artifact_from base_reference loaded

unfoldable pub propose_bounded_remediation : String → RemediationProposal
propose_bounded_remediation base_reference = record {
  summary = "Remove the matching analytics profile while processing account deletion.";
  base_reference = base_reference;
  edits =
      record {
        path = store_path;
        operation = "insert_bounded_statement";
        rationale =
            "The virtual worker removed the app profile at T0+1h, but the synthetic analytics profile remained active at T0+25h.";
        content_preview = "self._analytics_profiles.pop(account_id, None)";
      }
      ∷ record {
        path = test_path;
        operation = "replace_bounded_assertion";
        rationale = "Lock the repaired deletion behavior with an exact regression test.";
        content_preview = "assert after[\"analytics_profile_exists\"] is False";
      }
      ∷ [];
  generated_by = "deterministic approved remediation template";
}

unfoldable pub unverified_mvp_receipt : VerificationReceipt
unverified_mvp_receipt = record {
  verifier = "MVP verification gate (candidate execution not configured)";
  baseline_control = VerificationResult.fail;
  candidate_control = VerificationResult.not_run;
  regression_suite = VerificationResult.not_run;
  exact_tree_verified = false;
  isolated = false;
  publishable = false;
  detail =
      "The live synthetic baseline contradicted the promise. No candidate patch was executed by the Cloud Build verifier, so publication remains blocked.";
  build_id = none;
  log_url = none;
  artifact_binding = none;
}

unfoldable pub unavailable_verification_receipt : String → VerificationReceipt
unavailable_verification_receipt detail = record {
  verifier = "Bounded Cloud Build verification gate";
  baseline_control = VerificationResult.fail;
  candidate_control = VerificationResult.not_run;
  regression_suite = VerificationResult.not_run;
  exact_tree_verified = false;
  isolated = false;
  publishable = false;
  detail = detail;
  build_id = none;
  log_url = none;
  artifact_binding = none;
}
