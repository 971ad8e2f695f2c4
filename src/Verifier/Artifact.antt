-- ===== src/Verifier/Artifact.antt =====
-- `_validate_artifact` of services/agent/src/ipromise_agent/cloudbuild_verifier.py: the checks on an
-- artifact before anything is submitted.
use i_promise.Base.{Bool, false, ◌&&◌, String, none, some, List, [], ◌∷◌, map, leb, ◌==◌, string_eq}
use i_promise.Dict.{Dict, lookup}
use i_promise.Lists.{all}
use i_promise.Text.{concat, is_hex}
use i_promise.Bytes.{encode, base64_length}
use i_promise.Errors.{Result, ok, verifier_artifact, ◌>>◌, guard}
use i_promise.Remediation.{
  Platform, CandidateFile, BoundedRemediationArtifact, preimage_hashes, candidate_hashes,
  store_path, test_path, expected_store_preimage, expected_test_preimage, expected_store_candidate,
  expected_test_candidate, expected_unified_diff_sha256,
}

abbrev pub is_part_of : Dict String String → Dict String String → Bool
is_part_of inner outer =
    all (λ entry. elim (lookup entry.0 outer) [ none ↦ false | some value ↦ value == entry.1 ])
      inner

-- `left == right` for two dicts.
unfoldable pub same_dict : Dict String String → Dict String String → Bool
same_dict left right = is_part_of left right && is_part_of right left

-- `paths != ALLOWED_REMEDIATION_PATHS`, negated
unfoldable pub is_allowlist : List String → Bool
is_allowlist (first ∷ second ∷ []) = first == store_path && second == test_path
is_allowlist _ = false

-- The checks on one file.
unfoldable pub check_file : Platform → CandidateFile → Result (Unit {0})
unfolding is_hex
check_file p item = do
  guard (is_hex 64 item.preimage_sha256)
      (verifier_artifact (concat ("invalid preimage digest for " ∷ item.path ∷ [])))
  guard (is_hex 64 item.candidate_sha256)
      (verifier_artifact (concat ("invalid candidate digest for " ∷ item.path ∷ [])))
  guard (p.sha256 item.content == item.candidate_sha256)
      (verifier_artifact (concat ("candidate digest mismatch for " ∷ item.path ∷ [])))

unfoldable pub check_files : Platform → List CandidateFile → Result (Unit {0})
check_files p [] = ok tt
check_files p (item ∷ rest) = check_file p item >> check_files p rest

-- The comparisons with the locked digests. The three comparisons before them, of the properties
-- `candidate_tree`, `preimage_hashes` and `candidate_hashes` with the expressions that define them,
-- always hold.
unfoldable pub check_locked : BoundedRemediationArtifact → Result (Unit {0})
unfolding same_dict
check_locked artifact = do
  guard
      (same_dict (preimage_hashes artifact)
        ((store_path, expected_store_preimage) ∷ (test_path, expected_test_preimage) ∷ []))
      (verifier_artifact "preimage hashes do not match the locked vulnerable snapshot")
  guard
      (same_dict (candidate_hashes artifact)
        ((store_path, expected_store_candidate) ∷ (test_path, expected_test_candidate) ∷ []))
      (verifier_artifact "candidate hashes do not match the one approved remediation template")
  guard (artifact.unified_diff_sha256 == expected_unified_diff_sha256)
      (verifier_artifact "unified diff does not match the one approved remediation template")

unfoldable pub validate_artifact : Platform → BoundedRemediationArtifact → Result (Unit {0})
unfolding check_files check_locked is_allowlist
validate_artifact p artifact = do
  guard (artifact.schema_version == "ipromise.bounded-remediation.v1")
      (verifier_artifact "unsupported bounded remediation schema")
  guard (is_hex 40 artifact.base_reference)
      (verifier_artifact "base SHA must be a full lowercase Git commit SHA")
  guard (p.sha256 (encode artifact.unified_diff) == artifact.unified_diff_sha256)
      (verifier_artifact "unified diff digest does not match its bytes")
  guard (leb (base64_length (encode artifact.unified_diff)) 4000)
      (verifier_artifact "base64-encoded unified diff exceeds the Cloud Build input bound")
  guard (is_allowlist (map (λ item. item.path) artifact.candidate_files))
      (verifier_artifact "candidate file order and path set must equal the allowlist")
  check_files p artifact.candidate_files
  check_locked artifact
