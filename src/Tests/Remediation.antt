-- ===== src/Tests/Remediation.antt =====
-- Tests of Remediation: a platform whose digests are those of the approved template, on preimages
-- that hold the anchors of the edits and nothing else.
use i_promise.Base.{
  ◌≡◌, ◌≤◌, arith, refl, String, none, some, [], ◌∷◌, ◌++◌, if◌then◌else◌, ◌==◌, nat_eq,
}
use i_promise.Bytes.{Bytes, encode, count, replace_first, base64_length}
use i_promise.Verifier.Artifact.{validate_artifact}
use i_promise.Verifier.Accepts.{build-validate_artifact}
use i_promise.Text.{is_hex}
use i_promise.Errors.{ok}
use i_promise.Remediation.{
  Platform, Pair, BoundedRemediationArtifact, store_path, test_path, store_docstring_before,
  store_docstring_after, store_defect_before, store_defect_after, test_name_before, test_name_after,
  test_assertion_before, test_assertion_after, expected_store_preimage, expected_test_preimage,
  expected_store_candidate, expected_test_candidate, expected_unified_diff_sha256,
  apply_approved_edits, load_preimages,
}
use i_promise.Remediation.Build.{
  build_bounded_remediation_artifact, canonical_unified_diff, artifact_from, finish_artifact,
}
use i_promise.Remediation.Edits.{AreApprovedEdits, apply_approved_edits_lem}
use i_promise.Remediation.Artifact.{IsLocked, build-IsLocked}

abbrev pub preimages : Pair
preimages = record {
  store = store_docstring_before ++ store_defect_before;
  test = test_name_before ++ test_assertion_before;
}

abbrev pub candidates : Pair
candidates = record {
  store = store_docstring_after ++ store_defect_after;
  test = test_name_after ++ test_assertion_after;
}

unfoldable pub sample_digest : Bytes → String
sample_digest content =
    if count content store_docstring_before == 1
    then expected_store_preimage
    else if count content test_name_before == 1
    then expected_test_preimage
    else if count content store_docstring_after == 1
    then expected_store_candidate
    else if count content test_name_after == 1
    then expected_test_candidate
    else expected_unified_diff_sha256

abbrev pub platform : Platform
platform = record {
  sha256 = sample_digest;
  decode = λ content. some "";
  unified_diff = λ before after from to. "d";
  splitlines = λ text. [];
}

abbrev pub base : String
base = "b5c2badacc506b78c6eed314f155ecbc2188198b"

edits_apply : apply_approved_edits preimages ≡ ok candidates
unfolding apply_approved_edits count replace_first encode store_docstring_before store_defect_before
    test_name_before test_assertion_before store_docstring_after store_defect_after test_name_after
    test_assertion_after
edits_apply = refl

apply_approved_edits_lem_example : AreApprovedEdits preimages candidates
apply_approved_edits_lem_example = apply_approved_edits_lem preimages edits_apply

built_artifact :
    (a : BoundedRemediationArtifact) × (build_bounded_remediation_artifact platform base
        (some ((store_path, preimages.store) ∷ (test_path, preimages.test) ∷ []))
        none
      ≡ ok a)
unfolding build_bounded_remediation_artifact load_preimages artifact_from finish_artifact
    canonical_unified_diff sample_digest apply_approved_edits count replace_first encode
    store_docstring_before store_defect_before test_name_before test_assertion_before
    store_docstring_after store_defect_after test_name_after test_assertion_after is_hex
built_artifact = (_, refl)

build-IsLocked_example :
    (built_artifact.0.base_reference ≡ base) × IsLocked platform built_artifact.0
build-IsLocked_example =
    build-IsLocked platform base
      (some ((store_path, preimages.store) ∷ (test_path, preimages.test) ∷ [])) none
      built_artifact.1

short_diff : base64_length (encode built_artifact.0.unified_diff) ≤ 4000
unfolding built_artifact encode
short_diff = omega arith

build-validate_artifact_example : validate_artifact platform built_artifact.0 ≡ ok tt
build-validate_artifact_example =
    build-validate_artifact platform base
      (some ((store_path, preimages.store) ∷ (test_path, preimages.test) ∷ [])) none
      built_artifact.1 short_diff
