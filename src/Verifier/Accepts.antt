-- ===== src/Verifier/Accepts.antt =====
-- The artifact that remediation.py builds passes the checks of cloudbuild_verifier.py.
use i_promise.Base.{
  ◌∙◌, sym, map, leb, ◌≤◌, ◌≡◌, refl, true, String, Option, arith, beq_self, string_eq,
}
use i_promise.Dict.{Dict}
use i_promise.Text.{is_hex}
use i_promise.Bytes.{Bytes, encode, base64_length}
use i_promise.Errors.{Result, ok}
use i_promise.Remediation.{
  Platform, CandidateFile, BoundedRemediationArtifact, store_path, test_path,
  expected_store_preimage, expected_test_preimage, expected_store_candidate,
  expected_test_candidate,
}
use i_promise.Remediation.Build.{build_bounded_remediation_artifact}
use i_promise.Remediation.Artifact.{IsBound, IsLocked, build-IsLocked}
use i_promise.Verifier.Artifact.{
  validate_artifact, check_file, check_files, check_locked, is_allowlist, same_dict,
}

valid_store_preimage : is_hex 64 expected_store_preimage ≡ true
unfolding is_hex
valid_store_preimage = refl

valid_test_preimage : is_hex 64 expected_test_preimage ≡ true
unfolding is_hex
valid_test_preimage = refl

valid_store_candidate : is_hex 64 expected_store_candidate ≡ true
unfolding is_hex
valid_store_candidate = refl

valid_test_candidate : is_hex 64 expected_test_candidate ≡ true
unfolding is_hex
valid_test_candidate = refl

bound_file :
    (p : Platform) (file : CandidateFile) (path before after : String)
    → is_hex 64 before ≡ true
    → is_hex 64 after ≡ true
    → IsBound p file path before after
    → check_file p file ≡ ok tt
unfolding check_file
bound_file p file path before after h k b =
    rw (b.preimage, b.candidate, b.content, h, k, beq_self after) refl

module _ (p : Platform) (a : BoundedRemediationArtifact) (locked : IsLocked p a) where
  locked_paths : is_allowlist (map (λ item. item.path) a.candidate_files) ≡ true
  unfolding is_allowlist
  locked_paths = rw (locked.two_files, locked.store_bound.path_of, locked.test_bound.path_of) refl

  locked_files : check_files p a.candidate_files ≡ ok tt
  unfolding check_files
  locked_files =
      let store =
        bound_file p locked.store store_path expected_store_preimage expected_store_candidate
          valid_store_preimage valid_store_candidate locked.store_bound in
      let test =
        bound_file p locked.test test_path expected_test_preimage expected_test_candidate
          valid_test_preimage valid_test_candidate locked.test_bound in
      rw (locked.two_files, check_files, store, test) refl

  locked_digests : check_locked a ≡ ok tt
  unfolding check_locked same_dict
  locked_digests =
      rw
        (
          locked.two_files, locked.store_bound.path_of, locked.test_bound.path_of,
          locked.store_bound.preimage, locked.test_bound.preimage, locked.store_bound.candidate,
          locked.test_bound.candidate, locked.diff_digest,
        )
        refl

  locked_accepted : base64_length (encode a.unified_diff) ≤ 4000 → validate_artifact p a ≡ ok tt
  unfolding validate_artifact
  locked_accepted short =
      let bound : leb (base64_length (encode a.unified_diff)) 4000 ≡ true = ground arith in
      let digest : p.sha256 (encode a.unified_diff) ≡ a.unified_diff_sha256 =
        locked.diff ∙ sym locked.diff_digest in
      rw
        (
          locked.schema,
          locked.base,
          digest,
          beq_self a.unified_diff_sha256,
          bound,
          locked_paths,
          locked_files,
        )
        locked_digests

-- What is built can be verified: an artifact that the build returns passes every check of the
-- verifier, if its diff fits the input bound of the cloud build.
pub build-validate_artifact :
    (p : Platform) (base : String) (preimages : Option (Dict String Bytes))
    (fetch : Option (String → String → Result Bytes)) {a : BoundedRemediationArtifact}
    → build_bounded_remediation_artifact p base preimages fetch ≡ ok a
    → base64_length (encode a.unified_diff) ≤ 4000
    → validate_artifact p a ≡ ok tt
build-validate_artifact p base preimages fetch {a} h short =
    locked_accepted p a (build-IsLocked p base preimages fetch h).1 short
