-- ===== src/Verifier/Bound.antt =====
-- What a receipt that proves a candidate binds together (cloudbuild_verifier.py and models.py), field
-- by field.
use i_promise.Base.{◌≡◌, refl, inl, inr, Option-cases, Bool, true, ◌&&◌, String, some, map, arith}
use i_promise.Errors.{ok}
use i_promise.Bytes.{encode}
use i_promise.Models.{VerificationReceipt, VerificationArtifactBinding}
use i_promise.Models.Binding.{Digests, payload_of, validate_binding, binding_of}
use i_promise.Actions.{receipt_proves_candidate}
use i_promise.Verifier.{
  CloudBuildEvidence, VerifiedCandidate, VerificationOutcome, publishable, is_some,
}
use i_promise.Verifier.Receipt.{
  to_verification_receipt, binding_payload, receipt-proves, receipt-binds,
}

-- The binding names the bytes of every file before and after, the base, the diff, the build and its
-- log, its digest is that of all this, and it passes its validators.
pub record IsBoundTo (d : Digests) (binding : VerificationArtifactBinding)
    (candidate : VerifiedCandidate) (evidence : CloudBuildEvidence) : Type 0 where
  pub repository : binding.repository_url ≡ candidate.repository_url
  pub base : binding.base_sha ≡ candidate.base_sha
  pub diff : binding.unified_diff_sha256 ≡ candidate.unified_diff_sha256
  pub before :
      binding.preimage_hashes ≡ map (λ file. (file.path, file.preimage_sha256)) candidate.files
  pub after :
      binding.candidate_hashes ≡ map (λ file. (file.path, file.candidate_sha256)) candidate.files
  pub build_id_of : binding.build_id ≡ evidence.build_id
  pub build_name_of : binding.build_name ≡ evidence.build_name
  pub log : evidence.log_url ≡ some binding.log_url
  pub digest_of : binding.binding_sha256 ≡ d.sha256 (encode (d.dumps (payload_of binding)))
  pub valid : validate_binding d binding ≡ ok tt

-- What a proof rests on.
proven_parts :
    (o : VerificationOutcome)
    → (publishable o && is_some o.evidence) ≡ true
    → (publishable o ≡ true)
      × (candidate : VerifiedCandidate) × (evidence : CloudBuildEvidence) × (o.candidate
          ≡ some candidate)
      × (o.evidence ≡ some evidence)
unfolding publishable
proven_parts o h = elim (Option-cases o.candidate) [
  | inl none_c ↦ absurd (ground (arith, rw none_c at h))
  | inr (candidate, there) ↦ elim (Option-cases o.evidence) [
    | inl none_e ↦ absurd (ground (arith, rw none_e at h))
    | inr (evidence, shown) ↦ (ground arith, candidate, evidence, there, shown)
  ]
]

-- If the receipt of an outcome proves its candidate, the outcome has a candidate and the evidence of a
-- build, and the receipt carries a valid binding of exactly that candidate, with the digests of each
-- file before and after, to exactly that build and its log, under the digest of all of it.
pub receipt-IsBoundTo :
    (d : Digests) (is_https : String → Bool) (o : VerificationOutcome) {r : VerificationReceipt}
    → to_verification_receipt d is_https o ≡ ok r
    → receipt_proves_candidate (some r) ≡ true
    → (candidate : VerifiedCandidate) × (evidence : CloudBuildEvidence)
      × (binding : VerificationArtifactBinding) × (o.candidate ≡ some candidate)
      × (o.evidence ≡ some evidence)
      × (r.artifact_binding ≡ some binding)
      × IsBoundTo d binding candidate evidence
receipt-IsBoundTo d is_https o h proves =
    let gate : (publishable o && is_some o.evidence) ≡ true =
      rw⁻¹ (receipt-proves d is_https o h) proves in
    let (open_gate, candidate, evidence, there, shown) = proven_parts o gate in
    let (url, log, (bound, valid)) =
      receipt-binds d is_https o candidate evidence open_gate there shown h in
    (
      candidate,
      evidence,
      binding_of d (binding_payload candidate evidence url),
      there,
      shown,
      bound,
      record {
        repository = refl;
        base = refl;
        diff = refl;
        before = refl;
        after = refl;
        build_id_of = refl;
        build_name_of = refl;
        log = log;
        digest_of = refl;
        valid = valid;
      },
    )
