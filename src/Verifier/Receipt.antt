-- ===== src/Verifier/Receipt.antt =====
-- `VerificationOutcome.to_verification_receipt` of cloudbuild_verifier.py: what a run keeps of an
-- outcome, with the binding to exact bytes where it can be published.
use i_promise.Base.{
  ◌≡◌, refl, sym, ap, ◌∙◌, inl, inr, Option-cases, Bool, true, false, ◌&&◌, String, Option, none,
  some, map, arith, if◌then◌else◌,
}
use i_promise.Dict.{Dict}
use i_promise.Errors.{Result, ok, err, value_error, ◌>>=◌, >>=-eq-ok, ok_injective}
use i_promise.Models.{VerificationReceipt, VerificationResult}
use i_promise.Models.Binding.{Payload, Digests, create, binding_of, create_lem, validate_binding}
use i_promise.Actions.{receipt_proves_candidate}
use i_promise.Verifier.{
  CloudBuildEvidence, VerifiedCandidate, VerificationOutcome, publishable, is_some,
}
use i_promise.Verifier.Kinds.{CheckResult, is_expected_failure}

-- The properties `preimage_hashes` and `candidate_hashes` of `VerifiedCandidate`.
abbrev pub preimages_of : VerifiedCandidate → Dict String String
preimages_of candidate = map (λ item. (item.path, item.preimage_sha256)) candidate.files

abbrev pub hashes_of : VerifiedCandidate → Dict String String
hashes_of candidate = map (λ item. (item.path, item.candidate_sha256)) candidate.files

-- The wire value of the baseline, where the expected failure is the failure of the control.
abbrev pub baseline_of : CheckResult → VerificationResult
baseline_of result =
    if is_expected_failure result then VerificationResult.fail else VerificationResult.not_run

abbrev pub check_of : CheckResult → VerificationResult
check_of result = elim result [
  | CheckResult.pass ↦ VerificationResult.pass
  | CheckResult.fail ↦ VerificationResult.fail
  | _ ↦ VerificationResult.not_run
]

-- A log address that is not HTTPS is left out.
abbrev pub log_of : (String → Bool) → Option CloudBuildEvidence → Option String
log_of is_https none = none
log_of is_https (some evidence) = elim evidence.log_url [
  | none ↦ none
  | some url ↦ if is_https url then some url else none
]

unfoldable pub plain_receipt : (String → Bool) → VerificationOutcome → VerificationReceipt
unfolding publishable
plain_receipt is_https o = record {
  verifier = "Google Cloud Build red-before/green-after gate";
  baseline_control = baseline_of o.baseline_control;
  candidate_control = check_of o.candidate_control;
  regression_suite = check_of o.regression_suite;
  exact_tree_verified = o.exact_candidate_verified;
  isolated = is_some o.evidence;
  publishable = publishable o;
  detail = o.detail;
  build_id = elim o.evidence [ none ↦ none | some evidence ↦ some evidence.build_id ];
  log_url = log_of is_https o.evidence;
  artifact_binding = none;
}

abbrev pub binding_payload : VerifiedCandidate → CloudBuildEvidence → String → Payload
binding_payload candidate evidence url = record {
  schema_version = "ipromise.verification-binding.v1";
  repository_url = candidate.repository_url;
  base_sha = candidate.base_sha;
  unified_diff_sha256 = candidate.unified_diff_sha256;
  preimage_hashes = preimages_of candidate;
  candidate_hashes = hashes_of candidate;
  build_id = evidence.build_id;
  build_name = evidence.build_name;
  log_url = url;
}

-- The receipt with its binding, where the outcome is publishable.
unfoldable pub bound_receipt :
    Digests
    → VerificationReceipt
    → VerifiedCandidate
    → CloudBuildEvidence
    → Result VerificationReceipt
unfolding create
bound_receipt d receipt candidate evidence = elim evidence.log_url [
  | none ↦ err (value_error "A publishable verification requires a durable log URL")
  | some url ↦ create d (binding_payload candidate evidence url) >>= λ binding.
      ok (record receipt { artifact_binding = some binding })
]

-- `if self.publishable and self.candidate is not None and self.evidence is not None`
unfoldable pub finish_receipt :
    Digests
    → VerificationReceipt
    → Bool
    → Option VerifiedCandidate
    → Option CloudBuildEvidence
    → Result VerificationReceipt
unfolding bound_receipt
finish_receipt d receipt true (some candidate) (some evidence) =
    bound_receipt d receipt candidate evidence
finish_receipt d receipt _ _ _ = ok receipt

unfoldable pub to_verification_receipt :
    Digests → (String → Bool) → VerificationOutcome → Result VerificationReceipt
unfolding plain_receipt finish_receipt
to_verification_receipt d is_https o =
    finish_receipt d (plain_receipt is_https o) (publishable o) o.candidate o.evidence

-- Before it is bound, the receipt proves its candidate exactly if the outcome can be published and a
-- build stands behind it.
plain_receipt-proves :
    (is_https : String → Bool) (o : VerificationOutcome)
    → receipt_proves_candidate (some (plain_receipt is_https o))
      ≡ (publishable o && is_some o.evidence)
unfolding receipt_proves_candidate plain_receipt publishable
plain_receipt-proves is_https o = ground arith

-- A receipt that was bound has the other fields unchanged, and binds the payload.
bound_receipt_lem :
    (d : Digests) (receipt : VerificationReceipt) (candidate : VerifiedCandidate)
    (evidence : CloudBuildEvidence) {r : VerificationReceipt}
    → bound_receipt d receipt candidate evidence ≡ ok r
    → (url : String) × (evidence.log_url ≡ some url)
      × ((receipt_proves_candidate (some r) ≡ receipt_proves_candidate (some receipt))
          × (r.artifact_binding ≡ some (binding_of d (binding_payload candidate evidence url)))
          × (validate_binding d (binding_of d (binding_payload candidate evidence url)) ≡ ok tt))
unfolding bound_receipt receipt_proves_candidate
bound_receipt_lem d receipt candidate evidence {r} h = elim (Option-cases evidence.log_url) [
  | inl lost ↦ absurd (ground (arith, rw (lost, bound_receipt) at h))
  | inr (url, there) ↦
      let (binding, made, bound) =
        >>=-eq-ok (create d (binding_payload candidate evidence url))
          (λ binding. ok (record receipt { artifact_binding = some binding }))
          (rw (there, bound_receipt) at h) in
      let (same, valid) = create_lem d (binding_payload candidate evidence url) made in
      let e : record receipt { artifact_binding = some binding } ≡ r = ok_injective bound in
      (
        url,
        there,
        (
          sym (ap (λ x. receipt_proves_candidate (some x)) e),
          sym (ap (λ x. x.artifact_binding) e) ∙ ap some same,
          valid,
        ),
      )
]

same_gate :
    {r receipt : VerificationReceipt}
    → ok receipt ≡ ok r
    → receipt_proves_candidate (some r) ≡ receipt_proves_candidate (some receipt)
same_gate h = sym (ap (λ x. receipt_proves_candidate (some x)) (ok_injective h))

finish_receipt-proves :
    (d : Digests) (receipt : VerificationReceipt) (gate : Bool)
    (candidate : Option VerifiedCandidate) (evidence : Option CloudBuildEvidence)
    {r : VerificationReceipt}
    → finish_receipt d receipt gate candidate evidence ≡ ok r
    → receipt_proves_candidate (some r) ≡ receipt_proves_candidate (some receipt)
unfolding finish_receipt
finish_receipt-proves d receipt true (some candidate) (some evidence) h =
    (bound_receipt_lem d receipt candidate evidence h).2.0
finish_receipt-proves d receipt true (some candidate) none h = same_gate h
finish_receipt-proves d receipt true none evidence h = same_gate h
finish_receipt-proves d receipt false candidate evidence h = same_gate h

-- The receipt proves its candidate exactly if the outcome can be published and a build stands behind
-- it: the translation neither adds nor loses a claim.
pub receipt-proves :
    (d : Digests) (is_https : String → Bool) (o : VerificationOutcome) {r : VerificationReceipt}
    → to_verification_receipt d is_https o ≡ ok r
    → receipt_proves_candidate (some r) ≡ (publishable o && is_some o.evidence)
unfolding to_verification_receipt
receipt-proves d is_https o h =
    finish_receipt-proves d (plain_receipt is_https o) (publishable o) o.candidate o.evidence h
    ∙ plain_receipt-proves is_https o

opened :
    (d : Digests) (receipt : VerificationReceipt) (gate : Bool)
    (candidates : Option VerifiedCandidate) (evidences : Option CloudBuildEvidence)
    (candidate : VerifiedCandidate) (evidence : CloudBuildEvidence)
    → gate ≡ true
    → candidates ≡ some candidate
    → evidences ≡ some evidence
    → finish_receipt d receipt gate candidates evidences
      ≡ bound_receipt d receipt candidate evidence
unfolding finish_receipt
opened d receipt gate candidates evidences candidate evidence k there shown =
    rw (k, there, shown) refl

-- The receipt of an outcome that can be published binds the exact candidate to its build: the binding
-- is valid, its payload is the candidate's and the evidence's, and its digest is the payload's.
pub receipt-binds :
    (d : Digests) (is_https : String → Bool) (o : VerificationOutcome)
    (candidate : VerifiedCandidate) (evidence : CloudBuildEvidence) {r : VerificationReceipt}
    → publishable o ≡ true
    → o.candidate ≡ some candidate
    → o.evidence ≡ some evidence
    → to_verification_receipt d is_https o ≡ ok r
    → (url : String) × (evidence.log_url ≡ some url)
      × ((r.artifact_binding ≡ some (binding_of d (binding_payload candidate evidence url)))
          × (validate_binding d (binding_of d (binding_payload candidate evidence url)) ≡ ok tt))
unfolding to_verification_receipt
receipt-binds d is_https o candidate evidence {r} k there shown h =
    let (url, log, (gate, bound, valid)) =
      bound_receipt_lem d (plain_receipt is_https o) candidate evidence (
        sym (
          opened d (plain_receipt is_https o) (publishable o) o.candidate o.evidence candidate
            evidence k there shown)
        ∙ h) in
    (url, log, (bound, valid))
