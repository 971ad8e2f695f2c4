-- ===== src/Github/Authorized.antt =====
-- The chain from the cloud build to the publication: cloudbuild_verifier.py makes the receipt, and
-- github.py publishes only what the receipt binds.
use i_promise.Base.{
  ◌≡◌, refl, sym, ap, ◌∙◌, inl, inr, arith, Bool, true, String, Option, some, List, [], ◌∷◌, ◌==◌,
  string_eq, Bool-cases,
}
use i_promise.Dict.{lookup}
use i_promise.Lists.{Every, Every-map}
use i_promise.Errors.{ok}
use i_promise.Models.{AuditRun, PlannedAction, VerificationReceipt}
use i_promise.Models.Binding.{Digests}
use i_promise.Verifier.{VerificationOutcome, VerifiedCandidate, CloudBuildEvidence, publishable}
use i_promise.Verifier.Receipt.{to_verification_receipt, receipt-binds, hashes_of}
use i_promise.Github.{VerifiedCandidateInput, SnapshotFile, CandidateSnapshot, Primitives}
use i_promise.Github.Candidate.{snapshot_candidate}
use i_promise.Github.Authentic.{snapshot_candidate-IsAuthentic}
use i_promise.Github.Gate.{candidate_digests, require_pull_request_gate}
use i_promise.Github.Cleared.{require_pull_request_gate-IsCleared}

abbrev digest_list : List SnapshotFile → List (String × String)
digest_list files = i_promise.Base.map (λ file. (file.path, file.candidate_sha256)) files

-- In the digests by path, every file finds its own, if equal paths have equal digests.
digests_of :
    (recorded : String → Option String) (files : List SnapshotFile)
    → Every (λ f. recorded f.path ≡ some f.candidate_sha256) files
    → Every (λ f. lookup f.path (digest_list files) ≡ some f.candidate_sha256) files
digests_of recorded [] h = tt
digests_of recorded (first ∷ rest) (h, hs) = (
  ground (arith, string_eq.same_iff first.path first.path),
  Every-map rest
      (λ f at later. elim (Bool-cases (first.path == f.path)) [
        | inl same ↦
            rw same (sym h ∙ ap recorded ((string_eq.same_iff first.path f.path).0 same) ∙ at)
        | inr other ↦ rw other later
      ])
      hs (digests_of recorded rest hs),
)

option_injective : {A : Type 0} {a b : A} → some a ≡ some b → a ≡ b
option_injective {a} h = ap (λ o. elim o [ i_promise.Base.none ↦ a | some x ↦ x ]) h

-- What is published is what was verified: the snapshot has the base and the diff of the outcome's
-- candidate and the same files, and the bytes of each have the SHA-256 that the build verified.
pub record IsVerified (p : Primitives) (candidate : VerifiedCandidate) (s : CandidateSnapshot)
    : Type 0 where
  pub same_url : s.repository_url ≡ candidate.repository_url
  pub same_base : s.base_sha ≡ candidate.base_sha
  pub same_diff : s.unified_diff_sha256 ≡ candidate.unified_diff_sha256
  pub same_paths :
      (path : String) → lookup path (hashes_of candidate) ≡ lookup path (candidate_digests s)
  pub same_bytes :
      Every (λ f. lookup f.path (hashes_of candidate) ≡ some (p.sha256 f.content)) s.files

-- If the receipt of a run is the translation of an outcome that can be published, and both the snapshot
-- and the gate accept a candidate for that run, then the candidate is the one that was verified.
pub snapshot_candidate-IsVerified :
    (p : Primitives) (d : Digests) (is_https : String → Bool) (o : VerificationOutcome)
    (verified : VerifiedCandidate) (evidence : CloudBuildEvidence) (enabled : Bool) (run : AuditRun)
    (action : PlannedAction) (candidate : VerifiedCandidateInput) {r : VerificationReceipt}
    {s : CandidateSnapshot}
    → publishable o ≡ true
    → o.candidate ≡ some verified
    → o.evidence ≡ some evidence
    → to_verification_receipt d is_https o ≡ ok r
    → run.verification ≡ some r
    → snapshot_candidate p candidate ≡ ok s
    → require_pull_request_gate enabled run action s ≡ ok tt
    → IsVerified p verified s
snapshot_candidate-IsVerified p d is_https o verified evidence enabled run action candidate {r} {s}
      k there shown made recorded copied gate =
    let cleared = require_pull_request_gate-IsCleared enabled run action s gate in
    let (url, log, (bound, valid)) =
      receipt-binds d is_https o verified evidence k there shown made in
    let same_receipt : cleared.receipt ≡ r =
      option_injective (sym cleared.has_receipt ∙ recorded) in
    let same_binding =
      option_injective
        (sym cleared.has_binding ∙ ap (λ x. x.artifact_binding) same_receipt ∙ bound) in
    let same_paths = λ (path : String).
      sym (ap (λ b. lookup path b.candidate_hashes) same_binding) ∙ cleared.same_candidate path in
    let (faithful, perm, authentic) = snapshot_candidate-IsAuthentic p candidate copied in
    record {
      same_url = sym cleared.same_url ∙ ap (λ b. b.repository_url) same_binding;
      same_base = sym cleared.same_base ∙ ap (λ b. b.base_sha) same_binding;
      same_diff = sym cleared.same_diff ∙ ap (λ b. b.unified_diff_sha256) same_binding;
      same_paths = same_paths;
      same_bytes =
          Every-map s.files
            (λ f authentic_f own. same_paths f.path ∙ own ∙ ap some (sym authentic_f.digest))
            authentic
            (digests_of (λ path. lookup path candidate.candidate_hashes) s.files
              (Every-map s.files (λ f a b. a.candidate_hash) authentic authentic));
    }
