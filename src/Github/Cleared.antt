-- ===== src/Github/Cleared.antt =====
-- What the gate of github.py lets through, and which repository it writes to.
use i_promise.Base.{
  ℕ, ◌≡◌, refl, sym, ap, ◌∙◌, inl, inr, Bool, true, false, not, ◌||◌, String, Option, none, some,
  List, [], ◌∷◌, arith, ◌==◌, string_eq, nat_eq, Bool-cases, Option-cases,
}
use i_promise.Dict.{Dict, lookup}
use i_promise.Lists.{find_first}
use i_promise.Models.{
  GitHubRepository, AuditRun, PlannedAction, VerificationReceipt, VerificationArtifactBinding,
  ready, pull_request,
}
use i_promise.Errors.{ok, ◌>>◌, guard, guard-eq-ok, guarded, >>-eq-ok, ok_injective}
use i_promise.Actions.{receipt_proves_candidate}
use i_promise.Actions.Gates.{Proves, proof_of}
use i_promise.Verifier.Artifact.{same_dict, is_part_of}
use i_promise.Github.{CandidateSnapshot, Connection}
use i_promise.Github.Gate.{
  candidate_digests, preimage_digests, is_complete, is_bound_to, check_binding, check_action,
  check_receipt, require_pull_request_gate, check_repository, bound_repository, receipt_binding,
  is_some, has_same_identity,
}

-- What the gate has found before a publication: it is switched on, the action is the ready and verified
-- pull request of a run with a repository, the receipt proves a candidate, and it binds exactly the
-- digests of the snapshot.
pub record IsCleared (enabled : Bool) (run : AuditRun) (action : PlannedAction)
    (snapshot : CandidateSnapshot) : Type 0 where
  pub enabled_by : enabled ≡ true
  pub repository : GitHubRepository
  pub has_repository : run.repository ≡ some repository
  pub kind : action.kind ≡ pull_request
  pub state : action.state ≡ ready
  pub verified : action.verified ≡ true
  pub receipt : VerificationReceipt
  pub has_receipt : run.verification ≡ some receipt
  pub proves : Proves receipt
  pub binding : VerificationArtifactBinding
  pub has_binding : receipt.artifact_binding ≡ some binding
  pub same_url : binding.repository_url ≡ snapshot.repository_url
  pub same_base : binding.base_sha ≡ snapshot.base_sha
  pub same_diff : binding.unified_diff_sha256 ≡ snapshot.unified_diff_sha256
  pub same_candidate :
      (path : String)
      → lookup path binding.candidate_hashes ≡ lookup path (candidate_digests snapshot)
  pub same_preimage :
      (path : String)
      → lookup path binding.preimage_hashes ≡ lookup path (preimage_digests snapshot)

part_lookup :
    (path : String) (inner outer : Dict String String) {value : String}
    → is_part_of inner outer ≡ true
    → lookup path inner ≡ some value
    → lookup path outer ≡ some value
part_lookup path [] outer h there = cc
part_lookup path ((key, v) ∷ inner) outer {value} h there = elim (Option-cases (lookup key outer)) [
  | inl missing ↦ absurd (ground (arith, rw missing at h))
  | inr (w, found) ↦ ground (
    arith,
    string_eq.same_iff key path,
    string_eq.same_iff w v,
    part_lookup path inner outer {value = value},
  )
]

-- Equal dicts have the same value, or none, for every path.
pub same_dict-lookup :
    (left right : Dict String String) (path : String)
    → same_dict left right ≡ true
    → lookup path left ≡ lookup path right
unfolding same_dict
same_dict-lookup left right path h = elim (Option-cases (lookup path left)) [
  | inr (value, there) ↦ there ∙ sym (part_lookup path left right (ground arith) there)
  | inl missing ↦ elim (Option-cases (lookup path right)) [
    | inl missing' ↦ missing ∙ sym missing'
    | inr (value, there) ↦ part_lookup path right left (ground arith) there ∙ sym there
  ]
]

-- The gate of github.py asks of a receipt what the planner of actions.py asks.
is_complete-proves :
    (receipt : Option VerificationReceipt) → is_complete receipt ≡ receipt_proves_candidate receipt
unfolding is_complete receipt_proves_candidate
is_complete-proves none = refl
is_complete-proves (some receipt) = refl

check_binding-ok :
    (binding : Option VerificationArtifactBinding) (snapshot : CandidateSnapshot)
    → check_binding binding snapshot ≡ ok tt
    → (b : VerificationArtifactBinding) × (binding ≡ some b) × (is_bound_to b snapshot ≡ true)
unfolding check_binding
check_binding-ok none snapshot h = cc
check_binding-ok (some b) snapshot h = (b, refl, guard-eq-ok (is_bound_to b snapshot) _ h)

check_action-ok :
    (enabled : Bool) (run : AuditRun) (action : PlannedAction)
    → check_action enabled run action ≡ ok tt
    → (enabled ≡ true)
      × (is_some run.repository ≡ true)
      × (action.kind ≡ pull_request)
      × (action.state ≡ ready)
      × (action.verified ≡ true)
unfolding check_action
check_action-ok enabled run action h = ground (arith, guard)

some_of : {A : Type 0} (o : Option A) → is_some o ≡ true → (a : A) × (o ≡ some a)
some_of none h = cc
some_of (some a) h = (a, refl)

is_bound_to-same :
    (b : VerificationArtifactBinding) (snapshot : CandidateSnapshot)
    → is_bound_to b snapshot ≡ true
    → (b.repository_url ≡ snapshot.repository_url)
      × (b.base_sha ≡ snapshot.base_sha)
      × (b.unified_diff_sha256 ≡ snapshot.unified_diff_sha256)
      × (same_dict b.candidate_hashes (candidate_digests snapshot) ≡ true)
      × (same_dict b.preimage_hashes (preimage_digests snapshot) ≡ true)
unfolding is_bound_to
is_bound_to-same b snapshot h = ground (
  arith,
  string_eq.same_iff b.repository_url snapshot.repository_url,
  string_eq.same_iff b.base_sha snapshot.base_sha,
  string_eq.same_iff b.unified_diff_sha256 snapshot.unified_diff_sha256,
)

-- A publication goes on only if all of this was found.
pub require_pull_request_gate-IsCleared :
    (enabled : Bool) (run : AuditRun) (action : PlannedAction) (snapshot : CandidateSnapshot)
    → require_pull_request_gate enabled run action snapshot ≡ ok tt
    → IsCleared enabled run action snapshot
unfolding require_pull_request_gate check_receipt
require_pull_request_gate-IsCleared enabled run action snapshot h =
    let (allowed, received) =
      >>-eq-ok (check_action enabled run action) (check_receipt run.verification snapshot) h in
    let (on, targeted, kind, state, verified) = check_action-ok enabled run action allowed in
    let (complete, checked) =
      guarded (is_complete run.verification) _
        (check_binding (receipt_binding run.verification) snapshot) received in
    let (repository, has_repository) = some_of run.repository targeted in
    let (receipt, has_receipt, proves) =
      proof_of run.verification (sym (is_complete-proves run.verification) ∙ complete) in
    let (binding, has_binding, bound) =
      check_binding-ok (receipt_binding run.verification) snapshot checked in
    let (same_url, same_base, same_diff, candidates, preimages) =
      is_bound_to-same binding snapshot bound in
    record {
      enabled_by = on;
      repository = repository;
      has_repository = has_repository;
      kind = kind;
      state = state;
      verified = verified;
      receipt = receipt;
      has_receipt = has_receipt;
      proves = proves;
      binding = binding;
      has_binding = sym (ap receipt_binding has_receipt) ∙ has_binding;
      same_url = same_url;
      same_base = same_base;
      same_diff = same_diff;
      same_candidate = λ path.
          same_dict-lookup binding.candidate_hashes (candidate_digests snapshot) path candidates;
      same_preimage = λ path.
          same_dict-lookup binding.preimage_hashes (preimage_digests snapshot) path preimages;
    }

found_id :
    (id : ℕ) (repositories : List GitHubRepository) {repository : GitHubRepository}
    → find_first (λ item. item.id == id) repositories ≡ some repository
    → repository.id ≡ id
found_id id [] h = cc
found_id id (r ∷ rest) {repository} h = elim (Bool-cases (r.id == id)) [
  | inl same ↦
      sym (ap (λ o. elim o [ none ↦ r.id | some x ↦ x.id ]) (rw (same, find_first) at h))
      ∙ (nat_eq.same_iff r.id id).0 same
  | inr other ↦ found_id id rest (rw (other, find_first) at h)
]

same_repository :
    (left right : GitHubRepository)
    → left.id ≡ right.id
    → has_same_identity left right ≡ true
    → left.archived ≡ right.archived
    → left ≡ right
same_repository left right id same live =
    let (name, branch, visible, url) = identities in
    λ i. record {
      id = id i;
      full_name = name i;
      default_branch = branch i;
      private = visible i;
      archived = live i;
      html_url = url i;
    }
  where
    identities :
        (left.full_name ≡ right.full_name)
        × (left.default_branch ≡ right.default_branch)
        × (left.private ≡ right.private)
        × (left.html_url ≡ right.html_url)
    identities = ground (
      arith,
      string_eq.same_iff left.full_name right.full_name,
      string_eq.same_iff left.default_branch right.default_branch,
      string_eq.same_iff left.html_url right.html_url,
    )

check_repository-ok :
    (repository target : GitHubRepository) {r : GitHubRepository}
    → repository.id ≡ target.id
    → check_repository repository target ≡ ok r
    → (r ≡ repository) × (repository ≡ target) × (target.archived ≡ false)
unfolding check_repository
check_repository-ok repository target {r} id h =
    let (same, h1) =
      guarded (has_same_identity repository target) _
        (guard (not (repository.archived || target.archived)) _ >> ok repository) h in
    let (live, h2) = guarded (not (repository.archived || target.archived)) _ (ok repository) h1 in
    (sym (ok_injective h2), same_repository repository target id same (ground arith), ground arith)

-- The repository that a publication writes to is the run's own, field by field, and the connection
-- lists it.
pub bound_repository-same :
    (connection : Option Connection) (target : GitHubRepository) {repository : GitHubRepository}
    → bound_repository connection target ≡ ok repository
    → (repository ≡ target)
      × (target.archived ≡ false)
      × (c : Connection) × (connection ≡ some c)
      × (find_first (λ item. item.id == target.id) c.repositories ≡ some target)
unfolding bound_repository
bound_repository-same none target h = cc
bound_repository-same (some c) target {repository} h =
    elim (Option-cases (find_first (λ item. item.id == target.id) c.repositories)) [
      | inl missing ↦ absurd (ground (arith, rw (missing, bound_repository) at h))
      | inr (found, there) ↦
          let (same, target_same, live) =
            check_repository-ok found target (found_id target.id c.repositories there)
              (rw (there, bound_repository) at h) in
          (same ∙ target_same, live, c, refl, there ∙ ap some target_same)
    ]
