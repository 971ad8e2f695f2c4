-- ===== src/Verifier/Gate.antt =====
-- What `publishable` takes, of the outcome of a build (cloudbuild_verifier.py).
use i_promise.Base.{
  ◌≡◌, refl, ◌≢◌, ◌↔◌, inl, inr, true, false, String, Option, none, some, [], arith, ◌==◌,
  string_eq, Bool-cases, Option-cases,
}
use text.Mathlib.TextEquality.{eq_iff}
use i_promise.Dict.{Dict, lookup, contains}
use i_promise.Lists.{any, all}
use i_promise.Remediation.{BoundedRemediationArtifact}
use i_promise.Verifier.{
  Config, BuildSubmission, BuildSnapshot, CloudBuildEvidence, VerificationOutcome, publishable,
}
use i_promise.Verifier.Kinds.{CheckResult}
use i_promise.Verifier.Decisions.{required_step_ids, step_states_from, is_status}
use i_promise.Verifier.Interpret.{
  interpret, evidence_of, ended_outcome, is_complete_receipt, is_exact_source, is_valid_log_url,
  failed_build, verified_outcome, verified_candidate,
}

-- What a build must show: it succeeded; each trusted step, and no other step, is in its receipt with
-- success; it was built from the configured repository at the commit of the artifact; and its log is
-- at an HTTPS address.
pub record IsProven (config : Config) (artifact : BoundedRemediationArtifact)
    (snapshot : BuildSnapshot) : Type 0 where
  pub succeeded : snapshot.status ≡ "SUCCESS"
  pub passed :
      all
        (λ step_id. is_status "SUCCESS" (lookup step_id (step_states_from [] snapshot.steps)))
        required_step_ids
      ≡ true
  pub no_other :
      all
        (λ entry. any (λ step_id. step_id == entry.0) required_step_ids)
        (step_states_from [] snapshot.steps)
      ≡ true
  pub source : snapshot.resolved_source_url ≡ some config.repository_url
  pub revision : snapshot.resolved_revision ≡ some artifact.base_reference
  pub log :
      (url : String) × (snapshot.log_url ≡ some url) × (url ≢ "") × (config.is_https url ≡ true)

is_status-some :
    (expected : String) (state : Option String)
    → (is_status expected state ≡ true) ↔ (state ≡ some expected)
is_status-some expected none = (λ h. ground arith, λ h. ground arith)
is_status-some expected (some value) =
    (λ h. ground (arith, eq_iff value expected), λ h. ground (arith, eq_iff value expected))

pub outcome_blocked :
    (o : VerificationOutcome) → o.exact_candidate_verified ≡ false → publishable o ≢ true
unfolding publishable
outcome_blocked o unverified h = ground arith

has_all :
    (states : Dict String String)
    → all (λ step_id. is_status "SUCCESS" (lookup step_id states)) required_step_ids ≡ true
    → all (λ step_id. contains step_id states) required_step_ids ≡ true
has_all states h = ground arith

failed_build_blocked :
    (states : Dict String String) (baseline candidate regression : CheckResult)
    (evidence : CloudBuildEvidence)
    → publishable (failed_build states baseline candidate regression evidence) ≢ true
unfolding failed_build
failed_build_blocked states baseline candidate regression evidence = outcome_blocked _ refl

complete_iff :
    (states : Dict String String)
    → (is_complete_receipt states ≡ true) ↔ (
        (all (λ step_id. is_status "SUCCESS" (lookup step_id states)) required_step_ids ≡ true)
        × (all (λ entry. any (λ step_id. step_id == entry.0) required_step_ids) states ≡ true))
unfolding is_complete_receipt
complete_iff states = (λ h. ground (arith, has_all states), λ h. ground arith)

exact_source_iff :
    (config : Config) (artifact : BoundedRemediationArtifact) (snapshot : BuildSnapshot)
    → (is_exact_source config artifact snapshot ≡ true) ↔ (
        (snapshot.resolved_source_url ≡ some config.repository_url)
        × (snapshot.resolved_revision ≡ some artifact.base_reference))
unfolding is_exact_source
exact_source_iff config artifact snapshot =
    let url = is_status-some config.repository_url snapshot.resolved_source_url in
    let revision = is_status-some artifact.base_reference snapshot.resolved_revision in
    (λ h. ground (arith, url, revision), λ h. ground (arith, url, revision))

valid_log_iff :
    (config : Config) (log_url : Option String)
    → (is_valid_log_url config log_url ≡ true)
      ↔ ((url : String) × (log_url ≡ some url) × (url ≢ "") × (config.is_https url ≡ true))
unfolding is_valid_log_url
valid_log_iff config none = (λ h. ground arith, λ h. ground arith)
valid_log_iff config (some url) = (
  λ h. (url, refl, λ e. ground (arith, eq_iff url ""), ground arith),
  λ (other, same, there, safe). ground (arith, eq_iff url ""),
)

module _ (config : Config) (artifact : BoundedRemediationArtifact) (submission : BuildSubmission)
    (snapshot : BuildSnapshot) where
  proven_published :
      IsProven config artifact snapshot
      → interpret config artifact submission snapshot ≡ (
          let evidence = evidence_of config artifact (some snapshot) submission in
          verified_outcome evidence (verified_candidate config artifact evidence))
  unfolding interpret ended_outcome
  proven_published proven =
      let complete =
        (complete_iff (step_states_from [] snapshot.steps)).1 (proven.passed, proven.no_other) in
      let exact = (exact_source_iff config artifact snapshot).1 (proven.source, proven.revision) in
      let log = (valid_log_iff config snapshot.log_url).1 proven.log in
      rw (proven.succeeded, complete, exact, log) refl

  published-IsProven :
      publishable (interpret config artifact submission snapshot) ≡ true
      → IsProven config artifact snapshot
  unfolding interpret
  published-IsProven h =
      let states = step_states_from [] snapshot.steps in
      elim (Option-cases (ended_outcome snapshot.status)) [
        | inr ((code, detail), ended) ↦ absurd (outcome_blocked _ refl (rw (ended, interpret) at h))
        | inl running ↦ elim (Bool-cases (snapshot.status == "SUCCESS")) [
          | inr failed ↦
              absurd (failed_build_blocked states _ _ _ _ (rw (running, failed, interpret) at h))
          | inl succeeded ↦ elim (Bool-cases (is_complete_receipt states)) [
            | inr incomplete ↦
                absurd
                  (outcome_blocked _ refl (rw (running, succeeded, incomplete, interpret) at h))
            | inl complete ↦ elim (Bool-cases (is_exact_source config artifact snapshot)) [
              | inr other ↦ absurd (
                  outcome_blocked _ refl (rw (running, succeeded, complete, other, interpret) at h))
              | inl exact ↦ elim (Bool-cases (is_valid_log_url config snapshot.log_url)) [
                | inr lost ↦ absurd (
                    outcome_blocked _ refl
                      (rw (running, succeeded, complete, exact, lost, interpret) at h))
                | inl log ↦
                    let receipt = (complete_iff states).0 complete in
                    let sources = (exact_source_iff config artifact snapshot).0 exact in
                    record {
                      succeeded = (eq_iff snapshot.status "SUCCESS").0 succeeded;
                      passed = receipt.0;
                      no_other = receipt.1;
                      source = sources.0;
                      revision = sources.1;
                      log = (valid_log_iff config snapshot.log_url).0 log;
                    }
              ]
            ]
          ]
        ]
      ]

-- The outcome of a build that has ended can be published exactly if the build proves the candidate:
-- it succeeded with every trusted step and no other, from the configured repository at the commit of
-- the artifact, and its log is at an HTTPS address.
pub interpret-IsProven :
    (config : Config) (artifact : BoundedRemediationArtifact) (submission : BuildSubmission)
    (snapshot : BuildSnapshot)
    → (publishable (interpret config artifact submission snapshot) ≡ true)
      ↔ IsProven config artifact snapshot
unfolding publishable
interpret-IsProven config artifact submission snapshot = (
  published-IsProven config artifact submission snapshot,
  λ proven. rw (proven_published config artifact submission snapshot proven) refl,
)
