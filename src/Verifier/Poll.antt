-- ===== src/Verifier/Poll.antt =====
-- `verify` of services/agent/src/ipromise_agent/cloudbuild_verifier.py: the submission, the loop that
-- polls the build until it ends or the deadline passes, and the cancellation.
--
-- The gateway and the clock answer in sequence: the loop reads the clock and then polls, so its n-th
-- turn has one reading and one answer. A cancelled task is an answer too, `interrupted`, whether it
-- comes in the poll or in the sleep before the next. A poll that exceeds its own timeout, the
-- smaller of that of the settings and the time left, is the answer `timed_out`: an answer has no time
-- of its own. Of the calls on the gateway the model keeps
-- whether the build was cancelled. What is submitted, the specification of the build, is not
-- modelled. The loop runs on fuel; `none` means that it ran out.
use i_promise.Base.{
  ℕ, zero, suc, ◌+◌, Bool, true, false, String, Option, none, some, List, [], ◌∷◌, leb,
  if◌then◌else◌, ◌==◌, string_eq,
}
use i_promise.Lists.{any}
use i_promise.Text.{concat}
use i_promise.Errors.{Exception, Result, ok, err, other, verifier_artifact}
use i_promise.Remediation.{Platform, BoundedRemediationArtifact}
use i_promise.Verifier.{Config, BuildSubmission, BuildSnapshot, VerificationOutcome}
use i_promise.Verifier.Kinds.{VerificationDecision, VerificationFailureCode}
use i_promise.Verifier.Artifact.{validate_artifact}
use i_promise.Verifier.Decisions.{unchecked}
use i_promise.Verifier.Interpret.{interpret, evidence_of}

pub data SubmitAnswer : Type 0 where
  submitted : BuildSubmission → SubmitAnswer
  submit_failed submit_interrupted : SubmitAnswer

pub data PollAnswer : Type 0 where
  got : BuildSnapshot → PollAnswer
  timed_out poll_failed interrupted : PollAnswer

-- The answers of the gateway, and the readings of the clock: one before the loop, and one in each
-- turn.
pub record Gateway : Type 0 where
  pub submit : BoundedRemediationArtifact → SubmitAnswer
  pub started : ℕ
  pub reading : ℕ → ℕ
  pub answer : ℕ → PollAnswer

-- What `verify` returns or raises, and whether it asked for the build to be cancelled.
abbrev pub Verification : Type 0
Verification = Result VerificationOutcome × Bool

abbrev pub terminal_build_statuses : List String
terminal_build_statuses =
    "SUCCESS" ∷ "FAILURE" ∷ "INTERNAL_ERROR" ∷ "TIMEOUT" ∷ "CANCELLED" ∷ "EXPIRED" ∷ []

-- `last_snapshot.status in TERMINAL_BUILD_STATUSES`
unfoldable pub is_ended : BuildSnapshot → Bool
is_ended snapshot = any (λ status. status == snapshot.status) terminal_build_statuses

-- `except asyncio.CancelledError: raise`
abbrev pub cancelled_error : Result VerificationOutcome
cancelled_error = err (other "CancelledError")

-- `f"Candidate rejected before execution: {exc}"`; the checks raise `VerifierArtifactError` alone.
abbrev pub rejection : Exception → String
rejection exc =
    let reason : String = elim exc [ verifier_artifact message ↦ message | _ ↦ "" ] in
    concat ("Candidate rejected before execution: " ∷ reason ∷ [])

module _ (config : Config) (artifact : BoundedRemediationArtifact) where
  unfoldable pub cancelled_timeout : BuildSubmission → Option BuildSnapshot → Verification
  cancelled_timeout submission snapshot = (
    ok (
        unchecked VerificationDecision.unavailable VerificationFailureCode.deadline_exceeded
          "Cloud Build verification exceeded its bounded deadline and was cancelled."
          (some (evidence_of config artifact snapshot submission))),
    true,
  )

  unfoldable pub poll_failure : BuildSubmission → Option BuildSnapshot → Verification
  poll_failure submission snapshot = (
    ok (
        unchecked VerificationDecision.unavailable VerificationFailureCode.poll_failed
          "Cloud Build status could not be retrieved; publication remains blocked."
          (some (evidence_of config artifact snapshot submission))),
    false,
  )

  -- The turns of the loop from the n-th on.
  unfoldable pub poll :
      Gateway → BuildSubmission → ℕ → ℕ → ℕ → Option BuildSnapshot → Option Verification
  unfolding cancelled_timeout poll_failure interpret is_ended
  poll gateway submission deadline zero n last_snapshot = none
  poll gateway submission deadline (suc fuel) n last_snapshot =
      if leb deadline (gateway.reading n)
      then some (cancelled_timeout submission last_snapshot)
      else elim (gateway.answer n) [
        | timed_out ↦ some (cancelled_timeout submission last_snapshot)
        | poll_failed ↦ some (poll_failure submission last_snapshot)
        | interrupted ↦ some (cancelled_error, true)
        | got snapshot ↦ elim (is_ended snapshot) [
          | true ↦ some (ok (interpret config artifact submission snapshot), false)
          | false ↦ poll gateway submission deadline fuel (suc n) (some snapshot)
        ]
      ]

  unfoldable pub verify : Platform → Gateway → ℕ → Option Verification
  unfolding validate_artifact poll
  verify p gateway fuel = elim (validate_artifact p artifact) [
    | err exc ↦ some (
      ok (
          unchecked VerificationDecision.rejected VerificationFailureCode.invalid_artifact
            (rejection exc) none),
      false,
    )
    | ok _ ↦ elim (gateway.submit artifact) [
      | submit_interrupted ↦ some (cancelled_error, false)
      | submit_failed ↦ some (
        ok (
            unchecked VerificationDecision.unavailable VerificationFailureCode.submission_failed
              "Cloud Build submission failed before a build receipt was returned." none),
        false,
      )
      | submitted submission ↦
          poll gateway submission (gateway.started + config.overall_timeout) fuel 0 none
    ]
  ]
