-- ===== src/Verifier/Run.antt =====
-- What `verify` of cloudbuild_verifier.py guarantees over a whole run: that it ends, and what it takes
-- for its outcome to be publishable.
use i_promise.Base.{
  ℕ, zero, suc, ◌+◌, ◌*◌, ◌≤◌, ◌<◌, ◌≡◌, ◌≢◌, refl, sym, ◌⊎◌, inl, inr, Bool, true, false, Option,
  none, some, arith, leb, Bool-cases,
}
use i_promise.Errors.{ok, Result-cases}
use i_promise.Remediation.{Platform, BoundedRemediationArtifact}
use i_promise.Verifier.{Config, BuildSubmission, BuildSnapshot, VerificationOutcome, publishable}
use i_promise.Verifier.Artifact.{validate_artifact}
use i_promise.Verifier.Interpret.{interpret}
use i_promise.Verifier.Gate.{IsProven, interpret-IsProven, outcome_blocked}
use i_promise.Verifier.Poll.{
  Gateway, SubmitAnswer, submitted, submit_failed, submit_interrupted, PollAnswer, got, timed_out,
  poll_failed, interrupted, Verification, is_ended, poll, verify,
}

abbrev pub deadline_of : Config → Gateway → ℕ
deadline_of config gateway = gateway.started + config.overall_timeout

-- What the clock and the sleep promise: the clock does not go back, and a turn that sleeps is followed
-- by a reading that is later by the poll interval, or not before the deadline.
pub record IsPaced (config : Config) (gateway : Gateway) : Type 0 where
  pub first : gateway.started ≤ gateway.reading 0
  pub slept :
      (n : ℕ)
      → (gateway.reading n + config.poll_interval ≤ gateway.reading (suc n))
        ⊎ (deadline_of config gateway ≤ gateway.reading (suc n))

-- A turn of the loop at which the build has ended, and the outcome that it gives.
pub record Ended (config : Config) (artifact : BoundedRemediationArtifact) (gateway : Gateway)
    (submission : BuildSubmission) (o : VerificationOutcome) : Type 0 where
  pub turn : ℕ
  pub snapshot : BuildSnapshot
  pub answered : gateway.answer turn ≡ got snapshot
  pub in_time : gateway.reading turn < deadline_of config gateway
  pub ended : is_ended snapshot ≡ true
  pub interpreted : o ≡ interpret config artifact submission snapshot

poll_answer-cases :
    (answer : PollAnswer)
    → ((snapshot : BuildSnapshot) × (answer ≡ got snapshot))
      ⊎ ((answer ≡ timed_out) ⊎ ((answer ≡ poll_failed) ⊎ (answer ≡ interrupted)))
poll_answer-cases (got snapshot) = inl (snapshot, refl)
poll_answer-cases timed_out = inr (inl refl)
poll_answer-cases poll_failed = inr (inr (inl refl))
poll_answer-cases interrupted = inr (inr (inr refl))

returned :
    (a o : VerificationOutcome) (c d : Bool)
    → ◌≡◌ {A = Option Verification} (some (ok a, c)) (some (ok o, d))
    → (a ≡ o) × (c ≡ d)
returned a o c d e = ground arith

-- An outcome without exact bytes is not the published one.
not_published :
    (a o : VerificationOutcome) (c d : Bool)
    → a.exact_candidate_verified ≡ false
    → publishable o ≡ true
    → ◌≡◌ {A = Option Verification} (some (ok a, c)) (some (ok o, d))
    → ⊥
not_published a o c d unverified k e = outcome_blocked a unverified (rw ((returned a o c d e).0) k)

submit_answer-cases :
    (answer : SubmitAnswer)
    → ((submission : BuildSubmission) × (answer ≡ submitted submission))
      ⊎ ((answer ≡ submit_failed) ⊎ (answer ≡ submit_interrupted))
submit_answer-cases (submitted submission) = inl (submission, refl)
submit_answer-cases submit_failed = inr (inl refl)
submit_answer-cases submit_interrupted = inr (inr refl)

some_of {ℓ} : {A : Type ℓ} (o : Option A) → o ≢ none → (a : A) × (o ≡ some a)
some_of none h = absurd (h refl)
some_of (some a) h = (a, refl)

module _ (config : Config) (artifact : BoundedRemediationArtifact) (gateway : Gateway)
    (submission : BuildSubmission) where
  later_reading :
      (n turns : ℕ)
      → IsPaced config gateway
      → deadline_of config gateway ≤ gateway.reading n + suc turns * config.poll_interval
      → deadline_of config gateway ≤ gateway.reading (suc n) + turns * config.poll_interval
  later_reading n turns paced enough = elim (paced.slept n) [
    | inl later ↦ omega arith
    | inr past ↦ omega arith
  ]

  poll-total :
      (turns n : ℕ) (last : Option BuildSnapshot)
      → IsPaced config gateway
      → deadline_of config gateway ≤ gateway.reading n + turns * config.poll_interval
      → poll config artifact gateway submission (deadline_of config gateway) (suc turns) n last
        ≢ none
  unfolding poll
  poll-total zero n last paced enough e = ground arith
  poll-total (suc turns) n last paced enough e =
      elim (Bool-cases (leb (deadline_of config gateway) (gateway.reading n))) [
        | inl late ↦ ground arith
        | inr early ↦ elim (poll_answer-cases (gateway.answer n)) [
          | inl (snapshot, answered) ↦ elim (Bool-cases (is_ended snapshot)) [
            | inl ended ↦ absurd (ground (arith, rw (early, answered, ended, poll) at e))
            | inr running ↦
                poll-total turns (suc n) (some snapshot) paced (later_reading n turns paced enough)
                  (rw (early, answered, running, poll) at e)
          ]
          | inr over ↦ ground arith
        ]
      ]

  poll-published :
      (fuel n : ℕ) (last : Option BuildSnapshot) {o : VerificationOutcome} {cancelled : Bool}
      → poll config artifact gateway submission (deadline_of config gateway) fuel n last
        ≡ some (ok o, cancelled)
      → publishable o ≡ true
      → Ended config artifact gateway submission o × (cancelled ≡ false)
  unfolding poll
  poll-published zero n last e k = ground arith
  poll-published (suc fuel) n last {o} {cancelled} e k =
      elim (Bool-cases (leb (deadline_of config gateway) (gateway.reading n))) [
        | inl late ↦ absurd (not_published _ o _ cancelled refl k (rw (late, poll) at e))
        | inr early ↦ elim (poll_answer-cases (gateway.answer n)) [
          | inl (snapshot, answered) ↦ elim (Bool-cases (is_ended snapshot)) [
            | inl ended ↦
                let (same, kept) =
                  returned (interpret config artifact submission snapshot) o false cancelled
                    (rw (early, answered, ended, poll) at e) in
                (
                  record {
                    turn = n;
                    snapshot = snapshot;
                    answered = answered;
                    in_time = ground arith;
                    ended = ended;
                    interpreted = sym same;
                  },
                  sym kept,
                )
            | inr running ↦
                poll-published fuel (suc n) (some snapshot)
                  (rw (early, answered, running, poll) at e) k
          ]
          | inr (inl over) ↦
              absurd (not_published _ o _ cancelled refl k (rw (early, over, poll) at e))
          | inr (inr (inl over)) ↦
              absurd (not_published _ o _ cancelled refl k (rw (early, over, poll) at e))
          | inr (inr (inr over)) ↦ absurd (ground (arith, rw (early, over, poll) at e))
        ]
      ]

-- Verification ends: if the clock and the sleep behave as the loop expects, as many turns as poll
-- intervals fit into the overall timeout, and one more, are enough for an answer.
pub verify-total :
    (config : Config) (artifact : BoundedRemediationArtifact) (p : Platform) (gateway : Gateway)
    (turns : ℕ)
    → IsPaced config gateway
    → config.overall_timeout ≤ turns * config.poll_interval
    → (r : Verification) × (verify config artifact p gateway (suc turns) ≡ some r)
unfolding verify
verify-total config artifact p gateway turns paced enough =
    some_of (verify config artifact p gateway (suc turns)) (λ e.
      elim (Result-cases (validate_artifact p artifact)) [
        | inl (exc, refused) ↦ absurd (ground (arith, rw (refused, verify) at e))
        | inr (_, valid) ↦ elim (submit_answer-cases (gateway.submit artifact)) [
          | inl (submission, sent) ↦
              poll-total config artifact gateway submission turns 0 none paced
                (omega (arith, paced.first, enough)) (rw (valid, sent, verify) at e)
          | inr (inl failed) ↦ absurd (ground (arith, rw (valid, failed, verify) at e))
          | inr (inr stopped) ↦ absurd (ground (arith, rw (valid, stopped, verify) at e))
        ]
      ])

-- Publication takes a whole chain of proofs. If verification returns an outcome that can be published,
-- the artifact passed every check, the build was submitted, some answer, in a turn that began before the
-- deadline, showed the build ended and proves the candidate, the outcome is the interpretation of that
-- answer, and the build was not cancelled.
pub verify-published :
    (config : Config) (artifact : BoundedRemediationArtifact) (p : Platform) (gateway : Gateway)
    (fuel : ℕ) {o : VerificationOutcome} {cancelled : Bool}
    → verify config artifact p gateway fuel ≡ some (ok o, cancelled)
    → publishable o ≡ true
    → (validate_artifact p artifact ≡ ok tt)
      × ((submission : BuildSubmission) × (gateway.submit artifact ≡ submitted submission)
          × (ended : Ended config artifact gateway submission o) × IsProven config artifact
              ended.snapshot)
      × (cancelled ≡ false)
unfolding verify
verify-published config artifact p gateway fuel {o} {cancelled} e k =
    elim (Result-cases (validate_artifact p artifact)) [
      | inl (exc, refused) ↦
          absurd (not_published _ o _ cancelled refl k (rw (refused, verify) at e))
      | inr (_, valid) ↦ elim (submit_answer-cases (gateway.submit artifact)) [
        | inl (submission, sent) ↦
            let (ended, kept) =
              poll-published config artifact gateway submission fuel 0 none
                (rw (valid, sent, verify) at e) k in
            let proven =
              (interpret-IsProven config artifact submission ended.snapshot).0
                (rw ended.interpreted at k) in
            (valid, (submission, sent, ended, proven), kept)
        | inr (inl failed) ↦
            absurd (not_published _ o _ cancelled refl k (rw (valid, failed, verify) at e))
        | inr (inr stopped) ↦ absurd (ground (arith, rw (valid, stopped, verify) at e))
      ]
    ]
