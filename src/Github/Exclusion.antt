-- ===== src/Github/Exclusion.antt =====
-- One claim at a time, in the store of github.py: while a worker's claim on a finding is live, no other
-- worker can publish the finding.
use i_promise.Base.{
  ℕ, ◌+◌, ◌<◌, ◌≡◌, ◌≢◌, refl, sym, ap, ◌∙◌, Bool, true, false, not, ◌&&◌, String, Option, none,
  some, List, [], ◌∷◌, arith, ltb, ◌==◌, string_eq, beq_self, beq_ne,
}
use i_promise.Dict.{lookup, lookup-insert}
use i_promise.Errors.{ok, err, publish_uncertain}
use i_promise.Github.{
  PublishedIssue, IssueIntentClaim, StoreCall, adding_install, consuming_install, adding_oauth,
  consuming_oauth, saving_connection, reading_connection, selecting, disconnecting, claiming,
  completing, releasing, after,
}
use i_promise.Github.Memory.{
  InMemoryGitHubStore, IssueIntentRecord, step, claim_of, claim_issue_intent, complete_at,
  complete_issue_intent,
}
use i_promise.Github.Intents.{next, step-next}

-- A call that the worker `owner` makes about the finding.
abbrev pub is_own_call : String → String → StoreCall → Bool
is_own_call fingerprint owner (claiming f caller seconds) = f == fingerprint && caller == owner
is_own_call fingerprint owner (completing f caller receipt) = f == fingerprint && caller == owner
is_own_call fingerprint owner (releasing f caller) = f == fingerprint && caller == owner
is_own_call fingerprint owner _ = false

-- Calls made before `deadline`, none of them by `owner` about the finding.
abbrev pub AreForeign : String → String → ℕ → List (ℕ × StoreCall) → Type 0
AreForeign fingerprint owner deadline [] = Unit
AreForeign fingerprint owner deadline ((now, call) ∷ rest) =
    (now < deadline)
    × (is_own_call fingerprint owner call ≡ false)
    × AreForeign fingerprint owner deadline rest

-- The record of a live claim.
abbrev held_by : String → ℕ → Option IssueIntentRecord
held_by owner expires = some (record { owner = some owner; expires_at = expires; receipt = none })

is_early : (now expires : ℕ) → now < expires → ltb now expires ≡ true
is_early now expires h = ground arith

refused :
    (now expires : ℕ) (owner caller : String)
    → now < expires
    → (owner == caller) ≡ false
    → claim_of now caller (held_by owner expires) ≡ record { acquired = false; receipt = none }
unfolding claim_of
refused now expires owner caller early other = rw other (
    ap {B = IssueIntentClaim} (λ b. record { acquired = not b; receipt = none })
      (is_early now expires early))

next-held :
    (fingerprint owner : String) (expires now : ℕ) (call : StoreCall)
    → now < expires
    → is_own_call fingerprint owner call ≡ false
    → next fingerprint now call (held_by owner expires) ≡ held_by owner expires
unfolding claim_of
next-held fingerprint owner expires now (claiming f caller seconds) early foreign =
    ground (arith, string_eq.same_iff caller owner, string_eq.same_iff owner caller)
next-held fingerprint owner expires now (completing f caller receipt) early foreign =
    ground (arith, string_eq.same_iff caller owner, string_eq.same_iff owner caller)
next-held fingerprint owner expires now (releasing f caller) early foreign =
    ground (arith, string_eq.same_iff caller owner, string_eq.same_iff owner caller)
next-held fingerprint owner expires now (adding_install state expires_at) early foreign = refl
next-held fingerprint owner expires now (consuming_install state) early foreign = refl
next-held fingerprint owner expires now (adding_oauth state pending) early foreign = refl
next-held fingerprint owner expires now (consuming_oauth state) early foreign = refl
next-held fingerprint owner expires now (saving_connection connection) early foreign = refl
next-held fingerprint owner expires now reading_connection early foreign = refl
next-held fingerprint owner expires now (selecting repository_id) early foreign = refl
next-held fingerprint owner expires now disconnecting early foreign = refl

-- A claim that was acquired is recorded, until its lease ends.
claim_issue_intent-held :
    (start lease_seconds : ℕ) (fingerprint owner : String) (s : InMemoryGitHubStore)
    → (claim_issue_intent start fingerprint owner lease_seconds s).0.acquired ≡ true
    → lookup fingerprint
        (claim_issue_intent start fingerprint owner lease_seconds s).1.issue_intents
      ≡ held_by owner (start + lease_seconds)
unfolding claim_issue_intent
claim_issue_intent-held start lease_seconds fingerprint owner s h =
    rw h (lookup-insert fingerprint fingerprint _ s.issue_intents ∙ rw (beq_self fingerprint) refl)

after-held :
    (fingerprint owner : String) (expires : ℕ) (calls : List (ℕ × StoreCall))
    (s : InMemoryGitHubStore)
    → AreForeign fingerprint owner expires calls
    → lookup fingerprint s.issue_intents ≡ held_by owner expires
    → lookup fingerprint (after step calls s).issue_intents ≡ held_by owner expires
unfolding after
after-held fingerprint owner expires [] s foreign h = h
after-held fingerprint owner expires ((now, call) ∷ rest) s (early, foreign, others) h =
    after-held fingerprint owner expires rest (step now call s).1 others (
      step-next fingerprint now call s
      ∙ ap (next fingerprint now call) h
      ∙ next-held fingerprint owner expires now call early foreign)

refused_complete :
    (fingerprint owner other : String) (receipt : PublishedIssue) (expires : ℕ)
    (s : InMemoryGitHubStore)
    → (owner == other) ≡ false
    → complete_at fingerprint other receipt (held_by owner expires) s
      ≡ (err (publish_uncertain "GitHub issue intent ownership changed before completion"), s)
unfolding complete_at
refused_complete fingerprint owner other receipt expires s ne = rw ne refl

own_complete :
    (fingerprint owner : String) (receipt : PublishedIssue) (expires : ℕ) (s : InMemoryGitHubStore)
    → (complete_at fingerprint owner receipt (held_by owner expires) s).0 ≡ ok receipt
unfolding complete_at
own_complete fingerprint owner receipt expires s = rw (beq_self owner) refl

-- While a claim that was acquired is live, whatever calls are made except its worker's own about the
-- finding: another worker's claim is refused and another worker's completion raises, neither changes
-- the store, and the worker itself can still complete the publication.
pub claim_issue_intent-excludes :
    (start lease_seconds now seconds : ℕ) (fingerprint owner other : String)
    (receipt : PublishedIssue) (calls : List (ℕ × StoreCall)) (s : InMemoryGitHubStore)
    → (claim_issue_intent start fingerprint owner lease_seconds s).0.acquired ≡ true
    → AreForeign fingerprint owner (start + lease_seconds) calls
    → now < start + lease_seconds
    → other ≢ owner
    → (claim_issue_intent now fingerprint other seconds
          (after step calls (claim_issue_intent start fingerprint owner lease_seconds s).1)
        ≡ (
          record { acquired = false; receipt = none },
          after step calls (claim_issue_intent start fingerprint owner lease_seconds s).1,
        ))
      × (complete_issue_intent fingerprint other receipt
            (after step calls (claim_issue_intent start fingerprint owner lease_seconds s).1)
          ≡ (
            err (publish_uncertain "GitHub issue intent ownership changed before completion"),
            after step calls (claim_issue_intent start fingerprint owner lease_seconds s).1,
          ))
      × ((complete_issue_intent fingerprint owner receipt
            (after step calls (claim_issue_intent start fingerprint owner lease_seconds s).1)).0
          ≡ ok receipt)
unfolding claim_issue_intent complete_issue_intent
claim_issue_intent-excludes start lease_seconds now seconds fingerprint owner other receipt calls s
      acquired foreign early different =
    let s' = after step calls (claim_issue_intent start fingerprint owner lease_seconds s).1 in
    let expires = start + lease_seconds in
    let held =
      after-held fingerprint owner expires calls
        (claim_issue_intent start fingerprint owner lease_seconds s).1 foreign
        (claim_issue_intent-held start lease_seconds fingerprint owner s acquired) in
    let ne = beq_ne owner other (λ e. different (sym e)) in
    (
      rw (ap (claim_of now other) held ∙ refused now expires owner other early ne) refl,
      rw held (refused_complete fingerprint owner other receipt expires s' ne),
      rw held (own_complete fingerprint owner receipt expires s'),
    )
