-- ===== src/Github/Publications.antt =====
-- What the store of github.py guarantees to the workers that share it: one claim at a time, and one
-- receipt for ever.
use i_promise.Base.{
  ℕ, ◌≡◌, refl, sym, ap, ◌∙◌, inl, inr, false, String, Option, none, some, List, [], ◌∷◌, arith,
  string_eq, beq_self, Bool-cases, Option-cases,
}
use i_promise.Dict.{lookup, lookup-insert}
use i_promise.Errors.{ok, ok_injective}
use i_promise.Github.{
  PublishedIssue, IssueIntentClaim, as_reconciled, StoreCall, adding_install, consuming_install,
  adding_oauth, consuming_oauth, saving_connection, reading_connection, selecting, disconnecting,
  claiming, completing, releasing, after,
}
use i_promise.Github.Memory.{
  InMemoryGitHubStore, IssueIntentRecord, step, claim_of, claim_issue_intent, complete_at,
  complete_issue_intent, is_unfinished_claim, is_same_owner,
}
use i_promise.Github.Intents.{next, step-next}

-- A property of the record of a finding that every call keeps is kept by all of them.
after-keeps :
    (fingerprint : String) (P : Option IssueIntentRecord → Type 0) (calls : List (ℕ × StoreCall))
    (s : InMemoryGitHubStore)
    → ((now : ℕ) (call : StoreCall) (r : Option IssueIntentRecord)
        → P r
        → P (next fingerprint now call r))
    → P (lookup fingerprint s.issue_intents)
    → P (lookup fingerprint (after step calls s).issue_intents)
unfolding after
after-keeps fingerprint P [] s keeps h = h
after-keeps fingerprint P ((now, call) ∷ rest) s keeps h =
    after-keeps fingerprint P rest (step now call s).1 keeps
      (rw (step-next fingerprint now call s) (keeps now call _ h))

abbrev receipt_at : Option IssueIntentRecord → Option PublishedIssue
receipt_at none = none
receipt_at (some current) = current.receipt

claim_of-completed :
    (now : ℕ) (owner : String) (r : Option IssueIntentRecord) {receipt : PublishedIssue}
    → receipt_at r ≡ some receipt
    → claim_of now owner r ≡ record { acquired = false; receipt = some (as_reconciled receipt) }
unfolding claim_of
claim_of-completed now owner none h = cc
claim_of-completed now owner (some r) h = rw h refl

unfinished-completed :
    (owner : String) (r : Option IssueIntentRecord) {receipt : PublishedIssue}
    → receipt_at r ≡ some receipt
    → is_unfinished_claim owner r ≡ false
unfinished-completed owner none h = refl
unfinished-completed owner (some r) h = rw h refl

-- No call takes a receipt away, or replaces it.
next-completed :
    (fingerprint : String) (now : ℕ) (call : StoreCall) (r : Option IssueIntentRecord)
    (receipt : PublishedIssue)
    → receipt_at r ≡ some receipt
    → receipt_at (next fingerprint now call r) ≡ some receipt
next-completed fingerprint now (claiming f owner lease_seconds) r receipt h =
    ground (arith, ap IssueIntentClaim.acquired (claim_of-completed now owner r h))
next-completed fingerprint now (completing f owner other) r receipt h =
    ground (arith, unfinished-completed owner r h)
next-completed fingerprint now (releasing f owner) r receipt h =
    ground (arith, unfinished-completed owner r h)
next-completed fingerprint now (adding_install state expires_at) r receipt h = h
next-completed fingerprint now (consuming_install state) r receipt h = h
next-completed fingerprint now (adding_oauth state pending) r receipt h = h
next-completed fingerprint now (consuming_oauth state) r receipt h = h
next-completed fingerprint now (saving_connection connection) r receipt h = h
next-completed fingerprint now reading_connection r receipt h = h
next-completed fingerprint now (selecting repository_id) r receipt h = h
next-completed fingerprint now disconnecting r receipt h = h

-- A publication that was completed is recorded.
complete_at-recorded :
    (fingerprint owner : String) (receipt : PublishedIssue) (r : Option IssueIntentRecord)
    (s : InMemoryGitHubStore) {published : PublishedIssue}
    → r ≡ lookup fingerprint s.issue_intents
    → (complete_at fingerprint owner receipt r s).0 ≡ ok published
    → (recorded : PublishedIssue) × (receipt_at
          (lookup fingerprint (complete_at fingerprint owner receipt r s).1.issue_intents)
        ≡ some recorded)
      × (as_reconciled recorded ≡ as_reconciled published)
unfolding complete_at
complete_at-recorded fingerprint owner receipt none s there h = cc
complete_at-recorded fingerprint owner receipt (some r) s {published} there h =
    elim (Option-cases r.receipt) [
      | inr (first, found) ↦ (
        first,
        rw (found, complete_at) (ap receipt_at (sym there) ∙ found),
        ap as_reconciled (ok_injective (rw (found, complete_at) at h)),
      )
      | inl missing ↦ elim (Bool-cases (is_same_owner r.owner owner)) [
        | inl own ↦ (
          receipt,
          rw (missing, own, complete_at)
              (ap receipt_at (lookup-insert fingerprint fingerprint _ s.issue_intents)
                ∙ rw (beq_self fingerprint) refl),
          ap as_reconciled (ok_injective (rw (missing, own, complete_at) at h)),
        )
        | inr foreign ↦ absurd (ground (arith, rw (missing, foreign, complete_at) at h))
      ]
    ]

complete_at-completed :
    (fingerprint owner : String) (receipt : PublishedIssue) (r : Option IssueIntentRecord)
    (s : InMemoryGitHubStore) {recorded : PublishedIssue}
    → receipt_at r ≡ some recorded
    → complete_at fingerprint owner receipt r s ≡ (ok (as_reconciled recorded), s)
unfolding complete_at
complete_at-completed fingerprint owner receipt none s h = cc
complete_at-completed fingerprint owner receipt (some r) s h = rw (h, complete_at) refl

-- Once a worker has completed the publication of a finding, then after any calls of any workers nobody
-- can claim it again: a claim and a completion both answer with that publication, as reconciled, and
-- change nothing.
pub complete_issue_intent-lasts :
    (fingerprint owner other : String) (receipt late : PublishedIssue) (now lease_seconds : ℕ)
    (calls : List (ℕ × StoreCall)) (s : InMemoryGitHubStore) {published : PublishedIssue}
    → (complete_issue_intent fingerprint owner receipt s).0 ≡ ok published
    → (claim_issue_intent now fingerprint other lease_seconds
          (after step calls (complete_issue_intent fingerprint owner receipt s).1)
        ≡ (
          record { acquired = false; receipt = some (as_reconciled published) },
          after step calls (complete_issue_intent fingerprint owner receipt s).1,
        ))
      × (complete_issue_intent fingerprint other late
            (after step calls (complete_issue_intent fingerprint owner receipt s).1)
          ≡ (
            ok (as_reconciled published),
            after step calls (complete_issue_intent fingerprint owner receipt s).1,
          ))
unfolding complete_issue_intent claim_issue_intent
complete_issue_intent-lasts fingerprint owner other receipt late now lease_seconds calls s h =
    let (recorded, there, same) =
      complete_at-recorded fingerprint owner receipt (lookup fingerprint s.issue_intents) s refl
        h in
    let s' = (complete_issue_intent fingerprint owner receipt s).1 in
    let still =
      after-keeps fingerprint (λ r. receipt_at r ≡ some recorded) calls s'
        (λ n call r k. next-completed fingerprint n call r recorded k) there in
    (
      rw
          (
            claim_of-completed now other (lookup fingerprint (after step calls s').issue_intents)
                still,
            same,
          )
          refl,
      complete_at-completed fingerprint other late
            (lookup fingerprint (after step calls s').issue_intents) (after step calls s') still
          ∙ rw same refl,
    )
