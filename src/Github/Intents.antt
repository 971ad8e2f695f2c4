-- ===== src/Github/Intents.antt =====
-- The intents of github.py's store, seen at one finding: what each call does to its record.
use i_promise.Base.{
  ℕ, ◌+◌, ◌≡◌, refl, ap, ◌∙◌, inl, inr, Bool, true, false, ◌&&◌, String, Option, none, some, arith,
  if◌then◌else◌, if_apply, ◌==◌, string_eq, Bool-cases,
}
use i_promise.Dict.{Dict, lookup, insert, lookup-insert, lookup-erase}
use i_promise.Errors.{Result, ok, err}
use i_promise.Github.{
  PublishedIssue, IssueIntentClaim, as_reconciled, StoreCall, adding_install, consuming_install,
  adding_oauth, consuming_oauth, saving_connection, reading_connection, selecting, disconnecting,
  claiming, completing, releasing, after,
}
use i_promise.Github.Memory.{
  InMemoryGitHubStore, IssueIntentRecord, step, claim_of, claim_issue_intent, complete_at,
  complete_issue_intent, is_unfinished_claim, is_same_owner, release_issue_intent, select,
  select_at, drop_expired, add_install_state, consume_install_state, add_oauth_state,
  consume_oauth_state, keep_selected,
}

keep_selected-intents :
    (result : Result i_promise.Github.Connection) (s : InMemoryGitHubStore)
    → (keep_selected result s).1.issue_intents ≡ s.issue_intents
keep_selected-intents (ok c) s = refl
keep_selected-intents (err e) s = refl

select_at-intents :
    (repository_id : ℕ) (c : Option i_promise.Github.Connection) (s : InMemoryGitHubStore)
    → (select_at repository_id c s).1.issue_intents ≡ s.issue_intents
unfolding select_at
select_at-intents repository_id none s = refl
select_at-intents repository_id (some c) s =
    keep_selected-intents (i_promise.Github.selected repository_id c) s

-- What the calls do to the record of one finding.
abbrev pub next : String → ℕ → StoreCall → Option IssueIntentRecord → Option IssueIntentRecord
next fingerprint now (claiming f owner lease_seconds) r =
    if f == fingerprint && (claim_of now owner r).acquired
    then some (record { owner = some owner; expires_at = now + lease_seconds; receipt = none })
    else r
next fingerprint now (completing f owner receipt) r =
    if f == fingerprint && is_unfinished_claim owner r
    then some (record { owner = none; expires_at = 0; receipt = some receipt })
    else r
next fingerprint now (releasing f owner) r =
    if f == fingerprint && is_unfinished_claim owner r then none else r
next fingerprint now _ r = r

-- A change of one entry, if a condition on that entry holds, seen at another key.
changed_at :
    (f fingerprint : String) (d d' : Dict String IssueIntentRecord) (b : Bool)
    (new : Option IssueIntentRecord)
    → lookup fingerprint d' ≡ (if f == fingerprint then new else lookup fingerprint d)
    → lookup fingerprint (if b then d' else d)
      ≡ (if f == fingerprint && b then new else lookup fingerprint d)
changed_at f fingerprint d d' true new h = ground arith
changed_at f fingerprint d d' false new h = ground arith

-- The condition may as well be read at the key itself.
condition_at :
    (f fingerprint : String) (d : Dict String IssueIntentRecord)
    (c : Option IssueIntentRecord → Bool)
    → (f == fingerprint && c (lookup f d)) ≡ (f == fingerprint && c (lookup fingerprint d))
condition_at f fingerprint d c = elim (Bool-cases (f == fingerprint)) [
  | inl same ↦ rw ((string_eq.same_iff f fingerprint).0 same) refl
  | inr other ↦ rw other refl
]

complete_record-intents :
    (f owner : String) (receipt : PublishedIssue) (current : Option String) (expires : ℕ)
    (first : Option PublishedIssue) (s : InMemoryGitHubStore)
    → (complete_at f owner receipt
        (some (record { owner = current; expires_at = expires; receipt = first }))
        s).1.issue_intents
      ≡ (if is_unfinished_claim owner
            (some (record { owner = current; expires_at = expires; receipt = first }))
          then insert f
              (record { owner = none; expires_at = 0; receipt = some receipt })
              s.issue_intents
          else s.issue_intents)
unfolding complete_at
complete_record-intents f owner receipt current expires (some r) s = refl
complete_record-intents f owner receipt current expires none s =
    if_apply (λ (p : Result PublishedIssue × InMemoryGitHubStore). p.1.issue_intents)
      (is_same_owner current owner) _ _

complete_at-intents :
    (f owner : String) (receipt : PublishedIssue) (r : Option IssueIntentRecord)
    (s : InMemoryGitHubStore)
    → (complete_at f owner receipt r s).1.issue_intents ≡ (
        if is_unfinished_claim owner r
        then insert f
            (record { owner = none; expires_at = 0; receipt = some receipt })
            s.issue_intents
        else s.issue_intents)
unfolding complete_at
complete_at-intents f owner receipt none s = refl
complete_at-intents f owner receipt (some r) s =
    complete_record-intents f owner receipt r.owner r.expires_at r.receipt s

-- A conditional change of the entry of `f`, by a condition on that entry, seen at a finding.
entry_after :
    (f fingerprint : String) (d d' : Dict String IssueIntentRecord)
    (c : Option IssueIntentRecord → Bool) (new : Option IssueIntentRecord)
    → lookup fingerprint d' ≡ (if f == fingerprint then new else lookup fingerprint d)
    → lookup fingerprint (if c (lookup f d) then d' else d)
      ≡ (if f == fingerprint && c (lookup fingerprint d) then new else lookup fingerprint d)
entry_after f fingerprint d d' c new h =
    changed_at f fingerprint d d' (c (lookup f d)) new h
    ∙ ap (λ b. if b then new else lookup fingerprint d) (condition_at f fingerprint d c)

-- Every call changes the record of a finding as `next` says.
pub step-next :
    (fingerprint : String) (now : ℕ) (call : StoreCall) (s : InMemoryGitHubStore)
    → lookup fingerprint (step now call s).1.issue_intents
      ≡ next fingerprint now call (lookup fingerprint s.issue_intents)
unfolding step claim_issue_intent complete_issue_intent release_issue_intent select
    add_install_state consume_install_state add_oauth_state consume_oauth_state drop_expired
step-next fingerprint now (claiming f owner lease_seconds) s =
    ap (lookup fingerprint) (
      if_apply InMemoryGitHubStore.issue_intents
        (claim_of now owner (lookup f s.issue_intents)).acquired _ s)
    ∙ entry_after f fingerprint s.issue_intents _ (λ r. (claim_of now owner r).acquired) _
        (lookup-insert f fingerprint _ s.issue_intents)
step-next fingerprint now (completing f owner receipt) s =
    ap (lookup fingerprint) (complete_at-intents f owner receipt (lookup f s.issue_intents) s)
    ∙ entry_after f fingerprint s.issue_intents _ (is_unfinished_claim owner) _
        (lookup-insert f fingerprint _ s.issue_intents)
step-next fingerprint now (releasing f owner) s =
    ap (lookup fingerprint) (
      if_apply InMemoryGitHubStore.issue_intents
        (is_unfinished_claim owner (lookup f s.issue_intents)) _ s)
    ∙ entry_after f fingerprint s.issue_intents _ (is_unfinished_claim owner) _
        (lookup-erase f fingerprint s.issue_intents)
step-next fingerprint now (selecting repository_id) s =
    ap (lookup fingerprint) (select_at-intents repository_id s.connection s)
step-next fingerprint now (adding_install state expires_at) s = refl
step-next fingerprint now (consuming_install state) s = refl
step-next fingerprint now (adding_oauth state pending) s = refl
step-next fingerprint now (consuming_oauth state) s = refl
step-next fingerprint now (saving_connection connection) s = refl
step-next fingerprint now reading_connection s = refl
step-next fingerprint now disconnecting s = refl
