-- ===== src/Github/Handoff.antt =====
-- The states of the OAuth handshake in the store of github.py are good for one use, and not after their
-- expiry.
use i_promise.Base.{
  ℕ, ◌≤◌, ◌≡◌, refl, ap, ◌∙◌, inl, inr, Bool, false, String, Option, none, some, List, [], ◌∷◌,
  arith, ltb, if_same, ◌==◌, string_eq, beq_self, Bool-cases,
}
use i_promise.Dict.{Dict, lookup, erase, keep, keep_if, lookup-insert, lookup-erase, lookup-keep}
use i_promise.Errors.{Result, ok, err}
use i_promise.Github.{
  PublishedIssue, PendingOauth, Connection, StoreCall, adding_install, consuming_install,
  adding_oauth, consuming_oauth, saving_connection, reading_connection, selecting, disconnecting,
  claiming, completing, releasing, after,
}
use i_promise.Github.Memory.{
  InMemoryGitHubStore, IssueIntentRecord, is_same_owner, step, consume_oauth_state,
  consume_install_state, add_oauth_state, add_install_state, live_pending, drop_expired,
  claim_issue_intent, complete_issue_intent, complete_at, release_issue_intent, select, select_at,
  keep_selected,
}

-- A call that files this state again.
abbrev pub is_adding : String → StoreCall → Bool
is_adding state (adding_oauth s pending) = s == state
is_adding state _ = false

abbrev pub NeverAdds : String → List (ℕ × StoreCall) → Type 0
NeverAdds state [] = Unit
NeverAdds state ((now, call) ∷ rest) = (is_adding state call ≡ false) × NeverAdds state rest

keep_selected-states :
    (result : Result Connection) (s : InMemoryGitHubStore)
    → (keep_selected result s).1.oauth_states ≡ s.oauth_states
keep_selected-states (ok c) s = refl
keep_selected-states (err e) s = refl

select_at-states :
    (repository_id : ℕ) (c : Option Connection) (s : InMemoryGitHubStore)
    → (select_at repository_id c s).1.oauth_states ≡ s.oauth_states
unfolding select_at
select_at-states repository_id none s = refl
select_at-states repository_id (some c) s =
    keep_selected-states (i_promise.Github.selected repository_id c) s

-- Erasing, and dropping what expired, give no state back.
absent-erase :
    (state key : String) (d : Dict String PendingOauth)
    → lookup state d ≡ none
    → lookup state (erase key d) ≡ none
absent-erase state key d h = lookup-erase key state d ∙ if_same (λ o. o) (key == state) refl h

absent-keep :
    (p : PendingOauth → Bool) (state : String) (d : Dict String PendingOauth)
    → lookup state d ≡ none
    → lookup state (keep p d) ≡ none
absent-keep p state d h = lookup-keep p state d ∙ ap (keep_if p) h

claim_issue_intent-states :
    (now seconds : ℕ) (fingerprint owner : String) (s : InMemoryGitHubStore)
    → (claim_issue_intent now fingerprint owner seconds s).1.oauth_states ≡ s.oauth_states
unfolding claim_issue_intent
claim_issue_intent-states now seconds fingerprint owner s =
    if_same InMemoryGitHubStore.oauth_states _ refl refl

complete_record-states :
    (fingerprint owner : String) (receipt : PublishedIssue) (current : Option String) (expires : ℕ)
    (first : Option PublishedIssue) (s : InMemoryGitHubStore)
    → (complete_at fingerprint owner receipt
        (some (record { owner = current; expires_at = expires; receipt = first }))
        s).1.oauth_states
      ≡ s.oauth_states
unfolding complete_at
complete_record-states fingerprint owner receipt current expires (some r) s = refl
complete_record-states fingerprint owner receipt current expires none s =
    if_same (λ (p : Result PublishedIssue × InMemoryGitHubStore). p.1.oauth_states)
      (is_same_owner current owner) refl refl

complete_at-states :
    (fingerprint owner : String) (receipt : PublishedIssue) (r : Option IssueIntentRecord)
    (s : InMemoryGitHubStore)
    → (complete_at fingerprint owner receipt r s).1.oauth_states ≡ s.oauth_states
unfolding complete_at
complete_at-states fingerprint owner receipt none s = refl
complete_at-states fingerprint owner receipt (some r) s =
    complete_record-states fingerprint owner receipt r.owner r.expires_at r.receipt s

release_issue_intent-states :
    (fingerprint owner : String) (s : InMemoryGitHubStore)
    → (release_issue_intent fingerprint owner s).oauth_states ≡ s.oauth_states
unfolding release_issue_intent
release_issue_intent-states fingerprint owner s =
    if_same InMemoryGitHubStore.oauth_states _ refl refl

step-absent :
    (state : String) (now : ℕ) (call : StoreCall) (s : InMemoryGitHubStore)
    → is_adding state call ≡ false
    → lookup state s.oauth_states ≡ none
    → lookup state (step now call s).1.oauth_states ≡ none
unfolding step add_install_state consume_install_state add_oauth_state consume_oauth_state
    drop_expired complete_issue_intent select
step-absent state now (adding_oauth other pending) s foreign h =
    lookup-insert other state pending s.oauth_states ∙ rw foreign h
step-absent state now (consuming_oauth other) s foreign h =
    absent-keep _ state _ (absent-erase state other s.oauth_states h)
step-absent state now (consuming_install other) s foreign h = absent-keep _ state s.oauth_states h
step-absent state now (adding_install other expires_at) s foreign h = h
step-absent state now (claiming fingerprint owner seconds) s foreign h =
    ap (lookup state) (claim_issue_intent-states now seconds fingerprint owner s) ∙ h
step-absent state now (completing fingerprint owner receipt) s foreign h =
    ap (lookup state)
      (complete_at-states fingerprint owner receipt (lookup fingerprint s.issue_intents) s)
    ∙ h
step-absent state now (releasing fingerprint owner) s foreign h =
    ap (lookup state) (release_issue_intent-states fingerprint owner s) ∙ h
step-absent state now (selecting repository_id) s foreign h =
    ap (lookup state) (select_at-states repository_id s.connection s) ∙ h
step-absent state now (saving_connection connection) s foreign h = h
step-absent state now reading_connection s foreign h = h
step-absent state now disconnecting s foreign h = h

after-absent :
    (state : String) (calls : List (ℕ × StoreCall)) (s : InMemoryGitHubStore)
    → NeverAdds state calls
    → lookup state s.oauth_states ≡ none
    → lookup state (after step calls s).oauth_states ≡ none
unfolding after
after-absent state [] s foreign h = h
after-absent state ((now, call) ∷ rest) s (foreign, others) h =
    after-absent state rest (step now call s).1 others (step-absent state now call s foreign h)

live_pending-unexpired :
    (now : ℕ) (o : Option PendingOauth) {pending : PendingOauth}
    → live_pending now o ≡ some pending
    → (o ≡ some pending) × (now ≤ pending.expires_at)
live_pending-unexpired now none h = cc
live_pending-unexpired now (some p) {pending} h = elim (Bool-cases (ltb p.expires_at now)) [
  | inl expired ↦ absurd (ground (arith, rw (expired, live_pending) at h))
  | inr live ↦
      let same : some p ≡ some pending = rw (live, live_pending) at h in
      let le : now ≤ p.expires_at = ground arith in
      let expiry = ap {B = ℕ} (λ o. elim o [ none ↦ 0 | some x ↦ x.expires_at ]) same in
      (same, rw⁻¹ expiry le)
]

-- An authorisation that a callback obtains for its state is the one that was filed, has not expired,
-- and cannot be obtained a second time: after any calls that do not file the state again, the same
-- state gives nothing at any time.
pub consume_oauth_state-once :
    (now later : ℕ) (state : String) (calls : List (ℕ × StoreCall)) (s : InMemoryGitHubStore)
    {pending : PendingOauth}
    → (consume_oauth_state now state s).0 ≡ some pending
    → NeverAdds state calls
    → (lookup state s.oauth_states ≡ some pending)
      × (now ≤ pending.expires_at)
      × ((consume_oauth_state later state (after step calls (consume_oauth_state now state s).1)).0
          ≡ none)
unfolding consume_oauth_state drop_expired
consume_oauth_state-once now later state calls s {pending} h foreign =
    let (filed, fresh) = live_pending-unexpired now (lookup state s.oauth_states) h in
    let gone = after-absent state calls (consume_oauth_state now state s).1 foreign (
      absent-keep _ state _ (lookup-erase state state s.oauth_states ∙ rw (beq_self state) refl)) in
    (filed, fresh, ap (live_pending later) gone)
