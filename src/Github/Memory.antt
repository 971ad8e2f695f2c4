-- ===== src/Github/Memory.antt =====
-- `InMemoryGitHubStore` of github.py. Its `asyncio.Lock` makes each method one step; a method that reads
-- the clock has the time as an argument.
use i_promise.Base.{
  ℕ, ◌+◌, Bool, true, false, not, ◌&&◌, String, Option, none, some, [], ltb, leb, if◌then◌else◌,
  ◌==◌, string_eq,
}
use i_promise.Dict.{Dict, lookup, insert, erase, keep}
use i_promise.Errors.{Result, ok, err, github_authorization, publish_uncertain}
use i_promise.Github.{
  PublishedIssue, IssueIntentClaim, PendingOauth, Connection, as_reconciled, selected, StoreCall,
  adding_install, consuming_install, adding_oauth, consuming_oauth, saving_connection,
  reading_connection, selecting, disconnecting, claiming, completing, releasing, StoreReply, done,
  was_consumed, had_pending, has_connection, now_selected, was_claimed, was_completed, wrap,
}

pub record IssueIntentRecord : Type 0 where
  pub owner : Option String
  pub expires_at : ℕ
  pub receipt : Option PublishedIssue

pub record InMemoryGitHubStore : Type 0 where
  pub install_states : Dict String ℕ
  pub oauth_states : Dict String PendingOauth
  pub connection : Option Connection
  pub issue_intents : Dict String IssueIntentRecord

abbrev pub new_store : InMemoryGitHubStore
new_store = record { install_states = []; oauth_states = []; connection = none; issue_intents = [] }

unfoldable pub drop_expired : ℕ → InMemoryGitHubStore → InMemoryGitHubStore
drop_expired now s = record s {
  install_states = keep (λ expiry. leb now expiry) s.install_states;
  oauth_states = keep (λ pending. leb now pending.expires_at) s.oauth_states;
}

unfoldable pub add_install_state : String → ℕ → InMemoryGitHubStore → InMemoryGitHubStore
add_install_state state expires_at s = record s {
  install_states = insert state expires_at s.install_states;
}

-- `expires_at is not None and expires_at >= now`
abbrev pub is_live : ℕ → Option ℕ → Bool
is_live now none = false
is_live now (some expires_at) = leb now expires_at

unfoldable pub consume_install_state : ℕ → String → InMemoryGitHubStore → Bool × InMemoryGitHubStore
unfolding drop_expired
consume_install_state now state s = (
  is_live now (lookup state s.install_states),
  drop_expired now (record s { install_states = erase state s.install_states }),
)

unfoldable pub add_oauth_state : String → PendingOauth → InMemoryGitHubStore → InMemoryGitHubStore
add_oauth_state state pending s = record s { oauth_states = insert state pending s.oauth_states }

-- `None` if there is no pending authorisation, or it has expired.
abbrev pub live_pending : ℕ → Option PendingOauth → Option PendingOauth
live_pending now none = none
live_pending now (some pending) = if ltb pending.expires_at now then none else some pending

unfoldable pub consume_oauth_state :
    ℕ → String → InMemoryGitHubStore → Option PendingOauth × InMemoryGitHubStore
unfolding drop_expired
consume_oauth_state now state s = (
  live_pending now (lookup state s.oauth_states),
  drop_expired now (record s { oauth_states = erase state s.oauth_states }),
)

-- A selection that succeeded is written.
abbrev pub keep_selected :
    Result Connection → InMemoryGitHubStore → Result Connection × InMemoryGitHubStore
keep_selected (ok connection) s = (ok connection, record s { connection = some connection })
keep_selected (err e) s = (err e, s)

-- `select`, where the connection is what the store has.
unfoldable pub select_at :
    ℕ → Option Connection → InMemoryGitHubStore → Result Connection × InMemoryGitHubStore
unfolding selected
select_at repository_id none s =
    (err (github_authorization "Connect GitHub before selecting a repository"), s)
select_at repository_id (some connection) s = keep_selected (selected repository_id connection) s

unfoldable pub select : ℕ → InMemoryGitHubStore → Result Connection × InMemoryGitHubStore
unfolding select_at
select repository_id s = select_at repository_id s.connection s

abbrev pub is_same_owner : Option String → String → Bool
is_same_owner none owner = false
is_same_owner (some current) owner = current == owner

-- `claim_issue_intent`, where the record of the finding is what the store has: what is returned, and
-- whether the claim is written.
unfoldable pub claim_of : ℕ → String → Option IssueIntentRecord → IssueIntentClaim
claim_of now owner none = record { acquired = true; receipt = none }
claim_of now owner (some current) = elim current.receipt [
  | some receipt ↦ record { acquired = false; receipt = some (as_reconciled receipt) }
  | none ↦ record {
    acquired = not (not (is_same_owner current.owner owner) && ltb now current.expires_at);
    receipt = none;
  }
]

unfoldable pub claim_issue_intent :
    ℕ → String → String → ℕ → InMemoryGitHubStore → IssueIntentClaim × InMemoryGitHubStore
unfolding claim_of
claim_issue_intent now fingerprint owner lease_seconds s =
    let claim = claim_of now owner (lookup fingerprint s.issue_intents) in
    (
      claim,
      if claim.acquired
          then record s {
            issue_intents =
                insert fingerprint
                  (record { owner = some owner; expires_at = now + lease_seconds; receipt = none })
                  s.issue_intents;
          }
          else s,
    )

-- `complete_issue_intent`, where the record of the finding is what the store has.
unfoldable pub complete_at :
    String
    → String
    → PublishedIssue
    → Option IssueIntentRecord
    → InMemoryGitHubStore
    → Result PublishedIssue × InMemoryGitHubStore
complete_at fingerprint owner receipt none s =
    (err (publish_uncertain "GitHub issue intent ownership changed before completion"), s)
complete_at fingerprint owner receipt (some current) s = elim current.receipt [
  | some first ↦ (ok (as_reconciled first), s)
  | none ↦
      if is_same_owner current.owner owner
      then (
        ok receipt,
        record s {
          issue_intents =
              insert fingerprint (record { owner = none; expires_at = 0; receipt = some receipt })
                s.issue_intents;
        },
      )
      else (err (publish_uncertain "GitHub issue intent ownership changed before completion"), s)
]

unfoldable pub complete_issue_intent :
    String
    → String
    → PublishedIssue
    → InMemoryGitHubStore
    → Result PublishedIssue × InMemoryGitHubStore
unfolding complete_at
complete_issue_intent fingerprint owner receipt s =
    complete_at fingerprint owner receipt (lookup fingerprint s.issue_intents) s

abbrev is_none {ℓ} : {A : Type ℓ} → Option A → Bool
is_none none = true
is_none (some a) = false

-- `current is not None and current.receipt is None and current.owner == owner`
abbrev pub is_unfinished_claim : String → Option IssueIntentRecord → Bool
is_unfinished_claim owner none = false
is_unfinished_claim owner (some current) =
    is_none current.receipt && is_same_owner current.owner owner

unfoldable pub release_issue_intent : String → String → InMemoryGitHubStore → InMemoryGitHubStore
release_issue_intent fingerprint owner s =
    if is_unfinished_claim owner (lookup fingerprint s.issue_intents)
    then record s { issue_intents = erase fingerprint s.issue_intents }
    else s

-- One call, at a time.
unfoldable pub step : ℕ → StoreCall → InMemoryGitHubStore → Result StoreReply × InMemoryGitHubStore
unfolding add_install_state consume_install_state add_oauth_state consume_oauth_state select
    claim_issue_intent complete_issue_intent release_issue_intent
step now (adding_install state expires_at) s = (ok done, add_install_state state expires_at s)
step now (consuming_install state) s =
    let (consumed, s') = consume_install_state now state s in (ok (was_consumed consumed), s')
step now (adding_oauth state pending) s = (ok done, add_oauth_state state pending s)
step now (consuming_oauth state) s =
    let (pending, s') = consume_oauth_state now state s in (ok (had_pending pending), s')
step now (saving_connection connection) s = (ok done, record s { connection = some connection })
step now reading_connection s = (ok (has_connection s.connection), s)
step now (selecting repository_id) s =
    let (result, s') = select repository_id s in (wrap now_selected result, s')
step now disconnecting s = (ok done, record s { connection = none })
step now (claiming fingerprint owner lease_seconds) s =
    let (claim, s') = claim_issue_intent now fingerprint owner lease_seconds s in
    (ok (was_claimed claim), s')
step now (completing fingerprint owner receipt) s =
    let (result, s') = complete_issue_intent fingerprint owner receipt s in
    (wrap was_completed result, s')
step now (releasing fingerprint owner) s = (ok done, release_issue_intent fingerprint owner s)
