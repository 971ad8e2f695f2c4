-- ===== src/Github/Documents.antt =====
-- `FirestoreGitHubStore` of github.py. A transaction of Firestore is one step. A document is a record of
-- the fields that this class writes, and a repository in it is the value that pydantic gives back;
-- `state_id` is the SHA-256 under which a state is filed.
mod Records
unfoldable pub use Records.*
use i_promise.Base.{
  ℕ, ◌+◌, Bool, true, false, not, ◌&&◌, String, Option, none, some, List, [], ltb, leb,
  if◌then◌else◌, ◌==◌, string_eq,
}
use i_promise.Dict.{Dict, lookup, insert, erase}
use i_promise.Errors.{Result, ok, err, github_authorization, publish_uncertain}
use i_promise.Github.{
  PublishedIssue, IssueIntentClaim, PendingOauth, Connection, as_reconciled, selected, StoreCall,
  adding_install, consuming_install, adding_oauth, consuming_oauth, saving_connection,
  reading_connection, selecting, disconnecting, claiming, completing, releasing, StoreReply, done,
  was_consumed, had_pending, has_connection, now_selected, was_claimed, was_completed, wrap,
}

-- What a transaction that consumes a state answers for the document it reads.
abbrev pub consumed_install : ℕ → Option StateDocument → Bool
consumed_install now (some (install expires_at)) = leb now expires_at
consumed_install now _ = false

abbrev pub consumed_oauth : ℕ → Option StateDocument → Option PendingOauth
consumed_oauth now (some (oauth installation_id verifier expires_at)) =
    if ltb expires_at now
    then none
    else some
        (record { installation_id = installation_id; verifier = verifier; expires_at = expires_at })
consumed_oauth now _ = none

module _ (state_id : String → String) where
  unfoldable pub add_install_state : String → ℕ → FirestoreGitHubStore → FirestoreGitHubStore
  add_install_state state expires_at s = record s {
    states = insert (state_id state) (install expires_at) s.states;
  }

  unfoldable pub add_oauth_state :
      String → PendingOauth → FirestoreGitHubStore → FirestoreGitHubStore
  add_oauth_state state pending s = record s {
    states =
        insert (state_id state) (oauth pending.installation_id pending.verifier pending.expires_at)
          s.states;
  }

  -- Whatever the document is, it is deleted.
  unfoldable pub consume_install_state :
      ℕ → String → FirestoreGitHubStore → Bool × FirestoreGitHubStore
  consume_install_state now state s = (
    consumed_install now (lookup (state_id state) s.states),
    record s { states = erase (state_id state) s.states },
  )

  unfoldable pub consume_oauth_state :
      ℕ → String → FirestoreGitHubStore → Option PendingOauth × FirestoreGitHubStore
  consume_oauth_state now state s = (
    consumed_oauth now (lookup (state_id state) s.states),
    record s { states = erase (state_id state) s.states },
  )

abbrev pub keep_selected :
    ℕ → Result Connection → FirestoreGitHubStore → Result Connection × FirestoreGitHubStore
keep_selected now (ok connection) s =
    (ok connection, record s { active = some (encode_connection now connection) })
keep_selected now (err e) s = (err e, s)

-- `select_in_transaction`, for the document it reads.
unfoldable pub select_at :
    ℕ
    → ℕ
    → Option ConnectionDocument
    → FirestoreGitHubStore
    → Result Connection × FirestoreGitHubStore
unfolding selected encode_connection decode_connection
select_at now repository_id none s =
    (err (github_authorization "Connect GitHub before selecting a repository"), s)
select_at now repository_id (some document) s =
    keep_selected now (selected repository_id (decode_connection document)) s

unfoldable pub select : ℕ → ℕ → FirestoreGitHubStore → Result Connection × FirestoreGitHubStore
unfolding select_at
select now repository_id s = select_at now repository_id s.active s

-- `document.get("owner") == owner`
abbrev is_owner : Option String → String → Bool
is_owner none owner = false
is_owner (some current) owner = current == owner

-- The receipt of a document whose status is COMPLETE.
unfoldable pub completed_receipt : IntentDocument → Option PublishedIssue
unfolding decode_issue_receipt
completed_receipt document =
    if document.status == "COMPLETE" then decode_issue_receipt document.receipt else none

-- `claim_in_transaction`, for the document it reads.
unfoldable pub claim_of : ℕ → String → Option IntentDocument → IssueIntentClaim
unfolding completed_receipt
claim_of now owner none = record { acquired = true; receipt = none }
claim_of now owner (some document) = elim (completed_receipt document) [
  | some receipt ↦ record { acquired = false; receipt = some (as_reconciled receipt) }
  | none ↦ record {
    acquired = not (not (is_owner document.owner owner) && ltb now document.lease_expires_at);
    receipt = none;
  }
]

unfoldable pub claim_issue_intent :
    ℕ → String → String → ℕ → FirestoreGitHubStore → IssueIntentClaim × FirestoreGitHubStore
unfolding claim_of
claim_issue_intent now fingerprint owner lease_seconds s =
    let claim = claim_of now owner (lookup fingerprint s.issue_intents) in
    (
      claim,
      if claim.acquired
          then record s {
            issue_intents =
                insert fingerprint
                  (record {
                    fingerprint = fingerprint;
                    status = "IN_PROGRESS";
                    owner = some owner;
                    lease_expires_at = now + lease_seconds;
                    receipt = none;
                    completed_by = none;
                    updated_at = now;
                  })
                  s.issue_intents;
          }
          else s,
    )

-- `complete_in_transaction`, for the document it reads.
unfoldable pub complete_at :
    ℕ
    → String
    → String
    → PublishedIssue
    → Option IntentDocument
    → FirestoreGitHubStore
    → Result PublishedIssue × FirestoreGitHubStore
unfolding completed_receipt encode_issue_receipt
complete_at now fingerprint owner receipt none s =
    (err (publish_uncertain "GitHub issue intent ownership changed before completion"), s)
complete_at now fingerprint owner receipt (some document) s = elim (completed_receipt document) [
  | some existing ↦ (ok (as_reconciled existing), s)
  | none ↦
      if is_owner document.owner owner
      then (
        ok receipt,
        record s {
          issue_intents =
              insert fingerprint
                (record {
                  fingerprint = fingerprint;
                  status = "COMPLETE";
                  owner = none;
                  lease_expires_at = now;
                  receipt = some (encode_issue_receipt receipt);
                  completed_by = some owner;
                  updated_at = now;
                })
                s.issue_intents;
        },
      )
      else (err (publish_uncertain "GitHub issue intent ownership changed before completion"), s)
]

unfoldable pub complete_issue_intent :
    ℕ
    → String
    → String
    → PublishedIssue
    → FirestoreGitHubStore
    → Result PublishedIssue × FirestoreGitHubStore
unfolding complete_at
complete_issue_intent now fingerprint owner receipt s =
    complete_at now fingerprint owner receipt (lookup fingerprint s.issue_intents) s

-- `document.get("status") != "COMPLETE" and document.get("owner") == owner`
abbrev pub is_unfinished_claim : String → Option IntentDocument → Bool
is_unfinished_claim owner none = false
is_unfinished_claim owner (some document) =
    not (document.status == "COMPLETE") && is_owner document.owner owner

unfoldable pub release_issue_intent : String → String → FirestoreGitHubStore → FirestoreGitHubStore
release_issue_intent fingerprint owner s =
    if is_unfinished_claim owner (lookup fingerprint s.issue_intents)
    then record s { issue_intents = erase fingerprint s.issue_intents }
    else s

-- `_decode_connection(snapshot.to_dict()) if snapshot.exists else None`
abbrev pub connection_at : Option ConnectionDocument → Option Connection
connection_at none = none
connection_at (some document) = some (decode_connection document)

unfoldable pub connection : FirestoreGitHubStore → Option Connection
connection s = connection_at s.active

-- One call, at a time.
unfoldable pub step :
    (String → String)
    → ℕ
    → StoreCall
    → FirestoreGitHubStore
    → Result StoreReply × FirestoreGitHubStore
unfolding add_install_state consume_install_state add_oauth_state consume_oauth_state select
    claim_issue_intent complete_issue_intent release_issue_intent encode_connection connection
step state_id now (adding_install state expires_at) s =
    (ok done, add_install_state state_id state expires_at s)
step state_id now (consuming_install state) s =
    let (consumed, s') = consume_install_state state_id now state s in
    (ok (was_consumed consumed), s')
step state_id now (adding_oauth state pending) s =
    (ok done, add_oauth_state state_id state pending s)
step state_id now (consuming_oauth state) s =
    let (pending, s') = consume_oauth_state state_id now state s in (ok (had_pending pending), s')
step state_id now (saving_connection saved) s =
    (ok done, record s { active = some (encode_connection now saved) })
step state_id now reading_connection s = (ok (has_connection (connection s)), s)
step state_id now (selecting repository_id) s =
    let (result, s') = select now repository_id s in (wrap now_selected result, s')
step state_id now disconnecting s = (ok done, record s { active = none })
step state_id now (claiming fingerprint owner lease_seconds) s =
    let (claim, s') = claim_issue_intent now fingerprint owner lease_seconds s in
    (ok (was_claimed claim), s')
step state_id now (completing fingerprint owner receipt) s =
    let (result, s') = complete_issue_intent now fingerprint owner receipt s in
    (wrap was_completed result, s')
step state_id now (releasing fingerprint owner) s =
    (ok done, release_issue_intent fingerprint owner s)
