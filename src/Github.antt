-- ===== src/Github.antt =====
-- services/agent/src/ipromise_agent/github.py: publication to GitHub. The data that the parts share.
--
-- `Primitives` holds what the standard library computes: the digests in hexadecimal, `str.casefold`,
-- and the canonical JSON text (`json.dumps` with sorted keys) of the two identities that are hashed.
pub mod Path
pub mod Candidate
pub mod Authentic
pub mod Gate
pub mod Cleared
pub mod Authorized
pub mod Memory
pub mod Documents
pub mod Refinement
pub mod Intents
pub mod Publications
pub mod Exclusion
pub mod Handoff
use i_promise.Base.{
  ℕ, Bool, true, false, String, Option, none, some, List, [], ◌∷◌, if◌then◌else◌, ◌==◌, nat_eq,
}
use i_promise.Lists.{find_first}
use i_promise.Errors.{Result, ok, err, github_authorization}
use i_promise.Dict.{Dict}
use i_promise.Bytes.{Bytes}
use i_promise.Models.{GitHubRepository, Verdict}

pub record VerifiedCandidateInput : Type 0 where
  pub base_sha : String
  pub repository_url : String
  pub unified_diff_sha256 : String
  pub candidate_tree : Dict String Bytes
  pub candidate_hashes : Dict String String
  pub preimage_hashes : Dict String String

-- One of the tuples `(path, content, candidate_sha256, preimage_sha256)` of a snapshot.
pub record SnapshotFile : Type 0 where
  pub path : String
  pub content : Bytes
  pub candidate_sha256 : String
  pub preimage_sha256 : String

pub record CandidateSnapshot : Type 0 where
  pub base_sha : String
  pub repository_url : String
  pub unified_diff_sha256 : String
  pub files : List SnapshotFile

-- The `intent` of `_pull_request_fingerprint`, without its schema, which is always the same.
pub record IntentFile : Type 0 where
  pub path : String
  pub preimage_sha256 : String
  pub candidate_sha256 : String

pub record PullRequestIntent : Type 0 where
  pub repository_id : ℕ
  pub full_name : String
  pub base_sha : String
  pub repository_url : String
  pub unified_diff_sha256 : String
  pub files : List IntentFile

-- The `finding` of `finding_fingerprint`, without its schema.
pub record FindingEvidence : Type 0 where
  pub id : String
  pub label : String
  pub expected : String
  pub observed : String
  pub result : String

pub record Finding : Type 0 where
  pub repository_id : ℕ
  pub source_url : String
  pub content_hash : String
  pub exact_quote : String
  pub control_id : Option String
  pub verdict : Verdict
  pub evidence : List FindingEvidence

pub record Primitives : Type 0 where
  pub sha256 : Bytes → String
  pub sha1 : Bytes → String
  pub casefold : String → String
  pub dumps_intent : PullRequestIntent → String
  pub dumps_finding : Finding → String
  pub dumps_evidence : FindingEvidence → String

pub record PublishedPullRequest : Type 0 where
  pub url : String
  pub number : ℕ
  pub remote_id : ℕ
  pub branch : String
  pub head_sha : String
  pub base_sha : String
  pub tree_sha : String
  pub reconciled : Bool

pub record PublishedIssue : Type 0 where
  pub url : String
  pub number : ℕ
  pub remote_id : ℕ
  pub reconciled : Bool

abbrev pub as_reconciled : PublishedIssue → PublishedIssue
as_reconciled receipt = record receipt { reconciled = true }

pub record IssueIntentClaim : Type 0 where
  pub acquired : Bool
  pub receipt : Option PublishedIssue

pub record PendingOauth : Type 0 where
  pub installation_id : ℕ
  pub verifier : String
  pub expires_at : ℕ

pub record Connection : Type 0 where
  pub installation_id : ℕ
  pub account_login : String
  pub repositories : List GitHubRepository
  pub selected_repository_id : Option ℕ

-- What `select` of both stores does with the connection it finds.
unfoldable pub selected : ℕ → Connection → Result Connection
selected repository_id connection =
    elim (find_first (λ item. item.id == repository_id) connection.repositories) [
      | none ↦
          err (github_authorization "The repository is not available to this verified installation")
      | some repository ↦
          if repository.archived
          then err (github_authorization "Archived repositories cannot be selected")
          else ok (record connection { selected_repository_id = some repository_id })
    ]

-- The methods of a store, as calls that any number of workers make in any order, and what they return.
pub data StoreCall : Type 0 where
  adding_install : String → ℕ → StoreCall
  consuming_install : String → StoreCall
  adding_oauth : String → PendingOauth → StoreCall
  consuming_oauth : String → StoreCall
  saving_connection : Connection → StoreCall
  reading_connection : StoreCall
  selecting : ℕ → StoreCall
  disconnecting : StoreCall
  claiming : String → String → ℕ → StoreCall
  completing : String → String → PublishedIssue → StoreCall
  releasing : String → String → StoreCall

pub data StoreReply : Type 0 where
  done : StoreReply
  was_consumed : Bool → StoreReply
  had_pending : Option PendingOauth → StoreReply
  has_connection : Option Connection → StoreReply
  now_selected : Connection → StoreReply
  was_claimed : IssueIntentClaim → StoreReply
  was_completed : PublishedIssue → StoreReply

-- What a method returns, as a reply; what it raises stays.
abbrev pub wrap {ℓ} : {A : Type ℓ} → (A → StoreReply) → Result A → Result StoreReply
wrap f (ok a) = ok (f a)
wrap f (err e) = err e

-- The state after calls in order.
unfoldable pub after {ℓ} :
    {S : Type ℓ} → (ℕ → StoreCall → S → Result StoreReply × S) → List (ℕ × StoreCall) → S → S
after step [] s = s
after step ((now, call) ∷ rest) s = after step rest (step now call s).1

-- The replies to calls in order, from one state to the next.
unfoldable pub answers {ℓ} :
    {S : Type ℓ}
    → (ℕ → StoreCall → S → Result StoreReply × S)
    → List (ℕ × StoreCall)
    → S
    → List (Result StoreReply)
answers step [] s = []
answers step ((now, call) ∷ rest) s =
    let (reply, s') = step now call s in reply ∷ answers step rest s'
