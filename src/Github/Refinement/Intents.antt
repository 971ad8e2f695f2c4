-- ===== src/Github/Refinement/Intents.antt =====
-- The intents of github.py: both stores answer alike for a record and its document, and keep them so.
use i_promise.Base.{
  ℕ, ◌≡◌, refl, Bool, true, false, String, Option, none, some, if◌then◌else◌, ◌==◌, string_eq,
}
use i_promise.Dict.{Dict, lookup, insert, erase, lookup-insert, lookup-erase}
use i_promise.Github.{PublishedIssue}
use i_promise.Github.Memory
use i_promise.Github.Memory.{InMemoryGitHubStore, IssueIntentRecord}
use i_promise.Github.Documents
use i_promise.Github.Documents.{
  FirestoreGitHubStore, IntentDocument, encode_issue_receipt, decode_issue_receipt,
  completed_receipt,
}
use i_promise.Github.Refinement.{Agrees, IsFiled}

pub completed_receipt_open :
    (d : IntentDocument) → (d.status == "COMPLETE") ≡ false → completed_receipt d ≡ none
unfolding completed_receipt
completed_receipt_open d h = rw h refl

pub completed_receipt_complete :
    (d : IntentDocument) (receipt : PublishedIssue)
    → (d.status == "COMPLETE") ≡ true
    → d.receipt ≡ some (encode_issue_receipt receipt)
    → completed_receipt d ≡ some (record receipt { reconciled = false })
unfolding completed_receipt decode_issue_receipt encode_issue_receipt
completed_receipt_complete d receipt h same = rw (h, same) refl

claim_record-Agrees :
    (now : ℕ) (owner : String) (current : Option String) (expires : ℕ)
    (receipt : Option PublishedIssue) (d : IntentDocument)
    → Agrees (record { owner = current; expires_at = expires; receipt = receipt }) d
    → Memory.claim_of now owner
        (some (record { owner = current; expires_at = expires; receipt = receipt }))
      ≡ Documents.claim_of now owner (some d)
unfolding Memory.claim_of Documents.claim_of
claim_record-Agrees now owner current expires none d (open_, same, until) =
    rw (completed_receipt_open d open_, same, until, Documents.claim_of) refl
claim_record-Agrees now owner current expires (some receipt) d (finished, same) =
    rw (completed_receipt_complete d receipt finished same, Documents.claim_of) refl

-- The claim is answered alike, whatever is recorded.
pub claim_of-agrees :
    (now : ℕ) (owner : String) (r : Option IssueIntentRecord) (d : Option IntentDocument)
    → IsFiled r d
    → Memory.claim_of now owner r ≡ Documents.claim_of now owner d
unfolding Memory.claim_of Documents.claim_of
claim_of-agrees now owner none none h = refl
claim_of-agrees now owner (some r) (some d) h =
    claim_record-Agrees now owner r.owner r.expires_at r.receipt d h
claim_of-agrees now owner none (some d) h = absurd h
claim_of-agrees now owner (some r) none h = absurd h

-- A finding that is written in both stores, or erased from both, stays filed alike.
pub insert-IsFiled :
    (key : String) (r : IssueIntentRecord) (d : IntentDocument)
    (records : Dict String IssueIntentRecord) (documents : Dict String IntentDocument)
    → Agrees r d
    → ((k : String) → IsFiled (lookup k records) (lookup k documents))
    → (k : String) → IsFiled (lookup k (insert key r records)) (lookup k (insert key d documents))
insert-IsFiled key r d records documents same filed k =
    rw (lookup-insert key k r records, lookup-insert key k d documents) (at (key == k))
  where
    at :
        (b : Bool)
        → IsFiled
            (if b then some r else lookup k records)
            (if b then some d else lookup k documents)
    at true = same
    at false = filed k

pub erase-IsFiled :
    (key : String) (records : Dict String IssueIntentRecord)
    (documents : Dict String IntentDocument)
    → ((k : String) → IsFiled (lookup k records) (lookup k documents))
    → (k : String) → IsFiled (lookup k (erase key records)) (lookup k (erase key documents))
erase-IsFiled key records documents filed k =
    rw (lookup-erase key k records, lookup-erase key k documents) (at (key == k))
  where
    at :
        (b : Bool)
        → IsFiled (if b then none else lookup k records) (if b then none else lookup k documents)
    at true = tt
    at false = filed k

unfinished_record-Agrees :
    (owner : String) (current : Option String) (expires : ℕ) (receipt : Option PublishedIssue)
    (d : IntentDocument)
    → Agrees (record { owner = current; expires_at = expires; receipt = receipt }) d
    → Memory.is_unfinished_claim owner
        (some (record { owner = current; expires_at = expires; receipt = receipt }))
      ≡ Documents.is_unfinished_claim owner (some d)
unfinished_record-Agrees owner current expires none d (open_, same, until) =
    rw (open_, same, Documents.is_unfinished_claim) refl
unfinished_record-Agrees owner current expires (some receipt) d (finished, same) =
    rw (finished, Documents.is_unfinished_claim) refl

pub unfinished-agrees :
    (owner : String) (r : Option IssueIntentRecord) (d : Option IntentDocument)
    → IsFiled r d
    → Memory.is_unfinished_claim owner r ≡ Documents.is_unfinished_claim owner d
unfinished-agrees owner none none h = refl
unfinished-agrees owner (some r) (some d) h =
    unfinished_record-Agrees owner r.owner r.expires_at r.receipt d h
unfinished-agrees owner none (some d) h = absurd h
unfinished-agrees owner (some r) none h = absurd h
