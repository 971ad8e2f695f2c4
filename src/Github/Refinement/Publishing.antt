-- ===== src/Github/Refinement/Publishing.antt =====
-- The three calls about an intent, in both stores of github.py.
use i_promise.Base.{
  ℕ, ◌≡◌, refl, sym, Bool, true, false, String, Option, none, some, if◌then◌else◌, string_eq,
}
use i_promise.Dict.{Dict, lookup}
use i_promise.Github.{PublishedIssue}
use i_promise.Github.Memory
use i_promise.Github.Memory.{InMemoryGitHubStore, IssueIntentRecord}
use i_promise.Github.Documents
use i_promise.Github.Documents.{
  FirestoreGitHubStore, IntentDocument, encode_issue_receipt, completed_receipt,
}
use i_promise.Github.Refinement.{Agrees, IsFiled, Matches, StateKind}
use i_promise.Github.Refinement.Intents.{
  claim_of-agrees, insert-IsFiled, erase-IsFiled, unfinished-agrees, completed_receipt_open,
  completed_receipt_complete,
}

module _ (state_id : String → String) (kind : String → StateKind) (now : ℕ) where
  -- Stores that match still do when the intents change alike.
  with_intents :
      (m : InMemoryGitHubStore) (f : FirestoreGitHubStore) (records : Dict String IssueIntentRecord)
      (documents : Dict String IntentDocument)
      → Matches state_id kind now m f
      → ((k : String) → IsFiled (lookup k records) (lookup k documents))
      → Matches state_id kind now
          (record m { issue_intents = records })
          (record f { issue_intents = documents })
  unfolding Documents.connection
  with_intents m f records documents h filed = record {
    installs = h.installs;
    oauths = h.oauths;
    connections = h.connections;
    intents = filed;
  }

  changed_if :
      (b : Bool) (m m' : InMemoryGitHubStore) (f f' : FirestoreGitHubStore)
      → Matches state_id kind now m' f'
      → Matches state_id kind now m f
      → Matches state_id kind now (if b then m' else m) (if b then f' else f)
  changed_if true m m' f f' new old = new
  changed_if false m m' f f' new old = old

  -- The same result, and stores that match.
  abbrev pub IsAnswered : {A : Type 0} → A × InMemoryGitHubStore → A × FirestoreGitHubStore → Type 0
  IsAnswered p q = (p.0 ≡ q.0) × Matches state_id kind now p.1 q.1

  pub claim_issue_intent-Matches :
      (fingerprint owner : String) (lease_seconds : ℕ) (m : InMemoryGitHubStore)
      (f : FirestoreGitHubStore)
      → Matches state_id kind now m f
      → IsAnswered
          (Memory.claim_issue_intent now fingerprint owner lease_seconds m)
          (Documents.claim_issue_intent now fingerprint owner lease_seconds f)
  unfolding Memory.claim_issue_intent Documents.claim_issue_intent
  claim_issue_intent-Matches fingerprint owner lease_seconds m f h =
      rw
        (sym (
          claim_of-agrees now owner (lookup fingerprint m.issue_intents)
            (lookup fingerprint f.issue_intents) (h.intents fingerprint)))
        (
          refl,
          changed_if _ m _ f _
              (with_intents m f _ _ h (
                insert-IsFiled fingerprint _ _ m.issue_intents f.issue_intents (refl, refl, refl)
                  h.intents))
              h,
        )

  pub release_issue_intent-Matches :
      (fingerprint owner : String) (m : InMemoryGitHubStore) (f : FirestoreGitHubStore)
      → Matches state_id kind now m f
      → Matches state_id kind now
          (Memory.release_issue_intent fingerprint owner m)
          (Documents.release_issue_intent fingerprint owner f)
  unfolding Memory.release_issue_intent Documents.release_issue_intent
  release_issue_intent-Matches fingerprint owner m f h =
      rw
        (sym (
          unfinished-agrees owner (lookup fingerprint m.issue_intents)
            (lookup fingerprint f.issue_intents) (h.intents fingerprint)))
        (changed_if _ m _ f _
          (with_intents m f _ _ h
            (erase-IsFiled fingerprint m.issue_intents f.issue_intents h.intents))
          h)

  IsAnswered-if :
      {A : Type 0} (b : Bool) (p p' : A × InMemoryGitHubStore) (q q' : A × FirestoreGitHubStore)
      → IsAnswered p q
      → IsAnswered p' q'
      → IsAnswered (if b then p else p') (if b then q else q')
  IsAnswered-if true p p' q q' new old = new
  IsAnswered-if false p p' q q' new old = old

  complete_record-Matches :
      (fingerprint owner : String) (receipt : PublishedIssue) (m : InMemoryGitHubStore)
      (f : FirestoreGitHubStore) (current : Option String) (expires : ℕ)
      (first : Option PublishedIssue) (d : IntentDocument)
      → Matches state_id kind now m f
      → Agrees (record { owner = current; expires_at = expires; receipt = first }) d
      → IsAnswered
          (Memory.complete_at fingerprint owner receipt
            (some (record { owner = current; expires_at = expires; receipt = first }))
            m)
          (Documents.complete_at now fingerprint owner receipt (some d) f)
  unfolding Memory.complete_at Documents.complete_at
  complete_record-Matches fingerprint owner receipt m f current expires none d h
        (open_, same, until) =
      rw (completed_receipt_open d open_, same, Documents.complete_at)
        (IsAnswered-if _ _ _ _ _
          (
            refl,
            with_intents m f _ _ h (
                insert-IsFiled fingerprint _ _ m.issue_intents f.issue_intents (refl, refl)
                  h.intents),
          )
          (refl, h))
  complete_record-Matches fingerprint owner receipt m f current expires (some first) d h
        (finished, same) =
      rw (completed_receipt_complete d first finished same, Documents.complete_at) (refl, h)

  complete_at-Matches :
      (fingerprint owner : String) (receipt : PublishedIssue) (m : InMemoryGitHubStore)
      (f : FirestoreGitHubStore) (r : Option IssueIntentRecord) (d : Option IntentDocument)
      → Matches state_id kind now m f
      → IsFiled r d
      → IsAnswered
          (Memory.complete_at fingerprint owner receipt r m)
          (Documents.complete_at now fingerprint owner receipt d f)
  unfolding Memory.complete_at Documents.complete_at
  complete_at-Matches fingerprint owner receipt m f none none h same = (refl, h)
  complete_at-Matches fingerprint owner receipt m f (some r) (some d) h same =
      complete_record-Matches fingerprint owner receipt m f r.owner r.expires_at r.receipt d h same
  complete_at-Matches fingerprint owner receipt m f none (some d) h same = absurd same
  complete_at-Matches fingerprint owner receipt m f (some r) none h same = absurd same

  pub complete_issue_intent-Matches :
      (fingerprint owner : String) (receipt : PublishedIssue) (m : InMemoryGitHubStore)
      (f : FirestoreGitHubStore)
      → Matches state_id kind now m f
      → IsAnswered
          (Memory.complete_issue_intent fingerprint owner receipt m)
          (Documents.complete_issue_intent now fingerprint owner receipt f)
  unfolding Memory.complete_issue_intent Documents.complete_issue_intent
  complete_issue_intent-Matches fingerprint owner receipt m f h =
      complete_at-Matches fingerprint owner receipt m f (lookup fingerprint m.issue_intents)
        (lookup fingerprint f.issue_intents) h (h.intents fingerprint)
