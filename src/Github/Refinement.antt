-- ===== src/Github/Refinement.antt =====
-- The Firestore store of github.py behaves as the store in memory that it replaces.
pub mod Intents
pub mod Publishing
pub mod Tokens
pub mod Handshake
pub mod Answers
use i_promise.Base.{
  ℕ, ◌≤◌, ◌≡◌, ◌≢◌, refl, sym, ap, ◌∙◌, inl, inr, Bool, true, false, not, ◌&&◌, String, Option,
  none, some, List, [], ◌∷◌, arith, ltb, leb, if◌then◌else◌, ◌==◌, string_eq, beq_self, beq_ne,
  Bool-cases, Option-cases,
}
use i_promise.Dict.{
  Dict, lookup, insert, erase, keep, keep_if, lookup-insert, lookup-erase, lookup-keep,
}
use i_promise.Errors.{Result, ok, err}
use i_promise.Github.{
  PublishedIssue, PendingOauth, Connection, StoreCall, adding_install, consuming_install,
  adding_oauth, consuming_oauth, saving_connection, reading_connection, selecting, disconnecting,
  claiming, completing, releasing, StoreReply, answers, selected,
}
use i_promise.Github.Memory
use i_promise.Github.Memory.{InMemoryGitHubStore, IssueIntentRecord, new_store}
use i_promise.Github.Documents
use i_promise.Github.Documents.{
  FirestoreGitHubStore, StateDocument, install, oauth, IntentDocument, new_database,
  encode_issue_receipt, decode_issue_receipt, completed_receipt,
}

-- What is left of an entry when those that expire before `now` are gone.
abbrev pub live {ℓ} : {V : Type ℓ} → (V → ℕ) → ℕ → Option V → Option V
live expiry now o = keep_if (λ v. leb now (expiry v)) o

module _ {ℓ} {V : Type ℓ} (expiry : V → ℕ) where
  live-live : (now : ℕ) (o : Option V) → live expiry now (live expiry now o) ≡ live expiry now o
  live-live now none = refl
  live-live now (some v) = ground arith

  live-earlier :
      (clock now : ℕ) (o : Option V)
      → clock ≤ now
      → live expiry now (live expiry clock o) ≡ live expiry now o
  live-earlier clock now none le = refl
  live-earlier clock now (some v) le = ground arith

  -- What agreed on the live entries still does, later.
  pub live-later :
      (clock now : ℕ) (left right : Option V)
      → clock ≤ now
      → live expiry clock left ≡ live expiry clock right
      → live expiry now left ≡ live expiry now right
  live-later clock now left right le h =
      sym (live-earlier clock now left le)
      ∙ ap (live expiry now) h
      ∙ live-earlier clock now right le

  -- After `drop_expired`.
  pub live-keep :
      (now : ℕ) (k : String) (d : Dict String V)
      → live expiry now (lookup k (keep (λ v. leb now (expiry v)) d)) ≡ live expiry now (lookup k d)
  live-keep now k d =
      ap (live expiry now) (lookup-keep (λ v. leb now (expiry v)) k d) ∙ live-live now (lookup k d)

-- What a state document says of an installation, and of an authorisation.
abbrev pub install_in : Option StateDocument → Option ℕ
install_in (some (install expires_at)) = some expires_at
install_in _ = none

abbrev pub oauth_in : Option StateDocument → Option PendingOauth
oauth_in (some (oauth installation_id verifier expires_at)) =
    some
      (record { installation_id = installation_id; verifier = verifier; expires_at = expires_at })
oauth_in _ = none

abbrev pub own : ℕ → ℕ
own n = n

-- The record of a finding and its document: a claim with the same owner and expiry, or the same receipt.
abbrev pub Agrees : IssueIntentRecord → IntentDocument → Type 0
Agrees r d = elim r.receipt [
  | none ↦
      ((d.status == "COMPLETE") ≡ false) × (d.owner ≡ r.owner) × (d.lease_expires_at ≡ r.expires_at)
  | some receipt ↦
      ((d.status == "COMPLETE") ≡ true) × (d.receipt ≡ some (encode_issue_receipt receipt))
]

abbrev pub IsFiled : Option IssueIntentRecord → Option IntentDocument → Type 0
IsFiled none none = Unit
IsFiled (some r) (some d) = Agrees r d
IsFiled _ _ = ⊥

pub data StateKind : Type 0 where
  for_install for_oauth unissued : StateKind

-- No two of the states that were issued are filed under the same name.
abbrev pub AreSeparate : (String → String) → (String → StateKind) → Type 0
AreSeparate state_id kind =
    (a b : String) → kind a ≢ unissued → kind b ≢ unissued → state_id a ≡ state_id b → a ≡ b

module _ (state_id : String → String) (kind : String → StateKind) where
  pub record Matches (clock : ℕ) (m : InMemoryGitHubStore) (f : FirestoreGitHubStore) : Type 0 where
    pub installs :
        (state : String)
        → kind state ≡ for_install
        → live own clock (lookup state m.install_states)
          ≡ live own clock (install_in (lookup (state_id state) f.states))
    pub oauths :
        (state : String)
        → kind state ≡ for_oauth
        → live PendingOauth.expires_at clock (lookup state m.oauth_states)
          ≡ live PendingOauth.expires_at clock (oauth_in (lookup (state_id state) f.states))
    pub connections : m.connection ≡ Documents.connection f
    pub intents :
        (fingerprint : String)
        → IsFiled (lookup fingerprint m.issue_intents) (lookup fingerprint f.issue_intents)
