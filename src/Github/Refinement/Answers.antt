-- ===== src/Github/Refinement/Answers.antt =====
-- Every sequence of calls has the same replies from both stores of github.py.
use i_promise.Base.{
  ℕ, ◌≤◌, ◌≡◌, refl, sym, ap, String, Option, none, some, List, [], ◌∷◌, string_eq,
}
use i_promise.Errors.{Result, ok, err}
use i_promise.Github.{
  Connection, StoreCall, adding_install, consuming_install, adding_oauth, consuming_oauth,
  saving_connection, reading_connection, selecting, disconnecting, claiming, completing, releasing,
  was_consumed, had_pending, has_connection, was_claimed, was_completed, now_selected, wrap,
  answers, selected,
}
use i_promise.Github.Memory
use i_promise.Github.Memory.{InMemoryGitHubStore, new_store}
use i_promise.Github.Documents
use i_promise.Github.Documents.{
  FirestoreGitHubStore, ConnectionDocument, new_database, encode_connection, decode_connection,
}
use i_promise.Github.Refinement.{StateKind, for_install, for_oauth, AreSeparate, Matches}
use i_promise.Github.Refinement.Publishing.{
  IsAnswered, claim_issue_intent-Matches, complete_issue_intent-Matches,
  release_issue_intent-Matches,
}
use i_promise.Github.Refinement.Handshake.{
  Matches-later, add_install_state-Matches, consume_install_state-Matches, add_oauth_state-Matches,
  consume_oauth_state-Matches,
}

-- A state is only used for what it was issued for.
abbrev pub IsProper : (String → StateKind) → StoreCall → Type 0
IsProper kind (adding_install state expires_at) = kind state ≡ for_install
IsProper kind (consuming_install state) = kind state ≡ for_install
IsProper kind (adding_oauth state pending) = kind state ≡ for_oauth
IsProper kind (consuming_oauth state) = kind state ≡ for_oauth
IsProper kind _ = Unit

-- The calls come in the order of their times, from `clock` on.
abbrev pub AreProper : (String → StateKind) → ℕ → List (ℕ × StoreCall) → Type 0
AreProper kind clock [] = Unit
AreProper kind clock ((now, call) ∷ rest) =
    (clock ≤ now) × IsProper kind call × AreProper kind now rest

module _ (state_id : String → String) (kind : String → StateKind)
    (separate : AreSeparate state_id kind) where
  -- A connection that is written in both stores.
  with_connection :
      (now : ℕ) (c : Option Connection) (document : Option ConnectionDocument)
      (m : InMemoryGitHubStore) (f : FirestoreGitHubStore)
      → Matches state_id kind now m f
      → c ≡ Documents.connection (record f { active = document })
      → Matches state_id kind now (record m { connection = c }) (record f { active = document })
  with_connection now c document m f h same = record {
    installs = h.installs;
    oauths = h.oauths;
    connections = same;
    intents = h.intents;
  }

  saved :
      (now : ℕ) (c : Connection) (m : InMemoryGitHubStore) (f : FirestoreGitHubStore)
      → Matches state_id kind now m f
      → Matches state_id kind now
          (record m { connection = some c })
          (record f { active = some (encode_connection now c) })
  unfolding Documents.connection encode_connection decode_connection
  saved now c m f h = with_connection now (some c) (some (encode_connection now c)) m f h refl

  keep_selected-Matches :
      (now : ℕ) (result : Result Connection) (m : InMemoryGitHubStore) (f : FirestoreGitHubStore)
      → Matches state_id kind now m f
      → IsAnswered state_id kind now
          (Memory.keep_selected result m)
          (Documents.keep_selected now result f)
  keep_selected-Matches now (ok c) m f h = (refl, saved now c m f h)
  keep_selected-Matches now (err e) m f h = (refl, h)

  select_at-Matches :
      (now repository_id : ℕ) (m : InMemoryGitHubStore) (f : FirestoreGitHubStore)
      (c : Option Connection) (document : Option ConnectionDocument)
      → Matches state_id kind now m f
      → c ≡ Documents.connection_at document
      → IsAnswered state_id kind now
          (Memory.select_at repository_id c m)
          (Documents.select_at now repository_id document f)
  unfolding Memory.select_at Documents.select_at
  select_at-Matches now repository_id m f c none h e = rw e (refl, h)
  select_at-Matches now repository_id m f c (some document) h e =
      rw e (keep_selected-Matches now (selected repository_id (decode_connection document)) m f h)

  -- One call gives the same reply, and stores that match.
  step-Matches :
      (now : ℕ) (call : StoreCall) (m : InMemoryGitHubStore) (f : FirestoreGitHubStore)
      → IsProper kind call
      → Matches state_id kind now m f
      → IsAnswered state_id kind now (Memory.step now call m) (Documents.step state_id now call f)
  unfolding Memory.step Documents.step Memory.select Documents.select Documents.connection
  step-Matches now (adding_install state expires_at) m f k h =
      (refl, add_install_state-Matches state_id kind separate now m f h state expires_at k)
  step-Matches now (consuming_install state) m f k h =
      let (same, next) = consume_install_state-Matches state_id kind separate now m f h state k in
      (ap (λ b. ok (was_consumed b)) same, next)
  step-Matches now (adding_oauth state pending) m f k h =
      (refl, add_oauth_state-Matches state_id kind separate now m f h state pending k)
  step-Matches now (consuming_oauth state) m f k h =
      let (same, next) = consume_oauth_state-Matches state_id kind separate now m f h state k in
      (ap (λ p. ok (had_pending p)) same, next)
  step-Matches now (saving_connection c) m f k h = (refl, saved now c m f h)
  step-Matches now reading_connection m f k h = (ap (λ c. ok (has_connection c)) h.connections, h)
  step-Matches now (selecting repository_id) m f k h =
      let (same, next) =
        select_at-Matches now repository_id m f m.connection f.active h h.connections in
      (ap (wrap now_selected) same, next)
  step-Matches now disconnecting m f k h = (refl, with_connection now none none m f h refl)
  step-Matches now (claiming fingerprint owner lease_seconds) m f k h =
      let (same, next) =
        claim_issue_intent-Matches state_id kind now fingerprint owner lease_seconds m f h in
      (ap (λ c. ok (was_claimed c)) same, next)
  step-Matches now (completing fingerprint owner receipt) m f k h =
      let (same, next) =
        complete_issue_intent-Matches state_id kind now fingerprint owner receipt m f h in
      (ap (wrap was_completed) same, next)
  step-Matches now (releasing fingerprint owner) m f k h =
      (refl, release_issue_intent-Matches state_id kind now fingerprint owner m f h)

  answers-Matches :
      (clock : ℕ) (calls : List (ℕ × StoreCall)) (m : InMemoryGitHubStore)
      (f : FirestoreGitHubStore)
      → AreProper kind clock calls
      → Matches state_id kind clock m f
      → answers Memory.step calls m ≡ answers (Documents.step state_id) calls f
  unfolding answers
  answers-Matches clock [] m f h same = refl
  answers-Matches clock ((now, call) ∷ rest) m f (later, proper, others) same =
      let (reply, next) =
        step-Matches now call m f proper
          (Matches-later state_id kind separate clock now m f later same) in
      rw reply (
        ap (λ l. (Documents.step state_id now call f).0 ∷ l)
          (answers-Matches now rest (Memory.step now call m).1
            (Documents.step state_id now call f).1 others next))

-- The store in Firestore refines the store in memory: from empty stores, every sequence of calls gets
-- the same replies, results and exceptions, from both, if the times of the calls do not go back, each
-- state of the handshake is used only for what it was issued for, and no two issued states are filed
-- under the same name.
pub answers-refine :
    (state_id : String → String) (kind : String → StateKind) (calls : List (ℕ × StoreCall))
    → AreSeparate state_id kind
    → AreProper kind 0 calls
    → answers (Documents.step state_id) calls new_database ≡ answers Memory.step calls new_store
unfolding Documents.connection
answers-refine state_id kind calls separate proper = sym (
    answers-Matches state_id kind separate 0 calls new_store new_database proper (record {
      installs = λ s k. refl;
      oauths = λ s k. refl;
      connections = refl;
      intents = λ fingerprint. tt;
    }))
