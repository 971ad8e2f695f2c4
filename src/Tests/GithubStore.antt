-- ===== src/Tests/GithubStore.antt =====
-- Tests of the stores of Github.
use i_promise.Base.{
  ℕ, ◌≤◌, ◌≡◌, refl, true, false, String, none, some, List, [], ◌∷◌, arith, if◌then◌else◌, ◌==◌,
  string_eq,
}
use i_promise.Dict.{lookup}
use i_promise.Errors.{ok, err, publish_uncertain}
use i_promise.Github.{
  PublishedIssue, PendingOauth, as_reconciled, StoreCall, claiming, completing, adding_oauth,
  consuming_oauth, adding_install, consuming_install, releasing, answers, after, was_consumed,
  was_claimed, was_completed, had_pending, done,
}
use i_promise.Github.Memory
use i_promise.Github.Memory.{
  InMemoryGitHubStore, new_store, step, claim_issue_intent, claim_of, complete_issue_intent,
  complete_at, consume_oauth_state, consume_install_state, add_oauth_state, add_install_state,
  drop_expired, release_issue_intent,
}
use i_promise.Github.Documents
use i_promise.Github.Documents.{new_database}
use i_promise.Github.Refinement.{StateKind, for_install, for_oauth, AreSeparate}
use i_promise.Github.Refinement.Answers.{answers-refine}
use i_promise.Github.Publications.{complete_issue_intent-lasts}
use i_promise.Github.Exclusion.{claim_issue_intent-excludes}
use i_promise.Github.Handoff.{consume_oauth_state-once}

abbrev issue_receipt : PublishedIssue
issue_receipt = record {
  url = "https://github.com/kostakarathana/iPromise/issues/4";
  number = 4;
  remote_id = 99;
  reconciled = false;
}

abbrev pending : PendingOauth
pending = record { installation_id = 5; verifier = "v"; expires_at = 600 }

-- An installation, its authorisation, and two workers that publish the same finding.
abbrev calls : List (ℕ × StoreCall)
calls =
    (1, adding_install "i" 600)
    ∷ (2, consuming_install "i")
    ∷ (3, adding_oauth "o" pending)
    ∷ (4, consuming_oauth "o")
    ∷ (5, claiming "f" "worker_a" 300)
    ∷ (6, claiming "f" "worker_b" 300)
    ∷ (7, completing "f" "worker_a" issue_receipt)
    ∷ (8, claiming "f" "worker_b" 300)
    ∷ []

abbrev kind : String → StateKind
kind state = if state == "i" then for_install else for_oauth

replies :
    answers step calls new_store
    ≡ ok done
      ∷ ok (was_consumed true)
      ∷ ok done
      ∷ ok (had_pending (some pending))
      ∷ ok (was_claimed (record { acquired = true; receipt = none }))
      ∷ ok (was_claimed (record { acquired = false; receipt = none }))
      ∷ ok (was_completed issue_receipt)
      ∷ ok (was_claimed (record { acquired = false; receipt = some (as_reconciled issue_receipt) }))
      ∷ []
unfolding answers step claim_issue_intent claim_of complete_issue_intent complete_at
    consume_oauth_state consume_install_state add_oauth_state add_install_state drop_expired
replies = refl

separate : AreSeparate (λ state. state) kind
separate a b issued issued' same = same

answers-refine_example :
    answers (Documents.step (λ state. state)) calls new_database
    ≡ answers Memory.step calls new_store
answers-refine_example =
    answers-refine (λ state. state) kind calls separate
      (
        omega arith,
        refl,
        (
          omega arith,
          refl,
          (
            omega arith,
            refl,
            (
              omega arith,
              refl,
              (omega arith, tt, (omega arith, tt, (omega arith, tt, (omega arith, tt, tt)))),
            ),
          ),
        ),
      )

abbrev claimed : InMemoryGitHubStore
claimed = after step ((5, claiming "f" "worker_a" 300) ∷ []) new_store

completes : (complete_issue_intent "f" "worker_a" issue_receipt claimed).0 ≡ ok issue_receipt
unfolding after step claim_issue_intent claim_of complete_issue_intent complete_at
completes = refl

abbrev afterwards : List (ℕ × StoreCall)
afterwards = (9, releasing "f" "worker_a") ∷ (10, completing "f" "worker_b" issue_receipt) ∷ []

abbrev completed : InMemoryGitHubStore
completed = after step afterwards (complete_issue_intent "f" "worker_a" issue_receipt claimed).1

complete_issue_intent-lasts_example :
    (claim_issue_intent 11 "f" "worker_b" 300 completed
      ≡ (record { acquired = false; receipt = some (as_reconciled issue_receipt) }, completed))
    × (complete_issue_intent "f" "worker_b" issue_receipt completed
        ≡ (ok (as_reconciled issue_receipt), completed))
complete_issue_intent-lasts_example =
    complete_issue_intent-lasts "f" "worker_a" "worker_b" issue_receipt issue_receipt 11 300
      afterwards claimed completes

acquires : (claim_issue_intent 5 "f" "worker_a" 300 new_store).0.acquired ≡ true
unfolding claim_issue_intent claim_of
acquires = refl

abbrev rival_calls : List (ℕ × StoreCall)
rival_calls = (6, claiming "f" "worker_b" 300) ∷ (7, releasing "f" "worker_b") ∷ []

abbrev contended : InMemoryGitHubStore
contended = after step rival_calls (claim_issue_intent 5 "f" "worker_a" 300 new_store).1

claim_issue_intent-excludes_example :
    (claim_issue_intent 8 "f" "worker_b" 300 contended
      ≡ (record { acquired = false; receipt = none }, contended))
    × (complete_issue_intent "f" "worker_b" issue_receipt contended ≡ (
      err (publish_uncertain "GitHub issue intent ownership changed before completion"),
      contended,
    ))
    × ((complete_issue_intent "f" "worker_a" issue_receipt contended).0 ≡ ok issue_receipt)
claim_issue_intent-excludes_example =
    claim_issue_intent-excludes 5 300 8 300 "f" "worker_a" "worker_b" issue_receipt rival_calls
      new_store acquires (omega arith, refl, (omega arith, refl, tt)) (omega arith)
      (λ e. ground (arith, string_eq.same_iff "worker_b" "worker_a"))

abbrev with_state : InMemoryGitHubStore
with_state = record new_store { oauth_states = ("o", pending) ∷ [] }

obtains : (consume_oauth_state 4 "o" with_state).0 ≡ some pending
unfolding consume_oauth_state
obtains = refl

consume_oauth_state-once_example :
    (lookup "o" with_state.oauth_states ≡ some pending)
    × (4 ≤ pending.expires_at)
    × ((consume_oauth_state 6 "o" (
          after step
            ((5, adding_oauth "p" pending) ∷ [])
            (consume_oauth_state 4 "o" with_state).1)).0
        ≡ none)
consume_oauth_state-once_example =
    consume_oauth_state-once 4 6 "o" ((5, adding_oauth "p" pending) ∷ []) with_state obtains
      (refl, tt)
