-- ===== src/DemoSaas/Audit.antt =====
-- The control run against the product under test: what it finds.
use i_promise.Base.{
  ℕ, ◌-◌, ◌*◌, ◌≤◌, ◌≡◌, refl, true, false, String, some, List, [], ◌∷◌, map, arith, string_eq,
  beq_self,
}
use text.Mathlib.TextEquality.{eq_iff}
use i_promise.Dict.{
  Dict, lookup, contains, insert, erase, lookup-insert, lookup-erase, contains-insert,
}
use i_promise.Signed.{ℤ, pos, hour}
use i_promise.Models.{EvidenceResult, contradicted}
use i_promise.Errors.{ok}
use i_promise.Control.{
  ControlOutcome, SeededFixture, ProcessedDeletion, InspectedState, execute, judge,
}
use i_promise.DemoSaas.{
  SyntheticStore, Profile, ProcessDeletionResponse, account_id_of, seed, process_deletion, inspect,
}
use i_promise.DemoSaas.Client.{
  Deployment, served, http_client, is_valid_request, post_seed, post_process_deletion, get_state,
}

lookup_inserted {ℓ} :
    {V : Type ℓ} (k : String) (v : V) (d : Dict String V) → lookup k (insert k v d) ≡ some v
lookup_inserted k v d = rw (lookup-insert k k v d, beq_self k) refl

contains_inserted {ℓ} :
    {V : Type ℓ} (k : String) (v : V) (d : Dict String V) → contains k (insert k v d) ≡ true
contains_inserted k v d = rw (contains-insert k k v d, beq_self k) refl

contains_erased {ℓ} : {V : Type ℓ} (k : String) (d : Dict String V) → contains k (erase k d) ≡ false
contains_erased k d = rw (contains, lookup-erase k k d, beq_self k) refl

-- The stores hold a fixture whose deletion was requested 25 hours before it is observed.
record IsSeeded (account_id : String) (observed : ℕ) (s : SyntheticStore) : Type 0 where
  known : contains account_id s.known_fixtures ≡ true
  requested : lookup account_id s.deletion_requests ≡ some (observed - 25 * hour)
  observation : lookup account_id s.virtual_observations ≡ some observed
  analytics : contains account_id s.analytics_profiles ≡ true
  profile : Profile
  stored : lookup account_id s.profiles ≡ some profile

seed-IsSeeded :
    (sha256 : String → String) (now : ℕ) (run_id : String) (s : SyntheticStore)
    → IsSeeded (account_id_of sha256 run_id) now (seed sha256 now run_id 25 s).1
unfolding seed
seed-IsSeeded sha256 now run_id s =
    let a = account_id_of sha256 run_id in
    record {
      known = contains_inserted a tt s.known_fixtures;
      requested = lookup_inserted a _ s.deletion_requests;
      observation = lookup_inserted a _ s.virtual_observations;
      analytics = contains_inserted a _ s.analytics_profiles;
      profile = _;
      stored = lookup_inserted a _ s.profiles;
    }

-- The stores after the worker has processed the deletion.
record IsProcessed (account_id : String) (observed : ℕ) (s : SyntheticStore) : Type 0 where
  known : contains account_id s.known_fixtures ≡ true
  requested : lookup account_id s.deletion_requests ≡ some (observed - 25 * hour)
  observation : lookup account_id s.virtual_observations ≡ some observed
  app : contains account_id s.profiles ≡ false
  analytics : contains account_id s.analytics_profiles ≡ true

process_deletion-IsProcessed :
    (account_id : String) (observed : ℕ) (s : SyntheticStore)
    → IsSeeded account_id observed s
    → let (response, after) = process_deletion account_id s in
      (processed : ProcessDeletionResponse) × (response ≡ some processed)
      × (processed.virtual_processing_elapsed_hours ≡ 1)
      × IsProcessed account_id observed after
unfolding process_deletion
process_deletion-IsProcessed account_id observed s seeded =
    rw (seeded.stored, seeded.known, process_deletion)
      (
        _,
        refl,
        refl,
        record {
          known = seeded.known;
          requested = seeded.requested;
          observation = seeded.observation;
          app = contains_erased account_id s.profiles;
          analytics = seeded.analytics;
        },
      )

inspect_lem :
    (now : ℕ) (account_id : String) (observed : ℕ) (s : SyntheticStore)
    → 25 * hour ≤ observed
    → IsProcessed account_id observed s
    → let state = inspect now account_id s in
      (state.profile_exists ≡ some false)
      × (state.analytics_profile_exists ≡ some true)
      × (state.virtual_observation_elapsed ≡ some (pos (25 * hour)))
unfolding inspect
inspect_lem now account_id observed s late p =
    (ground (arith, p), ground (arith, p), rw (p.requested, p.observation) (ground arith))

-- The answers of the three requests of one audit.
record Answers (d : Deployment) (run_id : String) (s : SyntheticStore) : Type 0 where
  processed : ProcessedDeletion
  state : InspectedState
  in_time : processed.virtual_processing_elapsed ≡ pos hour
  late : state.virtual_observation_elapsed ≡ some (pos (25 * hour))
  app : state.profile_exists ≡ some false
  analytics : state.analytics_profile_exists ≡ some true
  executed :
      (format_2f : ℤ → String)
      → (execute format_2f (http_client d) run_id s).0
        ≡ ok (
            judge format_2f (record { account_id = account_id_of d.sha256 run_id }) processed state)

module _ (d : Deployment) (token : d.token ≡ d.expected_token) where
  posted :
      (run_id : String) (s : SyntheticStore)
      → is_valid_request run_id 25 ≡ true
      → post_seed d run_id 25 s ≡ (
        served (record { account_id = account_id_of d.sha256 run_id }),
        (seed d.sha256 d.seeded_now run_id 25 s).1,
      )
  unfolding post_seed
  posted run_id s valid = ground (arith, eq_iff d.token d.expected_token)

  processed_request :
      (account_id : String) (s : SyntheticStore) (response : ProcessDeletionResponse)
      → (process_deletion account_id s).0 ≡ some response
      → post_process_deletion d account_id s ≡ (
        served (record {
          virtual_processing_elapsed = pos (response.virtual_processing_elapsed_hours * hour);
        }),
        (process_deletion account_id s).1,
      )
  unfolding post_process_deletion
  processed_request account_id s response h = ground (arith, eq_iff d.token d.expected_token)

  state_of : String → SyntheticStore → InspectedState
  state_of account_id s =
      let state = inspect d.inspected_now account_id s in
      record {
        known_fixture = state.known_fixture;
        profile_exists = state.profile_exists;
        analytics_profile_exists = state.analytics_profile_exists;
        virtual_observation_elapsed = state.virtual_observation_elapsed;
      }

  inspected :
      (account_id : String) (s : SyntheticStore)
      → get_state d account_id s ≡ (served (state_of account_id s), s)
  unfolding get_state state_of
  inspected account_id s = ground (arith, eq_iff d.token d.expected_token)

  answers :
      (run_id : String) (s : SyntheticStore)
      → is_valid_request run_id 25 ≡ true
      → 25 * hour ≤ d.seeded_now
      → Answers d run_id s
  unfolding execute http_client state_of
  answers run_id s valid late =
      let a = account_id_of d.sha256 run_id in
      let seeded = (seed d.sha256 d.seeded_now run_id 25 s).1 in
      let (response, is_some, one_hour, after) =
        process_deletion-IsProcessed a d.seeded_now seeded
          (seed-IsSeeded d.sha256 d.seeded_now run_id s) in
      let processed = (process_deletion a seeded).1 in
      let found = inspect_lem d.inspected_now a d.seeded_now processed late after in
      record {
        processed = record {
          virtual_processing_elapsed = pos (response.virtual_processing_elapsed_hours * hour);
        };
        state = state_of a processed;
        in_time = rw one_hour refl;
        late = found.2;
        app = found.0;
        analytics = found.1;
        executed = λ format_2f.
            rw (posted run_id s valid)
              (rw (processed_request a seeded response is_some) (rw (inspected a processed) refl));
      }

abbrev pub results_of : ControlOutcome → List EvidenceResult
results_of outcome = map (λ item. item.result) outcome.evidence

-- The control over the client, the handlers and the stores of the product, whatever these hold before:
-- it finds that the deletion was processed in time, that the app profile is removed and that the
-- analytics profile remains, so the promise is contradicted. The request must be accepted: the tokens
-- are equal, the run id has 8 to 128 characters, and the clock of the service is past its first 25
-- hours.
pub execute-verdict :
    (format_2f : ℤ → String) (d : Deployment) (run_id : String) (s : SyntheticStore)
    → d.token ≡ d.expected_token
    → is_valid_request run_id 25 ≡ true
    → 25 * hour ≤ d.seeded_now
    → (outcome : ControlOutcome) × ((execute format_2f (http_client d) run_id s).0 ≡ ok outcome)
      × (outcome.verdict ≡ contradicted)
      × (results_of outcome ≡ EvidenceResult.pass ∷ EvidenceResult.pass ∷ EvidenceResult.fail ∷ [])
unfolding judge
execute-verdict format_2f d run_id s token valid late =
    let found = answers d token run_id s valid late in
    let fixture : SeededFixture = record { account_id = account_id_of d.sha256 run_id } in
    let outcome = judge format_2f fixture found.processed found.state in
    (
      outcome,
      found.executed format_2f,
      ground (arith, found.in_time, found.late, found.app, found.analytics),
      ground (arith, found.in_time, found.late, found.app, found.analytics),
    )
