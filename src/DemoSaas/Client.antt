-- ===== src/DemoSaas/Client.antt =====
-- The client of the control, services/agent/src/ipromise_agent/demo_client.py, connected to the
-- handlers of apps/demo_saas/src/ipromise_demo/app.py: each request is one step on the stores. A
-- response with an error status raises at `raise_for_status()`.
use i_promise.Base.{
  ℕ, Bool, not, ◌&&◌, String, none, some, ltb, leb, if◌then◌else◌, ◌==◌, string_eq, ◌*◌,
}
use Prim.Native.String
use i_promise.Signed.{pos, hour}
use i_promise.Source.{CapturedSource}
use i_promise.Errors.{ok, err, other}
use i_promise.Exec.{Exec, pure}
use i_promise.Control.{SeededFixture, ProcessedDeletion, InspectedState, ReferenceClient}
use i_promise.DemoSaas.{SyntheticStore, seed, process_deletion, inspect}

-- The status of a request: it was served, or refused for its token (401), its body (422), or for
-- want of the fixture (404).
pub data Response (A : Type 0) : Type 0 where
  served : A → Response A
  unauthorized unprocessable not_found : Response A

-- `raise_for_status()`
abbrev pub body_of : {A : Type 0} → Response A × SyntheticStore → Exec SyntheticStore A
body_of (served a, after) s = (ok a, after)
body_of (_, after) s = (err (other "HTTPStatusError"), after)

-- What stands outside the code: the hash, the page that the client captures, the
-- tokens of the client and of the service, and the times of the requests.
pub record Deployment : Type 0 where
  pub sha256 : String → String
  pub page : CapturedSource
  pub token : String
  pub expected_token : String
  pub seeded_now : ℕ
  pub inspected_now : ℕ

-- `SeedAccountRequest`: `run_id` has 8 to 128 characters, and the hours are above 24, up to 168.
abbrev pub is_valid_request : String → ℕ → Bool
is_valid_request run_id hours_ago =
    leb 8 (String.count run_id)
    && leb (String.count run_id) 128
    && ltb 24 hours_ago
    && leb hours_ago 168

module _ (d : Deployment) where
  is_authorized : Bool
  is_authorized = d.token == d.expected_token

  unfoldable pub post_seed : String → ℕ → SyntheticStore → Response SeededFixture × SyntheticStore
  unfolding is_authorized seed
  post_seed run_id hours_ago s =
      if not is_authorized
      then (unauthorized, s)
      else if not (is_valid_request run_id hours_ago)
      then (unprocessable, s)
      else let (response, after) = seed d.sha256 d.seeded_now run_id hours_ago s in
        (served (record { account_id = response.account_id }), after)

  unfoldable pub post_process_deletion :
      String → SyntheticStore → Response ProcessedDeletion × SyntheticStore
  unfolding is_authorized process_deletion
  post_process_deletion account_id s =
      if not is_authorized
      then (unauthorized, s)
      else let (response, after) = process_deletion account_id s in
        elim response [
          | none ↦ (not_found, after)
          | some processed ↦ (
            served (record {
              virtual_processing_elapsed = pos (processed.virtual_processing_elapsed_hours * hour);
            }),
            after,
          )
        ]

  unfoldable pub get_state : String → SyntheticStore → Response InspectedState × SyntheticStore
  unfolding is_authorized inspect
  get_state account_id s =
      if not is_authorized
      then (unauthorized, s)
      else let state = inspect d.inspected_now account_id s in
        (
          served (record {
            known_fixture = state.known_fixture;
            profile_exists = state.profile_exists;
            analytics_profile_exists = state.analytics_profile_exists;
            virtual_observation_elapsed = state.virtual_observation_elapsed;
          }),
          s,
        )

  -- `HttpReferenceClient`, which always asks for a deletion requested 25 hours ago.
  unfoldable pub http_client : ReferenceClient SyntheticStore
  http_client = record {
    capture_privacy = pure d.page;
    seed_account = λ run_id s. body_of (post_seed run_id 25 s) s;
    process_deletion = λ account_id s. body_of (post_process_deletion account_id s) s;
    inspect_account = λ account_id s. body_of (get_state account_id s) s;
  }
