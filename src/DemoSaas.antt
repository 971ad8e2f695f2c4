-- ===== src/DemoSaas.antt =====
-- The product under test, apps/demo_saas/src/ipromise_demo: the two stores of store.py, and the
-- handlers of app.py with the request checks of models.py.
--
-- A `datetime` is a number of microseconds, and `now` is what `datetime.now(UTC)` returns. `sha256`
-- stands for the hexadecimal SHA-256 of a text, of which the account id has the first 32 digits.
-- Python's `RLock` makes each method one step.
pub mod Audit
pub mod Client
use i_promise.Base.{
  ℕ, ◌+◌, ◌-◌, ◌*◌, Bool, true, false, not, ◌&&◌, String, Option, none, some, List, [], ◌∷◌, ltb,
  leb, if◌then◌else◌, ◌==◌, string_eq,
}
use Prim.Native.String
use i_promise.Dict.{Dict, lookup, contains, insert, erase, values}
use i_promise.Lists.{length}
use i_promise.Text.{concat}
use i_promise.Signed.{ℤ, sub_ℕ, hour}

pub record Profile : Type 0 where
  pub account_id : String
  pub email : String
  pub seeded_at : ℕ
  pub deletion_requested_at : ℕ

pub record AnalyticsProfile : Type 0 where
  pub account_id : String
  pub activity_history : List String
  pub seeded_at : ℕ

-- The set of known fixtures is a dict to the unit type.
pub record SyntheticStore : Type 0 where
  pub profiles : Dict String Profile
  pub analytics_profiles : Dict String AnalyticsProfile
  pub deletion_requests : Dict String ℕ
  pub virtual_observations : Dict String ℕ
  pub virtual_processed : Dict String ℕ
  pub known_fixtures : Dict String (Unit {0})

abbrev pub new : SyntheticStore
new = record {
  profiles = [];
  analytics_profiles = [];
  deletion_requests = [];
  virtual_observations = [];
  virtual_processed = [];
  known_fixtures = [];
}

pub record SeedAccountResponse : Type 0 where
  pub account_id : String
  pub email : String
  pub seeded_at : ℕ
  pub virtual_deletion_requested_at : ℕ
  pub virtual_observation_at : ℕ
  pub virtual_observation_age_hours : ℕ
  pub stores : List String

pub record ProcessDeletionResponse : Type 0 where
  pub account_id : String
  pub virtual_deletion_requested_at : ℕ
  pub virtual_processed_at : ℕ
  pub virtual_processing_elapsed_hours : ℕ

pub record AccountStateResponse : Type 0 where
  pub account_id : String
  pub known_fixture : Bool
  pub profile_exists : Option Bool
  pub analytics_profile_exists : Option Bool
  pub virtual_deletion_requested_at : Option ℕ
  pub virtual_processed_at : Option ℕ
  pub virtual_observation_at : Option ℕ
  -- the elapsed hours, in microseconds
  pub virtual_observation_elapsed : Option ℤ
  pub inspected_at : ℕ

module _ (sha256 : String → String) where
  abbrev pub account_id_of : String → String
  account_id_of run_id = concat ("syn_" ∷ String.slice (sha256 run_id) 0 32 ∷ [])

  unfoldable pub seed : ℕ → String → ℕ → SyntheticStore → SeedAccountResponse × SyntheticStore
  seed now run_id hours_ago s =
      let requested_at = now - hours_ago * hour in
      let account_id = account_id_of run_id in
      let email = concat ("ipromise+" ∷ account_id ∷ "@example.invalid" ∷ []) in
      (
        record {
          account_id = account_id;
          email = email;
          seeded_at = now;
          virtual_deletion_requested_at = requested_at;
          virtual_observation_at = now;
          virtual_observation_age_hours = hours_ago;
          stores = "profiles" ∷ "analytics_profiles" ∷ [];
        },
        record s {
          profiles =
              insert account_id
                (record {
                  account_id = account_id;
                  email = email;
                  seeded_at = now;
                  deletion_requested_at = requested_at;
                })
                s.profiles;
          analytics_profiles =
              insert account_id
                (record {
                  account_id = account_id;
                  activity_history =
                      concat ("synthetic-session:" ∷ run_id ∷ [])
                      ∷ "synthetic-page-view:/privacy"
                      ∷ [];
                  seeded_at = now;
                })
                s.analytics_profiles;
          deletion_requests = insert account_id requested_at s.deletion_requests;
          virtual_observations = insert account_id now s.virtual_observations;
          known_fixtures = insert account_id tt s.known_fixtures;
        },
      )

-- `process_deletion`, which leaves the analytics profile where it is, on purpose.
unfoldable pub process_deletion :
    String → SyntheticStore → Option ProcessDeletionResponse × SyntheticStore
process_deletion account_id s = elim (lookup account_id s.profiles) [
  | none ↦ (none, s)
  | some profile ↦
      if not (contains account_id s.known_fixtures)
      then (none, s)
      else let processed_at = profile.deletion_requested_at + hour in
        (
          some (record {
            account_id = account_id;
            virtual_deletion_requested_at = profile.deletion_requested_at;
            virtual_processed_at = processed_at;
            virtual_processing_elapsed_hours = 1;
          }),
          record s {
            profiles = erase account_id s.profiles;
            virtual_processed = insert account_id processed_at s.virtual_processed;
          },
        )
]

abbrev elapsed_between : Option ℕ → Option ℕ → Option ℤ
elapsed_between (some requested_at) (some observed_at) = some (sub_ℕ observed_at requested_at)
elapsed_between _ _ = none

unfoldable pub inspect : ℕ → String → SyntheticStore → AccountStateResponse
inspect now account_id s =
    let known = contains account_id s.known_fixtures in
    let requested_at = lookup account_id s.deletion_requests in
    let observed_at = lookup account_id s.virtual_observations in
    record {
      account_id = account_id;
      known_fixture = known;
      profile_exists = if known then some (contains account_id s.profiles) else none;
      analytics_profile_exists =
          if known then some (contains account_id s.analytics_profiles) else none;
      virtual_deletion_requested_at = requested_at;
      virtual_processed_at = lookup account_id s.virtual_processed;
      virtual_observation_at = observed_at;
      virtual_observation_elapsed = elapsed_between requested_at observed_at;
      inspected_at = now;
    }

unfoldable pub reset : SyntheticStore → ℕ × SyntheticStore
reset s = (length (values s.known_fixtures), new)
