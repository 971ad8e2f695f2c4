-- ===== src/Control.antt =====
-- services/agent/src/ipromise_agent/control.py: the account-deletion control, over the client that
-- reaches the product under test (`ReferenceClient` of demo_client.py).
--
-- The elapsed hours are floats in the source; here they are whole microseconds, which is the
-- resolution of the `timedelta` from which they are computed. `format_2f` stands for the format
-- `{hours:.2f}`, and `casefold` for `str.casefold`, whose Unicode tables are not modelled.
pub mod Verdicts
use i_promise.Base.{
  ℕ, Bool, true, false, not, ◌&&◌, ◌||◌, String, Option, none, some, List, [], ◌∷◌, if◌then◌else◌,
  ◌==◌, nat_eq,
}
use text.Mathlib.Text.{find?}
use i_promise.Lists.{any, all}
use i_promise.Text.{concat}
use i_promise.Signed.{ℤ, exceeds_hours, is_nonnegative}
use i_promise.Models.{
  Claim, Evidence, EvidenceResult, Testability, executable, Verdict, contradicted, inconclusive,
  supported,
}
use i_promise.Models
use i_promise.Source.{CapturedSource}
use i_promise.Exec.{Exec, pure, ◌>>=◌}

abbrev pub control_id : String
control_id = "privacy.account_deletion.v1"

-- The attributes of the client's answers that the control reads.
pub record SeededFixture : Type 0 where
  pub account_id : String

pub record ProcessedDeletion : Type 0 where
  pub virtual_processing_elapsed : ℤ

pub record InspectedState : Type 0 where
  pub known_fixture : Bool
  pub profile_exists : Option Bool
  pub analytics_profile_exists : Option Bool
  pub virtual_observation_elapsed : Option ℤ

-- The protocol `ReferenceClient`, over the state of the product that it calls.
pub record ReferenceClient (S : Type 0) : Type 0 where
  pub capture_privacy : Exec S CapturedSource
  pub seed_account : String → Exec S SeededFixture
  pub process_deletion : String → Exec S ProcessedDeletion
  pub inspect_account : String → Exec S InspectedState

pub record ControlOutcome : Type 0 where
  pub verdict : Verdict
  pub evidence : List Evidence
  pub fixture_id : String
  pub virtual_elapsed : Option ℤ

abbrev is_executable : Testability → Bool
is_executable executable = true
is_executable _ = false

-- `fragment in quote`
abbrev is_part : String → String → Bool
is_part quote fragment = elim (find? quote fragment) [ none ↦ false | some _ ↦ true ]

abbrev pub required_fragments : List String
required_fragments = "delete your account" ∷ "profile" ∷ "analytics system" ∷ "within 24 hours" ∷ []

abbrev is_24 : Option ℕ → Bool
is_24 none = false
is_24 (some hours) = hours == 24

unfoldable pub can_bind_account_deletion : (String → String) → Claim → Bool
can_bind_account_deletion casefold claim =
    is_executable claim.testability
    && is_24 claim.deadline_hours
    && all (is_part (casefold claim.exact_quote)) required_fragments

abbrev pub is_evidence_fail : Evidence → Bool
is_evidence_fail item = elim item.result [ EvidenceResult.fail ↦ true | _ ↦ false ]

abbrev pub is_evidence_unknown : Evidence → Bool
is_evidence_unknown item = elim item.result [ EvidenceResult.unknown ↦ true | _ ↦ false ]

abbrev pub is_evidence_pass : Evidence → Bool
is_evidence_pass item = elim item.result [ EvidenceResult.pass ↦ true | _ ↦ false ]

abbrev pub is_empty {ℓ} : {A : Type ℓ} → List A → Bool
is_empty [] = true
is_empty (x ∷ xs) = false

-- The tests are those on the set of the results.
unfoldable pub calculate_verdict : List Evidence → Verdict
calculate_verdict evidence =
    if any is_evidence_fail evidence
    then contradicted
    else if is_empty evidence || any is_evidence_unknown evidence
    then inconclusive
    else if not (is_empty evidence) && all is_evidence_pass evidence
    then supported
    else inconclusive

-- The result and the observation of `_record_evidence`.
abbrev record_finding : Option Bool → EvidenceResult × String
record_finding none = (EvidenceResult.unknown, "Required store evidence was unavailable")
record_finding (some true) = (EvidenceResult.fail, "1 active record at +25h")
record_finding (some false) = (EvidenceResult.pass, "No active record at +25h")

unfoldable pub record_evidence : String → String → Option Bool → String → Evidence
record_evidence evidence_id label exists scope =
    let (result, observed) = record_finding exists in
    record {
      id = evidence_id;
      label = label;
      expected = "Removed within 24h";
      observed = observed;
      result = result;
      scope = some scope;
      artifact_ref = none;
    }

-- `elapsed is not None and elapsed > 24`
abbrev pub has_crossed : Option ℤ → Bool
has_crossed none = false
has_crossed (some elapsed) = exceeds_hours elapsed 24

unfoldable pub timeline_result : Option ℤ → ℤ → EvidenceResult
timeline_result elapsed processing =
    if not (has_crossed elapsed) || not (is_nonnegative processing)
    then EvidenceResult.unknown
    else if not (exceeds_hours processing 24)
    then EvidenceResult.pass
    else EvidenceResult.fail

module _ (format_2f : ℤ → String) where
  timeline_observed : Option ℤ → ℤ → String
  timeline_observed none processing = "Deletion-request timestamp or elapsed time was unavailable"
  timeline_observed (some elapsed) processing = concat (
      "Worker replayed at T0+"
      ∷ format_2f processing
      ∷ "h; observation occurred at T0+"
      ∷ format_2f elapsed
      ∷ "h"
      ∷ [])

  -- What `execute` makes of the answers of the client.
  unfoldable pub judge : SeededFixture → ProcessedDeletion → InspectedState → ControlOutcome
  unfolding timeline_observed timeline_result record_evidence calculate_verdict
  judge fixture processed state =
      let elapsed = state.virtual_observation_elapsed in
      let crossed = has_crossed elapsed in
      let evidence : List Evidence =
        record {
          id = "synthetic-virtual-timeline";
          label = "Deletion timeline";
          expected = "Worker runs by T0+24h; evidence observed after T0+24h";
          observed = timeline_observed elapsed processed.virtual_processing_elapsed;
          result = timeline_result elapsed processed.virtual_processing_elapsed;
          scope = some (concat ("synthetic_accounts/" ∷ fixture.account_id ∷ []));
          artifact_ref = none;
        }
        ∷ record_evidence "app-profile" "App profile"
            (if crossed then state.profile_exists else none)
            (concat ("profiles/" ∷ fixture.account_id ∷ []))
        ∷ record_evidence "analytics-profile" "Analytics profile"
            (if crossed then state.analytics_profile_exists else none)
            (concat ("analytics_profiles/" ∷ fixture.account_id ∷ []))
        ∷ [] in
      record {
        verdict = calculate_verdict evidence;
        evidence = evidence;
        fixture_id = fixture.account_id;
        virtual_elapsed = elapsed;
      }

  -- `AccountDeletionControl.execute`
  unfoldable pub execute : {S : Type 0} → ReferenceClient S → String → Exec S ControlOutcome
  execute client run_id = do
    fixture ← client.seed_account run_id
    processed ← client.process_deletion fixture.account_id
    state ← client.inspect_account fixture.account_id
    pure (judge fixture processed state)
