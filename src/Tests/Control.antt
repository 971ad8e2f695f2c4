-- ===== src/Tests/Control.antt =====
-- Tests of Control and DemoSaas.
use i_promise.Base.{◌≡◌, ◌↔◌, refl, true, false, String, some, none, List, [], ◌∷◌, arith}
use i_promise.Signed.{ℤ, pos, hour}
use i_promise.Models.{Evidence, EvidenceResult, contradicted, supported}
use i_promise.Errors.{ok}
use i_promise.Control.{
  SeededFixture, ProcessedDeletion, InspectedState, ControlOutcome, judge, execute,
}
use i_promise.Control.Verdicts.{judge-supported, IsKept}
use i_promise.DemoSaas
use i_promise.DemoSaas.Client.{Deployment, http_client}
use i_promise.DemoSaas.Audit.{execute-verdict, results_of}

abbrev format_none : ℤ → String
format_none n = "25.00"

abbrev fixture : SeededFixture
fixture = record { account_id = "syn_1" }

abbrev processed : ProcessedDeletion
processed = record { virtual_processing_elapsed = pos hour }

abbrev removed : InspectedState
removed = record {
  known_fixture = true;
  profile_exists = some false;
  analytics_profile_exists = some false;
  virtual_observation_elapsed = some (pos 90000000000);
}

abbrev failing : List Evidence
failing =
    record {
      id = "app-profile";
      label = "App profile";
      expected = "Removed within 24h";
      observed = "1 active record at +25h";
      result = EvidenceResult.fail;
      scope = none;
      artifact_ref = none;
    }
    ∷ []

judge-supported_example :
    ((judge format_none fixture processed removed).verdict ≡ supported) ↔ IsKept processed removed
judge-supported_example = judge-supported format_none fixture processed removed

abbrev deployed : Deployment
deployed = record {
  sha256 = λ s. s;
  page = record {
    url = "";
    title = "";
    captured_at = 0;
    content_hash = "";
    html = "";
    visible_text = "";
    marked_claims = [];
  };
  token = "local-synthetic-only-change-me";
  expected_token = "local-synthetic-only-change-me";
  seeded_now = 100000000000;
  inspected_now = 100000000001;
}

execute-verdict_example :
    (outcome : ControlOutcome) × ((execute format_none
        (http_client deployed)
        "run_0001"
        DemoSaas.new).0
      ≡ ok outcome)
    × (outcome.verdict ≡ contradicted)
    × (results_of outcome ≡ EvidenceResult.pass ∷ EvidenceResult.pass ∷ EvidenceResult.fail ∷ [])
execute-verdict_example =
    execute-verdict format_none deployed "run_0001" DemoSaas.new refl refl (omega arith)
