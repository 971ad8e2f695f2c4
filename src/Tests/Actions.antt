-- ===== src/Tests/Actions.antt =====
-- Tests of Actions.
use i_promise.Base.{◌≡◌, refl, true, false, some, List}
use i_promise.Lists.{any, count_if}
use i_promise.Models.{PlannedAction, contradicted, is_ready}
use i_promise.Errors.{ok}
use i_promise.Actions.{
  plan_actions, validate_action_plan, is_selected, receipt_proves_candidate, proposed_actions,
}
use i_promise.Actions.Gates.{IsSafe, plan_actions-IsSafe, validate_action_plan_sound}
use i_promise.Tests.Samples.{proving_receipt}

plan_actions-IsSafe_example :
    (actions : List PlannedAction) × (plan_actions "run_0001" contradicted
        (some proving_receipt)
        1
        false
      ≡ ok actions)
    × IsSafe actions (some proving_receipt)
    × (count_if is_selected actions ≡ 1)
    × (any (λ action. is_ready action.state) actions ≡ true)
unfolding receipt_proves_candidate
plan_actions-IsSafe_example =
    plan_actions-IsSafe "run_0001" contradicted (some proving_receipt) 1 false

unfoldable pub plan : List PlannedAction
unfolding proposed_actions
plan = proposed_actions "run_0001" contradicted true 1 false

validate_action_plan_sound_example : IsSafe plan (some proving_receipt)
unfolding plan validate_action_plan receipt_proves_candidate
validate_action_plan_sound_example = validate_action_plan_sound plan (some proving_receipt) refl
