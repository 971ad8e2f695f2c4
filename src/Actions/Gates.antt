-- ===== src/Actions/Gates.antt =====
-- What the planner of actions.py lets through.
use i_promise.Base.{
  ℕ, ◌≤◌, ◌≡◌, ◌↔◌, inl, inr, refl, Bool, true, false, ◌&&◌, String, Option, none, some, List, [],
  ◌∷◌, arith, if◌then◌else◌, Bool-cases,
}
use i_promise.Lists.{any, count_if}
use i_promise.Models.{
  pull_request, issue, email, ready, PlannedAction, VerificationReceipt, VerificationResult,
  Verdict, contradicted, is_ready,
}
use i_promise.Errors.{ok, ◌>>=◌}
use i_promise.Actions.{
  receipt_proves_candidate, validate_action_plan, proposed_actions, plan_actions, is_selected,
  is_done,
}

-- What a receipt must show: it is publishable, from an isolated build that verified the exact tree,
-- in which the control failed before the change, and passed after it, as the regression tests did.
pub record Proves (receipt : VerificationReceipt) : Type 0 where
  pub publishable : receipt.publishable ≡ true
  pub isolated : receipt.isolated ≡ true
  pub exact : receipt.exact_tree_verified ≡ true
  pub red_before : receipt.baseline_control ≡ VerificationResult.fail
  pub green_after : receipt.candidate_control ≡ VerificationResult.pass
  pub regression : receipt.regression_suite ≡ VerificationResult.pass

pub proof_of :
    (receipt : Option VerificationReceipt)
    → receipt_proves_candidate receipt ≡ true
    → (r : VerificationReceipt) × (receipt ≡ some r) × Proves r
unfolding receipt_proves_candidate
proof_of none h = cc
proof_of (some r) h = (r, refl, ground arith)

-- A valid plan: a pull request, an issue and an email, in this order; nothing in it is done yet; at
-- most one is selected; the pull request is ready exactly if it is marked verified, and only with a
-- receipt that proves the candidate.
pub record IsSafe (actions : List PlannedAction) (receipt : Option VerificationReceipt)
    : Type 0 where
  pub pr : PlannedAction
  pub fallback : PlannedAction
  pub notice : PlannedAction
  pub three : actions ≡ pr ∷ fallback ∷ notice ∷ []
  pub kinds : (pr.kind ≡ pull_request) × (fallback.kind ≡ issue) × (notice.kind ≡ email)
  pub none_done : any is_done actions ≡ false
  pub one_selected : count_if is_selected actions ≤ 1
  pub ready_verified : (pr.state ≡ ready) ↔ (pr.verified ≡ true)
  pub ready_proven : pr.state ≡ ready → (r : VerificationReceipt) × (receipt ≡ some r) × Proves r

-- What the validation accepts is a safe plan: a pull request, an issue and an email, none of them
-- done, at most one selected, and the pull request ready exactly if it is marked as verified, which
-- takes a receipt that proves the candidate.
pub validate_action_plan_sound :
    (actions : List PlannedAction) (receipt : Option VerificationReceipt)
    → validate_action_plan actions receipt ≡ ok tt
    → IsSafe actions receipt
unfolding validate_action_plan
validate_action_plan_sound [] receipt h = cc
validate_action_plan_sound (a ∷ []) receipt h = ground arith
validate_action_plan_sound (a ∷ b ∷ []) receipt h = ground arith
validate_action_plan_sound (a ∷ b ∷ c ∷ []) receipt h = record {
  pr = a;
  fallback = b;
  notice = c;
  three = refl;
  kinds = ground arith;
  none_done = ground arith;
  one_selected = ground arith;
  ready_verified = (λ k. ground arith, λ k. ground arith);
  ready_proven = λ k. proof_of receipt (ground arith);
}
validate_action_plan_sound (a ∷ b ∷ c ∷ d ∷ rest) receipt h = ground arith

abbrev pub is_contradicted : Verdict → Bool
is_contradicted contradicted = true
is_contradicted _ = false

-- The proposal for any verdict passes the validation.
proposed_is_valid :
    (run_id : String) (verdict : Verdict) (receipt : Option VerificationReceipt)
    (contradictions : ℕ) (email_enabled : Bool)
    → validate_action_plan
        (proposed_actions run_id verdict
          (receipt_proves_candidate receipt)
          contradictions
          email_enabled)
        receipt
      ≡ ok tt
unfolding proposed_actions validate_action_plan
proposed_is_valid run_id contradicted receipt contradictions email_enabled =
    elim (Bool-cases (receipt_proves_candidate receipt)) [
      | inl proven ↦ rw proven (ground arith)
      | inr unproven ↦ rw unproven (ground arith)
    ]
proposed_is_valid run_id _ receipt contradictions email_enabled = refl

proposed_selection :
    (run_id : String) (verdict : Verdict) (proven : Bool) (contradictions : ℕ)
    (email_enabled : Bool)
    → (count_if is_selected (proposed_actions run_id verdict proven contradictions email_enabled)
        ≡ (if is_contradicted verdict then 1 else 0))
      × (any
            (λ action. is_ready action.state)
            (proposed_actions run_id verdict proven contradictions email_enabled)
          ≡ (is_contradicted verdict && proven))
unfolding proposed_actions
proposed_selection run_id contradicted proven contradictions email_enabled = ground arith
proposed_selection run_id _ proven contradictions email_enabled = (refl, refl)

-- The planner never raises, and its plan is safe. Whatever the receipt and the policy, it selects
-- exactly one action for a contradicted promise and none for any other verdict, and some action is
-- ready for publication exactly if the promise is contradicted and the receipt proves the candidate.
pub plan_actions-IsSafe :
    (run_id : String) (verdict : Verdict) (receipt : Option VerificationReceipt)
    (contradictions : ℕ) (email_enabled : Bool)
    → (actions : List PlannedAction) × (plan_actions run_id verdict receipt contradictions
          email_enabled
        ≡ ok actions)
      × IsSafe actions receipt
      × (count_if is_selected actions ≡ (if is_contradicted verdict then 1 else 0))
      × (any (λ action. is_ready action.state) actions
          ≡ (is_contradicted verdict && receipt_proves_candidate receipt))
unfolding plan_actions
plan_actions-IsSafe run_id verdict receipt contradictions email_enabled =
    let proven = receipt_proves_candidate receipt in
    let actions = proposed_actions run_id verdict proven contradictions email_enabled in
    let valid = proposed_is_valid run_id verdict receipt contradictions email_enabled in
    let selection = proposed_selection run_id verdict proven contradictions email_enabled in
    (
      actions,
      rw (valid, ◌>>=◌) refl,
      validate_action_plan_sound actions receipt valid,
      selection.0,
      selection.1,
    )
