-- ===== src/Actions.antt =====
-- services/agent/src/ipromise_agent/actions.py: the plan of the one external action of a run.
pub mod Gates
use i_promise.Base.{
  ℕ, Bool, true, false, not, ◌&&◌, ◌||◌, String, Option, none, some, List, [], ◌∷◌, map, ltb, leb,
  if◌then◌else◌,
}
use i_promise.Lists.{any, all, count_if}
use i_promise.Text.{concat, decimal}
use i_promise.Models.{
  ActionKind, pull_request, issue, email, ActionState, planned, blocked, ready, opened, sent,
  PlannedAction, VerificationReceipt, Verdict, contradicted, inconclusive, kind_value, kind_words,
  is_ready, is_pass, is_fail,
}
use i_promise.Models
use i_promise.Errors.{Result, ok, err, unsafe_action_plan, ◌>>=◌, ◌>>◌, guard}

unfoldable pub receipt_proves_candidate : Option VerificationReceipt → Bool
receipt_proves_candidate none = false
receipt_proves_candidate (some receipt) =
    receipt.publishable
    && receipt.isolated
    && receipt.exact_tree_verified
    && is_fail receipt.baseline_control
    && is_pass receipt.candidate_control
    && is_pass receipt.regression_suite

unfoldable pub skipped : String → ActionKind → String → PlannedAction
skipped run_id kind reason = record {
  id = concat (run_id ∷ ":" ∷ kind_value kind ∷ []);
  kind = kind;
  state = ActionState.skipped;
  title = concat ("No " ∷ kind_words kind ∷ " action" ∷ []);
  verified = false;
  reason = some reason;
  url = none;
}

-- `[action.kind for action in actions] == expected_order`
abbrev pub is_expected_order : List ActionKind → Bool
is_expected_order (pull_request ∷ issue ∷ email ∷ []) = true
is_expected_order _ = false

-- `action.state in {OPENED, SENT}`
abbrev pub is_done : PlannedAction → Bool
is_done action = elim action.state [ opened ↦ true | sent ↦ true | _ ↦ false ]

-- `action.state in selected_states`
abbrev pub is_selected : PlannedAction → Bool
is_selected action = elim action.state [
  | planned ↦ true
  | ready ↦ true
  | opened ↦ true
  | sent ↦ true
  | _ ↦ false
]

-- The checks on `actions[0]`.
abbrev pub check_pull_request : List PlannedAction → Option VerificationReceipt → Result (Unit {0})
check_pull_request [] receipt = ok tt
check_pull_request (action ∷ rest) receipt =
    if is_ready action.state
    then guard (action.verified && receipt_proves_candidate receipt)
        (unsafe_action_plan "A draft PR cannot be ready without complete proof")
    else guard (not action.verified)
        (unsafe_action_plan "A non-ready draft PR cannot be marked verified")

unfoldable pub validate_action_plan :
    List PlannedAction → Option VerificationReceipt → Result (Unit {0})
validate_action_plan actions receipt = do
  guard (is_expected_order (map (λ action. action.kind) actions))
      (unsafe_action_plan "Actions must remain ordered PR, issue, then email")
  guard (not (any is_done actions))
      (unsafe_action_plan "The planner cannot claim an external side effect")
  guard (leb (count_if is_selected actions) 1)
      (unsafe_action_plan "At most one external action route may be selected")
  check_pull_request actions receipt

-- The actions for a contradicted promise.
unfoldable pub contradicted_actions : String → Bool → ℕ → Bool → List PlannedAction
contradicted_actions run_id proven contradictions email_enabled =
    let escalates = email_enabled && leb 2 contradictions in
    let email_ready = email_enabled && leb 2 contradictions && not proven in
    record {
      id = concat (run_id ∷ ":pr" ∷ []);
      kind = pull_request;
      state = if proven then ready else blocked;
      title = "Remove overdue analytics profile during account deletion";
      verified = proven;
      reason = some (
          if proven
          then "Cloud Build fail-before/pass-after receipt authorizes a draft PR"
          else "Blocked until Cloud Build proves the exact candidate tree");
      url = none;
    }
    ∷ record {
      id = concat (run_id ∷ ":issue" ∷ []);
      kind = issue;
      state = if proven || escalates then ActionState.skipped else planned;
      title = "Account deletion does not clear analytics profiles";
      verified = false;
      reason = some (
          if proven
          then "Draft PR is the selected response"
          else if escalates
          then "Email escalation supersedes issue creation"
          else "No verified repair is available.");
      url = none;
    }
    ∷ record {
      id = concat (run_id ∷ ":email" ∷ []);
      kind = email;
      state = if email_ready then planned else ActionState.skipped;
      title =
          if email_ready then "Notify the configured owner" else "Do not email on first detection";
      verified = false;
      reason = some (
          if email_ready
          then "Escalation threshold reached"
          else if not email_enabled
          then "Email is disabled until an allowlisted recipient opts in"
          else concat (
              "Email policy requires 2 consecutive contradictions; "
              ∷ decimal contradictions
              ∷ "/2"
              ∷ []));
      url = none;
    }
    ∷ []

-- The actions by verdict, before they are validated.
unfoldable pub proposed_actions : String → Verdict → Bool → ℕ → Bool → List PlannedAction
unfolding contradicted_actions skipped
proposed_actions run_id contradicted proven contradictions email_enabled =
    contradicted_actions run_id proven contradictions email_enabled
proposed_actions run_id inconclusive proven contradictions email_enabled =
    skipped run_id pull_request "No verified repair"
    ∷ skipped run_id issue "Required evidence was unavailable; iPromise abstained without dispatch"
    ∷ skipped run_id email "No confirmed contradiction"
    ∷ []
proposed_actions run_id _ proven contradictions email_enabled =
    let reason : String = "No contradiction requires action" in
    skipped run_id pull_request reason
    ∷ skipped run_id issue reason
    ∷ skipped run_id email reason
    ∷ []

unfoldable pub plan_actions :
    String → Verdict → Option VerificationReceipt → ℕ → Bool → Result (List PlannedAction)
plan_actions run_id verdict receipt contradictions email_enabled = do
  let actions =
      proposed_actions run_id verdict (receipt_proves_candidate receipt) contradictions
        email_enabled
  validate_action_plan actions receipt
  ok actions
