-- ===== src/Service/Fallback.antt =====
-- The fallback from a pull request to an issue (service.py) keeps the plan safe.
use i_promise.Base.{◌≡◌, refl, true, false, ◌&&◌, String, Option, List, [], ◌∷◌, arith}
use i_promise.Lists.{any, count_if}
use i_promise.Errors.{ok}
use i_promise.Models.{
  AuditRun, PlannedAction, ActionState, VerificationReceipt, is_ready, is_planned, is_issue,
}
use i_promise.Actions.{is_selected}
use i_promise.Actions.Gates.{IsSafe}
use i_promise.Service.Recovery.{select_issue_fallback, change_first, block_pull_request, plan_issue}

-- When a selected pull request cannot be published, the fallback gives a safe plan again, in which the
-- issue is the one selected action and nothing is ready for publication as a pull request.
pub select_issue_fallback-IsSafe :
    (run : AuditRun) (receipt : Option VerificationReceipt) (reason : String)
    (safe : IsSafe run.actions receipt)
    → safe.pr.state ≡ ActionState.ready
    → (after : AuditRun) × (select_issue_fallback run reason ≡ ok after)
      × IsSafe after.actions receipt
      × (count_if is_selected after.actions ≡ 1)
      × (any (λ action. is_issue action.kind && is_planned action.state) after.actions ≡ true)
      × (any (λ action. is_ready action.state) after.actions ≡ false)
unfolding select_issue_fallback change_first
select_issue_fallback-IsSafe run receipt reason safe selected =
    let pr = block_pull_request reason safe.pr in
    let fallback = plan_issue reason safe.fallback in
    let done = rw safe.three at safe.none_done in
    let one = rw safe.three at safe.one_selected in
    let (kind_pr, kind_issue, kind_email) = safe.kinds in
    let changed : List PlannedAction = pr ∷ fallback ∷ safe.notice ∷ [] in
    (
      record run { actions = changed },
      rw (safe.three, kind_pr, kind_issue) refl,
      record {
        pr = pr;
        fallback = fallback;
        notice = safe.notice;
        three = refl;
        kinds = safe.kinds;
        none_done = ground arith;
        one_selected = ground arith;
        ready_verified = (λ h. ground arith, λ h. ground arith);
        ready_proven = λ h. ground arith;
      },
      ground arith,
      ground arith,
      ground arith,
    )
