-- ===== src/Service/Checkpoints.antt =====
-- An operation on a run under its execution lease (service.py, `_run_with_execution_lease`): what a
-- failed checkpoint turns the run into, and the release of the lease.
use i_promise.Base.{ℕ, true, ◌&&◌, String, none, some, [], ◌∷◌, if◌then◌else◌, ◌==◌, string_eq}
use i_promise.Lists.{any, last?, update_last}
use i_promise.Text.{concat, decimal}
use i_promise.Errors.{Result, ok, err, external_action_checkpoint, completion_checkpoint, other}
use i_promise.Exec.{Exec, pure, raise, ◌>>◌}
use i_promise.Models.{
  AuditRun, RunStatus, ActionKind, is_opened, is_pull_request, kind_words, status_value,
}
use i_promise.Service.{fail_retryable, is_some}
use i_promise.Service.Jobs.{Job, Services, run_released, note, change, save, return_run}

-- The message of `_ExternalActionCheckpointError`.
abbrev pub checkpoint_message : ActionKind → ℕ → String
checkpoint_message kind number = concat (
    (if is_pull_request kind then "GitHub draft PR" else "GitHub issue")
    ∷ " #"
    ∷ decimal number
    ∷ " was confirmed, but its run checkpoint failed"
    ∷ [])

-- `run.limitations[-1] = text`
unfoldable pub replace_last_limitation : String → AuditRun → Result AuditRun
replace_last_limitation text run = elim (last? run.limitations) [
  | none ↦ err (other "IndexError")
  | some _ ↦ ok (record run { limitations = update_last (λ old. text) run.limitations })
]

-- What is known of an action that was confirmed, after the run was failed.
abbrev pub external_limitation : ActionKind → ℕ → String → AuditRun → String
external_limitation kind number url run = concat (
    "GitHub "
    ∷ kind_words kind
    ∷ " #"
    ∷ decimal number
    ∷ " is confirmed at "
    ∷ url
    ∷ ", but the run checkpoint "
    ∷ (if status_value run.status == status_value RunStatus.failed_retryable
        then "needs a retry before finalization"
        else "requires operator reconciliation")
    ∷ "."
    ∷ [])

abbrev pub completion_limitation : AuditRun → String
completion_limitation run =
    if any (λ action. is_opened action.state && is_some action.url) run.actions
    then "The external action receipt is confirmed and will not be republished; only the final run checkpoint needs a retry."
    else "The final run checkpoint needs a retry; no external action was dispatched."

-- The run is failed, with one limitation that says what is known, and saved.
unfoldable pub recover : Services → String → (AuditRun → String) → Exec Job AuditRun
unfolding fail_retryable replace_last_limitation
recover svc detail limitation =
    change (λ now run. fail_retryable now run detail true) svc
    >> (change (λ now run. replace_last_limitation (limitation run) run) svc
        >> (save svc >> return_run))

-- What follows the end of the operation.
unfoldable pub handle_checkpoint : Services → Result AuditRun → Exec Job AuditRun
unfolding recover
handle_checkpoint svc (err (external_action_checkpoint kind number url)) =
    recover svc (checkpoint_message kind number) (external_limitation kind number url)
handle_checkpoint svc (err (completion_checkpoint detail)) =
    recover svc detail completion_limitation
handle_checkpoint svc (err e) = raise e
handle_checkpoint svc (ok run) = pure run

-- `_run_with_execution_lease`: an attempt to release the lease is made whatever the result is.
unfoldable pub run_with_execution_lease : Services → Exec Job AuditRun → Exec Job AuditRun
unfolding handle_checkpoint
run_with_execution_lease svc operation job =
    let (ended, job1) = operation job in
    let (result, job2) = handle_checkpoint svc ended job1 in (result, note run_released job2)
