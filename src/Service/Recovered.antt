-- ===== src/Service/Recovered.antt =====
-- What a failed checkpoint leaves of a run (service.py, `_run_with_execution_lease`).
use mathlib.Core.Path.{subst}
use i_promise.Base.{
  ◌≡◌, refl, sym, ap, ◌∙◌, ◌⊎◌, inl, inr, Bool, true, false, String, some, List, [], ◌∷◌, ◌++◌, ltb,
  leb, not, arith, if◌then◌else◌,
}
use i_promise.Lists.{last?, update_last, last?-snoc, update_last-snoc}
use i_promise.Errors.{
  Exception, Result, ok, err, external_action_checkpoint, completion_checkpoint, Result-cases,
}
use i_promise.Exec.{Exec, ◌>>◌}
use i_promise.Models.{AuditRun, RunStatus}
use i_promise.StateMachine.{is_terminal}
use i_promise.StateMachine.Progress.{fail_run_total}
use i_promise.Service.{attempt_count, fail_retryable, max_run_attempts}
use i_promise.Service.Jobs.{Job, Services, run_released, note, change, save, return_run}
use i_promise.Service.Checkpoints.{
  checkpoint_message, replace_last_limitation, external_limitation, completion_limitation, recover,
  handle_checkpoint, run_with_execution_lease,
}

replace_last_limitation-snoc :
    (text : String) (run : AuditRun) (before : List String) (old : String)
    → run.limitations ≡ before ++ old ∷ []
    → replace_last_limitation text run ≡ ok (record run { limitations = before ++ text ∷ [] })
unfolding replace_last_limitation
replace_last_limitation-snoc text run before old h =
    let found : last? run.limitations ≡ some old = ap last? h ∙ last?-snoc before old in
    let updated : update_last (λ o. text) run.limitations ≡ before ++ text ∷ [] =
      ap (update_last (λ o. text)) h ∙ update_last-snoc (λ o. text) before old in
    rw (found, replace_last_limitation) (ap (λ l. ok (record run { limitations = l })) updated)

-- The run after a failed checkpoint: it is failed against the budget of attempts, what it has found and
-- done stays, and one limitation was added.
pub record IsRecovered (before after : AuditRun) (text : String) : Type 0 where
  pub status_of :
      after.status
      ≡ (if ltb (attempt_count before) 3 then RunStatus.failed_retryable else RunStatus.failed_safe)
  pub kept_actions : after.actions ≡ before.actions
  pub kept_verdict : after.verdict ≡ before.verdict
  pub kept_evidence : after.evidence ≡ before.evidence
  pub kept_verification : after.verification ≡ before.verification
  pub told : after.limitations ≡ before.limitations ++ text ∷ []

-- The result is the run, or what the save of it raised.
abbrev pub IsSavedOrRaised : Services → Job → Result AuditRun → Type 0
IsSavedOrRaised svc job result =
    (result ≡ ok job.run) ⊎ ((e : Exception) × (result ≡ err e) × (svc.save job ≡ err e))

module _ (svc : Services) where
  save-result :
      (job : Job)
      → (((save svc >> return_run) job).1.run ≡ job.run)
        × IsSavedOrRaised svc job ((save svc >> return_run) job).0
  unfolding save
  save-result job = elim (Result-cases (svc.save job)) [
    | inl (e, failed) ↦ rw (failed, save) (refl, inr (e, refl, refl))
    | inr (done, kept) ↦ rw (kept, save) (refl, inl refl)
  ]

  recover-steps :
      (job : Job) (detail : String) (limitation : AuditRun → String) {failed after : AuditRun}
      → fail_retryable (svc.now job) job.run detail true ≡ ok failed
      → replace_last_limitation (limitation failed) failed ≡ ok after
      → recover svc detail limitation job ≡ (save svc >> return_run) (record job { run = after })
  unfolding recover change
  recover-steps job detail limitation h g = rw (h, g, recover, change) refl

  recover_lem :
      (job : Job) (detail : String) (limitation : AuditRun → String)
      → is_terminal job.run.status ≡ false
      → (failed after : AuditRun) × (fail_retryable (svc.now job) job.run detail true ≡ ok failed)
        × IsRecovered job.run after (limitation failed)
        × ((recover svc detail limitation job).1.run ≡ after)
        × IsSavedOrRaised svc (record job { run = after }) (recover svc detail limitation job).0
  unfolding fail_retryable
  recover_lem job detail limitation h =
      let exhausted = leb max_run_attempts (attempt_count job.run) in
      let status : RunStatus =
        if exhausted then RunStatus.failed_safe else RunStatus.failed_retryable in
      let (failed, raised, status_of, _, limits, verdict, evidence, actions, verification) =
        fail_run_total (svc.now job) job.run status _ (not exhausted) true (ground arith) h in
      let text = limitation failed in
      let after : AuditRun = record failed { limitations = job.run.limitations ++ text ∷ [] } in
      let steps =
        recover-steps job detail limitation raised
          (replace_last_limitation-snoc text failed job.run.limitations _ limits) in
      let (kept, saved_or_raised) = save-result (record job { run = after }) in
      (
        failed,
        after,
        raised,
        record {
          status_of = status_of ∙ ground arith;
          kept_actions = actions;
          kept_verdict = verdict;
          kept_evidence = evidence;
          kept_verification = verification;
          told = refl;
        },
        ap (λ r. r.1.run) steps ∙ kept,
        subst (λ r. IsSavedOrRaised svc (record job { run = after }) r.0) (sym steps)
            saved_or_raised,
      )

-- `_ExternalActionCheckpointError` or `_CompletionCheckpointError`
abbrev pub is_checkpoint : Exception → Bool
is_checkpoint (external_action_checkpoint _ _ _) = true
is_checkpoint (completion_checkpoint _) = true
is_checkpoint _ = false

-- What the run is failed with.
abbrev pub checkpoint_detail : Exception → String
checkpoint_detail (external_action_checkpoint kind number url) = checkpoint_message kind number
checkpoint_detail (completion_checkpoint detail) = detail
checkpoint_detail _ = ""

-- What the run then tells.
abbrev pub checkpoint_limitation : Exception → AuditRun → String
checkpoint_limitation (external_action_checkpoint kind number url) run =
    external_limitation kind number url run
checkpoint_limitation (completion_checkpoint detail) run = completion_limitation run
checkpoint_limitation _ run = ""

handle_checkpoint-recover :
    (svc : Services) (e : Exception)
    → is_checkpoint e ≡ true
    → handle_checkpoint svc (err e) ≡ recover svc (checkpoint_detail e) (checkpoint_limitation e)
unfolding handle_checkpoint
handle_checkpoint-recover svc (external_action_checkpoint kind number url) h = refl
handle_checkpoint-recover svc (completion_checkpoint detail) h = refl
handle_checkpoint-recover svc _ h = cc

-- If an operation stops at a failed checkpoint and its run has not ended, the run is failed against the
-- budget of attempts: its actions, with the receipts in them, its verdict, evidence and verification
-- stay, and one limitation tells what is known. The result is that run, or what the save of it raised,
-- and the last thing done is an attempt to release the lease.
pub run_with_execution_lease-IsRecovered :
    (svc : Services) (operation : Exec Job AuditRun) (job : Job) (e : Exception)
    → (operation job).0 ≡ err e
    → is_checkpoint e ≡ true
    → is_terminal (operation job).1.run.status ≡ false
    → (failed after : AuditRun) × (fail_retryable
          (svc.now (operation job).1)
          (operation job).1.run
          (checkpoint_detail e)
          true
        ≡ ok failed)
      × IsRecovered (operation job).1.run after (checkpoint_limitation e failed)
      × ((run_with_execution_lease svc operation job).1.run ≡ after)
      × IsSavedOrRaised svc
          (record (operation job).1 { run = after })
          (run_with_execution_lease svc operation job).0
      × ((before : Job) × ((run_with_execution_lease svc operation job).1
            ≡ note run_released before))
unfolding run_with_execution_lease
run_with_execution_lease-IsRecovered svc operation job e raised checkpoint running =
    let same : handle_checkpoint svc (operation job).0
        ≡ recover svc (checkpoint_detail e) (checkpoint_limitation e) =
      ap (handle_checkpoint svc) raised ∙ handle_checkpoint-recover svc e checkpoint in
    let (failed, after, failing, recovered, ran, saved_or_raised) =
      recover_lem svc (operation job).1 (checkpoint_detail e) (checkpoint_limitation e) running in
    (
      failed,
      after,
      failing,
      recovered,
      ap (λ m. (m (operation job).1).1.run) same ∙ ran,
      subst
          (λ m.
            IsSavedOrRaised svc (record (operation job).1 { run = after }) (m (operation job).1).0)
          (sym same) saved_or_raised,
      ((handle_checkpoint svc (operation job).0 (operation job).1).1, refl),
    )
