-- ===== src/Service/Claiming.antt =====
-- `create_run` of service.py up to the start of the task: the key, the reservation, the execution
-- lease, and the choice of what to run. Its calls on the store follow each other under the lock of
-- the process; those of another process may come between, which the theorems on the store cover.
use i_promise.Base.{
  ℕ, Bool, true, false, ◌||◌, String, Option, none, some, ltb, if◌then◌else◌, ◌==◌, string_eq,
}
use Prim.Native.String
use i_promise.Errors.{Result, ok, err, value_error}
use i_promise.Exec.{Exec}
use i_promise.Models.{AuditRun, RunStatus}
use i_promise.RunStore.{RunStore, reserve, save, acquire_run_lease, release_run_lease}
use i_promise.Service.{attempt_count, max_run_attempts, run_lease_seconds, is_some}
use i_promise.Service.Recovery.{
  reset_interrupted_run, resume_action_dispatch, failed_during_action_dispatch,
}

-- What a claimed run goes on with: `_execute`, `_dispatch_and_complete` or `_route_and_complete`.
pub data Operation : Type 0 where
  execute dispatch_and_complete route_and_complete : Operation

-- The choice for a run that this worker has claimed: the operation, and the run, with a flag that
-- tells whether it was changed and so is saved.
pub record Choice : Type 0 where
  pub operation : Option Operation
  pub run : AuditRun
  pub is_changed : Bool

abbrev pub keep : Option Operation → AuditRun → Choice
keep operation run = record { operation = operation; run = run; is_changed = false }

abbrev pub change : Operation → AuditRun → Choice
change operation run = record { operation = some operation; run = run; is_changed = true }

unfoldable pub retry_choice : ℕ → AuditRun → Choice
unfolding attempt_count failed_during_action_dispatch
retry_choice now run =
    if ltb (attempt_count run) max_run_attempts
    then if failed_during_action_dispatch run
      then change dispatch_and_complete (resume_action_dispatch now run)
      else change execute (reset_interrupted_run now run)
    else keep none run

-- The choice for a run that was reserved before, by its status.
unfoldable pub choose_at : ℕ → AuditRun → RunStatus → Choice
unfolding retry_choice
choose_at now run RunStatus.failed_retryable = retry_choice now run
choose_at now run RunStatus.routing_action = keep (some dispatch_and_complete) run
choose_at now run RunStatus.verifying =
    if is_some run.verification
    then keep (some route_and_complete) run
    else change execute (reset_interrupted_run now run)
choose_at now run _ = change execute (reset_interrupted_run now run)

unfoldable pub choose : ℕ → Bool → AuditRun → Choice
unfolding choose_at
choose now true run = keep (some execute) run
choose now false run = choose_at now run run.status

-- `run.status in {COMPLETE, FAILED_SAFE}`
abbrev pub is_over : RunStatus → Bool
is_over status = elim status [
  | RunStatus.complete ↦ true
  | RunStatus.failed_safe ↦ true
  | _ ↦ false
]

-- `idempotency_key or request.idempotency_key or f"auto:{...}"`: an empty key counts as none.
abbrev pub key_or : Option String → String → String
key_or none fallback = fallback
key_or (some key) fallback = if key == "" then fallback else key

unfoldable pub resolve_key : Option String → Option String → String → Result String
resolve_key idempotency_key requested auto =
    let key : String = key_or idempotency_key (key_or requested auto) in
    if ltb (String.count key) 8 || ltb 128 (String.count key)
    then err (value_error "Idempotency key must contain 8 to 128 characters")
    else ok key

-- A lease without an operation is given back.
unfoldable pub finish_claim :
    String → Choice → Result (Unit {0}) → Exec RunStore (Option Operation × AuditRun)
unfolding release_run_lease
finish_claim owner choice (err e) s = (err e, s)
finish_claim owner choice (ok _) s = elim choice.operation [
  | some operation ↦ (ok (some operation, choice.run), s)
  | none ↦ (ok (none, choice.run), release_run_lease choice.run.id owner s)
]

-- A changed run is saved first.
unfoldable pub settle : String → Choice → Exec RunStore (Option Operation × AuditRun)
unfolding save finish_claim
settle owner choice s =
    if choice.is_changed
    then finish_claim owner choice (save choice.run s).0 (save choice.run s).1
    else finish_claim owner choice (ok tt) s

-- The claim of a reserved run, with the clock of the leases, in seconds, and the time of an event.
unfoldable pub claim_reserved :
    ℕ → ℕ → String → Bool → AuditRun → Bool → Exec RunStore (Option Operation × AuditRun)
unfolding acquire_run_lease settle choose
claim_reserved now at owner busy run created s =
    if busy || is_over run.status
    then (ok (none, run), s)
    else let (acquired, t) : Result Bool × RunStore =
        acquire_run_lease now run.id owner run_lease_seconds s in
      elim acquired [
        | err e ↦ (err e, t)
        | ok false ↦ (ok (none, run), t)
        | ok true ↦ settle owner (choose at created run) t
      ]

-- The claim after the reservation; `busy run_id` says whether a task of this process executes the run.
unfoldable pub claim_after :
    ℕ
    → ℕ
    → String
    → (String → Bool)
    → Result (AuditRun × Bool) × RunStore
    → Result (Option Operation × AuditRun) × RunStore
unfolding claim_reserved
claim_after now at owner busy (err e, s) = (err e, s)
claim_after now at owner busy (ok (run, created), s) =
    claim_reserved now at owner (busy run.id) run created s

unfoldable pub claim_run :
    ℕ
    → ℕ
    → String
    → AuditRun
    → String
    → (String → Bool)
    → Exec RunStore (Option Operation × AuditRun)
unfolding reserve claim_after
claim_run now at key offered owner busy s = claim_after now at owner busy (reserve key offered s)
