-- ===== src/Service/Claimed.antt =====
-- Exactly when a claim of a stored run starts an operation (service.py, `create_run`).
use i_promise.Base.{
  ◌≤◌, beq_self, ℕ, ◌+◌, ◌≡◌, refl, ap, ◌∙◌, ◌⊎◌, inl, inr, Bool, true, false, ◌||◌, String, none,
  some, leb, ltb, arith, Bool-cases, string_eq,
}
use i_promise.Dict.{lookup, contains, lookup-insert, insert}
use i_promise.Errors.{ok}
use i_promise.Models.{AuditRun, RunStatus}
use i_promise.RunStore.{RunStore, acquire_run_lease, is_held_by_other, save}
use i_promise.Service.{attempt_count, max_run_attempts, run_lease_seconds, is_some}
use i_promise.Service.Recovery.{failed_during_action_dispatch}
use i_promise.Service.Claiming.{
  Operation, Choice, choose, choose_at, retry_choice, is_over, claim_reserved, settle, finish_claim,
}
use i_promise.Service.Budget.{claim_reserved-barred}
use i_promise.Service.History.{choose-Extends}

-- A run that failed retryably, with its three attempts used up.
abbrev pub is_spent : AuditRun → Bool
is_spent run = elim run.status [
  | RunStatus.failed_retryable ↦ leb 3 (attempt_count run)
  | _ ↦ false
]

-- Why a claim starts nothing.
abbrev pub is_barred : ℕ → String → Bool → AuditRun → RunStore → Bool
is_barred now owner busy run s =
    busy
    || is_over run.status
    || is_spent run
    || is_held_by_other now owner (lookup run.id s.run_leases)

spent_at : RunStatus → AuditRun → Bool
spent_at status run = elim status [
  | RunStatus.failed_retryable ↦ leb 3 (attempt_count run)
  | _ ↦ false
]

retry_choice-starts :
    (at : ℕ) (run : AuditRun)
    → leb 3 (attempt_count run) ≡ false
    → (operation : Operation) × ((retry_choice at run).operation ≡ some operation)
unfolding retry_choice
retry_choice-starts at run left =
    let more : ltb (attempt_count run) max_run_attempts ≡ true = ground arith in
    elim (Bool-cases (failed_during_action_dispatch run)) [
      | inl dispatching ↦ rw (more, dispatching, retry_choice) (_, refl)
      | inr elsewhere ↦ rw (more, elsewhere, retry_choice) (_, refl)
    ]

choose_at-starts :
    (at : ℕ) (run : AuditRun) (status : RunStatus)
    → spent_at status run ≡ false
    → (operation : Operation) × ((choose_at at run status).operation ≡ some operation)
unfolding choose_at spent_at
choose_at-starts at run RunStatus.failed_retryable h = retry_choice-starts at run h
choose_at-starts at run RunStatus.routing_action h = (_, refl)
choose_at-starts at run RunStatus.verifying h = elim (Bool-cases (is_some run.verification)) [
  | inl verified ↦ rw verified (_, refl)
  | inr unverified ↦ rw unverified (_, refl)
]
choose_at-starts at run _ h = (_, refl)

-- A choice of an operation starts it, whether or not the run is saved first.
settle-starts :
    (owner : String) (choice : Choice) (s : RunStore) (operation : Operation)
    → choice.operation ≡ some operation
    → contains choice.run.id s.runs ≡ true
    → ((settle owner choice s).0 ≡ ok (some operation, choice.run))
      × ((settle owner choice s).1.run_leases ≡ s.run_leases)
unfolding settle save finish_claim
settle-starts owner choice s operation chosen there = elim (Bool-cases choice.is_changed) [
  | inl changed ↦ ground arith
  | inr kept ↦ ground arith
]

spent-failed :
    (status : RunStatus) (run : AuditRun)
    → spent_at status run ≡ true
    → (status ≡ RunStatus.failed_retryable) × (3 ≤ attempt_count run)
unfolding spent_at
spent-failed RunStatus.failed_retryable run h = (refl, ground arith)
spent-failed _ run h = cc

module _ (now at : ℕ) (owner : String) (busy : Bool) (run : AuditRun) (s : RunStore)
    (there : contains run.id s.runs ≡ true) where
  leased : RunStore
  leased = record s { run_leases = insert run.id (owner, now + run_lease_seconds) s.run_leases }

  barred :
      is_barred now owner busy run s ≡ true
      → ((claim_reserved now at owner busy run false s).0 ≡ ok (none, run))
        × ((claim_reserved now at owner busy run false s).1.runs ≡ s.runs)
  unfolding claim_reserved spent_at
  barred h = elim (Bool-cases busy) [
    | inl executing ↦ rw (executing, claim_reserved) (refl, refl)
    | inr idle ↦ elim (Bool-cases (is_over run.status)) [
      | inl over ↦ claim_reserved-barred now at owner busy run s there (inl over)
      | inr running ↦ elim (Bool-cases (spent_at run.status run)) [
        | inl spent ↦
            claim_reserved-barred now at owner busy run s there
              (inr (inl (spent-failed run.status run spent)))
        | inr left ↦ claim_reserved-barred now at owner busy run s there (inr (inr (ground arith)))
      ]
    ]
  ]

  claim-settle :
      is_barred now owner busy run s ≡ false
      → claim_reserved now at owner busy run false s ≡ settle owner (choose at false run) leased
  unfolding claim_reserved acquire_run_lease leased
  claim-settle h =
      let idle : busy ≡ false = ground arith in
      let running : is_over run.status ≡ false = ground arith in
      let free : is_held_by_other now owner (lookup run.id s.run_leases) ≡ false = ground arith in
      let taken : (acquire_run_lease now run.id owner run_lease_seconds s).1 ≡ leased =
        rw (there, free, acquire_run_lease) refl in
      rw (idle, running, there, free, claim_reserved, acquire_run_lease)
        (ap (settle owner (choose at false run)) taken)

  starts :
      is_barred now owner busy run s ≡ false
      → let (result, after) = claim_reserved now at owner busy run false s in
        (operation : Operation) × ((choose at false run).operation ≡ some operation)
        × (result ≡ ok (some operation, (choose at false run).run))
        × (lookup run.id after.run_leases ≡ some (owner, now + 1200))
  unfolding leased spent_at choose
  starts h =
      let left : spent_at run.status run ≡ false = ground arith in
      let (operation, chosen) = choose_at-starts at run run.status left in
      let same = (choose-Extends at false run).same_id in
      let kept : contains (choose at false run).run.id leased.runs ≡ true = rw same there in
      let (result, leases) =
        settle-starts owner (choose at false run) leased operation chosen kept in
      let steps = claim-settle h in
      (
        operation,
        chosen,
        ap (λ c. c.0) steps ∙ result,
        ap (λ c. lookup run.id c.1.run_leases) steps
            ∙ ap (λ l. lookup run.id l) leases
            ∙ rw
                (
                  lookup-insert run.id run.id (owner, now + run_lease_seconds) s.run_leases,
                  beq_self run.id,
                )
                (ground arith),
      )

-- Exactly when a claim of a stored run starts an operation: this process does not execute the run, it
-- is neither complete nor failed safe, it did not fail retryably with three attempts used up, and no other
-- worker holds its lease. Then the operation and the run are those of the choice, and the worker holds the
-- lease for twenty minutes; otherwise the worker gets the run as it was reserved, and no run changes.
pub claim_reserved-starts :
    (now at : ℕ) (owner : String) (busy : Bool) (run : AuditRun) (s : RunStore)
    → contains run.id s.runs ≡ true
    → let (result, after) = claim_reserved now at owner busy run false s in
      ((is_barred now owner busy run s ≡ true) × (result ≡ ok (none, run)) × (after.runs ≡ s.runs))
      ⊎ ((is_barred now owner busy run s ≡ false)
          × (operation : Operation) × ((choose at false run).operation ≡ some operation)
          × (result ≡ ok (some operation, (choose at false run).run))
          × (lookup run.id after.run_leases ≡ some (owner, now + 1200)))
claim_reserved-starts now at owner busy run s there =
    elim (Bool-cases (is_barred now owner busy run s)) [
      | inl refused ↦
          let (result, runs) = barred now at owner busy run s there refused in
          inl (refused, result, runs)
      | inr free ↦
          let (operation, chosen, result, lease) = starts now at owner busy run s there free in
          inr (free, operation, chosen, result, lease)
    ]
