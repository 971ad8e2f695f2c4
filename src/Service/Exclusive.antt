-- ===== src/Service/Exclusive.antt =====
-- One worker executes a run at a time: what a claim (`create_run` of service.py) does to the store, and
-- what another claim with the same key then finds.
use i_promise.Base.{
  ℕ, ◌+◌, ◌<◌, ◌≡◌, ◌≢◌, refl, sym, ap, ◌∙◌, inl, inr, Bool, true, false, ◌||◌, String, Option,
  none, some, List, [], ◌∷◌, ◌++◌, arith, if◌then◌else◌, Bool-cases, Option-cases,
}
use i_promise.Errors.{Result, ok, err, Result-cases}
use i_promise.Models.{AuditRun}
use i_promise.StateMachine.{append_event}
use i_promise.RunStore.{
  RunStore, Call, saving, acquiring_run, apply, apply_all, reserve, save, acquire_run_lease,
}
use i_promise.RunStore.Idempotency.{IsConsistent, reserve_replays}
use i_promise.RunStore.Leases.{AreForeign, lease_excludes}
use i_promise.Service.{run_lease_seconds}
use i_promise.Service.Recovery.{reset_interrupted_run, resume_action_dispatch}
use i_promise.Service.Claiming.{
  Operation, Choice, choose, choose_at, retry_choice, finish_claim, settle, claim_reserved,
  claim_after, claim_run, is_over,
}

-- The call that stores a changed run.
abbrev saves_of : ℕ → Choice → List (ℕ × Call)
saves_of now choice = if choice.is_changed then ((now, saving choice.run) ∷ []) else []

same_claim :
    (operation other : Operation) (run claimed : AuditRun)
    → ◌≡◌ {A = Result (Option Operation × AuditRun)}
        (ok (some other, claimed))
        (ok (some operation, run))
    → run ≡ claimed
same_claim operation other run claimed e = ground arith

finish_claim-keeps :
    (owner : String) (choice : Choice) (saved : Result (Unit {0})) (s : RunStore)
    {operation : Operation} {run : AuditRun}
    → (finish_claim owner choice saved s).0 ≡ ok (some operation, run)
    → (run ≡ choice.run) × ((finish_claim owner choice saved s).1 ≡ s)
unfolding finish_claim
finish_claim-keeps owner choice (err e) s h = absurd (ground arith)
finish_claim-keeps owner choice (ok _) s {operation} {run} h =
    elim (Option-cases choice.operation) [
      | inl idle ↦ absurd (ground (arith, rw (idle, finish_claim) at h))
      | inr (other, chosen) ↦ (
        same_claim operation other run choice.run (rw (chosen, finish_claim) at h),
        rw (chosen, finish_claim) refl,
      )
    ]

settle-calls :
    (now : ℕ) (owner : String) (choice : Choice) (s : RunStore) {operation : Operation}
    {run : AuditRun}
    → (settle owner choice s).0 ≡ ok (some operation, run)
    → (run ≡ choice.run) × ((settle owner choice s).1 ≡ apply_all (saves_of now choice) s)
unfolding settle apply_all apply
settle-calls now owner choice s h = elim (Bool-cases choice.is_changed) [
  | inl changed ↦
      let (same, kept) =
        finish_claim-keeps owner choice (save choice.run s).0 (save choice.run s).1
          (rw (changed, settle) at h) in
      (same, rw (changed, settle) kept)
  | inr kept_run ↦
      let (same, kept) = finish_claim-keeps owner choice (ok tt) s (rw (kept_run, settle) at h) in
      (same, rw (kept_run, settle) kept)
]

choose-id : (now : ℕ) (created : Bool) (run : AuditRun) → (choose now created run).run.id ≡ run.id
unfolding choose choose_at retry_choice reset_interrupted_run resume_action_dispatch append_event
choose-id now created run = ground arith

-- What stands behind a claim that starts an operation.
record Started (now at : ℕ) (key : String) (offered : AuditRun) (owner : String) (s : RunStore)
    (run : AuditRun) (t : RunStore) : Type 0 where
  first : AuditRun
  created : Bool
  reserved : (reserve key offered s).0 ≡ ok (first, created)
  acquired :
      (acquire_run_lease now first.id owner run_lease_seconds (reserve key offered s).1).0 ≡ ok true
  same_id : run.id ≡ first.id
  final :
      t
      ≡ apply_all
          (saves_of now (choose at created first))
          (acquire_run_lease now first.id owner run_lease_seconds (reserve key offered s).1).1

claim_reserved-calls :
    (now at : ℕ) (owner : String) (busy : Bool) (first : AuditRun) (created : Bool) (s : RunStore)
    {operation : Operation} {run : AuditRun}
    → (claim_reserved now at owner busy first created s).0 ≡ ok (some operation, run)
    → let taken = acquire_run_lease now first.id owner run_lease_seconds s in
      (taken.0 ≡ ok true)
      × (run ≡ (choose at created first).run)
      × ((claim_reserved now at owner busy first created s).1
          ≡ apply_all (saves_of now (choose at created first)) taken.1)
unfolding claim_reserved
claim_reserved-calls now at owner busy first created s h =
    elim (Bool-cases (busy || is_over first.status)) [
      | inl over ↦ absurd (ground (arith, rw (over, claim_reserved) at h))
      | inr free ↦
          elim (Result-cases (acquire_run_lease now first.id owner run_lease_seconds s).0) [
            | inl (e, lost) ↦ absurd (ground (arith, rw (free, lost, claim_reserved) at h))
            | inr (false, refused) ↦
                absurd (ground (arith, rw (free, refused, claim_reserved) at h))
            | inr (true, taken) ↦
                let (same, kept) =
                  settle-calls now owner (choose at created first)
                    (acquire_run_lease now first.id owner run_lease_seconds s).1
                    (rw (free, taken, claim_reserved) at h) in
                (taken, same, rw (free, taken, claim_reserved) kept)
          ]
    ]

started :
    (now at : ℕ) (key : String) (offered : AuditRun) (owner : String) (busy : String → Bool)
    (s : RunStore) {operation : Operation} {run : AuditRun}
    → (claim_run now at key offered owner busy s).0 ≡ ok (some operation, run)
    → Started now at key offered owner s run (claim_run now at key offered owner busy s).1
unfolding claim_run claim_after
started now at key offered owner busy s {operation} {run} h =
    elim (Result-cases (reserve key offered s).0) [
      | inl (e, lost) ↦ absurd (ground (arith, rw (lost, claim_run, claim_after) at h))
      | inr ((first, created), reserved) ↦
          let (acquired, same, final) =
            claim_reserved-calls now at owner (busy first.id) first created
              (reserve key offered s).1 (rw (reserved, claim_run, claim_after) at h) in
          record {
            first = first;
            created = created;
            reserved = reserved;
            acquired = acquired;
            same_id = ap (λ r. r.id) same ∙ choose-id at created first;
            final = rw (reserved, claim_run, claim_after) final;
          }
    ]

apply_all-append :
    (xs ys : List (ℕ × Call)) (s : RunStore)
    → apply_all (xs ++ ys) s ≡ apply_all ys (apply_all xs s)
unfolding apply_all
apply_all-append [] ys s = refl
apply_all-append ((now, call) ∷ xs) ys s = apply_all-append xs ys (apply now call s)

saves-AreForeign :
    (now : ℕ) (choice : Choice) (run_id owner : String) (calls : List (ℕ × Call))
    → AreForeign run_id owner (now + run_lease_seconds) calls
    → AreForeign run_id owner (now + run_lease_seconds) (saves_of now choice ++ calls)
saves-AreForeign now choice run_id owner calls foreign = elim (Bool-cases choice.is_changed) [
  | inl changed ↦ rw changed (omega arith, refl, foreign)
  | inr kept ↦ rw kept foreign
]

barred_claim :
    (later at : ℕ) (rival : String) (again : AuditRun) (busy : Bool) (t : RunStore)
    → acquire_run_lease later again.id rival run_lease_seconds t ≡ (ok false, t)
    → claim_reserved later at rival busy again false t ≡ (ok (none, again), t)
unfolding claim_reserved
barred_claim later at rival again busy t barred = elim (Bool-cases (busy || is_over again.status)) [
  | inl over ↦ rw (claim_reserved, over) refl
  | inr free ↦
      rw (claim_reserved, free, ap (λ r. r.0) barred) (ap (λ r. (ok (none, again), r.1)) barred)
]

-- A claim that finds the lease of another worker.
refused_claim :
    (later at : ℕ) (key rival : String) (other again : AuditRun) (busy : String → Bool)
    (t : RunStore)
    → reserve key other t ≡ (ok (again, false), t)
    → acquire_run_lease later again.id rival run_lease_seconds t ≡ (ok false, t)
    → claim_run later at key other rival busy t ≡ (ok (none, again), t)
unfolding claim_run
refused_claim later at key rival other again busy t replayed barred =
    ap (claim_after later at rival busy) replayed
    ∙ barred_claim later at rival again (busy again.id) t barred

-- A claim that comes after another was granted, in the store that the calls between them left.
reserve_after :
    (now : ℕ) (key owner : String) (offered other first : AuditRun) (created : Bool) (s : RunStore)
    (between : List (ℕ × Call))
    → IsConsistent s
    → (reserve key offered s).0 ≡ ok (first, created)
    → let taken =
        (acquire_run_lease now first.id owner run_lease_seconds (reserve key offered s).1).1 in
      let u = apply_all between taken in
      (again : AuditRun) × (reserve key other u ≡ (ok (again, false), u)) × (again.id ≡ first.id)
unfolding apply_all apply
reserve_after now key owner offered other first created s between c reserved =
    reserve_replays key offered other s
      ((now, acquiring_run first.id owner run_lease_seconds) ∷ between) c reserved

-- One worker executes a run at a time. In a consistent store, if a claim with a key started an
-- operation on a run, then until its lease of twenty minutes expires, and whatever calls are made
-- except its worker's own about that lease, a claim with the same key by any other worker starts
-- nothing: it finds a run of the same id and leaves the store as it is.
pub claim_run-excludes :
    (now at later later_at : ℕ) (key owner rival : String) (offered other : AuditRun)
    (busy rival_busy : String → Bool) (s : RunStore) (calls : List (ℕ × Call))
    {operation : Operation} {run : AuditRun}
    → IsConsistent s
    → (claim_run now at key offered owner busy s).0 ≡ ok (some operation, run)
    → AreForeign run.id owner (now + run_lease_seconds) calls
    → later < now + run_lease_seconds
    → rival ≢ owner
    → let t = apply_all calls (claim_run now at key offered owner busy s).1 in
      (again : AuditRun) × (claim_run later later_at key other rival rival_busy t
        ≡ (ok (none, again), t))
      × (again.id ≡ run.id)
claim_run-excludes now at later later_at key owner rival offered other busy rival_busy s calls {run}
      c h foreign early different =
    let t = apply_all calls (claim_run now at key offered owner busy s).1 in
    let st = started now at key offered owner busy s h in
    let between = saves_of now (choose at st.created st.first) ++ calls in
    let reserved = (reserve key offered s).1 in
    let taken = (acquire_run_lease now st.first.id owner run_lease_seconds reserved).1 in
    let here : t ≡ apply_all between taken =
      ap (apply_all calls) st.final
      ∙ sym (apply_all-append (saves_of now (choose at st.created st.first)) calls taken) in
    let strangers : AreForeign st.first.id owner (now + run_lease_seconds) between =
      saves-AreForeign now (choose at st.created st.first) st.first.id owner calls
        (rw st.same_id at foreign) in
    let barred =
      lease_excludes now run_lease_seconds later run_lease_seconds st.first.id owner rival reserved
        between st.acquired strangers early different in
    let (again, replayed, same) =
      reserve_after now key owner offered other st.first st.created s between c st.reserved in
    let refusal =
      refused_claim later later_at key rival other again rival_busy (apply_all between taken)
        replayed (rw same barred) in
    (again, rw here refusal, same ∙ sym st.same_id)
