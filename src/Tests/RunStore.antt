-- ===== src/Tests/RunStore.antt =====
-- Tests of RunStore.
use i_promise.Base.{ℕ, ◌+◌, ◌≡◌, ◌≢◌, refl, true, false, String, some, List, [], ◌∷◌, arith}
use text.Mathlib.TextEquality.{eq_iff}
use i_promise.Models.{AuditRun}
use i_promise.Errors.{ok}
use i_promise.RunStore.{
  RunStore, new, reserve, latest, Call, saving, acquiring_run, releasing_run, apply_all,
  acquire_run_lease, release_run_lease,
}
use i_promise.RunStore.Idempotency.{IsConsistent, reserve_replays, apply_all-IsConsistent}
use i_promise.RunStore.Leases.{lease_excludes, lease_recovers, AreForeign}
use i_promise.Tests.Samples.{sample_run, later_run}

pub new-IsConsistent : IsConsistent new
new-IsConsistent = record { own_ids = λ i run h. cc; keys_resolve = λ key i h. cc }

-- Another worker takes, and gives back, the lease of the run.
abbrev other_calls : List (ℕ × Call)
other_calls =
    (10, acquiring_run "run_0001" "worker_b" 60)
    ∷ (11, saving sample_run)
    ∷ (12, releasing_run "run_0001" "worker_b")
    ∷ []

reserve_replays_example :
    let later = apply_all other_calls (reserve "key-00001" sample_run new).1 in
    (again : AuditRun) × (reserve "key-00001" later_run later ≡ (ok (again, false), later))
    × (again.id ≡ "run_0001")
unfolding reserve
reserve_replays_example =
    reserve_replays "key-00001" sample_run later_run new other_calls {created = true}
      new-IsConsistent refl

apply_all-IsConsistent_example : IsConsistent (apply_all other_calls new)
apply_all-IsConsistent_example = apply_all-IsConsistent other_calls new new-IsConsistent

abbrev reserved : RunStore
reserved = record new { runs = ("run_0001", sample_run) ∷ [] }

foreign : AreForeign "run_0001" "worker_a" (5 + 60) other_calls
foreign = (omega arith, refl, (omega arith, refl, (omega arith, refl, tt)))

pub rivals : ◌≢◌ {A = String} "worker_b" "worker_a"
rivals = ground (arith, eq_iff "worker_b" "worker_a")

lease_excludes_example :
    let t = apply_all other_calls (acquire_run_lease 5 "run_0001" "worker_a" 60 reserved).1 in
    acquire_run_lease 64 "run_0001" "worker_b" 60 t ≡ (ok false, t)
unfolding acquire_run_lease
lease_excludes_example =
    lease_excludes 5 60 64 60 "run_0001" "worker_a" "worker_b" reserved other_calls refl foreign
      (omega arith) rivals

lease_recovers_example :
    let t = apply_all other_calls (acquire_run_lease 5 "run_0001" "worker_a" 60 reserved).1 in
    ((acquire_run_lease 65 "run_0001" "worker_b" 60 t).0 ≡ ok true)
    × ((acquire_run_lease 20 "run_0001" "worker_b" 60 (release_run_lease "run_0001" "worker_a" t)).0
        ≡ ok true)
unfolding acquire_run_lease
lease_recovers_example =
    lease_recovers 5 60 65 20 60 "run_0001" "worker_a" "worker_b" reserved other_calls refl foreign
      (omega arith)

abbrev two_runs : RunStore
two_runs = record new { runs = ("run_0001", sample_run) ∷ ("run_0002", later_run) ∷ [] }

latest_two : latest two_runs ≡ some later_run
unfolding latest
latest_two = refl
