-- ===== src/RunStore/Leases.antt =====
-- Mutual exclusion by leases (store.py, `acquire_run_lease` and `acquire_action_lease`).
use i_promise.Base.{
  ℕ, ◌+◌, ◌<◌, ◌≤◌, ◌≡◌, ◌≢◌, Bool, true, false, ◌&&◌, String, some, List, [], ◌∷◌, arith, ◌==◌,
  string_eq, pair_eq, beq_self, Bool-cases, inl, inr,
}
use i_promise.Dict.{lookup, contains, lookup-insert, lookup-erase, contains-insert}
use text.Mathlib.TextEquality.{eq_iff}
use i_promise.Models.{AuditRun}
use i_promise.Errors.{ok}
use i_promise.RunStore.{
  RunStore, reserve, save, Call, reserving, saving, acquiring_run, releasing_run, acquiring_action,
  releasing_action, apply, apply_all, acquire_run_lease, release_run_lease, acquire_action_lease,
  release_action_lease,
}

-- A call that the worker `owner` makes about the execution lease of the run.
abbrev pub is_own_call : String → String → Call → Bool
is_own_call run_id owner (acquiring_run i caller seconds) = i == run_id && caller == owner
is_own_call run_id owner (releasing_run i caller) = i == run_id && caller == owner
is_own_call run_id owner _ = false

-- Calls made before `deadline`, none of them by `owner` about its lease.
abbrev pub AreForeign : String → String → ℕ → List (ℕ × Call) → Type 0
AreForeign run_id owner deadline [] = Unit
AreForeign run_id owner deadline ((now, call) ∷ rest) =
    (now < deadline)
    × (is_own_call run_id owner call ≡ false)
    × AreForeign run_id owner deadline rest

-- Another worker cannot take over a lease that has not expired.
acquire-keeps :
    (now seconds expires : ℕ) (i run_id caller owner : String) (s : RunStore)
    → lookup run_id s.run_leases ≡ some (owner, expires)
    → now < expires
    → (i == run_id && caller == owner) ≡ false
    → lookup run_id (acquire_run_lease now i caller seconds s).1.run_leases ≡ some (owner, expires)
unfolding acquire_run_lease
acquire-keeps now seconds expires i run_id caller owner s held early foreign =
    elim (Bool-cases (i == run_id)) [
      | inl same ↦
          rw ((eq_iff i run_id).0 same) (ground (arith, eq_iff caller owner, eq_iff owner caller))
      | inr different ↦ ground (arith, lookup-insert i run_id (caller, now + seconds) s.run_leases)
    ]

release-keeps :
    (expires : ℕ) (i run_id caller owner : String) (s : RunStore)
    → lookup run_id s.run_leases ≡ some (owner, expires)
    → (i == run_id && caller == owner) ≡ false
    → lookup run_id (release_run_lease i caller s).run_leases ≡ some (owner, expires)
unfolding release_run_lease
release-keeps expires i run_id caller owner s held foreign = elim (Bool-cases (i == run_id)) [
  | inl same ↦
      rw ((eq_iff i run_id).0 same) (ground (arith, eq_iff caller owner, eq_iff owner caller))
  | inr different ↦ ground (arith, lookup-erase i run_id s.run_leases)
]

action_call-keeps :
    (now seconds : ℕ) (i action_id caller : String) (s : RunStore)
    → ((acquire_action_lease now i action_id caller seconds s).1.run_leases ≡ s.run_leases)
      × ((release_action_lease i action_id caller s).run_leases ≡ s.run_leases)
unfolding acquire_action_lease release_action_lease
action_call-keeps now seconds i action_id caller s = (ground arith, ground arith)

reserve-save-keep :
    (key : String) (run : AuditRun) (s : RunStore)
    → ((reserve key run s).1.run_leases ≡ s.run_leases) × ((save run s).1.run_leases ≡ s.run_leases)
unfolding reserve save
reserve-save-keep key run s = (ground arith, ground arith)

apply-keeps_lease :
    (now expires : ℕ) (call : Call) (run_id owner : String) (s : RunStore)
    → lookup run_id s.run_leases ≡ some (owner, expires)
    → now < expires
    → is_own_call run_id owner call ≡ false
    → lookup run_id (apply now call s).run_leases ≡ some (owner, expires)
unfolding apply
apply-keeps_lease now expires (reserving key run) run_id owner s held early foreign =
    rw ((reserve-save-keep key run s).0) held
apply-keeps_lease now expires (saving run) run_id owner s held early foreign =
    rw ((reserve-save-keep "" run s).1) held
apply-keeps_lease now expires (acquiring_run i caller seconds) run_id owner s held early foreign =
    acquire-keeps now seconds expires i run_id caller owner s held early foreign
apply-keeps_lease now expires (releasing_run i caller) run_id owner s held early foreign =
    release-keeps expires i run_id caller owner s held foreign
apply-keeps_lease now expires (acquiring_action i action_id caller seconds) run_id owner s held
      early foreign =
    rw ((action_call-keeps now seconds i action_id caller s).0) held
apply-keeps_lease now expires (releasing_action i action_id caller) run_id owner s held early
      foreign =
    rw ((action_call-keeps now 0 i action_id caller s).1) held

-- A lease lasts until it expires: over any calls that are made before then and that its owner does
-- not make about it, it stays as it is.
lease_lasts :
    (calls : List (ℕ × Call)) (expires : ℕ) (run_id owner : String) (s : RunStore)
    → lookup run_id s.run_leases ≡ some (owner, expires)
    → AreForeign run_id owner expires calls
    → lookup run_id (apply_all calls s).run_leases ≡ some (owner, expires)
unfolding apply_all
lease_lasts [] expires run_id owner s held foreign = held
lease_lasts ((now, call) ∷ rest) expires run_id owner s held (early, other, later) =
    lease_lasts rest expires run_id owner (apply now call s)
      (apply-keeps_lease now expires call run_id owner s held early other) later

acquired_lease :
    (now seconds : ℕ) (run_id owner : String) (s : RunStore)
    → (acquire_run_lease now run_id owner seconds s).0 ≡ ok true
    → let after = (acquire_run_lease now run_id owner seconds s).1 in
      (lookup run_id after.run_leases ≡ some (owner, now + seconds))
      × (contains run_id after.runs ≡ true)
unfolding acquire_run_lease
acquired_lease now seconds run_id owner s h =
    ground (arith, lookup-insert run_id run_id (owner, now + seconds) s.run_leases, beq_self run_id)

apply-keeps_run :
    (now : ℕ) (call : Call) (s : RunStore) (i : String)
    → contains i s.runs ≡ true
    → contains i (apply now call s).runs ≡ true
unfolding apply reserve save acquire_run_lease release_run_lease acquire_action_lease
    release_action_lease
apply-keeps_run now (reserving key run) s i h = ground (arith, contains-insert run.id i run s.runs)
apply-keeps_run now (saving run) s i h = ground (arith, contains-insert run.id i run s.runs)
apply-keeps_run now call s i h = ground arith

apply_all-keeps_run :
    (calls : List (ℕ × Call)) (s : RunStore) (i : String)
    → contains i s.runs ≡ true
    → contains i (apply_all calls s).runs ≡ true
unfolding apply_all
apply_all-keeps_run [] s i h = h
apply_all-keeps_run ((now, call) ∷ rest) s i h =
    apply_all-keeps_run rest (apply now call s) i (apply-keeps_run now call s i h)

refused :
    (now seconds : ℕ) (run_id owner rival : String) (expires : ℕ) (s : RunStore)
    → contains run_id s.runs ≡ true
    → lookup run_id s.run_leases ≡ some (owner, expires)
    → now < expires
    → rival ≢ owner
    → acquire_run_lease now run_id rival seconds s ≡ (ok false, s)
unfolding acquire_run_lease
refused now seconds run_id owner rival expires s there held early different =
    ground (arith, eq_iff owner rival)

-- Mutual exclusion. Once a worker has acquired the execution lease of a run, then until the lease
-- expires, and whatever calls are made except its own about that lease, every other worker that
-- tries to acquire it is refused and changes nothing.
pub lease_excludes :
    (now seconds later more : ℕ) (run_id owner rival : String) (s : RunStore)
    (calls : List (ℕ × Call))
    → (acquire_run_lease now run_id owner seconds s).0 ≡ ok true
    → AreForeign run_id owner (now + seconds) calls
    → later < now + seconds
    → rival ≢ owner
    → let t = apply_all calls (acquire_run_lease now run_id owner seconds s).1 in
      acquire_run_lease later run_id rival more t ≡ (ok false, t)
unfolding acquire_run_lease
lease_excludes now seconds later more run_id owner rival s calls h foreign early different =
    let taken = (acquire_run_lease now run_id owner seconds s).1 in
    let t = apply_all calls taken in
    let got = acquired_lease now seconds run_id owner s h in
    let held = lease_lasts calls (now + seconds) run_id owner taken got.0 foreign in
    let there = apply_all-keeps_run calls taken run_id got.1 in
    refused later more run_id owner rival (now + seconds) t there held early different

granted :
    (now seconds : ℕ) (run_id owner rival : String) (expires : ℕ) (s : RunStore)
    → contains run_id s.runs ≡ true
    → lookup run_id s.run_leases ≡ some (owner, expires)
    → expires ≤ now
    → (acquire_run_lease now run_id rival seconds s).0 ≡ ok true
unfolding acquire_run_lease
granted now seconds run_id owner rival expires s there held late = ground arith

granted_after_release :
    (now seconds : ℕ) (run_id owner rival : String) (expires : ℕ) (s : RunStore)
    → contains run_id s.runs ≡ true
    → lookup run_id s.run_leases ≡ some (owner, expires)
    → (acquire_run_lease now run_id rival seconds (release_run_lease run_id owner s)).0 ≡ ok true
unfolding acquire_run_lease release_run_lease
granted_after_release now seconds run_id owner rival expires s there held =
    ground (arith, eq_iff owner owner, lookup-erase run_id run_id s.run_leases, beq_self run_id)

-- No run stays locked. After a worker has acquired the execution lease of a run and others have
-- made calls while it lasted, anyone acquires it once it has expired, and at any time once its
-- owner has released it.
pub lease_recovers :
    (now seconds late any_time more : ℕ) (run_id owner rival : String) (s : RunStore)
    (calls : List (ℕ × Call))
    → (acquire_run_lease now run_id owner seconds s).0 ≡ ok true
    → AreForeign run_id owner (now + seconds) calls
    → now + seconds ≤ late
    → let t = apply_all calls (acquire_run_lease now run_id owner seconds s).1 in
      ((acquire_run_lease late run_id rival more t).0 ≡ ok true)
      × ((acquire_run_lease any_time run_id rival more (release_run_lease run_id owner t)).0
          ≡ ok true)
lease_recovers now seconds late any_time more run_id owner rival s calls h foreign past =
    let taken = (acquire_run_lease now run_id owner seconds s).1 in
    let t = apply_all calls taken in
    let got = acquired_lease now seconds run_id owner s h in
    let held = lease_lasts calls (now + seconds) run_id owner taken got.0 foreign in
    let there = apply_all-keeps_run calls taken run_id got.1 in
    (
      granted late more run_id owner rival (now + seconds) t there held past,
      granted_after_release any_time more run_id owner rival (now + seconds) t there held,
    )
