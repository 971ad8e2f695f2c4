-- ===== src/RunStore.antt =====
-- services/agent/src/ipromise_agent/store.py: `InMemoryRunStore`. Its `asyncio.Lock` makes each
-- method one step, so a method is a function from the store to its result and the new store. A run
-- is a value here, so `model_copy(deep=True)` is the identity. `now` is what `time.time()` returns.
pub mod Idempotency
pub mod Leases
pub mod Listing
use i_promise.Base.{
  ℕ, ◌+◌, Bool, true, false, not, ◌&&◌, String, Option, none, some, List, [], ◌∷◌, ltb, leb,
  if◌then◌else◌, ◌==◌, string_eq, pair_eq,
}
use i_promise.Dict.{Dict, lookup, contains, insert, erase, values}
use i_promise.Lists.{any, take}
use i_promise.Models.{AuditRun}
use i_promise.Errors.{Result, ok, err, key_error}

-- An owner and the time at which the lease expires.
abbrev pub Lease : Type 0
Lease = String × ℕ

pub record RunStore : Type 0 where
  pub runs : Dict String AuditRun
  pub idempotency : Dict String String
  pub run_leases : Dict String Lease
  pub action_leases : Dict (String × String) Lease

abbrev pub new : RunStore
new = record { runs = []; idempotency = []; run_leases = []; action_leases = [] }

-- `run` is what `factory()` returns.
unfoldable pub reserve : String → AuditRun → RunStore → Result (AuditRun × Bool) × RunStore
reserve idempotency_key run s = elim (lookup idempotency_key s.idempotency) [
  | some existing_id ↦ elim (lookup existing_id s.runs) [
    | some existing ↦ (ok (existing, false), s)
    | none ↦ (err (key_error existing_id), s)
  ]
  | none ↦ (
    ok (run, true),
    record s {
      runs = insert run.id run s.runs;
      idempotency = insert idempotency_key run.id s.idempotency;
    },
  )
]

unfoldable pub save : AuditRun → RunStore → Result (Unit {0}) × RunStore
save run s =
    if contains run.id s.runs
    then (ok tt, record s { runs = insert run.id run s.runs })
    else (err (key_error run.id), s)

unfoldable pub get : String → RunStore → Option AuditRun
get run_id s = lookup run_id s.runs

-- `max(runs, key=started_at)`: the first of the largest.
unfoldable pub max_started : AuditRun → List AuditRun → AuditRun
max_started best [] = best
max_started best (run ∷ rest) =
    max_started (if ltb best.started_at run.started_at then run else best) rest

unfoldable pub latest : RunStore → Option AuditRun
unfolding max_started
latest s = elim (values s.runs) [ [] ↦ none | run ∷ rest ↦ some (max_started run rest) ]

unfoldable pub insert_descending : AuditRun → List AuditRun → List AuditRun
insert_descending run [] = run ∷ []
insert_descending run (other ∷ rest) =
    if leb other.started_at run.started_at
    then run ∷ other ∷ rest
    else other ∷ insert_descending run rest

-- `sorted(…, key=started_at, reverse=True)`, which keeps the order of equals.
unfoldable pub sort_descending : List AuditRun → List AuditRun
unfolding insert_descending
sort_descending [] = []
sort_descending (run ∷ rest) = insert_descending run (sort_descending rest)

unfoldable pub list : ℕ → RunStore → List AuditRun
unfolding sort_descending
list limit s = take limit (sort_descending (values s.runs))

-- `current is not None and current_owner != owner and expires_at > now`
abbrev pub is_held_by_other : ℕ → String → Option Lease → Bool
is_held_by_other now owner none = false
is_held_by_other now owner (some (current_owner, expires_at)) =
    not (current_owner == owner) && ltb now expires_at

unfoldable pub acquire_run_lease : ℕ → String → String → ℕ → RunStore → Result Bool × RunStore
acquire_run_lease now run_id owner lease_seconds s =
    if contains run_id s.runs
    then if is_held_by_other now owner (lookup run_id s.run_leases) then (ok false, s) else (
      ok true,
      record s { run_leases = insert run_id (owner, now + lease_seconds) s.run_leases },
    )
    else (err (key_error run_id), s)

-- `current is not None and current[0] == owner`
abbrev pub is_held_by : String → Option Lease → Bool
is_held_by owner none = false
is_held_by owner (some (current_owner, expires_at)) = current_owner == owner

unfoldable pub release_run_lease : String → String → RunStore → RunStore
release_run_lease run_id owner s =
    if is_held_by owner (lookup run_id s.run_leases)
    then record s { run_leases = erase run_id s.run_leases }
    else s

unfoldable pub acquire_action_lease :
    ℕ → String → String → String → ℕ → RunStore → Result Bool × RunStore
acquire_action_lease now run_id action_id owner lease_seconds s = elim (lookup run_id s.runs) [
  | none ↦ (err (key_error run_id), s)
  | some run ↦
      if any (λ action. action.id == action_id) run.actions
      then if is_held_by_other now owner (lookup (run_id, action_id) s.action_leases)
        then (ok false, s)
        else (
          ok true,
          record s {
            action_leases = insert (run_id, action_id) (owner, now + lease_seconds) s.action_leases;
          },
        )
      else (err (key_error action_id), s)
]

unfoldable pub release_action_lease : String → String → String → RunStore → RunStore
release_action_lease run_id action_id owner s =
    if is_held_by owner (lookup (run_id, action_id) s.action_leases)
    then record s { action_leases = erase (run_id, action_id) s.action_leases }
    else s

-- The methods that change the store, as calls that any number of workers make in any order.
pub data Call : Type 0 where
  reserving : String → AuditRun → Call
  saving : AuditRun → Call
  acquiring_run : String → String → ℕ → Call
  releasing_run : String → String → Call
  acquiring_action : String → String → String → ℕ → Call
  releasing_action : String → String → String → Call

-- The store after one call at a time.
unfoldable pub apply : ℕ → Call → RunStore → RunStore
unfolding reserve save acquire_run_lease release_run_lease acquire_action_lease release_action_lease
apply now (reserving key run) s = (reserve key run s).1
apply now (saving run) s = (save run s).1
apply now (acquiring_run run_id owner seconds) s = (acquire_run_lease now run_id owner seconds s).1
apply now (releasing_run run_id owner) s = release_run_lease run_id owner s
apply now (acquiring_action run_id action_id owner seconds) s =
    (acquire_action_lease now run_id action_id owner seconds s).1
apply now (releasing_action run_id action_id owner) s =
    release_action_lease run_id action_id owner s

unfoldable pub apply_all : List (ℕ × Call) → RunStore → RunStore
unfolding apply
apply_all [] s = s
apply_all ((now, call) ∷ rest) s = apply_all rest (apply now call s)
