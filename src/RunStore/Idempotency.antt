-- ===== src/RunStore/Idempotency.antt =====
-- One idempotency key, one run (store.py, `reserve`).
use i_promise.Base.{
  ℕ, ◌≡◌, refl, sym, ap, ◌∙◌, Bool, true, false, String, some, List, [], ◌∷◌, arith, ◌==◌,
  string_eq, pair_eq, beq_self, Option-cases, Bool-cases, inl, inr,
}
use i_promise.Dict.{lookup, contains, insert, lookup-insert, contains-insert}
use text.Mathlib.TextEquality.{eq_iff}
use i_promise.Models.{AuditRun}
use i_promise.Errors.{Result, ok}
use i_promise.RunStore.{
  RunStore, reserve, save, Call, reserving, saving, acquiring_action, apply, apply_all,
}

-- Every run is filed under its own id, and every key names a run that is there.
pub record IsConsistent (s : RunStore) : Type 0 where
  pub own_ids : (i : String) (run : AuditRun) → lookup i s.runs ≡ some run → run.id ≡ i
  pub keys_resolve : (key i : String) → lookup key s.idempotency ≡ some i → contains i s.runs ≡ true

own_ids-insert :
    (run : AuditRun) (s : RunStore)
    → IsConsistent s
    → (i : String) (found : AuditRun) → lookup i (insert run.id run s.runs) ≡ some found
    → found.id ≡ i
own_ids-insert run s c i found h =
    ground (arith, lookup-insert run.id i run s.runs, eq_iff run.id i, c.own_ids i found)

still_contained :
    (run : AuditRun) (s : RunStore) (i : String)
    → contains i s.runs ≡ true
    → contains i (insert run.id run s.runs) ≡ true
still_contained run s i h = ground (arith, contains-insert run.id i run s.runs)

reserved-IsConsistent :
    (key : String) (run : AuditRun) (s : RunStore)
    → IsConsistent s
    → IsConsistent (record s {
      runs = insert run.id run s.runs;
      idempotency = insert key run.id s.idempotency;
    })
reserved-IsConsistent key run s c = record {
  own_ids = own_ids-insert run s c;
  keys_resolve = λ k i h. elim (Bool-cases (key == k)) [
    | inl same ↦
        let e : run.id ≡ i = ground (arith, lookup-insert key k run.id s.idempotency) in
        rw (← e) (ground (arith, contains-insert run.id run.id run s.runs, beq_self run.id))
    | inr different ↦
        still_contained run s i
          (c.keys_resolve k i (ground (arith, lookup-insert key k run.id s.idempotency)))
  ];
}

saved-IsConsistent :
    (run : AuditRun) (s : RunStore)
    → IsConsistent s
    → IsConsistent (record s { runs = insert run.id run s.runs })
saved-IsConsistent run s c = record {
  own_ids = own_ids-insert run s c;
  keys_resolve = λ k i h. still_contained run s i (c.keys_resolve k i h);
}

reserve-IsConsistent :
    (key : String) (run : AuditRun) (s : RunStore)
    → IsConsistent s
    → IsConsistent (reserve key run s).1
unfolding reserve
reserve-IsConsistent key run s c = elim (Option-cases (lookup key s.idempotency)) [
  | inl fresh ↦ rw (fresh, reserve) (reserved-IsConsistent key run s c)
  | inr (i, known) ↦ elim (Option-cases (lookup i s.runs)) [
    | inl lost ↦ rw (known, lost, reserve) c
    | inr (stored, found) ↦ rw (known, found, reserve) c
  ]
]

save-IsConsistent : (run : AuditRun) (s : RunStore) → IsConsistent s → IsConsistent (save run s).1
unfolding save
save-IsConsistent run s c = elim (Bool-cases (contains run.id s.runs)) [
  | inl known ↦ rw known (saved-IsConsistent run s c)
  | inr unknown ↦ rw unknown c
]

-- The calls about leases leave the runs and the keys alone.
abbrev pub is_lease_call : Call → Bool
is_lease_call (reserving key run) = false
is_lease_call (saving run) = false
is_lease_call _ = true

lease_call_keeps :
    (now : ℕ) (call : Call) (s : RunStore)
    → is_lease_call call ≡ true
    → ((apply now call s).runs ≡ s.runs) × ((apply now call s).idempotency ≡ s.idempotency)
unfolding apply
lease_call_keeps now (reserving key run) s h = cc
lease_call_keeps now (acquiring_action run_id action_id owner seconds) s h =
    elim (Option-cases (lookup run_id s.runs)) [
      | inl lost ↦ rw (lost, apply) (refl, refl)
      | inr (stored, found) ↦ rw (found, apply) (ground arith)
    ]
lease_call_keeps now call s h = ground arith

IsConsistent-same :
    {s : RunStore} (t : RunStore)
    → t.runs ≡ s.runs
    → t.idempotency ≡ s.idempotency
    → IsConsistent s
    → IsConsistent t
IsConsistent-same t same_runs same_keys c = record {
  own_ids = rw same_runs c.own_ids;
  keys_resolve = rw (same_runs, same_keys) c.keys_resolve;
}

-- Every method keeps the store consistent, also where it raises.
pub apply-IsConsistent :
    (now : ℕ) (call : Call) (s : RunStore) → IsConsistent s → IsConsistent (apply now call s)
unfolding apply
apply-IsConsistent now (reserving key run) s c = reserve-IsConsistent key run s c
apply-IsConsistent now (saving run) s c = save-IsConsistent run s c
apply-IsConsistent now call s c =
    let kept = lease_call_keeps now call s refl in
    IsConsistent-same (apply now call s) kept.0 kept.1 c

-- A consistent store is consistent after any calls, in any order.
pub apply_all-IsConsistent :
    (calls : List (ℕ × Call)) (s : RunStore) → IsConsistent s → IsConsistent (apply_all calls s)
unfolding apply_all
apply_all-IsConsistent [] s c = c
apply_all-IsConsistent ((now, call) ∷ rest) s c =
    apply_all-IsConsistent rest (apply now call s) (apply-IsConsistent now call s c)

-- No call changes the run that a key names.
apply-keeps_key :
    (now : ℕ) (call : Call) (s : RunStore) (key i : String)
    → lookup key s.idempotency ≡ some i
    → lookup key (apply now call s).idempotency ≡ some i
unfolding apply reserve save
apply-keeps_key now (reserving k run) s key i h = elim (Option-cases (lookup k s.idempotency)) [
  | inl fresh ↦
      rw (fresh, apply, lookup-insert k key run.id s.idempotency) (ground (arith, eq_iff k key))
  | inr (j, known) ↦ elim (Option-cases (lookup j s.runs)) [
    | inl lost ↦ rw (known, lost, apply) h
    | inr (stored, found) ↦ rw (known, found, apply) h
  ]
]
apply-keeps_key now (saving run) s key i h = ground arith
apply-keeps_key now call s key i h = rw (lease_call_keeps now call s refl).1 h

apply_all-keeps_key :
    (calls : List (ℕ × Call)) (s : RunStore) (key i : String)
    → lookup key s.idempotency ≡ some i
    → lookup key (apply_all calls s).idempotency ≡ some i
unfolding apply_all
apply_all-keeps_key [] s key i h = h
apply_all-keeps_key ((now, call) ∷ rest) s key i h =
    apply_all-keeps_key rest (apply now call s) key i (apply-keeps_key now call s key i h)

ok_first :
    (a b : AuditRun) {x y : Bool}
    → ◌≡◌ {A = Result (AuditRun × Bool)} (ok (a, x)) (ok (b, y))
    → a ≡ b
ok_first a b h = ground arith

known_key_replays :
    (key i : String) (other : AuditRun) (s : RunStore)
    → IsConsistent s
    → lookup key s.idempotency ≡ some i
    → (again : AuditRun) × (reserve key other s ≡ (ok (again, false), s)) × (again.id ≡ i)
unfolding reserve
known_key_replays key i other s c named = elim (Option-cases (lookup i s.runs)) [
  | inl lost ↦ absurd (ground (arith, c.keys_resolve key i named))
  | inr (again, found) ↦ (again, rw (named, found, reserve) refl, c.own_ids i again found)
]

reserved_key :
    (key : String) (run : AuditRun) (s : RunStore) {first : AuditRun} {created : Bool}
    → IsConsistent s
    → (reserve key run s).0 ≡ ok (first, created)
    → lookup key (reserve key run s).1.idempotency ≡ some first.id
unfolding reserve
reserved_key key run s {first} {created} c h = elim (Option-cases (lookup key s.idempotency)) [
  | inl fresh ↦
      let e : run ≡ first = ok_first run first (rw (fresh, reserve) at h) in
      rw (fresh, reserve)
        (rw (lookup-insert key key run.id s.idempotency, beq_self key)
          (ap (λ (r : AuditRun). some r.id) e))
  | inr (i, known) ↦ elim (Option-cases (lookup i s.runs)) [
    | inl lost ↦ absurd (ground arith)
    | inr (stored, found) ↦
        let e : stored ≡ first = ok_first stored first (rw (known, found, reserve) at h) in
        rw (known, found, reserve) (rw (← e) (known ∙ ap some (sym (c.own_ids i stored found))))
  ]
]

-- Reservation is idempotent. In a consistent store, if a reservation with a key returned a run, then
-- after any calls by anyone, a reservation with that key returns a stored run of the same id, not
-- created anew, changes nothing, and does not use the run that its factory offers.
pub reserve_replays :
    (key : String) (run other : AuditRun) (s : RunStore) (calls : List (ℕ × Call))
    {first : AuditRun} {created : Bool}
    → IsConsistent s
    → (reserve key run s).0 ≡ ok (first, created)
    → let later = apply_all calls (reserve key run s).1 in
      (again : AuditRun) × (reserve key other later ≡ (ok (again, false), later))
      × (again.id ≡ first.id)
reserve_replays key run other s calls {first} c h =
    let reserved = (reserve key run s).1 in
    let later = apply_all calls reserved in
    let valid = apply_all-IsConsistent calls reserved (reserve-IsConsistent key run s c) in
    let named = apply_all-keeps_key calls reserved key first.id (reserved_key key run s c h) in
    known_key_replays key first.id other later valid named
