-- ===== src/RunStore/Listing.antt =====
-- `latest` and `list` (store.py) against one another.
use i_promise.Base.{
  ℕ, zero, suc, ◌≤◌, ◌≡◌, refl, sym, ap, ◌∙◌, ◌++◌, Option, none, some, List, [], ◌∷◌, arith, leb,
  ltb, if◌then◌else◌, Bool-cases, inl, inr,
}
use Prim.Native.Nat.{min}
use mathlib.Core.List.{Perm}
use mathlib.Core.List.Perm
use i_promise.Lists.{length, take}
use i_promise.Dict.{values}
use i_promise.Models.{AuditRun}
use i_promise.RunStore.{RunStore, max_started, latest, insert_descending, sort_descending, list}

abbrev pub head? {ℓ} : {A : Type ℓ} → List A → Option A
head? [] = none
head? (x ∷ xs) = some x

-- Each run started no earlier than those after it.
abbrev pub IsDescending : List AuditRun → Type 0
IsDescending [] = Unit
IsDescending (run ∷ []) = Unit
IsDescending (run ∷ other ∷ rest) =
    (other.started_at ≤ run.started_at) × IsDescending (other ∷ rest)

-- The one of two runs that `max` prefers, where `run` comes first.
abbrev preferred : AuditRun → Option AuditRun → AuditRun
preferred run none = run
preferred run (some other) = if ltb run.started_at other.started_at then other else run

max_started-preferred :
    (best run : AuditRun) (rest : List AuditRun)
    → max_started best (run ∷ rest) ≡ preferred best (some (max_started run rest))
unfolding max_started
max_started-preferred best run [] = refl
max_started-preferred best run (next ∷ rest) =
    elim (Bool-cases (ltb best.started_at run.started_at)) [
      | inl later ↦ ground (arith, max_started-preferred run next rest)
      | inr earlier ↦
          ground (arith, max_started-preferred best next rest, max_started-preferred run next rest)
    ]

head-insert_descending :
    (run : AuditRun) (rest : List AuditRun)
    → head? (insert_descending run rest) ≡ some (preferred run (head? rest))
unfolding insert_descending
head-insert_descending run [] = refl
head-insert_descending run (other ∷ rest) = ground arith

head-sort_descending :
    (run : AuditRun) (rest : List AuditRun)
    → head? (sort_descending (run ∷ rest)) ≡ some (max_started run rest)
unfolding sort_descending max_started
head-sort_descending run [] = refl
head-sort_descending run (other ∷ rest) =
    head-insert_descending run (sort_descending (other ∷ rest))
    ∙ ap (λ o. some (preferred run o)) (head-sort_descending other rest)
    ∙ ap some (sym (max_started-preferred run other rest))

insert_descending-IsDescending :
    (run : AuditRun) (rest : List AuditRun)
    → IsDescending rest
    → IsDescending (insert_descending run rest)
unfolding insert_descending
insert_descending-IsDescending run [] h = tt
insert_descending-IsDescending run (other ∷ []) h = ground arith
insert_descending-IsDescending run (other ∷ next ∷ rest) h =
    ground (arith, insert_descending-IsDescending run (next ∷ rest) h.1)

sort_descending-IsDescending : (runs : List AuditRun) → IsDescending (sort_descending runs)
unfolding sort_descending
sort_descending-IsDescending [] = tt
sort_descending-IsDescending (run ∷ rest) =
    insert_descending-IsDescending run (sort_descending rest) (sort_descending-IsDescending rest)

insert_descending-perm :
    (run : AuditRun) (rest : List AuditRun) → Perm (insert_descending run rest) (run ∷ rest)
unfolding insert_descending
insert_descending-perm run [] = Perm.refl (run ∷ [])
insert_descending-perm run (other ∷ rest) =
    elim (Bool-cases (leb other.started_at run.started_at)) [
      | inl first ↦ rw (first, insert_descending) (Perm.refl (run ∷ other ∷ rest))
      | inr after ↦
          rw (after, insert_descending)
            (Perm.trans (Perm.cons other (insert_descending-perm run rest))
              (Perm.swap run other rest))
    ]

sort_descending-perm : (runs : List AuditRun) → Perm (sort_descending runs) runs
unfolding sort_descending
sort_descending-perm [] = Perm.refl []
sort_descending-perm (run ∷ rest) =
    Perm.trans (insert_descending-perm run (sort_descending rest))
      (Perm.cons run (sort_descending-perm rest))

length-insert_descending :
    (run : AuditRun) (rest : List AuditRun)
    → length (insert_descending run rest) ≡ suc (length rest)
unfolding insert_descending
length-insert_descending run [] = refl
length-insert_descending run (other ∷ rest) = ground (arith, length-insert_descending run rest)

length-sort_descending : (runs : List AuditRun) → length (sort_descending runs) ≡ length runs
unfolding sort_descending
length-sort_descending [] = refl
length-sort_descending (run ∷ rest) =
    length-insert_descending run (sort_descending rest) ∙ ap suc (length-sort_descending rest)

head-take {ℓ} : {A : Type ℓ} (n : ℕ) (xs : List A) → head? (take (suc n) xs) ≡ head? xs
head-take n [] = refl
head-take n (x ∷ xs) = refl

latest_of :
    (runs : List AuditRun) (limit : ℕ)
    → elim runs [ [] ↦ none | run ∷ rest ↦ some (max_started run rest) ]
      ≡ head? (take (suc limit) (sort_descending runs))
unfolding max_started sort_descending
latest_of [] limit = refl
latest_of (run ∷ rest) limit =
    sym (head-take limit (sort_descending (run ∷ rest)) ∙ head-sort_descending run rest)

abbrev drop {ℓ} : {A : Type ℓ} → ℕ → List A → List A
drop zero xs = xs
drop (suc n) [] = []
drop (suc n) (x ∷ xs) = drop n xs

take-append_drop {ℓ} : {A : Type ℓ} (n : ℕ) (xs : List A) → take n xs ++ drop n xs ≡ xs
take-append_drop zero xs = refl
take-append_drop (suc n) [] = refl
take-append_drop (suc n) (x ∷ xs) = ap (λ l. x ∷ l) (take-append_drop n xs)

length-take {ℓ} : {A : Type ℓ} (n : ℕ) (xs : List A) → length (take n xs) ≡ min n (length xs)
length-take zero xs = omega arith
length-take (suc n) [] = omega arith
length-take (suc n) (x ∷ xs) = omega (arith, length-take n xs)

-- `list(limit)` is a front part of the stored runs, newest first: with some rest it is an
-- arrangement of all of them in which each run started no earlier than the next, and it has as many
-- runs as there are, up to the limit.
pub list-IsDescending :
    (limit : ℕ) (s : RunStore)
    → (rest : List AuditRun) × IsDescending (list limit s ++ rest)
      × Perm (list limit s ++ rest) (values s.runs)
      × (length (list limit s) ≡ min limit (length (values s.runs)))
unfolding list
list-IsDescending limit s =
    let sorted = sort_descending (values s.runs) in
    let whole = take-append_drop limit sorted in
    (
      drop limit sorted,
      rw whole (sort_descending-IsDescending (values s.runs)),
      rw whole (sort_descending-perm (values s.runs)),
      length-take limit sorted ∙ ap (min limit) (length-sort_descending (values s.runs)),
    )

-- `latest()` is the first run of `list(limit)`, for any limit that is not 0.
pub latest-list : (limit : ℕ) (s : RunStore) → latest s ≡ head? (list (suc limit) s)
unfolding latest list
latest-list limit s = latest_of (values s.runs) limit
