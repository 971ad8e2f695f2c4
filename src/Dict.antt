-- ===== src/Dict.antt =====
-- A Python dict, in insertion order, over keys with a lawful equality.
use i_promise.Base.{
  ◌≡◌, refl, Bool, true, false, ◌||◌, Option, none, some, List, [], ◌∷◌, map, arith, if◌then◌else◌,
  Eq, ◌==◌,
}

abbrev pub Dict {ℓ κ} : Type ℓ → Type κ → Type (ℓ ⊔ κ)
Dict K V = List (K × V)

-- `d.values()`
abbrev pub values {ℓ κ} : {K : Type ℓ} {V : Type κ} → Dict K V → List V
values d = map (λ entry. entry.1) d

abbrev pub keep_if {ℓ} : {V : Type ℓ} → (V → Bool) → Option V → Option V
keep_if p none = none
keep_if p (some v) = if p v then some v else none

module _ {ℓ κ} {K : Type ℓ} {V : Type κ} ⦃e : Eq K⦄ where
  -- `d.get(k)`
  abbrev pub lookup : K → Dict K V → Option V
  lookup k [] = none
  lookup k ((j, v) ∷ d) = if j == k then some v else lookup k d

  -- `k in d`
  abbrev pub contains : K → Dict K V → Bool
  contains k d = elim (lookup k d) [ none ↦ false | some _ ↦ true ]

  -- `d[k] = v`
  abbrev pub insert : K → V → Dict K V → Dict K V
  insert k v [] = (k, v) ∷ []
  insert k v ((j, w) ∷ d) = if j == k then (j, v) ∷ d else (j, w) ∷ insert k v d

  -- `d.pop(k, None)`. The keys of a dict are different, so removing every match is the same.
  abbrev pub erase : K → Dict K V → Dict K V
  erase k [] = []
  erase k ((j, w) ∷ d) = if j == k then erase k d else (j, w) ∷ erase k d

  -- `{k: v for k, v in d.items() if p(v)}`. The keys are different, so nothing else is erased.
  abbrev pub keep : (V → Bool) → Dict K V → Dict K V
  keep p [] = []
  keep p ((j, w) ∷ d) = let rest = keep p d in if p w then (j, w) ∷ rest else erase j rest

  pub lookup-insert :
      (k j : K) (v : V) (d : Dict K V)
      → lookup j (insert k v d) ≡ (if k == j then some v else lookup j d)
  lookup-insert k j v [] = refl
  lookup-insert k j v ((i, w) ∷ d) =
      ground (arith, e.same_iff i k, e.same_iff k j, e.same_iff i j, lookup-insert k j v d)

  pub lookup-erase :
      (k j : K) (d : Dict K V) → lookup j (erase k d) ≡ (if k == j then none else lookup j d)
  lookup-erase k j [] = ground arith
  lookup-erase k j ((i, w) ∷ d) =
      ground (arith, e.same_iff i k, e.same_iff k j, e.same_iff i j, lookup-erase k j d)

  pub contains-insert :
      (k j : K) (v : V) (d : Dict K V) → contains j (insert k v d) ≡ (k == j || contains j d)
  contains-insert k j v d = rw (contains, lookup-insert k j v d) (ground arith)

  pub lookup-keep :
      (p : V → Bool) (k : K) (d : Dict K V) → lookup k (keep p d) ≡ keep_if p (lookup k d)
  lookup-keep p k [] = refl
  lookup-keep p k ((j, w) ∷ d) =
      ground (arith, e.same_iff j k, lookup-keep p k d, lookup-erase j k (keep p d))
