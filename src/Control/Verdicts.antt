-- ===== src/Control/Verdicts.antt =====
-- What a verdict of the control says of its evidence, and of the product's answers (control.py).
use i_promise.Base.{
  ◌*◌, ◌<◌, ◌≤◌, ◌≡◌, ◌≢◌, ◌↔◌, ◌⊎◌, inl, refl, true, false, String, Option, none, some, List, [],
  ◌∷◌, arith,
}
use i_promise.Lists.{any, all}
use i_promise.Signed.{ℤ, pos, negsuc, hour}
use i_promise.Models.{Evidence, contradicted, inconclusive, supported}
use i_promise.Control.{
  SeededFixture, ProcessedDeletion, InspectedState, calculate_verdict, is_evidence_fail,
  is_evidence_unknown, is_evidence_pass, judge,
}

all_pass_no_fail :
    (evidence : List Evidence)
    → all is_evidence_pass evidence ≡ true
    → (any is_evidence_fail evidence ≡ false) × (any is_evidence_unknown evidence ≡ false)
all_pass_no_fail [] h = (refl, refl)
all_pass_no_fail (item ∷ rest) h = ground (arith, all_pass_no_fail rest)

-- A verdict says exactly what the evidence holds: CONTRADICTED that some item failed; SUPPORTED that
-- there is evidence and every item passed; any other evidence is INCONCLUSIVE.
pub calculate_verdict_iff :
    (evidence : List Evidence)
    → ((calculate_verdict evidence ≡ contradicted) ↔ (any is_evidence_fail evidence ≡ true))
      × ((calculate_verdict evidence ≡ supported)
          ↔ ((evidence ≢ []) × (all is_evidence_pass evidence ≡ true)))
      × ((calculate_verdict evidence ≡ inconclusive) ↔ (
          (any is_evidence_fail evidence ≡ false)
          × ((evidence ≡ []) ⊎ (all is_evidence_pass evidence ≡ false))))
unfolding calculate_verdict
calculate_verdict_iff [] = (
  (λ h. ground arith, λ h. ground arith),
  (λ h. ground arith, λ h. ground arith),
  (λ h. (refl, inl refl), λ h. refl),
)
calculate_verdict_iff (item ∷ rest) =
    let facts = all_pass_no_fail (item ∷ rest) in
    (
      (λ h. ground arith, λ h. ground arith),
      (λ h. (λ e. ground arith, ground arith), λ h. ground (arith, facts h.1)),
      (λ h. ground arith, λ h. ground (arith, facts)),
    )

-- The state was observed later than 24 hours after the request.
abbrev pub IsObservedLate : Option ℤ → Type 0
IsObservedLate none = ⊥
IsObservedLate (some (pos n)) = 24 * hour < n
IsObservedLate (some (negsuc n)) = ⊥

-- The worker ran between 0 and 24 hours after the request.
abbrev pub IsInTime : ℤ → Type 0
IsInTime (pos n) = n ≤ 24 * hour
IsInTime (negsuc n) = ⊥

-- The worker ran later than 24 hours after the request.
abbrev pub IsOverdue : ℤ → Type 0
IsOverdue (pos n) = 24 * hour < n
IsOverdue (negsuc n) = ⊥

-- The product kept the promise: observed after the deadline, the worker ran in time, and neither
-- store holds the profile.
abbrev pub IsKept : ProcessedDeletion → InspectedState → Type 0
IsKept processed state =
    IsObservedLate state.virtual_observation_elapsed
    × IsInTime processed.virtual_processing_elapsed
    × (state.profile_exists ≡ some false)
    × (state.analytics_profile_exists ≡ some false)

-- The control supports the promise exactly if the product kept it.
pub judge-supported :
    (format_2f : ℤ → String) (fixture : SeededFixture) (processed : ProcessedDeletion)
    (state : InspectedState)
    → ((judge format_2f fixture processed state).verdict ≡ supported) ↔ IsKept processed state
unfolding judge
judge-supported format_2f fixture processed state = (λ h. ground arith, λ k. ground arith)

-- The product broke the promise: observed after the deadline, a profile is still there, or the worker
-- ran after the deadline.
abbrev pub IsBroken : ProcessedDeletion → InspectedState → Type 0
IsBroken processed state =
    IsObservedLate state.virtual_observation_elapsed
    × ((state.profile_exists ≡ some true)
        ⊎ (state.analytics_profile_exists ≡ some true)
        ⊎ IsOverdue processed.virtual_processing_elapsed)
