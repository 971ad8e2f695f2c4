-- ===== src/Errors.antt =====
-- The exceptions that the agent raises and catches, and calls that may raise.
use i_promise.Base.{ℕ, ◌≡◌, ◌⊎◌, inl, inr, refl, ap, Bool, true, false, String, Option}
use i_promise.Models.{ActionKind}

-- The attributes of `ClaimCompilationError` (compiler.py).
pub record CompilationError : Type 0 where
  pub message : String
  pub model_invoked : Bool
  pub model : Option String
  pub framework : Option String
  pub retryable : Bool

-- Of an exception that is only named in a message, the model keeps the class name.
pub data Exception : Type 0 where
  invalid_transition unsafe_action_plan key_error value_error : String → Exception
  claim_compilation : CompilationError → Exception
  network_error : String → Exception
  publication_rejected publish_uncertain github_integration : String → Exception
  github_not_configured github_authorization : String → Exception
  bounded_remediation verifier_artifact : String → Exception
  external_action_checkpoint : ActionKind → ℕ → String → Exception
  completion_checkpoint : String → Exception
  other : String → Exception

pub data Result {ℓ} (A : Type ℓ) : Type ℓ where
  ok : A → Result A
  err : Exception → Result A

module _ {ℓ κ} {A : Type ℓ} {B : Type κ} where
  infixl 5 ◌>>=◌ ◌>>◌
  abbrev pub ◌>>=◌ : Result A → (A → Result B) → Result B
  err raised >>= next = err raised
  ok value >>= next = next value

  abbrev pub ◌>>◌ : Result A → Result B → Result B
  first >> then = first >>= λ _. then

-- `if not condition: raise error`
abbrev pub guard : Bool → Exception → Result (Unit {0})
guard true e = ok tt
guard false e = err e

pub >>=-eq-ok {ℓ κ} :
    {A : Type ℓ} {B : Type κ} (first : Result A) (next : A → Result B) {result : B}
    → (first >>= next) ≡ ok result
    → (value : A) × (first ≡ ok value) × (next value ≡ ok result)
>>=-eq-ok (err raised) next h = cc
>>=-eq-ok (ok value) next h = (value, refl, h)

pub >>-eq-ok {ℓ} :
    {B : Type ℓ} (m : Result (Unit {0})) (k : Result B) {b : B}
    → (m >> k) ≡ ok b
    → (m ≡ ok tt) × (k ≡ ok b)
>>-eq-ok (ok tt) k h = (refl, h)
>>-eq-ok (err e) k h = cc

-- What a passed check says.
pub guard-eq-ok : (b : Bool) (e : Exception) → guard b e ≡ ok tt → b ≡ true
guard-eq-ok true e h = refl
guard-eq-ok false e h = cc

-- A check that passed, and what came after it.
pub guarded {ℓ} :
    {B : Type ℓ} (c : Bool) (e : Exception) (k : Result B) {b : B}
    → (guard c e >> k) ≡ ok b
    → (c ≡ true) × (k ≡ ok b)
guarded true e k h = (refl, h)
guarded false e k h = cc

-- To split on the outcome of a call and keep the equation.
pub Result-cases {ℓ} :
    {A : Type ℓ} (r : Result A) → ((e : Exception) × (r ≡ err e)) ⊎ ((a : A) × (r ≡ ok a))
Result-cases (ok a) = inr (a, refl)
Result-cases (err e) = inl (e, refl)

pub ok_injective {ℓ} : {A : Type ℓ} {a b : A} → ok a ≡ ok b → a ≡ b
ok_injective {a} h = ap (λ r. elim r [ ok value ↦ value | err _ ↦ a ]) h

pub err_injective {ℓ} : {A : Type ℓ} {e f : Exception} → Path (Result A) (err e) (err f) → e ≡ f
err_injective {A} {e} h = ap (λ (r : Result A). elim r [ ok _ ↦ e | err raised ↦ raised ]) h
