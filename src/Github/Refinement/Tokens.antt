-- ===== src/Github/Refinement/Tokens.antt =====
-- The states of the OAuth handshake of github.py, in both stores.
use i_promise.Base.{
  ℕ, ◌≡◌, ◌≢◌, refl, sym, ap, ◌∙◌, Bool, true, false, String, Option, none, some, leb,
  if◌then◌else◌, ◌==◌, string_eq, beq_ne,
}
use i_promise.Dict.{Dict, lookup, insert, erase, keep, lookup-insert, lookup-erase}
use i_promise.Github.Documents.{StateDocument}
use i_promise.Github.Refinement.{live, live-keep, StateKind, unissued, AreSeparate}

module _ {V : Type 0} (view : Option StateDocument → Option V) (view-none : view none ≡ none) where
  view-erase :
      (key k : String) (d : Dict String StateDocument)
      → view (lookup k (erase key d)) ≡ (if key == k then none else view (lookup k d))
  view-erase key k d = rw (lookup-erase key k d) (at (key == k))
    where
      at :
          (b : Bool)
          → view (if b then none else lookup k d) ≡ (if b then none else view (lookup k d))
      at true = view-none
      at false = refl

  view-insert :
      (key k : String) (document : StateDocument) (d : Dict String StateDocument)
      → view (lookup k (insert key document d))
        ≡ (if key == k then view (some document) else view (lookup k d))
  view-insert key k document d = rw (lookup-insert key k document d) (at (key == k))
    where
      at :
          (b : Bool)
          → view (if b then some document else lookup k d)
            ≡ (if b then view (some document) else view (lookup k d))
      at true = refl
      at false = refl

bool_same : (b c : Bool) → (b ≡ true → c ≡ true) → (c ≡ true → b ≡ true) → b ≡ c
bool_same true c f g = sym (f refl)
bool_same false true f g = g refl
bool_same false false f g = refl

module _ (state_id : String → String) (kind : String → StateKind)
    (separate : AreSeparate state_id kind) where
  -- Two issued states are filed under the same name exactly if they are the same.
  same_id :
      (a b : String) → kind a ≢ unissued → kind b ≢ unissued → (state_id a == state_id b) ≡ (a == b)
  same_id a b issued issued' =
      bool_same _ _
        (λ h.
          (string_eq.same_iff a b).1
            (separate a b issued issued' ((string_eq.same_iff (state_id a) (state_id b)).0 h)))
        (λ h.
          (string_eq.same_iff (state_id a) (state_id b)).1
            (ap state_id ((string_eq.same_iff a b).0 h)))

  module _ {V : Type 0} (expiry : V → ℕ) (view : Option StateDocument → Option V)
      (view-none : view none ≡ none) (now : ℕ) (state s : String) (issued : kind state ≢ unissued)
      (issued' : kind s ≢ unissued) (d : Dict String V)
      (documents : Dict String StateDocument) where
    -- The live entry of `s` is the same in the dict and in its document.
    abbrev AgreeIn : Dict String V → Dict String StateDocument → Type 0
    AgreeIn e docs =
        live expiry now (lookup s e) ≡ live expiry now (view (lookup (state_id s) docs))

    pub erased-agrees :
        AgreeIn d documents
        → AgreeIn
            (keep (λ v. leb now (expiry v)) (erase state d))
            (erase (state_id state) documents)
    erased-agrees h =
        live-keep expiry now s (erase state d)
        ∙ rw
            (
              lookup-erase state s d,
              view-erase view view-none (state_id state) (state_id s) documents,
              same_id state s issued issued',
            )
            (at (state == s))
      where
        at :
            (b : Bool)
            → live expiry now (if b then none else lookup s d)
              ≡ live expiry now (if b then none else view (lookup (state_id s) documents))
        at true = refl
        at false = h

    pub inserted-agrees :
        (v : V) (document : StateDocument)
        → view (some document) ≡ some v
        → AgreeIn d documents
        → AgreeIn (insert state v d) (insert (state_id state) document documents)
    inserted-agrees v document e h =
        rw
          (
            lookup-insert state s v d,
            view-insert view view-none (state_id state) (state_id s) document documents,
            same_id state s issued issued',
            e,
          )
          (at (state == s))
      where
        at :
            (b : Bool)
            → live expiry now (if b then some v else lookup s d)
              ≡ live expiry now (if b then some v else view (lookup (state_id s) documents))
        at true = refl
        at false = h

    other : state ≢ s → (state_id state == state_id s) ≡ false
    other ne = same_id state s issued issued' ∙ beq_ne state s ne

    -- A document of another state does not matter.
    pub erased_other-agrees :
        state ≢ s
        → AgreeIn d documents
        → AgreeIn (keep (λ v. leb now (expiry v)) d) (erase (state_id state) documents)
    erased_other-agrees ne h =
        live-keep expiry now s d
        ∙ rw (view-erase view view-none (state_id state) (state_id s) documents, other ne) h

    pub inserted_other-agrees :
        (document : StateDocument)
        → state ≢ s
        → AgreeIn d documents
        → AgreeIn d (insert (state_id state) document documents)
    inserted_other-agrees document ne h =
        rw (view-insert view view-none (state_id state) (state_id s) document documents, other ne) h
