-- ===== src/Lists.antt =====
-- List operations over the native numbers, and Python's `xs[-1]`.
use i_promise.Base.{
  ℕ, zero, suc, ◌+◌, ◌≡◌, refl, ap, Bool, true, false, ◌&&◌, ◌||◌, Option, none, some, List, [],
  ◌∷◌, ◌++◌, map, arith,
}

module _ {ℓ} {A : Type ℓ} where
  abbrev pub length : List A → ℕ
  length [] = 0
  length (x ∷ xs) = suc (length xs)

  abbrev pub take : ℕ → List A → List A
  take zero xs = []
  take (suc n) [] = []
  take (suc n) (x ∷ xs) = x ∷ take n xs

  -- `xs[-1]`
  abbrev pub last? : List A → Option A
  last? [] = none
  last? (x ∷ []) = some x
  last? (x ∷ y ∷ ys) = last? (y ∷ ys)

  -- `xs[-1] = f(xs[-1])`
  abbrev pub update_last : (A → A) → List A → List A
  update_last f [] = []
  update_last f (x ∷ []) = f x ∷ []
  update_last f (x ∷ y ∷ ys) = x ∷ update_last f (y ∷ ys)

  abbrev pub any : (A → Bool) → List A → Bool
  any p [] = false
  any p (x ∷ xs) = p x || any p xs

  abbrev pub all : (A → Bool) → List A → Bool
  all p [] = true
  all p (x ∷ xs) = p x && all p xs

  -- Every item has a property.
  abbrev pub Every {κ} : (A → Type κ) → List A → Type κ
  Every P [] = Unit
  Every P (x ∷ xs) = P x × Every P xs

  -- `sum(p(x) for x in xs)`
  abbrev pub count_if : (A → Bool) → List A → ℕ
  count_if p [] = 0
  count_if p (x ∷ xs) = elim (p x) [ true ↦ suc (count_if p xs) | false ↦ count_if p xs ]

  -- `next((x for x in xs if p(x)), None)`
  abbrev pub find_first : (A → Bool) → List A → Option A
  find_first p [] = none
  find_first p (x ∷ xs) = elim (p x) [ true ↦ some x | false ↦ find_first p xs ]

  pub Every-map {κ μ ν} :
      {P : A → Type κ} {Q : A → Type μ} {R : A → Type ν} (xs : List A)
      → ((x : A) → P x → Q x → R x)
      → Every P xs
      → Every Q xs
      → Every R xs
  Every-map [] f p q = tt
  Every-map (x ∷ xs) f (p, ps) (q, qs) = (f x p q, Every-map xs f ps qs)

  pub length-append : (xs ys : List A) → length (xs ++ ys) ≡ length xs + length ys
  length-append [] ys = omega arith
  length-append (x ∷ xs) ys = omega (arith, length-append xs ys)

  pub length-snoc : (xs : List A) (y : A) → length (xs ++ y ∷ []) ≡ suc (length xs)
  length-snoc xs y = omega (arith, length-append xs (y ∷ []))

  pub last?-snoc : (xs : List A) (y : A) → last? (xs ++ y ∷ []) ≡ some y
  last?-snoc [] y = refl
  last?-snoc (x ∷ []) y = refl
  last?-snoc (x ∷ z ∷ zs) y = last?-snoc (z ∷ zs) y

  pub update_last-snoc :
      (f : A → A) (xs : List A) (y : A) → update_last f (xs ++ y ∷ []) ≡ xs ++ f y ∷ []
  update_last-snoc f [] y = refl
  update_last-snoc f (x ∷ []) y = refl
  update_last-snoc f (x ∷ z ∷ zs) y = ap (λ l. x ∷ l) (update_last-snoc f (z ∷ zs) y)

  pub length-update_last : (f : A → A) (xs : List A) → length (update_last f xs) ≡ length xs
  length-update_last f [] = refl
  length-update_last f (x ∷ []) = refl
  length-update_last f (x ∷ y ∷ ys) = ap suc (length-update_last f (y ∷ ys))

  pub last?-update_last :
      (f : A → A) (xs : List A)
      → last? (update_last f xs) ≡ elim (last? xs) [ none ↦ none | some x ↦ some (f x) ]
  last?-update_last f [] = refl
  last?-update_last f (x ∷ []) = refl
  last?-update_last f (x ∷ y ∷ []) = refl
  last?-update_last f (x ∷ y ∷ z ∷ zs) = last?-update_last f (y ∷ z ∷ zs)

  pub any-append : (p : A → Bool) (xs ys : List A) → any p (xs ++ ys) ≡ (any p xs || any p ys)
  any-append p [] ys = refl
  any-append p (x ∷ xs) ys = ground (arith, any-append p xs ys)

  pub count_if-append :
      (p : A → Bool) (xs ys : List A) → count_if p (xs ++ ys) ≡ count_if p xs + count_if p ys
  count_if-append p [] ys = omega arith
  count_if-append p (x ∷ xs) ys = ground (arith, count_if-append p xs ys)

  -- An update of the last item that keeps `p` keeps the count.
  pub count_if-update_last :
      (p : A → Bool) (f : A → A) (xs : List A)
      → ((x : A) → p (f x) ≡ p x)
      → count_if p (update_last f xs) ≡ count_if p xs
  count_if-update_last p f [] keep = refl
  count_if-update_last p f (x ∷ []) keep = ground (arith, keep x)
  count_if-update_last p f (x ∷ y ∷ ys) keep =
      ground (arith, count_if-update_last p f (y ∷ ys) keep)

-- An update of the last item that keeps a field keeps the list of that field.
pub map-update_last {ℓ κ} :
    {A : Type ℓ} {B : Type κ} (g : A → B) (f : A → A) (xs : List A)
    → ((x : A) → g (f x) ≡ g x)
    → map g (update_last f xs) ≡ map g xs
map-update_last g f [] keep = refl
map-update_last g f (x ∷ []) keep = ap (λ b. b ∷ []) (keep x)
map-update_last g f (x ∷ y ∷ ys) keep = ap (λ l. g x ∷ l) (map-update_last g f (y ∷ ys) keep)
