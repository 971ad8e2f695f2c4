-- ===== src/Source/Grounding.antt =====
-- What source.py captures and what it grounds a quote in.
use i_promise.Base.{
  ℕ, zero, suc, ◌-◌, ◌≡◌, refl, sym, ap, ◌∙◌, inl, inr, true, false, String, Option, none, some,
  List, [], ◌∷◌, ◌++◌, arith, ltb, if◌then◌else◌, Bool-cases, string_eq,
}
use i_promise.Source.{
  CapturedSource, is_space, squeeze, normalize_visible_text, Token, start_tag, end_tag, text_data,
  VisibleTextParser, is_hidden_tag, handle_starttag, handle_endtag, handle_data, handle, feed,
  is_grounded, exact_quote_is_grounded,
}

-- Squeezed text has no blanks to squeeze, whether it follows a character or a gap.
squeeze-again :
    (s : String)
    → (squeeze true false (squeeze true false s) ≡ squeeze true false s)
      × (squeeze true false (squeeze true true s) ≡ squeeze true true s)
unfolding squeeze
squeeze-again String.[] = (refl, refl)
squeeze-again (String.◌∷◌ c s) =
    let again = squeeze-again s in
    elim (Bool-cases (is_space c)) [
      | inl blank ↦ (rw (blank, squeeze) again.1, rw (blank, squeeze) again.1)
      | inr visible ↦ (
        rw (visible, squeeze, visible) (ap (String.◌∷◌ c) again.0),
        rw (visible, squeeze, visible) (ap (λ t. String.◌∷◌ " " (String.◌∷◌ c t)) again.0),
      )
    ]

squeeze-start : (s : String) → squeeze false false (squeeze false false s) ≡ squeeze false false s
unfolding squeeze
squeeze-start String.[] = refl
squeeze-start (String.◌∷◌ c s) = elim (Bool-cases (is_space c)) [
  | inl blank ↦ rw (blank, squeeze) (squeeze-start s)
  | inr visible ↦ rw (visible, squeeze, visible) (ap (String.◌∷◌ c) ((squeeze-again s).0))
]

-- Normalised text is normal, so a quote is grounded in a capture exactly if its normal form is.
pub grounded-normalize :
    (quote : String) (capture : CapturedSource)
    → (normalize_visible_text (normalize_visible_text quote) ≡ normalize_visible_text quote)
      × (exact_quote_is_grounded (normalize_visible_text quote) capture
          ≡ exact_quote_is_grounded quote capture)
unfolding normalize_visible_text exact_quote_is_grounded
grounded-normalize quote capture =
    (squeeze-start quote, ap (λ text. is_grounded text capture) (squeeze-start quote))

some_injective : {a b : ℕ} → some a ≡ some b → a ≡ b
some_injective h = cc

-- How deep tokens go into hidden elements, from one of depth `suc n`: `none` where they leave the
-- outermost, and else the depth less one.
abbrev pub hidden_depth : ℕ → List Token → Option ℕ
hidden_depth n [] = some n
hidden_depth n (start_tag tag attrs ∷ rest) =
    hidden_depth (if is_hidden_tag tag then suc n else n) rest
hidden_depth n (text_data data_text ∷ rest) = hidden_depth n rest
hidden_depth zero (end_tag tag ∷ rest) = if is_hidden_tag tag then none else hidden_depth zero rest
hidden_depth (suc n) (end_tag tag ∷ rest) =
    hidden_depth (if is_hidden_tag tag then n else suc n) rest

abbrev at_depth : ℕ → VisibleTextParser → VisibleTextParser
at_depth n p = record p { suppressed_depth = n }

deep : (n : ℕ) → ltb 0 (suc n) ≡ true
deep n = ground arith

less_one : (n : ℕ) → suc (suc n) - 1 ≡ suc n
less_one n = omega arith

feed-hidden :
    (tokens : List Token) (n : ℕ) (p : VisibleTextParser) {m : ℕ}
    → hidden_depth n tokens ≡ some m
    → feed tokens (at_depth (suc n) p) ≡ at_depth (suc m) p
unfolding feed handle_starttag handle_endtag handle_data
feed-hidden [] n p h = ap (λ d. at_depth (suc d) p) (some_injective h)
feed-hidden (start_tag tag attrs ∷ rest) n p h = elim (Bool-cases (is_hidden_tag tag)) [
  | inl hidden ↦ rw (hidden, feed) (feed-hidden rest (suc n) p (rw hidden at h))
  | inr shown ↦ rw (shown, deep n, feed) (feed-hidden rest n p (rw shown at h))
]
feed-hidden (text_data data_text ∷ rest) n p h = rw (deep n, feed) (feed-hidden rest n p h)
feed-hidden (end_tag tag ∷ rest) zero p h = elim (Bool-cases (is_hidden_tag tag)) [
  | inl hidden ↦ absurd (ground (arith, rw hidden at h))
  | inr shown ↦ rw (shown, feed) (feed-hidden rest zero p (rw shown at h))
]
feed-hidden (end_tag tag ∷ rest) (suc n) p h = elim (Bool-cases (is_hidden_tag tag)) [
  | inl hidden ↦ rw (hidden, deep (suc n), less_one n, feed) (feed-hidden rest n p (rw hidden at h))
  | inr shown ↦ rw (shown, deep (suc n), feed) (feed-hidden rest (suc n) p (rw shown at h))
]

feed-append : (xs ys : List Token) (p : VisibleTextParser) → feed (xs ++ ys) p ≡ feed ys (feed xs p)
unfolding feed
feed-append [] ys p = refl
feed-append (token ∷ xs) ys p = feed-append xs ys (handle token p)

-- Text in a script, a style or a noscript element is never captured: a parser that is outside of such
-- elements is the same after one with all it holds, so neither the visible text nor the title, the
-- marked claims or the open claims change.
pub feed-hidden_element :
    (tag closing : String) (attrs : List (String × Option String)) (inner : List Token)
    (p : VisibleTextParser)
    → is_hidden_tag tag ≡ true
    → is_hidden_tag closing ≡ true
    → hidden_depth 0 inner ≡ some 0
    → p.suppressed_depth ≡ 0
    → feed (start_tag tag attrs ∷ inner ++ end_tag closing ∷ []) p ≡ p
unfolding feed handle_starttag handle_endtag
feed-hidden_element tag closing attrs inner p opens closes balanced outside =
    let entered : handle_starttag tag attrs p ≡ at_depth 1 p =
      rw (opens, handle_starttag) (ap (λ d. at_depth (suc d) p) outside) in
    let left : handle_endtag closing (at_depth 1 p) ≡ p =
      rw (closes, handle_endtag) (ap (λ d. at_depth d p) (sym outside)) in
    ap (feed (inner ++ end_tag closing ∷ [])) entered
    ∙ feed-append inner (end_tag closing ∷ []) (at_depth 1 p)
    ∙ ap (λ q. handle_endtag closing q) (feed-hidden inner 0 p balanced)
    ∙ left
