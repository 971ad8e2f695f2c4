-- ===== src/Source.antt =====
-- services/agent/src/ipromise_agent/source.py: the capture of the visible text of a page, and the test
-- that a quote is grounded in it.
--
-- `html.parser` is outside the code: it turns a page into a sequence of tokens, and the parser of the
-- source handles each. Python pushes claims at the end of its stack, the model at the front.
pub mod Grounding
use i_promise.Base.{
  ℕ, zero, suc, ◌-◌, Bool, true, false, not, ◌&&◌, ◌||◌, String, Option, none, some, List, [], ◌∷◌,
  ◌++◌, map, ltb, leb, nat_beq, if◌then◌else◌, ◌==◌, string_eq, nat_eq,
}
use Prim.Native.String
use Prim.Native.Char.{Char, code}
use text.Mathlib.Text.{find?}
use i_promise.Dict.{Dict, values, lookup, insert}
use i_promise.Lists.{any}
use i_promise.Text.{concat}
use i_promise.Bytes.{Bytes, encode}

pub record CapturedSource : Type 0 where
  pub url : String
  pub title : String
  pub captured_at : ℕ
  pub content_hash : String
  pub html : String
  pub visible_text : String
  pub marked_claims : Dict String String

-- `\s` in a pattern on a text, and the blanks that `strip()` removes.
abbrev pub is_space : Char → Bool
is_space c =
    let n = code c in
    (leb 9 n && leb n 13)
    || (leb 28 n && leb n 32)
    || n == 133
    || n == 160
    || n == 5760
    || (leb 8192 n && leb n 8202)
    || n == 8232
    || n == 8233
    || n == 8239
    || n == 8287
    || n == 12288

-- The text with each run of blanks as one, and none at the ends. `started` says that a character came
-- before, `gap` that blanks stand between it and the rest.
unfoldable pub squeeze : Bool → Bool → String → String
squeeze started gap String.[] = ""
squeeze started gap (String.◌∷◌ c rest) = elim (is_space c) [
  | true ↦ squeeze started started rest
  | false ↦
      let tail = String.◌∷◌ c (squeeze true false rest) in if gap then String.◌∷◌ " " tail else tail
]

unfoldable pub normalize_visible_text : String → String
unfolding squeeze
normalize_visible_text value = squeeze false false value

-- `" ".join(parts)`
abbrev pub join : List String → String
join [] = ""
join (part ∷ []) = part
join (part ∷ next ∷ rest) = String.◌++◌ part (String.◌∷◌ " " (join (next ∷ rest)))

pub data Token : Type 0 where
  start_tag : String → List (String × Option String) → Token
  end_tag : String → Token
  text_data : String → Token

pub record OpenClaim : Type 0 where
  pub tag : String
  pub claim_id : String
  pub parts : List String

pub record VisibleTextParser : Type 0 where
  pub visible : List String
  pub title_parts : List String
  pub marked_claims : Dict String String
  pub suppressed_depth : ℕ
  pub in_title : Bool
  pub claim_stack : List OpenClaim

abbrev pub new_parser : VisibleTextParser
new_parser = record {
  visible = [];
  title_parts = [];
  marked_claims = [];
  suppressed_depth = 0;
  in_title = false;
  claim_stack = [];
}

-- `tag in {"script", "style", "noscript"}`
abbrev pub is_hidden_tag : String → Bool
is_hidden_tag tag = tag == "script" || tag == "style" || tag == "noscript"

-- `dict(attrs).get("data-ipromise-claim")`: the last of its values, where it has one.
abbrev pub claim_id_of : List (String × Option String) → Option String → Option String
claim_id_of [] found = found
claim_id_of ((name, value) ∷ rest) found =
    claim_id_of rest (if name == "data-ipromise-claim" then value else found)

abbrev pub push_claim : String → Option String → List OpenClaim → List OpenClaim
push_claim tag none stack = stack
push_claim tag (some claim_id) stack =
    if claim_id == "" then stack else record { tag = tag; claim_id = claim_id; parts = [] } ∷ stack

unfoldable pub handle_starttag :
    String → List (String × Option String) → VisibleTextParser → VisibleTextParser
handle_starttag tag attrs p =
    if is_hidden_tag tag
    then record p { suppressed_depth = suc p.suppressed_depth }
    else if ltb 0 p.suppressed_depth
    then p
    else record p {
      in_title = tag == "title" || p.in_title;
      claim_stack = push_claim tag (claim_id_of attrs none) p.claim_stack;
    }

-- The claim on top of the stack is closed by the tag that opened it.
unfoldable pub close_claim : String → List OpenClaim → VisibleTextParser → VisibleTextParser
unfolding normalize_visible_text
close_claim tag [] p = p
close_claim tag (claim ∷ stack) p =
    if claim.tag == tag
    then record p {
      claim_stack = stack;
      marked_claims =
          insert claim.claim_id (normalize_visible_text (join claim.parts)) p.marked_claims;
    }
    else p

unfoldable pub handle_endtag : String → VisibleTextParser → VisibleTextParser
unfolding close_claim
handle_endtag tag p =
    if is_hidden_tag tag && ltb 0 p.suppressed_depth
    then record p { suppressed_depth = p.suppressed_depth - 1 }
    else if ltb 0 p.suppressed_depth
    then p
    else close_claim tag p.claim_stack (record p { in_title = not (tag == "title") && p.in_title })

unfoldable pub handle_data : String → VisibleTextParser → VisibleTextParser
unfolding normalize_visible_text
handle_data data_text p =
    let text : String = normalize_visible_text data_text in
    if ltb 0 p.suppressed_depth || text == "" then p else record p {
      visible = p.visible ++ text ∷ [];
      title_parts = if p.in_title then p.title_parts ++ text ∷ [] else p.title_parts;
      claim_stack =
          map {A = OpenClaim} (λ claim. record claim { parts = claim.parts ++ text ∷ [] })
            p.claim_stack;
    }

unfoldable pub handle : Token → VisibleTextParser → VisibleTextParser
unfolding handle_starttag handle_endtag handle_data
handle (start_tag tag attrs) p = handle_starttag tag attrs p
handle (end_tag tag) p = handle_endtag tag p
handle (text_data data_text) p = handle_data data_text p

unfoldable pub feed : List Token → VisibleTextParser → VisibleTextParser
unfolding handle
feed [] p = p
feed (token ∷ rest) p = feed rest (handle token p)

unfoldable pub parse_capture :
    (Bytes → String) → (String → List Token) → String → String → ℕ → CapturedSource
unfolding feed normalize_visible_text
parse_capture sha256 tokens html url captured_at =
    let parser = feed (tokens html) new_parser in
    let title : String = normalize_visible_text (join parser.title_parts) in
    record {
      url = url;
      title = if title == "" then "Untitled source" else title;
      captured_at = captured_at;
      content_hash = concat ("sha256:" ∷ sha256 (encode html) ∷ []);
      html = html;
      visible_text = normalize_visible_text (join parser.visible);
      marked_claims = parser.marked_claims;
    }

-- `part in text`
abbrev pub is_part : String → String → Bool
is_part part text = elim (find? text part) [ none ↦ false | some _ ↦ true ]

-- The test on a normalised quote.
unfoldable pub is_grounded : String → CapturedSource → Bool
is_grounded quote capture = not (quote == "") && elim capture.marked_claims [
  | [] ↦ is_part quote capture.visible_text
  | _ ∷ _ ↦ any (λ claim. claim == quote) (values capture.marked_claims)
]

unfoldable pub exact_quote_is_grounded : String → CapturedSource → Bool
unfolding normalize_visible_text is_grounded
exact_quote_is_grounded exact_quote capture =
    is_grounded (normalize_visible_text exact_quote) capture
