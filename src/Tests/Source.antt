-- ===== src/Tests/Source.antt =====
-- Tests of Source.
use i_promise.Base.{◌≡◌, refl, some, List, [], ◌∷◌, ◌++◌}
use i_promise.Source.{
  CapturedSource, Token, start_tag, end_tag, text_data, new_parser, feed, handle, handle_starttag,
  handle_endtag, handle_data, close_claim, normalize_visible_text, squeeze, parse_capture,
}
use i_promise.Source.Grounding.{feed-hidden_element}

abbrev page : List Token
page =
    start_tag "p" (("data-ipromise-claim", some "deletion") ∷ [])
    ∷ text_data "  We  delete "
    ∷ start_tag "script" []
    ∷ text_data "hidden"
    ∷ end_tag "script"
    ∷ text_data "your account "
    ∷ end_tag "p"
    ∷ []

abbrev capture : CapturedSource
unfolding parse_capture feed handle handle_starttag handle_endtag handle_data close_claim
    normalize_visible_text squeeze
capture = parse_capture (λ content. "") (λ html. page) "" "http://127.0.0.1:8081/privacy" 1000

captured : capture.marked_claims ≡ ("deletion", "We delete your account") ∷ []
unfolding capture parse_capture feed handle handle_starttag handle_endtag handle_data close_claim
    normalize_visible_text squeeze
captured = refl

feed-hidden_element_example :
    feed
      (start_tag "script" [] ∷ (text_data "hidden" ∷ start_tag "style" [] ∷ end_tag "style" ∷ [])
        ++ end_tag "script" ∷ [])
      new_parser
    ≡ new_parser
feed-hidden_element_example =
    feed-hidden_element "script" "script" []
      (text_data "hidden" ∷ start_tag "style" [] ∷ end_tag "style" ∷ []) new_parser refl refl refl
      refl
