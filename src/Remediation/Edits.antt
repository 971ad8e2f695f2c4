-- ===== src/Remediation/Edits.antt =====
-- The edits of remediation.py: exactly four, each at the one place where its anchor occurs.
use i_promise.Base.{◌≡◌, String, arith, nat_eq}
use i_promise.Bytes.{Bytes, count, replace_first}
use i_promise.Bytes.Replace.{IsEdited, replace_first-IsEdited}
use i_promise.Errors.{ok, >>=-eq-ok}
use i_promise.Remediation.{
  Pair, replace_exactly_once, apply_approved_edits, store_path, test_path, store_docstring_before,
  store_docstring_after, store_defect_before, store_defect_after, test_name_before, test_name_after,
  test_assertion_before, test_assertion_after,
}

-- An edit that succeeds replaces the only occurrence of its anchor.
pub replace_exactly_once-IsEdited :
    (content before after : Bytes) (path edit_name : String) {edited : Bytes}
    → replace_exactly_once content before after path edit_name ≡ ok edited
    → (count content before ≡ 1) × IsEdited content before after edited
unfolding replace_exactly_once
replace_exactly_once-IsEdited content before after path edit_name {edited} h =
    let once : count content before ≡ 1 = ground arith in
    let same : replace_first content before after ≡ edited = ground arith in
    (once, rw (← same) (replace_first-IsEdited content before after (omega (arith, once))))

-- Each file is changed at two anchors, each of which occurs once, and nowhere else.
pub record AreApprovedEdits (preimages candidates : Pair) : Type 0 where
  pub described : Bytes
  pub description :
      (count preimages.store store_docstring_before ≡ 1)
      × IsEdited preimages.store store_docstring_before store_docstring_after described
  pub repair :
      (count described store_defect_before ≡ 1)
      × IsEdited described store_defect_before store_defect_after candidates.store
  pub renamed : Bytes
  pub test_name :
      (count preimages.test test_name_before ≡ 1)
      × IsEdited preimages.test test_name_before test_name_after renamed
  pub assertion :
      (count renamed test_assertion_before ≡ 1)
      × IsEdited renamed test_assertion_before test_assertion_after candidates.test

same_pair :
    (store test : Bytes) (candidates : Pair)
    → ok (let p : Pair = record { store = store; test = test } in p) ≡ ok candidates
    → (store ≡ candidates.store) × (test ≡ candidates.test)
same_pair store test candidates h = ground arith

-- Candidates that are produced at all differ from their preimages by the four approved edits alone.
pub apply_approved_edits_lem :
    (preimages : Pair) {candidates : Pair}
    → apply_approved_edits preimages ≡ ok candidates
    → AreApprovedEdits preimages candidates
unfolding apply_approved_edits
apply_approved_edits_lem preimages {candidates} h =
    let (described, h₁, k₁) =
      >>=-eq-ok
        (replace_exactly_once preimages.store store_docstring_before store_docstring_after
          store_path "store module description")
        _ h in
    let (store, h₂, k₂) =
      >>=-eq-ok
        (replace_exactly_once described store_defect_before store_defect_after store_path
          "analytics deletion defect")
        _ k₁ in
    let (renamed, h₃, k₃) =
      >>=-eq-ok
        (replace_exactly_once preimages.test test_name_before test_name_after test_path
          "deletion regression test name")
        _ k₂ in
    let (test, h₄, k₄) =
      >>=-eq-ok
        (replace_exactly_once renamed test_assertion_before test_assertion_after test_path
          "analytics deletion regression assertion")
        _ k₃ in
    let same = same_pair store test candidates k₄ in
    record {
      described = described;
      description = replace_exactly_once-IsEdited _ _ _ _ _ h₁;
      repair = rw (← same.0) (replace_exactly_once-IsEdited _ _ _ _ _ h₂);
      renamed = renamed;
      test_name = replace_exactly_once-IsEdited _ _ _ _ _ h₃;
      assertion = rw (← same.1) (replace_exactly_once-IsEdited _ _ _ _ _ h₄);
    }
