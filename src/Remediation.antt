-- ===== src/Remediation.antt =====
-- services/agent/src/ipromise_agent/remediation.py: the one approved repair of the demo product, as
-- an artifact that is bound to exact bytes.
--
-- `Platform` holds what Python's standard library computes: the hexadecimal SHA-256 of bytes, the
-- decoding of UTF-8 (`none` where it fails), the text of `difflib.unified_diff` for two texts and
-- two file names, and `str.splitlines`.
mod Template
pub mod Artifact
pub mod Build
pub mod Edits
unfoldable pub use Template.*
use i_promise.Base.{
  ℕ, ◌+◌, Bool, true, false, not, ◌&&◌, ◌||◌, String, Option, none, some, List, [], ◌∷◌, map, ltb,
  leb, if◌then◌else◌, ◌==◌, string_eq, nat_eq,
}
use text.Mathlib.Text.{starts_with}
use i_promise.Dict.{Dict, lookup, contains}
use i_promise.Lists.{length, all, count_if}
use i_promise.Text.{concat, decimal, is_hex}
use i_promise.Bytes.{Bytes, encode, count, replace_first}
use i_promise.Models.{FileEdit, RemediationProposal, VerificationReceipt, VerificationResult}
use i_promise.Models
use i_promise.Errors.{Exception, Result, ok, err, bounded_remediation, ◌>>=◌, ◌>>◌, guard}

pub record Platform : Type 0 where
  pub sha256 : Bytes → String
  pub decode : Bytes → Option String
  pub unified_diff : String → String → String → String → String
  pub splitlines : String → List String

pub record CandidateFile : Type 0 where
  pub path : String
  pub preimage_sha256 : String
  pub candidate_sha256 : String
  pub content : Bytes

pub record BoundedRemediationArtifact : Type 0 where
  pub schema_version : String
  pub base_reference : String
  pub candidate_files : List CandidateFile
  pub unified_diff : String
  pub unified_diff_sha256 : String

-- The properties `preimage_hashes`, `candidate_hashes` and `candidate_tree`.
abbrev pub preimage_hashes : BoundedRemediationArtifact → Dict String String
preimage_hashes artifact = map (λ item. (item.path, item.preimage_sha256)) artifact.candidate_files

abbrev pub candidate_hashes : BoundedRemediationArtifact → Dict String String
candidate_hashes artifact =
    map (λ item. (item.path, item.candidate_sha256)) artifact.candidate_files

abbrev pub candidate_tree : BoundedRemediationArtifact → Dict String Bytes
candidate_tree artifact = map (λ item. (item.path, item.content)) artifact.candidate_files

-- The bytes of the two approved files, in the order of their paths.
pub record Pair : Type 0 where
  pub store : Bytes
  pub test : Bytes

unfoldable pub replace_exactly_once : Bytes → Bytes → Bytes → String → String → Result Bytes
replace_exactly_once content before after path edit_name =
    let occurrences = count content before in
    if not (occurrences == 1)
    then err (
        bounded_remediation (
          concat (
            "Ambiguous "
            ∷ edit_name
            ∷ " in "
            ∷ path
            ∷ ": expected exactly one anchor, found "
            ∷ decimal occurrences
            ∷ [])))
    else ok (replace_first content before after)

-- `set(preimages) == set(ALLOWED_REMEDIATION_PATHS)`
abbrev has_allowed_paths : Dict String Bytes → Bool
has_allowed_paths preimages =
    contains store_path preimages
    && contains test_path preimages
    && all (λ entry. entry.0 == store_path || entry.0 == test_path) preimages

-- `preimages[path]`, where the path is there.
abbrev get_path : String → Dict String Bytes → Result Bytes
get_path path preimages = elim (lookup path preimages) [
  | none ↦ err (Exception.key_error path)
  | some content ↦ ok content
]

-- The fetcher's exceptions are turned into one of this module.
abbrev fetched : String → Result Bytes → Result Bytes
fetched path (ok content) = ok content
fetched path (err e) =
    err (bounded_remediation (concat ("Could not fetch approved preimage " ∷ path ∷ [])))

-- The preimages, from exactly one of the two sources.
unfoldable pub loaded_preimages :
    String → Option (Dict String Bytes) → Option (String → String → Result Bytes) → Result Pair
loaded_preimages base_reference (some preimages) none =
    if has_allowed_paths preimages
    then (do
      store ← get_path store_path preimages
      test ← get_path test_path preimages
      ok (record { store = store; test = test }))
    else err (bounded_remediation "Preimage paths must equal the approved path set")
loaded_preimages base_reference none (some fetch_preimage) = do
  store ← fetched store_path (fetch_preimage base_reference store_path)
  test ← fetched test_path (fetch_preimage base_reference test_path)
  ok (record { store = store; test = test })
loaded_preimages base_reference _ _ =
    err (bounded_remediation "Provide exactly one preimage source: preimages or fetch_preimage")

unfoldable pub load_preimages :
    String → Option (Dict String Bytes) → Option (String → String → Result Bytes) → Result Pair
unfolding loaded_preimages
load_preimages base_reference preimages fetch_preimage = do
  loaded ← loaded_preimages base_reference preimages fetch_preimage
  guard (leb (length loaded.store) max_preimage_file_bytes)
      (bounded_remediation (concat ("Preimage " ∷ store_path ∷ " exceeds 32768 bytes" ∷ [])))
  guard (leb (length loaded.test) max_preimage_file_bytes)
      (bounded_remediation (concat ("Preimage " ∷ test_path ∷ " exceeds 32768 bytes" ∷ [])))
  guard (leb (length loaded.store + length loaded.test) max_total_preimage_bytes)
      (bounded_remediation "Preimages exceed 65536 total bytes")
  ok loaded

unfoldable pub apply_approved_edits : Pair → Result Pair
unfolding replace_exactly_once
apply_approved_edits preimages = do
  described ←
      replace_exactly_once preimages.store store_docstring_before store_docstring_after store_path
        "store module description"
  store ←
      replace_exactly_once described store_defect_before store_defect_after store_path
        "analytics deletion defect"
  renamed ←
      replace_exactly_once preimages.test test_name_before test_name_after test_path
        "deletion regression test name"
  test ←
      replace_exactly_once renamed test_assertion_before test_assertion_after test_path
        "analytics deletion regression assertion"
  ok (record { store = store; test = test })
