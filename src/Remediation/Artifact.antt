-- ===== src/Remediation/Artifact.antt =====
-- What the artifact of remediation.py binds together.
use i_promise.Base.{
  ◌+◌, leb, Bool-cases, ◌≤◌, ◌≡◌, refl, true, String, Option, [], ◌∷◌, arith, string_eq, inl, inr,
}
use text.Mathlib.TextEquality.{eq_iff}
use i_promise.Dict.{Dict}
use i_promise.Lists.{length, count_if}
use i_promise.Text.{is_hex}
use i_promise.Bytes.{Bytes, encode}
use i_promise.Errors.{Result, ok, ◌>>=◌, >>=-eq-ok, guarded, Result-cases}
use i_promise.Remediation.{
  Platform, Pair, CandidateFile, BoundedRemediationArtifact, load_preimages, apply_approved_edits,
  store_path, test_path, expected_store_preimage, expected_test_preimage, expected_store_candidate,
  expected_test_candidate, expected_unified_diff_sha256, max_preimage_file_bytes,
  max_unified_diff_bytes, max_candidate_growth_bytes, max_changed_diff_lines,
}
use i_promise.Remediation.Build.{
  build_bounded_remediation_artifact, finish_artifact, artifact_from, artifact_of,
  canonical_unified_diff, distance, is_changed_line,
}
use i_promise.Remediation.Edits.{AreApprovedEdits, apply_approved_edits_lem}

-- A file of the artifact is bound to the digests that were approved.
pub record IsBound (p : Platform) (file : CandidateFile) (path before after : String) : Type 0 where
  pub path_of : file.path ≡ path
  pub preimage : file.preimage_sha256 ≡ before
  pub candidate : file.candidate_sha256 ≡ after
  pub content : p.sha256 file.content ≡ after

-- The size of a file changes by 1024 bytes at most.
abbrev pub IsNear : Bytes → Bytes → Type 0
IsNear before after =
    (length after ≤ length before + max_candidate_growth_bytes)
    × (length before ≤ length after + max_candidate_growth_bytes)

-- The artifact holds the two approved files, in order, and the locked diff, for a full commit id; the
-- candidates are the preimages with the approved edits. Every bound is kept: on the size of each file,
-- on how far it grows or shrinks, and on the bytes and the changed lines of the diff.
pub record IsLocked (p : Platform) (a : BoundedRemediationArtifact) : Type 0 where
  pub schema : a.schema_version ≡ "ipromise.bounded-remediation.v1"
  pub base : is_hex 40 a.base_reference ≡ true
  pub store : CandidateFile
  pub test : CandidateFile
  pub two_files : a.candidate_files ≡ store ∷ test ∷ []
  pub store_bound : IsBound p store store_path expected_store_preimage expected_store_candidate
  pub test_bound : IsBound p test test_path expected_test_preimage expected_test_candidate
  pub diff_digest : a.unified_diff_sha256 ≡ expected_unified_diff_sha256
  pub diff : p.sha256 (encode a.unified_diff) ≡ expected_unified_diff_sha256
  pub diff_size : length (encode a.unified_diff) ≤ max_unified_diff_bytes
  pub changed_lines :
      count_if is_changed_line (p.splitlines a.unified_diff) ≤ max_changed_diff_lines
  pub preimages : Pair
  pub made_diff :
      canonical_unified_diff p preimages (record { store = store.content; test = test.content })
      ≡ ok a.unified_diff
  pub edits : AreApprovedEdits preimages (record { store = store.content; test = test.content })
  pub preimage_sizes :
      (length preimages.store ≤ max_preimage_file_bytes)
      × (length preimages.test ≤ max_preimage_file_bytes)
  pub candidate_sizes :
      (length store.content ≤ max_preimage_file_bytes)
      × (length test.content ≤ max_preimage_file_bytes)
  pub store_growth : IsNear preimages.store store.content
  pub test_growth : IsNear preimages.test test.content

IsNear-distance :
    (before after : Bytes)
    → leb (distance (length after) (length before)) max_candidate_growth_bytes ≡ true
    → IsNear before after
IsNear-distance before after h = elim (Bool-cases (leb (length before) (length after))) [
  | inl grown ↦ ground arith
  | inr shrunk ↦ ground arith
]

load_preimages_sizes :
    (base : String) (preimages : Option (Dict String Bytes))
    (fetch : Option (String → String → Result Bytes)) {loaded : Pair}
    → load_preimages base preimages fetch ≡ ok loaded
    → (length loaded.store ≤ max_preimage_file_bytes)
      × (length loaded.test ≤ max_preimage_file_bytes)
unfolding load_preimages
load_preimages_sizes base preimages fetch {loaded} h = ground arith

-- What the last checks of the build leave.
record Finished (p : Platform) (base : String) (loaded candidates : Pair)
    (a : BoundedRemediationArtifact) : Type 0 where
  text : String
  artifact : a ≡ artifact_of p base loaded candidates text
  store_digest : p.sha256 candidates.store ≡ expected_store_candidate
  test_digest : p.sha256 candidates.test ≡ expected_test_candidate
  diff_digest : p.sha256 (encode text) ≡ expected_unified_diff_sha256
  diff_size : length (encode text) ≤ max_unified_diff_bytes
  store_size : length candidates.store ≤ max_preimage_file_bytes
  test_size : length candidates.test ≤ max_preimage_file_bytes
  changed_lines : count_if is_changed_line (p.splitlines text) ≤ max_changed_diff_lines
  made_diff : canonical_unified_diff p loaded candidates ≡ ok text
  store_growth : IsNear loaded.store candidates.store
  test_growth : IsNear loaded.test candidates.test

finish_artifact-Finished :
    (p : Platform) (base : String) (loaded candidates : Pair) {a : BoundedRemediationArtifact}
    → finish_artifact p base loaded candidates ≡ ok a
    → Finished p base loaded candidates a
unfolding finish_artifact
finish_artifact-Finished p base loaded candidates {a} h =
    elim (Result-cases (canonical_unified_diff p loaded candidates)) [
      | inl (e, failed) ↦ absurd (ground arith)
      | inr (text, made) ↦ record {
        text = text;
        artifact = ground arith;
        store_digest = ground (arith, eq_iff (p.sha256 candidates.store) expected_store_candidate);
        test_digest = ground (arith, eq_iff (p.sha256 candidates.test) expected_test_candidate);
        diff_digest = ground (arith, eq_iff (p.sha256 (encode text)) expected_unified_diff_sha256);
        diff_size = ground arith;
        store_size = ground arith;
        test_size = ground arith;
        changed_lines = ground arith;
        made_diff = made;
        store_growth = IsNear-distance loaded.store candidates.store (ground arith);
        test_growth = IsNear-distance loaded.test candidates.test (ground arith);
      }
    ]

record Edited (p : Platform) (base : String) (loaded : Pair) (a : BoundedRemediationArtifact)
    : Type 0 where
  candidates : Pair
  edits : AreApprovedEdits loaded candidates
  store_preimage : p.sha256 loaded.store ≡ expected_store_preimage
  test_preimage : p.sha256 loaded.test ≡ expected_test_preimage
  finished : Finished p base loaded candidates a

artifact_from-Edited :
    (p : Platform) (base : String) (loaded : Pair) {a : BoundedRemediationArtifact}
    → artifact_from p base loaded ≡ ok a
    → Edited p base loaded a
unfolding artifact_from
artifact_from-Edited p base loaded {a} h = elim (Result-cases (apply_approved_edits loaded)) [
  | inl (e, failed) ↦ absurd (ground arith)
  | inr (candidates, made) ↦ record {
    candidates = candidates;
    edits = apply_approved_edits_lem loaded made;
    store_preimage = ground (arith, eq_iff (p.sha256 loaded.store) expected_store_preimage);
    test_preimage = ground (arith, eq_iff (p.sha256 loaded.test) expected_test_preimage);
    finished = finish_artifact-Finished p base loaded candidates (ground arith);
  }
]

-- A finished build of edited preimages is a locked artifact.
Edited-IsLocked :
    (p : Platform) (base : String) (loaded : Pair) (a : BoundedRemediationArtifact)
    → is_hex 40 base ≡ true
    → (length loaded.store ≤ max_preimage_file_bytes)
      × (length loaded.test ≤ max_preimage_file_bytes)
    → Edited p base loaded a
    → (a.base_reference ≡ base) × IsLocked p a
unfolding artifact_of
Edited-IsLocked p base loaded a full sizes e =
    let f = e.finished in
    rw f.artifact (
      refl,
      record {
        schema = refl;
        base = full;
        store = _;
        test = _;
        two_files = refl;
        store_bound = record {
          path_of = refl;
          preimage = e.store_preimage;
          candidate = f.store_digest;
          content = f.store_digest;
        };
        test_bound = record {
          path_of = refl;
          preimage = e.test_preimage;
          candidate = f.test_digest;
          content = f.test_digest;
        };
        diff_digest = f.diff_digest;
        diff = f.diff_digest;
        diff_size = f.diff_size;
        changed_lines = f.changed_lines;
        preimages = loaded;
        made_diff = f.made_diff;
        edits = e.edits;
        preimage_sizes = sizes;
        candidate_sizes = (f.store_size, f.test_size);
        store_growth = f.store_growth;
        test_growth = f.test_growth;
      },
    )

-- The only artifact that is ever built is the approved one: whatever the preimages, and wherever
-- they come from, a build that succeeds gives a locked artifact for the requested commit.
pub build-IsLocked :
    (p : Platform) (base : String) (preimages : Option (Dict String Bytes))
    (fetch : Option (String → String → Result Bytes)) {a : BoundedRemediationArtifact}
    → build_bounded_remediation_artifact p base preimages fetch ≡ ok a
    → (a.base_reference ≡ base) × IsLocked p a
unfolding build_bounded_remediation_artifact
build-IsLocked p base preimages fetch {a} h =
    let (full, k) =
      guarded (is_hex 40 base) _ (load_preimages base preimages fetch >>= artifact_from p base) h in
    let (loaded, h₂, k₂) =
      >>=-eq-ok (load_preimages base preimages fetch) (artifact_from p base) k in
    Edited-IsLocked p base loaded a full (load_preimages_sizes base preimages fetch h₂)
      (artifact_from-Edited p base loaded k₂)
