-- ===== src/Github/Candidate.antt =====
-- `_snapshot_candidate` of github.py: the verifier's candidate is copied and authenticated before the
-- first call over the network, and the identity of the repair is derived from the copy.
--
-- The keys of a dict are different, so `set(keys)` is the list of them. The checks on the types of the
-- fields are what the types say here.
use i_promise.Base.{
  ℕ, ◌+◌, ◌*◌, Bool, true, false, not, ◌&&◌, ◌||◌, String, none, some, List, [], ◌∷◌, ◌++◌, map,
  leb, if◌then◌else◌, ◌==◌, string_eq,
}
use Prim.Native.String
use text.Mathlib.Text.{is_le, starts_with}
use i_promise.Dict.{Dict, lookup, contains}
use i_promise.Lists.{length, all}
use i_promise.Text.{concat, decimal, is_hex}
use i_promise.Bytes.{Bytes, encode}
use i_promise.Errors.{Result, ok, err, key_error, publication_rejected, ◌>>=◌, ◌>>◌, guard}
use i_promise.Models.{GitHubRepository}
use i_promise.Github.{
  VerifiedCandidateInput, SnapshotFile, CandidateSnapshot, PullRequestIntent, Primitives,
}
use i_promise.Github.Path.{safe_candidate_path}

abbrev pub max_candidate_blob_bytes : ℕ
max_candidate_blob_bytes = 10 * 1024 * 1024

-- `text.endswith(part)`
unfoldable pub ends_with : String → String → Bool
ends_with String.[] part = part == ""
ends_with (String.◌∷◌ c s) part = (String.◌∷◌ c s == part) || ends_with s part

abbrev pub keys {ℓ} : {V : Type ℓ} → Dict String V → List String
keys d = map (λ entry. entry.0) d

-- `set(left.keys()) == set(right.keys())`
abbrev pub has_same_keys {ℓ κ} : {V : Type ℓ} {W : Type κ} → Dict String V → Dict String W → Bool
has_same_keys left right =
    all (λ entry. contains entry.0 right) left && all (λ entry. contains entry.0 left) right

-- `sorted(texts)`
unfoldable pub insert_sorted : String → List String → List String
insert_sorted text [] = text ∷ []
insert_sorted text (next ∷ rest) =
    let later = insert_sorted text rest in
    if is_le (String.compare text next) then text ∷ next ∷ rest else next ∷ later

unfoldable pub sorted : List String → List String
unfolding insert_sorted
sorted [] = []
sorted (text ∷ rest) = insert_sorted text (sorted rest)

-- `d[key]`
abbrev pub subscript {ℓ} : {V : Type ℓ} → String → Dict String V → Result V
subscript key d = elim (lookup key d) [ none ↦ err (key_error key) | some value ↦ ok value ]

-- The checks on one file, after those on its path; `total_bytes` counts the files before it.
unfoldable pub check_content : Primitives → ℕ → SnapshotFile → Result (Unit {0})
check_content p total_bytes file = do
  guard (leb (length file.content) max_candidate_blob_bytes) (
      publication_rejected
        (concat ("Candidate file exceeds the bounded publication size: " ∷ file.path ∷ [])))
  guard (leb (total_bytes + length file.content) max_candidate_blob_bytes)
      (publication_rejected "The verified candidate exceeds the bounded total publication size")
  guard (is_hex 64 file.candidate_sha256 && p.sha256 file.content == file.candidate_sha256) (
      publication_rejected
        (concat ("Candidate bytes did not match the verifier SHA-256: " ∷ file.path ∷ [])))
  guard (is_hex 64 file.preimage_sha256) (
      publication_rejected
        (concat ("Candidate preimage did not contain a verifier SHA-256: " ∷ file.path ∷ [])))

-- The file of a path in the three dicts.
unfoldable pub file_at : VerifiedCandidateInput → String → Result SnapshotFile
file_at candidate path = do
  content ← subscript path candidate.candidate_tree
  expected_hash ← subscript path candidate.candidate_hashes
  preimage_hash ← subscript path candidate.preimage_hashes
  ok (record {
    path = path;
    content = content;
    candidate_sha256 = expected_hash;
    preimage_sha256 = preimage_hash;
  })

-- One turn of the loop over the paths.
unfoldable pub snapshot_file :
    Primitives → VerifiedCandidateInput → ℕ → String → Result SnapshotFile
unfolding check_content file_at
snapshot_file p candidate total_bytes path = do
  guard (safe_candidate_path p.casefold path)
      (publication_rejected "The verified candidate contains an unsafe repository path")
  file ← file_at candidate path
  check_content p total_bytes file >> ok file

unfoldable pub snapshot_files :
    Primitives → VerifiedCandidateInput → ℕ → List String → Result (List SnapshotFile)
unfolding snapshot_file
snapshot_files p candidate total_bytes [] = ok []
snapshot_files p candidate total_bytes (path ∷ paths) = do
  file ← snapshot_file p candidate total_bytes path
  files ← snapshot_files p candidate (total_bytes + length file.content) paths
  ok (file ∷ files)

abbrev is_empty {ℓ} : {A : Type ℓ} → List A → Bool
is_empty [] = true
is_empty (x ∷ xs) = false

-- The checks on the fields and the paths, before the loop.
unfoldable pub check_candidate : VerifiedCandidateInput → Result (Unit {0})
unfolding ends_with
check_candidate candidate = do
  guard (is_hex 40 candidate.base_sha)
      (publication_rejected "The verified candidate base must be a full lowercase Git SHA")
  guard
      (starts_with candidate.repository_url "https://" && ends_with candidate.repository_url ".git")
      (publication_rejected "The verified candidate source repository is invalid")
  guard (is_hex 64 candidate.unified_diff_sha256)
      (publication_rejected "The verified candidate diff must have a lowercase SHA-256")
  guard
      (not (is_empty candidate.candidate_tree)
        && has_same_keys candidate.candidate_tree candidate.candidate_hashes
        && has_same_keys candidate.candidate_tree candidate.preimage_hashes)
      (publication_rejected "The verified candidate tree and hash paths do not match exactly")

abbrev pub snapshot_of : VerifiedCandidateInput → List SnapshotFile → CandidateSnapshot
snapshot_of candidate files = record {
  base_sha = candidate.base_sha;
  repository_url = candidate.repository_url;
  unified_diff_sha256 = candidate.unified_diff_sha256;
  files = files;
}

unfoldable pub snapshot_candidate : Primitives → VerifiedCandidateInput → Result CandidateSnapshot
unfolding check_candidate snapshot_files sorted
snapshot_candidate p candidate = do
  check_candidate candidate
  files ← snapshot_files p candidate 0 (sorted (keys candidate.candidate_tree))
  ok (snapshot_of candidate files)

unfoldable pub intent_of : GitHubRepository → CandidateSnapshot → PullRequestIntent
intent_of repository snapshot = record {
  repository_id = repository.id;
  full_name = repository.full_name;
  base_sha = snapshot.base_sha;
  repository_url = snapshot.repository_url;
  unified_diff_sha256 = snapshot.unified_diff_sha256;
  files =
      map {A = SnapshotFile}
        (λ file. record {
          path = file.path;
          preimage_sha256 = file.preimage_sha256;
          candidate_sha256 = file.candidate_sha256;
        })
        snapshot.files;
}

-- `_pull_request_fingerprint`
unfoldable pub fingerprint_of : Primitives → GitHubRepository → CandidateSnapshot → String
unfolding intent_of
fingerprint_of p repository snapshot =
    p.sha256 (encode (p.dumps_intent (intent_of repository snapshot)))

unfoldable pub pull_request_fingerprint :
    Primitives → GitHubRepository → VerifiedCandidateInput → Result String
unfolding snapshot_candidate fingerprint_of
pull_request_fingerprint p repository candidate = do
  snapshot ← snapshot_candidate p candidate
  ok (fingerprint_of p repository snapshot)

-- `text[:n]`
unfoldable pub prefix : ℕ → String → String
prefix ℕ.zero text = ""
prefix (ℕ.suc n) String.[] = ""
prefix (ℕ.suc n) (String.◌∷◌ c s) = String.◌∷◌ c (prefix n s)

-- `_pull_request_branch`
unfoldable pub pull_request_branch : String → String
unfolding prefix
pull_request_branch fingerprint = concat ("ipromise/promise-drift-" ∷ prefix 20 fingerprint ∷ [])

-- `_git_blob_sha`
unfoldable pub git_blob_sha : Primitives → Bytes → String
git_blob_sha p content =
    p.sha1 (encode (concat ("blob " ∷ decimal (length content) ∷ "\0" ∷ [])) ++ content)
