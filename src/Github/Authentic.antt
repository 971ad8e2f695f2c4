-- ===== src/Github/Authentic.antt =====
-- What the snapshot of a candidate guarantees, in github.py: the bytes, the paths and the bounds.
use i_promise.Base.{
  ℕ, ◌+◌, ◌*◌, ◌≤◌, ◌≡◌, refl, sym, ap, ◌∙◌, inl, inr, true, String, some, List, [], ◌∷◌, map,
  arith, string_eq, Bool-cases, Option-cases,
}
use Prim.Native.String
use text.Mathlib.Text.{is_le}
use mathlib.Core.List.{Permᴰ}
use mathlib.Core.List.Permᴰ
use mathlib.Core.Path.{subst}
use i_promise.Dict.{Dict, lookup}
use i_promise.Lists.{length, Every}
use i_promise.Errors.{ok, ◌>>=◌, ◌>>◌, guard, guarded, >>=-eq-ok, >>-eq-ok, ok_injective}
use i_promise.Github.{VerifiedCandidateInput, SnapshotFile, CandidateSnapshot, Primitives}
use i_promise.Github.Path.{safe_candidate_path}
use i_promise.Github.Candidate.{
  max_candidate_blob_bytes, insert_sorted, sorted, keys, subscript, check_content, file_at,
  snapshot_file, snapshot_files, check_candidate, snapshot_of, snapshot_candidate,
}

-- What the bytes of a published file are: those that the candidate has under a safe path, with the
-- digest that the verifier recorded for it.
pub record IsAuthentic (p : Primitives) (candidate : VerifiedCandidateInput) (file : SnapshotFile)
    : Type 0 where
  pub safe : safe_candidate_path p.casefold file.path ≡ true
  pub content : lookup file.path candidate.candidate_tree ≡ some file.content
  pub candidate_hash : lookup file.path candidate.candidate_hashes ≡ some file.candidate_sha256
  pub preimage_hash : lookup file.path candidate.preimage_hashes ≡ some file.preimage_sha256
  pub digest : p.sha256 file.content ≡ file.candidate_sha256

abbrev pub total_bytes : List SnapshotFile → ℕ
total_bytes [] = 0
total_bytes (file ∷ files) = length file.content + total_bytes files

subscript-ok :
    {V : Type 0} (key : String) (d : Dict String V) {v : V}
    → subscript key d ≡ ok v
    → lookup key d ≡ some v
subscript-ok key d {v} h = elim (Option-cases (lookup key d)) [
  | inl missing ↦ absurd (ground (arith, rw (missing, subscript) at h))
  | inr (w, there) ↦ there ∙ ap some (ok_injective (rw (there, subscript) at h))
]

-- The file of a path has what the dicts have for it.
file_at-ok :
    (candidate : VerifiedCandidateInput) (path : String) {file : SnapshotFile}
    → file_at candidate path ≡ ok file
    → (file.path ≡ path)
      × (lookup path candidate.candidate_tree ≡ some file.content)
      × (lookup path candidate.candidate_hashes ≡ some file.candidate_sha256)
      × (lookup path candidate.preimage_hashes ≡ some file.preimage_sha256)
unfolding file_at
file_at-ok candidate path {file} h =
    let (content, has_content, h1) = >>=-eq-ok (subscript path candidate.candidate_tree) _ h in
    let (hash, has_hash, h2) = >>=-eq-ok (subscript path candidate.candidate_hashes) _ h1 in
    let (preimage, has_preimage, h3) = >>=-eq-ok (subscript path candidate.preimage_hashes) _ h2 in
    let e = ok_injective h3 in
    (
      sym (ap (λ f. f.path) e),
      subscript-ok path candidate.candidate_tree has_content ∙ ap (λ f. some f.content) e,
      subscript-ok path candidate.candidate_hashes has_hash ∙ ap (λ f. some f.candidate_sha256) e,
      subscript-ok path candidate.preimage_hashes has_preimage ∙ ap (λ f. some f.preimage_sha256) e,
    )

check_content-ok :
    (p : Primitives) (before : ℕ) (file : SnapshotFile)
    → check_content p before file ≡ ok tt
    → (p.sha256 file.content ≡ file.candidate_sha256)
      × (before + length file.content ≤ max_candidate_blob_bytes)
unfolding check_content
check_content-ok p before file h =
    ground (arith, guard, string_eq.same_iff (p.sha256 file.content) file.candidate_sha256)

snapshot_file-ok :
    (p : Primitives) (candidate : VerifiedCandidateInput) (before : ℕ) (path : String)
    {file : SnapshotFile}
    → snapshot_file p candidate before path ≡ ok file
    → (file.path ≡ path)
      × IsAuthentic p candidate file
      × (before + length file.content ≤ max_candidate_blob_bytes)
unfolding snapshot_file
snapshot_file-ok p candidate before path {file} h =
    let (safe, h1) =
      guarded (safe_candidate_path p.casefold path) _
        (file_at candidate path >>= λ f. check_content p before f >> ok f) h in
    let (found, there, h2) =
      >>=-eq-ok (file_at candidate path) (λ f. check_content p before f >> ok f) h1 in
    let (checked, same) = >>-eq-ok (check_content p before found) (ok found) h2 in
    let e = ok_injective same in
    let (at, content, hash, preimage) = file_at-ok candidate path (there ∙ ap ok e) in
    let (digest, fits) =
      check_content-ok p before file (ap (check_content p before) (sym e) ∙ checked) in
    (
      at,
      record {
        safe = ap (safe_candidate_path p.casefold) at ∙ safe;
        content = ap (λ k. lookup k candidate.candidate_tree) at ∙ content;
        candidate_hash = ap (λ k. lookup k candidate.candidate_hashes) at ∙ hash;
        preimage_hash = ap (λ k. lookup k candidate.preimage_hashes) at ∙ preimage;
        digest = digest;
      },
      fits,
    )

-- What the loop over the paths guarantees of its files, after `before` bytes.
abbrev IsCopy : Primitives → VerifiedCandidateInput → ℕ → List String → List SnapshotFile → Type 0
IsCopy p candidate before paths files =
    (map (λ f. f.path) files ≡ paths)
    × Every (IsAuthentic p candidate) files
    × (before + total_bytes files ≤ max_candidate_blob_bytes)

snapshot_files-ok :
    (p : Primitives) (candidate : VerifiedCandidateInput) (before : ℕ) (paths : List String)
    {files : List SnapshotFile}
    → before ≤ max_candidate_blob_bytes
    → snapshot_files p candidate before paths ≡ ok files
    → IsCopy p candidate before paths files
unfolding snapshot_files
snapshot_files-ok p candidate before [] small h =
    subst (IsCopy p candidate before []) (ok_injective h) (refl, tt, omega (arith, small))
snapshot_files-ok p candidate before (path ∷ paths) small h =
    let (file, first, h1) =
      >>=-eq-ok (snapshot_file p candidate before path)
        (λ f. snapshot_files p candidate (before + length f.content) paths >>= λ fs. ok (f ∷ fs))
        h in
    let (others, rest, same) =
      >>=-eq-ok (snapshot_files p candidate (before + length file.content) paths)
        (λ fs. ok (file ∷ fs)) h1 in
    let (at, authentic, fits) = snapshot_file-ok p candidate before path first in
    let (paths_same, all_authentic, all_fit) =
      snapshot_files-ok p candidate (before + length file.content) paths fits rest in
    subst (IsCopy p candidate before (path ∷ paths)) (ok_injective same)
      (rw (at, paths_same) refl, (authentic, all_authentic), omega (arith, all_fit))

insert_sorted-perm :
    (text : String) (texts : List String) → Permᴰ (insert_sorted text texts) (text ∷ texts)
unfolding insert_sorted
insert_sorted-perm text [] = Permᴰ.cons refl Permᴰ.nil
insert_sorted-perm text (next ∷ rest) = elim (Bool-cases (is_le (String.compare text next))) [
  | inl before ↦ rw before (Permᴰ.refl (text ∷ next ∷ rest))
  | inr after ↦
      rw after (Permᴰ.trans (Permᴰ.cons refl (insert_sorted-perm text rest)) (Permᴰ.swap refl refl))
]

sorted-perm : (texts : List String) → Permᴰ (sorted texts) texts
unfolding sorted
sorted-perm [] = Permᴰ.nil
sorted-perm (text ∷ rest) =
    Permᴰ.trans (insert_sorted-perm text (sorted rest)) (Permᴰ.cons refl (sorted-perm rest))

copied :
    (p : Primitives) (candidate : VerifiedCandidateInput) {s : CandidateSnapshot}
    → snapshot_candidate p candidate ≡ ok s
    → (s ≡ snapshot_of candidate s.files)
      × IsCopy p candidate 0 (sorted (keys candidate.candidate_tree)) s.files
unfolding snapshot_candidate
copied p candidate {s} h =
    let paths = sorted (keys candidate.candidate_tree) in
    let (checked, h1) =
      >>-eq-ok (check_candidate candidate)
        (snapshot_files p candidate 0 paths >>= λ files. ok (snapshot_of candidate files)) h in
    let (files, made, same) =
      >>=-eq-ok (snapshot_files p candidate 0 paths) (λ files. ok (snapshot_of candidate files))
        h1 in
    subst (λ t. (t ≡ snapshot_of candidate t.files) × IsCopy p candidate 0 paths t.files)
      (ok_injective same) (refl, snapshot_files-ok p candidate 0 paths (omega arith) made)

-- An accepted snapshot is a faithful copy of the candidate: its base, repository and diff are the
-- candidate's, its paths are those of the candidate's tree, each as often as there, and every file is
-- safe to write and has exactly the tree's bytes, whose SHA-256 is the recorded one.
pub snapshot_candidate-IsAuthentic :
    (p : Primitives) (candidate : VerifiedCandidateInput) {s : CandidateSnapshot}
    → snapshot_candidate p candidate ≡ ok s
    → (s ≡ snapshot_of candidate s.files)
      × Permᴰ (map (λ f. f.path) s.files) (keys candidate.candidate_tree)
      × Every (IsAuthentic p candidate) s.files
snapshot_candidate-IsAuthentic p candidate {s} h =
    let (same, (paths, authentic, small)) = copied p candidate h in
    (
      same,
      subst (λ l. Permᴰ l (keys candidate.candidate_tree)) (sym paths)
          (sorted-perm (keys candidate.candidate_tree)),
      authentic,
    )

-- The files of an accepted snapshot have at most ten mebibytes together.
pub snapshot_candidate-bounded :
    (p : Primitives) (candidate : VerifiedCandidateInput) {s : CandidateSnapshot}
    → snapshot_candidate p candidate ≡ ok s
    → total_bytes s.files ≤ 10 * 1024 * 1024
snapshot_candidate-bounded p candidate h =
    let (same, (paths, authentic, small)) = copied p candidate h in omega (arith, small)
