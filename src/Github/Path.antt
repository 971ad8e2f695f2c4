-- ===== src/Github/Path.antt =====
-- `_safe_candidate_path` of github.py: which paths of a repository a candidate may write.
--
-- The reference for it is how a file system walks a relative path below a root. `casefold` is Python's.
use i_promise.Base.{
  ℕ, ◌≡◌, ◌≢◌, refl, sym, ap, ◌∙◌, Bool, true, false, not, ◌&&◌, ◌||◌, String, Option, none, some,
  List, [], ◌∷◌, ◌++◌, leb, nat_beq, if◌then◌else◌, arith, ◌==◌, string_eq,
}
use Prim.Native.Char.{Char, code}
use Prim.Native.String
use text.Mathlib.TextEquality.{Char-path}
use text.Mathlib.TextLemmas.{cons-append, nil-append}
use i_promise.Lists.{all, Every}

-- `character in text`
unfoldable pub has_char : ℕ → String → Bool
has_char n String.[] = false
has_char n (String.◌∷◌ c s) = nat_beq (code c) n || has_char n s

-- The parts with one more character in front, where `is_slash` says that it separates.
abbrev split_at : Bool → Char → List String → List String
split_at true c parts = "" ∷ parts
split_at false c [] = []
split_at false c (part ∷ parts) = String.◌∷◌ c part ∷ parts

-- `path.split("/")`
unfoldable pub split : String → List String
split String.[] = "" ∷ []
split (String.◌∷◌ c s) = split_at (nat_beq (code c) b'/') c (split s)

-- `path.startswith("/")`
abbrev starts_with_slash : String → Bool
starts_with_slash String.[] = false
starts_with_slash (String.◌∷◌ c s) = nat_beq (code c) b'/'

-- `path.endswith("/")`
unfoldable pub ends_with_slash : String → Bool
ends_with_slash String.[] = false
ends_with_slash (String.◌∷◌ c String.[]) = nat_beq (code c) b'/'
ends_with_slash (String.◌∷◌ c (String.◌∷◌ d s)) = ends_with_slash (String.◌∷◌ d s)

unfoldable pub is_safe_part : (String → String) → String → Bool
is_safe_part casefold part =
    not (part == "" || part == "." || part == "..") && not (casefold part == ".git")

unfoldable pub safe_candidate_path : (String → String) → String → Bool
unfolding has_char ends_with_slash split is_safe_part
safe_candidate_path casefold path =
    if path == ""
      || not (leb (String.count path) 1000)
      || starts_with_slash path
      || ends_with_slash path
      || has_char b'\\' path
      || has_char 0 path
    then false
    else all (is_safe_part casefold) (split path)

-- One step of the walk from the directory `at`, a list of names below the root: an empty name or "."
-- stays, ".." goes up, and not above the root.
abbrev drop_last : List String → Option (List String)
drop_last [] = none
drop_last (x ∷ []) = some []
drop_last (x ∷ y ∷ ys) = elim (drop_last (y ∷ ys)) [ none ↦ none | some front ↦ some (x ∷ front) ]

unfoldable pub enter : List String → String → Option (List String)
enter at part =
    if part == "" || part == "."
    then some at
    else if part == ".."
    then drop_last at
    else some (at ++ part ∷ [])

unfoldable pub walk : List String → List String → Option (List String)
walk at [] = some at
walk at (part ∷ parts) = elim (enter at part) [ none ↦ none | some next ↦ walk next parts ]

-- Where a file system finds a path, below the root.
unfoldable pub resolve : String → Option (List String)
unfolding split walk
resolve path = walk [] (split path)

unfoldable pub join : List String → String
join [] = ""
join (part ∷ []) = part
join (part ∷ next ∷ parts) = String.◌++◌ part (String.◌∷◌ "/" (join (next ∷ parts)))

append_nil : (xs : List String) → xs ++ [] ≡ xs
append_nil [] = refl
append_nil (x ∷ xs) = ap (λ l. x ∷ l) (append_nil xs)

append_assoc : (xs ys zs : List String) → (xs ++ ys) ++ zs ≡ xs ++ (ys ++ zs)
append_assoc [] ys zs = refl
append_assoc (x ∷ xs) ys zs = ap (λ l. x ∷ l) (append_assoc xs ys zs)

-- A safe name goes one directory down.
safe-enter :
    (casefold : String → String) (at : List String) (part : String)
    → is_safe_part casefold part ≡ true
    → enter at part ≡ some (at ++ part ∷ [])
unfolding is_safe_part enter
safe-enter casefold at part h = ground arith

safe-walk :
    (casefold : String → String) (parts at : List String)
    → all (is_safe_part casefold) parts ≡ true
    → walk at parts ≡ some (at ++ parts)
unfolding walk
safe-walk casefold [] at h = ap some (sym (append_nil at))
safe-walk casefold (part ∷ parts) at h =
    rw (safe-enter casefold at part (ground arith), walk)
      (safe-walk casefold parts (at ++ part ∷ []) (ground arith)
        ∙ ap some (append_assoc at (part ∷ []) parts))

not_git :
    (casefold : String → String) (parts : List String)
    → all (is_safe_part casefold) parts ≡ true
    → Every (λ part. casefold part ≢ ".git") parts
unfolding is_safe_part
not_git casefold [] h = tt
not_git casefold (part ∷ parts) h = (
  λ e. ground (arith, string_eq.same_iff (casefold part) ".git"),
  not_git casefold parts (ground arith),
)

-- There is a first part, and a character in front of the path goes into it or ends a part before it.
join-split_at :
    (is_slash : Bool) (c : Char) (part : String) (parts : List String)
    → (is_slash ≡ true → c ≡ "/")
    → join (split_at is_slash c (part ∷ parts)) ≡ String.◌∷◌ c (join (part ∷ parts))
unfolding join
join-split_at true c part parts slash =
    nil-append (String.◌∷◌ "/" (join (part ∷ parts)))
    ∙ ap (λ d. String.◌∷◌ d (join (part ∷ parts))) (sym (slash refl))
join-split_at false c part [] slash = refl
join-split_at false c part (next ∷ parts) slash =
    cons-append c part (String.◌∷◌ "/" (join (next ∷ parts)))

split_at-parts :
    (is_slash : Bool) (c : Char) (first : String) (others : List String)
    → (part : String) × (parts : List String) × (split_at is_slash c (first ∷ others)
        ≡ part ∷ parts)
split_at-parts true c first others = ("", first ∷ others, refl)
split_at-parts false c first others = (String.◌∷◌ c first, others, refl)

split-parts :
    (path : String) → (part : String) × (parts : List String) × (split path ≡ part ∷ parts)
unfolding split
split-parts String.[] = ("", [], refl)
split-parts (String.◌∷◌ c s) =
    let (first, others, e) = split-parts s in
    rw e (split_at-parts (nat_beq (code c) b'/') c first others)

-- Joining the parts of a path gives it back.
pub join-split : (path : String) → join (split path) ≡ path
unfolding split join
join-split String.[] = refl
join-split (String.◌∷◌ c s) =
    let (first, others, e) = split-parts s in
    rw e
      (join-split_at (nat_beq (code c) b'/') c first others (λ h. Char-path c "/" (ground arith)))
    ∙ ap (λ t. String.◌∷◌ c t) (ap join (sym e) ∙ join-split s)

safe_candidate_path-parts :
    (casefold : String → String) (path : String)
    → safe_candidate_path casefold path ≡ true
    → all (is_safe_part casefold) (split path) ≡ true
unfolding safe_candidate_path
safe_candidate_path-parts casefold path h = ground arith

-- A file system finds a safe path below the root, at the directories and the name that the path spells
-- out, none of which is ".git" in any letter case; so the path is not another spelling of one of these.
pub safe_candidate_path-resolve :
    (casefold : String → String) (path : String)
    → safe_candidate_path casefold path ≡ true
    → (parts : List String) × (resolve path ≡ some parts)
      × (join parts ≡ path)
      × Every (λ part. casefold part ≢ ".git") parts
unfolding resolve
safe_candidate_path-resolve casefold path h =
    let parts = safe_candidate_path-parts casefold path h in
    (
      split path,
      safe-walk casefold (split path) [] parts,
      join-split path,
      not_git casefold (split path) parts,
    )
