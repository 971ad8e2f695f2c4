-- ===== src/Bytes/Replace.antt =====
-- Where a part occurs, `replace_first` changes that place and nothing else.
use i_promise.Base.{◌+◌, ◌<◌, ◌≡◌, refl, ap, true, [], ◌∷◌, ◌++◌, arith, Bool-cases, inl, inr}
use i_promise.Lists.{length, length-append}
use i_promise.Bytes.{Bytes, starts_with, drop, count, replace_first}

-- `content` with one occurrence of `before` replaced by `after`.
pub record IsEdited (content before after edited : Bytes) : Type 0 where
  pub front : Bytes
  pub back : Bytes
  pub original : content ≡ front ++ before ++ back
  pub changed : edited ≡ front ++ after ++ back

starts_with-drop :
    (content part : Bytes)
    → starts_with content part ≡ true
    → content ≡ part ++ drop (length part) content
unfolding starts_with
starts_with-drop content [] h = refl
starts_with-drop [] (p ∷ part) h = cc
starts_with-drop (c ∷ content) (p ∷ part) h = ground (arith, starts_with-drop content part)

-- If the part occurs at all, the first occurrence is replaced.
pub replace_first-IsEdited :
    (content before after : Bytes)
    → 0 < count content before
    → IsEdited content before after (replace_first content before after)
unfolding count replace_first
replace_first-IsEdited [] before after h = absurd (omega arith)
replace_first-IsEdited (c ∷ content) before after h =
    elim (Bool-cases (starts_with (c ∷ content) before)) [
      | inl found ↦ record {
        front = [];
        back = drop (length before) (c ∷ content);
        original = starts_with-drop (c ∷ content) before found;
        changed = rw (found, replace_first) refl;
      }
      | inr absent ↦
          let rest = replace_first-IsEdited content before after (rw absent at h) in
          record {
            front = c ∷ rest.front;
            back = rest.back;
            original = ap (λ l. c ∷ l) rest.original;
            changed = rw (absent, replace_first) (ap (λ l. c ∷ l) rest.changed);
          }
    ]

-- The lengths before and after an edit.
pub length-edited :
    {content before after edited : Bytes}
    → IsEdited content before after edited
    → length edited + length before ≡ length content + length after
length-edited {content} {before} {after} {edited} e =
    rw (e.original, e.changed)
      (omega (
        arith,
        length-append {0} (e.front ++ before) e.back,
        length-append {0} (e.front ++ after) e.back,
        length-append {0} e.front before,
        length-append {0} e.front after,
      ))
