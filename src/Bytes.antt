-- ===== src/Bytes.antt =====
-- Python's `bytes` as lists of numbers: UTF-8, `count` and `replace` of a part, and base64 lengths.
pub mod Replace
use i_promise.Base.{
  ℕ, zero, suc, ◌+◌, ◌-◌, ◌*◌, ◌/◌, ◌%◌, Bool, true, false, ◌&&◌, String, List, [], ◌∷◌, ◌++◌, ltb,
  nat_beq, if◌then◌else◌,
}
use Prim.Native.Char.{code}
use i_promise.Lists.{length}

abbrev pub Bytes : Type 0
Bytes = List ℕ

-- The UTF-8 form of one code point.
utf8_char : ℕ → Bytes
utf8_char c =
    if ltb c 0x80
    then c ∷ []
    else if ltb c 0x800
    then (0xc0 + c / 0x40) ∷ (0x80 + c % 0x40) ∷ []
    else if ltb c 0x10000
    then (0xe0 + c / 0x1000) ∷ (0x80 + c / 0x40 % 0x40) ∷ (0x80 + c % 0x40) ∷ []
    else (0xf0 + c / 0x40000)
      ∷ (0x80 + c / 0x1000 % 0x40)
      ∷ (0x80 + c / 0x40 % 0x40)
      ∷ (0x80 + c % 0x40)
      ∷ []

-- `text.encode("utf-8")`
unfoldable pub encode : String → Bytes
unfolding utf8_char
encode String.[] = []
encode (String.◌∷◌ c s) = utf8_char (code c) ++ encode s

-- `content.startswith(part)`
unfoldable pub starts_with : Bytes → Bytes → Bool
starts_with content [] = true
starts_with [] (p ∷ part) = false
starts_with (c ∷ content) (p ∷ part) = nat_beq c p && starts_with content part

abbrev pub drop : ℕ → Bytes → Bytes
drop zero content = content
drop (suc n) [] = []
drop (suc n) (c ∷ content) = drop n content

-- The occurrences of `part`, which is not empty, that do not overlap, after `skip` bytes that belong
-- to the last one.
unfoldable pub count_from : Bytes → ℕ → Bytes → ℕ
unfolding starts_with
count_from part skip [] = 0
count_from part (suc skip) (c ∷ content) = count_from part skip content
count_from part zero (c ∷ content) =
    let found = starts_with (c ∷ content) part in
    let rest = count_from part (if found then length part - 1 else 0) content in
    if found then suc rest else rest

-- `content.count(part)`
unfoldable pub count : Bytes → Bytes → ℕ
unfolding count_from
count content part = count_from part 0 content

-- `content.replace(before, after, 1)`
unfoldable pub replace_first : Bytes → Bytes → Bytes → Bytes
unfolding starts_with
replace_first [] before after = []
replace_first (c ∷ content) before after =
    if starts_with (c ∷ content) before
    then after ++ drop (length before) (c ∷ content)
    else c ∷ replace_first content before after

-- `len(base64.b64encode(content))`
abbrev pub base64_length : Bytes → ℕ
base64_length content = (length content + 2) / 3 * 4
