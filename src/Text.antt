-- ===== src/Text.antt =====
-- Texts that the program builds with f-strings: joining, and the formats `{n}` and `{n:02d}`.
use i_promise.Base.{
  ℕ, zero, suc, ◌/◌, ◌%◌, Bool, true, false, ◌&&◌, ◌||◌, String, List, [], ◌∷◌, ltb, leb,
  if◌then◌else◌,
}
use Prim.Native.Char.{Char, code}
use Prim.Native.String

-- The pieces of an f-string, in order.
abbrev pub concat : List String → String
concat [] = ""
concat (s ∷ ss) = String.◌++◌ s (concat ss)

abbrev digit : ℕ → Char
digit zero = "0"
digit (suc zero) = "1"
digit (suc (suc zero)) = "2"
digit (suc (suc (suc zero))) = "3"
digit (suc (suc (suc (suc zero)))) = "4"
digit (suc (suc (suc (suc (suc zero))))) = "5"
digit (suc (suc (suc (suc (suc (suc zero)))))) = "6"
digit (suc (suc (suc (suc (suc (suc (suc zero))))))) = "7"
digit (suc (suc (suc (suc (suc (suc (suc (suc zero)))))))) = "8"
digit _ = "9"

-- The decimal digits of `n`, before those of `rest`; a number has at most as many digits as its
-- value, and one more for 0.
digits_from : ℕ → ℕ → String → String
digits_from zero n rest = rest
digits_from (suc fuel) n rest =
    let here = String.◌∷◌ (digit (n % 10)) rest in
    let more = digits_from fuel (n / 10) here in if ltb n 10 then here else more

-- `{n}`
unfoldable pub decimal : ℕ → String
unfolding digits_from
decimal n = digits_from (suc n) n ""

-- `{n:02d}`
unfoldable pub two_digits : ℕ → String
unfolding decimal
two_digits n = if ltb n 10 then String.◌++◌ "0" (decimal n) else decimal n

-- A lowercase hexadecimal digit.
abbrev is_hex_digit : ℕ → Bool
is_hex_digit c = (leb b'0' c && leb c b'9') || (leb b'a' c && leb c b'f')

-- `re.fullmatch("[0-9a-f]{n}", text)`
unfoldable pub is_hex : ℕ → String → Bool
is_hex zero String.[] = true
is_hex zero (String.◌∷◌ c s) = false
is_hex (suc n) String.[] = false
is_hex (suc n) (String.◌∷◌ c s) = is_hex_digit (code c) && is_hex n s
