-- ===== src/Signed.antt =====
-- Signed whole numbers over the native numbers, for time differences.
use i_promise.Base.{ℕ, ◌-◌, ◌*◌, Bool, true, false, ltb, leb, if◌then◌else◌}

-- `negsuc n` is -(n + 1).
pub data ℤ : Type 0 where
  pos : ℕ → ℤ
  negsuc : ℕ → ℤ

-- a - b, as an integer.
abbrev pub sub_ℕ : ℕ → ℕ → ℤ
sub_ℕ a b = if leb b a then pos (a - b) else negsuc (b - a - 1)

-- A time difference in microseconds against a whole number of hours.
abbrev pub hour : ℕ
hour = 3600000000

-- `elapsed > hours`
abbrev pub exceeds_hours : ℤ → ℕ → Bool
exceeds_hours (pos n) hours = ltb (hours * hour) n
exceeds_hours (negsuc n) hours = false

-- `elapsed >= 0`
abbrev pub is_nonnegative : ℤ → Bool
is_nonnegative (pos n) = true
is_nonnegative (negsuc n) = false
