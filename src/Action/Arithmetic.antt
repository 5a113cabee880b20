-- ===== src/Action/Arithmetic.antt =====
-- Machine arithmetic. The release profile has `overflow-checks = true`, so plain `+`, `-` and `*`
-- trap outside their type's range; the `saturating_` operations stop at its ends.
use lumenflow_contracts.Base.{ℕ, ◌+◌, ◌-◌, ◌^◌, leb, if◌then◌else◌}
use lumenflow_contracts.Base.Int.{ℤ, ◌+ℤ◌, ◌-ℤ◌, ◌*ℤ◌, in_i128, clamp_i128}
use lumenflow_contracts.Action.Monad.{Action, ok, trap}

abbrev pub u32_max : ℕ
u32_max = 2 ^ 32 - 1

abbrev pub u64_max : ℕ
u64_max = 2 ^ 64 - 1

-- A value that must fit its type.
abbrev pub fits : ℕ → ℕ → Action ℕ
fits max n env w = if leb n max then ok n w else trap

abbrev pub fits_i128 : ℤ → Action ℤ
fits_i128 a env w = if in_i128 a then ok a w else trap

abbrev pub add_u32 : ℕ → ℕ → Action ℕ
add_u32 a b = fits u32_max (a + b)

abbrev pub add_u64 : ℕ → ℕ → Action ℕ
add_u64 a b = fits u64_max (a + b)

-- `a - b` on an unsigned type.
abbrev pub sub_unsigned : ℕ → ℕ → Action ℕ
sub_unsigned a b env w = if leb b a then ok (a - b) w else trap

abbrev pub add_i128 : ℤ → ℤ → Action ℤ
add_i128 a b = fits_i128 (a +ℤ b)

abbrev pub sub_i128 : ℤ → ℤ → Action ℤ
sub_i128 a b = fits_i128 (a -ℤ b)

abbrev pub mul_i128 : ℤ → ℤ → Action ℤ
mul_i128 a b = fits_i128 (a *ℤ b)

abbrev pub saturating_add : ℤ → ℤ → ℤ
saturating_add a b = clamp_i128 (a +ℤ b)

abbrev pub saturating_sub : ℤ → ℤ → ℤ
saturating_sub a b = clamp_i128 (a -ℤ b)

abbrev pub saturating_mul : ℤ → ℤ → ℤ
saturating_mul a b = clamp_i128 (a *ℤ b)

abbrev pub saturating_add_u64 : ℕ → ℕ → ℕ
saturating_add_u64 a b = if leb (a + b) u64_max then a + b else u64_max

abbrev pub saturating_add_u32 : ℕ → ℕ → ℕ
saturating_add_u32 a b = if leb (a + b) u32_max then a + b else u32_max
