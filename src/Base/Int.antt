-- ===== src/Base/Int.antt =====
-- Signed integers over the native numbers, and the range and arithmetic of `i128`.
use Prim.Native.Nat.{ℕ, suc, ◌+◌, ◌-◌, ◌*◌, ◌/◌, ◌^◌, ◌≤◌}
use mathlib.Core.Path.{◌≡◌}
use mathlib.Core.Bool.{Bool, true, ◌&&◌}
use native.Mathlib.Omega.{arith}
use lumenflow_contracts.Base.Tests.{ltb, leb, if◌then◌else◌}

-- `negsuc n` is -(n + 1).
pub data ℤ : Type 0 where
  pos : ℕ → ℤ
  negsuc : ℕ → ℤ

abbrev pub pos_part : ℤ → ℕ
pos_part (pos n) = n
pos_part (negsuc n) = 0

abbrev pub neg_part : ℤ → ℕ
neg_part (pos n) = 0
neg_part (negsuc n) = suc n

-- a - b, as an integer.
abbrev pub sub_ℕ : ℕ → ℕ → ℤ
sub_ℕ a b = if leb b a then pos (a - b) else negsuc (b - a - 1)

infixl 65 ◌+ℤ◌ ◌-ℤ◌
infixl 70 ◌*ℤ◌
infix 50 ◌≤ℤ◌ ◌<ℤ◌
unfoldable pub ◌+ℤ◌ : ℤ → ℤ → ℤ
a +ℤ b = sub_ℕ (pos_part a + pos_part b) (neg_part a + neg_part b)

unfoldable pub ◌-ℤ◌ : ℤ → ℤ → ℤ
a -ℤ b = sub_ℕ (pos_part a + neg_part b) (neg_part a + pos_part b)

unfoldable pub ◌*ℤ◌ : ℤ → ℤ → ℤ
a *ℤ b =
    sub_ℕ (pos_part a * pos_part b + neg_part a * neg_part b)
      (pos_part a * neg_part b + neg_part a * pos_part b)

-- Rust's `/` by a positive divisor: it rounds towards zero.
unfoldable pub div_ℤ : ℤ → ℕ → ℤ
div_ℤ a n = sub_ℕ (pos_part a / n) (neg_part a / n)

abbrev pub ◌≤ℤ◌ : ℤ → ℤ → Type 0
a ≤ℤ b = pos_part a + neg_part b ≤ pos_part b + neg_part a

abbrev pub ◌<ℤ◌ : ℤ → ℤ → Type 0
a <ℤ b = suc (pos_part a + neg_part b) ≤ pos_part b + neg_part a

abbrev pub ltb_ℤ : ℤ → ℤ → Bool
ltb_ℤ a b = ltb (pos_part a + neg_part b) (pos_part b + neg_part a)

abbrev pub leb_ℤ : ℤ → ℤ → Bool
leb_ℤ a b = leb (pos_part a + neg_part b) (pos_part b + neg_part a)

-- With these the operations stay shut.
pub +ℤ_parts :
    (a b : ℤ)
    → pos_part (a +ℤ b) + neg_part a + neg_part b ≡ neg_part (a +ℤ b) + pos_part a + pos_part b
unfolding ◌+ℤ◌
+ℤ_parts a b = ground arith

pub -ℤ_parts :
    (a b : ℤ)
    → pos_part (a -ℤ b) + neg_part a + pos_part b ≡ neg_part (a -ℤ b) + pos_part a + neg_part b
unfolding ◌-ℤ◌
-ℤ_parts a b = ground arith

pub eq_of_parts : (a b : ℤ) → pos_part a + neg_part b ≡ pos_part b + neg_part a → a ≡ b
eq_of_parts a b h = ground arith

pub ruleset int_laws = (arith, +ℤ_parts, -ℤ_parts, eq_of_parts)

-- `i128`
abbrev pub i128_max : ℤ
i128_max = pos (2 ^ 127 - 1)

abbrev pub i128_min : ℤ
i128_min = negsuc (2 ^ 127 - 1)

unfoldable pub in_i128 : ℤ → Bool
in_i128 a = leb_ℤ i128_min a && leb_ℤ a i128_max

-- The nearest value of the type, as the `saturating_` operations give.
unfoldable pub clamp_i128 : ℤ → ℤ
clamp_i128 a = if ltb_ℤ a i128_min then i128_min else if ltb_ℤ i128_max a then i128_max else a

-- Within the range nothing is cut off.
pub clamp_i128-in_i128 : (a : ℤ) → in_i128 a ≡ true → clamp_i128 a ≡ a
unfolding in_i128 clamp_i128
clamp_i128-in_i128 a h = ground arith

pub clamp_i128_nonneg : (a : ℤ) → pos 0 ≤ℤ a → pos 0 ≤ℤ clamp_i128 a
unfolding clamp_i128
clamp_i128_nonneg a h = ground arith

pub clamp_i128-le : (a : ℤ) → pos 0 ≤ℤ a → clamp_i128 a ≤ℤ a
unfolding clamp_i128
clamp_i128-le a h = ground arith
