-- ===== src/Helper/Bytes.antt =====
-- contracts/lumenflow/src/helper.rs: `constant_time_eq_bytes`, `append_length_prefixed` and
-- `build_canonical_payload`. A byte is a number below 256; `^` and `|` are the bitwise operations.
use lumenflow_contracts.Base.{
  Bool, String, [], eqb, false, if◌then◌else◌, length, nat_eq, string_eq, ℕ, ◌%◌, ◌++◌, ◌/◌, ◌^◌,
  ◌∷◌,
}
use lumenflow_contracts.Base.Int.{ℤ}
use lumenflow_contracts.Host.{Env}
use lumenflow_contracts.Types.{Bytes}
use Prim.Native.Nat.{bit_or, bit_xor}

-- `for (x, y) in a.iter().zip(b.iter()) { diff |= x ^ y; }`
unfoldable pub differences : ℕ → Bytes → Bytes → ℕ
differences diff [] b = diff
differences diff (x ∷ a) [] = diff
differences diff (x ∷ a) (y ∷ b) = differences (bit_or diff (bit_xor x y)) a b

unfoldable pub constant_time_eq_bytes : Bytes → Bytes → Bool
constant_time_eq_bytes a b = if eqb (length a) (length b) then eqb (differences 0 a b) 0 else false

-- `u32::to_be_bytes`
abbrev pub u32_be_bytes : ℕ → Bytes
u32_be_bytes n = n / 2 ^ 24 % 256 ∷ n / 2 ^ 16 % 256 ∷ n / 2 ^ 8 % 256 ∷ n % 256 ∷ []

abbrev pub append_length_prefixed : Bytes → Bytes → Bytes
append_length_prefixed buf field = (buf ++ u32_be_bytes (length field)) ++ field

unfoldable pub build_canonical_payload : Env → String → ℤ → Bytes
build_canonical_payload env order_id amount =
    append_length_prefixed (append_length_prefixed [] (env.string_xdr order_id))
      (env.i128_be_bytes amount)
