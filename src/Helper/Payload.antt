-- ===== src/Helper/Payload.antt =====
-- The canonical payload can be taken apart again.
use lumenflow_contracts.Base.{
  ◌∙◌, append_nil, subst, sym, Option, String, [], ap, arith, drop, if◌then◌else◌, leb, length,
  length-append, nat_eq, none, refl, some, string_eq, take, true, ℕ, ◌%◌, ◌*◌, ◌++◌, ◌+◌, ◌/◌, ◌<◌,
  ◌^◌, ◌∷◌, ◌≡◌,
}
use lumenflow_contracts.Base.Int.{ℤ}
use lumenflow_contracts.Helper.Bytes.{build_canonical_payload, u32_be_bytes}
use lumenflow_contracts.Host.{Env}
use lumenflow_contracts.Types.{Bytes}

-- A reader of one length-prefixed field, which returns the field and what follows.
abbrev pub read_field : Bytes → Option (Bytes × Bytes)
read_field (a ∷ b ∷ c ∷ d ∷ rest) =
    let n = a * 2 ^ 24 + b * 2 ^ 16 + c * 2 ^ 8 + d in
    if leb n (length rest) then some (take n rest, drop n rest) else none
read_field _ = none

take-length : (xs ys : Bytes) → take (length xs) (xs ++ ys) ≡ xs
take-length [] ys = refl
take-length (x ∷ xs) ys = ap (λ l. x ∷ l) (take-length xs ys)

drop-length : (xs ys : Bytes) → drop (length xs) (xs ++ ys) ≡ ys
drop-length [] ys = refl
drop-length (x ∷ xs) ys = drop-length xs ys

u32_be_bytes_lem :
    (n : ℕ)
    → n < 2 ^ 32
    → n / 2 ^ 24 % 256 * 2 ^ 24 + n / 2 ^ 16 % 256 * 2 ^ 16 + n / 2 ^ 8 % 256 * 2 ^ 8 + n % 256 ≡ n
u32_be_bytes_lem n small = omega arith

read_field_lem :
    (field rest : Bytes)
    → length field < 2 ^ 32
    → read_field (u32_be_bytes (length field) ++ (field ++ rest)) ≡ some (field, rest)
read_field_lem field rest small =
    let enough : leb (length field) (length (field ++ rest)) ≡ true =
      ground (arith, length-append field rest) in
    rw (u32_be_bytes_lem (length field) small)
      (rw enough (rw (take-length field rest) (rw (drop-length field rest) refl)))

abbrev pub read_second : Bytes → Option (Bytes × Bytes) → Option (Bytes × Bytes)
read_second first none = none
read_second first (some (second, [])) = some (first, second)
read_second first (some (second, _ ∷ _)) = none

abbrev pub read_rest : Option (Bytes × Bytes) → Option (Bytes × Bytes)
read_rest none = none
read_rest (some (first, rest)) = read_second first (read_field rest)

-- A reader of the two fields of a payload.
abbrev pub read_payload : Bytes → Option (Bytes × Bytes)
read_payload payload = read_rest (read_field payload)

append_fields :
    (first prefix second : Bytes)
    → (first ++ prefix) ++ second ≡ first ++ (prefix ++ (second ++ []))
append_fields [] prefix second = ap (λ l. prefix ++ l) (sym (append_nil second))
append_fields (x ∷ first) prefix second = ap (λ l. x ∷ l) (append_fields first prefix second)

-- If the encodings of the id and of the amount are shorter than 4 GiB, a reader of length-prefixed
-- fields gets exactly these two back from the payload.
pub read_payload-build_canonical_payload :
    (env : Env) (order_id : String) (amount : ℤ)
    → length (env.string_xdr order_id) < 2 ^ 32
    → length (env.i128_be_bytes amount) < 2 ^ 32
    → read_payload (build_canonical_payload env order_id amount)
      ≡ some (env.string_xdr order_id, env.i128_be_bytes amount)
unfolding build_canonical_payload
read_payload-build_canonical_payload env order_id amount small_id small_amount =
    let first = env.string_xdr order_id in
    let second = env.i128_be_bytes amount in
    let prefix = u32_be_bytes (length second) in
    subst (λ l. read_payload (u32_be_bytes (length first) ++ l) ≡ some (first, second))
      (sym (append_fields first prefix second))
      (ap read_rest (read_field_lem first (prefix ++ (second ++ [])) small_id)
        ∙ ap (read_second first) (read_field_lem second [] small_amount))
