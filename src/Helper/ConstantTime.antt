-- ===== src/Helper/ConstantTime.antt =====
-- The comparison of byte strings decides their equality.
use lumenflow_contracts.Base.{
  Bool-cases, [], eqb, eqb_iff, inl, inr, length, subst, true, ◌↔◌, ◌∙◌, ◌∷◌, ap, arith, nat_eq,
  refl, string_eq, suc, sym, zero, ℕ, ◌%◌, ◌/◌, ◌≡◌, ◌≤◌,
}
use lumenflow_contracts.Helper.Bytes.{constant_time_eq_bytes, differences}
use lumenflow_contracts.Types.{Bytes}
use mathlib.Core.Path.{ap₂}
use Prim.Native.Nat.{bit_or, bit_or-bitwise, bit_xor, bit_xor-bitwise, differ, digits, max}

differ-zero : (x y : ℕ) → differ x y ≡ 0 → x ≡ y
differ-zero zero zero h = refl
differ-zero zero (suc y) h = omega arith
differ-zero (suc x) zero h = omega arith
differ-zero (suc x) (suc y) h = ap suc (differ-zero x y h)

differ_self : (x : ℕ) → differ x x ≡ 0
differ_self zero = refl
differ_self (suc x) = differ_self x

xor_digits-zero : (n a b : ℕ) → a ≤ n → digits (λ b. b) differ n a b ≡ 0 → a ≡ b
xor_digits-zero zero zero b small h = sym h
xor_digits-zero zero (suc a) b small h = absurd (omega arith)
xor_digits-zero (suc n) zero b small h = sym h
xor_digits-zero (suc n) (suc a) b small h =
    let halves : digits (λ b. b) differ n (suc a / 2) (b / 2) ≡ 0 = omega (arith, h) in
    let lasts : differ (suc a % 2) (b % 2) ≡ 0 = omega (arith, h) in
    let high = xor_digits-zero n (suc a / 2) (b / 2) (omega arith) halves in
    let low = differ-zero (suc a % 2) (b % 2) lasts in omega (arith, high, low)

xor_digits_self : (n a : ℕ) → a ≤ n → digits (λ b. b) differ n a a ≡ 0
xor_digits_self zero zero small = refl
xor_digits_self zero (suc a) small = absurd (omega arith)
xor_digits_self (suc n) zero small = refl
xor_digits_self (suc n) (suc a) small =
    omega (arith, xor_digits_self n (suc a / 2) (omega arith), differ_self (suc a % 2))

or_digits-zero : (n a b : ℕ) → a ≤ n → digits (λ b. b) max n a b ≡ 0 → (a ≡ 0) × (b ≡ 0)
or_digits-zero zero zero b small h = (refl, h)
or_digits-zero zero (suc a) b small h = absurd (omega arith)
or_digits-zero (suc n) zero b small h = (refl, h)
or_digits-zero (suc n) (suc a) b small h =
    let halves : digits (λ b. b) max n (suc a / 2) (b / 2) ≡ 0 = omega (arith, h) in
    let lasts : max (suc a % 2) (b % 2) ≡ 0 = omega (arith, h) in
    let (high_a, high_b) = or_digits-zero n (suc a / 2) (b / 2) (omega arith) halves in
    absurd (omega (arith, high_a, lasts))

bit_xor_lem : (a b : ℕ) → (bit_xor a b ≡ 0) ↔ (a ≡ b)
bit_xor_lem a b =
    let digits_of : bit_xor a b ≡ digits (λ b. b) differ a a b = λ i. bit_xor-bitwise a b i in
    (
      λ h. xor_digits-zero a a b (omega arith) (sym digits_of ∙ h),
      λ same.
          digits_of
          ∙ subst (λ c. digits (λ b. b) differ a a c ≡ 0) same (xor_digits_self a a (omega arith)),
    )

bit_or_lem : (a b : ℕ) → (bit_or a b ≡ 0) ↔ ((a ≡ 0) × (b ≡ 0))
bit_or_lem a b =
    let digits_of : bit_or a b ≡ digits (λ b. b) max a a b = λ i. bit_or-bitwise a b i in
    (
      λ h. or_digits-zero a a b (omega arith) (sym digits_of ∙ h),
      λ zeros. rw (zeros.0) (rw (zeros.1) refl),
    )

-- What the loop keeps: the differences are zero from zero on, as long as the bytes agree.
differences-equal :
    (diff : ℕ) (a b : Bytes) → length a ≡ length b → differences diff a b ≡ 0 → (diff ≡ 0) × (a ≡ b)
unfolding differences
differences-equal diff [] [] same h = (h, refl)
differences-equal diff [] (y ∷ b) same h = absurd (omega arith)
differences-equal diff (x ∷ a) [] same h = absurd (omega arith)
differences-equal diff (x ∷ a) (y ∷ b) same h =
    let (zero_here, rest) = differences-equal (bit_or diff (bit_xor x y)) a b (omega arith) h in
    let (zero_before, agree) = (bit_or_lem diff (bit_xor x y)).0 zero_here in
    (zero_before, ap₂ ◌∷◌ ((bit_xor_lem x y).0 agree) rest)

differences_self : (a : Bytes) → differences 0 a a ≡ 0
unfolding differences
differences_self [] = refl
differences_self (x ∷ a) =
    let agree = (bit_xor_lem x x).1 refl in
    rw agree (rw ((bit_or_lem 0 0).1 (refl, refl)) (differences_self a))

-- The comparison that looks at every byte, whatever it has found, answers true exactly if the two byte
-- strings are equal.
pub constant_time_eq_bytes_lem : (a b : Bytes) → (constant_time_eq_bytes a b ≡ true) ↔ (a ≡ b)
unfolding constant_time_eq_bytes
constant_time_eq_bytes_lem a b = (
  λ h. elim (Bool-cases (eqb (length a) (length b))) [
    | inl same ↦
        let none_differ : eqb (differences 0 a b) 0 ≡ true = ground (arith, h) in
        (differences-equal 0 a b ((eqb_iff _ _).0 same) ((eqb_iff _ _).0 none_differ)).1
    | inr other ↦ ground (arith, h)
  ],
  λ same.
      subst (λ c. constant_time_eq_bytes a c ≡ true) same
        (rw ((eqb_iff (length a) (length a)).1 refl) (rw (differences_self a) refl)),
)
