-- ===== src/Hashing/Bits.antt =====
-- Exclusive or is zero on equal numbers only, and a disjunction is zero where both numbers are.
use Prim.Native.Nat.{
  ℕ, zero, suc, ◌/◌, ◌%◌, ◌≤◌, max, bit_or, bit_xor, digits, differ, bit_or-bitwise,
  bit_xor-bitwise,
}
use nawa.Common.{◌≡◌, refl, sym, ap, ◌∙◌, arith, ◌↔◌}

differ-zero : (x y : ℕ) → differ x y ≡ 0 → x ≡ y
differ-zero zero y h = sym h
differ-zero (suc x) zero h = absurd (omega (arith, h))
differ-zero (suc x) (suc y) h = ap suc (differ-zero x y h)

differ_same : (x : ℕ) → differ x x ≡ 0
differ_same zero = refl
differ_same (suc x) = differ_same x

xor_fuel : (n a b : ℕ) → a ≤ n → digits (λ b. b) differ n a b ≡ 0 → a ≡ b
xor_fuel zero a b p h = omega (arith, h, p)
xor_fuel (suc n) zero b p h = sym h
xor_fuel (suc n) (suc a) b p h =
    let low = differ-zero (suc a % 2) (b % 2) (omega (arith, h)) in
    let high = xor_fuel n (suc a / 2) (b / 2) (omega arith) (omega (arith, h)) in
    omega (arith, low, high)

same_fuel : (n a : ℕ) → a ≤ n → digits (λ b. b) differ n a a ≡ 0
same_fuel zero a p = omega (arith, p)
same_fuel (suc n) zero p = refl
same_fuel (suc n) (suc a) p =
    omega (arith, same_fuel n (suc a / 2) (omega arith), differ_same (suc a % 2))

or_fuel : (n a b : ℕ) → a ≤ n → digits (λ b. b) max n a b ≡ 0 → (a ≡ 0) × (b ≡ 0)
or_fuel zero a b p h = (omega (arith, p), h)
or_fuel (suc n) zero b p h = (refl, h)
or_fuel (suc n) (suc a) b p h =
    let (l, r) = or_fuel n (suc a / 2) (b / 2) (omega arith) (omega (arith, h)) in
    let low : max (suc a % 2) (b % 2) ≡ 0 = omega (arith, h) in
    (omega (arith, l, low), omega (arith, r, low))

pub bit_xor-zero : (a b : ℕ) → (bit_xor a b ≡ 0) ↔ (a ≡ b)
bit_xor-zero a b = (
  (λ h. xor_fuel a a b (omega arith) (sym (bit_xor-bitwise a b) ∙ h)),
  (λ e. ap (bit_xor a) (sym e) ∙ bit_xor-bitwise a a ∙ same_fuel a a (omega arith)),
)

pub bit_or-zero : (a b : ℕ) → (bit_or a b ≡ 0) ↔ ((a ≡ 0) × (b ≡ 0))
bit_or-zero a b = (
  (λ h. or_fuel a a b (omega arith) (sym (bit_or-bitwise a b) ∙ h)),
  (λ (p, q). ap (λ x. bit_or x b) p ∙ bit_or-bitwise 0 b ∙ q),
)
