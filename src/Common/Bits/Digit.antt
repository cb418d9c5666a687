-- ===== src/Common/Bits/Digit.antt =====
-- The native bit operations by their lowest digit. (The library defines them by a recursion on
-- digits with fuel; here the fuel is gone.)
use Prim.Native.Nat.{
  bit_and, bit_or, bit_xor, digits, bitwise, ℕ, zero, suc, min, max, differ, ◌+◌, ◌*◌, ◌/◌, ◌%◌,
  ◌≤◌, bit_and-bitwise, bit_or-bitwise, bit_xor-bitwise,
}
use mathlib.Core.Path.{◌≡◌, refl}
use native.Mathlib.Omega.{arith}

module _ (rest : ℕ → ℕ) (bit : ℕ → ℕ → ℕ) where
  enough_fuel : (f g a b : ℕ) → a ≤ f → a ≤ g → digits rest bit f a b ≡ digits rest bit g a b
  enough_fuel zero zero a b hf hg = refl
  enough_fuel zero (suc g) zero b hf hg = refl
  enough_fuel (suc f) zero zero b hf hg = refl
  enough_fuel (suc f) (suc g) zero b hf hg = refl
  enough_fuel zero (suc g) (suc a) b hf hg = absurd (omega arith)
  enough_fuel (suc f) zero (suc a) b hf hg = absurd (omega arith)
  enough_fuel (suc f) (suc g) (suc a) b hf hg =
      rw (enough_fuel f g (suc a / 2) (b / 2) (omega arith) (omega arith))

  lowest_digit :
      (a b : ℕ)
      → bitwise rest bit (suc a) b
        ≡ bitwise rest bit (suc a / 2) (b / 2) * 2 + bit (suc a % 2) (b % 2)
  lowest_digit a b =
      omega (arith, enough_fuel a (suc a / 2) (suc a / 2) (b / 2) (omega arith) (omega arith))

pub bit_and_digit : (x y : ℕ) → bit_and x y ≡ bit_and (x / 2) (y / 2) * 2 + min (x % 2) (y % 2)
bit_and_digit zero y = simp bit_and-bitwise (omega arith)
bit_and_digit (suc x) y = simp bit_and-bitwise (lowest_digit (λ t. 0) min x y)

pub bit_or_digit : (x y : ℕ) → bit_or x y ≡ bit_or (x / 2) (y / 2) * 2 + max (x % 2) (y % 2)
bit_or_digit zero y = simp bit_or-bitwise (omega arith)
bit_or_digit (suc x) y = simp bit_or-bitwise (lowest_digit (λ t. t) max x y)

pub bit_xor_digit : (x y : ℕ) → bit_xor x y ≡ bit_xor (x / 2) (y / 2) * 2 + differ (x % 2) (y % 2)
bit_xor_digit zero y = simp bit_xor-bitwise (omega arith)
bit_xor_digit (suc x) y = simp bit_xor-bitwise (lowest_digit (λ t. t) differ x y)
