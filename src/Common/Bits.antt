-- ===== src/Common/Bits.antt =====
-- Laws of `&`, `|` and `^` on unsigned integers of every width: an operation on bits acts on the
-- high and the low field of its arguments apart.
pub mod Digit
use Digit.{bit_and_digit, bit_or_digit, bit_xor_digit}
use Prim.Native.Nat.{
  bit_and, bit_or, bit_xor, bit_and-bitwise, bit_or-bitwise, bit_xor-bitwise, differ,
}
use mathlib.Core.WellFounded
use native.Mathlib.Nat.{pow-suc, one-le-pow}
use alicia_server.Common.Order.{lt_wf}
use Prim.Native.Nat.{ℕ, ◌≤◌, zero, suc, ◌+◌, ◌-◌, ◌*◌, ◌/◌, ◌%◌, ◌^◌, ◌<◌, min, max}
use mathlib.Core.Path.{◌≡◌, refl, sym, ap, ◌∙◌}
use native.Mathlib.Omega.{arith}

twice_scaled : (q k : ℕ) → q * 2 ^ suc k ≡ 2 * (q * 2 ^ k)
twice_scaled q k = omega (arith, ap (λ (t : ℕ). q * t) (pow-suc 2 k))

-- One rule for the three operations: `op` is given by its lowest digit.
module _ (op bit : ℕ → ℕ → ℕ)
    (digit : (a b : ℕ) → op a b ≡ op (a / 2) (b / 2) * 2 + bit (a % 2) (b % 2))
    (nil : op 0 0 ≡ 0) where
  op_fields :
      (k p r q s : ℕ)
      → r < 2 ^ k
      → s < 2 ^ k
      → op (p * 2 ^ k + r) (q * 2 ^ k + s) ≡ op p q * 2 ^ k + op r s
  op_fields zero p r q s hr hs = ground arith
  op_fields (suc k) p r q s hr hs = ground (
    arith,
    digit (p * 2 ^ suc k + r) (q * 2 ^ suc k + s),
    digit r s,
    twice_scaled p k,
    twice_scaled q k,
    twice_scaled (op p q) k,
    pow-suc 2 k,
    op_fields k p (r / 2) q (s / 2),
  )

pub bit_and_fields :
    (k p r q s : ℕ)
    → r < 2 ^ k
    → s < 2 ^ k
    → bit_and (p * 2 ^ k + r) (q * 2 ^ k + s) ≡ bit_and p q * 2 ^ k + bit_and r s
bit_and_fields = op_fields bit_and min bit_and_digit refl

pub bit_or_fields :
    (k p r q s : ℕ)
    → r < 2 ^ k
    → s < 2 ^ k
    → bit_or (p * 2 ^ k + r) (q * 2 ^ k + s) ≡ bit_or p q * 2 ^ k + bit_or r s
bit_or_fields = op_fields bit_or max bit_or_digit refl

pub bit_xor_fields :
    (k p r q s : ℕ)
    → r < 2 ^ k
    → s < 2 ^ k
    → bit_xor (p * 2 ^ k + r) (q * 2 ^ k + s) ≡ bit_xor p q * 2 ^ k + bit_xor r s
bit_xor_fields = op_fields bit_xor differ bit_xor_digit refl

-- The laws with zero, and the low mask.
pub zero-bit_and : (b : ℕ) → bit_and 0 b ≡ 0
zero-bit_and b = bit_and-bitwise 0 b

pub zero-bit_or : (b : ℕ) → bit_or 0 b ≡ b
zero-bit_or b = bit_or-bitwise 0 b

and_zero_to : (bound x : ℕ) → x ≤ bound → bit_and x 0 ≡ 0
and_zero_to bound zero le = refl
and_zero_to zero (suc x) le = absurd (omega arith)
and_zero_to (suc bound) (suc x) le =
    omega (arith, and_zero_to bound (suc x / 2) (omega arith), bit_and_digit (suc x) 0)

bit_and-zero : (a : ℕ) → bit_and a 0 ≡ 0
bit_and-zero a = and_zero_to a a (omega arith)

or_zero_to : (bound x : ℕ) → x ≤ bound → bit_or x 0 ≡ x
or_zero_to bound zero le = refl
or_zero_to zero (suc x) le = absurd (omega arith)
or_zero_to (suc bound) (suc x) le =
    omega (arith, or_zero_to bound (suc x / 2) (omega arith), bit_or_digit (suc x) 0)

bit_or-zero : (a : ℕ) → bit_or a 0 ≡ a
bit_or-zero a = or_zero_to a a (omega arith)

-- `a & (2 ^ k - 1)` keeps the `k` low bits.
mask_keeps : (k r : ℕ) → r < 2 ^ k → bit_and r (2 ^ k - 1) ≡ r
mask_keeps zero r h = rw bit_and-zero (omega arith)
mask_keeps (suc k) r h =
    ground
      (arith, bit_and_digit r (2 ^ suc k - 1), pow-suc 2 k, one-le-pow k 2, mask_keeps k (r / 2))

pub bit_and_mask : (k a : ℕ) → bit_and a (2 ^ k - 1) ≡ a % 2 ^ k
bit_and_mask k a = ground (
  arith,
  mask_keeps k (a % 2 ^ k),
  bit_and_fields k (a / 2 ^ k) (a % 2 ^ k) 0 (2 ^ k - 1),
  one-le-pow k 2,
  bit_and-zero (a / 2 ^ k),
)

-- `a & (mask << j)` keeps the `k` bits above bit `j`.
pub bit_and_field : (k j a : ℕ) → bit_and a ((2 ^ k - 1) * 2 ^ j) ≡ a / 2 ^ j % 2 ^ k * 2 ^ j
bit_and_field k j a = ground (
  arith,
  one-le-pow j 2,
  bit_and_fields j (a / 2 ^ j) (a % 2 ^ j) (2 ^ k - 1) 0,
  bit_and_mask k (a / 2 ^ j),
  bit_and-zero (a % 2 ^ j),
)

pub bit_and_comm : (a b : ℕ) → bit_and a b ≡ bit_and b a
bit_and_comm a = WellFounded.induction lt_wf {C = λ n. (b : ℕ) → bit_and n b ≡ bit_and b n} a step
  where
    step :
        (n : ℕ)
        → ((m : ℕ) → m < n → (b : ℕ) → bit_and m b ≡ bit_and b m)
        → (b : ℕ) → bit_and n b ≡ bit_and b n
    step zero ih b = zero-bit_and b ∙ sym (bit_and-zero b)
    step (suc n) ih b = ground (
      arith,
      bit_and_digit (suc n) b,
      bit_and_digit b (suc n),
      ih (suc n / 2) (omega arith) (b / 2),
    )

-- `(hi << k) | lo` is a sum where `lo` fits `k` bits, in either order.
pub bit_or_high : (k hi lo : ℕ) → lo < 2 ^ k → bit_or (hi * 2 ^ k) lo ≡ hi * 2 ^ k + lo
bit_or_high k hi lo h =
    ground (arith, one-le-pow k 2, bit_or_fields k hi 0 0 lo, bit_or-zero hi, zero-bit_or lo)

pub bit_or_low : (k hi lo : ℕ) → lo < 2 ^ k → bit_or lo (hi * 2 ^ k) ≡ hi * 2 ^ k + lo
bit_or_low k hi lo h =
    ground (arith, one-le-pow k 2, bit_or_fields k 0 lo hi 0, bit_or-zero lo, zero-bit_or hi)

-- `^` undoes itself and keeps to the width.
differ_bits : (x y : ℕ) → x < 2 → y < 2 → (differ x y < 2) × (differ x (differ x y) ≡ y)
differ_bits zero y hx hy = (hy, refl)
differ_bits (suc zero) zero hx hy = (omega arith, refl)
differ_bits (suc zero) (suc zero) hx hy = (omega arith, refl)
differ_bits (suc zero) (suc (suc y)) hx hy = absurd (omega arith)
differ_bits (suc (suc x)) y hx hy = absurd (omega arith)

pub zero-bit_xor : (b : ℕ) → bit_xor 0 b ≡ b
zero-bit_xor b = bit_xor-bitwise 0 b

pub bit_xor_cancel : (a b : ℕ) → bit_xor a (bit_xor a b) ≡ b
bit_xor_cancel a =
    WellFounded.induction lt_wf {C = λ n. (b : ℕ) → bit_xor n (bit_xor n b) ≡ b} a step
  where
    step :
        (n : ℕ)
        → ((m : ℕ) → m < n → (b : ℕ) → bit_xor m (bit_xor m b) ≡ b)
        → (b : ℕ) → bit_xor n (bit_xor n b) ≡ b
    step zero ih b = zero-bit_xor _ ∙ zero-bit_xor b
    step (suc n) ih b = ground (
      arith,
      bit_xor_digit (suc n) b,
      bit_xor_digit (suc n) (bit_xor (suc n) b),
      differ_bits (suc n % 2) (b % 2),
      ih (suc n / 2) (omega arith) (b / 2),
    )

pub bit_xor-lt : (k a b : ℕ) → a < 2 ^ k → b < 2 ^ k → bit_xor a b < 2 ^ k
bit_xor-lt zero a b ha hb =
    ground (arith, ap (λ (t : ℕ). bit_xor t b) {x = a} {y = 0} (omega arith), zero-bit_xor b)
bit_xor-lt (suc k) a b ha hb = ground (
  arith,
  pow-suc 2 k,
  bit_xor_digit a b,
  differ_bits (a % 2) (b % 2),
  bit_xor-lt k (a / 2) (b / 2),
)

differ_comm : (x y : ℕ) → x < 2 → y < 2 → differ x y ≡ differ y x
differ_comm zero zero hx hy = refl
differ_comm zero (suc y) hx hy = refl
differ_comm (suc x) zero hx hy = refl
differ_comm (suc zero) (suc zero) hx hy = refl
differ_comm (suc zero) (suc (suc y)) hx hy = absurd (omega arith)
differ_comm (suc (suc x)) (suc y) hx hy = absurd (omega arith)

bit_xor-zero : (a : ℕ) → bit_xor a 0 ≡ a
bit_xor-zero a = WellFounded.induction lt_wf {C = λ n. bit_xor n 0 ≡ n} a step
  where
    step : (n : ℕ) → ((m : ℕ) → m < n → bit_xor m 0 ≡ m) → bit_xor n 0 ≡ n
    step zero ih = refl
    step (suc n) ih =
        ground
          (arith, bit_xor_digit (suc n) 0, differ_comm (suc n % 2) 0, ih (suc n / 2) (omega arith))

pub bit_xor_comm : (a b : ℕ) → bit_xor a b ≡ bit_xor b a
bit_xor_comm a = WellFounded.induction lt_wf {C = λ n. (b : ℕ) → bit_xor n b ≡ bit_xor b n} a step
  where
    step :
        (n : ℕ)
        → ((m : ℕ) → m < n → (b : ℕ) → bit_xor m b ≡ bit_xor b m)
        → (b : ℕ) → bit_xor n b ≡ bit_xor b n
    step zero ih b = zero-bit_xor b ∙ sym (bit_xor-zero b)
    step (suc n) ih b = ground (
      arith,
      bit_xor_digit (suc n) b,
      bit_xor_digit b (suc n),
      differ_comm (suc n % 2) (b % 2),
      ih (suc n / 2) (omega arith) (b / 2),
    )
