-- ===== src/Util/Stream/Bytes.antt =====
-- A number as its bytes, the lowest first.
use alicia_server.Common.{
  ℕ, zero, suc, ◌+◌, ◌*◌, ◌/◌, ◌%◌, ◌^◌, ◌<◌, ◌≡◌, refl, arith, List, [], ◌∷◌, length,
}
use native.Mathlib.Nat.{pow-suc, one-le-pow}

unfoldable pub to_bytes : ℕ → ℕ → List ℕ
to_bytes zero v = []
to_bytes (suc n) v = (v % 256) ∷ to_bytes n (v / 256)

unfoldable pub of_bytes : List ℕ → ℕ
of_bytes [] = 0
of_bytes (b ∷ bytes) = b + 256 * of_bytes bytes

pub length-to_bytes : (n v : ℕ) → length (to_bytes n v) ≡ n
unfolding to_bytes
length-to_bytes zero v = refl
length-to_bytes (suc n) v = omega (arith, length-to_bytes n (v / 256))

mod-pow-suc : (v p : ℕ) → 0 < p → v % 256 + 256 * (v / 256 % p) ≡ v % (p * 256)
mod-pow-suc v p h = grind arith

-- What does not fit the width is cut off.
pub of_bytes-to_bytes : (n v : ℕ) → of_bytes (to_bytes n v) ≡ v % 256 ^ n
unfolding to_bytes of_bytes
of_bytes-to_bytes zero v = omega arith
of_bytes-to_bytes (suc n) v =
    ground (
      arith,
      pow-suc 256 n,
      one-le-pow n 256,
      of_bytes-to_bytes n (v / 256),
      mod-pow-suc v (256 ^ n),
    )
