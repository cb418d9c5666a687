-- ===== src/Network/CommandServer/Code.antt =====
-- The rolling code and the XOR cipher lose nothing.
use alicia_server.Common.{ℕ, suc, ◌/◌, ◌%◌, ◌^◌, ◌<◌, ◌≡◌, refl, ap, arith, List, [], ◌∷◌, length}
use Prim.Native.Nat.{bit_xor}
use mathlib.Core.Path.{ap₂}
use alicia_server.Common.Bits.{bit_xor_cancel, bit_xor_comm}
use alicia_server.Network.CommandServer.{roll_code, xor_algorithm}

pub roll_code-lt : (code : ℕ) → roll_code code < 2 ^ 32
unfolding roll_code
roll_code-lt code = omega arith

-- Two codes that roll to the same code are the same: the multiplier is odd, so rolling permutes the
-- 2 ^ 32 codes.
pub roll_code-injective : (a b : ℕ) → a < 2 ^ 32 → b < 2 ^ 32 → roll_code a ≡ roll_code b → a ≡ b
unfolding roll_code
roll_code-injective a b ha hb e = omega arith

pub length-xor_algorithm :
    (code idx : ℕ) (source : List ℕ) → length (xor_algorithm code idx source) ≡ length source
unfolding xor_algorithm
length-xor_algorithm code idx [] = refl
length-xor_algorithm code idx (v ∷ source) = ap suc (length-xor_algorithm code (suc idx) source)

xor_twice : (v k : ℕ) → bit_xor (bit_xor v k) k ≡ v
xor_twice v k = rw (bit_xor_comm (bit_xor v k) k, bit_xor_comm v k) (bit_xor_cancel k v)

-- Deciphering with the code of the enciphering gives the bytes back, at any index of the stream.
pub xor_algorithm-involutive :
    (code idx : ℕ) (source : List ℕ)
    → xor_algorithm code idx (xor_algorithm code idx source) ≡ source
unfolding xor_algorithm
xor_algorithm-involutive code idx [] = refl
xor_algorithm-involutive code idx (v ∷ source) =
    ap₂ ◌∷◌ (xor_twice v (code / 256 ^ (idx % 4) % 256))
      (xor_algorithm-involutive code (suc idx) source)
