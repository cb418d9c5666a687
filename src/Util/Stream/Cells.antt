-- ===== src/Util/Stream/Cells.antt =====
-- What a write to a span leaves in each of its bytes.
use alicia_server.Common.{
  ℕ, zero, suc, ◌+◌, ◌≤◌, ◌<◌, ◌≡◌, ◌≢◌, refl, ◌∙◌, arith, List, [], ◌∷◌, length, set, length-set,
}
use mathlib.Core.Path.{ap₂}
use alicia_server.Util.Stream.{SinkStream, store_bytes, byte_at, fetch_bytes}

byte_at-set_self : (xs : List ℕ) (i v : ℕ) → i < length xs → byte_at (set xs i v) i ≡ v
byte_at-set_self [] i v h = elim h [ ]
byte_at-set_self (x ∷ xs) zero v h = refl
byte_at-set_self (x ∷ xs) (suc i) v h = byte_at-set_self xs i v (omega arith)

byte_at-set_ne : (xs : List ℕ) (i j v : ℕ) → i ≢ j → byte_at (set xs i v) j ≡ byte_at xs j
byte_at-set_ne [] i j v h = refl
byte_at-set_ne (x ∷ xs) zero zero v h = absurd (h refl)
byte_at-set_ne (x ∷ xs) zero (suc j) v h = refl
byte_at-set_ne (x ∷ xs) (suc i) zero v h = refl
byte_at-set_ne (x ∷ xs) (suc i) (suc j) v h = byte_at-set_ne xs i j v (omega arith)

pub cursor-store_bytes :
    (s : SinkStream) (bytes : List ℕ) → (store_bytes s bytes).cursor ≡ s.cursor + length bytes
unfolding store_bytes
cursor-store_bytes s [] = omega arith
cursor-store_bytes s (b ∷ bytes) = omega (
  arith,
  cursor-store_bytes (record { storage = set s.storage s.cursor b; cursor = s.cursor + 1 }) bytes,
)

pub length-store_bytes :
    (s : SinkStream) (bytes : List ℕ) → length (store_bytes s bytes).storage ≡ length s.storage
unfolding store_bytes
length-store_bytes s [] = refl
length-store_bytes s (b ∷ bytes) = omega (
  arith,
  length-store_bytes (record { storage = set s.storage s.cursor b; cursor = s.cursor + 1 }) bytes,
  length-set s.storage s.cursor b,
)

-- Bytes before the cursor, and bytes past the last one written, stay as they were.
pub store_bytes_before :
    (s : SinkStream) (bytes : List ℕ) (i : ℕ)
    → i < s.cursor
    → byte_at (store_bytes s bytes).storage i ≡ byte_at s.storage i
unfolding store_bytes
store_bytes_before s [] i h = refl
store_bytes_before s (b ∷ bytes) i h =
    store_bytes_before (record { storage = set s.storage s.cursor b; cursor = s.cursor + 1 }) bytes
      i (omega arith)
    ∙ byte_at-set_ne s.storage s.cursor i b (omega arith)

pub store_bytes_after :
    (s : SinkStream) (bytes : List ℕ) (i : ℕ)
    → s.cursor + length bytes ≤ i
    → byte_at (store_bytes s bytes).storage i ≡ byte_at s.storage i
unfolding store_bytes
store_bytes_after s [] i h = refl
store_bytes_after s (b ∷ bytes) i h =
    store_bytes_after (record { storage = set s.storage s.cursor b; cursor = s.cursor + 1 }) bytes i
      (omega arith)
    ∙ byte_at-set_ne s.storage s.cursor i b (omega arith)

-- What was stored is fetched from where it was stored.
pub fetch-store :
    (s : SinkStream) (bytes : List ℕ)
    → s.cursor + length bytes ≤ length s.storage
    → fetch_bytes (store_bytes s bytes).storage s.cursor (length bytes) ≡ bytes
unfolding store_bytes fetch_bytes
fetch-store s [] h = refl
fetch-store s (b ∷ bytes) h =
    let next : SinkStream = record { storage = set s.storage s.cursor b; cursor = s.cursor + 1 } in
    ap₂ ◌∷◌
      (store_bytes_before next bytes s.cursor (omega arith)
        ∙ byte_at-set_self s.storage s.cursor b (omega arith))
      (fetch-store next bytes (omega (arith, length-set s.storage s.cursor b)))

pub fetch_same :
    (xs ys : List ℕ) (c n : ℕ)
    → ((i : ℕ) → i < c + n → byte_at xs i ≡ byte_at ys i)
    → fetch_bytes xs c n ≡ fetch_bytes ys c n
unfolding fetch_bytes
fetch_same xs ys c zero h = refl
fetch_same xs ys c (suc n) h =
    ap₂ ◌∷◌ (h c (omega arith)) (fetch_same xs ys (c + 1) n (λ i lt. h i (omega arith)))
