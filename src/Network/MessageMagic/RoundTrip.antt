-- ===== src/Network/MessageMagic/RoundTrip.antt =====
-- Decoding the magic of a command message undoes encoding it.
use Prim.Native.Nat.{bit_and, bit_or, bit_xor}
use alicia_server.Common.{
  ℕ, zero, suc, if◌then◌else◌, false, ◌+◌, ◌-◌, ◌*◌, ◌/◌, ◌%◌, ◌^◌, ◌<◌, ◌≡◌, refl, arith, Bool,
  true, ◌==◌, ==_iff,
}
use alicia_server.Common.Bits.{
  bit_and_mask, bit_and_comm, bit_and_field, bit_or_high, bit_or_low, bit_or_fields, bit_and_fields,
  bit_xor_cancel, bit_xor-lt,
}
use alicia_server.Network.MessageMagic.{
  MessageMagic, complement, decode_length, decode_id, decode_message_magic, fold_length, swap_bytes,
  encode_message_magic,
}

encode_sample : encode_message_magic (record { id = 7; length = 29 }) ≡ 0xcd06cd01
unfolding encode_message_magic
encode_sample = refl

passes_below : (test : ℕ → Bool) → (limit : ℕ) → Bool
passes_below test zero = true
passes_below test (suc last) = if test last then passes_below test last else false

passed_at :
    (test : ℕ → Bool) (value limit : ℕ)
    → value < limit
    → passes_below test limit ≡ true
    → test value ≡ true
unfolding passes_below
passed_at test value zero inside all = absurd (omega arith)
passed_at test value (suc last) inside all = ground (arith, passed_at test value last)

low_half : ℕ → ℕ
low_half n = n / 16 % 256 + n % 16 * 256 + n / 4096 % 4 * 4096 + n % 2 * 16384 + 32768

low_half-lt : (n : ℕ) → low_half n < 2 ^ 16
unfolding low_half
low_half-lt n = omega arith

fold_length_lem : (n : ℕ) → n < 2 ^ 32 → fold_length n ≡ n % 2 ^ 14 + n % 4 * 2 ^ 14
unfolding fold_length
fold_length_lem n h = ground (
  arith,
  bit_and_mask 14 n,
  bit_or_low 14 (n % 2 ^ 18) (n % 2 ^ 14),
  bit_and_mask 16 (n % 2 ^ 18 * 2 ^ 14 + n % 2 ^ 14),
)

-- bit 15 of the low half is set twice over: by 0xff80 and by the folded length
or_ff8 : (c : ℕ) → c < 16 → bit_or 0xff8 c % 16 ≡ 8 + c % 8
unfolding passes_below
or_ff8 c h = (==_iff _ _).0 (passed_at (λ n. bit_or 0xff8 n % 16 == 8 + n % 8) c 16 h refl)

swap_bytes_lem :
    (n e : ℕ)
    → e < 2 ^ 16
    → swap_bytes n e ≡ n / 16 % 256 + e % 16 * 256 + (8 + e / 4096 % 8) * 4096
unfolding swap_bytes
swap_bytes_lem n e h = ground (
  arith,
  bit_and_mask 4 e,
  bit_or_low 7 0x1ff (e % 16),
  bit_and_mask 8 (n / 16),
  bit_or_high 8 (0xff80 + e % 16) (n / 16 % 256),
  bit_and_field 4 12 e,
  bit_or_fields 12 0xff8 (e % 16 * 256 + n / 16 % 256) (e / 4096 % 16) 0,
  or_ff8 (e / 4096 % 16),
  bit_or_high 0 (e % 16 * 256 + n / 16 % 256) 0,
  bit_and_mask 16 (bit_or 0xff8 (e / 4096 % 16) * 4096 + (e % 16 * 256 + n / 16 % 256)),
)

decode_length_lem : (v : ℕ) → decode_length v ≡ v / 4096 % 4 * 4096 + v % 256 * 16 + v / 256 % 16
unfolding decode_length
decode_length_lem v = ground (
  arith,
  bit_and_mask 14 v,
  bit_and_mask 8 v,
  bit_and_mask 4 (v % 2 ^ 14 / 256),
  bit_and_field 4 12 (v % 2 ^ 14),
  bit_or_high 4 (v % 256) (v % 2 ^ 14 / 256 % 16),
  bit_or_low 12 (v % 2 ^ 14 / 4096) (v % 256 * 16 + v % 2 ^ 14 / 256 % 16),
)

ones_above : (q : ℕ) → q < 4 → bit_and (2 ^ 18 - 1 - q) q ≡ 0
unfolding passes_below
ones_above q h = (==_iff _ _).0 (passed_at (λ n. bit_and (2 ^ 18 - 1 - n) n == 0) q 4 h refl)

-- `~(x & 0xC000) & x` clears the two high bits
clear_high : (x : ℕ) → x < 2 ^ 16 → bit_and (complement (bit_and x 0xc000)) x ≡ x % 2 ^ 14
clear_high x h = ground (
  arith,
  bit_and_field 2 14 x,
  bit_and_fields 14 (2 ^ 18 - 1 - x / 2 ^ 14) (2 ^ 14 - 1) (x / 2 ^ 14) (x % 2 ^ 14),
  ones_above (x / 2 ^ 14),
  bit_and_comm (2 ^ 14 - 1) (x % 2 ^ 14),
  bit_and_mask 14 (x % 2 ^ 14),
)

decode_id_lem : (v : ℕ) → decode_id v ≡ bit_xor (v % 2 ^ 16) (v / 2 ^ 16 % 2 ^ 16) % 2 ^ 14
unfolding decode_id
decode_id_lem v = ground (
  arith,
  bit_and_mask 16 v,
  bit_and_mask 16 (v / 2 ^ 16),
  bit_xor-lt 16 (v % 2 ^ 16) (v / 2 ^ 16 % 2 ^ 16),
  clear_high (bit_xor (v % 2 ^ 16) (v / 2 ^ 16 % 2 ^ 16)),
)

encode_lem :
    (m : MessageMagic)
    → m.id < 2 ^ 16
    → m.length < 2 ^ 16
    → encode_message_magic m ≡ bit_xor (low_half m.length) m.id * 2 ^ 16 + low_half m.length
unfolding encode_message_magic low_half
encode_lem m hi hl = ground (
  arith,
  bit_and_mask 16 m.id,
  bit_or_high 16 4096 m.length,
  fold_length_lem (2 ^ 28 + m.length),
  swap_bytes_lem (2 ^ 28 + m.length)
      ((2 ^ 28 + m.length) % 2 ^ 14 + (2 ^ 28 + m.length) % 4 * 2 ^ 14),
  bit_xor-lt 16 (low_half m.length) m.id,
  bit_or_low 16 (bit_xor (low_half m.length) m.id) (low_half m.length),
)

sent_bit : (n x : ℕ) → n < 2 ^ 16 → bit_and (x * 2 ^ 16 + low_half n) 0x8000 ≡ 0x8000
unfolding low_half
sent_bit n x h = ground (arith, bit_and_field 1 15 (x * 2 ^ 16 + low_half n))

sent_length : (n x : ℕ) → n < 2 ^ 16 → decode_length (x * 2 ^ 16 + low_half n) ≡ n % 2 ^ 14
unfolding low_half
sent_length n x h = omega (arith, decode_length_lem (x * 2 ^ 16 + low_half n))

sent_id :
    (n i : ℕ)
    → n < 2 ^ 16
    → i < 2 ^ 16
    → decode_id (bit_xor (low_half n) i * 2 ^ 16 + low_half n) ≡ i % 2 ^ 14
unfolding low_half
sent_id n i hn hi = ground (
  arith,
  decode_id_lem (bit_xor (low_half n) i * 2 ^ 16 + low_half n),
  bit_xor-lt 16 (low_half n) i,
  bit_xor_cancel (low_half n) i,
)

-- The receiver decodes from an encoded magic the id and the length that were sent, each cut to its
-- 14 low bits: bits 14 and 15 of either are lost.
pub decode-encode :
    (m : MessageMagic)
    → m.id < 2 ^ 16
    → m.length < 2 ^ 16
    → decode_message_magic (encode_message_magic m)
      ≡ record { id = m.id % 2 ^ 14; length = m.length % 2 ^ 14 }
unfolding decode_message_magic
decode-encode m hi hl = rw (encode_lem m hi hl) (
    ground (
      arith,
      sent_bit m.length (bit_xor (low_half m.length) m.id) hl,
      sent_length m.length (bit_xor (low_half m.length) m.id) hl,
      sent_id m.length m.id hl hi,
    ))

-- A frame whose bit 15 is clear announces no data, and no decoded id or length passes 14 bits.
pub decode-bounds :
    (v : ℕ)
    → let m = decode_message_magic v in
      (m.id < 2 ^ 14) × (m.length < 2 ^ 14) × (v / 2 ^ 15 % 2 ≡ 0 → m.length ≡ 0)
unfolding decode_message_magic
decode-bounds v = ground (arith, decode_length_lem v, decode_id_lem v, bit_and_field 1 15 v)

pub encode-lt :
    (m : MessageMagic) → m.id < 2 ^ 16 → m.length < 2 ^ 16 → encode_message_magic m < 2 ^ 32
encode-lt m hi hl = rw (encode_lem m hi hl) (
    omega (
      arith,
      low_half-lt m.length,
      bit_xor-lt 16 (low_half m.length) m.id (low_half-lt m.length) hi,
    ))
