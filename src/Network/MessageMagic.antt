-- ===== src/Network/MessageMagic.antt =====
-- decode_message_magic and encode_message_magic of
-- src/libserver/network/command/CommandProtocol.cpp. Every value is an unsigned integer as a
-- number; a shift to the left wraps at 32 bits, and `~` is taken at the 32 bits of an int.
pub mod RoundTrip
use Prim.Native.Nat.{bit_and, bit_or, bit_xor}
use alicia_server.Common.{ℕ, ◌+◌, ◌-◌, ◌*◌, ◌/◌, ◌%◌, ◌^◌, ◌==◌, if◌then◌else◌}

pub record MessageMagic : Type 0 where
  pub id : ℕ
  pub length : ℕ

abbrev pub shl : ℕ → ℕ → ℕ
shl x k = x * 2 ^ k % 2 ^ 32

abbrev pub shr : ℕ → ℕ → ℕ
shr x k = x / 2 ^ k

abbrev pub complement : ℕ → ℕ
complement x = 2 ^ 32 - 1 - x

abbrev pub buffer_size : ℕ
buffer_size = 4096

-- the length that the low half of the magic holds
decode_length : ℕ → ℕ
decode_length value =
    let section : ℕ = bit_and value 0x3fff in
    bit_or (bit_or (shl (bit_and value 0xff) 4) (bit_and (shr section 8) 0xf))
      (bit_and section 0xf000)
    % 2 ^ 16

decode_id : ℕ → ℕ
decode_id value =
    let first_two_bytes : ℕ = bit_and value 0xffff in
    let second_two_bytes : ℕ = bit_and (shr value 16) 0xffff in
    let xor_result : ℕ = bit_xor first_two_bytes second_two_bytes in
    bit_and (complement (bit_and xor_result 0xc000)) xor_result % 2 ^ 16

unfoldable pub decode_message_magic : ℕ → MessageMagic
unfolding decode_length decode_id
decode_message_magic value = record {
  id = decode_id value;
  length = if bit_and value 0x8000 == 0 then 0 else decode_length value;
}

-- `((encoded & 0x3FFF) | encoded << 14) & 0xFFFF`
fold_length : ℕ → ℕ
fold_length length = bit_and (bit_or (bit_and length 0x3fff) (shl length 14)) 0xffff

-- the low half of the magic, from the length word and its fold
swap_bytes : ℕ → ℕ → ℕ
swap_bytes length encoded =
    bit_and
      (bit_or (bit_or (shl (bit_or (bit_and encoded 0xf) 0xff80) 8) (bit_and (shr length 4) 0xff))
        (bit_and encoded 0xf000))
      0xffff

unfoldable pub encode_message_magic : MessageMagic → ℕ
unfolding fold_length swap_bytes
encode_message_magic magic =
    let id : ℕ = bit_and magic.id 0xffff in
    let length : ℕ = bit_or (shl buffer_size 16) magic.length in
    let encoded : ℕ = swap_bytes length (fold_length length) in
    bit_or encoded (shl (bit_xor encoded id) 16)
