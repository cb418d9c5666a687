-- ===== src/Util/Stream.antt =====
-- SinkStream and SourceStream of src/libserver/util/Stream.cpp and include/libserver/util/Stream.hpp.
-- A byte is a number; the span under a stream is a list of bytes, which never changes its length.
-- A numeric value is written as its bytes in the order of a little-endian machine.
pub mod Bytes
pub mod Cells
pub mod RoundTrip
use alicia_server.Common.{
  ℕ, zero, suc, ◌+◌, ◌-◌, List, [], ◌∷◌, ◌++◌, Option, none, some, ltb, if◌then◌else◌, length,
  get_elem?, set, ◌==◌,
}
use alicia_server.Common.Outcome.{Outcome, returned, threw, overflow_error, ◌>>=◌}
use Bytes.{to_bytes, of_bytes}

pub record SinkStream : Type 0 where
  pub storage : List ℕ
  pub cursor : ℕ

pub record SourceStream : Type 0 where
  pub storage : List ℕ
  pub cursor : ℕ

-- StreamBase::Seek
unfoldable pub seek_sink : SinkStream → ℕ → Outcome SinkStream
seek_sink s cursor =
    if ltb (length s.storage) cursor
    then threw overflow_error
    else returned (record s { cursor = cursor })

unfoldable pub seek_source : SourceStream → ℕ → Outcome SourceStream
seek_source s cursor =
    if ltb (length s.storage) cursor
    then threw overflow_error
    else returned (record s { cursor = cursor })

-- the loop `_storage[_cursor++] = data[byteIdx]`
unfoldable pub store_bytes : SinkStream → List ℕ → SinkStream
store_bytes s [] = s
store_bytes s (b ∷ bytes) =
    store_bytes (record { storage = set s.storage s.cursor b; cursor = s.cursor + 1 }) bytes

-- SinkStream::Write(const void*, size_t)
unfoldable pub write : SinkStream → List ℕ → Outcome SinkStream
write s bytes =
    if ltb (length s.storage) (s.cursor + length bytes)
    then threw overflow_error
    else returned (store_bytes s bytes)

-- SinkStream::Write of a value of `width` bytes
unfoldable pub write_number : ℕ → SinkStream → ℕ → Outcome SinkStream
unfolding write
write_number width s value = write s (to_bytes width value)

-- `Write(b)` for each byte of an encoded string
unfoldable pub write_each : SinkStream → List ℕ → Outcome SinkStream
unfolding write_number
write_each s [] = returned s
write_each s (b ∷ bytes) = write_number 1 s b >>= λ t. write_each t bytes

-- SinkStream::Write(const std::string&). `from_utf8` is locale::FromUtf8.
unfoldable pub write_string : (List ℕ → List ℕ) → SinkStream → List ℕ → Outcome SinkStream
write_string from_utf8 s value = write_each s (from_utf8 value) >>= λ t. write_number 1 t 0

-- `_storage[i]`, which the length test keeps in range
abbrev pub byte_at : List ℕ → ℕ → ℕ
byte_at storage i = elim (get_elem? storage i) [ none ↦ 0 | some b ↦ b ]

-- the loop `data[byteIdx] = _storage[_cursor++]`
unfoldable pub fetch_bytes : List ℕ → ℕ → ℕ → List ℕ
fetch_bytes storage cursor zero = []
fetch_bytes storage cursor (suc n) = byte_at storage cursor ∷ fetch_bytes storage (cursor + 1) n

-- SourceStream::Read(void*, size_t)
unfoldable pub read : SourceStream → ℕ → Outcome (List ℕ × SourceStream)
read s size =
    if ltb (length s.storage) (s.cursor + size)
    then threw overflow_error
    else returned (fetch_bytes s.storage s.cursor size, record s { cursor = s.cursor + size })

-- SourceStream::Read of a value of `width` bytes
unfoldable pub read_number : ℕ → SourceStream → Outcome (ℕ × SourceStream)
unfolding read
read_number width s = read s width >>= λ r. returned (of_bytes r.0, r.1)

-- The loop of SourceStream::Read(std::string&), on fuel: `none` would mean that it ran out. The
-- characters before the first zero byte are collected.
unfoldable pub read_chars : ℕ → SourceStream → List ℕ → Option (Outcome (List ℕ × SourceStream))
unfolding read_number
read_chars zero s buffer = none
read_chars (suc fuel) s buffer = elim (read_number 1 s) [
  | threw e ↦ some (threw e)
  | returned (c, t) ↦
      if c == 0 then some (returned (buffer, t)) else read_chars fuel t (buffer ++ c ∷ [])
]

-- SourceStream::Read(std::string&): each round reads a byte, so the bytes left bound the rounds.
-- `to_utf8` is locale::ToUtf8.
unfoldable pub read_string :
    (List ℕ → List ℕ) → SourceStream → Option (Outcome (List ℕ × SourceStream))
read_string to_utf8 s = elim (read_chars (suc (length s.storage - s.cursor)) s []) [
  | none ↦ none
  | some (threw e) ↦ some (threw e)
  | some (returned (buffer, t)) ↦ some (returned (to_utf8 buffer, t))
]
