-- ===== src/Util/Stream/RoundTrip.antt =====
-- What a sink stream writes, a source stream over the same bytes reads back.
use alicia_server.Common.{
  ℕ, zero, suc, ◌+◌, ◌-◌, ◌%◌, ◌^◌, ◌≤◌, ◌<◌, ◌≡◌, ◌≢◌, refl, ap, arith, List, [], ◌∷◌, ◌++◌,
  length, length-append, set, length-set, max, some, All, ◌⊎◌, inl, inr, lt→ltb,
}
use mathlib.Core.Path.{subst}
use mathlib.Core.List.{append-nil, append_assoc}
use native.Mathlib.Decide.{dec_lt}
use alicia_server.Common.Outcome.{returned, threw, overflow_error, Outcome-cases}
use alicia_server.Util.Stream.Bytes.{to_bytes, of_bytes, length-to_bytes, of_bytes-to_bytes}
use alicia_server.Util.Stream.Cells.{
  cursor-store_bytes, length-store_bytes, store_bytes_before, store_bytes_after, fetch-store,
  fetch_same,
}
use alicia_server.Util.Stream.{
  SinkStream, store_bytes, write, write_number, write_each, write_string, byte_at, fetch_bytes,
  read, read_number, read_chars, read_string,
}

-- What a completed write of `bytes` from `s` to `t` leaves.
pub record Wrote (s t : SinkStream) (bytes : List ℕ) : Type 0 where
  pub fits : s.cursor + length bytes ≤ length s.storage
  pub size : length t.storage ≡ length s.storage
  pub cursor : t.cursor ≡ s.cursor + length bytes
  pub written : fetch_bytes t.storage s.cursor (length bytes) ≡ bytes
  pub before : (i : ℕ) → i < s.cursor → byte_at t.storage i ≡ byte_at s.storage i
  pub after : (i : ℕ) → t.cursor ≤ i → byte_at t.storage i ≡ byte_at s.storage i

-- A write either does not fit, and then it throws and stores nothing, or it stores all its bytes at
-- the cursor, moves the cursor past them, and leaves every other byte of the buffer as it was.
pub write-Wrote :
    (s : SinkStream) (bytes : List ℕ)
    → ((length s.storage < s.cursor + length bytes) × (write s bytes ≡ threw overflow_error))
      ⊎ ((t : SinkStream) × (write s bytes ≡ returned t) × Wrote s t bytes)
unfolding write
write-Wrote s bytes = elim (dec_lt (length s.storage) (s.cursor + length bytes)) [
  | yes h ↦ inl (h, rw (lt→ltb _ _ h))
  | no h ↦ inr (
    store_bytes s bytes,
    ground arith,
    record {
      fits = omega arith;
      size = length-store_bytes s bytes;
      cursor = cursor-store_bytes s bytes;
      written = fetch-store s bytes (omega arith);
      before = store_bytes_before s bytes;
      after = λ i le. store_bytes_after s bytes i (omega (arith, cursor-store_bytes s bytes));
    },
  )
]

write-eq-returned :
    (s t : SinkStream) (bytes : List ℕ) → write s bytes ≡ returned t → Wrote s t bytes
write-eq-returned s t bytes e = elim (write-Wrote s bytes) [
  | inl (_, threw_it) ↦ absurd (cc)
  | inr (u, stored, w) ↦ subst (λ x. Wrote s x bytes) (cc) w
]

-- A number of `width` bytes that was written at the cursor is read back from there, cut to its
-- width, and the source stands where the sink stood after the write.
pub read_number-write_number :
    (width v : ℕ) (s t : SinkStream)
    → write_number width s v ≡ returned t
    → read_number width (record { storage = t.storage; cursor = s.cursor })
      ≡ returned (v % 256 ^ width, record { storage = t.storage; cursor = t.cursor })
unfolding write_number read_number read
read_number-write_number width v s t e =
    let w : Wrote s t (to_bytes width v) = write-eq-returned s t (to_bytes width v) e in
    ground (
      arith,
      length-to_bytes width v,
      w.written,
      w.fits,
      w.size,
      w.cursor,
      of_bytes-to_bytes width v,
      ap (fetch_bytes t.storage s.cursor) (length-to_bytes width v),
    )

-- What stands in the bytes before a later write is read as before it.
pub read-after-write :
    (s t : SinkStream) (bytes : List ℕ) (c n : ℕ)
    → write s bytes ≡ returned t
    → c + n ≤ s.cursor
    → read (record { storage = t.storage; cursor = c }) n
      ≡ returned (fetch_bytes s.storage c n, record { storage = t.storage; cursor = c + n })
unfolding read
read-after-write s t bytes c n e h =
    let w : Wrote s t bytes = write-eq-returned s t bytes e in
    ground
      (arith, w.fits, w.size, fetch_same t.storage s.storage c n (λ i lt. w.before i (omega arith)))

abbrev pub IsText : ℕ → Type 0
IsText c = (c ≢ 0) × (c < 256)

write_each-store :
    (s t : SinkStream) (bytes : List ℕ)
    → All IsText bytes
    → write_each s bytes ≡ returned t
    → (t ≡ store_bytes s bytes) × (s.cursor + length bytes ≤ max (length s.storage) s.cursor)
unfolding write_each write_number write store_bytes to_bytes
write_each-store s t [] a e = (cc, omega arith)
write_each-store s t (b ∷ bytes) a e = ground (
  arith,
  write_each-store (record { storage = set s.storage s.cursor b; cursor = s.cursor + 1 }) t bytes
      a.1,
  length-set s.storage s.cursor b,
)

read_chars_text :
    (fuel : ℕ) (storage : List ℕ) (c : ℕ) (buffer bytes : List ℕ)
    → length bytes < fuel
    → c + length bytes + 1 ≤ length storage
    → All IsText bytes
    → fetch_bytes storage c (suc (length bytes)) ≡ bytes ++ 0 ∷ []
    → read_chars fuel (record { storage = storage; cursor = c }) buffer
      ≡ some
          (returned (buffer ++ bytes, record { storage = storage; cursor = c + length bytes + 1 }))
unfolding read_chars read_number read fetch_bytes of_bytes
read_chars_text zero storage c buffer bytes lt fits a e = elim lt [ ]
read_chars_text (suc fuel) storage c buffer [] lt fits a e = ground (arith, append-nil buffer)
read_chars_text (suc fuel) storage c buffer (b ∷ bytes) lt fits a e = ground (
  arith,
  append_assoc buffer (b ∷ []) bytes,
  read_chars_text fuel storage (c + 1) (buffer ++ b ∷ []) bytes,
)

store_bytes-append :
    (s : SinkStream) (xs ys : List ℕ) → store_bytes s (xs ++ ys) ≡ store_bytes (store_bytes s xs) ys
unfolding store_bytes
store_bytes-append s [] ys = refl
store_bytes-append s (x ∷ xs) ys =
    store_bytes-append (record { storage = set s.storage s.cursor x; cursor = s.cursor + 1 }) xs ys

-- A string is written as its encoded bytes and a zero.
write_string-write :
    (from_utf8 : List ℕ → List ℕ) (value : List ℕ) (s t : SinkStream)
    → All IsText (from_utf8 value)
    → write_string from_utf8 s value ≡ returned t
    → write s (from_utf8 value ++ 0 ∷ []) ≡ returned t
unfolding write_string write write_number to_bytes store_bytes
write_string-write from_utf8 value s t a e = elim (Outcome-cases (write_each s (from_utf8 value))) [
  | inl (u, eu) ↦ ground (
    arith,
    write_each-store s u (from_utf8 value) a eu,
    store_bytes-append s (from_utf8 value) (0 ∷ []),
    length-append (from_utf8 value) (0 ∷ []),
    cursor-store_bytes s (from_utf8 value),
    length-store_bytes s (from_utf8 value),
  )
  | inr (x, ex) ↦ ground arith
]

-- A string whose encoded bytes hold no zero byte is read back as written, up to the change of the
-- encoding and back, and reading it never needs more rounds than there are bytes left.
pub read_string-write_string :
    (from_utf8 to_utf8 : List ℕ → List ℕ) (value : List ℕ) (s t : SinkStream)
    → All IsText (from_utf8 value)
    → write_string from_utf8 s value ≡ returned t
    → read_string to_utf8 (record { storage = t.storage; cursor = s.cursor })
      ≡ some
          (returned (to_utf8 (from_utf8 value), record { storage = t.storage; cursor = t.cursor }))
unfolding read_string
read_string-write_string from_utf8 to_utf8 value s t a e =
    let bytes : List ℕ = from_utf8 value in
    let w : Wrote s t (bytes ++ 0 ∷ []) =
      write-eq-returned s t _ (write_string-write from_utf8 value s t a e) in
    let n : length (bytes ++ 0 ∷ []) ≡ suc (length bytes) =
      omega (arith, length-append bytes (0 ∷ [])) in
    ground (
      arith,
      n,
      w.fits,
      w.size,
      w.cursor,
      read_chars_text (suc (length t.storage - s.cursor)) t.storage s.cursor [] bytes
          (omega (arith, w.size, w.fits, n)) (omega (arith, w.size, w.fits, n)) a
          (rw (← n) w.written),
    )
