-- ===== src/Network/CommandServer/Receive.antt =====
-- Commands that are sent in the protocol's format are received as they were sent.
use alicia_server.Common.{
  ℕ, zero, suc, ◌+◌, ◌-◌, ◌≤◌, ◌<◌, ◌≡◌, refl, ap, ◌∙◌, arith, List, [], ◌∷◌, ◌++◌, some, length,
  length-append, take, drop, map,
}
use Prim.Native.Nat.{bit_and}
use mathlib.Core.List.{append_assoc}
use native.Mathlib.Nat.{mod-eq_of_lt}
use alicia_server.Common.Outcome.{returned}
use alicia_server.Util.Stream.Bytes.{to_bytes, of_bytes, length-to_bytes, of_bytes-to_bytes}
use alicia_server.Network.MessageMagic.{MessageMagic, decode_message_magic, encode_message_magic}
use alicia_server.Network.MessageMagic.RoundTrip.{decode-encode, encode-lt}
use alicia_server.Network.CommandServer.Code.{length-xor_algorithm, xor_algorithm-involutive}
use alicia_server.Network.CommandServer.Chunks.{
  rounds_incomplete, rounds_command, read_round-length, after,
}
use alicia_server.Network.CommandServer.{
  Command, command, max_command_data_size, command_count, roll_code, xor_algorithm, decipher,
  read_command, read_round, rounds, on_client_data, settle, Handle,
}

-- A command as its sender frames it: the payload, and behind it as many bytes of padding as the
-- low three bits of the next code say. A command without payload has no padding and rolls no code.
pub record Message : Type 0 where
  pub command : Command
  pub padding : List ℕ

abbrev pub body : Message → List ℕ
body m = m.command.payload ++ m.padding

abbrev pub next_code : ℕ → List ℕ → ℕ
next_code code [] = code
next_code code (b ∷ payload) = roll_code code

-- the bytes of a message that a client with the code `code` sends
pub frame : ℕ → Message → List ℕ
frame code m =
    to_bytes 4 (encode_message_magic (record { id = m.command.id; length = 4 + length (body m) }))
    ++ xor_algorithm (roll_code code) 0 (body m)

-- What the format asks of a message.
abbrev pub padding_for : ℕ → List ℕ → ℕ
padding_for code [] = 0
padding_for code (b ∷ payload) = bit_and (roll_code code) 7

pub record IsFramed (code : ℕ) (m : Message) : Type 0 where
  pub known : m.command.id ≤ command_count
  pub fits : length (body m) ≤ max_command_data_size
  pub padded : length m.padding ≡ padding_for code m.command.payload

-- the two parts of a list, by the length of the first
take_exact {ℓ} : {A : Type ℓ} (n : ℕ) (xs ys : List A) → length xs ≡ n → take n (xs ++ ys) ≡ xs
take_exact zero [] ys e = refl
take_exact zero (x ∷ xs) ys e = absurd (omega arith)
take_exact (suc n) [] ys e = absurd (omega arith)
take_exact (suc n) (x ∷ xs) ys e = rw (take_exact n xs ys (omega arith))

drop_exact {ℓ} : {A : Type ℓ} (n : ℕ) (xs ys : List A) → length xs ≡ n → drop n (xs ++ ys) ≡ ys
drop_exact zero [] ys e = refl
drop_exact zero (x ∷ xs) ys e = absurd (omega arith)
drop_exact (suc n) [] ys e = absurd (omega arith)
drop_exact (suc n) (x ∷ xs) ys e = drop_exact n xs ys (omega arith)

decipher-frame :
    (code id : ℕ) (payload padding rest : List ℕ)
    → length padding ≡ padding_for code payload
    → decipher code id (xor_algorithm (roll_code code) 0 (payload ++ padding)) rest
      ≡ command (record { id = id; payload = payload }) (next_code code payload) rest
unfolding decipher xor_algorithm
decipher-frame code id [] [] rest e = refl
decipher-frame code id [] (p ∷ padding) rest e = absurd (omega arith)
decipher-frame code id (b ∷ payload) padding rest e =
    let rolled : ℕ = roll_code code in
    let pad : ℕ = bit_and rolled 7 in
    let n : length (payload ++ padding) ≡ length payload + pad =
      omega (arith, length-append payload padding) in
    ground (
      arith,
      n,
      length-xor_algorithm rolled 1 (payload ++ padding),
      xor_algorithm-involutive rolled 0 (b ∷ payload ++ padding),
      take_exact (suc (length payload)) (b ∷ payload) padding,
    )

magic_of : Message → MessageMagic
magic_of m = record { id = m.command.id; length = 4 + length (body m) }

decode-frame :
    (code : ℕ) (m : Message)
    → IsFramed code m
    → decode_message_magic (of_bytes (to_bytes 4 (encode_message_magic (magic_of m)))) ≡ magic_of m
unfolding magic_of
decode-frame code m w =
    ap decode_message_magic (
      of_bytes-to_bytes 4 (encode_message_magic (magic_of m))
      ∙ mod-eq_of_lt (encode-lt (magic_of m) (omega (arith, w.known)) (omega (arith, w.fits))))
    ∙ decode-encode (magic_of m) (omega (arith, w.known)) (omega (arith, w.fits))
    ∙ ground (arith, w.known, w.fits)

read_command_whole :
    (code id n : ℕ) (xs rest : List ℕ)
    → id ≤ command_count
    → n ≤ max_command_data_size
    → length xs ≡ n
    → read_command code (record { id = id; length = 4 + n }) (xs ++ rest) ≡ decipher code id xs rest
unfolding read_command
read_command_whole code id n xs rest known fits e =
    let cut : 4 + n - 4 ≡ n = omega arith in
    ground (
      arith,
      length-append xs rest,
      ap (λ (t : ℕ). take t (xs ++ rest)) cut,
      ap (λ (t : ℕ). drop t (xs ++ rest)) cut,
      take_exact n xs rest e,
      drop_exact n xs rest e,
    )

read_command-frame :
    (code : ℕ) (m : Message) (rest : List ℕ)
    → IsFramed code m
    → read_command code (magic_of m) (xor_algorithm (roll_code code) 0 (body m) ++ rest)
      ≡ command m.command (next_code code m.command.payload) rest
unfolding magic_of
read_command-frame code m rest w =
    read_command_whole code m.command.id (length (body m))
      (xor_algorithm (roll_code code) 0 (body m)) rest w.known w.fits
      (length-xor_algorithm (roll_code code) 0 (body m))
    ∙ decipher-frame code m.command.id m.command.payload m.padding rest w.padded

-- A framed message at the front of the unread bytes is read as the command that it holds, with the
-- code that its sender has next, and nothing behind it is touched.
pub read_round-frame :
    (code : ℕ) (m : Message) (rest : List ℕ)
    → IsFramed code m
    → read_round code (frame code m ++ rest)
      ≡ command m.command (next_code code m.command.payload) rest
unfolding read_round frame magic_of
read_round-frame code m rest w =
    let magic : List ℕ = to_bytes 4 (encode_message_magic (magic_of m)) in
    let behind : List ℕ = xor_algorithm (roll_code code) 0 (body m) in
    ground (
      arith,
      append_assoc magic behind rest,
      length-to_bytes 4 (encode_message_magic (magic_of m)),
      length-append magic (behind ++ rest),
      take_exact 4 magic (behind ++ rest),
      drop_exact 4 magic (behind ++ rest),
      decode-frame code m w,
      read_command-frame code m rest w,
    )

-- The code that a client and the server have once a command has been sent, received and handled.
abbrev pub code_after : {H : Type 0} → Handle H → ℕ → H → Message → ℕ
code_after handle code h m = settle (next_code code m.command.payload) (handle m.command h).0

abbrev pub state_after : {H : Type 0} → Handle H → H → Message → H
state_after handle h m = (handle m.command h).1

-- the messages of a connection, each framed with the code that is left once the one before is handled
pub frames : {H : Type 0} → Handle H → ℕ → H → List Message → List ℕ
frames handle code h [] = []
frames handle code h (m ∷ ms) =
    frame code m ++ frames handle (code_after handle code h m) (state_after handle h m) ms

abbrev pub AreFramed : {H : Type 0} → Handle H → ℕ → H → List Message → Type 0
AreFramed handle code h [] = Unit {0}
AreFramed handle code h (m ∷ ms) =
    IsFramed code m × AreFramed handle (code_after handle code h m) (state_after handle h m) ms

abbrev pub final_code : {H : Type 0} → Handle H → ℕ → H → List Message → ℕ
final_code handle code h [] = code
final_code handle code h (m ∷ ms) =
    final_code handle (code_after handle code h m) (state_after handle h m) ms

abbrev pub final_state : {H : Type 0} → Handle H → H → List Message → H
final_state handle h [] = h
final_state handle h (m ∷ ms) = final_state handle (state_after handle h m) ms

rounds-frames :
    {H : Type 0} (handle : Handle H) (f code : ℕ) (h : H) (ms : List Message)
    → AreFramed handle code h ms
    → length (frames handle code h ms) < f
    → rounds handle f code h (frames handle code h ms)
      ≡ some (record {
        commands = map (λ (m : Message). m.command) ms;
        code = final_code handle code h ms;
        handlers = final_state handle h ms;
        outcome = returned [];
      })
unfolding frames
rounds-frames {H = H} handle zero code h ms w small = elim small [ ]
rounds-frames {H = H} handle (suc f) code h [] w small =
    rounds_incomplete handle f code h [] (unfold read_round in refl)
rounds-frames {H = H} handle (suc f) code h (m ∷ ms) w small =
    let rolled : ℕ = next_code code m.command.payload in
    let k : ℕ = code_after handle code h m in
    let s : H = state_after handle h m in
    let rest : List ℕ = frames handle k s ms in
    let next : read_round code (frame code m ++ rest) ≡ command m.command rolled rest =
      read_round-frame code m rest w.0 in
    let shorter : length rest + 4 ≤ length (frame code m ++ rest) =
      read_round-length code (frame code m ++ rest) m.command rolled rest next in
    rounds_command handle f code h (frame code m ++ rest) m.command rolled rest next
    ∙ ap (after (m.command ∷ [])) (rounds-frames handle f k s ms w.1 (omega arith))

-- Whatever commands a client sends, each framed with the code that is left once the one before has been
-- handled, the rolled one or the one that the handler set, the server dispatches exactly these in
-- their order, ends with the client's code, and leaves no byte unread.
pub on_client_data-frames :
    {H : Type 0} (handle : Handle H) (code : ℕ) (h : H) (ms : List Message)
    → AreFramed handle code h ms
    → on_client_data handle code h (frames handle code h ms)
      ≡ some (record {
        commands = map (λ (m : Message). m.command) ms;
        code = final_code handle code h ms;
        handlers = final_state handle h ms;
        outcome = returned [];
      })
unfolding on_client_data
on_client_data-frames handle code h ms w =
    rounds-frames handle (suc (length (frames handle code h ms))) code h ms w (omega arith)
