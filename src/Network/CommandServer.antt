-- ===== src/Network/CommandServer.antt =====
-- CommandServer and CommandClient of src/libserver/network/command/CommandServer.cpp: the rolling
-- XOR code, and the loop of OnClientData that cuts the received bytes into commands.
--
-- The command stream is the list of its unread bytes, so its cursor is what has gone from the
-- front. The registered handlers are a parameter: what they do with a command, on a state of theirs,
-- and the code that they set for the client by SetCode while they run, if they set one. An exception
-- of a handler is caught and logged by the loop. An exception of the loop itself leaves no cursor.
pub mod Code
pub mod Chunks
pub mod Receive
use Prim.Native.Nat.{bit_and, bit_xor}
use alicia_server.Common.{
  ℕ, zero, suc, ◌+◌, ◌-◌, ◌*◌, ◌/◌, ◌%◌, ◌^◌, List, [], ◌∷◌, Bool, Option, none, some, ltb, leb,
  if◌then◌else◌, length, take, drop, ◌==◌, ◌||◌,
}
use alicia_server.Common.Outcome.{Outcome, Exception, returned, threw, runtime_error}
use alicia_server.Util.Stream.Bytes.{to_bytes, of_bytes}
use alicia_server.Network.MessageMagic.{MessageMagic, decode_message_magic}

abbrev pub max_command_data_size : ℕ
max_command_data_size = 8192

-- MaxCommandDataSize + sizeof(protocol::MessageMagic)
abbrev pub max_command_size : ℕ
max_command_size = max_command_data_size + 4

-- protocol::Command::Count
abbrev pub command_count : ℕ
command_count = 0x10a4

abbrev pub xor_control : ℕ
xor_control = 0xa20191cb

abbrev pub xor_multiplier : ℕ
xor_multiplier = 0x20080825

-- CommandClient::RollCode, on the 32 bits of the code
unfoldable pub roll_code : ℕ → ℕ
roll_code code = (xor_control + 2 ^ 32 - code * xor_multiplier % 2 ^ 32) % 2 ^ 32

-- XorAlgorithm from index `idx` on; `key` is the array of the code's four bytes
unfoldable pub xor_algorithm : ℕ → ℕ → List ℕ → List ℕ
xor_algorithm code idx [] = []
xor_algorithm code idx (v ∷ source) =
    bit_xor v (code / 256 ^ (idx % 4) % 256) ∷ xor_algorithm code (suc idx) source

-- A command that was handed to its handler: the id and the bytes of its data.
pub record Command : Type 0 where
  pub id : ℕ
  pub payload : List ℕ

-- What one round of the loop `while (cursor != size)` does with the unread bytes.
pub data Round : Type 0 where
  -- break, or the end of the bytes: more bytes are needed, nothing was read
  incomplete : Round
  -- an exception left the loop; the client's code is then as given
  failed : Exception → ℕ → Round
  -- a command was read: the client's code after it, and the bytes that are still unread
  command : Command → ℕ → List ℕ → Round

-- the part that starts with `if (commandDataSize > 0)`: `buffer` is the command's data
unfoldable pub decipher : ℕ → ℕ → List ℕ → List ℕ → Round
decipher code id [] rest = command (record { id = id; payload = [] }) code rest
decipher code id (b ∷ buffer) rest =
    let rolled : ℕ = roll_code code in
    let padding : ℕ = bit_and rolled 7 in
    if leb (suc (length buffer)) padding
    then failed runtime_error rolled
    else command
        (record {
          id = id;
          payload = take (suc (length buffer) - padding) (xor_algorithm rolled 0 (b ∷ buffer));
        })
        rolled rest

-- the round after the magic has been read; `available` are the bytes behind it
unfoldable pub read_command : ℕ → MessageMagic → List ℕ → Round
read_command code magic available =
    if ltb command_count magic.id
    then failed runtime_error code
    else if ltb magic.length 4 || ltb max_command_size magic.length
    then failed runtime_error code
    else if ltb (length available) (magic.length - 4)
    then incomplete
    else decipher code magic.id (take (magic.length - 4) available)
        (drop (magic.length - 4) available)

unfoldable pub read_round : ℕ → List ℕ → Round
read_round code unread =
    if ltb (length unread) 4
    then incomplete
    else read_command code (decode_message_magic (of_bytes (take 4 unread))) (drop 4 unread)

-- What OnClientData leaves: the commands dispatched so far, the client's code, the state of the
-- handlers, and the bytes behind the cursor that is returned, or the exception that left the loop.
pub record Received (H : Type 0) : Type 0 where
  pub commands : List Command
  pub code : ℕ
  pub handlers : H
  pub outcome : Outcome (List ℕ)

abbrev dispatch : {H : Type 0} → Command → Received H → Received H
dispatch c r = record r { commands = c ∷ r.commands }

-- The client's code once a handler has run: CommandServer::SetCode replaces the rolled one.
abbrev pub settle : (rolled : ℕ) → Option ℕ → ℕ
settle rolled none = rolled
settle rolled (some code) = code

-- What a handler does with a command: the code that it sets, if any, and its state.
abbrev pub Handle : Type 0 → Type 0
Handle H = Command → H → Option ℕ × H

-- The loop, on fuel: a command takes at least the four bytes of its magic, so the number of bytes
-- is fuel enough. `none` means that the fuel ran out.
unfoldable pub rounds : {H : Type 0} → Handle H → ℕ → ℕ → H → List ℕ → Option (Received H)
rounds handle zero code h unread = none
rounds handle (suc fuel) code h unread = elim (read_round code unread) [
  | incomplete ↦
      some (record { commands = []; code = code; handlers = h; outcome = returned unread })
  | failed e rolled ↦
      some (record { commands = []; code = rolled; handlers = h; outcome = threw e })
  | command c rolled rest ↦
      let handled = handle c h in
      elim (rounds handle fuel (settle rolled handled.0) handled.1 rest) [
        | none ↦ none
        | some r ↦ some (dispatch c r)
      ]
]

-- CommandServer::NetworkEventHandler::OnClientData
unfoldable pub on_client_data : {H : Type 0} → Handle H → ℕ → H → List ℕ → Option (Received H)
on_client_data handle code h buffered = rounds handle (suc (length buffered)) code h buffered
