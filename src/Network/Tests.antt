-- ===== src/Network/Tests.antt =====
-- The network layer at concrete inputs.
use alicia_server.Common.{
  ◌≡◌, refl, arith, [], ◌∷◌, some, none, ℕ, Option, ◌+◌, ◌==◌, if◌then◌else◌,
}
use alicia_server.Common.Outcome.{returned}
use alicia_server.Network.MessageMagic.{decode_message_magic, encode_message_magic}
use alicia_server.Network.MessageMagic.RoundTrip.{decode-encode}
use alicia_server.Network.CommandServer.{
  Command, on_client_data, roll_code, Received, rounds, read_round,
}
use alicia_server.Network.CommandServer.Chunks.{on_client_data-append, on_client_data_total, after}
use alicia_server.Network.CommandServer.Receive.{Message, IsFramed, frames, on_client_data-frames}

decode-encode_example :
    decode_message_magic (encode_message_magic (record { id = 7; length = 29 }))
    ≡ record { id = 7; length = 29 }
decode-encode_example = decode-encode (record { id = 7; length = 29 }) (omega arith) (omega arith)

-- A heartbeat, and a command of one byte behind which a code of 0 leaves three bytes of padding.
abbrev heartbeat : Message
heartbeat = record { command = record { id = 9; payload = [] }; padding = [] }

abbrev greeting : Message
greeting = record { command = record { id = 7; payload = 65 ∷ [] }; padding = 1 ∷ 2 ∷ 3 ∷ [] }

heartbeat-IsFramed : IsFramed 0 heartbeat
heartbeat-IsFramed = record { known = omega arith; fits = omega arith; padded = refl }

greeting-IsFramed : IsFramed 0 greeting
unfolding roll_code
greeting-IsFramed = record { known = omega arith; fits = omega arith; padded = refl }

-- Handlers that count the commands, and reset the code on a greeting.
abbrev reset_on_greeting : Command → ℕ → Option ℕ × ℕ
reset_on_greeting c handled = (if c.id == 7 then some 0 else none, handled + 1)

on_client_data-frames_example :
    on_client_data reset_on_greeting 0 5
      (frames reset_on_greeting 0 5 (heartbeat ∷ greeting ∷ greeting ∷ []))
    ≡ some (record {
      commands = heartbeat.command ∷ greeting.command ∷ greeting.command ∷ [];
      code = 0;
      handlers = 8;
      outcome = returned [];
    })
on_client_data-frames_example =
    on_client_data-frames reset_on_greeting 0 5 (heartbeat ∷ greeting ∷ greeting ∷ [])
      (heartbeat-IsFramed, (greeting-IsFramed, (greeting-IsFramed, tt)))

on_client_data_total_example :
    (r : Received ℕ) × (on_client_data reset_on_greeting 0 5 (1 ∷ []) ≡ some r)
on_client_data_total_example = on_client_data_total reset_on_greeting 0 5 (1 ∷ [])

-- One byte of a magic arrives, and then the others.
abbrev one_byte : Received ℕ
one_byte = record { commands = []; code = 0; handlers = 5; outcome = returned (1 ∷ []) }

one_byte_lem : on_client_data reset_on_greeting 0 5 (1 ∷ []) ≡ some one_byte
unfolding on_client_data rounds read_round
one_byte_lem = refl

on_client_data-append_example :
    on_client_data reset_on_greeting 0 5 (1 ∷ 205 ∷ 6 ∷ 205 ∷ [])
    ≡ after [] (on_client_data reset_on_greeting 0 5 (1 ∷ 205 ∷ 6 ∷ 205 ∷ []))
on_client_data-append_example =
    on_client_data-append reset_on_greeting 0 5 (1 ∷ []) (205 ∷ 6 ∷ 205 ∷ []) (1 ∷ []) one_byte
      one_byte_lem refl
