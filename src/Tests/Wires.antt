-- ===== src/Tests/Wires.antt =====
-- Packets, buffers and files at concrete inputs.
use wire_send.Common.{
  ℕ, ◌≤◌, ◌≡◌, ◌≢◌, ◌↔◌, refl, List, [], ◌∷◌, ◌++◌, none, some, false, pos, codes, arith, take,
  drop, All, All-append,
}
use wire_send.Common.Outcome.{ok}
use wire_send.Common.Decimal.{to_decimal, of_digits, IsDigit}
use wire_send.Wire.{
  Packet, FileMetadata, value, message, file_neg, file_begin, file_chunk, no_arg, serialize_packet,
  serialize_file_metadata_packet, deserialize_file_metadata_packet,
}
use wire_send.Wire.Memory.{IsByte, ByteOrder, little, big, loaded}
use wire_send.Wire.Metadata.{
  IsComplete, announced, opposite, deserialize-serialize_metadata, deserialize_metadata_opposite,
}
use wire_send.Net.{complete, receive_packet}
use wire_send.Wire.Bytes.{IsPacket, serialize_packet-IsByte}
use wire_send.Net.Typing.{read_frame-IsPacket}
use wire_send.Net.Frame.{arrived, read_frame, read_frame-serialize_packet}
use wire_send.Transfer.{packet_of}
use wire_send.Commands.{
  parse_commands, begins_with_slash, stop, accept, reject, file_prompt, not_a_command, cmd_stop,
  cmd_accept, cmd_fileprompt, cmd_reject, parse_commands_table,
}
use wire_send.Launch.{main, connect_to, parse_port}
use wire_send.Launch.Ports.{parse_port_iff, main_connect}
use wire_send.Tests.Pipe.{Pipe, pipe, stream, healthy}
use wire_send.Tests.World.{metadata}

abbrev seven : List ℕ
seven = 1 ∷ 2 ∷ 3 ∷ 4 ∷ 5 ∷ 6 ∷ 7 ∷ []

abbrev holding : List ℕ → Pipe
holding bs = record { inbox = bs; outbox = [] }

abbrev hello : Packet
hello = packet_of (value message) (codes "hi") (value no_arg)

deserialize-serialize_metadata_example :
    deserialize_file_metadata_packet little (serialize_file_metadata_packet little metadata)
    ≡ some metadata
deserialize-serialize_metadata_example =
    deserialize-serialize_metadata little metadata (omega arith) (omega arith)

abbrev body : List ℕ
body = 3 ∷ 0 ∷ 0 ∷ 0 ∷ 0 ∷ 0 ∷ 0 ∷ 0 ∷ 2 ∷ 0 ∷ 0 ∷ 0 ∷ 104 ∷ 105 ∷ []

abbrev short_body : List ℕ
short_body = take 13 body

name_of_two : announced little short_body ≡ 2
unfolding wire_send.Wire.Memory.of_le_bytes
name_of_two = refl

not-IsComplete : ¬ IsComplete little short_body
not-IsComplete h = omega (arith, name_of_two)

deserialize_metadata_opposite_example :
    deserialize_file_metadata_packet
      (opposite little)
      (serialize_file_metadata_packet little metadata)
    ≡ none
deserialize_metadata_opposite_example =
    deserialize_metadata_opposite little metadata (omega arith) (omega arith)

five_read :
    receive_packet pipe (pos 4) 5 (holding seven)
    ≡ (complete (take 5 seven), holding (drop 5 seven))
unfolding receive_packet
five_read = refl

abbrev hello_inbox : Pipe
hello_inbox = holding ((serialize_packet big hello).0 ++ seven)

read_frame-serialize_packet_example :
    (s' : Pipe) × (read_frame pipe little (pos 4) hello_inbox
      ≡ (arrived (record hello { pl_len = 2 }), s'))
    × (s'.inbox ≡ seven)
    × (s'.outbox ≡ [])
read_frame-serialize_packet_example =
    read_frame-serialize_packet pipe little (pos 4) (stream (pos 4)) (healthy (pos 4)) big hello
      seven hello_inbox (omega arith) refl

seven-IsByte : All IsByte seven
seven-IsByte = (
  omega arith,
  (omega arith, (omega arith, (omega arith, (omega arith, (omega arith, (omega arith, tt)))))),
)

hello-IsPacket : IsPacket hello
hello-IsPacket = record {
  kind = omega arith;
  len = omega arith;
  body = (omega arith, (omega arith, tt));
  ctl = omega arith;
}

read_hello :
    read_frame pipe little (pos 4) hello_inbox
    ≡ (arrived (record hello { pl_len = 2 }), holding seven)
unfolding read_frame receive_packet serialize_packet wire_send.Wire.deserialize_header_packet
    wire_send.Wire.deserialize_body_packet wire_send.Wire.combine_packet
read_hello = refl

read_frame-IsPacket_example : IsPacket (record hello { pl_len = 2 }) × All IsByte seven
read_frame-IsPacket_example =
    read_frame-IsPacket pipe little (pos 4) (stream (pos 4)) hello_inbox (holding seven)
      (record hello { pl_len = 2 })
      (All-append IsByte (serialize_packet big hello).0 seven
        (serialize_packet-IsByte big hello hello-IsPacket) seven-IsByte)
      read_hello

parse_commands_table_example :
    ((parse_commands (codes "/exit") ≡ stop) ↔ (codes "/exit" ≡ cmd_stop))
    × ((parse_commands (codes "/exit") ≡ accept) ↔ (codes "/exit" ≡ cmd_accept))
    × ((parse_commands (codes "/exit") ≡ file_prompt) ↔ (codes "/exit" ≡ cmd_fileprompt))
    × ((parse_commands (codes "/exit") ≡ reject) ↔ (codes "/exit" ≡ cmd_reject))
    × ((parse_commands (codes "/exit") ≡ not_a_command)
        ↔ (begins_with_slash (codes "/exit") ≡ false))
parse_commands_table_example = parse_commands_table (codes "/exit")

parse_port_iff_example : (parse_port (codes "8080") ≡ some 8080) ↔ (
    (codes "8080" ≢ [])
    × All IsDigit (codes "8080")
    × (of_digits 0 (codes "8080") ≡ 8080)
    × (1024 ≤ 8080)
    × (8080 ≤ 65535))
parse_port_iff_example = parse_port_iff (codes "8080") 8080

main_connect_example :
    (main (codes "wires" ∷ codes "client" ∷ codes "10.0.0.1" ∷ to_decimal 70000 ∷ [])).1
    ≡ ok (connect_to (codes "10.0.0.1") 4464)
main_connect_example = main_connect (codes "wires") (codes "10.0.0.1") 70000 (omega arith)
