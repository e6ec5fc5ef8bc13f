-- ===== src/Tests/Transfers.antt =====
-- Whole transfers over two pipes, from a little-endian server to a big-endian client and back.
use wire_send.Common.{ℕ, List, [], ◌∷◌, ◌++◌, refl, ℤ, pos, codes, ◌≡◌, arith, false, All}
use wire_send.Common.Outcome.{ok}
use wire_send.Wire.{serialize_packet, value}
use wire_send.Wire.Memory.{ByteOrder, little, big}
use wire_send.Process.{go_on}
use wire_send.Transfer.{send_file, marker}
use wire_send.Transfer.Sending.{wire, file_packets, joined_pieces, IsPiece}
use wire_send.Transfer.Receiving.{IsFresh}
use wire_send.Server
use wire_send.Client
use wire_send.Exchange.{IsReady, server_to_client, client_to_server}
use wire_send.Exchange.Round.{line_packet, server_round_sends, client_round_sends}
use wire_send.Tests.Pipe.{Pipe, pipe, stream, healthy}
use wire_send.Tests.World.{disk, file_bytes, incoming, process, server, client}

abbrev on_wire : ByteOrder → List ℕ
on_wire e = wire e (file_packets (file_bytes ∷ []))

fresh : IsFresh incoming 1000 disk
unfolding wire_send.Files.exists wire_send.Common.text_eq wire_send.Files.exists_at
fresh = record { space = refl; fits = omega arith; free = refl; allowed = refl }

server-IsReady : (inbox : List ℕ) → IsReady file_bytes (server inbox).outgoing (server inbox).proc
unfolding wire_send.Files.find_entry wire_send.Common.text_eq
server-IsReady inbox = record { there = refl; allowed = refl }

client-IsReady : (inbox : List ℕ) → IsReady file_bytes (client inbox).outgoing (client inbox).proc
unfolding wire_send.Files.find_entry wire_send.Common.text_eq
client-IsReady inbox = record { there = refl; allowed = refl }

server_out : (Server.Input.send_pending pipe little (server [])).proc.sys.outbox ≡ on_wire little
unfolding Server.Input.send_pending serialize_packet send_file wire_send.Files.exists
    wire_send.Common.text_eq wire_send.Files.is_regular_file wire_send.Files.open_to_read
    wire_send.Transfer.transmit wire_send.Net.send_packet wire_send.Wire.serialize_file_chunk
server_out = refl

client_out : (Client.Input.send_pending pipe big (client [])).proc.sys.outbox ≡ on_wire big
unfolding Client.Input.send_pending serialize_packet send_file wire_send.Files.exists
    wire_send.Common.text_eq wire_send.Files.is_regular_file wire_send.Files.open_to_read
    wire_send.Transfer.transmit wire_send.Net.send_packet wire_send.Wire.serialize_file_chunk
client_out = refl

server_to_client_example :
    (rounds : ℕ) × Client.Receiving.Delivered pipe big
      (pos 3)
      (stream (pos 3))
      (healthy (pos 3))
      little
      (codes "/tmp/b.txt")
      file_bytes
      (7 ∷ [])
      (client (on_wire little ++ 7 ∷ []))
      (Client.recv_thread pipe big rounds (client (on_wire little ++ 7 ∷ [])))
server_to_client_example =
    server_to_client pipe little (pos 4) (stream (pos 4)) (healthy (pos 4)) pipe big (pos 3)
      (stream (pos 3)) (healthy (pos 3)) (server []) (client (on_wire little ++ 7 ∷ [])) file_bytes
      (on_wire little) (7 ∷ []) 1000 refl refl (server-IsReady []) server_out
      (record { connection = refl; up = refl }) fresh refl

client_to_server_example :
    (rounds : ℕ) × Server.Receiving.Delivered pipe little
      (pos 4)
      (stream (pos 4))
      (healthy (pos 4))
      big
      (codes "/tmp/b.txt")
      file_bytes
      (7 ∷ [])
      (server (on_wire big ++ 7 ∷ []))
      (Server.recv_thread pipe little rounds (server (on_wire big ++ 7 ∷ [])))
client_to_server_example =
    client_to_server pipe little (pos 4) (stream (pos 4)) (healthy (pos 4)) pipe big (pos 3)
      (stream (pos 3)) (healthy (pos 3)) (client []) (server (on_wire big ++ 7 ∷ [])) file_bytes
      (on_wire big) (7 ∷ []) 1000 refl refl (client-IsReady []) client_out
      (record { connection = refl; up = refl; active = refl }) fresh refl

abbrev typing_server : Server.Server Pipe
typing_server = record (server []) { proc = record (process []) { input = codes "hi" ∷ [] } }

abbrev typing_client : Client.Client Pipe
typing_client = record (client []) { proc = record (process []) { input = codes "hi" ∷ [] } }

server_round_sends_example :
    (cs : List (List ℕ)) × (v : Server.Server Pipe) × (Server.Input.input_round pipe little 0
        typing_server
      ≡ ok (go_on, v))
    × (v.file_send_in_progress ≡ false)
    × (v.proc.sys.outbox ≡ [] ++ wire little (file_packets cs) ++ line_packet little (codes "hi"))
    × (joined_pieces cs ≡ file_bytes)
    × All IsPiece cs
server_round_sends_example =
    server_round_sends pipe little (pos 4) (stream (pos 4)) (healthy (pos 4)) 0 typing_server
      file_bytes refl refl
      (record { there = (server-IsReady []).there; allowed = (server-IsReady []).allowed }) refl
      refl (omega arith)

client_round_sends_example :
    (cs : List (List ℕ)) × (v : Client.Client Pipe) × (Client.Input.input_round pipe big
        typing_client
      ≡ ok (Client.Input.again, v))
    × (v.file_send_in_progress ≡ false)
    × (v.proc.sys.outbox ≡ [] ++ wire big (file_packets cs) ++ line_packet big (codes "hi"))
    × (joined_pieces cs ≡ file_bytes)
    × All IsPiece cs
client_round_sends_example =
    client_round_sends pipe big (pos 3) (stream (pos 3)) (healthy (pos 3)) typing_client file_bytes
      refl refl refl refl
      (record { there = (client-IsReady []).there; allowed = (client-IsReady []).allowed }) refl
      refl (omega arith)
