-- ===== src/Tests/Sessions.antt =====
-- Packets that the two programs take, lines that they exchange, and files that they save.
use wire_send.Common.{
  ℕ, ◌+◌, ◌^◌, ◌≤◌, ◌<◌, ◌≡◌, ◌≢◌, refl, List, [], ◌∷◌, ◌++◌, Option, none, some, Bool, true, false,
  ℤ, pos, codes, arith, ◌==◌, if◌then◌else◌,
}
use wire_send.Common.Outcome.{ok, undefined}
use wire_send.Wire.{
  Packet, value, message, message_broadcast, file_neg, file_begin, file_chunk, file_accept, no_arg,
  end_connection, serialize_packet,
}
use wire_send.Wire.Memory.{ByteOrder, little, big}
use wire_send.Wire.Metadata.{IsComplete}
use wire_send.Files.{exists, put}
use wire_send.Files.{exists_at}
use wire_send.Transfer.{numbered}
use wire_send.Common.Outcome.{terminated}
use wire_send.Common.{◌⊎◌, some, none, true, false}
use wire_send.Process.{
  PendingIncomingFileRequest, Process, Notice, say, c_str, go_on, new_file_created, no_space,
}
use wire_send.Transfer.{packet_of, free_name, can_receive_files, recv_file, marker, chunk_packet}
use wire_send.Transfer.Naming.{asked, Stops, free_name_total, can_receive_files_rename}
use wire_send.Transfer.Receiving.{IsWriting, recv_file_no_space}
use wire_send.Server
use wire_send.Server.Protocol.{handle_packet-malformed}
use wire_send.Client
use wire_send.Exchange.Chat.{server_to_client_line, client_to_server_line, broadcast_ends}
use wire_send.Tests.Pipe.{Pipe, pipe, stream, healthy}
use wire_send.Tests.World.{disk, file_bytes, incoming_at, process, server, client}

abbrev accepted : Packet
accepted = packet_of (value file_neg) [] (value file_accept)

abbrev asking_server : Server.Server Pipe
asking_server = record (Server.set_neg true (server [])) { file_send_in_progress = false }

abbrev asking_client : Client.Client Pipe
asking_client = record (Client.set_neg true (client [])) { file_send_in_progress = false }

abbrev sending_server : Server.Server Pipe
sending_server =
    Server.notify Notice.peer_accepted
      (record (Server.set_neg false asking_server) { file_send_in_progress = true })

abbrev sending_client : Client.Client Pipe
sending_client =
    Client.notify Notice.peer_accepted
      (record (Client.set_neg false asking_client) { file_send_in_progress = true })

server_handled : Server.handle_packet little accepted asking_server ≡ ok sending_server
unfolding Server.handle_packet
server_handled = refl

client_handled : Client.handle_packet pipe little accepted asking_client ≡ ok sending_client
unfolding Client.handle_packet
client_handled = refl

abbrev idle_server : Server.Server Pipe
idle_server = Server.set_active false (server [])

abbrev malformed : Packet
malformed = packet_of (value file_neg) (codes "short") (value no_arg)

not-IsComplete : ¬ IsComplete little malformed.pl_body
not-IsComplete h = omega arith

handle_packet-malformed_example : Server.handle_packet little malformed (server []) ≡ undefined
handle_packet-malformed_example =
    handle_packet-malformed little malformed (server []) refl refl refl not-IsComplete

abbrev line : List ℕ
line = codes "hi"

abbrev line_on_wire : ByteOrder → List ℕ
line_on_wire e = (serialize_packet e (packet_of (value message) line (value no_arg))).0

server_said :
    (Server.Input.send_line pipe little line (server [])).1.proc.sys.outbox ≡ line_on_wire little
unfolding Server.Input.send_line serialize_packet wire_send.Transfer.transmit
    wire_send.Net.send_packet
server_said = refl

client_said :
    (Client.Input.send_line pipe big line (client [])).1.proc.sys.outbox ≡ line_on_wire big
unfolding Client.Input.send_line serialize_packet wire_send.Transfer.transmit
    wire_send.Net.send_packet
client_said = refl

server_to_client_line_example :
    ((Server.Input.send_line pipe little line (server [])).0 ≡ go_on)
    × (s : Pipe) × (Client.recv_thread pipe big 1 (client (line_on_wire little ++ file_bytes))
        ≡ ok (
          go_on,
          record (client (line_on_wire little ++ file_bytes)) {
            proc =
                say
                  (Notice.peer_says (c_str line))
                  (record (process (line_on_wire little ++ file_bytes)) { sys = s });
          },
        ))
    × (s.inbox ≡ file_bytes)
server_to_client_line_example =
    server_to_client_line pipe little (pos 4) (stream (pos 4)) (healthy (pos 4)) pipe big (pos 3)
      (stream (pos 3)) (healthy (pos 3)) (server []) (client (line_on_wire little ++ file_bytes))
      line (line_on_wire little) file_bytes refl (omega arith) server_said
      (record { connection = refl; up = refl }) refl

client_to_server_line_example :
    ((Client.Input.send_line pipe big line (client [])).0 ≡ Client.Input.again)
    × (s : Pipe) × (Server.recv_thread pipe little 1 (server (line_on_wire big ++ file_bytes))
        ≡ ok (
          go_on,
          record (server (line_on_wire big ++ file_bytes)) {
            proc =
                say
                  (Notice.peer_says (c_str line))
                  (record (process (line_on_wire big ++ file_bytes)) { sys = s });
          },
        ))
    × (s.inbox ≡ file_bytes)
client_to_server_line_example =
    client_to_server_line pipe little (pos 4) (stream (pos 4)) (healthy (pos 4)) pipe big (pos 3)
      (stream (pos 3)) (healthy (pos 3)) (client []) (server (line_on_wire big ++ file_bytes)) line
      (line_on_wire big) file_bytes refl (omega arith) client_said refl refl refl

-- The control byte that ends a connection.
abbrev bad_news : List ℕ
bad_news =
    (serialize_packet little (packet_of (value message_broadcast) line (value end_connection))).0

server_announced :
    (Server.Input.broadcast_server_msg pipe little
      (value end_connection)
      line
      (server [])).proc.sys.outbox
    ≡ bad_news
unfolding Server.Input.broadcast_server_msg serialize_packet wire_send.Transfer.transmit
    wire_send.Net.send_packet
server_announced = refl

broadcast_ends_example :
    (w' : Client.Client Pipe) × (Client.recv_thread pipe big 1 (client bad_news) ≡ ok (go_on, w'))
    × (w'.client_connected ≡ false)
unfolding serialize_packet
broadcast_ends_example =
    broadcast_ends pipe little (pos 4) (stream (pos 4)) (healthy (pos 4)) pipe big (pos 3)
      (stream (pos 3)) (healthy (pos 3)) (server []) (client bad_news) line (value end_connection)
      bad_news [] refl (omega arith) server_announced (record { connection = refl; up = refl }) refl

free_name_total_example : Stops disk (codes "/home/a.txt") (free_name disk (codes "/home/a.txt"))
free_name_total_example = free_name_total disk (codes "/home/a.txt") (omega arith)

abbrev answering : List ℕ → Process Pipe
answering answer = record (process []) { input = answer ∷ [] }

taken : exists_at disk (codes "/home/a.txt") ≡ some true
unfolding exists_at wire_send.Common.text_eq
taken = refl

says_yes : wire_send.Transfer.user_action (answering (codes "Y")).input ≡ ok (true, [])
unfolding wire_send.Transfer.user_action
says_yes = refl

says_no : wire_send.Transfer.user_action (answering (codes "n")).input ≡ ok (false, [])
unfolding wire_send.Transfer.user_action
says_no = refl

abbrev home : PendingIncomingFileRequest
home = incoming_at (codes "/home/a.txt")

can_receive_files_rename_example :
    ((q : List ℕ) × (can_receive_files home home.metadata (answering (codes "n"))
        ≡ ok (
          true,
          record home { file_path_on_target = q },
          say new_file_created (asked home (answering (codes "n")) []),
        ))
      × (exists_at disk q ≡ some false))
    ⊎ ((can_receive_files home home.metadata (answering (codes "n")) ≡ terminated)
        × (q : List ℕ) × (exists_at disk q ≡ none)
        × ((q ≡ codes "/home/a.txt") ⊎ ((n : ℕ) × (q ≡ numbered (codes "/home/a.txt") n))))
can_receive_files_rename_example =
    can_receive_files_rename home (answering (codes "n")) 1000 [] refl (omega arith) taken says_no
      (omega arith)

abbrev full : Process Pipe
full = record (process []) { disk = record disk { free_space = λ folder. some 2 } }

writing : IsWriting (codes "/home/a.txt") file_bytes full.disk
unfolding wire_send.Files.find_entry wire_send.Common.text_eq
writing = record { there = refl; allowed = refl }

recv_file_no_space_example :
    (recv_file (marker (value file_begin)) (incoming_at (codes "/home/a.txt")) full
      ≡ ok (pos 0, incoming_at (codes "/home/a.txt"), say no_space full))
    × (recv_file (chunk_packet (9 ∷ [])) (incoming_at (codes "/home/a.txt")) (say no_space full)
        ≡ ok (
          pos 0,
          incoming_at (codes "/home/a.txt"),
          record (say no_space full) {
            disk = put full.disk (codes "/home/a.txt") (file_bytes ++ 9 ∷ []);
          },
        ))
unfolding wire_send.Wire.serialize_file_chunk
recv_file_no_space_example =
    recv_file_no_space (incoming_at (codes "/home/a.txt")) full (marker (value file_begin))
      (chunk_packet (9 ∷ [])) 2 file_bytes refl refl refl (omega arith) (omega arith) writing
