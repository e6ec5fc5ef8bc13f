-- ===== src/Tests/ClientRuns.antt =====
-- A run of the client.
use wire_send.Common.{ℕ, ◌≤◌, ◌≡◌, ◌↔◌, refl, List, [], ◌∷◌, Bool, true, false, ℤ, pos, codes}
use wire_send.Common.Outcome.{ok}
use wire_send.Wire.{serialize_packet}
use wire_send.Wire.Memory.{little}
use wire_send.Net.Sockets.{Sockets, bound}
use wire_send.Threads.Tracing.{SomeStep}
use wire_send.Negotiation.Runs.{offers_made, acceptances_met, files_sent}
use wire_send.Process.{Process}
use wire_send.Threads.{
  Threads, Program, Reach, start, later, reads, handles, enters, lines, joins, at_while, finished,
  holding, ended, after_handle,
}
use wire_send.Client
use wire_send.Client.Setup.{start_client}
use wire_send.Client.Program.{client_program, finish_client}
use wire_send.Client.Run.{EndLine, ClientRun-ended}
use wire_send.Client.Invariant.{IsConsistent, client_threads-IsConsistent}
use wire_send.Client.Talk.{client_talk}
use wire_send.Client.Refinement.{client_threads-Moves}
use wire_send.Exchange.Offer.{offer_packet, metadata_of}
use wire_send.Tests.Pipe.{Pipe, pipe}
use wire_send.Tests.World.{sockets, interfaces, process, file_bytes, result}

-- A peer offers a file.
abbrev offered : Process Pipe
offered =
    process
      (serialize_packet little (offer_packet little (metadata_of (codes "/a.txt") file_bytes))).0

abbrev calls : Sockets pipe
calls = sockets interfaces bound (pos 4) true

abbrev ip : List ℕ
ip = codes "10.0.0.1"

abbrev P : Program (Client.Client Pipe)
P = client_program pipe little

abbrev begun : Client.Client Pipe
begun = start_client pipe calls ip 5000 offered

-- The packet is read, and then handled.
abbrev after_read : Threads (Client.Client Pipe)
after_read = record { state = (P.read begun).1; input = at_while; recv = holding (P.read begun).0 }

abbrev handled : Bool × Client.Client Pipe
handled = result (false, begun) (P.handle (P.read begun).0 (P.read begun).1)

abbrev after_packet : Threads (Client.Client Pipe)
after_packet = record after_read { state = handled.1; recv = after_handle handled.0 }

is_up : P.connected begun ≡ true
unfolding client_program start_client
is_up = refl

handles_it : P.handle (P.read begun).0 (P.read begun).1 ≡ ok (handled.0, handled.1)
unfolding client_program wire_send.Net.Frame.read_frame wire_send.Net.receive_packet start_client
    wire_send.Net.Sockets.create_socket_fd serialize_packet
    wire_send.Wire.serialize_file_metadata_packet wire_send.Files.Paths.filename
    wire_send.Wire.deserialize_header_packet wire_send.Wire.deserialize_body_packet
    Client.handle_packet wire_send.Wire.combine_packet
    wire_send.Wire.deserialize_file_metadata_packet
handles_it = refl

reaches : Reach P begun after_packet
reaches = later (later start (reads refl is_up refl)) (handles _ _ _ refl handles_it refl)

client_threads-IsConsistent_example : IsConsistent after_packet.state
client_threads-IsConsistent_example =
    client_threads-IsConsistent pipe calls little ip 5000 offered after_packet refl reaches

client_threads-Moves_example :
    (files_sent P client_talk begun after_packet reaches
      ≤ acceptances_met P client_talk begun after_packet reaches)
    × (acceptances_met P client_talk begun after_packet reaches
        ≤ offers_made P client_talk begun after_packet reaches)
client_threads-Moves_example =
    client_threads-Moves pipe calls little ip 5000 offered after_packet refl reaches

-- The user ends the connection, and the peer closes it.
abbrev leaving : Process Pipe
leaving = record (process []) { input = codes "/~end~/" ∷ [] }

abbrev up : Client.Client Pipe
up = start_client pipe calls ip 5000 leaving

abbrev at_join : Client.Client Pipe
at_join = (result (joins, up) (P.line 0 up)).1

abbrev dropped : Bool × Client.Client Pipe
dropped = result (true, up) (P.handle (P.read at_join).0 (P.read at_join).1)

abbrev both_ended : Threads (Client.Client Pipe)
both_ended = record { state = dropped.1; input = finished true; recv = ended }

runs_on : P.running up ≡ true
unfolding client_program start_client wire_send.Net.Sockets.create_socket_fd
runs_on = refl

takes_it : P.line 0 up ≡ ok (joins, at_join)
unfolding client_program start_client wire_send.Net.Sockets.create_socket_fd
    wire_send.Common.text_eq
takes_it = refl

still_up : P.connected at_join ≡ true
unfolding client_program start_client wire_send.Net.Sockets.create_socket_fd
    wire_send.Common.text_eq
still_up = refl

hears_end : P.handle (P.read at_join).0 (P.read at_join).1 ≡ ok (false, dropped.1)
unfolding client_program wire_send.Net.Frame.read_frame wire_send.Net.receive_packet start_client
    wire_send.Net.Sockets.create_socket_fd wire_send.Common.text_eq
hears_end = refl

reaches_end : Reach P up both_ended
reaches_end =
    let line = later (later start (enters refl runs_on refl)) (lines 0 _ _ refl takes_it refl) in
    later (later line (reads refl still_up refl)) (handles _ _ _ refl hears_end refl)

abbrev returned : ℤ × Client.Client Pipe
returned = result (pos 1, up) (finish_client pipe little both_ended)

returns : finish_client pipe little both_ended ≡ ok (returned.0, returned.1)
unfolding finish_client
returns = refl

ClientRun-ended_example :
    (returned.0 ≡ pos 0)
    × (both_ended.recv ≡ ended)
    × SomeStep P up (EndLine pipe little) both_ended reaches_end
ClientRun-ended_example =
    ClientRun-ended pipe calls little ip 5000 leaving returned.0 returned.1 both_ended reaches_end
      returns
