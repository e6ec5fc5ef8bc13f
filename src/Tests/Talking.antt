-- ===== src/Tests/Talking.antt =====
-- A run of both programs: the client's user accepts a file with `/a`, and the server sends it.
use wire_send.Common.{
  ℕ, ◌^◌, ◌≤◌, ◌<◌, ◌≡◌, refl, sym, ap, List, [], ◌∷◌, ◌++◌, some, Bool, true, false, ℤ, pos, codes,
  arith, length,
}
use wire_send.Common.Outcome.{ok}
use wire_send.Wire.{serialize_packet, value, message, no_arg}
use wire_send.Wire.Memory.{little, big}
use wire_send.Negotiation.Runs.{files_sent}
use wire_send.Process.{Process, say, peer_accepted}
use wire_send.Transfer.{packet_of}
use wire_send.Exchange.Acceptance.{accept_packet}
use wire_send.Threads.{
  Threads, Program, Reach, start, later, reads, handles, enters, lines, files, sends, say_it,
  at_while, at_send, reading, after_send, again,
}
use wire_send.Traffic.ServerScreen.{shown}
use wire_send.Traffic.Screen.{texts}
use wire_send.Traffic.Peer.{accepts_given, lines_sent}
use wire_send.Traffic.Arriving.{packets_handled}
use wire_send.Traffic.ClientCalls.{client_accepts}
use wire_send.Traffic.ServerPeer.{connected_server}
use wire_send.Traffic.ClientPeer.{connected_client}
use wire_send.Traffic.Delivery.{IsDelivered}
use wire_send.Traffic.Consent.{server_shows, server_handles, server_files_sent}
use wire_send.Server
use wire_send.Server.Talk.{server_talk}
use wire_send.Client
use wire_send.Tests.Pipe.{Pipe, pipe, stream, reliable}
use wire_send.Tests.World.{process, server, client, result}

abbrev P : Program (Client.Client Pipe)
P = connected_client pipe (pos 3) (stream (pos 3)) big

abbrev saving : Process Pipe
saving = record (process []) { dialogs = some (codes "/tmp/b.txt") ∷ []; input = codes "/a" ∷ [] }

abbrev asked : Client.Client Pipe
asked = record (client []) { proc = saving; file_send_in_progress = false }

abbrev accepted : Client.Client Pipe
accepted = (result (again, asked) (P.line 0 asked)).1

abbrev told : Bool × Client.Client Pipe
told = P.send_line (codes "/a") (P.send_file accepted)

abbrev client_end : Threads (Client.Client Pipe)
client_end = record { state = told.1; input = at_while; recv = reading }

takes_it : P.line 0 asked ≡ ok (say_it (codes "/a"), accepted)
unfolding wire_send.Client.Program.client_program wire_send.Common.text_eq
    wire_send.Client.Input.command wire_send.Commands.parse_commands wire_send.Commands.find_byte
takes_it = refl

goes_out : told.0 ≡ true
unfolding wire_send.Client.Program.client_program wire_send.Client.Input.send_line
    wire_send.Transfer.transmit wire_send.Net.send_packet serialize_packet
goes_out = refl

is_up : P.running asked ≡ true
unfolding wire_send.Client.Program.client_program
is_up = refl

client_run : Reach P asked client_end
client_run =
    let taken = later (later start (enters refl is_up refl)) (lines 0 _ _ refl takes_it refl) in
    later (later taken (files (codes "/a") refl refl)) (
      sends (codes "/a") refl (
        ap (λ go. record { state = told.1; input = after_send go; recv = reading }) (sym goes_out)))

-- What it wrote: the acceptance, and the line.
abbrev line_bytes : List ℕ
line_bytes = (serialize_packet big (packet_of (value message) (codes "/a") (value no_arg))).0

abbrev sent_bytes : List ℕ
sent_bytes = (serialize_packet big accept_packet).0 ++ line_bytes

wrote : told.1.proc.sys.outbox ≡ [] ++ sent_bytes
unfolding serialize_packet wire_send.Client.Program.client_program wire_send.Client.Input.send_line
    wire_send.Transfer.transmit wire_send.Net.send_packet wire_send.Client.Input.send_pending
    wire_send.Common.text_eq wire_send.Client.Input.command wire_send.Commands.parse_commands
    wire_send.Commands.find_byte wire_send.Transfer.answer_sender
wrote = refl

abbrev Q : Program (Server.Server Pipe)
Q = connected_server pipe (pos 4) (stream (pos 4)) little

-- That is to come, and a line is typed.
abbrev waiting : List ℕ → Process Pipe
waiting bytes = record (process bytes) { input = codes "hello" ∷ [] }

abbrev offering : Server.Server Pipe
offering = record (server []) {
  proc = record (waiting sent_bytes) { active_file_neg_req = true };
  file_send_in_progress = false;
}

abbrev after_read : Server.Server Pipe
after_read = (Q.read offering).1

abbrev handled : Server.Server Pipe
handled = record (server []) { proc = say peer_accepted (waiting line_bytes) }

abbrev typed : Server.Server Pipe
typed = record (server []) { proc = say peer_accepted (process line_bytes) }

abbrev server_end : Threads (Server.Server Pipe)
server_end = record { state = Q.send_file typed; input = at_send (codes "hello"); recv = reading }

is_connected : Q.connected offering ≡ true
unfolding wire_send.Server.Program.server_program
is_connected = refl

handles_it : Q.handle (Q.read offering).0 after_read ≡ ok (true, handled)
unfolding wire_send.Server.Program.server_program wire_send.Net.Frame.read_frame
    wire_send.Net.receive_packet serialize_packet wire_send.Wire.deserialize_header_packet
    wire_send.Wire.deserialize_body_packet Server.handle_packet wire_send.Wire.combine_packet
handles_it = refl

is_running : Q.running handled ≡ true
unfolding wire_send.Server.Program.server_program
is_running = refl

takes_line : Q.line 0 handled ≡ ok (say_it (codes "hello"), typed)
unfolding wire_send.Server.Program.server_program wire_send.Server.Input.command
    wire_send.Commands.parse_commands wire_send.Commands.find_byte
takes_line = refl

server_run : Reach Q offering server_end
server_run =
    let heard =
      later (later start (reads refl is_connected refl)) (handles _ _ _ refl handles_it refl) in
    let taken =
      later (later heard (enters refl is_running refl)) (lines 0 _ _ refl takes_line refl) in
    later taken (files (codes "hello") refl refl)

few : length sent_bytes < 2 ^ 32
unfolding serialize_packet
few = omega arith

-- The run has both: an acceptance, and a file that is sent.
accepts_one : accepts_given P client_accepts client_end client_run ≡ 1
unfolding accepts_given client_run wire_send.Commands.parse_commands wire_send.Commands.find_byte
    wire_send.Common.text_eq
accepts_one = refl

says_one : lines_sent P client_end client_run ≡ codes "/a" ∷ []
unfolding lines_sent client_run wire_send.Client.Program.client_program
    wire_send.Client.Input.send_line wire_send.Transfer.transmit wire_send.Net.send_packet
    serialize_packet
says_one = refl

sends_one : files_sent Q server_talk offering server_end server_run ≡ 1
unfolding files_sent server_run wire_send.Server.Program.server_program
    wire_send.Server.Input.send_pending
sends_one = refl

server_handles_example :
    IsDelivered big [] told.1.proc.sys.outbox
      (packets_handled Q server_end server_run)
      reading
      server_end.state.proc.sys.inbox
server_handles_example =
    server_handles pipe (pos 4) (stream (pos 4)) (reliable (pos 4)) little pipe (pos 3)
      (stream (pos 3)) (reliable (pos 3)) big offering server_end server_run asked client_end
      client_run refl refl wrote few

server_files_sent_example :
    files_sent Q server_talk offering server_end server_run
    ≤ accepts_given P client_accepts client_end client_run
server_files_sent_example =
    server_files_sent pipe (pos 4) (stream (pos 4)) (reliable (pos 4)) little pipe (pos 3)
      (stream (pos 3)) (reliable (pos 3)) big offering server_end server_run asked client_end
      client_run refl refl refl wrote few

server_shows_example :
    (got : List (List ℕ)) × (rest : List (List ℕ)) × (lines_sent P client_end client_run
      ≡ got ++ rest)
    × (shown server_end.state ≡ shown offering ++ texts got)
server_shows_example =
    server_shows pipe (pos 4) (stream (pos 4)) (reliable (pos 4)) little pipe (pos 3)
      (stream (pos 3)) (reliable (pos 3)) big offering server_end server_run asked client_end
      client_run refl refl wrote few
