-- ===== src/Tests/ServerRuns.antt =====
-- A run of the server, and one of `main`.
use wire_send.Common.{
  ℕ, ap, sym, ◌≤◌, ◌≡◌, ◌≢◌, ◌↔◌, refl, List, [], ◌∷◌, ◌++◌, Option, none, some, Bool, true, false,
  ℤ, pos, negsuc, codes,
}
use wire_send.Common.Outcome.{ok}
use wire_send.Wire.{serialize_packet}
use wire_send.Wire.Memory.{little}
use wire_send.Net.{Kernel, send_failed, done}
use wire_send.Net.Sockets.{Sockets, Binding, bound, access_denied}
use wire_send.Negotiation.Steps.{Follows}
use wire_send.Negotiation.Greeted.{opens, begins, ends, counted}
use wire_send.Threads.Greeting.{Run, Reach-Run, SomeStep}
use wire_send.Process.{Process, say, listening, client_now_connected, go_on, return_error}
use wire_send.Threads.{
  Threads, Program, Step, Reach, start, later, reads, handles, enters, lines, files, sends, say_it,
  at_while, finished, reading, holding, after_handle, after_send, again,
}
use wire_send.Server
use wire_send.Server.Setup.{start_server, greet}
use wire_send.Server.Starting.{start_server_refused}
use wire_send.Server.Program.{server_program, finish_server}
use wire_send.Server.Invariant.{IsConsistent, server_threads-IsConsistent}
use wire_send.Server.Talk.{server_talk}
use wire_send.Server.Refinement.{entered, server_step-Follows, server_threads-Moves}
use wire_send.Server.Run.{not_started, server_ends}
use wire_send.Launch.{main, serve}
use wire_send.Launch.Run.{launcher, MainRun, serves, MainRun-server, with_arguments}
use wire_send.Exchange.Offer.{offer_packet, metadata_of}
use wire_send.Tests.Pipe.{Pipe, pipe}
use wire_send.Tests.World.{sockets, sockets_of, interfaces, process, server, file_bytes, result}

-- A peer offers a file, and the user types a line.
abbrev offered : Process Pipe
offered =
    let offer = offer_packet little (metadata_of (codes "/a.txt") file_bytes) in
    record (process (serialize_packet little offer).0) { input = codes "hello" ∷ [] }

abbrev calls : Sockets pipe
calls = sockets interfaces bound (pos 4) true

abbrev connected_server : Server.Server Pipe
connected_server = record (server []) {
  proc = say client_now_connected (say listening offered);
  incoming = record {
    active = false;
    overwrite = false;
    file_path_on_target = [];
    metadata = record { file_size = 0; file_name = [] };
  };
  outgoing = record {
    active = false;
    file_path_on_src = [];
    metadata = record { file_size = 0; file_name = [] };
  };
  file_send_in_progress = false;
}

started : start_server pipe calls little 0 5000 offered ≡ ok (go_on, connected_server)
unfolding start_server wire_send.Info.print_server_info wire_send.Net.Sockets.create_socket_fd
started = refl

abbrev P : Program (Server.Server Pipe)
P = server_program pipe little

abbrev greeted : Server.Server Pipe
greeted = greet pipe calls little 0 connected_server

-- The packet is read, and then handled.
abbrev after_read : Threads (Server.Server Pipe)
after_read = record {
  state = (P.read greeted).1;
  input = at_while;
  recv = holding (P.read greeted).0;
}

abbrev handled : Bool × Server.Server Pipe
handled = result (false, greeted) (P.handle (P.read greeted).0 (P.read greeted).1)

abbrev after_packet : Threads (Server.Server Pipe)
after_packet = record after_read { state = handled.1; recv = after_handle handled.0 }

is_up : P.connected greeted ≡ true
unfolding server_program greet wire_send.Server.Input.broadcast_server_msg
is_up = refl

handles_it : P.handle (P.read greeted).0 (P.read greeted).1 ≡ ok (handled.0, handled.1)
unfolding server_program wire_send.Net.Frame.read_frame wire_send.Net.receive_packet greet
    wire_send.Server.Input.broadcast_server_msg wire_send.Transfer.transmit
    wire_send.Net.send_packet serialize_packet wire_send.Wire.serialize_file_metadata_packet
    wire_send.Files.Paths.filename wire_send.Wire.deserialize_header_packet
    wire_send.Wire.deserialize_body_packet Server.handle_packet wire_send.Wire.combine_packet
    wire_send.Wire.deserialize_file_metadata_packet
handles_it = refl

reaches : Reach P greeted after_packet
reaches = later (later start (reads refl is_up refl)) (handles _ _ _ refl handles_it refl)

-- The same run, behind the start and the greeting.
greeted_run : Run P (greet pipe calls little) connected_server true after_packet
greeted_run = Reach-Run P (greet pipe calls little) 0 connected_server after_packet reaches

server_threads-IsConsistent_example : IsConsistent after_packet.state
server_threads-IsConsistent_example =
    server_threads-IsConsistent pipe calls little 0 5000 offered connected_server true after_packet
      refl started greeted_run

handling : Step P after_read after_packet
handling = handles _ _ _ refl handles_it refl

server_step-Follows_example : Follows P server_talk false entered after_read after_packet handling
server_step-Follows_example = server_step-Follows pipe little after_read after_packet handling

server_threads-Moves_example :
    (counted P
        (greet pipe calls little)
        server_talk
        connected_server
        ends
        true
        after_packet
        greeted_run
      ≤ counted P
          (greet pipe calls little)
          server_talk
          connected_server
          begins
          true
          after_packet
          greeted_run)
    × (counted P
          (greet pipe calls little)
          server_talk
          connected_server
          begins
          true
          after_packet
          greeted_run
        ≤ counted P
            (greet pipe calls little)
            server_talk
            connected_server
            opens
            true
            after_packet
            greeted_run)
server_threads-Moves_example =
    server_threads-Moves pipe calls little 0 5000 offered connected_server true after_packet refl
      started greeted_run

-- A connection that takes nothing: a line is read, and its sending fails, so that the loop ends.
abbrev dead : Kernel
dead = record pipe { send = λ fd bs s. (send_failed, s) }

abbrev dead_calls : Sockets dead
dead_calls = sockets_of dead interfaces bound (pos 4) true

abbrev Q : Program (Server.Server Pipe)
Q = server_program dead little

abbrev lonely : Server.Server Pipe
lonely = greet dead dead_calls little 0 connected_server

abbrev read_line : Server.Server Pipe
read_line = (result (again, lonely) (Q.line 0 lonely)).1

abbrev told : Bool × Server.Server Pipe
told = Q.send_line (codes "hello") (Q.send_file read_line)

abbrev after_loop : Threads (Server.Server Pipe)
after_loop = record { state = told.1; input = finished false; recv = reading }

running : Q.running lonely ≡ true
unfolding greet wire_send.Server.Input.broadcast_server_msg wire_send.Transfer.transmit
    wire_send.Net.send_packet serialize_packet server_program
running = refl

takes_it : Q.line 0 lonely ≡ ok (say_it (codes "hello"), read_line)
unfolding server_program greet wire_send.Server.Input.broadcast_server_msg
    wire_send.Server.Input.command wire_send.Server.Program.take_line
    wire_send.Commands.parse_commands wire_send.Commands.find_byte wire_send.Common.text_eq
    wire_send.Transfer.transmit wire_send.Net.send_packet serialize_packet
takes_it = refl

gives_up : told.0 ≡ false
unfolding server_program wire_send.Server.Input.send_line wire_send.Transfer.transmit
    wire_send.Net.send_packet serialize_packet
gives_up = refl

reaches_end : Reach Q lonely after_loop
reaches_end =
    let taken = later (later start (enters refl running refl)) (lines 0 _ _ refl takes_it refl) in
    later (later taken (files (codes "hello") refl refl)) (
      sends (codes "hello") refl (
        ap (λ go. record { state = told.1; input = after_send go; recv = reading }) (sym gives_up)))

dead_started : start_server dead dead_calls little 0 5000 offered ≡ ok (go_on, connected_server)
unfolding start_server wire_send.Info.print_server_info wire_send.Net.Sockets.create_socket_fd
dead_started = refl

greeted_end : Run Q (greet dead dead_calls little) connected_server true after_loop
greeted_end = Reach-Run Q (greet dead dead_calls little) 0 connected_server after_loop reaches_end

server_ends_example :
    (finish_server dead little 0 after_loop ≢ ok (negsuc 0, connected_server))
    × SomeStep Q
        (greet dead dead_calls little)
        connected_server
        (Server.Run.FailedSend dead little false)
        true
        after_loop
        greeted_end
server_ends_example =
    server_ends dead dead_calls little 0 0 5000 offered connected_server after_loop false
      (negsuc 0, connected_server) refl dead_started greeted_end refl

abbrev argv : List (List ℕ)
argv = codes "wires" ∷ codes "server" ∷ codes "5000" ∷ []

asked : (main argv).1 ≡ ok (serve 5000)
unfolding main
asked = refl

abbrev no_port : Sockets pipe
no_port = sockets interfaces access_denied (pos 4) true

denied : access_denied ≢ bound
denied h = cc

not_bound : MainRun (launcher pipe no_port little) argv offered (pos 0)
unfolding launcher
not_bound =
    let (v, back, off, gone) =
      start_server_refused pipe no_port little 0 5000 (with_arguments argv offered) denied in
    serves 5000 (negsuc 0) asked (v, not_started 0 refl back) refl

MainRun-server_example :
    (pos 0 ≡ pos 0)
    × (ctl : ℕ) × (v : Server.Server Pipe) × (start_server pipe no_port little ctl 5000
          (with_arguments argv offered)
        ≡ ok (return_error, v))
MainRun-server_example =
    MainRun-server pipe no_port little argv offered (pos 0) 5000 asked not_bound
