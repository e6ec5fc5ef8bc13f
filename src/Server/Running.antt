-- ===== src/Server/Running.antt =====
-- No call of the server's threads clears `ProgramRunning`, so that only a send that fails ends its
-- input loop.
use wire_send.Common.{Bool, ℕ, ◌≡◌, refl, sym, ap, ◌∙◌, subst, List, true, ℤ, arith}
use wire_send.Common.Outcome.{Outcome, ok, ◌>>=◌, bind-ok}
use wire_send.Commands.{Command, parse_commands}
use wire_send.Wire.{Packet}
use wire_send.Wire.Memory.{ByteOrder}
use wire_send.Net.{Kernel}
use wire_send.Net.Frame.{Arrival}
use wire_send.Process.{Process, PendingIncomingFileRequest, first_line, other_lines, Verdict, go_on}
use wire_send.Transfer.{
  transmit, negotiate_receiver, answer_sender, create_file_metadata, recv_file,
}
use wire_send.Transfer.Flags.{SameRunning, recv_file-SameRunning, send_file-SameRunning}
use wire_send.Net.Sockets.{Sockets, create_socket_fd}
use wire_send.Server.Setup.{start_server, start_listening, greet}
use wire_send.Threads.{LineEnd, say_it, Threads, IsKept}
use wire_send.Threads.Greeting.{Run, Run-kept}
use wire_send.Server.{
  Server, dispatch, receiving, received_part, control, handle_packet, after_arrival,
}
use wire_send.Server.Input.{
  broadcast_server_msg, stop_server, accept_command, reject_command, file_prompt_command, command,
  send_pending, send_line,
}
use wire_send.Server.Program.{take_line, server_program}

abbrev pub Runs : {System : Type 0} → Server System → Type 0
Runs v = v.proc.program_running ≡ true

abbrev Same : {System : Type 0} → Server System → Server System → Type 0
Same v v' = SameRunning v.proc v'.proc

module _ {System : Type 0} (v v' : Server System) where
  received_part-Same :
      (o : Outcome (ℤ × PendingIncomingFileRequest × Process System))
      → ((flag : ℤ) (r : PendingIncomingFileRequest) (p : Process System)
          → o ≡ ok (flag, r, p)
          → SameRunning v.proc p)
      → (o >>= λ r. ok (received_part (receiving v) r)) ≡ ok v'
      → Same v v'
  received_part-Same (ok (flag, r, p)) same h = ground (arith, same flag r p refl)
  received_part-Same Outcome.terminated same h = absurd (cc)
  received_part-Same Outcome.undefined same h = absurd (cc)
  received_part-Same Outcome.hangs same h = absurd (cc)

  dispatch-Same : (e : ByteOrder) (packet : Packet) → dispatch e packet v ≡ ok v' → Same v v'
  unfolding dispatch
  dispatch-Same e packet h = ground (
    arith,
    received_part-Same (recv_file packet v.incoming v.proc)
        (λ flag r p. recv_file-SameRunning packet v.incoming r v.proc p flag),
  )

  control-Same : (packet : Packet) → control packet v ≡ v' → Same v v'
  unfolding control
  control-Same packet h = ground arith

module _ (K : Kernel) (e : ByteOrder) (v : Server K.State) where
  after_arrival-Same :
      (a : Arrival) (r : Verdict × Server K.State) → after_arrival K e a v ≡ ok r → Same v r.1
  unfolding handle_packet
  after_arrival-Same (Arrival.arrived packet) r h =
      let (w, handled, same) = bind-ok (handle_packet e packet v) _ h in
      let (u, dispatched, controlled) = bind-ok (dispatch e packet v) _ handled in
      let w_is : control packet u ≡ w = cc in
      let r_is : w ≡ r.1 = cc in
      ap (λ (x : Server K.State). x.proc.program_running) (sym r_is)
      ∙ control-Same u w packet w_is
      ∙ dispatch-Same v u e packet dispatched
  after_arrival-Same Arrival.header_closed r h = ground arith
  after_arrival-Same Arrival.header_failed r h = ground arith
  after_arrival-Same Arrival.body_closed r h = ground arith
  after_arrival-Same Arrival.body_failed r h = ground arith
  after_arrival-Same Arrival.undefined r h = absurd (cc)
  after_arrival-Same Arrival.stuck r h = absurd (cc)

  command-Same :
      (ctl : ℕ) (c : Command) (v' : Server K.State) → command K e ctl c v ≡ ok v' → Same v v'
  unfolding command stop_server broadcast_server_msg accept_command reject_command answer_sender
      file_prompt_command create_file_metadata negotiate_receiver transmit
  command-Same ctl c v' h = ground arith

  send_pending-Same : Same v (send_pending K e v)
  unfolding send_pending
  send_pending-Same =
      ground (arith, send_file-SameRunning K e v.communication_socket_fd v.outgoing v.proc)

  send_line-Same : (text : List ℕ) → Same v (send_line K e text v).1
  unfolding send_line transmit
  send_line-Same text = ground arith

  said-Same :
      (o : Outcome (Server K.State)) (text : List ℕ) (r : LineEnd) (v' : Server K.State)
      → ((u : Server K.State) → o ≡ ok u → Same v u)
      → ◌>>=◌ {B = LineEnd × Server K.State} o (λ u. ok (say_it text, u)) ≡ ok (r, v')
      → Same v v'
  said-Same o text r v' i h =
      let (u, done, ends) = bind-ok o _ h in
      let same : u ≡ v' = cc in
      ap (λ (x : Server K.State). x.proc.program_running) (sym same) ∙ i u done

module _ (K : Kernel) (e : ByteOrder) where
  take_line-Same :
      (ctl : ℕ) (v v' : Server K.State) (r : LineEnd) → take_line K e ctl v ≡ ok (r, v') → Same v v'
  unfolding take_line
  take_line-Same ctl v v' r h =
      let text = first_line v.proc.input in
      let u = record v { proc = record v.proc { input = other_lines v.proc.input } } in
      ground (
        arith,
        said-Same K e v (command K e ctl (parse_commands text) u) text r v'
            (λ w h'. command-Same K e u ctl (parse_commands text) w h'),
      )

  pub server_program-Runs : IsKept (server_program K e) Runs
  unfolding server_program
  server_program-Runs = record {
    line = λ ctl s s' r h i. take_line-Same ctl s s' r h ∙ i;
    send_file = λ s i. send_pending-Same K e s ∙ i;
    send_line = λ text s i. send_line-Same K e s text ∙ i;
    read = λ s i. i;
    handle = λ a s s' go h i.
        let (r, arrived, same) = bind-ok (after_arrival K e a s) _ h in
        let last : r.1 ≡ s' = cc in subst Runs last (after_arrival-Same K e s a r arrived ∙ i);
    world = λ s s' (p, (x, d, lines, answers, outside), same) i.
        subst Runs (sym (same ∙ ap (λ q. record s { proc = q }) outside)) i;
  }

module _ (K : Kernel) (N : Sockets K) (e : ByteOrder) where
  greet-Same : (ctl : ℕ) (v : Server K.State) → Same v (greet K N e ctl v)
  unfolding greet broadcast_server_msg transmit
  greet-Same ctl v = ground arith

  start_server-Same :
      (ctl port : ℕ) (p : Process K.State) (v : Server K.State)
      → start_server K N e ctl port p ≡ ok (go_on, v)
      → SameRunning p v.proc
  unfolding start_server create_socket_fd start_listening
  start_server-Same ctl port p v h = ground arith

  -- In every state that the threads reach, the program is to run on.
  pub server_threads-Runs :
      (ctl port : ℕ) (p : Process K.State) (v : Server K.State) (greeted : Bool)
      (q : Threads (Server K.State))
      → p.program_running ≡ true
      → start_server K N e ctl port p ≡ ok (go_on, v)
      → Run (server_program K e) (greet K N e) v greeted q
      → Runs q.state
  server_threads-Runs ctl port p v greeted q up begun =
      Run-kept (server_program K e) (greet K N e) v Runs (server_program-Runs K e)
        (λ c w i. greet-Same c w ∙ i) (start_server-Same ctl port p v begun ∙ up) greeted q
