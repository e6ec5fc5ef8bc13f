-- ===== src/Server/Refinement.antt =====
-- The server's calls as moves of the negotiation.
use wire_send.Common.{
  ℕ, ◌≤◌, ◌≡◌, refl, sym, ap, ◌∙◌, subst, List, Bool, true, false, arith, if◌then◌else◌,
}
use wire_send.Common.Outcome.{Outcome, ok, ◌>>=◌, bind-ok}
use wire_send.Commands.{Command, parse_commands, is_empty}
use wire_send.Wire.Memory.{ByteOrder}
use wire_send.Net.{Kernel}
use wire_send.Net.Frame.{Arrival}
use wire_send.Negotiation.{quiet, Move}
use wire_send.Negotiation.Steps.{
  ByCommand, after_read, Follows, IsNegotiated, Step-Follows, Step-Move,
}
use wire_send.Process.{Process, first_line, other_lines, Verdict, go_on}
use wire_send.Transfer.{transmit, negotiate_receiver, answer_sender, create_file_metadata}
use wire_send.Transfer.Flags.{send_file-SameNeg}
use wire_send.Threads.{LineEnd, again, say_it, Threads, Step}
use wire_send.Threads.Greeting.{Run}
use wire_send.Negotiation.Greeted.{opens, begins, ends, counted, Run-counts}
use wire_send.Server.{Server, handle_packet, after_arrival}
use wire_send.Server.Input.{
  broadcast_server_msg, stop_server, accept_command, reject_command, file_prompt_command, command,
  send_pending, send_line,
}
use wire_send.Net.Sockets.{Sockets, create_socket_fd}
use wire_send.Server.Setup.{start_server, start_listening, greet}
use wire_send.Server.Program.{take_line, server_program}
use wire_send.Server.Talk.{server_talk, handle_packet-after_packet}

-- The command in the line that is read next: none in an empty line.
abbrev pub entered : {System : Type 0} → Server System → Command
entered v =
    if is_empty (first_line v.proc.input)
    then Command.not_a_command
    else parse_commands (first_line v.proc.input)

-- A call that leaves the negotiation.
abbrev Calm : {System : Type 0} → Server System → Server System → Type 0
Calm v v' = server_talk v' ≡ server_talk v

module _ (K : Kernel) (e : ByteOrder) (v : Server K.State) where
  after_arrival-after_read :
      (a : Arrival) (r : Verdict × Server K.State)
      → after_arrival K e a v ≡ ok r
      → server_talk r.1 ≡ after_read false a (server_talk v)
  after_arrival-after_read (Arrival.arrived packet) r h =
      let (w, handled, same) = bind-ok (handle_packet e packet v) _ h in
      let last : w ≡ r.1 = cc in
      sym (ap server_talk last) ∙ handle_packet-after_packet e packet v w handled
  after_arrival-after_read Arrival.header_closed r h = ground arith
  after_arrival-after_read Arrival.header_failed r h = ground arith
  after_arrival-after_read Arrival.body_closed r h = ground arith
  after_arrival-after_read Arrival.body_failed r h = ground arith
  after_arrival-after_read Arrival.undefined r h = absurd (cc)
  after_arrival-after_read Arrival.stuck r h = absurd (cc)

  stop_server-Calm : (ctl : ℕ) → Calm v (stop_server K e ctl v)
  unfolding stop_server broadcast_server_msg transmit
  stop_server-Calm ctl = ground arith

  accept_command-ByCommand :
      ByCommand Command.accept (server_talk v) (server_talk (accept_command K e v))
  unfolding accept_command answer_sender transmit
  accept_command-ByCommand = ground arith

  reject_command-ByCommand :
      ByCommand Command.reject (server_talk v) (server_talk (reject_command K e v))
  unfolding reject_command answer_sender transmit
  reject_command-ByCommand = ground arith

  file_prompt-ByCommand :
      (v' : Server K.State)
      → file_prompt_command K e v ≡ ok v'
      → ByCommand Command.file_prompt (server_talk v) (server_talk v')
  unfolding file_prompt_command create_file_metadata negotiate_receiver transmit
  file_prompt-ByCommand v' h = ground arith

  send_pending-unsent :
      server_talk (send_pending K e v) ≡ record (server_talk v) { sending = false }
  unfolding send_pending
  send_pending-unsent =
      ground (arith, send_file-SameNeg K e v.communication_socket_fd v.outgoing v.proc)

  send_line-Calm : (text : List ℕ) → Calm v (send_line K e text v).1
  unfolding send_line transmit
  send_line-Calm text = ground arith

module _ (K : Kernel) (e : ByteOrder) where
  command-ByCommand :
      (ctl : ℕ) (c : Command) (v v' : Server K.State)
      → command K e ctl c v ≡ ok v'
      → ByCommand c (server_talk v) (server_talk v')
  unfolding command
  command-ByCommand ctl Command.not_a_command v v' h = ground arith
  command-ByCommand ctl Command.unknown v v' h = ground arith
  command-ByCommand ctl Command.stop v v' h =
      let same : stop_server K e ctl v ≡ v' = cc in
      ap server_talk (sym same) ∙ stop_server-Calm K e v ctl
  command-ByCommand ctl Command.accept v v' h =
      let same : accept_command K e v ≡ v' = cc in
      subst (λ w. ByCommand Command.accept (server_talk v) (server_talk w)) same
        (accept_command-ByCommand K e v)
  command-ByCommand ctl Command.reject v v' h =
      let same : reject_command K e v ≡ v' = cc in
      subst (λ w. ByCommand Command.reject (server_talk v) (server_talk w)) same
        (reject_command-ByCommand K e v)
  command-ByCommand ctl Command.file_prompt v v' h = file_prompt-ByCommand K e v v' h

  said-ByCommand :
      (ctl : ℕ) (text : List ℕ) (r : LineEnd) (u v' : Server K.State)
      → ◌>>=◌ {B = LineEnd × Server K.State}
          (command K e ctl (parse_commands text) u)
          (λ w. ok (say_it text, w))
        ≡ ok (r, v')
      → ByCommand (parse_commands text) (server_talk u) (server_talk v')
  said-ByCommand ctl text r u v' h =
      let (w, gone, ends) = bind-ok (command K e ctl (parse_commands text) u) _ h in
      let same : w ≡ v' = cc in
      subst (λ x. ByCommand (parse_commands text) (server_talk u) (server_talk x)) same
        (command-ByCommand ctl (parse_commands text) u w gone)

  take_line-ByCommand :
      (ctl : ℕ) (v v' : Server K.State) (r : LineEnd)
      → take_line K e ctl v ≡ ok (r, v')
      → ByCommand (entered v) (server_talk v) (server_talk v')
  unfolding take_line
  take_line-ByCommand ctl v v' r h =
      branches (first_line v.proc.input)
        (record v { proc = record v.proc { input = other_lines v.proc.input } })
        (is_empty (first_line v.proc.input)) h
    where
      branches :
          (text : List ℕ) (u : Server K.State) (blank : Bool)
          → if◌then◌else◌ {A = Outcome (LineEnd × Server K.State)} blank
              (ok (again, u))
              (command K e ctl (parse_commands text) u >>= λ w. ok (say_it text, w))
            ≡ ok (r, v')
          → ByCommand
              (if blank then Command.not_a_command else parse_commands text)
              (server_talk u)
              (server_talk v')
      branches text u true same = ground arith
      branches text u false same = said-ByCommand ctl text r u v' same

  server_program-IsNegotiated : IsNegotiated (server_program K e) server_talk false entered
  unfolding server_program
  server_program-IsNegotiated = record {
    line = λ ctl s s' r. take_line-ByCommand ctl s s' r;
    send_file = λ s. send_pending-unsent K e s;
    send_line = λ text s. send_line-Calm K e s text;
    read = λ s. refl;
    handle = λ a s s' go h.
        let (r, arrived, same) = bind-ok (after_arrival K e a s) _ h in
        let last : r.1 ≡ s' = cc in
        ap server_talk (sym last) ∙ after_arrival-after_read K e s a r arrived;
    world = λ s s' (p, (x, d, lines, answers, outside), same).
        ap server_talk (same ∙ ap (λ q. record s { proc = q }) outside);
  }

module _ (K : Kernel) (e : ByteOrder) where
  -- Every step of the server's two threads, and every change from outside, does this to the three
  -- flags of the negotiation (an own offer is open, a file is to be sent, a request of the peer
  -- is there), and no more: a line with `/f` may open an own offer; one with `/a` may close the
  -- own offer, and only where a request is there; one with `/r`, where a request is there, ends
  -- it, and may close the own offer; any other line does nothing; the sending of a file ends that
  -- a file is to be sent; a packet that is handled asks while no own offer is open, or accepts or
  -- rejects an own offer that is open, or cancels the peer's request, or does nothing; and every
  -- other step leaves the three as they are.
  pub server_step-Follows :
      (q q' : Threads (Server K.State)) (st : Step (server_program K e) q q')
      → Follows (server_program K e) server_talk false entered q q' st
  server_step-Follows =
      Step-Follows (server_program K e) server_talk false entered (server_program-IsNegotiated K e)

  server_step-Move :
      (q q' : Threads (Server K.State))
      → Step (server_program K e) q q'
      → Move (server_talk q.state) (server_talk q'.state)
  server_step-Move =
      Step-Move (server_program K e) server_talk false entered (server_program-IsNegotiated K e)

module _ (K : Kernel) (N : Sockets K) (e : ByteOrder) where
  started-quiet :
      (ctl port : ℕ) (p : Process K.State) (r : Verdict) (v : Server K.State)
      → start_server K N e ctl port p ≡ ok (r, v)
      → p.active_file_neg_req ≡ false
      → server_talk v ≡ quiet
  unfolding start_server create_socket_fd start_listening stop_server broadcast_server_msg transmit
  started-quiet ctl port p r v h none_open = ground arith

  greet-talk : (ctl : ℕ) (v : Server K.State) → server_talk (greet K N e ctl v) ≡ server_talk v
  unfolding greet broadcast_server_msg transmit
  greet-talk ctl v = ground arith

  -- If the server starts, in a process with no negotiation open, then in every run of its two
  -- threads, from the creation of the receiving thread, in any order of their calls, the greeting
  -- among them, and whatever the world outside changes of the system, the disk and the input in
  -- between: of the steps of the run, no more end the sending of a file than begin one, and no
  -- more begin one than open a negotiation.
  pub server_threads-Moves :
      (ctl port : ℕ) (p : Process K.State) (v : Server K.State) (greeted : Bool)
      (q : Threads (Server K.State))
      → p.active_file_neg_req ≡ false
      → start_server K N e ctl port p ≡ ok (go_on, v)
      → (r : Run (server_program K e) (greet K N e) v greeted q)
      → (counted (server_program K e) (greet K N e) server_talk v ends greeted q r
          ≤ counted (server_program K e) (greet K N e) server_talk v begins greeted q r)
        × (counted (server_program K e) (greet K N e) server_talk v begins greeted q r
            ≤ counted (server_program K e) (greet K N e) server_talk v opens greeted q r)
  server_threads-Moves ctl port p v greeted q none_open started =
      Run-counts (server_program K e) (greet K N e) server_talk v (server_step-Move K e) greet-talk
        (started-quiet ctl port p go_on v started none_open) greeted q
