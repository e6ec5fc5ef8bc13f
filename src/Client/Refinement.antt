-- ===== src/Client/Refinement.antt =====
-- The client's calls as moves of the negotiation.
use wire_send.Common.{
  ℕ, ◌≤◌, ◌≡◌, refl, sym, ap, ◌∙◌, subst, List, Bool, true, false, not, ◌||◌, if◌then◌else◌,
  text_eq, arith,
}
use wire_send.Common.Outcome.{Outcome, ok, ◌>>=◌, bind-ok}
use wire_send.Commands.{Command, parse_commands, is_empty}
use wire_send.Wire.Memory.{ByteOrder}
use wire_send.Net.{Kernel}
use wire_send.Net.Frame.{Arrival}
use wire_send.Negotiation.{quiet, Move}
use wire_send.Negotiation.Steps.{ByCommand, after_read, IsNegotiated, Step-Move}
use wire_send.Negotiation.Runs.{offers_made, acceptances_met, files_sent, Reach-counts}
use wire_send.Process.{Process, Notice, first_line, other_lines, Verdict}
use wire_send.Transfer.{transmit, negotiate_receiver, answer_sender, create_file_metadata}
use wire_send.Transfer.Flags.{send_file-SameNeg}
use wire_send.Threads.{LineEnd, again, leaves, joins, say_it, Threads, Reach, Step}
use wire_send.Client.{
  Client, notify, terminate_connection, close_connection, on_closed, on_failed, handle_packet,
  after_arrival,
}
use wire_send.Client.Input.{
  end_line, accept_command, reject_command, file_prompt_command, command, send_pending, send_line,
}
use wire_send.Net.Sockets.{Sockets, create_socket_fd}
use wire_send.Client.Setup.{start_client}
use wire_send.Client.Program.{take_line, client_program}
use wire_send.Client.Talk.{client_talk, client_handle_packet-after_packet}

-- The command in the line that is read next: none where the program does not run
-- on or the connection is gone, and none in an empty line and in the one that ends the connection.
abbrev pub entered : {System : Type 0} → Client System → Command
entered v =
    if not v.proc.program_running
      || not v.client_connected
      || is_empty (first_line v.proc.input)
      || text_eq (first_line v.proc.input) end_line
    then Command.not_a_command
    else parse_commands (first_line v.proc.input)

-- A call that leaves the negotiation.
abbrev Calm : {System : Type 0} → Client System → Client System → Type 0
Calm v v' = client_talk v' ≡ client_talk v

module _ (K : Kernel) (e : ByteOrder) (v : Client K.State) where
  after_arrival-after_read :
      (a : Arrival) (r : Verdict × Client K.State)
      → after_arrival K e a v ≡ ok r
      → client_talk r.1 ≡ after_read true a (client_talk v)
  unfolding on_closed on_failed close_connection terminate_connection
  after_arrival-after_read (Arrival.arrived packet) r h =
      let (w, handled, same) = bind-ok (handle_packet K e packet v) _ h in
      let last : w ≡ r.1 = cc in
      sym (ap client_talk last) ∙ client_handle_packet-after_packet K e packet v w handled
  after_arrival-after_read Arrival.header_closed r h = ground arith
  after_arrival-after_read Arrival.header_failed r h = ground arith
  after_arrival-after_read Arrival.body_closed r h = ground arith
  after_arrival-after_read Arrival.body_failed r h = ground arith
  after_arrival-after_read Arrival.undefined r h = absurd (cc)
  after_arrival-after_read Arrival.stuck r h = absurd (cc)

  accept_command-ByCommand :
      ByCommand Command.accept (client_talk v) (client_talk (accept_command K e v))
  unfolding accept_command answer_sender transmit
  accept_command-ByCommand = ground arith

  reject_command-ByCommand :
      ByCommand Command.reject (client_talk v) (client_talk (reject_command K e v))
  unfolding reject_command answer_sender transmit
  reject_command-ByCommand = ground arith

  file_prompt-ByCommand :
      (v' : Client K.State)
      → file_prompt_command K e v ≡ ok v'
      → ByCommand Command.file_prompt (client_talk v) (client_talk v')
  unfolding file_prompt_command create_file_metadata negotiate_receiver transmit
  file_prompt-ByCommand v' h = ground arith

  send_pending-unsent :
      client_talk (send_pending K e v) ≡ record (client_talk v) { sending = false }
  unfolding send_pending
  send_pending-unsent = ground (arith, send_file-SameNeg K e v.sockfd v.outgoing v.proc)

  send_line-Calm : (text : List ℕ) → Calm v (send_line K e text v).1
  unfolding send_line transmit
  send_line-Calm text = ground arith

module _ (K : Kernel) (e : ByteOrder) where
  command-ByCommand :
      (c : Command) (v v' : Client K.State)
      → command K e c v ≡ ok v'
      → ByCommand c (client_talk v) (client_talk v')
  unfolding command
  command-ByCommand Command.not_a_command v v' h = ground arith
  command-ByCommand Command.unknown v v' h = ground arith
  command-ByCommand Command.stop v v' h = ground arith
  command-ByCommand Command.accept v v' h =
      let same : accept_command K e v ≡ v' = cc in
      subst (λ w. ByCommand Command.accept (client_talk v) (client_talk w)) same
        (accept_command-ByCommand K e v)
  command-ByCommand Command.reject v v' h =
      let same : reject_command K e v ≡ v' = cc in
      subst (λ w. ByCommand Command.reject (client_talk v) (client_talk w)) same
        (reject_command-ByCommand K e v)
  command-ByCommand Command.file_prompt v v' h = file_prompt-ByCommand K e v v' h

  said-ByCommand :
      (text : List ℕ) (r : LineEnd) (u v' : Client K.State)
      → ◌>>=◌ {B = LineEnd × Client K.State}
          (command K e (parse_commands text) u)
          (λ w. ok (say_it text, w))
        ≡ ok (r, v')
      → ByCommand (parse_commands text) (client_talk u) (client_talk v')
  said-ByCommand text r u v' h =
      let (w, gone, ends) = bind-ok (command K e (parse_commands text) u) _ h in
      let same : w ≡ v' = cc in
      subst (λ x. ByCommand (parse_commands text) (client_talk u) (client_talk x)) same
        (command-ByCommand (parse_commands text) u w gone)

  take_line-ByCommand :
      (v v' : Client K.State) (r : LineEnd)
      → take_line K e v ≡ ok (r, v')
      → ByCommand (entered v) (client_talk v) (client_talk v')
  unfolding take_line
  take_line-ByCommand v v' r h =
      branches (first_line v.proc.input)
        (record v { proc = record v.proc { input = other_lines v.proc.input } })
        (not v.proc.program_running) (not v.client_connected) (is_empty (first_line v.proc.input))
        (text_eq (first_line v.proc.input) end_line) h
    where
      branches :
          (text : List ℕ) (u : Client K.State) (halted cut blank last : Bool)
          → if◌then◌else◌ {A = Outcome (LineEnd × Client K.State)}
              (halted || cut)
              (ok (leaves, u))
              (if◌then◌else◌ {A = Outcome (LineEnd × Client K.State)} blank (ok (again, u)) (
                if◌then◌else◌ {A = Outcome (LineEnd × Client K.State)} last
                  (ok (joins, notify Notice.ending u))
                  (command K e (parse_commands text) u >>= λ w. ok (say_it text, w))))
            ≡ ok (r, v')
          → ByCommand
              (if halted || cut || blank || last
                then Command.not_a_command
                else parse_commands text)
              (client_talk u)
              (client_talk v')
      branches text u true cut blank last same = ground arith
      branches text u false true blank last same = ground arith
      branches text u false false true last same = ground arith
      branches text u false false false true same = ground arith
      branches text u false false false false same = said-ByCommand text r u v' same

  client_program-IsNegotiated : IsNegotiated (client_program K e) client_talk true entered
  unfolding client_program
  client_program-IsNegotiated = record {
    line = λ ctl s s' r. take_line-ByCommand s s' r;
    send_file = λ s. send_pending-unsent K e s;
    send_line = λ text s. send_line-Calm K e s text;
    read = λ s. refl;
    handle = λ a s s' go h.
        let (r, arrived, same) = bind-ok (after_arrival K e a s) _ h in
        let last : r.1 ≡ s' = cc in
        ap client_talk (sym last) ∙ after_arrival-after_read K e s a r arrived;
    world = λ s s' (p, (x, d, lines, answers, outside), same).
        ap client_talk (same ∙ ap (λ q. record s { proc = q }) outside);
  }

module _ (K : Kernel) (e : ByteOrder) where
  client_step-Move :
      (q q' : Threads (Client K.State))
      → Step (client_program K e) q q'
      → Move (client_talk q.state) (client_talk q'.state)
  client_step-Move =
      Step-Move (client_program K e) client_talk true entered (client_program-IsNegotiated K e)

module _ (K : Kernel) (N : Sockets K) (e : ByteOrder) where
  started-quiet :
      (ip : List ℕ) (port : ℕ) (p : Process K.State)
      → p.active_file_neg_req ≡ false
      → client_talk (start_client K N ip port p) ≡ quiet
  unfolding start_client create_socket_fd
  started-quiet ip port p none_open = ground arith

  -- From the start of the client in a process with no negotiation open, in every run of its two
  -- threads, in any order of their calls, and whatever the world outside changes of the system,
  -- the disk and the input in between: of the steps of the run, no more end the sending of a file
  -- than begin one, and no more begin one than open a negotiation.
  pub client_threads-Moves :
      (ip : List ℕ) (port : ℕ) (p : Process K.State) (q : Threads (Client K.State))
      → p.active_file_neg_req ≡ false
      → (r : Reach (client_program K e) (start_client K N ip port p) q)
      → (files_sent (client_program K e) client_talk (start_client K N ip port p) q r
          ≤ acceptances_met (client_program K e) client_talk (start_client K N ip port p) q r)
        × (acceptances_met (client_program K e) client_talk (start_client K N ip port p) q r
            ≤ offers_made (client_program K e) client_talk (start_client K N ip port p) q r)
  client_threads-Moves ip port p q none_open r =
      Reach-counts (client_program K e) client_talk (start_client K N ip port p)
        (client_step-Move K e) (started-quiet ip port p none_open) q r
