-- ===== src/Traffic/ServerScreen.antt =====
-- What the server's screen shows of the client's words (src/ServerMod.cpp).
use wire_send.Common.{
  ℕ, ◌≡◌, refl, sym, ap, ◌∙◌, subst, List, [], ◌++◌, append_assoc, append-nil, arith, ℤ,
}
use wire_send.Common.Outcome.{Outcome, ok, ◌>>=◌, bind-ok}
use wire_send.Commands.{Command, parse_commands}
use wire_send.Wire.{Packet}
use wire_send.Wire.Memory.{ByteOrder}
use wire_send.Net.{Kernel}
use wire_send.Net.Frame.{Arrival, arrived}
use wire_send.Process.{Process, PendingIncomingFileRequest, Verdict, first_line, other_lines}
use wire_send.Threads.{
  LineEnd, say_it, Threads, Program, Step, enters, falls_out, lines, files, sends, reads, stops,
  handles, changes, Reach, start, later,
}
use wire_send.Transfer.{
  transmit, negotiate_receiver, answer_sender, create_file_metadata, recv_file,
}
use wire_send.Traffic.{messages, message_of, messages-append}
use wire_send.Traffic.Peer.{undisturbed, packets_of}
use wire_send.Traffic.Arriving.{packets_handled, step_handles}
use wire_send.Traffic.Screen.{
  texts, texts-append, heard, heard_say, heard_same, Quiet, recv_file-Quiet, send_file-Quiet,
}
use wire_send.Server.{
  Server, dispatch, receiving, received_part, control, handle_packet, after_arrival,
}
use wire_send.Server.Input.{
  broadcast_server_msg, stop_server, accept_command, reject_command, file_prompt_command, command,
  send_pending, send_line,
}
use wire_send.Server.Program.{take_line, server_program}

abbrev pub shown : {System : Type 0} → Server System → List (List ℕ)
shown v = heard v.proc.screen

module _ {System : Type 0} (v v' : Server System) where
  received_part-Quiet :
      (o : Outcome (ℤ × PendingIncomingFileRequest × Process System))
      → ((flag : ℤ) (r : PendingIncomingFileRequest) (p : Process System)
          → o ≡ ok (flag, r, p)
          → Quiet v.proc p)
      → (o >>= λ r. ok (received_part (receiving v) r)) ≡ ok v'
      → Quiet v.proc v'.proc
  received_part-Quiet (ok (flag, r, p)) same h = grind (arith, heard_same, same flag r p refl)
  received_part-Quiet Outcome.terminated same h = absurd (cc)
  received_part-Quiet Outcome.undefined same h = absurd (cc)
  received_part-Quiet Outcome.hangs same h = absurd (cc)

  dispatch-shown :
      (e : ByteOrder) (packet : Packet)
      → dispatch e packet v ≡ ok v'
      → shown v' ≡ shown v ++ texts (message_of packet)
  unfolding dispatch
  dispatch-shown e packet h = grind (
    arith,
    heard_say,
    append-nil,
    received_part-Quiet (recv_file packet v.incoming v.proc)
        (λ flag r p. recv_file-Quiet packet v.incoming r v.proc p flag),
  )

  control-Quiet : (packet : Packet) → control packet v ≡ v' → Quiet v.proc v'.proc
  unfolding control
  control-Quiet packet h = grind (arith, heard_same)

module _ (K : Kernel) (e : ByteOrder) (v : Server K.State) where
  after_arrival-shown :
      (a : Arrival) (r : Verdict × Server K.State)
      → after_arrival K e a v ≡ ok r
      → shown r.1 ≡ shown v ++ texts (messages (packets_of a))
  unfolding handle_packet
  after_arrival-shown (arrived packet) r h =
      let (w, handled, same) = bind-ok (handle_packet e packet v) _ h in
      let (u, dispatched, controlled) = bind-ok (dispatch e packet v) _ handled in
      let w_is : control packet u ≡ w = cc in
      let r_is : w ≡ r.1 = cc in
      let one = append-nil (message_of packet) in
      ap (λ (x : Server K.State). shown x) (sym r_is)
      ∙ control-Quiet u w packet w_is
      ∙ dispatch-shown v u e packet dispatched
      ∙ ap (λ ls. shown v ++ texts ls) (sym one)
  after_arrival-shown Arrival.header_closed r h = grind (arith, append-nil)
  after_arrival-shown Arrival.header_failed r h = grind (arith, append-nil)
  after_arrival-shown Arrival.body_closed r h = grind (arith, append-nil)
  after_arrival-shown Arrival.body_failed r h = grind (arith, append-nil)
  after_arrival-shown Arrival.undefined r h = absurd (cc)
  after_arrival-shown Arrival.stuck r h = absurd (cc)

  command-Quiet :
      (ctl : ℕ) (c : Command) (v' : Server K.State)
      → command K e ctl c v ≡ ok v'
      → Quiet v.proc v'.proc
  unfolding command stop_server broadcast_server_msg accept_command reject_command answer_sender
      file_prompt_command create_file_metadata negotiate_receiver transmit
  command-Quiet ctl c v' h = grind (arith, heard_same)

  said-Quiet :
      (o : Outcome (Server K.State)) (text : List ℕ) (r : LineEnd) (v' : Server K.State)
      → ((u : Server K.State) → o ≡ ok u → Quiet v.proc u.proc)
      → ◌>>=◌ {B = LineEnd × Server K.State} o (λ u. ok (say_it text, u)) ≡ ok (r, v')
      → Quiet v.proc v'.proc
  said-Quiet o text r v' i h =
      let (u, done, ends) = bind-ok o _ h in
      let same : u ≡ v' = cc in ap (λ (x : Server K.State). shown x) (sym same) ∙ i u done

  send_pending-Quiet : Quiet v.proc (send_pending K e v).proc
  unfolding send_pending
  send_pending-Quiet =
      grind (arith, heard_same, send_file-Quiet K e v.communication_socket_fd v.outgoing v.proc)

  send_line-Quiet : (text : List ℕ) → Quiet v.proc (send_line K e text v).1.proc
  unfolding send_line transmit
  send_line-Quiet text = grind (arith, heard_same)

module _ (K : Kernel) (e : ByteOrder) where
  take_line-Quiet :
      (ctl : ℕ) (v v' : Server K.State) (r : LineEnd)
      → take_line K e ctl v ≡ ok (r, v')
      → Quiet v.proc v'.proc
  unfolding take_line
  take_line-Quiet ctl v v' r h =
      let text = first_line v.proc.input in
      let u = record v { proc = record v.proc { input = other_lines v.proc.input } } in
      ground (
        arith,
        said-Quiet K e u (command K e ctl (parse_commands text) u) text r v'
            (λ w h'. command-Quiet K e u ctl (parse_commands text) w h'),
      )

module _ (K : Kernel) (e : ByteOrder) (pending written : Server K.State → List ℕ) where
  abbrev P : Program (Server K.State)
  P = undisturbed (server_program K e) pending written

  abbrev Shows : Server K.State → List Packet → Server K.State → Type 0
  Shows v ps v' = shown v' ≡ shown v ++ texts (messages ps)

  quietly : (v v' : Server K.State) → Quiet v.proc v'.proc → Shows v [] v'
  quietly v v' h = h ∙ sym (append-nil (shown v))

  Step-Shows :
      (q q' : Threads (Server K.State)) (st : Step P q q')
      → Shows q.state (step_handles P q q' st) q'.state
  unfolding server_program
  Step-Shows q q' (enters at up same) =
      subst (λ x. Shows q.state [] x.state) (sym same) (quietly q.state q.state refl)
  Step-Shows q q' (falls_out at down same) =
      subst (λ x. Shows q.state [] x.state) (sym same) (quietly q.state q.state refl)
  Step-Shows q q' (lines ctl r s at run same) =
      subst (λ x. Shows q.state [] x.state) (sym same)
        (quietly q.state s (take_line-Quiet K e ctl q.state s r run))
  Step-Shows q q' (files text at same) =
      subst (λ x. Shows q.state [] x.state) (sym same)
        (quietly q.state (P.send_file q.state) (send_pending-Quiet K e q.state))
  Step-Shows q q' (sends text at same) =
      subst (λ x. Shows q.state [] x.state) (sym same)
        (quietly q.state (P.send_line text q.state).1 (send_line-Quiet K e q.state text))
  Step-Shows q q' (reads at up same) =
      subst (λ x. Shows q.state [] x.state) (sym same) (quietly q.state (P.read q.state).1 refl)
  Step-Shows q q' (stops at down same) =
      subst (λ x. Shows q.state [] x.state) (sym same) (quietly q.state q.state refl)
  Step-Shows q q' (handles a go s at run same) =
      let (r, came, is) = bind-ok (after_arrival K e a q.state) _ run in
      let last : r.1 ≡ s = cc in
      subst (λ x. Shows q.state (packets_of a) x.state) (sym same)
        (subst (Shows q.state (packets_of a)) last (after_arrival-shown K e q.state a r came))
  Step-Shows q q' (changes s ((p, (x, d, typed, answers, outside), is), unread, unwritten) same) =
      subst (λ x. Shows q.state [] x.state) (sym same)
        (quietly q.state s (
          ap (λ (v : Server K.State). shown v) is
          ∙ ap (λ (p : Process K.State). heard p.screen) outside))

  -- A run shows just the messages that it handles.
  pub Reach-Shows :
      (v : Server K.State) (q : Threads (Server K.State)) (r : Reach P v q)
      → Shows v (packets_handled P q r) q.state
  unfolding packets_handled
  Reach-Shows v q start = quietly v v refl
  Reach-Shows v q (later {q = q₀} r st) =
      let before = packets_handled P q₀ r in
      let now = step_handles P q₀ q st in
      Step-Shows q₀ q st
      ∙ ap (λ ls. ls ++ texts (messages now)) (Reach-Shows v q₀ r)
      ∙ append_assoc (shown v) (texts (messages before)) (texts (messages now))
      ∙ ap (◌++◌ (shown v)) (
          sym
            (ap texts (messages-append before now) ∙ texts-append (messages before) (messages now)))
