-- ===== src/Server/Invariant.antt =====
-- What holds of the server between any two calls of its threads.
use wire_send.Common.{
  Bool, ℕ, ◌≡◌, refl, sym, ap, ◌∙◌, subst, List, true, false, ℤ, arith, ◌⊎◌, inl, inr,
}
use wire_send.Common.Outcome.{Outcome, ok, ◌>>=◌, bind-ok}
use wire_send.Commands.{Command, parse_commands}
use wire_send.Wire.{Packet}
use wire_send.Wire.Memory.{ByteOrder}
use wire_send.Net.{Kernel}
use wire_send.Net.Frame.{Arrival}
use wire_send.Files.Paths.{filename}
use wire_send.Process.{
  Process, first_line, other_lines, Verdict, go_on, PendingIncomingFileRequest,
  PendingOutgoingFileRequest,
}
use wire_send.Transfer.{
  transmit, negotiate_receiver, answer_sender, create_file_metadata, recv_file,
}
use wire_send.Transfer.Flags.{SameNeg, recv_file-SameNeg, send_file-SameNeg}
use wire_send.Threads.{LineEnd, say_it, Threads, IsKept}
use wire_send.Threads.Greeting.{Run, Run-kept}
use wire_send.Server.{
  Server, dispatch, receiving, received_part, control, handle_packet, after_arrival,
}
use wire_send.Server.Input.{
  broadcast_server_msg, stop_server, accept_command, reject_command, file_prompt_command, command,
  send_pending, send_line,
}
use wire_send.Net.Sockets.{Sockets, create_socket_fd}
use wire_send.Server.Setup.{start_server, start_listening, greet}
use wire_send.Server.Program.{take_line, server_program}

-- A negotiation that is open, and a file that is to be sent, are those of a request that the user
-- made, and the name that was told to the peer is that of the file.
pub record IsConsistent {System : Type 0} (v : Server System) : Type 0 where
  pub asked : v.proc.active_file_neg_req ≡ true → v.outgoing.active ≡ true
  pub sending : v.file_send_in_progress ≡ true → v.outgoing.active ≡ true
  pub named :
      v.outgoing.active ≡ true
      → v.outgoing.metadata.file_name ≡ filename v.outgoing.file_path_on_src
  pub received : v.file_recv_in_progress ≡ false

-- A change that leaves the request, and opens nothing, keeps it.
record Leaves {System : Type 0} (v v' : Server System) : Type 0 where
  request : v'.outgoing ≡ v.outgoing
  neg : (v'.proc.active_file_neg_req ≡ true) → (v.proc.active_file_neg_req ≡ true)
  sends :
      (v'.file_send_in_progress ≡ true)
      → (v.file_send_in_progress ≡ true) ⊎ (v.proc.active_file_neg_req ≡ true)
  receives : v.file_recv_in_progress ≡ false → v'.file_recv_in_progress ≡ false

module _ {System : Type 0} (v v' : Server System) where
  Leaves-IsConsistent : Leaves v v' → IsConsistent v → IsConsistent v'
  Leaves-IsConsistent l i = record {
    asked = λ h. ap (λ (o : PendingOutgoingFileRequest). o.active) l.request ∙ i.asked (l.neg h);
    sending = λ h.
        ap (λ (o : PendingOutgoingFileRequest). o.active) l.request
        ∙ elim (l.sends h) [ inl s ↦ i.sending s | inr n ↦ i.asked n ];
    named =
        subst
          (λ (o : PendingOutgoingFileRequest).
            o.active ≡ true → o.metadata.file_name ≡ filename o.file_path_on_src)
          (sym l.request) i.named;
    received = l.receives i.received;
  }

  received_part-Leaves :
      (o : Outcome (ℤ × PendingIncomingFileRequest × Process System))
      → ((flag : ℤ) (r : PendingIncomingFileRequest) (p : Process System)
          → o ≡ ok (flag, r, p)
          → SameNeg v.proc p)
      → (o >>= λ r. ok (received_part (receiving v) r)) ≡ ok v'
      → Leaves v v'
  received_part-Leaves (ok (flag, r, p)) same h = ground (arith, same flag r p refl)
  received_part-Leaves Outcome.terminated same h = absurd (cc)
  received_part-Leaves Outcome.undefined same h = absurd (cc)
  received_part-Leaves Outcome.hangs same h = absurd (cc)

  dispatch-Leaves : (e : ByteOrder) (packet : Packet) → dispatch e packet v ≡ ok v' → Leaves v v'
  unfolding dispatch
  dispatch-Leaves e packet h = ground (
    arith,
    received_part-Leaves (recv_file packet v.incoming v.proc)
        (λ flag r p. recv_file-SameNeg packet v.incoming r v.proc p flag),
  )

  control-Leaves : (packet : Packet) → control packet v ≡ v' → Leaves v v'
  unfolding control
  control-Leaves packet h = ground arith

module _ (K : Kernel) (e : ByteOrder) (v : Server K.State) where
  after_arrival-IsConsistent :
      (a : Arrival) (r : Verdict × Server K.State)
      → after_arrival K e a v ≡ ok r
      → IsConsistent v
      → IsConsistent r.1
  unfolding handle_packet
  after_arrival-IsConsistent (Arrival.arrived packet) r h i =
      let (w, handled, same) = bind-ok (handle_packet e packet v) _ h in
      let (u, dispatched, controlled) = bind-ok (dispatch e packet v) _ handled in
      let kept = Leaves-IsConsistent v u (dispatch-Leaves v u e packet dispatched) i in
      let next =
        Leaves-IsConsistent u (control packet u) (control-Leaves u (control packet u) packet refl)
          kept in
      let w_is : control packet u ≡ w = cc in
      let r_is : w ≡ r.1 = cc in subst IsConsistent (w_is ∙ r_is) next
  after_arrival-IsConsistent Arrival.header_closed r h i = ground arith
  after_arrival-IsConsistent Arrival.header_failed r h i = ground arith
  after_arrival-IsConsistent Arrival.body_closed r h i = ground arith
  after_arrival-IsConsistent Arrival.body_failed r h i = ground arith
  after_arrival-IsConsistent Arrival.undefined r h i = absurd (cc)
  after_arrival-IsConsistent Arrival.stuck r h i = absurd (cc)

  broadcast-Leaves : (ctl : ℕ) (text : List ℕ) → Leaves v (broadcast_server_msg K e ctl text v)
  unfolding broadcast_server_msg transmit
  broadcast-Leaves ctl text = ground arith

  stop_server-Leaves : (ctl : ℕ) → Leaves v (stop_server K e ctl v)
  unfolding stop_server broadcast_server_msg transmit
  stop_server-Leaves ctl = ground arith

  accept_command-Leaves : Leaves v (accept_command K e v)
  unfolding accept_command answer_sender transmit
  accept_command-Leaves = ground arith

  reject_command-Leaves : Leaves v (reject_command K e v)
  unfolding reject_command answer_sender transmit
  reject_command-Leaves = ground arith

  send_pending-Leaves : Leaves v (send_pending K e v)
  unfolding send_pending
  send_pending-Leaves =
      ground (arith, send_file-SameNeg K e v.communication_socket_fd v.outgoing v.proc)

  send_line-Leaves : (text : List ℕ) → Leaves v (send_line K e text v).1
  unfolding send_line transmit
  send_line-Leaves text = ground arith

  file_prompt-IsConsistent :
      (v' : Server K.State) → file_prompt_command K e v ≡ ok v' → IsConsistent v → IsConsistent v'
  unfolding file_prompt_command create_file_metadata negotiate_receiver transmit
  file_prompt-IsConsistent v' h i = ground arith

module _ (K : Kernel) (e : ByteOrder) where
  command-IsConsistent :
      (ctl : ℕ) (c : Command) (v v' : Server K.State)
      → command K e ctl c v ≡ ok v'
      → IsConsistent v
      → IsConsistent v'
  unfolding command
  command-IsConsistent ctl Command.not_a_command v v' h i = ground arith
  command-IsConsistent ctl Command.unknown v v' h i = ground arith
  command-IsConsistent ctl Command.stop v v' h i =
      let same : stop_server K e ctl v ≡ v' = cc in
      subst IsConsistent same
        (Leaves-IsConsistent v (stop_server K e ctl v) (stop_server-Leaves K e v ctl) i)
  command-IsConsistent ctl Command.accept v v' h i =
      let same : accept_command K e v ≡ v' = cc in
      subst IsConsistent same
        (Leaves-IsConsistent v (accept_command K e v) (accept_command-Leaves K e v) i)
  command-IsConsistent ctl Command.reject v v' h i =
      let same : reject_command K e v ≡ v' = cc in
      subst IsConsistent same
        (Leaves-IsConsistent v (reject_command K e v) (reject_command-Leaves K e v) i)
  command-IsConsistent ctl Command.file_prompt v v' h i = file_prompt-IsConsistent K e v v' h i

  said-IsConsistent :
      (o : Outcome (Server K.State)) (text : List ℕ) (r : LineEnd) (v' : Server K.State)
      → ((u : Server K.State) → o ≡ ok u → IsConsistent u)
      → ◌>>=◌ {B = LineEnd × Server K.State} o (λ u. ok (say_it text, u)) ≡ ok (r, v')
      → IsConsistent v'
  said-IsConsistent (ok u) text r v' i h =
      let same : u ≡ v' = cc in subst IsConsistent same (i u refl)
  said-IsConsistent Outcome.terminated text r v' i h = absurd (cc)
  said-IsConsistent Outcome.undefined text r v' i h = absurd (cc)
  said-IsConsistent Outcome.hangs text r v' i h = absurd (cc)

  take_line-IsConsistent :
      (ctl : ℕ) (v v' : Server K.State) (r : LineEnd)
      → take_line K e ctl v ≡ ok (r, v')
      → IsConsistent v
      → IsConsistent v'
  unfolding take_line
  take_line-IsConsistent ctl v v' r h i =
      let text = first_line v.proc.input in
      let u = record v { proc = record v.proc { input = other_lines v.proc.input } } in
      let kept : IsConsistent u = record {
        asked = i.asked;
        sending = i.sending;
        named = i.named;
        received = i.received;
      } in
      ground (
        arith,
        said-IsConsistent (command K e ctl (parse_commands text) u) text r v'
            (λ w h'. command-IsConsistent ctl (parse_commands text) u w h' kept),
      )

  pub server_program-IsKept : IsKept (server_program K e) IsConsistent
  unfolding server_program
  server_program-IsKept = record {
    line = λ ctl s s' r. take_line-IsConsistent ctl s s' r;
    send_file = λ s. Leaves-IsConsistent s (send_pending K e s) (send_pending-Leaves K e s);
    send_line =
        λ text s. Leaves-IsConsistent s (send_line K e text s).1 (send_line-Leaves K e s text);
    read = λ s i. record {
      asked = i.asked;
      sending = i.sending;
      named = i.named;
      received = i.received;
    };
    handle = λ a s s' go h i.
        let (r, arrived, same) = bind-ok (after_arrival K e a s) _ h in
        let last : r.1 ≡ s' = cc in
        subst IsConsistent last (after_arrival-IsConsistent K e s a r arrived i);
    world = λ s s' (p, (x, d, lines, answers, outside), same) i.
        subst IsConsistent (sym (same ∙ ap (λ q. record s { proc = q }) outside))
          (record { asked = i.asked; sending = i.sending; named = i.named; received = i.received });
  }

module _ (K : Kernel) (N : Sockets K) (e : ByteOrder) where
  greet-Leaves : (ctl : ℕ) (v : Server K.State) → Leaves v (greet K N e ctl v)
  unfolding greet broadcast_server_msg transmit
  greet-Leaves ctl v = ground arith

  started-IsConsistent :
      (ctl port : ℕ) (p : Process K.State) (r : Verdict) (v : Server K.State)
      → start_server K N e ctl port p ≡ ok (r, v)
      → p.active_file_neg_req ≡ false
      → IsConsistent v
  unfolding start_server create_socket_fd start_listening stop_server broadcast_server_msg transmit
  started-IsConsistent ctl port p r v h quiet = ground arith

  -- If the server starts, in a process with no negotiation open, then in every state that its two
  -- threads reach between their calls, from the creation of the receiving thread, before the
  -- greeting and behind it, in any order of their calls and of changes from outside: while a
  -- negotiation is open, or a file is to be sent, the outgoing request is active; the name in the
  -- metadata of an active outgoing request is that of the file at its path; and the flag of a
  -- file being received, which is set while a part of one is taken in, is false again.
  pub server_threads-IsConsistent :
      (ctl port : ℕ) (p : Process K.State) (v : Server K.State) (greeted : Bool)
      (q : Threads (Server K.State))
      → p.active_file_neg_req ≡ false
      → start_server K N e ctl port p ≡ ok (go_on, v)
      → Run (server_program K e) (greet K N e) v greeted q
      → IsConsistent q.state
  server_threads-IsConsistent ctl port p v greeted q quiet started =
      Run-kept (server_program K e) (greet K N e) v IsConsistent (server_program-IsKept K e)
        (λ c w. Leaves-IsConsistent w (greet K N e c w) (greet-Leaves c w))
        (started-IsConsistent ctl port p go_on v started quiet) greeted q
