-- ===== src/Traffic/ServerCalm.antt =====
-- The server begins to send a file only when it handles a packet that accepts one
-- (src/ServerMod.cpp).
use wire_send.Common.{ℕ, ◌≤◌, ◌≡◌, sym, ap, ◌∙◌, subst, List, [], ◌∷◌, arith, false}
use wire_send.Common.Outcome.{Outcome, ok, ◌>>=◌, bind-ok}
use wire_send.Commands.{Command, parse_commands}
use wire_send.Wire.Memory.{ByteOrder}
use wire_send.Net.{Kernel}
use wire_send.Net.Frame.{Arrival, arrived}
use wire_send.Negotiation.Runs.{rises}
use wire_send.Process.{first_line, other_lines, Verdict}
use wire_send.Threads.{LineEnd, say_it}
use wire_send.Transfer.{transmit, negotiate_receiver, answer_sender, create_file_metadata}
use wire_send.Traffic.{accepts}
use wire_send.Traffic.Peer.{packets_of}
use wire_send.Traffic.Accepting.{Calm, IsPatient, after_packet-rises}
use wire_send.Server.{Server, handle_packet, after_arrival}
use wire_send.Server.Input.{
  broadcast_server_msg, stop_server, accept_command, reject_command, file_prompt_command, command,
  send_pending, send_line,
}
use wire_send.Server.Program.{take_line, server_program}
use wire_send.Server.Talk.{server_talk, handle_packet-after_packet}

abbrev Calls : {System : Type 0} → Server System → Server System → Type 0
Calls v v' = Calm server_talk v v'

module _ (K : Kernel) (e : ByteOrder) (v : Server K.State) where
  command-Calls :
      (ctl : ℕ) (c : Command) (v' : Server K.State) → command K e ctl c v ≡ ok v' → Calls v v'
  unfolding command stop_server broadcast_server_msg accept_command reject_command answer_sender
      file_prompt_command create_file_metadata negotiate_receiver transmit
  command-Calls ctl c v' h off = ground arith

  said-Calls :
      (o : Outcome (Server K.State)) (text : List ℕ) (r : LineEnd) (v' : Server K.State)
      → ((u : Server K.State) → o ≡ ok u → Calls v u)
      → ◌>>=◌ {B = LineEnd × Server K.State} o (λ u. ok (say_it text, u)) ≡ ok (r, v')
      → Calls v v'
  said-Calls o text r v' i h off =
      let (u, done, ends) = bind-ok o _ h in
      let same : u ≡ v' = cc in
      ap (λ (x : Server K.State). x.file_send_in_progress) (sym same) ∙ i u done off

  send_pending-Calls : Calls v (send_pending K e v)
  unfolding send_pending
  send_pending-Calls off = ground arith

  send_line-Calls : (text : List ℕ) → Calls v (send_line K e text v).1
  unfolding send_line transmit
  send_line-Calls text off = ground arith

  after_arrival-rises :
      (a : Arrival) (r : Verdict × Server K.State)
      → after_arrival K e a v ≡ ok r
      → rises v.file_send_in_progress r.1.file_send_in_progress ≤ accepts (packets_of a)
  after_arrival-rises (arrived packet) r h =
      let (w, handled, same) = bind-ok (handle_packet e packet v) _ h in
      let last : w ≡ r.1 = cc in
      let talk = sym (handle_packet-after_packet e packet v w handled) ∙ ap server_talk last in
      subst (λ t. rises v.file_send_in_progress t.sending ≤ accepts (packet ∷ [])) talk
        (after_packet-rises false packet (server_talk v))
  after_arrival-rises Arrival.header_closed r h = ground arith
  after_arrival-rises Arrival.header_failed r h = ground arith
  after_arrival-rises Arrival.body_closed r h = ground arith
  after_arrival-rises Arrival.body_failed r h = ground arith
  after_arrival-rises Arrival.undefined r h = absurd (cc)
  after_arrival-rises Arrival.stuck r h = absurd (cc)

module _ (K : Kernel) (e : ByteOrder) where
  take_line-Calls :
      (ctl : ℕ) (v v' : Server K.State) (r : LineEnd)
      → take_line K e ctl v ≡ ok (r, v')
      → Calls v v'
  unfolding take_line
  take_line-Calls ctl v v' r h off =
      let text = first_line v.proc.input in
      let u = record v { proc = record v.proc { input = other_lines v.proc.input } } in
      ground (
        arith,
        said-Calls K e u (command K e ctl (parse_commands text) u) text r v'
            (λ w h'. command-Calls K e u ctl (parse_commands text) w h'),
      )

  pub server_program-IsPatient : IsPatient (server_program K e) server_talk
  unfolding server_program
  server_program-IsPatient = record {
    line = λ ctl s s' r h. take_line-Calls ctl s s' r h;
    send_file = λ s. send_pending-Calls K e s;
    send_line = λ text s. send_line-Calls K e s text;
    read = λ s off. off;
    handle = λ a s s' go h.
        let (r, came, same) = bind-ok (after_arrival K e a s) _ h in
        let last : r.1 ≡ s' = cc in
        subst
          (λ (x : Server K.State).
            rises s.file_send_in_progress x.file_send_in_progress ≤ accepts (packets_of a))
          last (after_arrival-rises K e s a r came);
    world = λ s s' (p, outside, same) off.
        ap (λ (x : Server K.State). x.file_send_in_progress) same ∙ off;
  }
