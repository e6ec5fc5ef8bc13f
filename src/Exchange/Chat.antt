-- ===== src/Exchange/Chat.antt =====
-- A typed line from one program to the other's screen, and the server's broadcasts.
use wire_send.Common.{
  ℕ, ◌+◌, ◌^◌, ◌<◌, ◌≡◌, refl, sym, ap, ◌∙◌, List, ◌++◌, true, false, ℤ, arith, length,
  append-cancel_left, ◌==◌, if◌then◌else◌,
}
use wire_send.Common.Outcome.{ok}
use wire_send.Wire.{value, message, message_broadcast, no_arg, end_connection, serialize_packet}
use wire_send.Wire.Memory.{ByteOrder}
use wire_send.Net.{Kernel, IsStream, IsHealthy}
use wire_send.Net.Frame.{as_read}
use wire_send.Process.{Notice, say, c_str, go_on}
use wire_send.Transfer.{packet_of, transmit}
use wire_send.Transfer.Sending.{transmit_healthy}
use wire_send.Server.{Server}
use wire_send.Server
use wire_send.Client.{Client}
use wire_send.Client

module _ (K : Kernel) (e : ByteOrder) (fd : ℤ) (S : IsStream K fd) (H : IsHealthy K fd S) where
  -- A typed line goes out as one message packet.
  pub server_line :
      (v : Server K.State) (text : List ℕ)
      → v.communication_socket_fd ≡ fd
      → length text < 2 ^ 31
      → ((Server.Input.send_line K e text v).0 ≡ go_on)
        × (S.written (Server.Input.send_line K e text v).1.proc.sys
            ≡ S.written v.proc.sys
              ++ (serialize_packet e (packet_of (value message) text (value no_arg))).0)
  unfolding Server.Input.send_line
  server_line v text same small =
      let packet = packet_of (value message) text (value no_arg) in
      let (s, sent_it, w) = transmit_healthy K e fd S H packet v.proc small in
      let run = ap (λ d. transmit K e d packet v.proc) same ∙ sent_it in
      (
        ap (λ r. (Server.Input.told_user K e text v r).0) run,
        ap (λ r. S.written (Server.Input.told_user K e text v r).1.proc.sys) run ∙ w,
      )

  -- A typed line goes out as one message packet.
  pub client_line :
      (v : Client K.State) (text : List ℕ)
      → v.sockfd ≡ fd
      → length text < 2 ^ 31
      → ((Client.Input.send_line K e text v).0 ≡ Client.Input.again)
        × (S.written (Client.Input.send_line K e text v).1.proc.sys
            ≡ S.written v.proc.sys
              ++ (serialize_packet e (packet_of (value message) text (value no_arg))).0)
  unfolding Client.Input.send_line
  client_line v text same small =
      let packet = packet_of (value message) text (value no_arg) in
      let (s, sent_it, w) = transmit_healthy K e fd S H packet v.proc small in
      let run = ap (λ d. transmit K e d packet v.proc) same ∙ sent_it in
      (
        ap (λ r. (Client.Input.told_user K e text v r).0) run,
        ap (λ r. S.written (Client.Input.told_user K e text v r).1.proc.sys) run ∙ w,
      )

  -- A message packet that is next on the stream is shown.
  client_shows :
      (sender : ByteOrder) (w : Client K.State) (text rest : List ℕ)
      → Client.Receiving.IsListening fd w
      → length text + 1 < 2 ^ 31
      → S.pending w.proc.sys
        ≡ (serialize_packet sender (packet_of (value message) text (value no_arg))).0 ++ rest
      → (s : K.State) × (Client.recv_thread K e 1 w
          ≡ ok (
            go_on,
            record w { proc = say (Notice.peer_says (c_str text)) (record w.proc { sys = s }) },
          ))
        × (S.pending s ≡ rest)
  unfolding Client.handle_packet
  client_shows sender w text rest l small h =
      let packet = packet_of (value message) text (value no_arg) in
      let (s, run, left) =
        Client.Receiving.recv_thread-packet K e fd S H sender packet rest 0 w
          (λ s. record w { proc = say (Notice.peer_says (c_str text)) (record w.proc { sys = s }) })
          l.connection l.up small h (λ s. refl) in
      (s, run ∙ (unfold Client.recv_thread in refl), left)

  -- A message packet that is next on the stream is shown.
  server_shows :
      (sender : ByteOrder) (w : Server K.State) (text rest : List ℕ)
      → w.communication_socket_fd ≡ fd
      → w.server_connected ≡ true
      → length text + 1 < 2 ^ 31
      → S.pending w.proc.sys
        ≡ (serialize_packet sender (packet_of (value message) text (value no_arg))).0 ++ rest
      → (s : K.State) × (Server.recv_thread K e 1 w
          ≡ ok (
            go_on,
            record w { proc = say (Notice.peer_says (c_str text)) (record w.proc { sys = s }) },
          ))
        × (S.pending s ≡ rest)
  unfolding Server.handle_packet
  server_shows sender w text rest conn up small h =
      let packet = packet_of (value message) text (value no_arg) in
      let (s, run, left) =
        Server.Receiving.recv_thread-packet K e fd S H sender packet rest 0 w
          (λ s. record w { proc = say (Notice.peer_says (c_str text)) (record w.proc { sys = s }) })
          conn up small h (λ s. refl) in
      (s, run ∙ (unfold Server.recv_thread in refl), left)

  -- A broadcast is shown in two ways; the connection stays up unless the control byte, which the
  -- server never set, happens to be that which ends it.
  client_hears :
      (sender : ByteOrder) (w : Client K.State) (text : List ℕ) (ctl : ℕ) (rest : List ℕ)
      → Client.Receiving.IsListening fd w
      → length text + 1 < 2 ^ 31
      → S.pending w.proc.sys
        ≡ (serialize_packet sender (packet_of (value message_broadcast) text ctl)).0 ++ rest
      → (w' : Client K.State) × (Client.recv_thread K e 1 w ≡ ok (go_on, w'))
        × (w'.client_connected ≡ (if ctl == value end_connection then false else true))
  unfolding Client.handle_packet
  client_hears sender w text ctl rest l small h =
      let packet = packet_of (value message_broadcast) text ctl in
      let shown = λ (s : K.State).
        Client.notify (Notice.peer_says (c_str text))
          (Client.notify (Notice.broadcast_says (c_str text)) (Client.with_sys K s w)) in
      let (s, run, left) =
        Client.Receiving.recv_thread-packet K e fd S H sender packet rest 0 w
          (λ s. Client.control K (as_read packet) (shown s)) l.connection l.up small h
          (λ s. refl) in
      (
        Client.control K (as_read packet) (shown s),
        run ∙ (unfold Client.recv_thread in refl),
        ground (arith, l.up),
      )

  server_broadcast :
      (v : Server K.State) (text : List ℕ) (ctl : ℕ)
      → v.communication_socket_fd ≡ fd
      → length text < 2 ^ 31
      → S.written (Server.Input.broadcast_server_msg K e ctl text v).proc.sys
        ≡ S.written v.proc.sys
          ++ (serialize_packet e (packet_of (value message_broadcast) text ctl)).0
  unfolding Server.Input.broadcast_server_msg
  server_broadcast v text ctl same small =
      let packet = packet_of (value message_broadcast) text ctl in
      let (s, sent_it, w) = transmit_healthy K e fd S H packet v.proc small in
      let run = ap (λ d. transmit K e d packet v.proc) same ∙ sent_it in
      ap (λ r. S.written (Server.Input.told K e r).sys) run ∙ w

module _ (KS : Kernel) (es : ByteOrder) (fs : ℤ) (SS : IsStream KS fs) (HS : IsHealthy KS fs SS)
    (KC : Kernel) (ec : ByteOrder) (fc : ℤ) (SC : IsStream KC fc) (HC : IsHealthy KC fc SC) where
  -- Over two healthy connections, for a line shorter than 2^31 - 1 bytes: if what the server's
  -- `send_line` writes is, with any rest behind it, what the stream of a client with a running
  -- thread holds, then the server's loop goes on, and one round of the client's thread shows the
  -- line up to its first zero byte, changes nothing else of the client's program but the system's
  -- state, and leaves the rest of the stream.
  pub server_to_client_line :
      (v : Server KS.State) (w : Client KC.State) (text sent_bytes rest : List ℕ)
      → v.communication_socket_fd ≡ fs
      → length text + 1 < 2 ^ 31
      → SS.written (Server.Input.send_line KS es text v).1.proc.sys
        ≡ SS.written v.proc.sys ++ sent_bytes
      → Client.Receiving.IsListening fc w
      → SC.pending w.proc.sys ≡ sent_bytes ++ rest
      → ((Server.Input.send_line KS es text v).0 ≡ go_on)
        × (s : KC.State) × (Client.recv_thread KC ec 1 w
            ≡ ok (
              go_on,
              record w { proc = say (Notice.peer_says (c_str text)) (record w.proc { sys = s }) },
            ))
        × (SC.pending s ≡ rest)
  server_to_client_line v w text sent_bytes rest same small link l h =
      let (on, out) = server_line KS es fs SS HS v text same (omega arith) in
      let bytes = append-cancel_left (SS.written v.proc.sys) sent_bytes _ (sym link ∙ out) in
      let (s, run, left) =
        client_shows KC ec fc SC HC es w text rest l small (h ∙ ap (λ bs. bs ++ rest) bytes) in
      (on, s, run, left)

  -- Over two healthy connections, for a line shorter than 2^31 - 1 bytes: if what the client's
  -- `send_line` writes is, with any rest behind it, what the stream of a server with a running
  -- thread holds, then the client's loop goes on, and one round of the server's thread shows the
  -- line up to its first zero byte, changes nothing else of the server's program but the system's
  -- state, and leaves the rest of the stream.
  pub client_to_server_line :
      (v : Client KC.State) (w : Server KS.State) (text sent_bytes rest : List ℕ)
      → v.sockfd ≡ fc
      → length text + 1 < 2 ^ 31
      → SC.written (Client.Input.send_line KC ec text v).1.proc.sys
        ≡ SC.written v.proc.sys ++ sent_bytes
      → w.communication_socket_fd ≡ fs
      → w.server_connected ≡ true
      → SS.pending w.proc.sys ≡ sent_bytes ++ rest
      → ((Client.Input.send_line KC ec text v).0 ≡ Client.Input.again)
        × (s : KS.State) × (Server.recv_thread KS es 1 w
            ≡ ok (
              go_on,
              record w { proc = say (Notice.peer_says (c_str text)) (record w.proc { sys = s }) },
            ))
        × (SS.pending s ≡ rest)
  client_to_server_line v w text sent_bytes rest same small link conn up h =
      let (on, out) = client_line KC ec fc SC HC v text same (omega arith) in
      let bytes = append-cancel_left (SC.written v.proc.sys) sent_bytes _ (sym link ∙ out) in
      let (s, run, left) =
        server_shows KS es fs SS HS ec w text rest conn up small
          (h ∙ ap (λ bs. bs ++ rest) bytes) in
      (on, s, run, left)

  -- Over two healthy connections, for a text shorter than 2^31 - 1 bytes: if what the server's
  -- broadcast writes is, with any rest behind it, what the stream of a client with a running
  -- thread holds, then one round of the client's thread takes it, and the client's connection
  -- ends exactly if the control byte, which the server leaves unset, happens to be that of the
  -- end of a connection.
  pub broadcast_ends :
      (v : Server KS.State) (w : Client KC.State) (text : List ℕ) (ctl : ℕ)
      (sent_bytes rest : List ℕ)
      → v.communication_socket_fd ≡ fs
      → length text + 1 < 2 ^ 31
      → SS.written (Server.Input.broadcast_server_msg KS es ctl text v).proc.sys
        ≡ SS.written v.proc.sys ++ sent_bytes
      → Client.Receiving.IsListening fc w
      → SC.pending w.proc.sys ≡ sent_bytes ++ rest
      → (w' : Client KC.State) × (Client.recv_thread KC ec 1 w ≡ ok (go_on, w'))
        × (w'.client_connected ≡ (if ctl == value end_connection then false else true))
  broadcast_ends v w text ctl sent_bytes rest same small link l h =
      let out = server_broadcast KS es fs SS HS v text ctl same (omega arith) in
      let bytes = append-cancel_left (SS.written v.proc.sys) sent_bytes _ (sym link ∙ out) in
      client_hears KC ec fc SC HC es w text ctl rest l small (h ∙ ap (λ bs. bs ++ rest) bytes)
