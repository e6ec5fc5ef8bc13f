-- ===== src/Traffic/ServerPeer.antt =====
-- The server as one end of a connection that works until it is shut (src/ServerMod.cpp).
use wire_send.Common.{
  if◌then◌else◌, ℕ, ◌≡◌, refl, sym, ap, ◌∙◌, subst, List, arith, true, ℤ, [], ◌∷◌,
}
use wire_send.Common.Outcome.{Outcome, ok, ◌>>=◌, bind-ok}
use wire_send.Wire.{Packet}
use wire_send.Wire.Memory.{ByteOrder}
use wire_send.Net.{Kernel, IsStream}
use wire_send.Net.Reliable.{IsReliable}
use wire_send.Net.Frame.{Arrival, arrived, read_frame}
use wire_send.Process.{Process, PendingIncomingFileRequest, Verdict, goes_on}
use wire_send.Transfer.{recv_file}
use wire_send.Server.{
  Server, dispatch, receiving, received_part, control, handle_packet, after_arrival,
}
use wire_send.Server.Input.{send_pending, send_line}
use wire_send.Threads.{Program}
use wire_send.Server.Program.{server_program}
use wire_send.Traffic.{Puts, Puts-none}
use wire_send.Traffic.Files.{recv_file-sys}
use wire_send.Traffic.Reading.{read_frame-written}
use wire_send.Traffic.Peer.{IsPeer, read_frame-Takes, undisturbed}
use wire_send.Traffic.ServerCalls.{server_accepts}
use wire_send.Traffic.ServerLines.{take_line-Does, send_pending-Does, send_line-Puts}

-- The connection and its descriptor are as they were.
record Same {System : Type 0} (v v' : Server System) : Type 0 where
  sys : v'.proc.sys ≡ v.proc.sys
  descriptor : v'.communication_socket_fd ≡ v.communication_socket_fd

module _ {System : Type 0} (v v' : Server System) where
  received_part-Same :
      (o : Outcome (ℤ × PendingIncomingFileRequest × Process System))
      → ((flag : ℤ) (r : PendingIncomingFileRequest) (p : Process System)
          → o ≡ ok (flag, r, p)
          → p.sys ≡ v.proc.sys)
      → (o >>= λ r. ok (received_part (receiving v) r)) ≡ ok v'
      → Same v v'
  received_part-Same (ok (flag, r, p)) same h = ground (arith, same flag r p refl)
  received_part-Same Outcome.terminated same h = absurd (cc)
  received_part-Same Outcome.undefined same h = absurd (cc)
  received_part-Same Outcome.hangs same h = absurd (cc)

  dispatch-Same : (e : ByteOrder) (packet : Packet) → dispatch e packet v ≡ ok v' → Same v v'
  unfolding dispatch
  dispatch-Same e packet h = ground (
    arith,
    received_part-Same (recv_file packet v.incoming v.proc)
        (λ flag r p. recv_file-sys packet v.incoming r v.proc p flag),
  )

  control-Same : (packet : Packet) → control packet v ≡ v' → Same v v'
  unfolding control
  control-Same packet h = ground arith

module _ (K : Kernel) (e : ByteOrder) (v : Server K.State) where
  after_arrival-Same :
      (a : Arrival) (r : Verdict × Server K.State) → after_arrival K e a v ≡ ok r → Same v r.1
  unfolding handle_packet
  after_arrival-Same (arrived packet) r h =
      let (w, handled, same) = bind-ok (handle_packet e packet v) _ h in
      let (u, dispatched, controlled) = bind-ok (dispatch e packet v) _ handled in
      let w_is : control packet u ≡ w = cc in
      let r_is : w ≡ r.1 = cc in
      let a = dispatch-Same v u e packet dispatched in
      let b = control-Same u w packet w_is in
      subst (Same v) r_is (record { sys = b.sys ∙ a.sys; descriptor = b.descriptor ∙ a.descriptor })
  after_arrival-Same Arrival.header_closed r h = ground arith
  after_arrival-Same Arrival.header_failed r h = ground arith
  after_arrival-Same Arrival.body_closed r h = ground arith
  after_arrival-Same Arrival.body_failed r h = ground arith
  after_arrival-Same Arrival.undefined r h = absurd (cc)
  after_arrival-Same Arrival.stuck r h = absurd (cc)

  -- Without a packet the thread ends.
  after_arrival-goes_on :
      (a : Arrival) (r : Verdict × Server K.State)
      → after_arrival K e a v ≡ ok r
      → goes_on r.0 ≡ true
      → (p : Packet) × (a ≡ arrived p)
  after_arrival-goes_on (arrived packet) r h on = (packet, refl)
  after_arrival-goes_on Arrival.header_closed r h on = absurd (ground arith)
  after_arrival-goes_on Arrival.header_failed r h on = absurd (ground arith)
  after_arrival-goes_on Arrival.body_closed r h on = absurd (ground arith)
  after_arrival-goes_on Arrival.body_failed r h on = absurd (ground arith)
  after_arrival-goes_on Arrival.undefined r h on = absurd (cc)
  after_arrival-goes_on Arrival.stuck r h on = absurd (cc)

module _ (K : Kernel) (fd : ℤ) (S : IsStream K fd) where
  abbrev pub server_pending : Server K.State → List ℕ
  server_pending v = S.pending v.proc.sys

  abbrev pub server_written : Server K.State → List ℕ
  server_written v = S.written v.proc.sys

  -- The stream is the connection's.
  abbrev pub ServerOn : Server K.State → Type 0
  ServerOn v = v.communication_socket_fd ≡ fd

  abbrev pub connected_server : ByteOrder → Program (Server K.State)
  connected_server e = undisturbed (server_program K e) server_pending server_written

module _ (K : Kernel) (fd : ℤ) (S : IsStream K fd) (R : IsReliable K fd S) (e : ByteOrder) where
  on_server :
      (n : ℕ) (ls : List (List ℕ)) (v v' : Server K.State)
      → ServerOn K fd S v' × Puts S.pending S.written e n ls v.proc.sys v'.proc.sys
      → ServerOn K fd S v' × Puts (server_pending K fd S) (server_written K fd S) e n ls v v'
  on_server n ls v v' (g, h) = (
    g,
    record { unread = h.unread; packets = h.packets; put = h.put; few = h.few; texts = h.texts },
  )

  handle-Puts :
      (v v' : Server K.State)
      → ServerOn K fd S v
      → Same v v'
      → ServerOn K fd S v' × Puts (server_pending K fd S) (server_written K fd S) e 0 [] v v'
  handle-Puts v v' g same = (
    same.descriptor ∙ g,
    Puts-none (server_pending K fd S) (server_written K fd S) e 0 v v' (ap S.pending same.sys)
        (ap S.written same.sys),
  )

  pub server_program-IsPeer :
      IsPeer
        (connected_server K fd S e)
        (server_pending K fd S)
        (server_written K fd S)
        e
        server_accepts
        (ServerOn K fd S)
  unfolding server_program
  server_program-IsPeer = record {
    line = λ ctl s s' r h g.
        on_server (server_accepts s) [] s s' (take_line-Does K fd S R e ctl s s' r g h);
    send_file = λ s g. on_server 0 [] s (send_pending K e s) (send_pending-Does K fd S R e s g);
    send_line = λ text s g.
        on_server 0 (if goes_on (send_line K e text s).0 then text ∷ [] else []) s
          (send_line K e text s).1 (send_line-Puts K fd S R e text s g);
    read = λ s g. (
      g,
      subst (λ d. S.written (read_frame K e d s.proc.sys).1 ≡ S.written s.proc.sys) (sym g)
          (read_frame-written K e fd S R s.proc.sys),
    );
    takes = λ sender ps s p g short h came.
        read_frame-Takes K fd S e s.communication_socket_fd sender ps s.proc.sys p g short h came;
    handle = λ a s s' go h g.
        let (r, came, same) = bind-ok (after_arrival K e a s) _ h in
        let last : r.1 ≡ s' = cc in
        handle-Puts s s' g (subst (Same s) last (after_arrival-Same K e s a r came));
    goes_on_after = λ a s s' h.
        let (r, came, same) = bind-ok (after_arrival K e a s) _ h in
        let on : goes_on r.0 ≡ true = cc in after_arrival-goes_on K e s a r came on;
    world = λ s s' ((p, outside, same), unread, unwritten) g.
        ap (λ (v : Server K.State). v.communication_socket_fd) same ∙ g;
  }
