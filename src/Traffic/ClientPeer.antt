-- ===== src/Traffic/ClientPeer.antt =====
-- The client as one end of a connection that works until it is shut (src/ClientMod.cpp).
use wire_send.Common.{
  ℕ, ◌≡◌, refl, sym, ap, ◌∙◌, subst, List, arith, ◌==◌, ◌&&◌, if◌then◌else◌, Bool, true, false, ℤ,
  [], ◌∷◌,
}
use wire_send.Common.Outcome.{Outcome, ok, ◌>>=◌, bind-ok}
use wire_send.Wire.{Packet, value, file_neg, cancel_trans, end_connection}
use wire_send.Wire.Memory.{ByteOrder}
use wire_send.Net.{Kernel, IsStream}
use wire_send.Net.Reliable.{IsReliable}
use wire_send.Net.Frame.{Arrival, arrived, read_frame}
use wire_send.Process.{Process, Notice, PendingIncomingFileRequest, Verdict, goes_on}
use wire_send.Transfer.{recv_file}
use wire_send.Client.{
  on_closed, on_failed, close_connection, terminate_connection, notify, set_neg, set_active, Client,
  dispatch, receiving, received_part, control, handle_packet, after_arrival,
}
use wire_send.Client.Input.{send_pending, send_line}
use wire_send.Threads.{Program}
use wire_send.Client.Program.{goes_again, client_program}
use wire_send.Traffic.{Puts, Puts-none}
use wire_send.Traffic.Files.{recv_file-sys}
use wire_send.Traffic.Reading.{read_frame-written}
use wire_send.Traffic.Peer.{IsPeer, read_frame-Takes, undisturbed}
use wire_send.Traffic.ClientCalls.{client_accepts}
use wire_send.Traffic.ClientLines.{take_line-Does, send_pending-Does, send_line-Puts}

-- The connection and its descriptor are as they were.
record Same {System : Type 0} (v v' : Client System) : Type 0 where
  sys : v'.proc.sys ≡ v.proc.sys
  descriptor : v'.sockfd ≡ v.sockfd

module _ {System : Type 0} (v v' : Client System) where
  received_part-Same :
      (o : Outcome (ℤ × PendingIncomingFileRequest × Process System))
      → ((flag : ℤ) (r : PendingIncomingFileRequest) (p : Process System)
          → o ≡ ok (flag, r, p)
          → p.sys ≡ v.proc.sys)
      → (o >>= λ r. ok (received_part (receiving v) r)) ≡ ok v'
      → Same v v'
  received_part-Same (ok (flag, r, p)) same h = ground (arith, same flag r p refl)
  received_part-Same Outcome.terminated same h = absurd (cc)
  received_part-Same Outcome.undefined same h = absurd (cc)
  received_part-Same Outcome.hangs same h = absurd (cc)

  dispatch-Same : (e : ByteOrder) (packet : Packet) → dispatch e packet v ≡ ok v' → Same v v'
  unfolding dispatch
  dispatch-Same e packet h = ground (
    arith,
    received_part-Same (recv_file packet v.incoming v.proc)
        (λ flag r p. recv_file-sys packet v.incoming r v.proc p flag),
  )

-- The connection is as it was, but that it may have been shut.
module _ (K : Kernel) (fd : ℤ) (S : IsStream K fd) (R : IsReliable K fd S) where
  record Shuts (v v' : Client K.State) : Type 0 where
    unread : S.pending v'.proc.sys ≡ S.pending v.proc.sys
    unwritten : S.written v'.proc.sys ≡ S.written v.proc.sys
    descriptor : v'.sockfd ≡ v.sockfd

  control-Shuts : (packet : Packet) (v : Client K.State) → Shuts v (control K packet v)
  unfolding control terminate_connection
  control-Shuts packet v =
      let (p, w) = R.close_keeps v.sockfd v.proc.sys in
      Shuts-if (packet.pl_ctl == value end_connection) v
        (record (terminate_connection K v) { client_connected = false })
        (if packet.pl_ctl == value cancel_trans && packet.pl_type == value file_neg
          then notify Notice.request_cancelled (set_neg false (set_active false v))
          else v)
        (record { unread = p; unwritten = w; descriptor = refl })
        (Shuts-if (packet.pl_ctl == value cancel_trans && packet.pl_type == value file_neg) v
          (notify Notice.request_cancelled (set_neg false (set_active false v))) v
          (record { unread = refl; unwritten = refl; descriptor = refl })
          (record { unread = refl; unwritten = refl; descriptor = refl }))
    where
      Shuts-if :
          (b : Bool) (v x y : Client K.State) → Shuts v x → Shuts v y → Shuts v (if b then x else y)
      Shuts-if true v x y h k = h
      Shuts-if false v x y h k = k

  on_closed-Shuts : (v : Client K.State) → Shuts v (on_closed K v)
  unfolding on_closed close_connection
  on_closed-Shuts v =
      let (p, w) = R.shutdown_read_keeps v.sockfd v.proc.sys in
      record { unread = p; unwritten = w; descriptor = refl }

  on_failed-Shuts : (v : Client K.State) → Shuts v (on_failed K v)
  unfolding on_failed terminate_connection
  on_failed-Shuts v =
      let (p, w) = R.close_keeps v.sockfd v.proc.sys in
      record { unread = p; unwritten = w; descriptor = refl }

  after_arrival-Shuts :
      (e : ByteOrder) (v : Client K.State) (a : Arrival) (r : Verdict × Client K.State)
      → after_arrival K e a v ≡ ok r
      → Shuts v r.1
  unfolding handle_packet
  after_arrival-Shuts e v (arrived packet) r h =
      let (w, handled, same) = bind-ok (handle_packet K e packet v) _ h in
      let (u, dispatched, controlled) = bind-ok (dispatch e packet v) _ handled in
      let last : control K packet u ≡ r.1 = cc in
      let a = dispatch-Same v u e packet dispatched in
      let b = control-Shuts packet u in
      subst (Shuts v) last (record {
        unread = b.unread ∙ ap S.pending a.sys;
        unwritten = b.unwritten ∙ ap S.written a.sys;
        descriptor = b.descriptor ∙ a.descriptor;
      })
  after_arrival-Shuts e v Arrival.header_closed r h =
      let same : on_closed K v ≡ r.1 = cc in subst (Shuts v) same (on_closed-Shuts v)
  after_arrival-Shuts e v Arrival.header_failed r h =
      let same : on_failed K v ≡ r.1 = cc in subst (Shuts v) same (on_failed-Shuts v)
  after_arrival-Shuts e v Arrival.body_closed r h =
      let same : on_closed K v ≡ r.1 = cc in subst (Shuts v) same (on_closed-Shuts v)
  after_arrival-Shuts e v Arrival.body_failed r h =
      let same : on_failed K v ≡ r.1 = cc in subst (Shuts v) same (on_failed-Shuts v)
  after_arrival-Shuts e v Arrival.undefined r h = absurd (cc)
  after_arrival-Shuts e v Arrival.stuck r h = absurd (cc)

module _ (K : Kernel) (e : ByteOrder) (v : Client K.State) where
  -- Without a packet the thread ends.
  after_arrival-goes_on :
      (a : Arrival) (r : Verdict × Client K.State)
      → after_arrival K e a v ≡ ok r
      → goes_on r.0 ≡ true
      → (p : Packet) × (a ≡ arrived p)
  after_arrival-goes_on (arrived packet) r h on = (packet, refl)
  after_arrival-goes_on Arrival.header_closed r h on = absurd (ground arith)
  after_arrival-goes_on Arrival.header_failed r h on = absurd (ground arith)
  after_arrival-goes_on Arrival.body_closed r h on = absurd (ground arith)
  after_arrival-goes_on Arrival.body_failed r h on = absurd (ground arith)
  after_arrival-goes_on Arrival.undefined r h on = absurd (cc)
  after_arrival-goes_on Arrival.stuck r h on = absurd (cc)

module _ (K : Kernel) (fd : ℤ) (S : IsStream K fd) where
  abbrev pub client_pending : Client K.State → List ℕ
  client_pending v = S.pending v.proc.sys

  abbrev pub client_written : Client K.State → List ℕ
  client_written v = S.written v.proc.sys

  -- The stream is the connection's.
  abbrev pub ClientOn : Client K.State → Type 0
  ClientOn v = v.sockfd ≡ fd

  abbrev pub connected_client : ByteOrder → Program (Client K.State)
  connected_client e = undisturbed (client_program K e) client_pending client_written

module _ (K : Kernel) (fd : ℤ) (S : IsStream K fd) (R : IsReliable K fd S) (e : ByteOrder) where
  on_client :
      (n : ℕ) (ls : List (List ℕ)) (v v' : Client K.State)
      → ClientOn K fd S v' × Puts S.pending S.written e n ls v.proc.sys v'.proc.sys
      → ClientOn K fd S v' × Puts (client_pending K fd S) (client_written K fd S) e n ls v v'
  on_client n ls v v' (g, h) = (
    g,
    record { unread = h.unread; packets = h.packets; put = h.put; few = h.few; texts = h.texts },
  )

  handle-Puts :
      (v v' : Client K.State)
      → ClientOn K fd S v
      → Shuts K fd S R v v'
      → ClientOn K fd S v' × Puts (client_pending K fd S) (client_written K fd S) e 0 [] v v'
  handle-Puts v v' g same = (
    same.descriptor ∙ g,
    Puts-none (client_pending K fd S) (client_written K fd S) e 0 v v' same.unread same.unwritten,
  )

  pub client_program-IsPeer :
      IsPeer
        (connected_client K fd S e)
        (client_pending K fd S)
        (client_written K fd S)
        e
        client_accepts
        (ClientOn K fd S)
  unfolding client_program
  client_program-IsPeer = record {
    line = λ ctl s s' r h g.
        on_client (client_accepts s) [] s s' (take_line-Does K fd S R e s s' r g h);
    send_file = λ s g. on_client 0 [] s (send_pending K e s) (send_pending-Does K fd S R e s g);
    send_line = λ text s g.
        on_client 0 (if goes_again K e (send_line K e text s).0 then text ∷ [] else []) s
          (send_line K e text s).1 (send_line-Puts K fd S R e text s g);
    read = λ s g. (
      g,
      subst (λ d. S.written (read_frame K e d s.proc.sys).1 ≡ S.written s.proc.sys) (sym g)
          (read_frame-written K e fd S R s.proc.sys),
    );
    takes = λ sender ps s p g short h came.
        read_frame-Takes K fd S e s.sockfd sender ps s.proc.sys p g short h came;
    handle = λ a s s' go h g.
        let (r, came, same) = bind-ok (after_arrival K e a s) _ h in
        let last : r.1 ≡ s' = cc in
        handle-Puts s s' g
          (subst (Shuts K fd S R s) last (after_arrival-Shuts K fd S R e s a r came));
    goes_on_after = λ a s s' h.
        let (r, came, same) = bind-ok (after_arrival K e a s) _ h in
        let on : goes_on r.0 ≡ true = cc in after_arrival-goes_on K e s a r came on;
    world = λ s s' ((p, outside, same), unread, unwritten) g.
        ap (λ (v : Client K.State). v.sockfd) same ∙ g;
  }
