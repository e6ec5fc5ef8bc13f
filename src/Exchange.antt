-- ===== src/Exchange.antt =====
-- A file from one program to the other, over both connections: `SendFile` in the input loop of the
-- one, `RecvFile` in the receiving thread of the other.
pub mod Chat
pub mod Offer
pub mod Acceptance
pub mod Round
pub mod Roles
use wire_send.Common.{
  ℕ, suc, ◌+◌, ◌≡◌, refl, sym, ap, ◌∙◌, List, ◌++◌, Bool, true, false, Option, some, ℤ, pos, length,
  append-cancel_left, subst,
}
use wire_send.Wire.Memory.{ByteOrder}
use wire_send.Net.{Kernel, IsStream, IsHealthy}
use wire_send.Files.{entry_at, regular}
use wire_send.Process.{Process, PendingOutgoingFileRequest, Notice, say}
use wire_send.Transfer.Sending.{send_file_healthy, wire, file_packets}
use wire_send.Transfer.Receiving.{IsFresh, IsWriting}
use wire_send.Transfer.{send_file}
use wire_send.Server.{Server}
use wire_send.Server
use wire_send.Client.{Client}
use wire_send.Client

-- What a sender's program has for a file that goes out.
pub record IsReady {System : Type 0} (bytes : List ℕ) (r : PendingOutgoingFileRequest)
    (p : Process System) : Type 0 where
  pub there : entry_at p.disk r.file_path_on_src ≡ some (regular bytes)
  pub allowed : p.disk.can_read r.file_path_on_src ≡ true

module _ (K : Kernel) (e : ByteOrder) (fd : ℤ) where
  -- A file that was sent whole clears the flag and is reported.
  server_pending :
      (v : Server K.State) (s : K.State)
      → v.communication_socket_fd ≡ fd
      → v.file_send_in_progress ≡ true
      → send_file K e fd v.outgoing v.proc ≡ (pos 0, record v.proc { sys = s })
      → Server.Input.send_pending K e v ≡ record v {
        proc = say Notice.sent_the_file (record v.proc { sys = s });
        file_send_in_progress = false;
      }
  unfolding Server.Input.send_pending
  server_pending v s same accepted run = simp (accepted, same, run)

  client_pending :
      (v : Client K.State) (s : K.State)
      → v.sockfd ≡ fd
      → v.file_send_in_progress ≡ true
      → send_file K e fd v.outgoing v.proc ≡ (pos 0, record v.proc { sys = s })
      → Client.Input.send_pending K e v ≡ record v {
        proc = say Notice.sent_the_file (record v.proc { sys = s });
        file_send_in_progress = false;
      }
  unfolding Client.Input.send_pending
  client_pending v s same accepted run = simp (accepted, same, run)

module _ (KS : Kernel) (es : ByteOrder) (fs : ℤ) (SS : IsStream KS fs) (HS : IsHealthy KS fs SS)
    (KC : Kernel) (ec : ByteOrder) (fc : ℤ) (SC : IsStream KC fc) (HC : IsHealthy KC fc SC) where
  -- Over two healthy connections: if the server's accepted request names a readable regular file
  -- with some bytes, and what `send_pending` writes for it is, with any rest behind it, what the
  -- client's stream holds, and the client's thread is up with a request for which the folder has
  -- the space, nothing stands at the path and one may write there, then after some number of
  -- rounds the client's receiving thread reads on, the file at the path holds exactly those
  -- bytes, every other path is as it was, just what was sent is taken from the stream, and the
  -- screen has one new notice, that the file was received. The two hosts may have different byte
  -- orders.
  pub server_to_client :
      (v : Server KS.State) (w : Client KC.State) (bytes sent_bytes rest : List ℕ) (available : ℕ)
      → v.communication_socket_fd ≡ fs
      → v.file_send_in_progress ≡ true
      → IsReady bytes v.outgoing v.proc
      → SS.written (Server.Input.send_pending KS es v).proc.sys
        ≡ SS.written v.proc.sys ++ sent_bytes
      → Client.Receiving.IsListening fc w
      → IsFresh w.incoming available w.proc.disk
      → SC.pending w.proc.sys ≡ sent_bytes ++ rest
      → (rounds : ℕ) × Client.Receiving.Delivered KC ec fc SC HC es w.incoming.file_path_on_target
          bytes rest w
          (Client.recv_thread KC ec rounds w)
  server_to_client v w bytes sent_bytes rest available same accepted ready link l f h =
      let (cs, s, run, out, all, pieces) =
        send_file_healthy KS es fs SS HS v.outgoing v.proc bytes ready.there ready.allowed in
      let sent_it = server_pending KS es fs v s same accepted run in
      let same_bytes =
        append-cancel_left (SS.written v.proc.sys) sent_bytes (wire es (file_packets cs))
          (sym link ∙ ap SS.written (ap (λ (u : Server KS.State). u.proc.sys) sent_it) ∙ out) in
      let (w', out', written_all, rest_of_disk, left, told) =
        Client.Receiving.recv_thread-Delivered KC ec fc SC HC es cs rest available w l pieces f
          (h ∙ ap (λ bs. bs ++ rest) same_bytes) in
      (
        suc (suc (length cs)),
        (
          w',
          out',
          subst (λ bs. IsWriting w.incoming.file_path_on_target bs w'.proc.disk) all written_all,
          rest_of_disk,
          left,
          told,
        ),
      )

  -- In the other direction, over two healthy connections, if the client's accepted request names
  -- a readable regular file with some bytes, and what `send_pending` writes for it is, with any
  -- rest behind it, what the server's stream holds, and the server's thread is up with an active
  -- request for which the folder has the space, nothing stands at the path and one may write
  -- there, then after some number of rounds the server's receiving thread reads on, the file at
  -- the path holds exactly those bytes, every other path is as it was, just what was sent is
  -- taken from the stream, and the screen has one new notice, that the file was received.
  pub client_to_server :
      (v : Client KC.State) (w : Server KS.State) (bytes sent_bytes rest : List ℕ) (available : ℕ)
      → v.sockfd ≡ fc
      → v.file_send_in_progress ≡ true
      → IsReady bytes v.outgoing v.proc
      → SC.written (Client.Input.send_pending KC ec v).proc.sys
        ≡ SC.written v.proc.sys ++ sent_bytes
      → Server.Receiving.IsListening fs w
      → IsFresh w.incoming available w.proc.disk
      → SS.pending w.proc.sys ≡ sent_bytes ++ rest
      → (rounds : ℕ) × Server.Receiving.Delivered KS es fs SS HS ec w.incoming.file_path_on_target
          bytes rest w
          (Server.recv_thread KS es rounds w)
  client_to_server v w bytes sent_bytes rest available same accepted ready link l f h =
      let (cs, s, run, out, all, pieces) =
        send_file_healthy KC ec fc SC HC v.outgoing v.proc bytes ready.there ready.allowed in
      let sent_it = client_pending KC ec fc v s same accepted run in
      let same_bytes =
        append-cancel_left (SC.written v.proc.sys) sent_bytes (wire ec (file_packets cs))
          (sym link ∙ ap SC.written (ap (λ (u : Client KC.State). u.proc.sys) sent_it) ∙ out) in
      let (w', out', written_all, rest_of_disk, left, told) =
        Server.Receiving.recv_thread-Delivered KS es fs SS HS ec cs rest available w l pieces f
          (h ∙ ap (λ bs. bs ++ rest) same_bytes) in
      (
        suc (suc (length cs)),
        (
          w',
          out',
          subst (λ bs. IsWriting w.incoming.file_path_on_target bs w'.proc.disk) all written_all,
          rest_of_disk,
          left,
          told,
        ),
      )
