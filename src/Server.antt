-- ===== src/Server.antt =====
-- src/ServerMod.cpp and headers/ServerMod.hpp: the server's globals and its receiving thread. Each
-- function takes the state and returns the new one.
pub mod Input
pub mod Receiving
pub mod Protocol
pub mod Running
pub mod Run
pub mod Setup
pub mod Program
pub mod Invariant
pub mod Talk
pub mod Refinement
pub mod Interface
pub mod Starting
use wire_send.Common.{
  ℕ, zero, suc, List, Bool, true, false, not, ◌&&◌, ◌||◌, Option, none, some, ℤ, pos, negsuc,
  is_negative, ◌==◌, if◌then◌else◌,
}
use wire_send.Common.Outcome.{Outcome, ok, undefined, hangs, ◌>>=◌}
use wire_send.Wire.{
  Packet, value, message, file_transfer, file_neg, file_begin, file_chunk, file_end, no_arg,
  file_accept, file_reject, cancel_trans, end_connection, deserialize_file_metadata_packet,
}
use wire_send.Wire.Memory.{ByteOrder}
use wire_send.Net.{Kernel}
use wire_send.Net.Sockets.{BaseConnection}
use wire_send.Net.Frame.{
  Arrival, arrived, header_closed, header_failed, body_closed, body_failed, read_frame,
}
use wire_send.Process.{
  PendingIncomingFileRequest, PendingOutgoingFileRequest, Process, Notice, say, c_str, Verdict,
  go_on, leave, return_error, defined,
}
use wire_send.Transfer.{recv_file}

-- The listening socket, and its port.
pub record ServerInstance : Type 0 where
  pub base : BaseConnection
  pub open base use {sockfd}
  pub serv_port : ℕ

pub record Server (System : Type 0) : Type 0 where
  pub proc : Process System
  pub endpoint : ServerInstance
  pub open endpoint use {base, sockfd, serv_port}
  pub communication_socket_fd : ℤ
  pub server_connected : Bool
  pub client_count : ℤ
  pub incoming : PendingIncomingFileRequest
  pub outgoing : PendingOutgoingFileRequest
  pub file_recv_in_progress : Bool
  pub file_send_in_progress : Bool

-- `count--`
abbrev decrement : ℤ → ℤ
decrement (pos zero) = negsuc 0
decrement (pos (suc n)) = pos n
decrement (negsuc n) = negsuc (suc n)

-- `count++`
abbrev pub increment : ℤ → ℤ
increment (pos n) = pos (suc n)
increment (negsuc zero) = pos 0
increment (negsuc (suc n)) = negsuc n

abbrev pub is_file_packet : ℕ → Bool
is_file_packet t =
    t == value file_transfer
    || t == value file_begin
    || t == value file_chunk
    || t == value file_end

module _ {System : Type 0} where
  abbrev pub notify : Notice → Server System → Server System
  notify n v = record v { proc = say n v.proc }

  abbrev pub set_active : Bool → Server System → Server System
  set_active b v = record v { incoming = record v.incoming { active = b } }

  abbrev pub set_neg : Bool → Server System → Server System
  set_neg b v = record v { proc = record v.proc { active_file_neg_req = b } }

  -- The peer closed the connection.
  abbrev dropped : Server System → Server System
  dropped v = record v { client_count = decrement v.client_count; server_connected = false }

  -- While a part of a file is taken in.
  abbrev pub receiving : Server System → Server System
  receiving v = record v { file_recv_in_progress = true }

  abbrev pub received_part :
      Server System → ℤ × PendingIncomingFileRequest × Process System → Server System
  received_part v (flag, r, p) = record v {
    proc = if is_negative flag then say Notice.recv_file_failed p else p;
    incoming = r;
    file_recv_in_progress = false;
  }

  -- The chain of tests on the type and the control byte of a packet.
  unfoldable pub dispatch : ByteOrder → Packet → Server System → Outcome (Server System)
  dispatch e packet v =
      let neg = packet.pl_type == value file_neg in
      let asked = v.proc.active_file_neg_req in
      if packet.pl_type == value message
      then ok (notify (Notice.peer_says (c_str packet.pl_body)) v)
      else if neg && packet.pl_ctl == value no_arg && not asked
      then (defined (deserialize_file_metadata_packet e packet.pl_body) >>= λ meta. ok (
          notify (Notice.incoming_request meta)
            (record v { incoming = record v.incoming { active = true; metadata = meta } })))
      else if neg && packet.pl_ctl == value file_accept && asked
      then ok
          (notify Notice.peer_accepted (record (set_neg false v) { file_send_in_progress = true }))
      else if neg && packet.pl_ctl == value file_reject && asked
      then ok (notify Notice.peer_rejected (set_active false (set_neg false v)))
      else if is_file_packet packet.pl_type && v.incoming.active
      then (recv_file packet v.incoming v.proc >>= λ r. ok (received_part (receiving v) r))
      else ok v

  -- `switch (MessagePacket.PL_CTL)`
  unfoldable pub control : Packet → Server System → Server System
  control packet v =
      if packet.pl_ctl == value end_connection
      then notify Notice.client_left v
      else if packet.pl_ctl == value cancel_trans && packet.pl_type == value file_neg
      then notify Notice.request_cancelled (set_active false v)
      else v

  unfoldable pub handle_packet : ByteOrder → Packet → Server System → Outcome (Server System)
  unfolding dispatch control
  handle_packet e packet v = dispatch e packet v >>= λ v'. ok (control packet v')

module _ (K : Kernel) (e : ByteOrder) where
  abbrev pub after_arrival : Arrival → Server K.State → Outcome (Verdict × Server K.State)
  after_arrival (arrived packet) v = handle_packet e packet v >>= λ v'. ok (go_on, v')
  after_arrival header_closed v = ok (leave, dropped v)
  after_arrival header_failed v = ok (return_error, v)
  after_arrival body_closed v = ok (leave, dropped v)
  after_arrival body_failed v = ok (leave, v)
  after_arrival Arrival.undefined v = undefined
  after_arrival Arrival.stuck v = hangs

  -- One round of `RunRecvThread`.
  unfoldable pub recv_round : Server K.State → Outcome (Verdict × Server K.State)
  unfolding handle_packet
  recv_round v =
      let r = read_frame K e v.communication_socket_fd v.proc.sys in
      after_arrival r.0 (record v { proc = record v.proc { sys = r.1 } })

  abbrev thread_next :
      Verdict
      → Server K.State
      → (Server K.State → Outcome (Verdict × Server K.State))
      → Outcome (Verdict × Server K.State)
  thread_next go_on v next = next v
  thread_next leave v next = ok (leave, v)
  thread_next return_error v next = ok (return_error, v)

  -- `RunRecvThread`, for `rounds` rounds at most: `go_on` says that it would read on.
  unfoldable pub recv_thread : ℕ → Server K.State → Outcome (Verdict × Server K.State)
  recv_thread zero v = ok (go_on, v)
  recv_thread (suc rounds) v =
      let more = recv_round v >>= λ r. thread_next r.0 r.1 λ v'. recv_thread rounds v' in
      if v.server_connected then more else ok (leave, v)
