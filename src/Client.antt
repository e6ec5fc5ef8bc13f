-- ===== src/Client.antt =====
-- src/ClientMod.cpp and headers/ClientMod.hpp: the client's globals and its receiving thread. Each
-- function takes the state and returns the new one.
pub mod Input
pub mod Receiving
pub mod Protocol
pub mod Run
pub mod Setup
pub mod Program
pub mod Invariant
pub mod Talk
pub mod Refinement
pub mod Interface
pub mod Starting
use wire_send.Common.{
  ℕ, zero, suc, List, Bool, true, false, not, ◌&&◌, ◌||◌, Option, none, some, ℤ, is_negative, ◌==◌,
  if◌then◌else◌,
}
use wire_send.Common.Outcome.{Outcome, ok, undefined, hangs, ◌>>=◌}
use wire_send.Wire.{
  Packet, value, message, message_broadcast, file_transfer, file_neg, file_begin, file_chunk,
  file_end, no_arg, file_accept, file_reject, cancel_trans, end_connection,
  deserialize_file_metadata_packet,
}
use wire_send.Wire.Memory.{ByteOrder}
use wire_send.Net.{Kernel}
use wire_send.Net.Sockets.{BaseConnection}
use wire_send.Net.Frame.{
  Arrival, arrived, header_closed, header_failed, body_closed, body_failed, read_frame,
}
use wire_send.Process.{
  PendingIncomingFileRequest, PendingOutgoingFileRequest, Process, Notice, say, c_str, Verdict,
  go_on, leave, return_error, defined,
}
use wire_send.Transfer.{recv_file}

-- The connection to the server, and the server's port.
pub record ClientInstance : Type 0 where
  pub base : BaseConnection
  pub open base use {sockfd}
  pub serv_port : ℕ

pub record Client (System : Type 0) : Type 0 where
  pub proc : Process System
  pub endpoint : ClientInstance
  pub open endpoint use {base, sockfd, serv_port}
  pub client_connected : Bool
  pub incoming : PendingIncomingFileRequest
  pub outgoing : PendingOutgoingFileRequest
  pub file_recv_in_progress : Bool
  pub file_send_in_progress : Bool

abbrev pub is_file_packet : ℕ → Bool
is_file_packet t =
    t == value file_transfer
    || t == value file_begin
    || t == value file_chunk
    || t == value file_end

module _ {System : Type 0} where
  abbrev pub notify : Notice → Client System → Client System
  notify n v = record v { proc = say n v.proc }

  abbrev pub set_active : Bool → Client System → Client System
  set_active b v = record v { incoming = record v.incoming { active = b } }

  abbrev pub set_neg : Bool → Client System → Client System
  set_neg b v = record v { proc = record v.proc { active_file_neg_req = b } }

  -- While a part of a file is taken in.
  abbrev pub receiving : Client System → Client System
  receiving v = record v { file_recv_in_progress = true }

  abbrev pub received_part :
      Client System → ℤ × PendingIncomingFileRequest × Process System → Client System
  received_part v (flag, r, p) = record v {
    proc = if is_negative flag then say Notice.recv_file_failed p else p;
    incoming = r;
    file_recv_in_progress = false;
  }

  -- The chain of tests on the type and the control byte of a packet.
  unfoldable pub dispatch : ByteOrder → Packet → Client System → Outcome (Client System)
  dispatch e packet v =
      let neg = packet.pl_type == value file_neg in
      let asked = v.proc.active_file_neg_req in
      let text = c_str packet.pl_body in
      if packet.pl_type == value message
      then ok (notify (Notice.peer_says text) v)
      else if packet.pl_type == value message_broadcast
      then ok (notify (Notice.peer_says text) (notify (Notice.broadcast_says text) v))
      else if neg && packet.pl_ctl == value no_arg && not asked
      then (defined (deserialize_file_metadata_packet e packet.pl_body) >>= λ meta. ok (
          notify (Notice.incoming_request meta)
            (record v { incoming = record v.incoming { active = true; metadata = meta } })))
      else if neg && packet.pl_ctl == value file_accept && asked
      then ok
          (notify Notice.peer_accepted (record (set_neg false v) { file_send_in_progress = true }))
      else if neg && packet.pl_ctl == value file_reject && asked
      then ok (notify Notice.peer_rejected (set_active false (set_neg false v)))
      else if is_file_packet packet.pl_type
      then (recv_file packet v.incoming v.proc >>= λ r. ok (received_part (receiving v) r))
      else ok v

module _ (K : Kernel) where
  abbrev pub with_sys : K.State → Client K.State → Client K.State
  with_sys s v = record v { proc = record v.proc { sys = s } }

  -- `TerminateConnection`
  unfoldable pub terminate_connection : Client K.State → Client K.State
  terminate_connection v =
      with_sys (K.close v.sockfd v.proc.sys) (record v { client_connected = false })

  -- `CloseConnection`
  unfoldable pub close_connection : Client K.State → Client K.State
  close_connection v =
      notify Notice.connection_closed
        (with_sys (K.shutdown_read v.sockfd v.proc.sys) (record v { client_connected = false }))

  abbrev stop_running : Client K.State → Client K.State
  stop_running v = record v { proc = record v.proc { program_running = false } }

  -- `switch (MessagePacket.PL_CTL)`
  unfoldable pub control : Packet → Client K.State → Client K.State
  unfolding terminate_connection
  control packet v =
      if packet.pl_ctl == value end_connection
      then record (terminate_connection v) { client_connected = false }
      else if packet.pl_ctl == value cancel_trans && packet.pl_type == value file_neg
      then notify Notice.request_cancelled (set_neg false (set_active false v))
      else v

  unfoldable pub handle_packet : ByteOrder → Packet → Client K.State → Outcome (Client K.State)
  unfolding dispatch control
  handle_packet e packet v = dispatch e packet v >>= λ v'. ok (control packet v')

  -- The end of the stream, and a failed read.
  unfoldable pub on_closed : Client K.State → Client K.State
  unfolding close_connection
  on_closed v = record (stop_running (close_connection v)) { client_connected = false }

  unfoldable pub on_failed : Client K.State → Client K.State
  unfolding terminate_connection
  on_failed v = stop_running (terminate_connection (notify Notice.terminating v))

  abbrev pub after_arrival :
      ByteOrder → Arrival → Client K.State → Outcome (Verdict × Client K.State)
  after_arrival e (arrived packet) v = handle_packet e packet v >>= λ v'. ok (go_on, v')
  after_arrival e header_closed v = ok (leave, on_closed v)
  after_arrival e header_failed v = ok (leave, on_failed v)
  after_arrival e body_closed v = ok (leave, on_closed v)
  after_arrival e body_failed v = ok (leave, on_failed v)
  after_arrival e Arrival.undefined v = undefined
  after_arrival e Arrival.stuck v = hangs

  -- One round of `RunRecvThread`.
  unfoldable pub recv_round : ByteOrder → Client K.State → Outcome (Verdict × Client K.State)
  unfolding handle_packet on_closed on_failed
  recv_round e v =
      let r = read_frame K e v.sockfd v.proc.sys in after_arrival e r.0 (with_sys r.1 v)

  abbrev thread_next :
      Verdict
      → Client K.State
      → (Client K.State → Outcome (Verdict × Client K.State))
      → Outcome (Verdict × Client K.State)
  thread_next go_on v next = next v
  thread_next leave v next = ok (leave, v)
  thread_next return_error v next = ok (return_error, v)

  -- `RunRecvThread`, for `rounds` rounds at most: `go_on` says that it would read on.
  unfoldable pub recv_thread : ByteOrder → ℕ → Client K.State → Outcome (Verdict × Client K.State)
  recv_thread e zero v = ok (go_on, v)
  recv_thread e (suc rounds) v =
      let more = recv_round e v >>= λ r. thread_next r.0 r.1 λ v'. recv_thread e rounds v' in
      if v.client_connected then more else ok (leave, v)
