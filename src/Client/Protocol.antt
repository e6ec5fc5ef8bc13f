-- ===== src/Client/Protocol.antt =====
-- How a packet changes the client's part of the negotiation.
use wire_send.Common.{◌≡◌, subst, Bool, true, false, ◌&&◌, arith, ◌==◌, if◌then◌else◌}
use wire_send.Common.Outcome.{ok, undefined, bind-ok}
use wire_send.Wire.{Packet, value, file_neg, no_arg, file_accept, end_connection}
use wire_send.Wire.Memory.{ByteOrder}
use wire_send.Wire.Metadata.{IsComplete, deserialize_metadata_incomplete}
use wire_send.Net.{Kernel}
use wire_send.Client.{Client, dispatch, control, handle_packet}

-- What a packet does to the connection, and when the client starts to send.
pub record ClientKeeps {System : Type 0} (packet : Packet) (v v' : Client System) : Type 0 where
  pub connection :
      v'.client_connected
      ≡ (if packet.pl_ctl == value end_connection then false else v.client_connected)
  pub descriptor : v'.sockfd ≡ v.sockfd
  pub sending : v'.file_send_in_progress ≡ (
      if packet.pl_type == value file_neg
        && packet.pl_ctl == value file_accept
        && v.proc.active_file_neg_req
      then true
      else v.file_send_in_progress)

-- The same, where the connection is still up.
record Up {System : Type 0} (v v' : Client System) : Type 0 where
  up : v'.client_connected ≡ v.client_connected
  descriptor : v'.sockfd ≡ v.sockfd

abbrev starts : {System : Type 0} → Packet → Client System → Bool
starts packet v =
    if packet.pl_type == value file_neg
      && packet.pl_ctl == value file_accept
      && v.proc.active_file_neg_req
    then true
    else v.file_send_in_progress

module _ {System : Type 0} (e : ByteOrder) (packet : Packet) (v v' : Client System) where
  dispatch-Up : dispatch e packet v ≡ ok v' → Up v v'
  unfolding dispatch
  dispatch-Up h = ground arith

  dispatch-starts : dispatch e packet v ≡ ok v' → v'.file_send_in_progress ≡ starts packet v
  unfolding dispatch
  dispatch-starts h = ground arith

module _ (K : Kernel) (e : ByteOrder) (packet : Packet) (v : Client K.State) where
  control-ClientKeeps :
      (u : Client K.State)
      → Up v u
      → u.file_send_in_progress ≡ starts packet v
      → ClientKeeps packet v (control K packet u)
  unfolding control
  control-ClientKeeps u k s = ground arith

  -- Whatever the packet, if the client handles it at all: the connection's flag becomes false if
  -- the control byte is that of the end of a connection, of whatever type the packet is, and else
  -- stays; the descriptor stays; and the flag that a file is to be sent becomes true if the
  -- packet accepts a negotiation and one is open, and else stays as it was.
  pub handle_packet-ClientKeeps :
      (v' : Client K.State) → handle_packet K e packet v ≡ ok v' → ClientKeeps packet v v'
  unfolding handle_packet
  handle_packet-ClientKeeps v' h =
      let (u, dispatched, controlled) = bind-ok (dispatch e packet v) _ h in
      let same : control K packet u ≡ v' = cc in
      subst (ClientKeeps packet v) same (
        control-ClientKeeps u (dispatch-Up e packet v u dispatched)
          (dispatch-starts e packet v u dispatched))

  -- While the client has no negotiation of its own open, a request with no control flag whose
  -- body is too short for what it announces makes the client read beyond the body.
  pub client_handle_packet-malformed :
      packet.pl_type ≡ value file_neg
      → packet.pl_ctl ≡ value no_arg
      → v.proc.active_file_neg_req ≡ false
      → ¬ IsComplete e packet.pl_body
      → handle_packet K e packet v ≡ undefined
  unfolding handle_packet
  client_handle_packet-malformed t c quiet short =
      ground (arith, deserialize_metadata_incomplete e packet.pl_body short)
