-- ===== src/Server/Protocol.antt =====
-- How a packet changes the server's part of the negotiation.
use wire_send.Common.{◌≡◌, subst, true, false, ◌&&◌, arith, ◌==◌, if◌then◌else◌}
use wire_send.Common.Outcome.{ok, undefined, bind-ok}
use wire_send.Wire.{Packet, value, file_neg, no_arg, file_accept}
use wire_send.Wire.Memory.{ByteOrder}
use wire_send.Wire.Metadata.{IsComplete, deserialize_metadata_incomplete}
use wire_send.Server.{Server, is_file_packet, dispatch, control, handle_packet}

-- What of the server no packet changes, and when it starts to send.
pub record ServerKeeps {System : Type 0} (packet : Packet) (v v' : Server System) : Type 0 where
  pub connection : v'.server_connected ≡ v.server_connected
  pub descriptor : v'.communication_socket_fd ≡ v.communication_socket_fd
  pub count : v'.client_count ≡ v.client_count
  pub sending : v'.file_send_in_progress ≡ (
      if packet.pl_type == value file_neg
        && packet.pl_ctl == value file_accept
        && v.proc.active_file_neg_req
      then true
      else v.file_send_in_progress)

module _ {System : Type 0} (e : ByteOrder) (packet : Packet) (v v' : Server System) where
  dispatch-ServerKeeps : dispatch e packet v ≡ ok v' → ServerKeeps packet v v'
  unfolding dispatch
  dispatch-ServerKeeps h = ground arith

module _ {System : Type 0} (packet : Packet) (v : Server System) where
  control-ServerKeeps :
      (u : Server System) → ServerKeeps packet u v → ServerKeeps packet u (control packet v)
  unfolding control
  control-ServerKeeps u k = ground arith

module _ {System : Type 0} (e : ByteOrder) (packet : Packet) (v : Server System) where
  -- Whatever the packet, if the server handles it at all: the connection's flag, its descriptor
  -- and the count of clients stay, and the flag that a file is to be sent becomes true if the
  -- packet accepts a negotiation and one is open, and else stays as it was.
  pub handle_packet-ServerKeeps :
      (v' : Server System) → handle_packet e packet v ≡ ok v' → ServerKeeps packet v v'
  unfolding handle_packet
  handle_packet-ServerKeeps v' h =
      let (u, dispatched, controlled) = bind-ok (dispatch e packet v) _ h in
      let same : control packet u ≡ v' = cc in
      subst (ServerKeeps packet v) same
        (control-ServerKeeps packet u v (dispatch-ServerKeeps e packet v u dispatched))

  -- While the server has no active request, a packet of a file's transfer with no control flag
  -- changes nothing of the server, whatever it holds.
  pub handle_packet-unrequested :
      is_file_packet packet.pl_type ≡ true
      → v.incoming.active ≡ false
      → packet.pl_ctl ≡ value no_arg
      → handle_packet e packet v ≡ ok v
  unfolding handle_packet
  handle_packet-unrequested t inactive c = ground arith

  -- While the server has no negotiation of its own open, a request with no control flag whose
  -- body is too short for what it announces makes the server read beyond the body.
  pub handle_packet-malformed :
      packet.pl_type ≡ value file_neg
      → packet.pl_ctl ≡ value no_arg
      → v.proc.active_file_neg_req ≡ false
      → ¬ IsComplete e packet.pl_body
      → handle_packet e packet v ≡ undefined
  unfolding handle_packet
  handle_packet-malformed t c quiet short =
      ground (arith, deserialize_metadata_incomplete e packet.pl_body short)
