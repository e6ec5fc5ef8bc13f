-- ===== src/Server/Talk.antt =====
-- What the server's state says of the negotiation, and what the handling of a packet does to it
-- (`RunRecvThread` of src/ServerMod.cpp).
use wire_send.Common.{◌≡◌, refl, sym, ap, ◌∙◌, false, ℤ, arith}
use wire_send.Common.Outcome.{Outcome, ok, ◌>>=◌, bind-ok}
use wire_send.Wire.{Packet}
use wire_send.Wire.Memory.{ByteOrder}
use wire_send.Negotiation.{Talk, after_answer, after_cancel, after_packet}
use wire_send.Negotiation.Steps.{}
use wire_send.Process.{Process, PendingIncomingFileRequest}
use wire_send.Transfer.{recv_file}
use wire_send.Transfer.Flags.{SameNeg, recv_file-SameNeg, recv_file-SameActive}
use wire_send.Server.{Server, dispatch, receiving, received_part, control, handle_packet}
use wire_send.Server.Input.{}

abbrev pub server_talk : {System : Type 0} → Server System → Talk
server_talk v = record {
  asked = v.proc.active_file_neg_req;
  sending = v.file_send_in_progress;
  requested = v.incoming.active;
}

module _ {System : Type 0} (v v' : Server System) where
  received_part-Move :
      (o : Outcome (ℤ × PendingIncomingFileRequest × Process System))
      → ((flag : ℤ) (r : PendingIncomingFileRequest) (p : Process System)
          → o ≡ ok (flag, r, p)
          → SameNeg v.proc p × (r.active ≡ v.incoming.active))
      → (o >>= λ r. ok (received_part (receiving v) r)) ≡ ok v'
      → server_talk v' ≡ server_talk v
  received_part-Move (ok (flag, r, p)) same h = ground (arith, same flag r p refl)
  received_part-Move Outcome.terminated same h = absurd (cc)
  received_part-Move Outcome.undefined same h = absurd (cc)
  received_part-Move Outcome.hangs same h = absurd (cc)

module _ {System : Type 0} (e : ByteOrder) (packet : Packet) (v v' : Server System) where
  dispatch-after_answer :
      dispatch e packet v ≡ ok v' → server_talk v' ≡ after_answer packet (server_talk v)
  unfolding dispatch
  dispatch-after_answer h = ground (
    arith,
    received_part-Move v v' (recv_file packet v.incoming v.proc) (λ flag r p same. (
      recv_file-SameNeg packet v.incoming r v.proc p flag same,
      recv_file-SameActive packet v.incoming r v.proc p flag same,
    )),
  )

module _ {System : Type 0} (packet : Packet) (v : Server System) where
  control-after_cancel : server_talk (control packet v) ≡ after_cancel false packet (server_talk v)
  unfolding control
  control-after_cancel = ground arith

module _ {System : Type 0} (e : ByteOrder) (packet : Packet) (v v' : Server System) where
  -- What the handling of a packet does to the negotiation.
  pub handle_packet-after_packet :
      handle_packet e packet v ≡ ok v' → server_talk v' ≡ after_packet false packet (server_talk v)
  unfolding handle_packet
  handle_packet-after_packet h =
      let (u, dispatched, controlled) = bind-ok (dispatch e packet v) _ h in
      let same : control packet u ≡ v' = cc in
      sym (ap server_talk same)
      ∙ control-after_cancel packet u
      ∙ ap (after_cancel false packet) (dispatch-after_answer e packet v u dispatched)
