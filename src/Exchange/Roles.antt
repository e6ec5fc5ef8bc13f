-- ===== src/Exchange/Roles.antt =====
-- The two programs have a handler of packets each, written twice in the source.
use wire_send.Common.{◌≡◌, ◌≢◌, sym, ap, ◌∙◌, true, false, arith, ◌⊎◌}
use wire_send.Common.Outcome.{ok}
use wire_send.Wire.{Packet, value, cancel_trans}
use wire_send.Wire.Memory.{ByteOrder}
use wire_send.Net.{Kernel}
use wire_send.Negotiation.{Talk, after_packet}
use wire_send.Server.{Server}
use wire_send.Server
use wire_send.Server.Talk.{server_talk, handle_packet-after_packet}
use wire_send.Client.{Client}
use wire_send.Client
use wire_send.Client.Talk.{client_talk, client_handle_packet-after_packet}

after_packet_same :
    (packet : Packet) (t : Talk)
    → (packet.pl_ctl ≢ value cancel_trans) ⊎ (t.asked ≡ false)
    → after_packet false packet t ≡ after_packet true packet t
after_packet_same packet t h = ground arith

module _ (KS KC : Kernel) (e : ByteOrder) (packet : Packet) where
  -- The two programs' handlers agree: if both handle the same packet, in states that agree on
  -- whether an offer of the program itself is open, whether a file is to be sent and whether
  -- there is an active request of the peer, and the packet is no cancellation or no offer of the
  -- program is open, then the states agree on the three afterwards too.
  pub handle_packet_agree :
      (v v' : Server KS.State) (w w' : Client KC.State)
      → Server.handle_packet e packet v ≡ ok v'
      → Client.handle_packet KC e packet w ≡ ok w'
      → server_talk v ≡ client_talk w
      → (packet.pl_ctl ≢ value cancel_trans) ⊎ (v.proc.active_file_neg_req ≡ false)
      → server_talk v' ≡ client_talk w'
  handle_packet_agree v v' w w' handled handled' same apart =
      handle_packet-after_packet e packet v v' handled
      ∙ after_packet_same packet (server_talk v) apart
      ∙ ap (after_packet true packet) same
      ∙ sym (client_handle_packet-after_packet KC e packet w w' handled')
