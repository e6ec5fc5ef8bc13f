-- ===== src/Negotiation.antt =====
-- What the two programs agree on about files, without packets and threads: a program may have an
-- offer of its own open, may be about to send a file, and may have a request of its peer.
pub mod Greeted
pub mod Runs
pub mod Steps
use wire_send.Common.{ℕ, ◌≡◌, refl, Bool, true, false, not, ◌&&◌, ◌==◌, if◌then◌else◌, arith}
use wire_send.Wire.{Packet, value, file_neg, no_arg, file_accept, file_reject, cancel_trans}

pub record Talk : Type 0 where
  pub asked : Bool
  pub sending : Bool
  pub requested : Bool

abbrev pub quiet : Talk
quiet = record { asked = false; sending = false; requested = false }

-- The moves. The first four are those of the own user and the own threads, the others come from the
-- peer, and in the last nothing changes.
pub data Move (t t' : Talk) : Type 0 where
  offer : t' ≡ record t { asked = true } → Move t t'
  answer : t.requested ≡ true → t' ≡ record t { asked = false } → Move t t'
  decline : t.requested ≡ true → t' ≡ record t { asked = false; requested = false } → Move t t'
  sent : t.sending ≡ true → t' ≡ record t { sending = false } → Move t t'
  request : t.asked ≡ false → t' ≡ record t { requested = true } → Move t t'
  accepted : t.asked ≡ true → t' ≡ record t { asked = false; sending = true } → Move t t'
  rejected : t.asked ≡ true → t' ≡ record t { asked = false; requested = false } → Move t t'
  cancelled : t' ≡ record t { requested = false } → Move t t'
  nothing : t' ≡ t → Move t t'

pub ruleset moves = (offer, answer, decline, sent, request, accepted, rejected, cancelled, nothing)

abbrev is_neg : Packet → ℕ → Bool
is_neg packet ctl = packet.pl_type == value file_neg && packet.pl_ctl == ctl

-- What a packet that asks or answers does to the negotiation of the program that it comes to.
abbrev pub after_answer : Packet → Talk → Talk
after_answer packet t =
    if is_neg packet (value no_arg) && not t.asked
    then record t { requested = true }
    else if is_neg packet (value file_accept) && t.asked
    then record t { asked = false; sending = true }
    else if is_neg packet (value file_reject) && t.asked
    then record t { asked = false; requested = false }
    else t

-- What a packet does that cancels; `closes` says whether it closes the own offer too.
abbrev pub after_cancel : (closes : Bool) → Packet → Talk → Talk
after_cancel closes packet t =
    if is_neg packet (value cancel_trans)
    then record t { asked = t.asked && not closes; requested = false }
    else t

abbrev pub after_packet : (closes : Bool) → Packet → Talk → Talk
after_packet closes packet t = after_cancel closes packet (after_answer packet t)

-- It is a move of the negotiation.
pub after_packet-Move :
    (closes : Bool) (packet : Packet) (t : Talk) → Move t (after_packet closes packet t)
after_packet-Move closes packet t = grind (arith, moves)
