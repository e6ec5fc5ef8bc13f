-- ===== src/Traffic.antt =====
-- What a call writes to the connection, as whole packets, and how many of them accept a file.
pub mod Files
pub mod Reading
pub mod Peer
pub mod Arriving
pub mod Receiving
pub mod ServerCalls
pub mod ServerLines
pub mod ServerPeer
pub mod ClientCalls
pub mod ClientLines
pub mod ClientPeer
pub mod Accepting
pub mod ServerCalm
pub mod ClientCalm
pub mod Delivery
pub mod Screen
pub mod ServerScreen
pub mod ClientScreen
pub mod Consent
use wire_send.Common.{
  ℕ, ◌+◌, ◌≤◌, ◌≡◌, refl, sym, ap, ◌∙◌, List, [], ◌∷◌, ◌++◌, append_assoc, append-nil, arith, ◌&&◌,
  ◌==◌, if◌then◌else◌, Option, none, some,
}
use wire_send.Wire.{Packet, value, message, file_neg, file_accept}
use wire_send.Wire.Memory.{ByteOrder}
use wire_send.Transfer.Sending.{wire, wire-append}

-- A packet that accepts the offered file.
abbrev pub accept_bit : Packet → ℕ
accept_bit p = if p.pl_type == value file_neg && p.pl_ctl == value file_accept then 1 else 0

abbrev pub accepts : List Packet → ℕ
accepts [] = 0
accepts (p ∷ ps) = accept_bit p + accepts ps

pub accepts-append : (ps qs : List Packet) → accepts (ps ++ qs) ≡ accepts ps + accepts qs
accepts-append [] qs = omega arith
accepts-append (p ∷ ps) qs = omega (arith, accepts-append ps qs)

-- The text of a packet that is a typed line.
abbrev pub message_of : Packet → List (List ℕ)
message_of p = if p.pl_type == value message then p.pl_body ∷ [] else []

abbrev pub messages : List Packet → List (List ℕ)
messages [] = []
messages (p ∷ ps) = message_of p ++ messages ps

pub messages-append : (ps qs : List Packet) → messages (ps ++ qs) ≡ messages ps ++ messages qs
messages-append [] qs = refl
messages-append (p ∷ ps) qs =
    ap (◌++◌ (message_of p)) (messages-append ps qs)
    ∙ sym (append_assoc (message_of p) (messages ps) (messages qs))

-- An answer of a dialog that names a path.
abbrev pub chosen : Option (List ℕ) → ℕ
chosen none = 0
chosen (some path) = 1

-- From `s` to `s'` nothing was read, and some packets were written: `n` of them acceptances at most,
-- and the typed lines `lines`.
pub record Puts {S : Type 0} (pending written : S → List ℕ) (e : ByteOrder) (n : ℕ)
    (lines : List (List ℕ)) (s s' : S) : Type 0 where
  pub unread : pending s' ≡ pending s
  pub packets : List Packet
  pub put : written s' ≡ written s ++ wire e packets
  pub few : accepts packets ≤ n
  pub texts : messages packets ≡ lines

module _ {S : Type 0} (pending written : S → List ℕ) (e : ByteOrder) where
  -- The connection is as it was.
  pub Puts-none :
      (n : ℕ) (s s' : S)
      → pending s' ≡ pending s
      → written s' ≡ written s
      → Puts pending written e n [] s s'
  Puts-none n s s' p w = record {
    unread = p;
    packets = [];
    put = w ∙ sym (append-nil (written s));
    few = omega arith;
    texts = refl;
  }

  pub Puts-trans :
      (n m : ℕ) (ls ls' : List (List ℕ)) (s t u : S)
      → Puts pending written e n ls s t
      → Puts pending written e m ls' t u
      → Puts pending written e (n + m) (ls ++ ls') s u
  Puts-trans n m ls ls' s t u a b = record {
    unread = b.unread ∙ a.unread;
    packets = a.packets ++ b.packets;
    put =
        b.put
        ∙ ap (λ bs. bs ++ wire e b.packets) a.put
        ∙ append_assoc (written s) (wire e a.packets) (wire e b.packets)
        ∙ ap (◌++◌ (written s)) (sym (wire-append e a.packets b.packets));
    few = omega (arith, a.few, b.few, accepts-append a.packets b.packets);
    texts = messages-append a.packets b.packets ∙ (λ i. a.texts i ++ b.texts i);
  }
