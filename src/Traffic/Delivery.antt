-- ===== src/Traffic/Delivery.antt =====
-- The two programs over one connection: what the one handles is what the other wrote.
use wire_send.Common.{
  ℕ, ◌^◌, ◌≤◌, ◌<◌, ◌≡◌, sym, ap, ◌∙◌, subst, List, ◌++◌, arith, length, append-cancel_left,
}
use mathlib.Core.List.{map}
use wire_send.Wire.{Packet}
use wire_send.Wire.Memory.{ByteOrder}
use wire_send.Net.Frame.{as_read}
use wire_send.Threads.{RecvPc, reading, Threads, Program, Reach}
use wire_send.Transfer.Sending.{wire}
use wire_send.Traffic.{accepts, accepts-append, messages, messages-append}
use wire_send.Traffic.Reading.{wire-IsShort}
use wire_send.Traffic.Peer.{IsPeer, undisturbed, accepts_given, lines_sent, Reach-Sends}
use wire_send.Traffic.Arriving.{At, packets_handled}
use wire_send.Traffic.Receiving.{Reach-Receives}

-- From `before` to `after` whole packets were written, and a front of them was handled, each as it
-- was but for its length field, which is that of its body, and in their order. The others are on the
-- stream of a thread that is about to read.
pub record IsDelivered (e : ByteOrder) (before after : List ℕ) (handled : List Packet) (pc : RecvPc)
    (stream : List ℕ) : Type 0 where
  pub got : List Packet
  pub left : List Packet
  pub wrote : after ≡ before ++ wire e (got ++ left)
  pub handled_is : handled ≡ map as_read got
  pub unread : pc ≡ reading → stream ≡ wire e left

module _ {S T : Type 0} (P : Program S) (Q : Program T) (in_s out_s : S → List ℕ)
    (in_t out_t : T → List ℕ) (e d : ByteOrder) (gives_s : S → ℕ) (gives_t : T → ℕ)
    (GoodS : S → Type 0) (GoodT : T → Type 0)
    (receiver : IsPeer (undisturbed P in_s out_s) in_s out_s e gives_s GoodS)
    (sender : IsPeer (undisturbed Q in_t out_t) in_t out_t d gives_t GoodT) (s : S) (q : Threads S)
    (r : Reach (undisturbed P in_s out_s) s q) (t : T) (u : Threads T)
    (l : Reach (undisturbed Q in_t out_t) t u) (good_s : GoodS s) (good_t : GoodT t)
    (link : out_t u.state ≡ out_t t ++ in_s s) (few : length (in_s s) < 2 ^ 32) where
  -- What the receiver handled, and how many acceptances and which lines are among it.
  pub delivered :
      (h : IsDelivered d
        (out_t t)
        (out_t u.state)
        (packets_handled (undisturbed P in_s out_s) q r)
        q.recv
        (in_s q.state))
      × (accepts h.got ≤ accepts_given (undisturbed Q in_t out_t) gives_t u l)
      × (lines_sent (undisturbed Q in_t out_t) u l ≡ messages h.got ++ messages h.left)
  delivered =
      let (good, sent) = Reach-Sends Q in_t out_t d gives_t GoodT sender t u l good_t in
      let stream =
        append-cancel_left (out_t t) (in_s s) (wire d sent.packets) (sym link ∙ sent.put) in
      let short = wire-IsShort d sent.packets (subst (λ bs. length bs < 2 ^ 32) stream few) in
      let (still_good, a) =
        Reach-Receives P in_s out_s e gives_s GoodS receiver d sent.packets short s q r good_s
          stream in
      (
        record {
          got = a.got;
          left = a.left;
          wrote = sent.put ∙ ap (λ ps. out_t t ++ wire d ps) a.split;
          handled_is = a.handled;
          unread = λ here. subst (λ x. At in_s d sent.packets x q.state a.left) here a.at;
        },
        omega (arith, sent.few, accepts-append a.got a.left, ap accepts a.split),
        sym sent.texts ∙ ap messages a.split ∙ messages-append a.got a.left,
      )
