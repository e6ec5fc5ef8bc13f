-- ===== src/Traffic/Arriving.antt =====
-- The packets that a run of a program handles.
use wire_send.Common.{
  ℕ, ◌≡◌, refl, sym, ap, ◌∙◌, subst, List, [], ◌∷◌, ◌++◌, append_assoc, append-nil, Bool, true,
  false, All,
}
use mathlib.Core.List.{map}
use wire_send.Wire.{Packet}
use wire_send.Wire.Memory.{ByteOrder}
use wire_send.Net.Frame.{Arrival, arrived, as_read}
use wire_send.Threads.{
  RecvPc, after_handle, reading, holding, ended, Threads, Program, Step, enters, falls_out, lines,
  files, sends, reads, stops, handles, changes, Reach, start, later,
}
use wire_send.Transfer.Sending.{wire}
use wire_send.Traffic.Reading.{IsShort}
use wire_send.Traffic.Peer.{Takes, packets_of}

module _ {S : Type 0} (P : Program S) where
  -- The packet that a step handles.
  abbrev pub step_handles : (q q' : Threads S) → Step P q q' → List Packet
  step_handles q q' (enters at up same) = []
  step_handles q q' (falls_out at down same) = []
  step_handles q q' (lines ctl r s at e same) = []
  step_handles q q' (files text at same) = []
  step_handles q q' (sends text at same) = []
  step_handles q q' (reads at up same) = []
  step_handles q q' (stops at down same) = []
  step_handles q q' (handles a go s at e same) = packets_of a
  step_handles q q' (changes s w same) = []

  -- The packets that a run handles, in their order.
  unfoldable pub packets_handled : {s : S} (q : Threads S) → Reach P s q → List Packet
  packets_handled q start = []
  packets_handled q (later {q = q₀} r st) = packets_handled q₀ r ++ step_handles q₀ q st

pub map-append : (ps qs : List Packet) → map as_read (ps ++ qs) ≡ map as_read ps ++ map as_read qs
map-append [] qs = refl
map-append (p ∷ ps) qs = ap (◌∷◌ (as_read p)) (map-append ps qs)

module _ {S : Type 0} (pending : S → List ℕ) (e : ByteOrder) (ps : List Packet) where
  -- What is on the stream, by where the receiving thread stands.
  abbrev pub At : RecvPc → S → List Packet → Type 0
  At reading s left = pending s ≡ wire e left
  At (holding a) s left = (p : Packet) → a ≡ arrived p → Takes e left p (pending s)
  At ended s left = Unit

  -- Of the packets that come in a front was handled.
  pub record Arrives (s : S) (recv : RecvPc) (done : List Packet) : Type 0 where
    pub got : List Packet
    pub left : List Packet
    pub split : ps ≡ got ++ left
    pub handled : done ≡ map as_read got
    pub at : At recv s left

  At-moved :
      (r : RecvPc) (s s' : S) (left : List Packet)
      → pending s' ≡ pending s
      → At r s left
      → At r s' left
  At-moved reading s s' left h a = h ∙ a
  At-moved (holding x) s s' left h a = λ p came.
      let t = a p came in
      record {
        first = t.first;
        others = t.others;
        split = t.split;
        same = t.same;
        unread = h ∙ t.unread;
      }
  At-moved ended s s' left h a = tt

  pub Arrives-moved :
      (s s' : S) (r : RecvPc) (done : List Packet)
      → pending s' ≡ pending s
      → Arrives s r done
      → Arrives s' r (done ++ [])
  Arrives-moved s s' r done h a = record {
    got = a.got;
    left = a.left;
    split = a.split;
    handled = append-nil done ∙ a.handled;
    at = At-moved r s s' a.left h a.at;
  }

  pub All-left :
      (got left all : List Packet) → all ≡ got ++ left → All IsShort all → All IsShort left
  All-left [] left all h short = subst (All IsShort) h short
  All-left (p ∷ got) left all h short =
      let both : All IsShort (p ∷ got ++ left) = subst (All IsShort) h short in
      All-left got left (got ++ left) refl both.1

  -- The packet that is held is handled.
  advanced-Arrives :
      (p : Packet) (s s' : S) (r : RecvPc) (done : List Packet)
      → ((left : List Packet) → pending s ≡ wire e left → At r s' left)
      → Arrives s (holding (arrived p)) done
      → Arrives s' r (done ++ p ∷ [])
  advanced-Arrives p s s' r done next before =
      let t = before.at p refl in
      record {
        got = before.got ++ t.first ∷ [];
        left = t.others;
        split =
            before.split
            ∙ ap (◌++◌ before.got) t.split
            ∙ sym (append_assoc before.got (t.first ∷ []) t.others);
        handled =
            ap (λ x. done ++ x ∷ []) t.same
            ∙ ap (λ xs. xs ++ as_read t.first ∷ []) before.handled
            ∙ sym (map-append before.got (t.first ∷ []));
        at = next t.others t.unread;
      }

  pub ended-Arrives :
      (s s' : S) (r : RecvPc) (done : List Packet)
      → Arrives s r done
      → Arrives s' ended (done ++ [])
  ended-Arrives s s' r done before = record {
    got = before.got;
    left = before.left;
    split = before.split;
    handled = append-nil done ∙ before.handled;
    at = tt;
  }

  pub handled-Arrives :
      (a : Arrival) (s s' : S) (go : Bool) (done : List Packet)
      → pending s' ≡ pending s
      → (go ≡ true → (p : Packet) × (a ≡ arrived p))
      → Arrives s (holding a) done
      → Arrives s' (after_handle go) (done ++ packets_of a)
  handled-Arrives (arrived p) s s' true done h only before =
      advanced-Arrives p s s' reading done (λ left unread. h ∙ unread) before
  handled-Arrives (arrived p) s s' false done h only before =
      advanced-Arrives p s s' ended done (λ left unread. tt) before
  handled-Arrives Arrival.header_closed s s' false done h only before =
      ended-Arrives s s' (holding Arrival.header_closed) done before
  handled-Arrives Arrival.header_failed s s' false done h only before =
      ended-Arrives s s' (holding Arrival.header_failed) done before
  handled-Arrives Arrival.body_closed s s' false done h only before =
      ended-Arrives s s' (holding Arrival.body_closed) done before
  handled-Arrives Arrival.body_failed s s' false done h only before =
      ended-Arrives s s' (holding Arrival.body_failed) done before
  handled-Arrives Arrival.undefined s s' false done h only before =
      ended-Arrives s s' (holding Arrival.undefined) done before
  handled-Arrives Arrival.stuck s s' false done h only before =
      ended-Arrives s s' (holding Arrival.stuck) done before
  handled-Arrives Arrival.header_closed s s' true done h only before =
      let (p, never) = only refl in absurd (cc)
  handled-Arrives Arrival.header_failed s s' true done h only before =
      let (p, never) = only refl in absurd (cc)
  handled-Arrives Arrival.body_closed s s' true done h only before =
      let (p, never) = only refl in absurd (cc)
  handled-Arrives Arrival.body_failed s s' true done h only before =
      let (p, never) = only refl in absurd (cc)
  handled-Arrives Arrival.undefined s s' true done h only before =
      let (p, never) = only refl in absurd (cc)
  handled-Arrives Arrival.stuck s s' true done h only before =
      let (p, never) = only refl in absurd (cc)
