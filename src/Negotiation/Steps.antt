-- ===== src/Negotiation/Steps.antt =====
-- What each call of a program's two threads does to the negotiation: the command in a line that the
-- input loop of `StartServer` or `StartClient` reads, the sending of a file, and the handling of a
-- packet (src/ServerMod.cpp, src/ClientMod.cpp).
use wire_send.Common.{
  ℕ, ◌≡◌, sym, ap, ◌∙◌, subst, ◌⊎◌, inl, inr, List, Bool, true, false, arith, Bool-cases,
}
use wire_send.Common.Outcome.{ok}
use wire_send.Commands.{Command, not_a_command, unknown, stop, accept, reject, file_prompt}
use wire_send.Net.Frame.{Arrival}
use wire_send.Negotiation.{
  Talk, Move, offer, answer, decline, sent, cancelled, nothing, after_packet, after_packet-Move,
}
use wire_send.Threads.{
  LineEnd, Threads, Program, Step, enters, falls_out, lines, files, sends, reads, stops, handles,
  changes,
}

-- Only `/f` opens an offer, only `/a` answers a request, and only `/r` declines one; each of them
-- may find nothing to do, but `/r` ends a request always.
abbrev pub ByCommand : Command → Talk → Talk → Type 0
ByCommand not_a_command t t' = t' ≡ t
ByCommand unknown t t' = t' ≡ t
ByCommand stop t t' = t' ≡ t
ByCommand accept t t' = (t' ≡ t) ⊎ ((t.requested ≡ true) × (t' ≡ record t { asked = false }))
ByCommand reject t t' =
    ((t.requested ≡ false) × (t' ≡ t))
    ⊎ ((t.requested ≡ true)
        × ((t' ≡ record t { requested = false })
            ⊎ (t' ≡ record t { asked = false; requested = false })))
ByCommand file_prompt t t' = (t' ≡ t) ⊎ (t' ≡ record t { asked = true })

-- A packet that arrived whole does what it asks for or answers; a read that failed does nothing.
abbrev pub after_read : (closes : Bool) → Arrival → Talk → Talk
after_read closes (Arrival.arrived packet) t = after_packet closes packet t
after_read closes Arrival.header_closed t = t
after_read closes Arrival.header_failed t = t
after_read closes Arrival.body_closed t = t
after_read closes Arrival.body_failed t = t
after_read closes Arrival.undefined t = t
after_read closes Arrival.stuck t = t

module _ {S : Type 0} (P : Program S) (talk : S → Talk) (closes : Bool)
    (entered : S → Command) where
  -- What a step does. `entered` is the command in the line that is read next.
  unfoldable pub Follows : (q q' : Threads S) → Step P q q' → Type 0
  Follows q q' (enters at up same) = talk q'.state ≡ talk q.state
  Follows q q' (falls_out at down same) = talk q'.state ≡ talk q.state
  Follows q q' (lines ctl r s at e same) =
      ByCommand (entered q.state) (talk q.state) (talk q'.state)
  Follows q q' (files text at same) = talk q'.state ≡ record (talk q.state) { sending = false }
  Follows q q' (sends text at same) = talk q'.state ≡ talk q.state
  Follows q q' (reads at up same) = talk q'.state ≡ talk q.state
  Follows q q' (stops at down same) = talk q'.state ≡ talk q.state
  Follows q q' (handles a go s at e same) = talk q'.state ≡ after_read closes a (talk q.state)
  Follows q q' (changes s w same) = talk q'.state ≡ talk q.state

  -- The same of a program's calls.
  pub record IsNegotiated : Type 0 where
    pub line :
        (ctl : ℕ) (s s' : S) (r : LineEnd)
        → P.line ctl s ≡ ok (r, s')
        → ByCommand (entered s) (talk s) (talk s')
    pub send_file : (s : S) → talk (P.send_file s) ≡ record (talk s) { sending = false }
    pub send_line : (text : List ℕ) (s : S) → talk (P.send_line text s).1 ≡ talk s
    pub read : (s : S) → talk (P.read s).1 ≡ talk s
    pub handle :
        (a : Arrival) (s s' : S) (go : Bool)
        → P.handle a s ≡ ok (go, s')
        → talk s' ≡ after_read closes a (talk s)
    pub world : (s s' : S) → P.World s s' → talk s' ≡ talk s

ByCommand-Move : (c : Command) {t t' : Talk} → ByCommand c t t' → Move t t'
ByCommand-Move not_a_command same = nothing same
ByCommand-Move unknown same = nothing same
ByCommand-Move stop same = nothing same
ByCommand-Move accept (inl same) = nothing same
ByCommand-Move accept (inr (asked, same)) = answer asked same
ByCommand-Move reject (inl (free, same)) = nothing same
ByCommand-Move reject (inr (asked, inl same)) = cancelled same
ByCommand-Move reject (inr (asked, inr same)) = decline asked same
ByCommand-Move file_prompt (inl same) = nothing same
ByCommand-Move file_prompt (inr same) = offer same

unsent-Move : (t t' : Talk) → t' ≡ record t { sending = false } → Move t t'
unsent-Move t t' same = elim (Bool-cases t.sending) [
  | inl on ↦ sent on same
  | inr off ↦ nothing (ground arith)
]

after_read-Move :
    (closes : Bool) (a : Arrival) (t t' : Talk) → t' ≡ after_read closes a t → Move t t'
after_read-Move closes (Arrival.arrived packet) t t' same =
    subst (Move t) (sym same) (after_packet-Move closes packet t)
after_read-Move closes Arrival.header_closed t t' same = nothing same
after_read-Move closes Arrival.header_failed t t' same = nothing same
after_read-Move closes Arrival.body_closed t t' same = nothing same
after_read-Move closes Arrival.body_failed t t' same = nothing same
after_read-Move closes Arrival.undefined t t' same = nothing same
after_read-Move closes Arrival.stuck t t' same = nothing same

module _ {S : Type 0} (P : Program S) (talk : S → Talk) (closes : Bool) (entered : S → Command)
    (calls : IsNegotiated P talk closes entered) where
  pub Step-Follows : (q q' : Threads S) (st : Step P q q') → Follows P talk closes entered q q' st
  unfolding Follows
  Step-Follows q q' (enters at up same) = ap (λ x. talk x.state) same
  Step-Follows q q' (falls_out at down same) = ap (λ x. talk x.state) same
  Step-Follows q q' (lines ctl r s at e same) =
      subst (λ x. ByCommand (entered q.state) (talk q.state) (talk x.state)) (sym same)
        (calls.line ctl q.state s r e)
  Step-Follows q q' (files text at same) = ap (λ x. talk x.state) same ∙ calls.send_file q.state
  Step-Follows q q' (sends text at same) =
      ap (λ x. talk x.state) same ∙ calls.send_line text q.state
  Step-Follows q q' (reads at up same) = ap (λ x. talk x.state) same ∙ calls.read q.state
  Step-Follows q q' (stops at down same) = ap (λ x. talk x.state) same
  Step-Follows q q' (handles a go s at e same) =
      ap (λ x. talk x.state) same ∙ calls.handle a q.state s go e
  Step-Follows q q' (changes s w same) = ap (λ x. talk x.state) same ∙ calls.world q.state s w

  Follows-Move :
      (q q' : Threads S) (st : Step P q q')
      → Follows P talk closes entered q q' st
      → Move (talk q.state) (talk q'.state)
  unfolding Follows
  Follows-Move q q' (enters at up same) f = nothing f
  Follows-Move q q' (falls_out at down same) f = nothing f
  Follows-Move q q' (lines ctl r s at e same) f = ByCommand-Move (entered q.state) f
  Follows-Move q q' (files text at same) f = unsent-Move (talk q.state) (talk q'.state) f
  Follows-Move q q' (sends text at same) f = nothing f
  Follows-Move q q' (reads at up same) f = nothing f
  Follows-Move q q' (stops at down same) f = nothing f
  Follows-Move q q' (handles a go s at e same) f =
      after_read-Move closes a (talk q.state) (talk q'.state) f
  Follows-Move q q' (changes s w same) f = nothing f

  -- Each step is a move of the protocol.
  pub Step-Move : (q q' : Threads S) → Step P q q' → Move (talk q.state) (talk q'.state)
  Step-Move q q' st = Follows-Move q q' st (Step-Follows q q' st)
