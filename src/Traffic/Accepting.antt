-- ===== src/Traffic/Accepting.antt =====
-- A program begins to send a file only when it handles a packet that accepts one.
use wire_send.Common.{ℕ, ◌≤◌, ◌≡◌, refl, sym, subst, List, [], ◌∷◌, arith, Bool, true, false}
use wire_send.Common.Outcome.{ok}
use wire_send.Wire.{Packet}
use wire_send.Net.Frame.{Arrival}
use wire_send.Negotiation.{Talk, after_packet}
use wire_send.Negotiation.Runs.{rises, acceptances_met}
use wire_send.Threads.{
  LineEnd, Threads, Program, Step, enters, falls_out, lines, files, sends, reads, stops, handles,
  changes, Reach, start, later,
}
use wire_send.Traffic.{accepts, accepts-append}
use wire_send.Traffic.Peer.{undisturbed, packets_of}
use wire_send.Traffic.Arriving.{packets_handled, step_handles}

-- Who does not send begins to only with an acceptance.
abbrev pub Calm : {S : Type 0} → (S → Talk) → S → S → Type 0
Calm talk s s' = (talk s).sending ≡ false → (talk s').sending ≡ false

pub record IsPatient {S : Type 0} (P : Program S) (talk : S → Talk) : Type 0 where
  pub line : (ctl : ℕ) (s s' : S) (r : LineEnd) → P.line ctl s ≡ ok (r, s') → Calm talk s s'
  pub send_file : (s : S) → Calm talk s (P.send_file s)
  pub send_line : (text : List ℕ) (s : S) → Calm talk s (P.send_line text s).1
  pub read : (s : S) → Calm talk s (P.read s).1
  pub handle :
      (a : Arrival) (s s' : S) (go : Bool)
      → P.handle a s ≡ ok (go, s')
      → rises (talk s).sending (talk s').sending ≤ accepts (packets_of a)
  pub world : (s s' : S) → P.World s s' → Calm talk s s'

calm_rises : (b b' : Bool) → (b ≡ false → b' ≡ false) → rises b b' ≡ 0
calm_rises true b' h = refl
calm_rises false b' h = rw (h refl) refl

same_rises : (b : Bool) → rises b b ≡ 0
same_rises true = refl
same_rises false = refl

pub after_packet-rises :
    (closes : Bool) (packet : Packet) (t : Talk)
    → rises t.sending (after_packet closes packet t).sending ≤ accepts (packet ∷ [])
after_packet-rises closes packet t = ground arith

module _ {S : Type 0} (P : Program S) (pending written : S → List ℕ) (talk : S → Talk)
    (patient : IsPatient P talk) where
  abbrev Bounded : Threads S → List Packet → Threads S → Type 0
  Bounded q ps q' = rises (talk q.state).sending (talk q'.state).sending ≤ accepts ps

  calmly : (s s' : S) → Calm talk s s' → rises (talk s).sending (talk s').sending ≤ 0
  calmly s s' h = omega (arith, calm_rises (talk s).sending (talk s').sending h)

  Step-Bounded :
      (q q' : Threads S) (st : Step (undisturbed P pending written) q q')
      → Bounded q (step_handles (undisturbed P pending written) q q' st) q'
  Step-Bounded q q' (enters at up same) =
      subst (Bounded q []) (sym same) (omega (arith, same_rises (talk q.state).sending))
  Step-Bounded q q' (falls_out at down same) =
      subst (Bounded q []) (sym same) (omega (arith, same_rises (talk q.state).sending))
  Step-Bounded q q' (lines ctl r s at e same) =
      subst (Bounded q []) (sym same) (calmly q.state s (patient.line ctl q.state s r e))
  Step-Bounded q q' (files text at same) =
      subst (Bounded q []) (sym same)
        (calmly q.state (P.send_file q.state) (patient.send_file q.state))
  Step-Bounded q q' (sends text at same) =
      subst (Bounded q []) (sym same)
        (calmly q.state (P.send_line text q.state).1 (patient.send_line text q.state))
  Step-Bounded q q' (reads at up same) =
      subst (Bounded q []) (sym same) (calmly q.state (P.read q.state).1 (patient.read q.state))
  Step-Bounded q q' (stops at down same) =
      subst (Bounded q []) (sym same) (omega (arith, same_rises (talk q.state).sending))
  Step-Bounded q q' (handles a go s at e same) =
      subst (Bounded q (packets_of a)) (sym same) (patient.handle a q.state s go e)
  Step-Bounded q q' (changes s w same) =
      subst (Bounded q []) (sym same) (calmly q.state s (patient.world q.state s w.0))

  -- A run begins to send at most as often as it handled an acceptance.
  pub acceptances_met-accepts :
      (s : S) (q : Threads S) (r : Reach (undisturbed P pending written) s q)
      → acceptances_met (undisturbed P pending written) talk s q r
        ≤ accepts (packets_handled (undisturbed P pending written) q r)
  unfolding acceptances_met packets_handled
  acceptances_met-accepts s q start = omega arith
  acceptances_met-accepts s q (later {q = q₀} r st) = omega (
    arith,
    acceptances_met-accepts s q₀ r,
    Step-Bounded q₀ q st,
    accepts-append (packets_handled (undisturbed P pending written) q₀ r)
        (step_handles (undisturbed P pending written) q₀ q st),
  )
