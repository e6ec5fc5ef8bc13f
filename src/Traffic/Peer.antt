-- ===== src/Traffic/Peer.antt =====
-- What the calls of a program do to its connection, and what that makes of a run of its threads:
-- the packets that it wrote.
use wire_send.Common.{
  if◌then◌else◌, ℕ, ◌+◌, ◌≡◌, refl, sym, subst, List, [], ◌∷◌, Bool, true, All, ℤ, ◌++◌,
}
use wire_send.Common.Outcome.{ok}
use wire_send.Wire.{Packet}
use wire_send.Wire.Memory.{ByteOrder}
use wire_send.Net.{Kernel, IsStream}
use wire_send.Net.Frame.{Arrival, arrived, as_read, read_frame}
use wire_send.Threads.{
  LineEnd, Threads, Program, Step, enters, falls_out, lines, files, sends, reads, stops, handles,
  changes, Reach, start, later,
}
use wire_send.Transfer.Sending.{wire}
use wire_send.Traffic.{Puts, Puts-none, Puts-trans}
use wire_send.Traffic.Reading.{IsShort, read_frame-wire}

-- The program, where the world outside leaves what comes in and what went out on the connection
-- as it is.
abbrev pub undisturbed : {S : Type 0} (P : Program S) (pending written : S → List ℕ) → Program S
undisturbed P pending written = record P {
  World = λ s s'. P.World s s' × (pending s' ≡ pending s) × (written s' ≡ written s);
}

module _ {S : Type 0} (P : Program S) (pending written : S → List ℕ) where
  -- A step of it is a step of the program.
  pub undisturbed-Step :
      (q q' : Threads S) → Step (undisturbed P pending written) q q' → Step P q q'
  undisturbed-Step q q' (enters at up same) = enters at up same
  undisturbed-Step q q' (falls_out at down same) = falls_out at down same
  undisturbed-Step q q' (lines ctl r s at e same) = lines ctl r s at e same
  undisturbed-Step q q' (files text at same) = files text at same
  undisturbed-Step q q' (sends text at same) = sends text at same
  undisturbed-Step q q' (reads at up same) = reads at up same
  undisturbed-Step q q' (stops at down same) = stops at down same
  undisturbed-Step q q' (handles a go s at e same) = handles a go s at e same
  undisturbed-Step q q' (changes s w same) = changes s w.0 same

-- The packet of an arrival.
abbrev pub packets_of : Arrival → List Packet
packets_of (arrived p) = p ∷ []
packets_of Arrival.header_closed = []
packets_of Arrival.header_failed = []
packets_of Arrival.body_closed = []
packets_of Arrival.body_failed = []
packets_of Arrival.undefined = []
packets_of Arrival.stuck = []

-- A packet arrived, it was the first of those that are on the stream, and the others are left.
pub record Takes (e : ByteOrder) (ps : List Packet) (p : Packet) (left : List ℕ) : Type 0 where
  pub first : Packet
  pub others : List Packet
  pub split : ps ≡ first ∷ others
  pub same : p ≡ as_read first
  pub unread : left ≡ wire e others

module _ (K : Kernel) (fd : ℤ) (S : IsStream K fd) (e : ByteOrder) where
  pub read_frame-Takes :
      (d : ℤ) (sender : ByteOrder) (ps : List Packet) (s : K.State) (p : Packet)
      → d ≡ fd
      → All IsShort ps
      → S.pending s ≡ wire sender ps
      → (read_frame K e d s).0 ≡ arrived p
      → Takes sender ps p (S.pending (read_frame K e d s).1)
  read_frame-Takes d sender ps s p g short h came =
      subst
        (λ d.
          (read_frame K e d s).0 ≡ arrived p → Takes sender ps p (S.pending (read_frame K e d s).1))
        (sym g)
        (λ came.
          let (q, rest, split, same, left) =
            read_frame-wire K e fd S sender ps s (read_frame K e fd s).1 p short h
              (λ i. (came i, (read_frame K e fd s).1)) in
          record { first = q; others = rest; split = split; same = same; unread = left })
        came

-- The line, if it is sent.
abbrev pub line_of : {S : Type 0} → Program S → List ℕ → S → List (List ℕ)
line_of P text s = if (P.send_line text s).0 then text ∷ [] else []

-- What the calls of a program's threads do to its connection, while `Good` holds: `gives` bounds the
-- acceptances that a line sends; no other call sends one; a typed line is sent if the loop goes on; only the receiving thread reads, whole packets,
-- and it goes on only after a packet.
pub record IsPeer {S : Type 0} (P : Program S) (pending written : S → List ℕ) (e : ByteOrder)
    (gives : S → ℕ) (Good : S → Type 0) : Type 0 where
  pub line :
      (ctl : ℕ) (s s' : S) (r : LineEnd)
      → P.line ctl s ≡ ok (r, s')
      → Good s
      → Good s' × Puts pending written e (gives s) [] s s'
  pub send_file :
      (s : S) → Good s → Good (P.send_file s) × Puts pending written e 0 [] s (P.send_file s)
  pub send_line :
      (text : List ℕ) (s : S)
      → Good s
      → Good (P.send_line text s).1
        × Puts pending written e 0 (line_of P text s) s (P.send_line text s).1
  pub read : (s : S) → Good s → Good (P.read s).1 × (written (P.read s).1 ≡ written s)
  pub takes :
      (sender : ByteOrder) (ps : List Packet) (s : S) (p : Packet)
      → Good s
      → All IsShort ps
      → pending s ≡ wire sender ps
      → (P.read s).0 ≡ arrived p
      → Takes sender ps p (pending (P.read s).1)
  pub handle :
      (a : Arrival) (s s' : S) (go : Bool)
      → P.handle a s ≡ ok (go, s')
      → Good s
      → Good s' × Puts pending written e 0 [] s s'
  pub goes_on_after :
      (a : Arrival) (s s' : S) → P.handle a s ≡ ok (true, s') → (p : Packet) × (a ≡ arrived p)
  pub world : (s s' : S) → P.World s s' → Good s → Good s'

module _ {S : Type 0} (P : Program S) (gives : S → ℕ) where
  -- The acceptances of a step are those of the line that it takes.
  abbrev step_gives : (q q' : Threads S) → Step P q q' → ℕ
  step_gives q q' (enters at up same) = 0
  step_gives q q' (falls_out at down same) = 0
  step_gives q q' (lines ctl r s at e same) = gives q.state
  step_gives q q' (files text at same) = 0
  step_gives q q' (sends text at same) = 0
  step_gives q q' (reads at up same) = 0
  step_gives q q' (stops at down same) = 0
  step_gives q q' (handles a go s at e same) = 0
  step_gives q q' (changes s w same) = 0

  -- How many of the lines that were taken in a run accepted a file.
  unfoldable pub accepts_given : {s : S} (q : Threads S) → Reach P s q → ℕ
  accepts_given q start = 0
  accepts_given q (later {q = q₀} r st) = accepts_given q₀ r + step_gives q₀ q st

module _ {S : Type 0} (P : Program S) where
  abbrev step_says : (q q' : Threads S) → Step P q q' → List (List ℕ)
  step_says q q' (enters at up same) = []
  step_says q q' (falls_out at down same) = []
  step_says q q' (lines ctl r s at e same) = []
  step_says q q' (files text at same) = []
  step_says q q' (sends text at same) = line_of P text q.state
  step_says q q' (reads at up same) = []
  step_says q q' (stops at down same) = []
  step_says q q' (handles a go s at e same) = []
  step_says q q' (changes s w same) = []

  -- The typed lines whose sending did not end the loop, in their order.
  unfoldable pub lines_sent : {s : S} (q : Threads S) → Reach P s q → List (List ℕ)
  lines_sent q start = []
  lines_sent q (later {q = q₀} r st) = lines_sent q₀ r ++ step_says q₀ q st

abbrev unseen : {S : Type 0} → S → List ℕ
unseen s = []

module _ {S : Type 0} (P : Program S) (pending written : S → List ℕ) (e : ByteOrder) (gives : S → ℕ)
    (Good : S → Type 0)
    (peer : IsPeer (undisturbed P pending written) pending written e gives Good) where
  abbrev Sends : ℕ → List (List ℕ) → S → S → Type 0
  Sends n ls s s' = Good s' × Puts unseen written e n ls s s'

  Puts-Sends :
      (n : ℕ) (ls : List (List ℕ)) (s s' : S)
      → Good s' × Puts pending written e n ls s s'
      → Sends n ls s s'
  Puts-Sends n ls s s' (g, h) =
      (g, record { unread = refl; packets = h.packets; put = h.put; few = h.few; texts = h.texts })

  quietly : (s s' : S) → Good s' → written s' ≡ written s → Sends 0 [] s s'
  quietly s s' g w = (g, Puts-none unseen written e 0 s s' refl w)

  Step-Sends :
      (q q' : Threads S) (st : Step (undisturbed P pending written) q q')
      → Good q.state
      → Sends
          (step_gives (undisturbed P pending written) gives q q' st)
          (step_says (undisturbed P pending written) q q' st)
          q.state
          q'.state
  Step-Sends q q' (enters at up same) g =
      subst (λ x. Sends 0 [] q.state x.state) (sym same) (quietly q.state q.state g refl)
  Step-Sends q q' (falls_out at down same) g =
      subst (λ x. Sends 0 [] q.state x.state) (sym same) (quietly q.state q.state g refl)
  Step-Sends q q' (lines ctl r s at e same) g =
      subst (λ x. Sends (gives q.state) [] q.state x.state) (sym same)
        (Puts-Sends (gives q.state) [] q.state s (peer.line ctl q.state s r e g))
  Step-Sends q q' (files text at same) g =
      subst (λ x. Sends 0 [] q.state x.state) (sym same)
        (Puts-Sends 0 [] q.state (P.send_file q.state) (peer.send_file q.state g))
  Step-Sends q q' (sends text at same) g =
      subst (λ x. Sends 0 (line_of P text q.state) q.state x.state) (sym same)
        (Puts-Sends 0 (line_of P text q.state) q.state (P.send_line text q.state).1
          (peer.send_line text q.state g))
  Step-Sends q q' (reads at up same) g =
      let (good, w) = peer.read q.state g in
      subst (λ x. Sends 0 [] q.state x.state) (sym same) (quietly q.state (P.read q.state).1 good w)
  Step-Sends q q' (stops at down same) g =
      subst (λ x. Sends 0 [] q.state x.state) (sym same) (quietly q.state q.state g refl)
  Step-Sends q q' (handles a go s at e same) g =
      subst (λ x. Sends 0 [] q.state x.state) (sym same)
        (Puts-Sends 0 [] q.state s (peer.handle a q.state s go e g))
  Step-Sends q q' (changes s w same) g =
      subst (λ x. Sends 0 [] q.state x.state) (sym same)
        (quietly q.state s (peer.world q.state s w g) w.2)

  -- What a run wrote is whole packets, with no more acceptances among them than its lines gave.
  pub Reach-Sends :
      (s : S) (q : Threads S) (r : Reach (undisturbed P pending written) s q)
      → Good s
      → Sends
          (accepts_given (undisturbed P pending written) gives q r)
          (lines_sent (undisturbed P pending written) q r)
          s
          q.state
  unfolding accepts_given lines_sent
  Reach-Sends s q start g = quietly s s g refl
  Reach-Sends s q (later {q = q₀} r st) g =
      let (good, before) = Reach-Sends s q₀ r g in
      let (good', now) = Step-Sends q₀ q st good in
      (
        good',
        Puts-trans unseen written e (accepts_given (undisturbed P pending written) gives q₀ r)
            (step_gives (undisturbed P pending written) gives q₀ q st)
            (lines_sent (undisturbed P pending written) q₀ r)
            (step_says (undisturbed P pending written) q₀ q st) s q₀.state q.state before now,
      )
