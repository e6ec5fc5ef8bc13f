-- ===== src/Traffic/Receiving.antt =====
-- Where a run of a program stands with what comes in, step by step.
use wire_send.Common.{ℕ, ◌≡◌, refl, sym, ap, ◌∙◌, subst, List, [], ◌++◌, append-nil, All}
use wire_send.Common.Outcome.{ok}
use wire_send.Wire.{Packet}
use wire_send.Wire.Memory.{ByteOrder}
use wire_send.Threads.{
  reading, holding, Threads, Program, Step, enters, falls_out, lines, files, sends, reads, stops,
  handles, changes, Reach, start, later,
}
use wire_send.Transfer.Sending.{wire}
use wire_send.Traffic.Reading.{IsShort}
use wire_send.Traffic.Peer.{IsPeer, undisturbed, packets_of}
use wire_send.Traffic.Arriving.{
  At, Arrives, Arrives-moved, handled-Arrives, ended-Arrives, All-left, step_handles,
  packets_handled,
}

module _ {S : Type 0} (P : Program S) (pending written : S → List ℕ) (e : ByteOrder) (gives : S → ℕ)
    (Good : S → Type 0) (peer : IsPeer (undisturbed P pending written) pending written e gives Good)
    (sender : ByteOrder) (ps : List Packet) (short : All IsShort ps) where
  -- Where a run stands with what comes in.
  abbrev pub Receives : Threads S → List Packet → Type 0
  Receives q done = Good q.state × Arrives pending sender ps q.state q.recv done

  still :
      (q : Threads S) (s : S) (done : List Packet)
      → pending s ≡ pending q.state
      → Good s
      → Arrives pending sender ps q.state q.recv done
      → Good s × Arrives pending sender ps s q.recv (done ++ [])
  still q s done h g a = (g, Arrives-moved pending sender ps q.state s q.recv done h a)

  holding-Arrives :
      (q : Threads S) (done : List Packet)
      → Good q.state
      → q.recv ≡ reading
      → Arrives pending sender ps q.state q.recv done
      → Arrives pending sender ps (P.read q.state).1 (holding (P.read q.state).0) (done ++ [])
  holding-Arrives q done g at a =
      let here : At pending sender ps reading q.state a.left =
        subst (λ r. At pending sender ps r q.state a.left) at a.at in
      record {
        got = a.got;
        left = a.left;
        split = a.split;
        handled = append-nil done ∙ a.handled;
        at = λ p came.
            peer.takes sender a.left q.state p g
              (All-left pending sender ps a.got a.left ps a.split short) here came;
      }

  Step-Receives :
      (q q' : Threads S) (st : Step (undisturbed P pending written) q q') (done : List Packet)
      → Receives q done
      → Receives q' (done ++ step_handles (undisturbed P pending written) q q' st)
  Step-Receives q q' (enters at up same) done (g, a) =
      subst (λ x. Receives x (done ++ [])) (sym same) (still q q.state done refl g a)
  Step-Receives q q' (falls_out at down same) done (g, a) =
      subst (λ x. Receives x (done ++ [])) (sym same) (still q q.state done refl g a)
  Step-Receives q q' (lines ctl r s at e same) done (g, a) =
      let (good, put) = peer.line ctl q.state s r e g in
      subst (λ x. Receives x (done ++ [])) (sym same) (still q s done put.unread good a)
  Step-Receives q q' (files text at same) done (g, a) =
      let (good, put) = peer.send_file q.state g in
      subst (λ x. Receives x (done ++ [])) (sym same)
        (still q (P.send_file q.state) done put.unread good a)
  Step-Receives q q' (sends text at same) done (g, a) =
      let (good, put) = peer.send_line text q.state g in
      subst (λ x. Receives x (done ++ [])) (sym same)
        (still q (P.send_line text q.state).1 done put.unread good a)
  Step-Receives q q' (reads at up same) done (g, a) =
      let (good, w) = peer.read q.state g in
      subst (λ x. Receives x (done ++ [])) (sym same) (good, holding-Arrives q done g at a)
  Step-Receives q q' (stops at down same) done (g, a) =
      subst (λ x. Receives x (done ++ [])) (sym same)
        (g, ended-Arrives pending sender ps q.state q.state q.recv done a)
  Step-Receives q q' (handles a go s at e same) done (g, before) =
      let (good, put) = peer.handle a q.state s go e g in
      let held = subst (λ r. Arrives pending sender ps q.state r done) at before in
      subst (λ x. Receives x (done ++ packets_of a)) (sym same)
        (
          good,
          handled-Arrives pending sender ps a q.state s go done put.unread
              (λ on. peer.goes_on_after a q.state s (e ∙ ap (λ b. ok (b, s)) on)) held,
        )
  Step-Receives q q' (changes s w same) done (g, a) =
      subst (λ x. Receives x (done ++ [])) (sym same)
        (still q s done w.1 (peer.world q.state s w g) a)

  -- Of the packets that are on the stream at the start, a run has handled a front, in order.
  pub Reach-Receives :
      (s : S) (q : Threads S) (r : Reach (undisturbed P pending written) s q)
      → Good s
      → pending s ≡ wire sender ps
      → Receives q (packets_handled (undisturbed P pending written) q r)
  unfolding packets_handled
  Reach-Receives s q start g h =
      (g, record { got = []; left = ps; split = refl; handled = refl; at = h })
  Reach-Receives s q (later {q = q₀} r st) g h =
      Step-Receives q₀ q st (packets_handled (undisturbed P pending written) q₀ r)
        (Reach-Receives s q₀ r g h)
