-- ===== src/Client/Run.antt =====
-- The whole of `StartClient` (src/ClientMod.cpp).
use wire_send.Common.{
  ℕ, ◌⊎◌, inl, inr, ◌≡◌, ◌≢◌, refl, sym, ap, ◌∙◌, List, Bool, true, false, ℤ, pos, arith,
  text_eq_sound,
}
use wire_send.Common.Outcome.{Outcome, ok, ◌>>=◌, bind-ok}
use wire_send.Commands.{parse_commands}
use wire_send.Wire.Memory.{ByteOrder}
use wire_send.Net.{Kernel}
use wire_send.Net.Sockets.{Sockets}
use wire_send.Process.{Process, first_line, other_lines}
use wire_send.Threads.{
  LineEnd, again, say_it, leaves, joins, at_line, finished, ended, after_line, after_send, Threads,
  Reach, start, later, at_send, Step, enters, falls_out, lines, files, sends, reads, stops, handles,
  changes,
}
use wire_send.Threads.Tracing.{SomeStep}
use wire_send.Client.{Client}
use wire_send.Client.Input.{end_line, command}
use wire_send.Client.Setup.{start_client}
use wire_send.Client.Program.{take_line, client_program, finish_client, joined_then-ok}

module _ (K : Kernel) (N : Sockets K) (e : ByteOrder) where
  -- `ClientRun ip port p code v`: started with the address and the port, in a process like `p`,
  -- `StartClient` may return `code`, with the state `v`.
  pub data ClientRun (ip : List ℕ) (port : ℕ) (p : Process K.State) (code : ℤ) (v : Client K.State)
      : Type 0 where
    runs :
        (q : Threads (Client K.State))
        → Reach (client_program K e) (start_client K N ip port p) q
        → finish_client K e q ≡ ok (code, v)
        → ClientRun ip port p code v

module _ (K : Kernel) (e : ByteOrder) where
  said-ne-joins :
      (o : Outcome (Client K.State)) (text : List ℕ) (v' : Client K.State)
      → ◌>>=◌ {B = LineEnd × Client K.State} o (λ u. ok (say_it text, u)) ≢ ok (joins, v')
  said-ne-joins o text v' h = let (u, gone, ends) = bind-ok o _ h in cc

  -- Only the line that ends the connection, read while there is one, leads to the join.
  take_line-joins :
      (v v' : Client K.State)
      → take_line K e v ≡ ok (joins, v')
      → (first_line v.proc.input ≡ end_line)
        × (v.client_connected ≡ true)
        × (v.proc.program_running ≡ true)
  unfolding take_line
  take_line-joins v v' h =
      let text = first_line v.proc.input in
      let u = record v { proc = record v.proc { input = other_lines v.proc.input } } in
      ground (
        arith,
        said-ne-joins (command K e (parse_commands text) u) text v',
        text_eq_sound text end_line,
      )

  after_line-joins : (r : LineEnd) → after_line r ≡ finished true → r ≡ joins
  after_line-joins again h = absurd (cc)
  after_line-joins (say_it text) h = absurd (cc)
  after_line-joins leaves h = absurd (cc)
  after_line-joins joins h = refl

  after_send-unjoined : (go : Bool) → after_send go ≢ finished true
  after_send-unjoined true h = cc
  after_send-unjoined false h = cc

module _ (K : Kernel) (e : ByteOrder) where
  -- The step at which the loop ends by way of the join: the line that ends the connection is read
  -- while the program runs on and the client is connected.
  unfoldable pub EndLine :
      (q q' : Threads (Client K.State)) → Step (client_program K e) q q' → Type 0
  EndLine q q' (enters at up same) = ⊥
  EndLine q q' (falls_out at down same) = ⊥
  EndLine q q' (lines ctl r s at line same) =
      (first_line q.state.proc.input ≡ end_line)
      × (q.state.client_connected ≡ true)
      × (q.state.proc.program_running ≡ true)
      × (q'.input ≡ finished true)
  EndLine q q' (files text at same) = ⊥
  EndLine q q' (sends text at same) = ⊥
  EndLine q q' (reads at up same) = ⊥
  EndLine q q' (stops at down same) = ⊥
  EndLine q q' (handles a go s at done_by same) = ⊥
  EndLine q q' (changes s w same) = ⊥

  Step-exit :
      (q q' : Threads (Client K.State)) (st : Step (client_program K e) q q')
      → q'.input ≡ finished true
      → (q.input ≡ finished true) ⊎ EndLine q q' st
  unfolding client_program EndLine
  Step-exit q q' (enters at up same) h =
      absurd (let e : at_line ≡ finished true = sym (ap (λ x. x.input) same) ∙ h in cc)
  Step-exit q q' (falls_out at down same) h =
      absurd (let e : finished false ≡ finished true = sym (ap (λ x. x.input) same) ∙ h in cc)
  Step-exit q q' (lines ctl r s at line same) h =
      let joining = after_line-joins K e r (sym (ap (λ x. x.input) same) ∙ h) in
      let (last, up, on) = take_line-joins K e q.state s (line ∙ ap (λ x. ok (x, s)) joining) in
      inr (last, up, on, h)
  Step-exit q q' (files text at same) h =
      absurd (let e : at_send text ≡ finished true = sym (ap (λ x. x.input) same) ∙ h in cc)
  Step-exit q q' (sends text at same) h = absurd (
      after_send-unjoined K e ((client_program K e).send_line text q.state).0
        (sym (ap (λ x. x.input) same) ∙ h))
  Step-exit q q' (reads at up same) h = inl (sym (ap (λ x. x.input) same) ∙ h)
  Step-exit q q' (stops at down same) h = inl (sym (ap (λ x. x.input) same) ∙ h)
  Step-exit q q' (handles a go s at done_by same) h = inl (sym (ap (λ x. x.input) same) ∙ h)
  Step-exit q q' (changes s w same) h = inl (sym (ap (λ x. x.input) same) ∙ h)

  Reach-exit :
      (s : Client K.State) (q : Threads (Client K.State)) (r : Reach (client_program K e) s q)
      → q.input ≡ finished true
      → SomeStep (client_program K e) s EndLine q r
  unfolding SomeStep
  Reach-exit s q start h = absurd (cc)
  Reach-exit s q (later {q = q₀} r st) h = elim (Step-exit q₀ q st h) [
    | inl was ↦ inl (Reach-exit s q₀ r was)
    | inr last ↦ inr last
  ]

module _ (K : Kernel) (N : Sockets K) (e : ByteOrder) where
  -- If a run of the client's two threads comes to the return of `StartClient`, then it returns 0,
  -- its receiving thread has ended, and the step of that run at which the input loop ended read
  -- the line that ends the connection, while the program was to run and the client was connected.
  pub ClientRun-ended :
      (ip : List ℕ) (port : ℕ) (p : Process K.State) (code : ℤ) (v : Client K.State)
      (q : Threads (Client K.State)) (r : Reach (client_program K e) (start_client K N ip port p) q)
      → finish_client K e q ≡ ok (code, v)
      → (code ≡ pos 0)
        × (q.recv ≡ ended)
        × SomeStep (client_program K e) (start_client K N ip port p) (EndLine K e) q r
  unfolding finish_client
  ClientRun-ended ip port p code v q r finish =
      let (joined, gone, same) = joined_then-ok K e q.input q.recv _ _ finish in
      (sym (ap (λ x. x.0) same), gone, Reach-exit K e (start_client K N ip port p) q r joined)
