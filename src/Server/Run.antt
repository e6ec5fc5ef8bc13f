-- ===== src/Server/Run.antt =====
-- The whole of `StartServer` (src/ServerMod.cpp): how it starts, what its two threads do, and how it
-- returns.
use wire_send.Common.{
  ℕ, ◌≡◌, ◌≢◌, sym, ap, ◌∙◌, List, Bool, true, false, ℤ, negsuc, inl, inr, ◌⊎◌, if◌then◌else◌,
}
use wire_send.Common.Outcome.{Outcome, ok, terminated, ◌>>=◌, bind-ok}
use wire_send.Commands.{is_empty}
use wire_send.Wire.{value, message, no_arg}
use wire_send.Wire.Memory.{ByteOrder}
use wire_send.Net.{Kernel, Transmission, done, broken, stuck}
use wire_send.Net.Sockets.{Sockets}
use wire_send.Process.{Process, first_line, go_on, return_error, goes_on}
use wire_send.Transfer.{packet_of, transmit}
use wire_send.Threads.{
  LineEnd, again, say_it, at_while, at_line, at_file, at_send, finished, after_line, after_send,
  Threads, Step, enters, falls_out, lines, files, sends, reads, stops, handles, changes,
}
use wire_send.Threads.Joining.{NeverJoins, joined_then-unjoined, joined_then-terminated}
use wire_send.Threads.Greeting.{Run, created, before, greets, after, SomeStep, Run-unjoined}
use wire_send.Server.{Server}
use wire_send.Server.Input.{send_line, told_user}
use wire_send.Server.Setup.{start_server, greet}
use wire_send.Server.Program.{take_line, server_program, finish_server}
use wire_send.Server.Running.{Runs, server_threads-Runs}

module _ (K : Kernel) (N : Sockets K) (e : ByteOrder) where
  -- `ServerRun port p code v`: started with the port, in a process like `p`, `StartServer` may return
  -- `code`, with the state `v`. A control byte that is not set may be anything.
  pub data ServerRun (port : ℕ) (p : Process K.State) (code : ℤ) (v : Server K.State) : Type 0 where
    not_started :
        (ctl : ℕ)
        → code ≡ negsuc 0
        → start_server K N e ctl port p ≡ ok (return_error, v)
        → ServerRun port p code v
    runs :
        (ctl₁ ctl₂ : ℕ) (u : Server K.State) (q : Threads (Server K.State))
        → start_server K N e ctl₁ port p ≡ ok (go_on, u)
        → Run (server_program K e) (greet K N e) u true q
        → finish_server K e ctl₂ q ≡ ok (code, v)
        → ServerRun port p code v

module _ (K : Kernel) (e : ByteOrder) where
  -- A line leads to the next one, or to its sending.
  take_line-goes_on :
      (ctl : ℕ) (v v' : Server K.State) (r : LineEnd)
      → take_line K e ctl v ≡ ok (r, v')
      → (r ≡ again) ⊎ ((text : List ℕ) × (r ≡ say_it text))
  unfolding take_line
  take_line-goes_on ctl v v' r h = branches (is_empty (first_line v.proc.input)) _ _ h
    where
      branches :
          (blank : Bool) (o : Outcome (Server K.State)) (u : Server K.State)
          → if◌then◌else◌ {A = Outcome (LineEnd × Server K.State)} blank
              (ok (again, u))
              (o >>= λ w. ok (say_it (first_line v.proc.input), w))
            ≡ ok (r, v')
          → (r ≡ again) ⊎ ((text : List ℕ) × (r ≡ say_it text))
      branches true o u same = inl cc
      branches false o u same =
          let (w, gone, ends) = bind-ok o _ same in inr (first_line v.proc.input, cc)

  after_line-unfinished :
      (r : LineEnd) (joined : Bool)
      → (r ≡ again) ⊎ ((text : List ℕ) × (r ≡ say_it text))
      → after_line r ≢ finished joined
  after_line-unfinished r joined (inl same) ends =
      let e : at_while ≡ finished joined = sym (ap after_line same) ∙ ends in cc
  after_line-unfinished r joined (inr (text, same)) ends =
      let e : at_file text ≡ finished joined = sym (ap after_line same) ∙ ends in cc

  -- What the sending of a line returns.
  abbrev pub sent : List ℕ → Server K.State → Transmission
  sent text v =
      (transmit K e v.communication_socket_fd (packet_of (value message) text (value no_arg))
        v.proc).0

  -- The step at which the loop ends with a line whose sending did not succeed.
  unfoldable pub FailedSend :
      (joined : Bool) (q q' : Threads (Server K.State)) → Step (server_program K e) q q' → Type 0
  FailedSend joined q q' (enters at up same) = ⊥
  FailedSend joined q q' (falls_out at down same) = ⊥
  FailedSend joined q q' (lines ctl r s at line same) = ⊥
  FailedSend joined q q' (files text at same) = ⊥
  FailedSend joined q q' (sends text at same) =
      (sent text q.state ≢ done) × (q'.input ≡ finished joined)
  FailedSend joined q q' (reads at up same) = ⊥
  FailedSend joined q q' (stops at down same) = ⊥
  FailedSend joined q q' (handles a go s at done_by same) = ⊥
  FailedSend joined q q' (changes s w same) = ⊥

  told_user-failed :
      (text : List ℕ) (v : Server K.State) (r : Transmission × Process K.State) (joined : Bool)
      → after_send (goes_on (told_user K e text v r).0) ≡ finished joined
      → r.0 ≢ done
  told_user-failed text v (done, p) joined failed whole = cc
  told_user-failed text v (broken, p) joined failed whole = cc
  told_user-failed text v (stuck, p) joined failed whole = cc

  send_line-failed :
      (text : List ℕ) (v : Server K.State) (joined : Bool)
      → after_send (goes_on (send_line K e text v).0) ≡ finished joined
      → sent text v ≢ done
  unfolding send_line
  send_line-failed text v joined failed = told_user-failed text v _ joined failed

  server_program-NeverJoins : NeverJoins (server_program K e)
  unfolding server_program
  server_program-NeverJoins ctl s s' r h at_join = elim (take_line-goes_on ctl s s' r h) [
    | inl same ↦ cc
    | inr (text, same) ↦ cc
  ]

module _ (K : Kernel) (N : Sockets K) (e : ByteOrder) where
  -- `StartServer` returns nothing but -1.
  pub ServerRun-code :
      (port : ℕ) (p : Process K.State) (code : ℤ) (v : Server K.State)
      → ServerRun K N e port p code v
      → code ≡ negsuc 0
  unfolding finish_server
  ServerRun-code port p code v (not_started ctl minus_one refused) = minus_one
  ServerRun-code port p code v (runs ctl₁ ctl₂ u q started reach finish) = absurd (
      joined_then-unjoined q.input q.recv _ (code, v)
        (Run-unjoined (server_program K e) (greet K N e) u (server_program-NeverJoins K e) true q
          reach)
        finish)

  -- Behind the end of the loop nothing has joined the receiving thread.
  finish_server-terminated :
      (ctl : ℕ) (u : Server K.State) (q : Threads (Server K.State)) (joined : Bool)
      → Run (server_program K e) (greet K N e) u true q
      → q.input ≡ finished joined
      → finish_server K e ctl q ≡ terminated
  unfolding finish_server
  finish_server-terminated ctl u q joined reach at_end =
      joined_then-terminated q.input q.recv _ joined at_end (
        Run-unjoined (server_program K e) (greet K N e) u (server_program-NeverJoins K e) true q
          reach)

  Step-exit :
      (joined : Bool) (q q' : Threads (Server K.State)) (st : Step (server_program K e) q q')
      → Runs q.state
      → q'.input ≡ finished joined
      → (q.input ≡ finished joined) ⊎ FailedSend K e joined q q' st
  unfolding server_program FailedSend
  Step-exit joined q q' (enters at up same) i h =
      absurd (let e : at_line ≡ finished joined = sym (ap (λ x. x.input) same) ∙ h in cc)
  Step-exit joined q q' (falls_out at down same) i h = absurd (cc)
  Step-exit joined q q' (lines ctl r s at line same) i h = absurd (
      after_line-unfinished K e r joined (take_line-goes_on K e ctl q.state s r line)
        (sym (ap (λ x. x.input) same) ∙ h))
  Step-exit joined q q' (files text at same) i h =
      absurd (let e : at_send text ≡ finished joined = sym (ap (λ x. x.input) same) ∙ h in cc)
  Step-exit joined q q' (sends text at same) i h =
      let failed = send_line-failed K e text q.state joined (sym (ap (λ x. x.input) same) ∙ h) in
      inr (failed, h)
  Step-exit joined q q' (reads at up same) i h = inl (sym (ap (λ x. x.input) same) ∙ h)
  Step-exit joined q q' (stops at down same) i h = inl (sym (ap (λ x. x.input) same) ∙ h)
  Step-exit joined q q' (handles a go s at done_by same) i h =
      inl (sym (ap (λ x. x.input) same) ∙ h)
  Step-exit joined q q' (changes s w same) i h = inl (sym (ap (λ x. x.input) same) ∙ h)

  Run-exit :
      (joined : Bool) (ctl port : ℕ) (p : Process K.State) (u : Server K.State) (greeted : Bool)
      (q : Threads (Server K.State))
      → p.program_running ≡ true
      → start_server K N e ctl port p ≡ ok (go_on, u)
      → (r : Run (server_program K e) (greet K N e) u greeted q) → q.input ≡ finished joined
      → SomeStep (server_program K e) (greet K N e) u (FailedSend K e joined) greeted q r
  unfolding SomeStep
  Run-exit joined ctl port p u greeted q up begun created h = absurd (cc)
  Run-exit joined ctl port p u greeted q up begun (before r st at) h = absurd (cc)
  Run-exit joined ctl port p u greeted q up begun (greets {q = q₀} c r same) h =
      Run-exit joined ctl port p u false q₀ up begun r (sym (ap (λ x. x.input) same) ∙ h)
  Run-exit joined ctl port p u greeted q up begun (after {q = q₀} r st) h =
      elim (Step-exit joined q₀ q st (server_threads-Runs K N e ctl port p u true q₀ up begun r)
        h) [
          | inl was ↦ inl (Run-exit joined ctl port p u true q₀ up begun r was)
          | inr failed ↦ inr failed
        ]

  -- If the server starts, in a process that is to run, then in every run of its two threads from
  -- the creation of the receiving thread, in any order of their calls: if the input loop has
  -- ended, the end of `StartServer` returns no result, and the step of that run at which the loop
  -- ended is the sending of a line that did not succeed. No command ends the loop.
  pub server_ends :
      (ctl₁ ctl₂ port : ℕ) (p : Process K.State) (u : Server K.State) (q : Threads (Server K.State))
      (joined : Bool) (c : ℤ × Server K.State)
      → p.program_running ≡ true
      → start_server K N e ctl₁ port p ≡ ok (go_on, u)
      → (r : Run (server_program K e) (greet K N e) u true q) → q.input ≡ finished joined
      → (finish_server K e ctl₂ q ≢ ok c)
        × SomeStep (server_program K e) (greet K N e) u (FailedSend K e joined) true q r
  server_ends ctl₁ ctl₂ port p u q joined c up begun r at_end = (
    unreturned (finish_server-terminated ctl₂ u q joined r at_end),
    Run-exit joined ctl₁ port p u true q up begun r at_end,
  )
    where
      unreturned : {A : Type 0} {o : Outcome A} {x : A} → o ≡ terminated → o ≢ ok x
      unreturned {x = x} gone back = let e : terminated ≡ ok x = sym gone ∙ back in cc

  -- A run ends in the error return before the loop, or not in a return.
  pub ServerRun-refused :
      (port : ℕ) (p : Process K.State) (code : ℤ) (v : Server K.State)
      → ServerRun K N e port p code v
      → (ctl : ℕ) × (start_server K N e ctl port p ≡ ok (return_error, v))
  unfolding finish_server
  ServerRun-refused port p code v (not_started ctl minus_one refused) = (ctl, refused)
  ServerRun-refused port p code v (runs ctl₁ ctl₂ u q started reach finish) = absurd (
      joined_then-unjoined q.input q.recv _ (code, v)
        (Run-unjoined (server_program K e) (greet K N e) u (server_program-NeverJoins K e) true q
          reach)
        finish)
