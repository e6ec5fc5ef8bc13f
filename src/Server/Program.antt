-- ===== src/Server/Program.antt =====
-- The server's threads: the input loop of `StartServer` and `RunRecvThread`, call by call, and how
-- `StartServer` ends (src/ServerMod.cpp).
use wire_send.Common.{ℕ, ◌≡◌, List, Bool, false, ℤ, pos, if◌then◌else◌, Bool-cases, inl, inr}
use wire_send.Common.Outcome.{Outcome, ok, ◌>>=◌, bind_assoc}
use wire_send.Commands.{parse_commands, is_empty}
use wire_send.Wire.Memory.{ByteOrder}
use wire_send.Net.{Kernel}
use wire_send.Net.Sockets.{destroy}
use wire_send.Net.Frame.{read_frame}
use wire_send.Process.{Process, Outside, first_line, other_lines, Verdict, go_on, leave, goes_on}
use wire_send.Threads.{LineEnd, again, say_it, leaves, joins, Threads, Program, joined_then}
use wire_send.Server.{Server, after_arrival}
use wire_send.Server.Input.{command, send_pending, send_line, stop_server, input_round}

module _ (K : Kernel) (e : ByteOrder) where
  abbrev pub typed : ℕ → List ℕ → Server K.State → Outcome (LineEnd × Server K.State)
  typed ctl text v =
      if is_empty text
      then ok (again, v)
      else (command K e ctl (parse_commands text) v >>= λ v'. ok (say_it text, v'))

  -- `getline` and the `switch`.
  unfoldable pub take_line : ℕ → Server K.State → Outcome (LineEnd × Server K.State)
  take_line ctl v =
      typed ctl (first_line v.proc.input)
        (record v { proc = record v.proc { input = other_lines v.proc.input } })

  abbrev verdict_of : Outcome (Verdict × Server K.State) → Outcome (Bool × Server K.State)
  verdict_of o = o >>= λ r. ok (goes_on r.0, r.1)

  unfoldable pub server_program : Program (Server K.State)
  unfolding take_line
  server_program = record {
    running = λ v. v.proc.program_running;
    connected = λ v. v.server_connected;
    line = take_line;
    send_file = send_pending K e;
    send_line = λ text v. (goes_on (send_line K e text v).0, (send_line K e text v).1);
    read = λ v.
        let r = read_frame K e v.communication_socket_fd v.proc.sys in
        (r.0, record v { proc = record v.proc { sys = r.1 } });
    handle = λ a v. verdict_of (after_arrival K e a v);
    World = λ v v'. (p : Process K.State) × Outside v.proc p × (v' ≡ record v { proc = p });
  }

  -- Behind the loop: `StopServer`, and the destructors.
  unfoldable pub finish_server : ℕ → Threads (Server K.State) → Outcome (ℤ × Server K.State)
  finish_server ctl q =
      let v = stop_server K e ctl (record q.state { server_connected = false }) in
      let v' = record v { proc = record v.proc { sys = destroy K v.base v.proc.sys } } in
      joined_then q.input q.recv (pos 0, v')

  abbrev then_sent : LineEnd → Server K.State → Outcome (Verdict × Server K.State)
  then_sent again v = ok (go_on, v)
  then_sent (say_it text) v = ok (send_line K e text (send_pending K e v))
  then_sent leaves v = ok (leave, v)
  then_sent joins v = ok (leave, v)

  -- A round of the loop is `take_line` and what follows on it.
  pub input_round-take_line :
      (ctl : ℕ) (v : Server K.State)
      → input_round K e ctl v ≡ (take_line ctl v >>= λ r. then_sent r.0 r.1)
  unfolding input_round take_line
  input_round-take_line ctl v = elim (Bool-cases (is_empty (first_line v.proc.input))) [
    | inl e ↦ rw e
    | inr e ↦ simp (e, bind_assoc)
  ]
