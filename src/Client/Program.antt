-- ===== src/Client/Program.antt =====
-- The client's threads: the input loop of `StartClient` and `RunRecvThread`, call by call, and how
-- `StartClient` ends (src/ClientMod.cpp).
use wire_send.Common.{
  ℕ, ◌≡◌, refl, List, Bool, true, false, not, ◌||◌, ℤ, pos, text_eq, if◌then◌else◌, Bool-cases, inl,
  inr, ◌↔◌,
}
use wire_send.Common.Outcome.{Outcome, ok, ◌>>=◌, bind_assoc}
use wire_send.Commands.{parse_commands, is_empty}
use wire_send.Wire.Memory.{ByteOrder}
use wire_send.Net.{Kernel}
use wire_send.Net.Sockets.{destroy}
use wire_send.Net.Frame.{read_frame}
use wire_send.Process.{Process, Notice, Outside, first_line, other_lines, Verdict, goes_on}
use wire_send.Threads.{
  LineEnd, again, say_it, leaves, joins, InputPc, RecvPc, at_while, at_line, at_file, at_send,
  finished, reading, holding, ended, Threads, Program, joined_then,
}
use wire_send.Client.{Client, notify, with_sys, after_arrival, close_connection}
use wire_send.Client.Input.{Ending, left, end_line, command, send_pending, send_line, input_round}

module _ (K : Kernel) (e : ByteOrder) where
  abbrev pub typed : List ℕ → Client K.State → Outcome (LineEnd × Client K.State)
  typed text v =
      if is_empty text
      then ok (again, v)
      else if text_eq text end_line
      then ok (joins, notify Notice.ending v)
      else (command K e (parse_commands text) v >>= λ v'. ok (say_it text, v'))

  -- `getline`, the tests behind it and the `switch`.
  unfoldable pub take_line : Client K.State → Outcome (LineEnd × Client K.State)
  take_line v =
      let v' = record v { proc = record v.proc { input = other_lines v.proc.input } } in
      if not v.proc.program_running || not v.client_connected
      then ok (leaves, v')
      else typed (first_line v.proc.input) v'

  abbrev pub goes_again : Ending → Bool
  goes_again Ending.again = true
  goes_again left = false
  goes_again Ending.joins = false

  abbrev verdict_of : Outcome (Verdict × Client K.State) → Outcome (Bool × Client K.State)
  verdict_of o = o >>= λ r. ok (goes_on r.0, r.1)

  unfoldable pub client_program : Program (Client K.State)
  unfolding take_line
  client_program = record {
    running = λ v. v.proc.program_running;
    connected = λ v. v.client_connected;
    line = λ ctl v. take_line v;
    send_file = send_pending K e;
    send_line = λ text v. (goes_again (send_line K e text v).0, (send_line K e text v).1);
    read = λ v. let r = read_frame K e v.sockfd v.proc.sys in (r.0, with_sys K r.1 v);
    handle = λ a v. verdict_of (after_arrival K e a v);
    World = λ v v'. (p : Process K.State) × Outside v.proc p × (v' ≡ record v { proc = p });
  }

  -- Behind the loop: the join if it was left that way, `CloseConnection`, and the destructors.
  unfoldable pub finish_client : Threads (Client K.State) → Outcome (ℤ × Client K.State)
  unfolding close_connection
  finish_client q =
      let v = close_connection K q.state in
      let v' = record v { proc = record v.proc { sys = destroy K v.base v.proc.sys } } in
      joined_then q.input q.recv (pos 0, v')

  abbrev then_sent : LineEnd → Client K.State → Outcome (Ending × Client K.State)
  then_sent again v = ok (Ending.again, v)
  then_sent (say_it text) v = ok (send_line K e text (send_pending K e v))
  then_sent leaves v = ok (left, v)
  then_sent joins v = ok (Ending.joins, v)

  -- A round of the loop is `take_line` and what follows on it.
  pub client_round-take_line :
      (v : Client K.State) → input_round K e v ≡ (take_line v >>= λ r. then_sent r.0 r.1)
  unfolding input_round take_line
  client_round-take_line v =
      elim (Bool-cases (not v.proc.program_running || not v.client_connected)) [
        | inl down ↦ rw down
        | inr up ↦ rw up (elim (Bool-cases (is_empty (first_line v.proc.input))) [
          | inl blank ↦ rw blank
          | inr some_text ↦
              rw some_text (elim (Bool-cases (text_eq (first_line v.proc.input) end_line)) [
                | inl last ↦ rw last
                | inr plain ↦ simp (plain, bind_assoc)
              ])
        ])
      ]

  pub joined_then-ok :
      {A : Type 0} (i : InputPc) (r : RecvPc) (a b : A)
      → joined_then i r a ≡ ok b
      → (i ≡ finished true) × (r ≡ ended) × (a ≡ b)
  joined_then-ok (finished true) ended a b h = (refl, refl, cc)
  joined_then-ok (finished true) reading a b h = absurd (cc)
  joined_then-ok (finished true) (holding x) a b h = absurd (cc)
  joined_then-ok (finished false) r a b h = absurd (cc)
  joined_then-ok at_while r a b h = absurd (cc)
  joined_then-ok at_line r a b h = absurd (cc)
  joined_then-ok (at_file text) r a b h = absurd (cc)
  joined_then-ok (at_send text) r a b h = absurd (cc)

  joined_then-joined :
      {A : Type 0} (i : InputPc) (r : RecvPc) (a : A)
      → i ≡ finished true
      → r ≡ ended
      → joined_then i r a ≡ ok a
  joined_then-joined i r a left_it gone = rw (left_it, gone)

  -- The end of `StartClient` returns exactly behind the join, once the receiving thread has ended.
  pub finish_client_iff :
      (q : Threads (Client K.State))
      → ((r : ℤ × Client K.State) × (finish_client q ≡ ok r))
        ↔ ((q.input ≡ finished true) × (q.recv ≡ ended))
  unfolding finish_client
  finish_client_iff q = (
    λ h. let (i, r, same) = joined_then-ok q.input q.recv _ h.0 h.1 in (i, r),
    λ h. (_, joined_then-joined q.input q.recv _ h.0 h.1),
  )
