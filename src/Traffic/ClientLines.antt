-- ===== src/Traffic/ClientLines.antt =====
-- What a line of the client's user, and the sending of a file and of the line, write (src/ClientMod.cpp).
use wire_send.Common.{
  ℕ, ◌≡◌, refl, sym, subst, List, [], ◌∷◌, Bool, true, false, ℤ, Bool-cases, inl, inr,
  if◌then◌else◌, ◌||◌, not, text_eq, is_negative,
}
use wire_send.Common.Outcome.{Outcome, ok, ◌>>=◌, bind-ok}
use wire_send.Commands.{Command, parse_commands}
use wire_send.Wire.{value, message, no_arg}
use wire_send.Wire.Memory.{ByteOrder}
use wire_send.Net.{Kernel, IsStream, Transmission, done, broken, stuck}
use wire_send.Net.Reliable.{IsReliable}
use wire_send.Process.{Process, Notice, say, first_line, other_lines, first_answer}
use wire_send.Transfer.{packet_of, transmit, send_file}
use wire_send.Threads.{LineEnd, say_it, again, leaves, joins}
use wire_send.Client.{Client, notify}
use wire_send.Client.Input.{
  end_line, told_user, next_dialog, accept_command, reject_command, file_prompt_command, command,
  send_pending, send_line,
}
use wire_send.Client.Program.{goes_again, take_line, typed}
use wire_send.Traffic.{Puts}
use wire_send.Traffic.Files.{line_if, transmit_line-Puts, Writes, send_file-Writes}
-- What a command of the client's user accepts.
use wire_send.Traffic.ClientCalls.{
  Does, client_accepts, Does-if, Does-nothing, here, accept_command-Does, reject_command-Does,
  selected-Does, command_accepts,
}

module _ (K : Kernel) (fd : ℤ) (S : IsStream K fd) (R : IsReliable K fd S) (e : ByteOrder) where
  command-Does :
      (c : Command) (v v' : Client K.State)
      → v.sockfd ≡ fd
      → command K e c v ≡ ok v'
      → Does K fd S R e (command_accepts c v) v v'
  unfolding command file_prompt_command
  command-Does Command.not_a_command v v' g h =
      let same : v ≡ v' = cc in
      subst (Does K fd S R e 0 v) same (Does-nothing K fd S R e 0 v v g refl)
  command-Does Command.unknown v v' g h =
      let same : notify Notice.invalid_command v ≡ v' = cc in
      subst (Does K fd S R e 0 v) same
        (Does-nothing K fd S R e 0 v (notify Notice.invalid_command v) g refl)
  command-Does Command.stop v v' g h =
      let same : notify Notice.forbidden v ≡ v' = cc in
      subst (Does K fd S R e 0 v) same
        (Does-nothing K fd S R e 0 v (notify Notice.forbidden v) g refl)
  command-Does Command.accept v v' g h =
      let same : accept_command K e v ≡ v' = cc in
      subst (Does K fd S R e (command_accepts Command.accept v) v) same
        (accept_command-Does K fd S R e v g)
  command-Does Command.reject v v' g h =
      let same : reject_command K e v ≡ v' = cc in
      subst (Does K fd S R e 0 v) same (reject_command-Does K fd S R e v g)
  command-Does Command.file_prompt v v' g h =
      let p = record (next_dialog K e v.proc) { file_transfer_mode = true } in
      selected-Does K fd S R e (record v { proc = p }) v' (first_answer v.proc.dialogs) g h

  said-Does :
      (n : ℕ) (text : List ℕ) (v v' : Client K.State) (r : LineEnd)
      → n ≡ command_accepts (parse_commands text) v
      → v.sockfd ≡ fd
      → ◌>>=◌ {B = LineEnd × Client K.State}
          (command K e (parse_commands text) v)
          (λ u. ok (say_it text, u))
        ≡ ok (r, v')
      → Does K fd S R e n v v'
  said-Does n text v v' r same_n g h =
      let (u, ran, ends) = bind-ok (command K e (parse_commands text) v) _ h in
      let same : u ≡ v' = cc in
      subst (λ m. Does K fd S R e m v v') (sym same_n)
        (subst (Does K fd S R e (command_accepts (parse_commands text) v) v) same
          (command-Does (parse_commands text) v u g ran))

  nothing-Does :
      (n : ℕ) (x : LineEnd) (u v v' : Client K.State) (r : LineEnd)
      → u.sockfd ≡ fd
      → u.proc.sys ≡ v.proc.sys
      → ◌≡◌ {A = Outcome (LineEnd × Client K.State)} (ok (x, u)) (ok (r, v'))
      → Does K fd S R e n v v'
  nothing-Does n x u v v' r g h ends =
      let same : u ≡ v' = cc in subst (Does K fd S R e n v) same (Does-nothing K fd S R e n v u g h)

  typed-Does :
      (n : ℕ) (text : List ℕ) (v v' : Client K.State) (r : LineEnd)
      → n ≡ command_accepts (parse_commands text) v
      → v.sockfd ≡ fd
      → typed K e text v ≡ ok (r, v')
      → Does K fd S R e n v v'
  typed-Does n [] v v' r same_n g h = nothing-Does n again v v v' r g refl h
  typed-Does n (c ∷ cs) v v' r same_n g h = elim (Bool-cases (text_eq (c ∷ cs) end_line)) [
    | inl last ↦ nothing-Does n joins (notify Notice.ending v) v v' r g refl (rw last at h)
    | inr plain ↦ said-Does n (c ∷ cs) v v' r same_n g (rw plain at h)
  ]

  command_accepts_same :
      (c : Command) (v : Client K.State)
      → command_accepts c v
        ≡ command_accepts c (record v { proc = record v.proc { input = other_lines v.proc.input } })
  command_accepts_same Command.accept v = refl
  command_accepts_same Command.reject v = refl
  command_accepts_same Command.stop v = refl
  command_accepts_same Command.file_prompt v = refl
  command_accepts_same Command.unknown v = refl
  command_accepts_same Command.not_a_command v = refl

  guarded-Does :
      (n : ℕ) (b : Bool) (v u v' : Client K.State) (o : Outcome (LineEnd × Client K.State))
      (r : LineEnd)
      → u.sockfd ≡ fd
      → u.proc.sys ≡ v.proc.sys
      → (o ≡ ok (r, v') → Does K fd S R e n v v')
      → (if b then ok (leaves, u) else o) ≡ ok (r, v')
      → Does K fd S R e (if b then 0 else n) v v'
  guarded-Does n true v u v' o r g h run ends = nothing-Does 0 leaves u v v' r g h ends
  guarded-Does n false v u v' o r g h run ends = run ends

  -- A line writes no acceptance but the one of `/a`.
  pub take_line-Does :
      (v v' : Client K.State) (r : LineEnd)
      → v.sockfd ≡ fd
      → take_line K e v ≡ ok (r, v')
      → Does K fd S R e (client_accepts v) v v'
  unfolding take_line
  take_line-Does v v' r g h =
      let text = first_line v.proc.input in
      let u = record v { proc = record v.proc { input = other_lines v.proc.input } } in
      let n = command_accepts (parse_commands text) v in
      guarded-Does n (not v.proc.program_running || not v.client_connected) v u v'
        (typed K e text u) r g refl
        (typed-Does n text u v' r (command_accepts_same (parse_commands text) v) g) h

  pub send_pending-Does :
      (v : Client K.State) → v.sockfd ≡ fd → Does K fd S R e 0 v (send_pending K e v)
  unfolding send_pending
  send_pending-Does v g =
      let r = send_file K e v.sockfd v.outgoing v.proc in
      let p = if is_negative r.0 then say Notice.send_error r.1 else r.1 in
      Does-if K fd S R e 0 v.file_send_in_progress v
        (record v { proc = say Notice.sent_the_file p; file_send_in_progress = false }) v
        (
          g,
          said-Writes v.proc r.1 (is_negative r.0) (
              here K fd S R e 0 v.proc (λ d. (send_file K e d v.outgoing v.proc).1) v g
                (send_file-Writes K fd S R e v.outgoing v.proc)),
        )
        (Does-nothing K fd S R e 0 v v g refl)
    where
      said-Writes :
          (p q : Process K.State) (b : Bool)
          → Writes K fd S R e 0 p q
          → Puts S.pending S.written e 0 [] p.sys (if b then say Notice.send_error q else q).sys
      said-Writes p q true h = h
      said-Writes p q false h = h

  -- The line is written if and only if the loop goes on.
  pub send_line-Puts :
      (text : List ℕ) (v : Client K.State)
      → v.sockfd ≡ fd
      → ((send_line K e text v).1.sockfd ≡ fd)
        × Puts S.pending S.written e 0
            (if goes_again K e (send_line K e text v).0 then text ∷ [] else [])
            v.proc.sys
            (send_line K e text v).1.proc.sys
  unfolding send_line
  send_line-Puts text v g =
      let packet = packet_of (value message) text (value no_arg) in
      told_user-Puts v (transmit K e v.sockfd packet v.proc) g (
        subst
          (λ d.
            Puts S.pending S.written e 0 (line_if (transmit K e d packet v.proc).0 text) v.proc.sys
              (transmit K e d packet v.proc).1.sys)
          (sym g) (transmit_line-Puts K fd S R e text v.proc))
    where
      told_user-Puts :
          (v : Client K.State) (r : Transmission × Process K.State)
          → v.sockfd ≡ fd
          → Puts S.pending S.written e 0 (line_if r.0 text) v.proc.sys r.1.sys
          → ((told_user K e text v r).1.sockfd ≡ fd)
            × Puts S.pending S.written e 0
                (if goes_again K e (told_user K e text v r).0 then text ∷ [] else [])
                v.proc.sys
                (told_user K e text v r).1.proc.sys
      told_user-Puts v (done, p) g h = (g, h)
      told_user-Puts v (broken, p) g h = (g, h)
      told_user-Puts v (stuck, p) g h = (g, h)
