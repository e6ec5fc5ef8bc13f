-- ===== src/Traffic/ServerLines.antt =====
-- What a line of the server's user, and the sending of a file and of the line, write (src/ServerMod.cpp).
use wire_send.Common.{
  ℕ, ◌≡◌, refl, sym, subst, List, [], ◌∷◌, Bool, true, false, ℤ, if◌then◌else◌, is_negative,
}
use wire_send.Common.Outcome.{ok, bind-ok}
use wire_send.Commands.{Command, parse_commands}
use wire_send.Wire.{value, message, no_arg}
use wire_send.Wire.Memory.{ByteOrder}
use wire_send.Net.{Kernel, IsStream, Transmission, done, broken, stuck}
use wire_send.Net.Reliable.{IsReliable}
use wire_send.Process.{goes_on, Process, Notice, say, first_line, other_lines, first_answer}
use wire_send.Transfer.{packet_of, transmit, send_file}
use wire_send.Threads.{LineEnd}
use wire_send.Server.{Server, notify}
use wire_send.Server.Input.{
  told_user, stop_server, next_dialog, accept_command, reject_command, file_prompt_command, command,
  send_pending, send_line,
}
use wire_send.Server.Program.{take_line, typed}
use wire_send.Traffic.{Puts}
use wire_send.Traffic.Files.{line_if, transmit_line-Puts, Writes, send_file-Writes}
-- What a command of the server's user accepts.
use wire_send.Traffic.ServerCalls.{
  Does, server_accepts, Does-if, Does-nothing, here, accept_command-Does, reject_command-Does,
  selected-Does, stop_server-Does, command_accepts,
}

module _ (K : Kernel) (fd : ℤ) (S : IsStream K fd) (R : IsReliable K fd S) (e : ByteOrder) where
  command-Does :
      (ctl : ℕ) (c : Command) (v v' : Server K.State)
      → v.communication_socket_fd ≡ fd
      → command K e ctl c v ≡ ok v'
      → Does K fd S R e (command_accepts c v) v v'
  unfolding command file_prompt_command
  command-Does ctl Command.not_a_command v v' g h =
      let same : v ≡ v' = cc in
      subst (Does K fd S R e 0 v) same (Does-nothing K fd S R e 0 v v g refl)
  command-Does ctl Command.unknown v v' g h =
      let same : notify Notice.invalid_command v ≡ v' = cc in
      subst (Does K fd S R e 0 v) same
        (Does-nothing K fd S R e 0 v (notify Notice.invalid_command v) g refl)
  command-Does ctl Command.stop v v' g h =
      let same : stop_server K e ctl v ≡ v' = cc in
      subst (Does K fd S R e 0 v) same (stop_server-Does K fd S R e ctl v g)
  command-Does ctl Command.accept v v' g h =
      let same : accept_command K e v ≡ v' = cc in
      subst (Does K fd S R e (command_accepts Command.accept v) v) same
        (accept_command-Does K fd S R e v g)
  command-Does ctl Command.reject v v' g h =
      let same : reject_command K e v ≡ v' = cc in
      subst (Does K fd S R e 0 v) same (reject_command-Does K fd S R e v g)
  command-Does ctl Command.file_prompt v v' g h =
      let p = record (next_dialog K e v.proc) { file_transfer_mode = true } in
      selected-Does K fd S R e (record v { proc = p }) v' (first_answer v.proc.dialogs) g h

  typed-Does :
      (ctl n : ℕ) (text : List ℕ) (v v' : Server K.State) (r : LineEnd)
      → n ≡ command_accepts (parse_commands text) v
      → v.communication_socket_fd ≡ fd
      → typed K e ctl text v ≡ ok (r, v')
      → Does K fd S R e n v v'
  typed-Does ctl n [] v v' r same_n g h =
      let same : v ≡ v' = cc in
      subst (Does K fd S R e n v) same (Does-nothing K fd S R e n v v g refl)
  typed-Does ctl n (c ∷ cs) v v' r same_n g h =
      let (u, ran, ends) = bind-ok (command K e ctl (parse_commands (c ∷ cs)) v) _ h in
      let same : u ≡ v' = cc in
      subst (λ m. Does K fd S R e m v v') (sym same_n)
        (subst (Does K fd S R e (command_accepts (parse_commands (c ∷ cs)) v) v) same
          (command-Does ctl (parse_commands (c ∷ cs)) v u g ran))

  -- A line writes no acceptance but the one of `/a`.
  pub take_line-Does :
      (ctl : ℕ) (v v' : Server K.State) (r : LineEnd)
      → v.communication_socket_fd ≡ fd
      → take_line K e ctl v ≡ ok (r, v')
      → Does K fd S R e (server_accepts v) v v'
  unfolding take_line
  take_line-Does ctl v v' r g h =
      let u = record v { proc = record v.proc { input = other_lines v.proc.input } } in
      typed-Does ctl (server_accepts v) (first_line v.proc.input) u v' r
        (command_accepts_same (parse_commands (first_line v.proc.input)) v) g h
    where
      command_accepts_same :
          (c : Command) (v : Server K.State)
          → command_accepts c v
            ≡ command_accepts c
                (record v { proc = record v.proc { input = other_lines v.proc.input } })
      command_accepts_same Command.accept v = refl
      command_accepts_same Command.reject v = refl
      command_accepts_same Command.stop v = refl
      command_accepts_same Command.file_prompt v = refl
      command_accepts_same Command.unknown v = refl
      command_accepts_same Command.not_a_command v = refl

  pub send_pending-Does :
      (v : Server K.State)
      → v.communication_socket_fd ≡ fd
      → Does K fd S R e 0 v (send_pending K e v)
  unfolding send_pending
  send_pending-Does v g =
      let r = send_file K e v.communication_socket_fd v.outgoing v.proc in
      let p = if is_negative r.0 then say Notice.send_error r.1 else r.1 in
      Does-if K fd S R e 0 v.file_send_in_progress v
        (record v { proc = say Notice.sent_the_file p; file_send_in_progress = false }) v
        (
          g,
          said-Writes v.proc r.1 (is_negative r.0) (
              here K fd S R e 0 v.proc (λ d. (send_file K e d v.outgoing v.proc).1) v g
                (send_file-Writes K fd S R e v.outgoing v.proc)),
        )
        (Does-nothing K fd S R e 0 v v g refl)
    where
      said-Writes :
          (p q : Process K.State) (b : Bool)
          → Writes K fd S R e 0 p q
          → Puts S.pending S.written e 0 [] p.sys (if b then say Notice.send_error q else q).sys
      said-Writes p q true h = h
      said-Writes p q false h = h

  -- The line is written if and only if the loop goes on.
  pub send_line-Puts :
      (text : List ℕ) (v : Server K.State)
      → v.communication_socket_fd ≡ fd
      → ((send_line K e text v).1.communication_socket_fd ≡ fd)
        × Puts S.pending S.written e 0
            (if goes_on (send_line K e text v).0 then text ∷ [] else [])
            v.proc.sys
            (send_line K e text v).1.proc.sys
  unfolding send_line
  send_line-Puts text v g =
      let packet = packet_of (value message) text (value no_arg) in
      told_user-Puts v (transmit K e v.communication_socket_fd packet v.proc) g (
        subst
          (λ d.
            Puts S.pending S.written e 0 (line_if (transmit K e d packet v.proc).0 text) v.proc.sys
              (transmit K e d packet v.proc).1.sys)
          (sym g) (transmit_line-Puts K fd S R e text v.proc))
    where
      told_user-Puts :
          (v : Server K.State) (r : Transmission × Process K.State)
          → v.communication_socket_fd ≡ fd
          → Puts S.pending S.written e 0 (line_if r.0 text) v.proc.sys r.1.sys
          → ((told_user K e text v r).1.communication_socket_fd ≡ fd)
            × Puts S.pending S.written e 0
                (if goes_on (told_user K e text v r).0 then text ∷ [] else [])
                v.proc.sys
                (told_user K e text v r).1.proc.sys
      told_user-Puts v (done, p) g h = (g, h)
      told_user-Puts v (broken, p) g h = (g, h)
      told_user-Puts v (stuck, p) g h = (g, h)
