-- ===== src/Client/Input.antt =====
-- The input loop of `StartClient` in src/ClientMod.cpp, and the functions that it calls.
use wire_send.Common.{
  ℕ, List, true, false, not, ◌||◌, Option, none, some, is_negative, codes, text_eq, if◌then◌else◌,
}
use wire_send.Common.Outcome.{Outcome, ok, ◌>>=◌}
use wire_send.Commands.{
  Command, stop, accept, reject, file_prompt, unknown, not_a_command, parse_commands, is_empty,
}
use wire_send.Wire.{FileMetadata, value, message, no_arg}
use wire_send.Wire.Memory.{ByteOrder}
use wire_send.Net.{Kernel, Transmission, done, broken, stuck}
use wire_send.Process.{
  Process, Notice, say, first_line, other_lines, first_answer, other_answers, c_str, is_yes,
}
use wire_send.Transfer.{
  create_file_metadata, packet_of, transmit, negotiate_receiver, answer_sender, send_file,
}
use wire_send.Client.{Client, notify, set_active}

-- How a round ends: with the next one, with a `break`, or in `RecvThread.join()`.
pub data Ending : Type 0 where
  again left joins : Ending

abbrev pub end_line : List ℕ
end_line = codes "/~end~/"

module _ (K : Kernel) (e : ByteOrder) where
  abbrev pub saved_to : Client K.State → Option (List ℕ) → Client K.State
  saved_to v none = v
  saved_to v (some path) =
      let p = (answer_sender K e v.sockfd true (say (Notice.saving_to path) v.proc)).1 in
      record v { proc = p; incoming = record v.incoming { file_path_on_target = path } }

  -- The next dialog's answer is used up.
  abbrev pub next_dialog : Process K.State → Process K.State
  next_dialog p = record p { dialogs = other_answers p.dialogs }

  unfoldable pub accept_command : Client K.State → Client K.State
  accept_command v =
      if v.incoming.active
      then saved_to (record v { proc = next_dialog v.proc }) (first_answer v.proc.dialogs)
      else notify Notice.no_request v

  unfoldable pub reject_command : Client K.State → Client K.State
  reject_command v =
      if v.incoming.active
      then set_active false (record v { proc = (answer_sender K e v.sockfd false v.proc).1 })
      else notify Notice.no_request v

  -- After the user's answer to "Send? [Y/N]".
  abbrev pub offered : Client K.State → List ℕ → FileMetadata → Client K.State
  offered v path meta =
      let agreed = is_yes (first_line v.proc.input) in
      let p = record v.proc { input = other_lines v.proc.input } in
      if agreed
      then record v {
        proc = (negotiate_receiver K e v.sockfd meta p).1;
        outgoing = record { active = true; file_path_on_src = path; metadata = meta };
      }
      else record v { proc = p }

  abbrev pub selected : Client K.State → Option (List ℕ) → Outcome (Client K.State)
  selected v none = ok (notify Notice.selection_cancelled v)
  selected v (some path) = create_file_metadata v.proc.disk path >>= λ meta.
      ok (offered (notify (Notice.ask_send meta) v) path meta)

  unfoldable pub file_prompt_command : Client K.State → Outcome (Client K.State)
  file_prompt_command v =
      let p = record (next_dialog v.proc) { file_transfer_mode = true } in
      selected (record v { proc = p }) (first_answer v.proc.dialogs)

  -- `switch (ParseCommands(InputText))`
  unfoldable pub command : Command → Client K.State → Outcome (Client K.State)
  unfolding accept_command reject_command file_prompt_command
  command not_a_command v = ok v
  command unknown v = ok (notify Notice.invalid_command v)
  command stop v = ok (notify Notice.forbidden v)
  command accept v = ok (accept_command v)
  command reject v = ok (reject_command v)
  command file_prompt v = file_prompt_command v

  -- The file of an accepted request goes out.
  unfoldable pub send_pending : Client K.State → Client K.State
  send_pending v =
      let r = send_file K e v.sockfd v.outgoing v.proc in
      let p = if is_negative r.0 then say Notice.send_error r.1 else r.1 in
      if v.file_send_in_progress
      then record v { proc = say Notice.sent_the_file p; file_send_in_progress = false }
      else v

  abbrev pub told_user :
      List ℕ → Client K.State → Transmission × Process K.State → Ending × Client K.State
  told_user text v (done, p) = (again, record v { proc = say (Notice.you_say (c_str text)) p })
  told_user text v (broken, p) = (left, record v { proc = p })
  told_user text v (stuck, p) = (left, record v { proc = p })

  -- The typed line goes out as a message, a command too.
  unfoldable pub send_line : List ℕ → Client K.State → Ending × Client K.State
  send_line text v =
      told_user text v
        (transmit K e v.sockfd (packet_of (value message) text (value no_arg)) v.proc)

  -- One round of the loop in `StartClient`.
  unfoldable pub input_round : Client K.State → Outcome (Ending × Client K.State)
  unfolding command send_pending send_line
  input_round v =
      let text = first_line v.proc.input in
      let v' = record v { proc = record v.proc { input = other_lines v.proc.input } } in
      if not v.proc.program_running || not v.client_connected
      then ok (left, v')
      else if is_empty text
      then ok (again, v')
      else if text_eq text end_line
      then ok (joins, notify Notice.ending v')
      else (command (parse_commands text) v' >>= λ v''. ok (send_line text (send_pending v'')))
