-- ===== src/Server/Input.antt =====
-- The input loop of `StartServer` in src/ServerMod.cpp, and the functions that it calls.
use wire_send.Common.{
  ℕ, List, [], ◌∷◌, ◌++◌, true, false, Option, none, some, is_negative, codes, if◌then◌else◌,
}
use wire_send.Common.Outcome.{Outcome, ok, ◌>>=◌}
use wire_send.Commands.{
  Command, stop, accept, reject, file_prompt, unknown, not_a_command, parse_commands, is_empty,
}
use wire_send.Wire.{FileMetadata, value, message, message_broadcast, no_arg}
use wire_send.Wire.Memory.{ByteOrder}
use wire_send.Net.{Kernel, Transmission, done, broken, stuck}
use wire_send.Process.{
  Process, Notice, say, first_line, other_lines, first_answer, other_answers, c_str, Verdict, go_on,
  leave, is_yes,
}
use wire_send.Transfer.{
  create_file_metadata, packet_of, transmit, negotiate_receiver, answer_sender, send_file,
}
use wire_send.Server.{Server, notify, set_active}

module _ (K : Kernel) (e : ByteOrder) where
  abbrev pub told : Transmission × Process K.State → Process K.State
  told (done, p) = p
  told (broken, p) = say Notice.send_error p
  told (stuck, p) = say Notice.send_error p

  -- `BroadcastServerMsg`. The packet's control byte is never set: `ctl` is what it happens to be.
  unfoldable pub broadcast_server_msg : ℕ → List ℕ → Server K.State → Server K.State
  broadcast_server_msg ctl text v =
      let r =
        transmit K e v.communication_socket_fd (packet_of (value message_broadcast) text ctl)
          v.proc in
      record v { proc = told r }

  abbrev with_sys : K.State → Server K.State → Server K.State
  with_sys s v = record v { proc = record v.proc { sys = s } }

  -- `StopServer`
  unfoldable pub stop_server : ℕ → Server K.State → Server K.State
  unfolding broadcast_server_msg
  stop_server ctl v =
      let v₁ = broadcast_server_msg ctl (codes "Shutting down the server!" ++ 10 ∷ []) v in
      let s = K.shutdown_write v₁.communication_socket_fd v₁.proc.sys in
      notify Notice.stopped
        (with_sys (K.close v₁.sockfd s) (record v₁ { server_connected = false }))

  -- `LockDoor`
  unfoldable pub lock_door : Server K.State → Server K.State
  lock_door v = with_sys (K.close v.sockfd v.proc.sys) v

  abbrev pub saved_to : Server K.State → Option (List ℕ) → Server K.State
  saved_to v none = v
  saved_to v (some path) =
      let p =
        (answer_sender K e v.communication_socket_fd true (say (Notice.saving_to path) v.proc)).1 in
      record v { proc = p; incoming = record v.incoming { file_path_on_target = path } }

  -- The next dialog's answer is used up.
  abbrev pub next_dialog : Process K.State → Process K.State
  next_dialog p = record p { dialogs = other_answers p.dialogs }

  unfoldable pub accept_command : Server K.State → Server K.State
  accept_command v =
      if v.incoming.active
      then saved_to (record v { proc = next_dialog v.proc }) (first_answer v.proc.dialogs)
      else v

  unfoldable pub reject_command : Server K.State → Server K.State
  reject_command v =
      if v.incoming.active
      then set_active false
          (record v { proc = (answer_sender K e v.communication_socket_fd false v.proc).1 })
      else notify Notice.no_request v

  -- After the user's answer to "Send? [Y/N]".
  abbrev pub offered : Server K.State → List ℕ → FileMetadata → Server K.State
  offered v path meta =
      let agreed = is_yes (first_line v.proc.input) in
      let p = record v.proc { input = other_lines v.proc.input } in
      if agreed
      then record v {
        proc = (negotiate_receiver K e v.communication_socket_fd meta p).1;
        outgoing = record { active = true; file_path_on_src = path; metadata = meta };
      }
      else record v { proc = p }

  abbrev pub selected : Server K.State → Option (List ℕ) → Outcome (Server K.State)
  selected v none = ok (notify Notice.selection_cancelled v)
  selected v (some path) = create_file_metadata v.proc.disk path >>= λ meta.
      ok (offered (notify (Notice.ask_send meta) v) path meta)

  unfoldable pub file_prompt_command : Server K.State → Outcome (Server K.State)
  file_prompt_command v =
      let p = record (next_dialog v.proc) { file_transfer_mode = true } in
      selected (record v { proc = p }) (first_answer v.proc.dialogs)

  -- `switch (ParseCommands(InputText))`
  unfoldable pub command : ℕ → Command → Server K.State → Outcome (Server K.State)
  unfolding stop_server accept_command reject_command file_prompt_command
  command ctl not_a_command v = ok v
  command ctl unknown v = ok (notify Notice.invalid_command v)
  command ctl stop v = ok (stop_server ctl v)
  command ctl accept v = ok (accept_command v)
  command ctl reject v = ok (reject_command v)
  command ctl file_prompt v = file_prompt_command v

  -- The file of an accepted request goes out.
  unfoldable pub send_pending : Server K.State → Server K.State
  send_pending v =
      let r = send_file K e v.communication_socket_fd v.outgoing v.proc in
      let p = if is_negative r.0 then say Notice.send_error r.1 else r.1 in
      if v.file_send_in_progress
      then record v { proc = say Notice.sent_the_file p; file_send_in_progress = false }
      else v

  abbrev pub told_user :
      List ℕ → Server K.State → Transmission × Process K.State → Verdict × Server K.State
  told_user text v (done, p) = (go_on, record v { proc = say (Notice.you_say (c_str text)) p })
  told_user text v (broken, p) = (leave, record v { proc = p })
  told_user text v (stuck, p) = (leave, record v { proc = p })

  -- The typed line goes out as a message, a command too.
  unfoldable pub send_line : List ℕ → Server K.State → Verdict × Server K.State
  send_line text v = told_user text v (
      transmit K e v.communication_socket_fd (packet_of (value message) text (value no_arg)) v.proc)

  -- One round of the loop in `StartServer`.
  unfoldable pub input_round : ℕ → Server K.State → Outcome (Verdict × Server K.State)
  unfolding command send_pending send_line
  input_round ctl v =
      let text = first_line v.proc.input in
      let v' = record v { proc = record v.proc { input = other_lines v.proc.input } } in
      if is_empty text
      then ok (go_on, v')
      else (command ctl (parse_commands text) v' >>= λ v''. ok (send_line text (send_pending v'')))
