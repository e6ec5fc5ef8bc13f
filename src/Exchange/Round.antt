-- ===== src/Exchange/Round.antt =====
-- A round of an input loop, while the peer waits for the file that it accepted.
use wire_send.Common.{
  ℕ, ◌^◌, ◌<◌, ◌≡◌, ap, ◌∙◌, List, ◌++◌, true, false, ℤ, arith, length, All, text_eq, text_eq_sound,
  Bool-cases, inl, inr,
}
use wire_send.Common.Outcome.{ok}
use wire_send.Commands.{
  parse_commands, parse_commands_table, begins_with_slash, not_a_command, is_empty,
}
use wire_send.Wire.{value, message, no_arg, serialize_packet}
use wire_send.Wire.Memory.{ByteOrder}
use wire_send.Net.{Kernel, IsStream, IsHealthy}
use wire_send.Process.{Notice, say, go_on, first_line, other_lines}
use wire_send.Transfer.{packet_of}
use wire_send.Transfer.Sending.{wire, file_packets, joined_pieces, IsPiece, send_file_healthy}
use wire_send.Exchange.{IsReady, server_pending, client_pending}
use wire_send.Exchange.Chat.{server_line, client_line}
use wire_send.Server.{Server}
use wire_send.Server
use wire_send.Client.{Client}
use wire_send.Client

-- The packet of a line.
abbrev pub line_packet : ByteOrder → List ℕ → List ℕ
line_packet e text = (serialize_packet e (packet_of (value message) text (value no_arg))).0

plain : (text : List ℕ) → begins_with_slash text ≡ false → parse_commands text ≡ not_a_command
plain text h = let (s, a, f, r, p) = parse_commands_table text in p.1 h

no_end :
    (text : List ℕ) → begins_with_slash text ≡ false → text_eq text Client.Input.end_line ≡ false
no_end text h = elim (Bool-cases (text_eq text Client.Input.end_line)) [
  | inl same ↦ absurd (
      let slash : begins_with_slash text ≡ true =
        ap begins_with_slash (text_eq_sound text Client.Input.end_line same) in
      cc)
  | inr differs ↦ differs
]

module _ (K : Kernel) (e : ByteOrder) (fd : ℤ) (S : IsStream K fd) (H : IsHealthy K fd S) where
  server_round-runs :
      (ctl : ℕ) (v : Server K.State)
      → is_empty (first_line v.proc.input) ≡ false
      → parse_commands (first_line v.proc.input) ≡ not_a_command
      → Server.Input.input_round K e ctl v
        ≡ ok (
            Server.Input.send_line K e (first_line v.proc.input) (
              Server.Input.send_pending K e
                (record v { proc = record v.proc { input = other_lines v.proc.input } })))
  unfolding Server.Input.input_round Server.Input.command
  server_round-runs ctl v some_text no_command = rw (some_text, no_command)

  server_line-flag :
      (v : Server K.State) (text : List ℕ)
      → (Server.Input.send_line K e text v).1.file_send_in_progress ≡ v.file_send_in_progress
  unfolding Server.Input.send_line
  server_line-flag v text = ground arith

  -- On a healthy connection, if a file is to be sent, the request is for a regular file that may
  -- be read, and the next line is shorter than 2^31 bytes, not empty and no command, then a round
  -- of the server's loop goes on, clears the flag, and writes, behind what was written, the
  -- file's packets and then the packet of the line: the packets are the begin marker, one chunk
  -- for each of some pieces, and the end marker, where the pieces joined are the file's bytes,
  -- and each has between one byte and the chunk size.
  pub server_round_sends :
      (ctl : ℕ) (v : Server K.State) (bytes : List ℕ)
      → v.communication_socket_fd ≡ fd
      → v.file_send_in_progress ≡ true
      → IsReady bytes v.outgoing v.proc
      → is_empty (first_line v.proc.input) ≡ false
      → begins_with_slash (first_line v.proc.input) ≡ false
      → length (first_line v.proc.input) < 2 ^ 31
      → (cs : List (List ℕ)) × (v' : Server K.State) × (Server.Input.input_round K e ctl v
          ≡ ok (go_on, v'))
        × (v'.file_send_in_progress ≡ false)
        × (S.written v'.proc.sys
            ≡ S.written v.proc.sys
              ++ wire e (file_packets cs)
              ++ line_packet e (first_line v.proc.input))
        × (joined_pieces cs ≡ bytes)
        × All IsPiece cs
  server_round_sends ctl v bytes same accepted ready some_text no_slash small =
      let text = first_line v.proc.input in
      let v₁ = record v { proc = record v.proc { input = other_lines v.proc.input } } in
      let (cs, s, run, out, all, pieces) =
        send_file_healthy K e fd S H v.outgoing v₁.proc bytes ready.there ready.allowed in
      let u = record v₁ {
        proc = say Notice.sent_the_file (record v₁.proc { sys = s });
        file_send_in_progress = false;
      } in
      let (goes, line_out) = server_line K e fd S H u text same small in
      let v' = (Server.Input.send_line K e text u).1 in
      (
        cs,
        v',
        server_round-runs ctl v some_text (plain text no_slash)
            ∙ ap (λ w. ok (Server.Input.send_line K e text w))
                (server_pending K e fd v₁ s same accepted run)
            ∙ ap (λ g. ok (g, v')) goes,
        server_line-flag u text,
        line_out ∙ ap (λ bs. bs ++ line_packet e text) out,
        all,
        pieces,
      )

  client_round-runs :
      (v : Client K.State)
      → v.proc.program_running ≡ true
      → v.client_connected ≡ true
      → is_empty (first_line v.proc.input) ≡ false
      → text_eq (first_line v.proc.input) Client.Input.end_line ≡ false
      → parse_commands (first_line v.proc.input) ≡ not_a_command
      → Client.Input.input_round K e v
        ≡ ok (
            Client.Input.send_line K e (first_line v.proc.input) (
              Client.Input.send_pending K e
                (record v { proc = record v.proc { input = other_lines v.proc.input } })))
  unfolding Client.Input.input_round Client.Input.command
  client_round-runs v up connected some_text no_last no_command =
      rw (up, connected, some_text, no_last, no_command)

  client_line-flag :
      (v : Client K.State) (text : List ℕ)
      → (Client.Input.send_line K e text v).1.file_send_in_progress ≡ v.file_send_in_progress
  unfolding Client.Input.send_line
  client_line-flag v text = ground arith

  -- On a healthy connection, if a file is to be sent, the request is for a regular file that may
  -- be read, the program is to run and is connected, and the next line is shorter than 2^31
  -- bytes, not empty and no command, then a round of the client's loop goes on, clears the flag,
  -- and writes, behind what was written, the file's packets and then the packet of the line: the
  -- packets are the begin marker, one chunk for each of some pieces, and the end marker, where
  -- the pieces joined are the file's bytes, and each has between one byte and the chunk size.
  pub client_round_sends :
      (v : Client K.State) (bytes : List ℕ)
      → v.sockfd ≡ fd
      → v.proc.program_running ≡ true
      → v.client_connected ≡ true
      → v.file_send_in_progress ≡ true
      → IsReady bytes v.outgoing v.proc
      → is_empty (first_line v.proc.input) ≡ false
      → begins_with_slash (first_line v.proc.input) ≡ false
      → length (first_line v.proc.input) < 2 ^ 31
      → (cs : List (List ℕ)) × (v' : Client K.State) × (Client.Input.input_round K e v
          ≡ ok (Client.Input.again, v'))
        × (v'.file_send_in_progress ≡ false)
        × (S.written v'.proc.sys
            ≡ S.written v.proc.sys
              ++ wire e (file_packets cs)
              ++ line_packet e (first_line v.proc.input))
        × (joined_pieces cs ≡ bytes)
        × All IsPiece cs
  client_round_sends v bytes same up connected accepted ready some_text no_slash small =
      let text = first_line v.proc.input in
      let v₁ = record v { proc = record v.proc { input = other_lines v.proc.input } } in
      let (cs, s, run, out, all, pieces) =
        send_file_healthy K e fd S H v.outgoing v₁.proc bytes ready.there ready.allowed in
      let u = record v₁ {
        proc = say Notice.sent_the_file (record v₁.proc { sys = s });
        file_send_in_progress = false;
      } in
      let (goes, line_out) = client_line K e fd S H u text same small in
      let v' = (Client.Input.send_line K e text u).1 in
      (
        cs,
        v',
        client_round-runs v up connected some_text (no_end text no_slash) (plain text no_slash)
            ∙ ap (λ w. ok (Client.Input.send_line K e text w))
                (client_pending K e fd v₁ s same accepted run)
            ∙ ap (λ g. ok (g, v')) goes,
        client_line-flag u text,
        line_out ∙ ap (λ bs. bs ++ line_packet e text) out,
        all,
        pieces,
      )
