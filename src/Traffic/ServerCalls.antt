-- ===== src/Traffic/ServerCalls.antt =====
-- What the server's calls write to its connection (src/ServerMod.cpp).
use wire_send.Common.{
  ℕ, ◌≡◌, refl, sym, ◌∙◌, subst, List, [], ◌∷◌, ◌++◌, Bool, true, false, Option, none, some, ℤ,
  codes, if◌then◌else◌,
}
use wire_send.Common.Outcome.{ok, bind-ok}
use wire_send.Commands.{Command, parse_commands}
use wire_send.Wire.{FileMetadata, value, message_broadcast}
use wire_send.Wire.Memory.{ByteOrder}
use wire_send.Net.{Kernel, IsStream, Transmission, done, broken, stuck}
use wire_send.Net.Reliable.{IsReliable}
use wire_send.Process.{Process, Notice, say, first_line, other_lines, first_answer, is_yes}
use wire_send.Transfer.{
  packet_of, transmit, answer_sender, negotiate_receiver, create_file_metadata,
}
use wire_send.Server.{Server, notify, set_active}
use wire_send.Server.Input.{
  told, broadcast_server_msg, stop_server, saved_to, next_dialog, accept_command, reject_command,
  offered, selected,
}
use wire_send.Traffic.{Puts, Puts-none, Puts-trans, chosen}
use wire_send.Traffic.Files.{
  Writes, Writes-same, transmit-Writes, negotiate_receiver-Writes, answer_sender-Writes,
}

-- What a command of the server's user accepts.
abbrev pub command_accepts : {System : Type 0} → Command → Server System → ℕ
command_accepts Command.accept v =
    if v.incoming.active then chosen (first_answer v.proc.dialogs) else 0
command_accepts Command.reject v = 0
command_accepts Command.stop v = 0
command_accepts Command.file_prompt v = 0
command_accepts Command.unknown v = 0
command_accepts Command.not_a_command v = 0

-- 1 if the next line accepts a file: it is `/a`, a request is active, and the user selects a path.
abbrev pub server_accepts : {System : Type 0} → Server System → ℕ
server_accepts v = command_accepts (parse_commands (first_line v.proc.input)) v

module _ (K : Kernel) (fd : ℤ) (S : IsStream K fd) (R : IsReliable K fd S) (e : ByteOrder) where
  -- The descriptor stays, and the writes are bounded.
  abbrev pub Does : ℕ → Server K.State → Server K.State → Type 0
  Does n v v' =
      (v'.communication_socket_fd ≡ fd) × Puts S.pending S.written e n [] v.proc.sys v'.proc.sys

  Does-trans : (u v w : Server K.State) → Does 0 u v → Does 0 v w → Does 0 u w
  Does-trans u v w (g, a) (g', b) =
      (g', Puts-trans S.pending S.written e 0 0 [] [] u.proc.sys v.proc.sys w.proc.sys a b)

  pub Does-nothing :
      (n : ℕ) (v v' : Server K.State)
      → v'.communication_socket_fd ≡ fd
      → v'.proc.sys ≡ v.proc.sys
      → Does n v v'
  Does-nothing n v v' g h = (g, Writes-same K fd S R e n v.proc v'.proc h)

  pub Does-if :
      (n : ℕ) (b : Bool) (v x y : Server K.State)
      → Does n v x
      → Does n v y
      → Does n v (if b then x else y)
  Does-if n true v x y h k = h
  Does-if n false v x y h k = k

  told-Writes :
      (p : Process K.State) (r : Transmission × Process K.State)
      → Writes K fd S R e 0 p r.1
      → Writes K fd S R e 0 p (told K e r)
  told-Writes p (done, q) h = record {
    unread = h.unread;
    packets = h.packets;
    put = h.put;
    few = h.few;
    texts = h.texts;
  }
  told-Writes p (broken, q) h = record {
    unread = h.unread;
    packets = h.packets;
    put = h.put;
    few = h.few;
    texts = h.texts;
  }
  told-Writes p (stuck, q) h = record {
    unread = h.unread;
    packets = h.packets;
    put = h.put;
    few = h.few;
    texts = h.texts;
  }

  -- On the program's own descriptor.
  pub here :
      (n : ℕ) (p : Process K.State) (call : ℤ → Process K.State) (v : Server K.State)
      → v.communication_socket_fd ≡ fd
      → Writes K fd S R e n p (call fd)
      → Writes K fd S R e n p (call v.communication_socket_fd)
  here n p call v g = subst (λ d. Writes K fd S R e n p (call d)) (sym g)

  broadcast-Does :
      (ctl : ℕ) (text : List ℕ) (v : Server K.State)
      → v.communication_socket_fd ≡ fd
      → Does 0 v (broadcast_server_msg K e ctl text v)
  unfolding broadcast_server_msg
  broadcast-Does ctl text v g =
      let packet = packet_of (value message_broadcast) text ctl in
      (
        g,
        here 0 v.proc (λ d. told K e (transmit K e d packet v.proc)) v g
            (told-Writes v.proc (transmit K e fd packet v.proc)
              (transmit-Writes K fd S R e packet v.proc refl)),
      )

  pub stop_server-Does :
      (ctl : ℕ) (v : Server K.State)
      → v.communication_socket_fd ≡ fd
      → Does 0 v (stop_server K e ctl v)
  unfolding stop_server
  stop_server-Does ctl v g =
      let u = broadcast_server_msg K e ctl (codes "Shutting down the server!" ++ 10 ∷ []) v in
      let (g', a) = broadcast-Does ctl (codes "Shutting down the server!" ++ 10 ∷ []) v g in
      let shut = K.shutdown_write u.communication_socket_fd u.proc.sys in
      let (p, w) = R.shutdown_write_keeps u.communication_socket_fd u.proc.sys in
      let (p', w') = R.close_keeps u.sockfd shut in
      (
        g',
        Puts-trans S.pending S.written e 0 0 [] [] v.proc.sys u.proc.sys (K.close u.sockfd shut) a (
            Puts-none S.pending S.written e 0 u.proc.sys (K.close u.sockfd shut) (p' ∙ p) (w' ∙ w)),
      )

  saved_to-Does :
      (v : Server K.State) (o : Option (List ℕ))
      → v.communication_socket_fd ≡ fd
      → Does (chosen o) v (saved_to K e v o)
  saved_to-Does v none g = Does-nothing 0 v v g refl
  saved_to-Does v (some path) g =
      let p = say (Notice.saving_to path) v.proc in
      (
        g,
        here 1 p (λ d. (answer_sender K e d true p).1) v g (answer_sender-Writes K fd S R e true p),
      )

  accepted-Does :
      (n : ℕ) (b : Bool) (v x : Server K.State)
      → v.communication_socket_fd ≡ fd
      → Does n v x
      → Does (if b then n else 0) v (if b then x else v)
  accepted-Does n true v x g h = h
  accepted-Does n false v x g h = Does-nothing 0 v v g refl

  pub accept_command-Does :
      (v : Server K.State)
      → v.communication_socket_fd ≡ fd
      → Does (command_accepts Command.accept v) v (accept_command K e v)
  unfolding accept_command
  accept_command-Does v g =
      let answer = first_answer v.proc.dialogs in
      let u = record v { proc = next_dialog K e v.proc } in
      accepted-Does (chosen answer) v.incoming.active v (saved_to K e u answer) g
        (saved_to-Does u answer g)

  pub reject_command-Does :
      (v : Server K.State) → v.communication_socket_fd ≡ fd → Does 0 v (reject_command K e v)
  unfolding reject_command
  reject_command-Does v g =
      let p = (answer_sender K e v.communication_socket_fd false v.proc).1 in
      Does-if 0 v.incoming.active v (set_active false (record v { proc = p }))
        (notify Notice.no_request v)
        (
          g,
          here 0 v.proc (λ d. (answer_sender K e d false v.proc).1) v g
              (answer_sender-Writes K fd S R e false v.proc),
        )
        (Does-nothing 0 v (notify Notice.no_request v) g refl)

  offered-Does :
      (v : Server K.State) (path : List ℕ) (meta : FileMetadata)
      → v.communication_socket_fd ≡ fd
      → Does 0 v (offered K e v path meta)
  offered-Does v path meta g =
      let p = record v.proc { input = other_lines v.proc.input } in
      Does-if 0 (is_yes (first_line v.proc.input)) v
        (record v {
          proc = (negotiate_receiver K e v.communication_socket_fd meta p).1;
          outgoing = record { active = true; file_path_on_src = path; metadata = meta };
        })
        (record v { proc = p })
        (
          g,
          here 0 p (λ d. (negotiate_receiver K e d meta p).1) v g
              (negotiate_receiver-Writes K fd S R e meta p),
        )
        (Does-nothing 0 v (record v { proc = p }) g refl)

  pub selected-Does :
      (v v' : Server K.State) (o : Option (List ℕ))
      → v.communication_socket_fd ≡ fd
      → selected K e v o ≡ ok v'
      → Does 0 v v'
  selected-Does v v' none g h =
      let same : notify Notice.selection_cancelled v ≡ v' = cc in
      subst (Does 0 v) same (Does-nothing 0 v (notify Notice.selection_cancelled v) g refl)
  selected-Does v v' (some path) g h =
      let (meta, made, ends) = bind-ok (create_file_metadata v.proc.disk path) _ h in
      let same : offered K e (notify (Notice.ask_send meta) v) path meta ≡ v' = cc in
      subst (Does 0 v) same (offered-Does (notify (Notice.ask_send meta) v) path meta g)
