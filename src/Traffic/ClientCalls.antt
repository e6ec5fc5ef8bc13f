-- ===== src/Traffic/ClientCalls.antt =====
-- What the client's calls write to its connection (src/ClientMod.cpp).
use wire_send.Common.{
  ℕ, ◌≡◌, refl, sym, subst, List, [], Bool, true, false, Option, none, some, ℤ, if◌then◌else◌, ◌||◌,
  not,
}
use wire_send.Common.Outcome.{ok, bind-ok}
use wire_send.Commands.{Command, parse_commands}
use wire_send.Wire.{FileMetadata}
use wire_send.Wire.Memory.{ByteOrder}
use wire_send.Net.{Kernel, IsStream}
use wire_send.Net.Reliable.{IsReliable}
use wire_send.Process.{Process, Notice, say, first_line, other_lines, first_answer, is_yes}
use wire_send.Transfer.{answer_sender, negotiate_receiver, create_file_metadata}
use wire_send.Client.{Client, notify, set_active}
use wire_send.Client.Input.{
  saved_to, next_dialog, accept_command, reject_command, offered, selected,
}
use wire_send.Traffic.{Puts, Puts-trans, chosen}
use wire_send.Traffic.Files.{Writes, Writes-same, negotiate_receiver-Writes, answer_sender-Writes}

-- What a command of the client's user accepts.
abbrev pub command_accepts : {System : Type 0} → Command → Client System → ℕ
command_accepts Command.accept v =
    if v.incoming.active then chosen (first_answer v.proc.dialogs) else 0
command_accepts Command.reject v = 0
command_accepts Command.stop v = 0
command_accepts Command.file_prompt v = 0
command_accepts Command.unknown v = 0
command_accepts Command.not_a_command v = 0

-- 1 if the next line accepts a file: the client is up, it is `/a`, a request is active, and the user selects a path.
abbrev pub client_accepts : {System : Type 0} → Client System → ℕ
client_accepts v =
    if not v.proc.program_running || not v.client_connected
    then 0
    else command_accepts (parse_commands (first_line v.proc.input)) v

module _ (K : Kernel) (fd : ℤ) (S : IsStream K fd) (R : IsReliable K fd S) (e : ByteOrder) where
  -- The descriptor stays, and the writes are bounded.
  abbrev pub Does : ℕ → Client K.State → Client K.State → Type 0
  Does n v v' = (v'.sockfd ≡ fd) × Puts S.pending S.written e n [] v.proc.sys v'.proc.sys

  Does-trans : (u v w : Client K.State) → Does 0 u v → Does 0 v w → Does 0 u w
  Does-trans u v w (g, a) (g', b) =
      (g', Puts-trans S.pending S.written e 0 0 [] [] u.proc.sys v.proc.sys w.proc.sys a b)

  pub Does-nothing :
      (n : ℕ) (v v' : Client K.State) → v'.sockfd ≡ fd → v'.proc.sys ≡ v.proc.sys → Does n v v'
  Does-nothing n v v' g h = (g, Writes-same K fd S R e n v.proc v'.proc h)

  pub Does-if :
      (n : ℕ) (b : Bool) (v x y : Client K.State)
      → Does n v x
      → Does n v y
      → Does n v (if b then x else y)
  Does-if n true v x y h k = h
  Does-if n false v x y h k = k

  -- On the program's own descriptor.
  pub here :
      (n : ℕ) (p : Process K.State) (call : ℤ → Process K.State) (v : Client K.State)
      → v.sockfd ≡ fd
      → Writes K fd S R e n p (call fd)
      → Writes K fd S R e n p (call v.sockfd)
  here n p call v g = subst (λ d. Writes K fd S R e n p (call d)) (sym g)

  saved_to-Does :
      (v : Client K.State) (o : Option (List ℕ))
      → v.sockfd ≡ fd
      → Does (chosen o) v (saved_to K e v o)
  saved_to-Does v none g = Does-nothing 0 v v g refl
  saved_to-Does v (some path) g =
      let p = say (Notice.saving_to path) v.proc in
      (
        g,
        here 1 p (λ d. (answer_sender K e d true p).1) v g (answer_sender-Writes K fd S R e true p),
      )

  accepted-Does :
      (n : ℕ) (b : Bool) (v x : Client K.State)
      → v.sockfd ≡ fd
      → Does n v x
      → Does (if b then n else 0) v (if b then x else notify Notice.no_request v)
  accepted-Does n true v x g h = h
  accepted-Does n false v x g h = Does-nothing 0 v (notify Notice.no_request v) g refl

  pub accept_command-Does :
      (v : Client K.State)
      → v.sockfd ≡ fd
      → Does (command_accepts Command.accept v) v (accept_command K e v)
  unfolding accept_command
  accept_command-Does v g =
      let answer = first_answer v.proc.dialogs in
      let u = record v { proc = next_dialog K e v.proc } in
      accepted-Does (chosen answer) v.incoming.active v (saved_to K e u answer) g
        (saved_to-Does u answer g)

  pub reject_command-Does : (v : Client K.State) → v.sockfd ≡ fd → Does 0 v (reject_command K e v)
  unfolding reject_command
  reject_command-Does v g =
      let p = (answer_sender K e v.sockfd false v.proc).1 in
      Does-if 0 v.incoming.active v (set_active false (record v { proc = p }))
        (notify Notice.no_request v)
        (
          g,
          here 0 v.proc (λ d. (answer_sender K e d false v.proc).1) v g
              (answer_sender-Writes K fd S R e false v.proc),
        )
        (Does-nothing 0 v (notify Notice.no_request v) g refl)

  offered-Does :
      (v : Client K.State) (path : List ℕ) (meta : FileMetadata)
      → v.sockfd ≡ fd
      → Does 0 v (offered K e v path meta)
  offered-Does v path meta g =
      let p = record v.proc { input = other_lines v.proc.input } in
      Does-if 0 (is_yes (first_line v.proc.input)) v
        (record v {
          proc = (negotiate_receiver K e v.sockfd meta p).1;
          outgoing = record { active = true; file_path_on_src = path; metadata = meta };
        })
        (record v { proc = p })
        (
          g,
          here 0 p (λ d. (negotiate_receiver K e d meta p).1) v g
              (negotiate_receiver-Writes K fd S R e meta p),
        )
        (Does-nothing 0 v (record v { proc = p }) g refl)

  pub selected-Does :
      (v v' : Client K.State) (o : Option (List ℕ))
      → v.sockfd ≡ fd
      → selected K e v o ≡ ok v'
      → Does 0 v v'
  selected-Does v v' none g h =
      let same : notify Notice.selection_cancelled v ≡ v' = cc in
      subst (Does 0 v) same (Does-nothing 0 v (notify Notice.selection_cancelled v) g refl)
  selected-Does v v' (some path) g h =
      let (meta, made, ends) = bind-ok (create_file_metadata v.proc.disk path) _ h in
      let same : offered K e (notify (Notice.ask_send meta) v) path meta ≡ v' = cc in
      subst (Does 0 v) same (offered-Does (notify (Notice.ask_send meta) v) path meta g)
