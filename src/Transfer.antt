-- ===== src/Transfer.antt =====
-- src/FileHandler.cpp and `UserAction` of src/api.cpp.
pub mod Sending
pub mod Receiving
pub mod Naming
pub mod Views
pub mod Flags
pub mod Interface
use wire_send.Common.{
  ℕ, zero, suc, ◌+◌, ◌-◌, ◌≤◌, ◌<◌, List, [], ◌∷◌, ◌++◌, Bool, true, false, not, ◌&&◌, ◌||◌, Option,
  none, some, ℤ, pos, negsuc, length, take, drop, ltb, leb, ◌==◌, text_eq, codes, if◌then◌else◌,
}
use wire_send.Common.Outcome.{Outcome, ok, terminated, undefined, hangs, ◌>>=◌}
use wire_send.Common.Decimal.{to_decimal}
use wire_send.Wire.{
  Packet, FileMetadata, FileChunk, value, file_neg, file_begin, file_chunk, file_end, no_arg,
  file_accept, file_reject, serialize_packet, serialize_file_metadata_packet, serialize_file_chunk,
  deserialize_file_chunk,
}
use wire_send.Wire.Memory.{ByteOrder}
use wire_send.Net.{Kernel, Transmission, done, broken, stuck, send_packet}
use wire_send.Files.{
  Disk, Entry, regular, other, entry_at, exists, exists_at, is_regular_file, open_to_read,
  open_truncated, append_to,
}
use wire_send.Files.Paths.{filename, parent_path, stem_and_extension, join}
use wire_send.Process.{
  PendingIncomingFileRequest, PendingOutgoingFileRequest, Process, say, first_line, other_lines,
  Notice, asked_user, ask_overwrite, new_file_created, no_space, cannot_open, cannot_open_chunk,
  cannot_send, file_received, send_failed,
}

abbrev pub default_file_chunk_size : ℕ
default_file_chunk_size = 65536

-- `fs::file_size` throws where there is no regular file.
abbrev sized : List ℕ → Option Entry → Outcome FileMetadata
sized path (some (regular bytes)) =
    ok (record { file_size = length bytes; file_name = filename path })
sized path (some other) = terminated
sized path none = terminated

unfoldable pub create_file_metadata : Disk → List ℕ → Outcome FileMetadata
create_file_metadata d path = sized path (entry_at d path)

-- `UserAction`: the loop, on the lines that are still to come; without an answer among them it
-- never ends.
unfoldable pub answer_loop : List (List ℕ) → Outcome (Bool × List (List ℕ))
unfolding text_eq
answer_loop [] = hangs
answer_loop (l ∷ ls) =
    let again = answer_loop ls in
    if text_eq l (codes "Y") || text_eq l (codes "y")
    then ok (true, ls)
    else if text_eq l (codes "N") || text_eq l (codes "n")
    then ok (false, ls)
    else again

-- The lines that the loop takes before an answer.
unfoldable pub wrong_answers : List (List ℕ) → ℕ
unfolding text_eq
wrong_answers [] = 0
wrong_answers (l ∷ ls) =
    let more = wrong_answers ls in
    if text_eq l (codes "Y")
      || text_eq l (codes "y")
      || text_eq l (codes "N")
      || text_eq l (codes "n")
    then 0
    else more + 1

-- `if (std::cin.peek() == '\n') std::cin.ignore();`
unfoldable pub user_action : List (List ℕ) → Outcome (Bool × List (List ℕ))
unfolding answer_loop
user_action [] = hangs
user_action ([] ∷ ls) = answer_loop ls
user_action ((c ∷ cs) ∷ ls) = answer_loop ((c ∷ cs) ∷ ls)

-- `if (std::cin.peek() == '\n') std::cin.ignore();`
abbrev without_blank : List (List ℕ) → List (List ℕ)
without_blank [] = []
without_blank ([] ∷ ls) = ls
without_blank ((c ∷ cs) ∷ ls) = (c ∷ cs) ∷ ls

-- What `UserAction` prints.
abbrev pub user_prompts : List (List ℕ) → Notice
user_prompts ls = asked_user (wrong_answers (without_blank ls))

-- `parent / (mainName + "(" + std::to_string(counter) + ")" + ext)`
unfoldable pub numbered : List ℕ → ℕ → List ℕ
numbered path counter =
    let (main_name, ext) = stem_and_extension path in
    join (parent_path path) (main_name ++ (b'(' ∷ to_decimal counter ++ (b')' ∷ ext)))

-- What follows on `fs::exists(newPath)`.
abbrev pub tried_at : List ℕ → Outcome (List ℕ) → Option Bool → Outcome (List ℕ)
tried_at new_path more none = terminated
tried_at new_path more (some true) = more
tried_at new_path more (some false) = ok new_path

-- `while (fs::exists(newPath)) { newPath = ...; counter++; }`, with a counter that is an `int`.
unfoldable pub free_name_loop : ℕ → Disk → List ℕ → ℕ → List ℕ → Outcome (List ℕ)
free_name_loop zero d path counter new_path = hangs
free_name_loop (suc fuel) d path counter new_path =
    let more = free_name_loop fuel d path (counter + 1) (numbered path counter) in
    tried_at new_path (if ltb counter 2147483647 then more else undefined) (exists_at d new_path)

-- A disk with `n` entries leaves one of `n + 1` names free, and the first round looks at `path`.
unfoldable pub free_name : Disk → List ℕ → Outcome (List ℕ)
unfolding free_name_loop
free_name d path = free_name_loop (length d.entries + 2) d path 1 path

abbrev is_open : Option (List ℕ) → Bool
is_open none = false
is_open (some bytes) = true

module _ {System : Type 0} where
  abbrev overwrite_or_rename :
      PendingIncomingFileRequest
      → Process System
      → Bool
      → Outcome (Bool × PendingIncomingFileRequest × Process System)
  overwrite_or_rename r p true = ok (true, record r { overwrite = true }, p)
  overwrite_or_rename r p false = do
    new_path ← free_name p.disk r.file_path_on_target
    ok (true, record r { file_path_on_target = new_path }, say new_file_created p)

  abbrev ask_user :
      PendingIncomingFileRequest
      → Process System
      → Outcome (Bool × PendingIncomingFileRequest × Process System)
  ask_user r p = do
    (agreed, ls) ← user_action p.input
    overwrite_or_rename r
        (say (user_prompts p.input)
          (record p { input = ls; screen = p.screen ++ ask_overwrite ∷ [] }))
        agreed

  -- What follows on `fs::exists(path)`.
  abbrev if_found :
      PendingIncomingFileRequest
      → Process System
      → Option Bool
      → Outcome (Bool × PendingIncomingFileRequest × Process System)
  if_found r p none = terminated
  if_found r p (some true) = ask_user r p
  if_found r p (some false) = ok (true, r, p)

  abbrev with_space :
      PendingIncomingFileRequest
      → FileMetadata
      → Process System
      → Option ℕ
      → Outcome (Bool × PendingIncomingFileRequest × Process System)
  with_space r meta p none = terminated
  with_space r meta p (some available) =
      if ltb available meta.file_size
      then ok (false, r, say no_space p)
      else if_found r p (exists_at p.disk r.file_path_on_target)

  unfoldable pub can_receive_files :
      PendingIncomingFileRequest
      → FileMetadata
      → Process System
      → Outcome (Bool × PendingIncomingFileRequest × Process System)
  can_receive_files r meta p =
      with_space r meta p (p.disk.free_space (parent_path r.file_path_on_target))

  unfoldable pub can_send_files : PendingOutgoingFileRequest → Process System → Bool
  can_send_files r p =
      exists p.disk r.file_path_on_src
      && is_regular_file p.disk r.file_path_on_src
      && is_open (open_to_read p.disk r.file_path_on_src)

  -- `RecvFile`: the three tests on the packet's type come one after the other; -1 ends the call.
  abbrev began :
      PendingIncomingFileRequest
      → Process System
      → Option Disk
      → ℤ × PendingIncomingFileRequest × Process System
  began r p none = (negsuc 0, r, say cannot_open p)
  began r p (some d) = (pos 0, r, record p { disk = d })

  abbrev chunk_written :
      PendingIncomingFileRequest
      → Process System
      → Option Disk
      → ℤ × PendingIncomingFileRequest × Process System
  chunk_written r p none = (negsuc 0, r, say cannot_open_chunk p)
  chunk_written r p (some d) = (pos 0, r, record p { disk = d })

  unfoldable pub recv_begin :
      PendingIncomingFileRequest
      → Process System
      → Outcome (ℤ × PendingIncomingFileRequest × Process System)
  unfolding can_receive_files
  recv_begin r p = do
    (allowed, r', p') ← can_receive_files r r.metadata p
    ok (
        if allowed
        then began r' p' (open_truncated p'.disk r'.file_path_on_target)
        else (pos 0, r', p'))

  unfoldable pub recv_file :
      Packet
      → PendingIncomingFileRequest
      → Process System
      → Outcome (ℤ × PendingIncomingFileRequest × Process System)
  unfolding recv_begin deserialize_file_chunk
  recv_file packet r p =
      if packet.pl_type == value file_begin
      then recv_begin r p
      else if packet.pl_type == value file_chunk
      then ok (
          chunk_written r p
            (append_to p.disk r.file_path_on_target (deserialize_file_chunk packet.pl_body).bytes))
      else if packet.pl_type == value file_end
      then ok (pos 0, r, say file_received p)
      else ok (pos 0, r, p)

-- The packet's length field is set by `SerializePacket`.
abbrev pub packet_of : ℕ → List ℕ → ℕ → Packet
packet_of t body c = record { pl_type = t; pl_len = 0; pl_body = body; pl_ctl = c }

abbrev pub accept_text : List ℕ
accept_text = codes "Peer accepts the file." ++ 10 ∷ []

abbrev pub reject_text : List ℕ
reject_text = codes "Peer rejected the file." ++ 10 ∷ []

abbrev pub marker : ℕ → Packet
marker t = packet_of t [] (value no_arg)

abbrev pub chunk_packet : List ℕ → Packet
chunk_packet bytes =
    packet_of (value file_chunk) (serialize_file_chunk (record { bytes = bytes })) (value no_arg)

-- A stream that does not open reads as an empty file.
abbrev pub contents : Option (List ℕ) → List ℕ
contents none = []
contents (some bytes) = bytes

module _ (K : Kernel) (e : ByteOrder) (fd : ℤ) where
  -- `SerializePacket` and `SendPacket`.
  unfoldable pub transmit : Packet → Process K.State → Transmission × Process K.State
  transmit packet p =
      let r = send_packet K fd (serialize_packet e packet).0 p.sys in (r.0, record p { sys = r.1 })

  -- The tests on `SendFlag` at the end of `NegotiateReceiver` and `AnswerSender`.
  abbrev pub answered : Bool → Transmission × Process K.State → Bool × Process K.State
  answered req (done, p) = (true, record p { active_file_neg_req = req })
  answered req (broken, p) = (false, say send_failed p)
  answered req (stuck, p) = (false, say send_failed p)

  unfoldable pub negotiate_receiver : FileMetadata → Process K.State → Bool × Process K.State
  negotiate_receiver meta p = answered true (
      transmit (packet_of (value file_neg) (serialize_file_metadata_packet e meta) (value no_arg))
        p)

  unfoldable pub answer_sender : Bool → Process K.State → Bool × Process K.State
  answer_sender response p = answered false (
      transmit
        (if response
          then packet_of (value file_neg) accept_text (value file_accept)
          else packet_of (value file_neg) reject_text (value file_reject))
        p)

  -- After a chunk: `last` says that the read hit the end of the file.
  unfoldable pub after_chunk :
      Bool
      → Transmission
      → Process K.State
      → (Process K.State → Transmission × Process K.State)
      → Transmission × Process K.State
  after_chunk true done p next = (done, p)
  after_chunk false done p next = next p
  after_chunk last broken p next = (broken, p)
  after_chunk last stuck p next = (stuck, p)

  -- `while (file) { file.read(...); ... }` on the bytes not yet read. A read of fewer bytes than
  -- the buffer holds ends the loop, and one of no bytes sends nothing.
  unfoldable pub chunk_loop : ℕ → List ℕ → Process K.State → Transmission × Process K.State
  unfolding after_chunk
  chunk_loop zero unread p = (stuck, p)
  chunk_loop (suc fuel) unread p =
      let bytes = take default_file_chunk_size unread in
      let r = transmit (chunk_packet bytes) p in
      let last = ltb (length bytes) default_file_chunk_size in
      let next =
        after_chunk last r.0 r.1 λ p'. chunk_loop fuel (drop default_file_chunk_size unread) p' in
      if length bytes == 0 then (done, p) else next

  abbrev pub then_send :
      Transmission × Process K.State
      → (Process K.State → Transmission × Process K.State)
      → Transmission × Process K.State
  then_send (done, p) f = f p
  then_send (broken, p) f = (broken, p)
  then_send (stuck, p) f = (stuck, p)

  -- Begin marker, chunks, end marker; the first packet that is not sent ends the transfer.
  unfoldable pub send_contents : List ℕ → Process K.State → Transmission × Process K.State
  unfolding chunk_loop
  send_contents bytes p = then_send (transmit (marker (value file_begin)) p) λ p₁.
      then_send (chunk_loop (length bytes + 1) bytes p₁) λ p₂. transmit (marker (value file_end)) p₂

  abbrev pub returned : Transmission × Process K.State → ℤ × Process K.State
  returned (done, p) = (pos 0, p)
  returned (broken, p) = (negsuc 0, say send_failed p)
  returned (stuck, p) = (negsuc 0, say send_failed p)

  unfoldable pub send_file : PendingOutgoingFileRequest → Process K.State → ℤ × Process K.State
  unfolding send_contents can_send_files
  send_file r p =
      if can_send_files r p
      then returned (send_contents (contents (open_to_read p.disk r.file_path_on_src)) p)
      else (negsuc 0, say cannot_send p)
