-- ===== src/Traffic/Screen.antt =====
-- What a screen shows of the peer's words, and the calls of src/FileHandler.cpp, which show none.
use wire_send.Common.{
  ℕ, ◌≡◌, refl, sym, ap, ◌∙◌, List, [], ◌∷◌, ◌++◌, append_assoc, append-nil, arith, Bool, ℤ,
}
use wire_send.Common.Outcome.{ok}
use wire_send.Wire.{Packet}
use wire_send.Wire.Memory.{ByteOrder}
use wire_send.Net.{Kernel}
use mathlib.Core.List.{map}
use wire_send.Process.{
  c_str, Process, Notice, PendingIncomingFileRequest, PendingOutgoingFileRequest,
}
use wire_send.Transfer.{can_receive_files, recv_begin, recv_file, send_file}
use wire_send.Transfer.Views.{send_file-Same}

-- The peer's words among what is printed.
abbrev pub spoken : Notice → List (List ℕ)
spoken (Notice.peer_says x) = x ∷ []
spoken (Notice.broadcast_says x) = []
spoken (Notice.you_say x) = []
spoken (Notice.incoming_request x) = []
spoken Notice.peer_accepted = []
spoken Notice.peer_rejected = []
spoken Notice.request_cancelled = []
spoken Notice.client_left = []
spoken Notice.file_received = []
spoken (Notice.asked_user n) = []
spoken Notice.ask_overwrite = []
spoken Notice.new_file_created = []
spoken Notice.no_space = []
spoken Notice.cannot_open = []
spoken Notice.cannot_open_chunk = []
spoken Notice.cannot_send = []
spoken Notice.recv_file_failed = []
spoken Notice.send_failed = []
spoken Notice.sent_the_file = []
spoken Notice.send_error = []
spoken (Notice.ask_send x) = []
spoken Notice.selection_cancelled = []
spoken Notice.invalid_command = []
spoken Notice.no_request = []
spoken Notice.forbidden = []
spoken Notice.stopped = []
spoken Notice.connection_closed = []
spoken Notice.terminating = []
spoken Notice.ending = []
spoken Notice.invalid_address = []
spoken Notice.address_error = []
spoken Notice.connection_error = []
spoken Notice.connected = []
spoken Notice.listening = []
spoken Notice.not_listening = []
spoken Notice.port_in_use = []
spoken Notice.permission_denied = []
spoken Notice.bind_error = []
spoken Notice.accept_error = []
spoken Notice.too_many_clients = []
spoken Notice.client_now_connected = []
spoken Notice.socket_error = []
spoken (Notice.saving_to x) = []

unfoldable pub heard : List Notice → List (List ℕ)
heard [] = []
heard (n ∷ ns) = spoken n ++ heard ns

pub heard_say : (ns : List Notice) (n : Notice) → heard (ns ++ n ∷ []) ≡ heard ns ++ spoken n
unfolding heard
heard_say [] n = append-nil (spoken n)
heard_say (m ∷ ns) n =
    ap (◌++◌ (spoken m)) (heard_say ns n) ∙ sym (append_assoc (spoken m) (heard ns) (spoken n))

-- As `heard_say`, for a notice that is none of the peer's words.
pub heard_same : (ns : List Notice) (n : Notice) → spoken n ≡ [] → heard (ns ++ n ∷ []) ≡ heard ns
heard_same ns n h = heard_say ns n ∙ ap (◌++◌ (heard ns)) h ∙ append-nil (heard ns)

abbrev pub Quiet : {System : Type 0} → Process System → Process System → Type 0
Quiet p p' = heard p'.screen ≡ heard p.screen

-- `printf` shows a text up to its first zero byte.
abbrev pub texts : List (List ℕ) → List (List ℕ)
texts ls = map c_str ls

pub texts-append : (ls ls' : List (List ℕ)) → texts (ls ++ ls') ≡ texts ls ++ texts ls'
texts-append [] ls' = refl
texts-append (l ∷ ls) ls' = ap (◌∷◌ (c_str l)) (texts-append ls ls')

module _ {System : Type 0} (packet : Packet) (r r' : PendingIncomingFileRequest)
    (p p' : Process System) where
  can_receive_files-Quiet :
      (b : Bool) → can_receive_files r r.metadata p ≡ ok (b, r', p') → Quiet p p'
  unfolding can_receive_files
  can_receive_files-Quiet b h = grind (arith, heard_same)

  recv_begin-Quiet : (flag : ℤ) → recv_begin r p ≡ ok (flag, r', p') → Quiet p p'
  unfolding recv_begin can_receive_files
  recv_begin-Quiet flag h = grind (arith, heard_same)

  pub recv_file-Quiet : (flag : ℤ) → recv_file packet r p ≡ ok (flag, r', p') → Quiet p p'
  unfolding recv_file
  recv_file-Quiet flag h = grind (arith, heard_same, recv_begin-Quiet flag)

pub send_file-Quiet :
    (K : Kernel) (e : ByteOrder) (fd : ℤ) (r : PendingOutgoingFileRequest) (p : Process K.State)
    → Quiet p (send_file K e fd r p).1
send_file-Quiet K e fd r p =
    send_file-Same K e fd (λ (q : Process K.State). heard q.screen) (λ s q. refl)
      (λ q. heard_same q.screen Notice.send_failed refl)
      (λ q. heard_same q.screen Notice.cannot_send refl) r p
