-- ===== src/Server/Receiving.antt =====
-- The server's receiving thread during a file transfer.
use wire_send.Common.{
  ℕ, suc, ◌+◌, ◌^◌, ◌<◌, ◌≡◌, refl, sym, ap, ◌∙◌, List, [], ◌∷◌, ◌++◌, append_assoc, append-nil,
  subst, Bool, true, arith, length, All, ℤ,
}
use wire_send.Common.Outcome.{Outcome, ok, ◌>>=◌}
use wire_send.Wire.{Packet, value, file_begin, file_end, serialize_packet, serialize_file_chunk}
use wire_send.Wire.Memory.{ByteOrder}
use wire_send.Net.{Kernel, IsStream, IsHealthy}
use wire_send.Net.Frame.{as_read, read_frame, read_frame-serialize_packet}
use wire_send.Files.{put}
use wire_send.Process.{Verdict, go_on, say, file_received}
use wire_send.Transfer.{chunk_packet, marker}
use wire_send.Transfer.Sending.{wire, IsPiece, joined_pieces, chunk_packets, file_packets}
use wire_send.Transfer.Receiving.{
  IsWriting, IsFresh, SameElsewhere, put-IsWriting, put-SameElsewhere, recv_file_begin,
  recv_file_chunk, recv_file_end,
}
use wire_send.Server.{Server, after_arrival, handle_packet, recv_round, recv_thread}

module _ (K : Kernel) (e : ByteOrder) (fd : ℤ) (S : IsStream K fd) (H : IsHealthy K fd S) where
  open S use {pending}

  -- A round that reads on is followed by the next one.
  recv_thread-go_on :
      (rounds : ℕ) (v v' : Server K.State)
      → v.server_connected ≡ true
      → recv_round K e v ≡ ok (go_on, v')
      → recv_thread K e (suc rounds) v ≡ recv_thread K e rounds v'
  unfolding recv_thread
  recv_thread-go_on rounds v v' up round = simp (up, round)

  -- With a serialized packet in front of the stream, a round of the thread handles that packet.
  pub recv_thread-packet :
      (sender : ByteOrder) (packet : Packet) (rest : List ℕ) (rounds : ℕ) (v : Server K.State)
      (v' : K.State → Server K.State)
      → v.communication_socket_fd ≡ fd
      → v.server_connected ≡ true
      → length packet.pl_body + 1 < 2 ^ 31
      → pending v.proc.sys ≡ (serialize_packet sender packet).0 ++ rest
      → ((s : K.State)
          → handle_packet e (as_read packet) (record v { proc = record v.proc { sys = s } })
            ≡ ok (v' s))
      → (s : K.State) × (recv_thread K e (suc rounds) v ≡ recv_thread K e rounds (v' s))
        × (pending s ≡ rest)
  unfolding recv_round
  recv_thread-packet sender packet rest rounds v v' same up small h handled =
      let (s, read, left, kept) =
        read_frame-serialize_packet K e fd S H sender packet rest v.proc.sys small h in
      let read' = ap (λ d. read_frame K e d v.proc.sys) same ∙ read in
      let round =
        ap (λ r. after_arrival K e r.0 (record v { proc = record v.proc { sys = r.1 } })) read'
        ∙ ap (λ o. o >>= λ w. ok (go_on, w)) (handled s) in
      (s, recv_thread-go_on rounds v (v' s) up round, left)

module _ (e : ByteOrder) {System : Type 0} (v : Server System)
    (active : v.incoming.active ≡ true) where
  abbrev target : List ℕ
  target = v.incoming.file_path_on_target

  pub handle_begin :
      (available : ℕ)
      → IsFresh v.incoming available v.proc.disk
      → handle_packet e (as_read (marker (value file_begin))) v
        ≡ ok (record v {
          proc = record v.proc { disk = put v.proc.disk target [] };
          file_recv_in_progress = Bool.false;
        })
  unfolding handle_packet
  handle_begin available f = simp (
    active,
    recv_file_begin v.incoming v.proc (as_read (marker (value file_begin))) available refl f,
  )

  pub handle_chunk :
      (c bytes : List ℕ)
      → IsWriting target bytes v.proc.disk
      → handle_packet e (as_read (chunk_packet c)) v
        ≡ ok (record v {
          proc = record v.proc { disk = put v.proc.disk target (bytes ++ c) };
          file_recv_in_progress = Bool.false;
        })
  unfolding handle_packet serialize_file_chunk
  handle_chunk c bytes w =
      simp (active, recv_file_chunk v.incoming v.proc (as_read (chunk_packet c)) bytes refl w)

  pub handle_end :
      handle_packet e (as_read (marker (value file_end))) v
      ≡ ok (record v { proc = say file_received v.proc; file_recv_in_progress = Bool.false })
  unfolding handle_packet
  handle_end =
      simp (active, recv_file_end v.incoming v.proc (as_read (marker (value file_end))) refl)

-- A thread that can take part in a transfer over the connection `fd`.
pub record IsListening {System : Type 0} (fd : ℤ) (v : Server System) : Type 0 where
  pub connection : v.communication_socket_fd ≡ fd
  pub up : v.server_connected ≡ true
  pub active : v.incoming.active ≡ true

module _ (K : Kernel) (e : ByteOrder) (fd : ℤ) (S : IsStream K fd) (H : IsHealthy K fd S)
    (sender : ByteOrder) where
  open S use {pending}

  -- The thread reads on; the file at the path holds the bytes, and the rest of the disk is as it
  -- was; the transfer's packets, and no more, are taken from the stream; the user is told.
  abbrev pub Delivered :
      List ℕ → List ℕ → List ℕ → Server K.State → Outcome (Verdict × Server K.State) → Type 0
  Delivered path bytes rest v out =
      (v' : Server K.State) × (out ≡ ok (go_on, v'))
      × IsWriting path bytes v'.proc.disk
      × SameElsewhere path v.proc.disk v'.proc.disk
      × (pending v'.proc.sys ≡ rest)
      × (v'.proc.screen ≡ v.proc.screen ++ file_received ∷ [])

  -- The states after the packets of a transfer were handled, over the system's state `s`.
  abbrev stored_at : List ℕ → Server K.State → K.State → Server K.State
  stored_at bytes v s = record v {
    proc = record v.proc { sys = s; disk = put v.proc.disk v.incoming.file_path_on_target bytes };
    file_recv_in_progress = Bool.false;
  }

  abbrev ended : Server K.State → K.State → Server K.State
  ended v s = record v {
    proc = say file_received (record v.proc { sys = s });
    file_recv_in_progress = Bool.false;
  }

  chunks-Delivered :
      (cs : List (List ℕ)) (bytes rest : List ℕ) (v : Server K.State)
      → IsListening fd v
      → All IsPiece cs
      → IsWriting v.incoming.file_path_on_target bytes v.proc.disk
      → pending v.proc.sys ≡ wire sender (chunk_packets cs ++ marker (value file_end) ∷ []) ++ rest
      → Delivered v.incoming.file_path_on_target
          (bytes ++ joined_pieces cs)
          rest
          v
          (recv_thread K e (suc (length cs)) v)
  chunks-Delivered [] bytes rest v l pieces w h =
      let end_wire = (serialize_packet sender (marker (value file_end))).0 in
      let (s, run, left) =
        recv_thread-packet K e fd S H sender (marker (value file_end)) rest 0 v (ended v)
          l.connection l.up (omega arith) (h ∙ ap (λ bs. bs ++ rest) (append-nil end_wire))
          (λ s. handle_end e (record v { proc = record v.proc { sys = s } }) l.active) in
      (
        ended v s,
        run ∙ (unfold recv_thread in refl),
        subst (λ bs. IsWriting v.incoming.file_path_on_target bs v.proc.disk)
            (sym (append-nil bytes)) w,
        λ q _. refl,
        left,
        refl,
      )
  chunks-Delivered (c ∷ cs) bytes rest v l (piece, pieces) w h =
      let path = v.incoming.file_path_on_target in
      let first = (serialize_packet sender (chunk_packet c)).0 in
      let later = wire sender (chunk_packets cs ++ marker (value file_end) ∷ []) in
      let (s, run, left) =
        recv_thread-packet K e fd S H sender (chunk_packet c) (later ++ rest) (suc (length cs)) v
          (stored_at (bytes ++ c) v) l.connection l.up (unfold serialize_file_chunk in omega arith)
          (h ∙ append_assoc first later rest)
          (λ s.
            handle_chunk e (record v { proc = record v.proc { sys = s } }) l.active c bytes w) in
      let (v', run', written_all, same, left', told) =
        chunks-Delivered cs (bytes ++ c) rest (stored_at (bytes ++ c) v s)
          (record { connection = l.connection; up = l.up; active = l.active }) pieces
          (put-IsWriting v.proc.disk path (bytes ++ c) w.allowed) left in
      (
        v',
        run ∙ run',
        subst (λ bs. IsWriting path bs v'.proc.disk) (append_assoc bytes c (joined_pieces cs))
            written_all,
        λ q other. same q other ∙ put-SameElsewhere v.proc.disk path (bytes ++ c) q other,
        left',
        told,
      )

  -- The packets of one transfer, in front of the stream of a thread whose request is fresh, leave
  -- the pieces, joined, in a new file.
  pub recv_thread-Delivered :
      (cs : List (List ℕ)) (rest : List ℕ) (available : ℕ) (v : Server K.State)
      → IsListening fd v
      → All IsPiece cs
      → IsFresh v.incoming available v.proc.disk
      → pending v.proc.sys ≡ wire sender (file_packets cs) ++ rest
      → Delivered v.incoming.file_path_on_target
          (joined_pieces cs)
          rest
          v
          (recv_thread K e (suc (suc (length cs))) v)
  recv_thread-Delivered cs rest available v l pieces f h =
      let path = v.incoming.file_path_on_target in
      let first = (serialize_packet sender (marker (value file_begin))).0 in
      let later = wire sender (chunk_packets cs ++ marker (value file_end) ∷ []) in
      let (s, run, left) =
        recv_thread-packet K e fd S H sender (marker (value file_begin)) (later ++ rest)
          (suc (length cs)) v (stored_at [] v) l.connection l.up (omega arith)
          (h ∙ append_assoc first later rest)
          (λ s.
            handle_begin e (record v { proc = record v.proc { sys = s } }) l.active available f) in
      let (v', run', written_all, same, left', told) =
        chunks-Delivered cs [] rest (stored_at [] v s)
          (record { connection = l.connection; up = l.up; active = l.active }) pieces
          (put-IsWriting v.proc.disk path [] f.allowed) left in
      (
        v',
        run ∙ run',
        written_all,
        λ q other. same q other ∙ put-SameElsewhere v.proc.disk path [] q other,
        left',
        told,
      )
