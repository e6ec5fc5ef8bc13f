-- ===== src/Transfer/Sending.antt =====
-- What `SendFile` puts on a connection that does not fail.
use wire_send.Common.{
  ℕ, zero, suc, ◌+◌, ◌%◌, ◌^◌, ◌≤◌, ◌<◌, ◌≡◌, refl, sym, ap, ◌∙◌, List, [], ◌∷◌, ◌++◌, append_assoc,
  append-nil, true, false, some, arith, length, length-append, length-take, length-drop,
  length-eq_zero, take, drop, take-append-drop, take_of_length-le, All, ltb, ◌==◌, ℤ, pos,
  Bool-cases, inl, inr, ltb→lt, dec_lt,
}
use wire_send.Wire.{Packet, serialize_packet, value, file_begin, file_end, serialize_file_chunk}
use wire_send.Wire.Memory.{ByteOrder}
use wire_send.Wire.Layout.{serialize_packet-frame, be_bytes_4, length-be_bytes_4}
use wire_send.Net.{Kernel, IsStream, IsHealthy, Transmission, done, send_packet}
use wire_send.Net.Send.{send_packet_healthy, send_packet-done}
use wire_send.Process.{Process, PendingOutgoingFileRequest}
use wire_send.Files.{entry_at, regular, exists, is_regular_file, open_to_read}
use wire_send.Transfer.{
  default_file_chunk_size, transmit, chunk_packet, marker, chunk_loop, after_chunk, send_contents,
  send_file, then_send, returned,
}

-- Packets on the wire, one after the other.
abbrev pub wire : ByteOrder → List Packet → List ℕ
wire e [] = []
wire e (p ∷ ps) = (serialize_packet e p).0 ++ wire e ps

pub wire-append : (e : ByteOrder) (ps qs : List Packet) → wire e (ps ++ qs) ≡ wire e ps ++ wire e qs
wire-append e [] qs = refl
wire-append e (p ∷ ps) qs =
    ap (◌++◌ (serialize_packet e p).0) (wire-append e ps qs)
    ∙ sym (append_assoc (serialize_packet e p).0 (wire e ps) (wire e qs))

pub length-serialize_packet :
    (e : ByteOrder) (p : Packet) → length (serialize_packet e p).0 ≡ length p.pl_body + 6
length-serialize_packet e p =
    let len = length p.pl_body % 2 ^ 32 in
    omega (
      arith,
      ap length (serialize_packet-frame e p),
      length-append (p.pl_type ∷ be_bytes_4 len) (p.pl_body ++ p.pl_ctl ∷ []),
      length-append p.pl_body (p.pl_ctl ∷ []),
      length-be_bytes_4 len,
    )

module _ (K : Kernel) (e : ByteOrder) (fd : ℤ) (S : IsStream K fd) (H : IsHealthy K fd S) where
  open S use {written}

  pub transmit_healthy :
      (packet : Packet) (p : Process K.State)
      → length packet.pl_body < 2 ^ 31
      → (s : K.State) × (transmit K e fd packet p ≡ (done, record p { sys = s }))
        × (written s ≡ written p.sys ++ (serialize_packet e packet).0)
  unfolding transmit
  transmit_healthy packet p small =
      let buff = (serialize_packet e packet).0 in
      let r = send_packet K fd buff p.sys in
      let sent_all = send_packet_healthy K fd S H buff p.sys in
      (
        r.1,
        λ i. (sent_all i, record p { sys = r.1 }),
        send_packet-done K fd S buff p.sys r.1 (omega (arith, length-serialize_packet e packet))
            (λ i. (sent_all i, r.1)),
      )

-- The pieces of a file: none is empty, none is larger than the buffer.
abbrev pub IsPiece : List ℕ → Type 0
IsPiece c = (0 < length c) × (length c ≤ default_file_chunk_size)

abbrev pub joined_pieces : List (List ℕ) → List ℕ
joined_pieces [] = []
joined_pieces (c ∷ cs) = c ++ joined_pieces cs

abbrev pub chunk_packets : List (List ℕ) → List Packet
chunk_packets [] = []
chunk_packets (c ∷ cs) = chunk_packet c ∷ chunk_packets cs

module _ (K : Kernel) (e : ByteOrder) (fd : ℤ) (S : IsStream K fd) (H : IsHealthy K fd S) where
  open S use {written}

  -- The bytes that the next read delivers, and those after them.
  abbrev front : List ℕ → List ℕ
  front unread = take default_file_chunk_size unread

  abbrev back : List ℕ → List ℕ
  back unread = drop default_file_chunk_size unread

  chunk_loop_end :
      (fuel : ℕ) (unread : List ℕ) (p : Process K.State)
      → length (front unread) ≡ 0
      → chunk_loop K e fd (suc fuel) unread p ≡ (done, p)
  unfolding chunk_loop
  chunk_loop_end fuel unread p h = rw h

  chunk_loop_more :
      (fuel : ℕ) (unread : List ℕ) (p p' : Process K.State)
      → 0 < length (front unread)
      → transmit K e fd (chunk_packet (front unread)) p ≡ (done, p')
      → chunk_loop K e fd (suc fuel) unread p
        ≡ after_chunk K e fd
            (ltb (length (front unread)) default_file_chunk_size)
            done
            p'
            (λ q. chunk_loop K e fd fuel (back unread) q)
  unfolding chunk_loop
  chunk_loop_more fuel unread p p' h e' =
      let nonempty : (length (front unread) == 0) ≡ false = ground arith in rw (nonempty, e')

  Pieces : List ℕ → Process K.State → Transmission × Process K.State → Type 0
  Pieces unread p r =
      (cs : List (List ℕ)) × (s : K.State) × (r ≡ (done, record p { sys = s }))
      × (written s ≡ written p.sys ++ wire e (chunk_packets cs))
      × (joined_pieces cs ≡ unread)
      × All IsPiece cs

  chunk_loop-Pieces :
      (fuel : ℕ) (unread : List ℕ) (p : Process K.State)
      → length unread < fuel
      → Pieces unread p (chunk_loop K e fd fuel unread p)
  unfolding Pieces after_chunk
  chunk_loop-Pieces zero unread p h = absurd (omega arith)
  chunk_loop-Pieces (suc fuel) unread p h = elim (dec_lt 0 (length (front unread))) [
    | no empty ↦ (
      [],
      p.sys,
      chunk_loop_end fuel unread p (omega arith),
      sym (append-nil _),
      sym (length-eq_zero unread (omega (arith, length-take default_file_chunk_size unread))),
      tt,
    )
    | yes more ↦
        let size = length-take default_file_chunk_size unread in
        let (s, sent_it, w) =
          transmit_healthy K e fd S H (chunk_packet (front unread)) p piece_small in
        let step = chunk_loop_more fuel unread p (record p { sys = s }) more sent_it in
        elim (Bool-cases (ltb (length (front unread)) default_file_chunk_size)) [
          | inl last ↦
              let all =
                take_of_length-le default_file_chunk_size unread
                  (omega (arith, size, ltb→lt _ _ last)) in
              (
                front unread ∷ [],
                s,
                step ∙ rw last refl,
                w ∙ ap (◌++◌ (written p.sys)) (sym (append-nil piece_wire)),
                append-nil (front unread) ∙ all,
                ((more, omega (arith, size)), tt),
              )
          | inr whole ↦
              let (cs, s', r, w', all, pieces) =
                chunk_loop-Pieces fuel (back unread) (record p { sys = s })
                  (omega (arith, length-drop default_file_chunk_size unread, size)) in
              (
                front unread ∷ cs,
                s',
                step ∙ rw whole r,
                w'
                    ∙ ap (λ (bs : List ℕ). bs ++ wire e (chunk_packets cs)) w
                    ∙ append_assoc (written p.sys) piece_wire (wire e (chunk_packets cs)),
                ap (◌++◌ (front unread)) all ∙ take-append-drop default_file_chunk_size unread,
                ((omega arith, omega (arith, size)), pieces),
              )
        ]
  ]
    where
      piece_wire : List ℕ
      piece_wire = (serialize_packet e (chunk_packet (front unread))).0

      piece_small : length (chunk_packet (front unread)).pl_body < 2 ^ 31
      piece_small =
          unfold serialize_file_chunk in omega (arith, length-take default_file_chunk_size unread)

regroup : (a b c d : List ℕ) → ((a ++ b) ++ c) ++ d ≡ a ++ (b ++ (c ++ d))
regroup a b c d = simp append_assoc

-- A whole transfer: the begin marker, a chunk for each piece, the end marker.
abbrev pub file_packets : List (List ℕ) → List Packet
file_packets cs = marker (value file_begin) ∷ (chunk_packets cs ++ marker (value file_end) ∷ [])

module _ (K : Kernel) (e : ByteOrder) (fd : ℤ) (S : IsStream K fd) (H : IsHealthy K fd S) where
  open S use {written}

  abbrev begin_wire : List ℕ
  begin_wire = (serialize_packet e (marker (value file_begin))).0

  abbrev end_wire : List ℕ
  end_wire = (serialize_packet e (marker (value file_end))).0

  send_contents_healthy :
      (bytes : List ℕ) (p : Process K.State)
      → (cs : List (List ℕ)) × (s : K.State) × (send_contents K e fd bytes p
          ≡ (done, record p { sys = s }))
        × (written s ≡ written p.sys ++ wire e (file_packets cs))
        × (joined_pieces cs ≡ bytes)
        × All IsPiece cs
  unfolding send_contents Pieces
  send_contents_healthy bytes p =
      let (s₁, e₁, w₁) = transmit_healthy K e fd S H (marker (value file_begin)) p (omega arith) in
      let p₁ = record p { sys = s₁ } in
      let (cs, s₂, e₂, w₂, all, pieces) =
        chunk_loop-Pieces K e fd S H (length bytes + 1) bytes p₁ (omega arith) in
      let p₂ = record p { sys = s₂ } in
      let (s₃, e₃, w₃) = transmit_healthy K e fd S H (marker (value file_end)) p₂ (omega arith) in
      let body = wire e (chunk_packets cs) in
      (
        cs,
        s₃,
        ap
              (λ x. then_send K e fd x λ q.
                then_send K e fd (chunk_loop K e fd (length bytes + 1) bytes q)
                  λ q'. transmit K e fd (marker (value file_end)) q')
              e₁
            ∙ ap (λ x. then_send K e fd x λ q'. transmit K e fd (marker (value file_end)) q') e₂
            ∙ e₃,
        w₃
            ∙ ap (λ bs. bs ++ end_wire) (w₂ ∙ ap (λ bs. bs ++ body) w₁)
            ∙ regroup (written p.sys) begin_wire body end_wire
            ∙ ap (λ bs. written p.sys ++ (begin_wire ++ bs))
                (sym (
                  wire-append e (chunk_packets cs) (marker (value file_end) ∷ [])
                  ∙ ap (◌++◌ body) (append-nil end_wire))),
        all,
        pieces,
      )

  -- On a healthy connection, a request for a regular file that may be read is sent whole:
  -- `send_file` returns 0, changes only the system's state, and writes the begin marker, one
  -- chunk packet for each of some pieces, and the end marker, where the pieces joined are the
  -- file's bytes, and each has between one byte and the chunk size.
  pub send_file_healthy :
      (r : PendingOutgoingFileRequest) (p : Process K.State) (bytes : List ℕ)
      → entry_at p.disk r.file_path_on_src ≡ some (regular bytes)
      → p.disk.can_read r.file_path_on_src ≡ true
      → (cs : List (List ℕ)) × (s : K.State) × (send_file K e fd r p
          ≡ (pos 0, record p { sys = s }))
        × (written s ≡ written p.sys ++ wire e (file_packets cs))
        × (joined_pieces cs ≡ bytes)
        × All IsPiece cs
  unfolding send_file exists is_regular_file open_to_read
  send_file_healthy r p bytes there allowed =
      let (cs, s, sent_it, w, all, pieces) = send_contents_healthy bytes p in
      (cs, s, rw (there, allowed) (ap (returned K e fd) sent_it), w, all, pieces)
