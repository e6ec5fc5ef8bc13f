-- ===== src/Traffic/Files.antt =====
-- What the calls of src/FileHandler.cpp write to a connection that works until it is shut.
use wire_send.Common.{
  ℕ, zero, suc, ◌+◌, ◌≡◌, refl, sym, ap, ◌∙◌, List, [], ◌∷◌, ◌++◌, append-nil, arith, Bool, true,
  false, take, drop, length, ltb, ◌==◌, ℤ, Bool-cases, inl, inr, if◌then◌else◌,
}
use wire_send.Wire.{
  message, Packet, FileMetadata, value, file_begin, file_end, file_neg, file_accept, file_reject,
  no_arg, serialize_packet, serialize_file_metadata_packet,
}
use wire_send.Wire.Memory.{ByteOrder}
use wire_send.Net.{Kernel, IsStream, Transmission, done, broken, stuck, send_packet}
use wire_send.Net.Reliable.{IsReliable, send_packet_all_or_none}
use wire_send.Files.{open_to_read}
use wire_send.Process.{Process, PendingOutgoingFileRequest, PendingIncomingFileRequest}
use wire_send.Common.Outcome.{ok}
use wire_send.Transfer.{
  recv_begin, recv_file, can_receive_files, transmit, after_chunk, chunk_loop, send_contents,
  send_file, answer_sender, negotiate_receiver, can_send_files, contents, then_send, returned,
  answered, marker, chunk_packet, packet_of, default_file_chunk_size, accept_text, reject_text,
}
use wire_send.Traffic.{accept_bit, message_of, Puts, Puts-none, Puts-trans}

abbrev pub line_if : Transmission → List ℕ → List (List ℕ)
line_if done text = text ∷ []
line_if broken text = []
line_if stuck text = []

module _ (K : Kernel) (fd : ℤ) (S : IsStream K fd) (R : IsReliable K fd S) (e : ByteOrder) where
  -- For two processes.
  abbrev pub Writes : ℕ → Process K.State → Process K.State → Type 0
  Writes n p p' = Puts S.pending S.written e n [] p.sys p'.sys

  pub Writes-same : (n : ℕ) (p p' : Process K.State) → p'.sys ≡ p.sys → Writes n p p'
  Writes-same n p p' h =
      Puts-none S.pending S.written e n p.sys p'.sys (ap S.pending h) (ap S.written h)

  -- A packet that goes out whole, or not at all.
  pub transmit-Writes :
      (packet : Packet) (p : Process K.State)
      → message_of packet ≡ []
      → Writes (accept_bit packet) p (transmit K e fd packet p).1
  unfolding transmit
  transmit-Writes packet p quiet =
      let buff = (serialize_packet e packet).0 in
      elim (send_packet_all_or_none K fd S R buff p.sys) [
        | inl (d, unread, whole) ↦ record {
          unread = unread;
          packets = packet ∷ [];
          put = whole ∙ ap (◌++◌ (S.written p.sys)) (sym (append-nil buff));
          few = omega arith;
          texts = ap (λ ls. ls ++ []) quiet;
        }
        | inr (d, unread, nothing) ↦
            Puts-none S.pending S.written e (accept_bit packet) p.sys
              (send_packet K fd buff p.sys).1 unread nothing
      ]

  -- A line is written if and only if its sending returned 0.
  pub transmit_line-Puts :
      (text : List ℕ) (p : Process K.State)
      → Puts S.pending S.written e 0
          (line_if (transmit K e fd (packet_of (value message) text (value no_arg)) p).0 text)
          p.sys
          (transmit K e fd (packet_of (value message) text (value no_arg)) p).1.sys
  unfolding transmit
  transmit_line-Puts text p =
      let packet = packet_of (value message) text (value no_arg) in
      let buff = (serialize_packet e packet).0 in
      elim (send_packet_all_or_none K fd S R buff p.sys) [
        | inl (d, unread, whole) ↦ record {
          unread = unread;
          packets = packet ∷ [];
          put = whole ∙ ap (◌++◌ (S.written p.sys)) (sym (append-nil buff));
          few = omega arith;
          texts = sym (ap (λ t. line_if t text) d);
        }
        | inr (d, unread, nothing) ↦ record {
          unread = unread;
          packets = [];
          put = nothing ∙ sym (append-nil (S.written p.sys));
          few = omega arith;
          texts = sym (ap (λ t. line_if t text) d);
        }
      ]

  answered-Writes :
      (n : ℕ) (req : Bool) (p : Process K.State) (r : Transmission × Process K.State)
      → Writes n p r.1
      → Writes n p (answered K e fd req r).1
  answered-Writes n req p (done, q) h = record {
    unread = h.unread;
    packets = h.packets;
    put = h.put;
    few = h.few;
    texts = h.texts;
  }
  answered-Writes n req p (broken, q) h = record {
    unread = h.unread;
    packets = h.packets;
    put = h.put;
    few = h.few;
    texts = h.texts;
  }
  answered-Writes n req p (stuck, q) h = record {
    unread = h.unread;
    packets = h.packets;
    put = h.put;
    few = h.few;
    texts = h.texts;
  }

  returned-Writes :
      (n : ℕ) (p : Process K.State) (r : Transmission × Process K.State)
      → Writes n p r.1
      → Writes n p (returned K e fd r).1
  returned-Writes n p (done, q) h = record {
    unread = h.unread;
    packets = h.packets;
    put = h.put;
    few = h.few;
    texts = h.texts;
  }
  returned-Writes n p (broken, q) h = record {
    unread = h.unread;
    packets = h.packets;
    put = h.put;
    few = h.few;
    texts = h.texts;
  }
  returned-Writes n p (stuck, q) h = record {
    unread = h.unread;
    packets = h.packets;
    put = h.put;
    few = h.few;
    texts = h.texts;
  }

  pub negotiate_receiver-Writes :
      (meta : FileMetadata) (p : Process K.State) → Writes 0 p (negotiate_receiver K e fd meta p).1
  unfolding negotiate_receiver
  negotiate_receiver-Writes meta p =
      let packet =
        packet_of (value file_neg) (serialize_file_metadata_packet e meta) (value no_arg) in
      answered-Writes 0 true p (transmit K e fd packet p) (transmit-Writes packet p refl)

  pub answer_sender-Writes :
      (response : Bool) (p : Process K.State)
      → Writes (if response then 1 else 0) p (answer_sender K e fd response p).1
  unfolding answer_sender
  answer_sender-Writes true p =
      let packet = packet_of (value file_neg) accept_text (value file_accept) in
      answered-Writes 1 false p (transmit K e fd packet p) (transmit-Writes packet p refl)
  answer_sender-Writes false p =
      let packet = packet_of (value file_neg) reject_text (value file_reject) in
      answered-Writes 0 false p (transmit K e fd packet p) (transmit-Writes packet p refl)

  Writes-then : (p q r : Process K.State) → Writes 0 p q → Writes 0 q r → Writes 0 p r
  Writes-then p q r a b = Puts-trans S.pending S.written e 0 0 [] [] p.sys q.sys r.sys a b

  after_chunk-Writes :
      (last : Bool) (t : Transmission) (p q : Process K.State)
      (next : Process K.State → Transmission × Process K.State)
      → Writes 0 p q
      → ((q' : Process K.State) → Writes 0 q' (next q').1)
      → Writes 0 p (after_chunk K e fd last t q next).1
  unfolding after_chunk
  after_chunk-Writes true done p q next h n = h
  after_chunk-Writes false done p q next h n = Writes-then p q (next q).1 h (n q)
  after_chunk-Writes last broken p q next h n = h
  after_chunk-Writes last stuck p q next h n = h

  then_send-Writes :
      (r : Transmission × Process K.State) (p : Process K.State)
      (next : Process K.State → Transmission × Process K.State)
      → Writes 0 p r.1
      → ((q : Process K.State) → Writes 0 q (next q).1)
      → Writes 0 p (then_send K e fd r next).1
  then_send-Writes (done, q) p next h n = Writes-then p q (next q).1 h (n q)
  then_send-Writes (broken, q) p next h n = h
  then_send-Writes (stuck, q) p next h n = h

  chunk_loop-Writes :
      (fuel : ℕ) (unread : List ℕ) (p : Process K.State)
      → Writes 0 p (chunk_loop K e fd fuel unread p).1
  unfolding chunk_loop
  chunk_loop-Writes zero unread p = Writes-same 0 p p refl
  chunk_loop-Writes (suc fuel) unread p =
      let bytes = take default_file_chunk_size unread in
      let rest =
        after_chunk-Writes (ltb (length bytes) default_file_chunk_size)
          (transmit K e fd (chunk_packet bytes) p).0 p (transmit K e fd (chunk_packet bytes) p).1
          (λ q. chunk_loop K e fd fuel (drop default_file_chunk_size unread) q)
          (transmit-Writes (chunk_packet bytes) p refl)
          (λ q. chunk_loop-Writes fuel (drop default_file_chunk_size unread) q) in
      elim (Bool-cases (length bytes == 0)) [
        | inl h ↦ rw h (Writes-same 0 p p refl)
        | inr h ↦ rw h rest
      ]

  send_contents-Writes :
      (bytes : List ℕ) (p : Process K.State) → Writes 0 p (send_contents K e fd bytes p).1
  unfolding send_contents
  send_contents-Writes bytes p =
      let finish = λ (q : Process K.State). transmit K e fd (marker (value file_end)) q in
      let chunks = λ (q : Process K.State). chunk_loop K e fd (length bytes + 1) bytes q in
      then_send-Writes (transmit K e fd (marker (value file_begin)) p) p
        (λ q. then_send K e fd (chunks q) finish)
        (transmit-Writes (marker (value file_begin)) p refl)
        (λ q.
          then_send-Writes (chunks q) q finish (chunk_loop-Writes (length bytes + 1) bytes q)
            (λ q'. transmit-Writes (marker (value file_end)) q' refl))

  -- A file is no acceptance.
  pub send_file-Writes :
      (r : PendingOutgoingFileRequest) (p : Process K.State) → Writes 0 p (send_file K e fd r p).1
  unfolding send_file
  send_file-Writes r p =
      let bytes = contents (open_to_read p.disk r.file_path_on_src) in
      elim (Bool-cases (can_send_files r p)) [
        | inl h ↦
            rw h (returned-Writes 0 p (send_contents K e fd bytes p) (send_contents-Writes bytes p))
        | inr h ↦ rw h (Writes-same 0 p p refl)
      ]

-- The reception of a file uses no connection.
module _ {System : Type 0} (packet : Packet) (r r' : PendingIncomingFileRequest)
    (p p' : Process System) where
  recv_begin-sys : (flag : ℤ) → recv_begin r p ≡ ok (flag, r', p') → p'.sys ≡ p.sys
  unfolding recv_begin can_receive_files
  recv_begin-sys flag h = ground arith

  pub recv_file-sys : (flag : ℤ) → recv_file packet r p ≡ ok (flag, r', p') → p'.sys ≡ p.sys
  unfolding recv_file
  recv_file-sys flag h = ground (arith, recv_begin-sys flag)
