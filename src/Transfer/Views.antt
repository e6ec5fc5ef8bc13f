-- ===== src/Transfer/Views.antt =====
-- What of a program the sending of a file leaves as it was (`SendFile` in src/FileHandler.cpp): all
-- that the state of the system has no part in, nor the two lines that may be printed.
use wire_send.Common.{
  ℕ, zero, suc, ◌+◌, ◌≡◌, refl, ◌∙◌, List, Bool, true, false, ℤ, take, drop, length, ltb, ◌==◌,
  Bool-cases, inl, inr,
}
use wire_send.Wire.{serialize_packet, Packet, value, file_begin, file_end}
use wire_send.Wire.Memory.{ByteOrder}
use wire_send.Net.{send_packet, Kernel, Transmission, done, broken, stuck}
use wire_send.Files.{open_to_read}
use wire_send.Process.{PendingOutgoingFileRequest, Process, say, send_failed, cannot_send}
use wire_send.Transfer.{
  transmit, after_chunk, chunk_loop, send_contents, send_file, can_send_files, contents, then_send,
  returned, marker, chunk_packet, default_file_chunk_size,
}

module _ {A : Type 0} (K : Kernel) (e : ByteOrder) (fd : ℤ) (view : Process K.State → A)
    (of_system : (s : K.State) (p : Process K.State) → view (record p { sys = s }) ≡ view p)
    (of_failure : (p : Process K.State) → view (say send_failed p) ≡ view p)
    (of_refusal : (p : Process K.State) → view (say cannot_send p) ≡ view p) where
  abbrev Same : Process K.State → Process K.State → Type 0
  Same p p' = view p' ≡ view p

  transmit-Same : (packet : Packet) (p : Process K.State) → Same p (transmit K e fd packet p).1
  unfolding transmit
  transmit-Same packet p = of_system (send_packet K fd (serialize_packet e packet).0 p.sys).1 p

  after_chunk-Same :
      (last : Bool) (t : Transmission) (p q : Process K.State)
      (next : Process K.State → Transmission × Process K.State)
      → Same p q
      → ((q' : Process K.State) → Same q' (next q').1)
      → Same p (after_chunk K e fd last t q next).1
  unfolding after_chunk
  after_chunk-Same true done p q next h n = h
  after_chunk-Same false done p q next h n = n q ∙ h
  after_chunk-Same last broken p q next h n = h
  after_chunk-Same last stuck p q next h n = h

  then_send-Same :
      (r : Transmission × Process K.State) (p : Process K.State)
      (next : Process K.State → Transmission × Process K.State)
      → Same p r.1
      → ((q : Process K.State) → Same q (next q).1)
      → Same p (then_send K e fd r next).1
  then_send-Same (done, q) p next h n = n q ∙ h
  then_send-Same (broken, q) p next h n = h
  then_send-Same (stuck, q) p next h n = h

  returned-Same :
      (r : Transmission × Process K.State) (p : Process K.State)
      → Same p r.1
      → Same p (returned K e fd r).1
  returned-Same (done, q) p h = h
  returned-Same (broken, q) p h = of_failure q ∙ h
  returned-Same (stuck, q) p h = of_failure q ∙ h

  chunk_loop-Same :
      (fuel : ℕ) (unread : List ℕ) (p : Process K.State)
      → Same p (chunk_loop K e fd fuel unread p).1
  unfolding chunk_loop
  chunk_loop-Same zero unread p = refl
  chunk_loop-Same (suc fuel) unread p =
      let bytes = take default_file_chunk_size unread in
      let rest =
        after_chunk-Same (ltb (length bytes) default_file_chunk_size)
          (transmit K e fd (chunk_packet bytes) p).0 p (transmit K e fd (chunk_packet bytes) p).1
          (λ q. chunk_loop K e fd fuel (drop default_file_chunk_size unread) q)
          (transmit-Same (chunk_packet bytes) p)
          (λ q. chunk_loop-Same fuel (drop default_file_chunk_size unread) q) in
      elim (Bool-cases (length bytes == 0)) [ inl h ↦ rw h refl | inr h ↦ rw h rest ]

  send_contents-Same :
      (bytes : List ℕ) (p : Process K.State) → Same p (send_contents K e fd bytes p).1
  unfolding send_contents
  send_contents-Same bytes p =
      let finish = λ (q : Process K.State). transmit K e fd (marker (value file_end)) q in
      let chunks = λ (q : Process K.State). chunk_loop K e fd (length bytes + 1) bytes q in
      then_send-Same (transmit K e fd (marker (value file_begin)) p) p
        (λ q. then_send K e fd (chunks q) finish) (transmit-Same (marker (value file_begin)) p)
        (λ q.
          then_send-Same (chunks q) q finish (chunk_loop-Same (length bytes + 1) bytes q)
            (λ q'. transmit-Same (marker (value file_end)) q'))

  -- So has the whole of `SendFile`.
  pub send_file-Same :
      (r : PendingOutgoingFileRequest) (p : Process K.State) → Same p (send_file K e fd r p).1
  unfolding send_file
  send_file-Same r p =
      let bytes = contents (open_to_read p.disk r.file_path_on_src) in
      elim (Bool-cases (can_send_files r p)) [
        | inl h ↦ rw h (returned-Same (send_contents K e fd bytes p) p (send_contents-Same bytes p))
        | inr h ↦ rw h (of_refusal p)
      ]
