-- ===== src/Net/Reliable.antt =====
-- A connection that works until the program shuts it: what `SendPacket` writes to it, in every state.
use wire_send.Common.{
  ℕ, zero, suc, ◌+◌, ◌%◌, ◌^◌, ◌≤◌, ◌<◌, ◌≡◌, refl, sym, ap, ◌∙◌, List, ◌++◌, append_assoc,
  append-nil, arith, length, length-drop, take, drop, take-append-drop, drop_of_length-le, drop-add,
  lt→ltb, le→not_ltb, leb, ◌⊎◌, ◌==◌, ℤ, dec_lt, Bool, true, false, Bool-cases, inl, inr,
}
use wire_send.Net.{
  Kernel, IsStream, recv_failed, sent, send_failed, Transmission, done, broken, send_round,
  send_loop, send_packet,
}

-- While the connection is open `send` accepts some bytes, and no more after it was shut or closed.
-- What was written, and what the peer will have written, does not depend on these calls.
pub record IsReliable (K : Kernel) (fd : ℤ) (S : IsStream K fd) : Type 0 where
  pub is_open : K.State → Bool
  pub send_open :
      (bs : List ℕ) (s : K.State)
      → 0 < length bs
      → is_open s ≡ true
      → (k : ℕ) × (s' : K.State) × (K.send fd bs s ≡ (sent k, s'))
        × (0 < k)
        × (k ≤ 0x7ffff000)
        × (is_open s' ≡ true)
  pub send_shut :
      (bs : List ℕ) (s : K.State)
      → is_open s ≡ false
      → (s' : K.State) × (K.send fd bs s ≡ (send_failed, s'))
  -- A `recv` that fails sends nothing.
  pub recv_none :
      (n : ℕ) (s s' : K.State) → K.recv fd n s ≡ (recv_failed, s') → S.written s' ≡ S.written s
  pub shutdown_read_keeps :
      (d : ℤ) (s : K.State)
      → (S.pending (K.shutdown_read d s) ≡ S.pending s)
        × (S.written (K.shutdown_read d s) ≡ S.written s)
  pub shutdown_write_keeps :
      (d : ℤ) (s : K.State)
      → (S.pending (K.shutdown_write d s) ≡ S.pending s)
        × (S.written (K.shutdown_write d s) ≡ S.written s)
  pub close_keeps :
      (d : ℤ) (s : K.State)
      → (S.pending (K.close d s) ≡ S.pending s) × (S.written (K.close d s) ≡ S.written s)

module _ (K : Kernel) (fd : ℤ) (S : IsStream K fd) (R : IsReliable K fd S) where
  open S use {pending, written}

  -- The call is done and wrote these bytes.
  abbrev Whole : List ℕ → K.State → Transmission × K.State → Type 0
  Whole rest s r = (r.0 ≡ done) × (pending r.1 ≡ pending s) × (written r.1 ≡ written s ++ rest)

  send_loop_open :
      (fuel : ℕ) (buff : List ℕ) (n : ℕ) (s : K.State)
      → R.is_open s ≡ true
      → length buff ≤ n + fuel
      → Whole (drop n buff) s (send_loop K fd fuel buff n s)
  unfolding send_loop send_round
  send_loop_open zero buff n s up f =
      rw (drop_of_length-le n buff (omega arith), le→not_ltb n (length buff) (omega arith))
        (refl, refl, sym (append-nil _))
  send_loop_open (suc fuel) buff n s up f = elim (dec_lt n (length buff)) [
    | no all ↦
        rw (drop_of_length-le n buff (omega arith), le→not_ltb n (length buff) (omega arith))
          (refl, refl, sym (append-nil _))
    | yes part ↦
        let (k, s', e, more, cap, up') =
          R.send_open (drop n buff) s (omega (arith, length-drop n buff)) up in
        let kept : k % 2 ^ 32 ≡ k = omega arith in
        let small : leb (2 ^ 31) k ≡ false = ground arith in
        let some_bytes : (k == 0) ≡ false = ground arith in
        let (fits, front, unread) = S.send_front (drop n buff) s s' k e in
        let (d, p, w) = send_loop_open fuel buff (n + k) s' up' (omega arith) in
        let joined =
          append_assoc (written s) (take k (drop n buff)) (drop k (drop n buff))
          ∙ ap (◌++◌ (written s)) (take-append-drop k (drop n buff)) in
        rw (e, lt→ltb n (length buff) part, kept, small, some_bytes)
          (
            d,
            p ∙ unread,
            w
                ∙ ap (λ bs. bs ++ drop (n + k) buff) front
                ∙ ap (λ bs. (written s ++ take k (drop n buff)) ++ bs) (drop-add n k buff)
                ∙ joined,
          )
  ]

  -- It failed and wrote nothing.
  abbrev Unsent : K.State → Transmission × K.State → Type 0
  Unsent s r = (r.0 ≡ broken) × (pending r.1 ≡ pending s) × (written r.1 ≡ written s)

  send_loop_shut :
      (fuel : ℕ) (buff : List ℕ) (n : ℕ) (s : K.State)
      → R.is_open s ≡ false
      → length buff ≤ n + fuel
      → Whole (drop n buff) s (send_loop K fd fuel buff n s)
        ⊎ Unsent s (send_loop K fd fuel buff n s)
  unfolding send_loop send_round
  send_loop_shut zero buff n s shut f =
      rw (drop_of_length-le n buff (omega arith), le→not_ltb n (length buff) (omega arith))
        (inl (refl, refl, sym (append-nil _)))
  send_loop_shut (suc fuel) buff n s shut f = elim (dec_lt n (length buff)) [
    | no all ↦
        rw (drop_of_length-le n buff (omega arith), le→not_ltb n (length buff) (omega arith))
          (inl (refl, refl, sym (append-nil _)))
    | yes part ↦
        let (s', e) = R.send_shut (drop n buff) s shut in
        let (w, p) = S.send_none (drop n buff) s s' e in
        rw (e, lt→ltb n (length buff) part) (inr (refl, p, w))
  ]

  -- Whatever the state, the call returns 0 and writes the whole buffer, or fails and writes
  -- nothing, and reads nothing.
  pub send_packet_all_or_none :
      (buff : List ℕ) (s : K.State)
      → Whole buff s (send_packet K fd buff s) ⊎ Unsent s (send_packet K fd buff s)
  unfolding send_packet
  send_packet_all_or_none buff s = elim (Bool-cases (R.is_open s)) [
    | inl up ↦ inl (send_loop_open (length buff) buff 0 s up (omega arith))
    | inr shut ↦ send_loop_shut (length buff) buff 0 s shut (omega arith)
  ]
