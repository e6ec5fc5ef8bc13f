-- ===== src/Net/Send.antt =====
-- What `SendPacket` puts on a stream.
use wire_send.Common.{
  ℕ, zero, suc, ◌+◌, ◌%◌, ◌^◌, ◌≤◌, ◌<◌, ◌≡◌, ◌≢◌, refl, sym, ap, ◌∙◌, List, [], ◌++◌, append_assoc,
  append-nil, arith, length, length-drop, take, drop, take-append-drop, drop_of_length-le,
  drop_split, le→not_ltb, lt→ltb, ltb, leb, ◌⊎◌, ◌==◌, ℤ, dec_lt, Bool-cases, inl, inr,
}
use wire_send.Net.{
  Kernel, IsStream, IsHealthy, Sent, sent, send_failed, Transmission, done, broken, send_round,
  send_loop, send_packet,
}

module _ (K : Kernel) (fd : ℤ) where
  abbrev after : List ℕ → ℕ → K.State → K.State
  after buff n s = (K.send fd (drop n buff) s).1

  send_round_cases {ℓ} :
      (P : Transmission × K.State → Type ℓ) (n : ℕ) (r : Sent) (s : K.State)
      (rest : ℕ → K.State → Transmission × K.State)
      → ((r ≡ send_failed) ⊎ ((k : ℕ) × (r ≡ sent k)) → P (broken, s))
      → ((k : ℕ) → r ≡ sent k → 0 < k % 2 ^ 32 → P (rest (n + k % 2 ^ 32) s))
      → P (send_round K fd n r s rest)
  unfolding send_round
  send_round_cases P n send_failed s rest b g = b (inl refl)
  send_round_cases P n (sent k) s rest b g = elim (Bool-cases (leb (2 ^ 31) (k % 2 ^ 32))) [
    | inl e ↦ rw e (b (inr (k, refl)))
    | inr e ↦ rw e (elim (Bool-cases (k % 2 ^ 32 == 0)) [
      | inl e' ↦ rw e' (b (inr (k, refl)))
      | inr e' ↦ rw e' (g k refl (ground arith))
    ])
  ]

  -- One round of the loop: finished, broken, or on with more bytes sent.
  send_loop_cases {ℓ} :
      (P : Transmission × K.State → Type ℓ) (fuel : ℕ) (buff : List ℕ) (n : ℕ) (s : K.State)
      → (length buff ≤ n → P (done, s))
      → ((K.send fd (drop n buff) s ≡ (send_failed, after buff n s))
            ⊎ ((k : ℕ) × (K.send fd (drop n buff) s ≡ (sent k, after buff n s)))
          → P (broken, after buff n s))
      → ((k : ℕ)
          → n < length buff
          → K.send fd (drop n buff) s ≡ (sent k, after buff n s)
          → 0 < k % 2 ^ 32
          → P (send_loop K fd fuel buff (n + k % 2 ^ 32) (after buff n s)))
      → P (send_loop K fd (suc fuel) buff n s)
  unfolding send_loop
  send_loop_cases P fuel buff n s whole b go = elim (Bool-cases (ltb n (length buff))) [
    | inl e ↦ rw e (
        send_round_cases P n (K.send fd (drop n buff) s).0 (after buff n s)
          (λ n' s'. send_loop K fd fuel buff n' s') (λ why. b (reason why))
          (λ k r more. go k (ground arith) (ap (λ x. (x, after buff n s)) r) more))
    | inr e ↦ rw e (whole (ground arith))
  ]
    where
      reason :
          ((K.send fd (drop n buff) s).0 ≡ send_failed)
            ⊎ ((k : ℕ) × ((K.send fd (drop n buff) s).0 ≡ sent k))
          → (K.send fd (drop n buff) s ≡ (send_failed, after buff n s))
            ⊎ ((k : ℕ) × (K.send fd (drop n buff) s ≡ (sent k, after buff n s)))
      reason (inl r) = inl (ap (λ x. (x, after buff n s)) r)
      reason (inr (k, r)) = inr (k, ap (λ x. (x, after buff n s)) r)

  send_loop-ne-stuck :
      (fuel : ℕ) (buff : List ℕ) (n : ℕ) (s : K.State)
      → length buff ≤ n + fuel
      → (send_loop K fd fuel buff n s).0 ≢ Transmission.stuck
  send_loop-ne-stuck zero buff n s h = unfold send_loop in ground arith
  send_loop-ne-stuck (suc fuel) buff n s h =
      send_loop_cases (λ x. x.0 ≢ Transmission.stuck) fuel buff n s (λ _ x. cc) (λ _ x. cc)
        (λ k _ _ more. send_loop-ne-stuck fuel buff (n + k % 2 ^ 32) (after buff n s) (omega arith))

  -- For every kernel, buffer and state the loop ends: as many rounds as the buffer has bytes are
  -- enough.
  pub send_packet-ne-stuck :
      (buff : List ℕ) (s : K.State) → (send_packet K fd buff s).0 ≢ Transmission.stuck
  unfolding send_packet
  send_packet-ne-stuck buff s = send_loop-ne-stuck (length buff) buff 0 s (omega arith)

module _ (K : Kernel) (fd : ℤ) (S : IsStream K fd) where
  open S use {pending, written}

  -- What a result of the loop says of the stream: all of the rest was sent, or a front of it.
  abbrev Writes : List ℕ → K.State → Transmission × K.State → Type 0
  Writes rest s r =
      (sent_bytes unsent : List ℕ) × (rest ≡ sent_bytes ++ unsent)
      × (written r.1 ≡ written s ++ sent_bytes)
      × (r.0 ≡ done → unsent ≡ [])

  send_loop-Writes :
      (fuel : ℕ) (buff : List ℕ) (n : ℕ) (s : K.State)
      → length buff < 2 ^ 32
      → length buff ≤ n + fuel
      → Writes (drop n buff) s (send_loop K fd fuel buff n s)
  send_loop-Writes zero buff n s h f =
      unfold send_loop in
      rw (drop_of_length-le n buff (omega arith), le→not_ltb n (length buff) (omega arith))
        ([], [], refl, sym (append-nil _), λ _. refl)
  send_loop-Writes (suc fuel) buff n s h f =
      send_loop_cases K fd (Writes (drop n buff) s) fuel buff n s
        (λ all. ([], [], drop_of_length-le n buff all, sym (append-nil _), λ _. refl)) cut_short
        (λ k part e more.
          let (fits, front, kept) = S.send_front (drop n buff) s _ k e in
          let small : k % 2 ^ 32 ≡ k = omega (arith, length-drop n buff) in
          let (xs, ys, split, w, fin) =
            send_loop-Writes fuel buff (n + k % 2 ^ 32) (after K fd buff n s) h (omega arith) in
          (
            take k (drop n buff) ++ xs,
            ys,
            drop_split n k (k % 2 ^ 32) buff xs ys small split,
            w ∙ rw front (append_assoc (written s) (take k (drop n buff)) xs),
            fin,
          ))
    where
      cut_short :
          (K.send fd (drop n buff) s ≡ (send_failed, after K fd buff n s))
            ⊎ ((k : ℕ) × (K.send fd (drop n buff) s ≡ (sent k, after K fd buff n s)))
          → Writes (drop n buff) s (broken, after K fd buff n s)
      cut_short (inl e) = (
        [],
        drop n buff,
        refl,
        (S.send_none (drop n buff) s _ e).0 ∙ sym (append-nil _),
        λ x. absurd (cc),
      )
      cut_short (inr (k, e)) = (
        take k (drop n buff),
        drop k (drop n buff),
        sym (take-append-drop k (drop n buff)),
        (S.send_front (drop n buff) s _ k e).1,
        λ x. absurd (cc),
      )

  -- On any stream, for a buffer of less than 2^32 bytes, whatever the call returns: what was
  -- written is a front of the buffer, and if it returns 0 it is the whole buffer.
  pub send_packet-Writes :
      (buff : List ℕ) (s : K.State) → length buff < 2 ^ 32 → Writes buff s (send_packet K fd buff s)
  unfolding send_packet
  send_packet-Writes buff s h = send_loop-Writes (length buff) buff 0 s h (omega arith)

  pub send_packet-done :
      (buff : List ℕ) (s s' : K.State)
      → length buff < 2 ^ 32
      → send_packet K fd buff s ≡ (done, s')
      → written s' ≡ written s ++ buff
  send_packet-done buff s s' h e =
      let (xs, ys, split, w, fin) = rw e at (send_packet-Writes buff s h) in
      w ∙ ap (◌++◌ (written s)) (sym (split ∙ ap (◌++◌ xs) (fin refl) ∙ append-nil xs))

module _ (K : Kernel) (fd : ℤ) (S : IsStream K fd) (H : IsHealthy K fd S) where
  send_loop-done :
      (fuel : ℕ) (buff : List ℕ) (n : ℕ) (s : K.State)
      → length buff ≤ n + fuel
      → (send_loop K fd fuel buff n s).0 ≡ done
  unfolding send_loop
  send_loop-done zero buff n s h = ground arith
  send_loop-done (suc fuel) buff n s h = elim (dec_lt n (length buff)) [
    | no all ↦ ground arith
    | yes part ↦
        let (k, s', e, more, cap) =
          H.send_more (drop n buff) s (omega (arith, length-drop n buff)) in
        let kept : k % 2 ^ 32 ≡ k = omega arith in
        rw (e, lt→ltb n (length buff) part, kept)
          (ground (arith, send_loop-done fuel buff (n + k) s'))
  ]

  -- On a healthy connection every buffer is sent: the call returns 0.
  pub send_packet_healthy : (buff : List ℕ) (s : K.State) → (send_packet K fd buff s).0 ≡ done
  unfolding send_packet
  send_packet_healthy buff s = send_loop-done (length buff) buff 0 s (omega arith)
