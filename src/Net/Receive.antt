-- ===== src/Net/Receive.antt =====
-- What `RecievePacket` does with a stream that comes in pieces.
use wire_send.Common.{
  ℕ, zero, suc, ◌+◌, ◌-◌, ◌%◌, ◌^◌, ◌≤◌, ◌<◌, ◌≡◌, ◌≢◌, refl, sym, ap, ◌∙◌, List, [], ◌++◌,
  append_assoc, arith, length, length-append, take, drop, split_front, length-eq_zero, ltb, leb,
  ◌==◌, ℤ, dec_lt, Bool-cases, inl, inr,
}
use wire_send.Net.{
  Kernel, IsStream, IsHealthy, Received, received, recv_failed, Reception, complete, failed, closed,
  undefined, recv_round, recv_loop, receive_packet,
}

module _ (K : Kernel) (fd : ℤ) where
  -- A round ends the loop, or goes on with one byte more at least.
  recv_round_cases {ℓ} :
      (P : Reception × K.State → Type ℓ) (got : List ℕ) (r : Received) (s : K.State)
      (rest : List ℕ → K.State → Reception × K.State)
      → P (failed, s)
      → P (closed, s)
      → P (undefined, s)
      → ((bs : List ℕ) → r ≡ received bs → 0 < length bs → P (rest (got ++ bs) s))
      → P (recv_round K fd got r s rest)
  unfolding recv_round
  recv_round_cases P got recv_failed s rest f c u g = f
  recv_round_cases P got (received bs) s rest f c u g =
      elim (Bool-cases (leb (2 ^ 31) (length bs % 2 ^ 32))) [
        | inl e ↦ rw e f
        | inr e ↦ rw e (elim (Bool-cases (length bs % 2 ^ 32 == 0)) [
          | inl e' ↦ rw e' c
          | inr e' ↦ rw e' (elim (Bool-cases (leb (2 ^ 31) (length got + length bs % 2 ^ 32))) [
            | inl e'' ↦ rw e'' u
            | inr e'' ↦ rw e'' (g bs refl (ground arith))
          ])
        ])
      ]

  -- The state after one `recv` for what is missing.
  abbrev after : ℕ → List ℕ → K.State → K.State
  after size got s = (K.recv fd (size - length got) s).1

  recv_loop_cases {ℓ} :
      (P : Reception × K.State → Type ℓ) (fuel size : ℕ) (got : List ℕ) (s : K.State)
      → (size ≤ length got → P (complete got, s))
      → P (failed, after size got s)
      → P (closed, after size got s)
      → P (undefined, after size got s)
      → ((bs : List ℕ)
          → K.recv fd (size - length got) s ≡ (received bs, after size got s)
          → 0 < length bs
          → P (recv_loop K fd fuel size (got ++ bs) (after size got s)))
      → P (recv_loop K fd (suc fuel) size got s)
  unfolding recv_loop
  recv_loop_cases P fuel size got s whole f c u go = elim (Bool-cases (ltb (length got) size)) [
    | inl e ↦ rw e (
        recv_round_cases P got (K.recv fd (size - length got) s).0 (after size got s)
          (λ got' s'. recv_loop K fd fuel size got' s') f c u
          (λ bs r more. go bs (ap (λ x. (x, after size got s)) r) more))
    | inr e ↦ rw e (whole (ground arith))
  ]

  recv_loop-ne-stuck :
      (fuel size : ℕ) (got : List ℕ) (s : K.State)
      → size ≤ length got + fuel
      → (recv_loop K fd fuel size got s).0 ≢ Reception.stuck
  recv_loop-ne-stuck zero size got s h = unfold recv_loop in ground arith
  recv_loop-ne-stuck (suc fuel) size got s h =
      recv_loop_cases (λ x. x.0 ≢ Reception.stuck) fuel size got s (λ _ x. cc) (λ x. cc) (λ x. cc)
        (λ x. cc)
        (λ bs _ more.
          recv_loop-ne-stuck fuel size (got ++ bs) (after size got s)
            (omega (arith, length-append got bs)))

  -- For every kernel, size and state the loop ends: as many rounds as the buffer has bytes are
  -- enough.
  pub receive_packet-ne-stuck :
      (size : ℕ) (s : K.State) → (receive_packet K fd size s).0 ≢ Reception.stuck
  unfolding receive_packet
  receive_packet-ne-stuck size s = recv_loop-ne-stuck size size [] s (omega arith)

module _ (K : Kernel) (fd : ℤ) (S : IsStream K fd) where
  open S use {pending, written}

  -- What a result of the loop says of the stream.
  abbrev Reads : ℕ → List ℕ → K.State → Reception × K.State → Type 0
  Reads size got s r =
      (buff : List ℕ) (s' : K.State)
      → r ≡ (complete buff, s')
      → (length buff ≡ size) × (got ++ pending s ≡ buff ++ pending s') × (written s' ≡ written s)

  recv_loop-Reads :
      (fuel size : ℕ) (got : List ℕ) (s : K.State)
      → length got ≤ size
      → Reads size got s (recv_loop K fd fuel size got s)
  recv_loop-Reads zero size got s h =
      unfold recv_loop in λ buff s' e. (ground arith, ground arith, ground arith)
  recv_loop-Reads (suc fuel) size got s h =
      recv_loop_cases K fd (Reads size got s) fuel size got s
        (λ all buff s' x. (ground arith, ground arith, ground arith)) (λ buff s' x. absurd (cc))
        (λ buff s' x. absurd (cc)) (λ buff s' x. absurd (cc))
        (λ bs r more buff s' x.
          let (fits, front, kept) = S.recv_front (size - length got) s _ bs r in
          let (l, p, w) =
            recv_loop-Reads fuel size (got ++ bs) (after K fd size got s)
              (omega (arith, length-append got bs)) buff s' x in
          (l, ap (◌++◌ got) front ∙ sym (append_assoc got bs _) ∙ p, w ∙ kept))

  -- On any stream, healthy or not: if the call returns 0, its buffer has the size asked for, and
  -- is exactly what was taken from the front of the stream; nothing was written.
  pub receive_packet-complete :
      (size : ℕ) (s s' : K.State) (buff : List ℕ)
      → receive_packet K fd size s ≡ (complete buff, s')
      → (length buff ≡ size) × (pending s ≡ buff ++ pending s') × (written s' ≡ written s)
  unfolding receive_packet
  receive_packet-complete size s s' buff e = recv_loop-Reads size size [] s (omega arith) buff s' e

module _ (K : Kernel) (fd : ℤ) (S : IsStream K fd) (H : IsHealthy K fd S) where
  open S use {pending, written}

  -- One round on a healthy connection that has something to deliver.
  recv_loop_more :
      (fuel size : ℕ) (got : List ℕ) (s : K.State)
      → length got < size
      → size < 2 ^ 31
      → pending s ≢ []
      → (bs : List ℕ) × (s' : K.State) × (recv_loop K fd (suc fuel) size got s
          ≡ recv_loop K fd fuel size (got ++ bs) s')
        × (0 < length bs)
        × (length bs ≤ size - length got)
        × (pending s ≡ bs ++ pending s')
  unfolding recv_loop
  recv_loop_more fuel size got s h small p =
      let (bs, s', e, more, cap) = H.recv_more (size - length got) s (omega arith) p in
      let (fits, front, kept) = S.recv_front (size - length got) s s' bs e in
      (bs, s', rw e (ground arith), more, fits, front)

  recv_loop_end :
      (fuel size : ℕ) (got : List ℕ) (s : K.State)
      → length got < size
      → pending s ≡ []
      → (recv_loop K fd (suc fuel) size got s).0 ≡ closed
  unfolding recv_loop
  recv_loop_end fuel size got s h p =
      let (s', e) = H.recv_end (size - length got) s p in rw e (ground arith)

  recv_loop_enough :
      (fuel size : ℕ) (got : List ℕ) (s : K.State)
      → size ≤ length got + fuel
      → length got ≤ size
      → size < 2 ^ 31
      → size ≤ length got + length (pending s)
      → (buff : List ℕ) × (s' : K.State) × (recv_loop K fd fuel size got s ≡ (complete buff, s'))
  recv_loop_enough zero size got s f h small enough = (got, s, unfold recv_loop in ground arith)
  recv_loop_enough (suc fuel) size got s f h small enough = elim (dec_lt (length got) size) [
    | no full ↦ (got, s, unfold recv_loop in ground arith)
    | yes part ↦
        let (bs, s', e, more, fits, front) =
          recv_loop_more fuel size got s part small (λ p. absurd (omega (arith, ap length p))) in
        let (buff, t, e') =
          recv_loop_enough fuel size (got ++ bs) s' (omega (arith, length-append got bs))
            (omega (arith, length-append got bs)) small
            (omega (arith, length-append got bs, ap length front, length-append bs (pending s'))) in
        (buff, t, e ∙ e')
  ]

  recv_loop_short :
      (fuel size : ℕ) (got : List ℕ) (s : K.State)
      → size ≤ length got + fuel
      → size < 2 ^ 31
      → length got + length (pending s) < size
      → (recv_loop K fd fuel size got s).0 ≡ closed
  recv_loop_short zero size got s f small short = absurd (omega arith)
  recv_loop_short (suc fuel) size got s f small short = elim (dec_lt 0 (length (pending s))) [
    | no over ↦
        recv_loop_end fuel size got s (omega arith) (length-eq_zero (pending s) (omega arith))
    | yes some_left ↦
        let (bs, s', e, more, fits, front) =
          recv_loop_more fuel size got s (omega arith) small
            (λ p. absurd (omega (arith, ap length p))) in
        ap (λ x. x.0) e
        ∙ recv_loop_short fuel size (got ++ bs) s' (omega (arith, length-append got bs)) small
            (omega (arith, length-append got bs, ap length front, length-append bs (pending s')))
  ]

  -- On a healthy connection, for a size below 2^31, if the stream holds that many bytes at least,
  -- the call returns 0 with exactly the first ones, whatever pieces the kernel delivers; the rest
  -- stays on the stream, and nothing is written.
  pub receive_packet_enough :
      (size : ℕ) (s : K.State)
      → size < 2 ^ 31
      → size ≤ length (pending s)
      → (s' : K.State) × (receive_packet K fd size s ≡ (complete (take size (pending s)), s'))
        × (pending s' ≡ drop size (pending s))
        × (written s' ≡ written s)
  unfolding receive_packet
  receive_packet_enough size s small enough =
      let (buff, s', e) =
        recv_loop_enough size size [] s (omega arith) (omega arith) small (omega arith) in
      let (l, front, kept) = receive_packet-complete K fd S size s s' buff e in
      let (taken, left) = split_front size buff (pending s') (pending s) l front in
      (s', e ∙ ap (λ b. (complete b, s')) taken, left, kept)

  -- On a healthy connection, for a size below 2^31, if the stream ends before that many bytes,
  -- the call returns 2, which says that the peer closed it.
  pub receive_packet_short :
      (size : ℕ) (s : K.State)
      → size < 2 ^ 31
      → length (pending s) < size
      → (receive_packet K fd size s).0 ≡ closed
  unfolding receive_packet
  receive_packet_short size s small short =
      recv_loop_short size size [] s (omega arith) small (omega arith)
