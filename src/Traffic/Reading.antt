-- ===== src/Traffic/Reading.antt =====
-- What a reading of a frame takes from a stream of whole packets, on a connection that may fail.
use wire_send.Common.{
  ℕ, zero, suc, ◌+◌, ◌-◌, ◌%◌, ◌^◌, ◌<◌, ◌≡◌, refl, sym, ap, ◌∙◌, List, [], ◌∷◌, ◌++◌, append_assoc,
  Option, none, some, arith, length, length-append, split_front, ℤ, All, Bool-cases, inl, inr, ltb,
}
use wire_send.Wire.{
  Packet, TemporaryPacketHeader, deserialize_header_packet, deserialize_body_packet, combine_packet,
  serialize_packet,
}
use wire_send.Wire.Memory.{ByteOrder}
use wire_send.Wire.Layout.{
  be_bytes_4, length-be_bytes_4, deserialize_header-frame, deserialize_body-frame,
  serialize_packet-frame,
}
use wire_send.Net.{
  Kernel, IsStream, Received, received, recv_failed, Reception, complete, failed, closed,
  recv_round, recv_loop, receive_packet,
}
use wire_send.Net.Receive.{receive_packet-complete}
use wire_send.Net.Reliable.{IsReliable}
use wire_send.Net.Frame.{
  arrived, as_read, combined, body_arrival, read_body, after_header, read_frame,
}
use wire_send.Transfer.Sending.{wire, length-serialize_packet}

abbrev pub IsShort : Packet → Type 0
IsShort p = length p.pl_body < 2 ^ 32

-- The packets of a stream of less than 2^32 bytes are short.
pub wire-IsShort : (e : ByteOrder) (ps : List Packet) → length (wire e ps) < 2 ^ 32 → All IsShort ps
wire-IsShort e [] h = tt
wire-IsShort e (p ∷ ps) h =
    let all = length-append (serialize_packet e p).0 (wire e ps) in
    (omega (arith, all, length-serialize_packet e p), wire-IsShort e ps (omega (arith, all)))

same_front :
    (xs ys zs ws : List ℕ) → length xs ≡ length ys → xs ++ zs ≡ ys ++ ws → (xs ≡ ys) × (zs ≡ ws)
same_front xs ys zs ws l h =
    let (front, rest) = split_front (length xs) xs zs (xs ++ zs) refl refl in
    let (front', rest') = split_front (length xs) ys ws (xs ++ zs) (sym l) h in
    (front ∙ sym front', rest ∙ sym rest')

module _ (K : Kernel) (e : ByteOrder) (fd : ℤ) (S : IsStream K fd) where
  open S use {pending, written}

  body_arrival-arrived :
      (hdr : TemporaryPacketHeader) (r : Reception) (p : Packet)
      → body_arrival hdr r ≡ arrived p
      → (buff : List ℕ) × (r ≡ complete buff)
        × (combined hdr (deserialize_body_packet buff hdr) ≡ arrived p)
  body_arrival-arrived hdr (complete buff) p h = (buff, refl, h)
  body_arrival-arrived hdr failed p h = absurd (cc)
  body_arrival-arrived hdr closed p h = absurd (cc)
  body_arrival-arrived hdr Reception.undefined p h = absurd (cc)
  body_arrival-arrived hdr Reception.stuck p h = absurd (cc)

  read_body-front :
      (t : ℕ) (body : List ℕ) (c : ℕ) (rest : List ℕ) (s s' : K.State) (p : Packet)
      → pending s ≡ (body ++ c ∷ []) ++ rest
      → read_body K e fd (some (record { kind = t; len = length body })) s ≡ (arrived p, s')
      → (p ≡ record { pl_type = t; pl_len = length body; pl_body = body; pl_ctl = c })
        × (pending s' ≡ rest)
  unfolding combine_packet
  read_body-front t body c rest s s' p h run =
      let hdr : TemporaryPacketHeader = record { kind = t; len = length body } in
      let size = length body + 1 in
      let (buff, whole, same) =
        body_arrival-arrived hdr (receive_packet K fd size s).0 p (ap (λ r. r.0) run) in
      let (l, front, w) =
        receive_packet-complete K fd S size s s' buff (λ i. (whole i, (run i).1)) in
      let (is, left) =
        same_front buff (body ++ c ∷ []) (pending s') rest
          (omega (arith, l, length-append body (c ∷ []))) (sym front ∙ h) in
      let read = ap (λ b. deserialize_body_packet b hdr) is ∙ deserialize_body-frame t body c in
      (arrived-injective _ p (sym (ap (combined hdr) read) ∙ same), left)
    where
      arrived-injective : (q p : Packet) → arrived q ≡ arrived p → p ≡ q
      arrived-injective q p h = cc

  after_header-front :
      (r : Reception) (t : ℕ) (body : List ℕ) (c : ℕ) (rest : List ℕ) (s s₁ s' : K.State)
      (p : Packet)
      → length body < 2 ^ 32
      → pending s ≡ (t ∷ be_bytes_4 (length body)) ++ ((body ++ c ∷ []) ++ rest)
      → receive_packet K fd 5 s ≡ (r, s₁)
      → after_header K e fd r s₁ ≡ (arrived p, s')
      → (p ≡ record { pl_type = t; pl_len = length body; pl_body = body; pl_ctl = c })
        × (pending s' ≡ rest)
  after_header-front (complete buff) t body c rest s s₁ s' p small h came run =
      let (l, front, w) = receive_packet-complete K fd S 5 s s₁ buff came in
      let (is, left) =
        same_front buff (t ∷ be_bytes_4 (length body)) (pending s₁) ((body ++ c ∷ []) ++ rest)
          (omega (arith, l, length-be_bytes_4 (length body))) (sym front ∙ h) in
      let read =
        ap (deserialize_header_packet e) is ∙ deserialize_header-frame e t (length body) small in
      read_body-front t body c rest s₁ s' p left (sym (ap (λ o. read_body K e fd o s₁) read) ∙ run)
  after_header-front failed t body c rest s s₁ s' p small h came run = absurd (cc)
  after_header-front closed t body c rest s s₁ s' p small h came run = absurd (cc)
  after_header-front Reception.undefined t body c rest s s₁ s' p small h came run = absurd (cc)
  after_header-front Reception.stuck t body c rest s s₁ s' p small h came run = absurd (cc)

  -- A stream of no bytes gives no packet.
  after_header-empty :
      {A : Type 0} (r : Reception) (s s₁ s' : K.State) (p : Packet)
      → pending s ≡ []
      → receive_packet K fd 5 s ≡ (r, s₁)
      → after_header K e fd r s₁ ≡ (arrived p, s')
      → A
  after_header-empty (complete buff) s s₁ s' p h came run =
      let (l, front, w) = receive_packet-complete K fd S 5 s s₁ buff came in
      absurd (omega (arith, l, length-append buff (pending s₁), ap length front, ap length h))
  after_header-empty failed s s₁ s' p h came run = absurd (cc)
  after_header-empty closed s s₁ s' p h came run = absurd (cc)
  after_header-empty Reception.undefined s s₁ s' p h came run = absurd (cc)
  after_header-empty Reception.stuck s s₁ s' p h came run = absurd (cc)

  -- A packet that is read from a stream of packets is the first of them, and the others are left.
  pub read_frame-wire :
      (sender : ByteOrder) (ps : List Packet) (s s' : K.State) (p : Packet)
      → All IsShort ps
      → pending s ≡ wire sender ps
      → read_frame K e fd s ≡ (arrived p, s')
      → (q : Packet) × (rest : List Packet) × (ps ≡ q ∷ rest)
        × (p ≡ as_read q)
        × (pending s' ≡ wire sender rest)
  unfolding read_frame
  read_frame-wire sender [] s s' p short h run =
      let r = receive_packet K fd 5 s in after_header-empty r.0 s r.1 s' p h refl run
  read_frame-wire sender (q ∷ rest) s s' p short h run =
      let r = receive_packet K fd 5 s in
      let header = q.pl_type ∷ be_bytes_4 (length q.pl_body) in
      let whole : length q.pl_body % 2 ^ 32 ≡ length q.pl_body =
        let small = short.0 in omega arith in
      let front =
        h
        ∙ ap (λ bs. bs ++ wire sender rest) (serialize_packet-frame sender q)
        ∙ rw whole (append_assoc header (q.pl_body ++ q.pl_ctl ∷ []) (wire sender rest)) in
      let (same, left) =
        after_header-front r.0 q.pl_type q.pl_body q.pl_ctl (wire sender rest) s r.1 s' p short.0
          front refl run in
      (q, rest, refl, same, left)

module _ (K : Kernel) (e : ByteOrder) (fd : ℤ) (S : IsStream K fd) (R : IsReliable K fd S) where
  open S use {written}

  recv_written :
      (n : ℕ) (s : K.State) (r : Received)
      → (K.recv fd n s).0 ≡ r
      → written (K.recv fd n s).1 ≡ written s
  recv_written n s (received bs) h =
      let (few, front, same) =
        S.recv_front n s (K.recv fd n s).1 bs (λ i. (h i, (K.recv fd n s).1)) in
      same
  recv_written n s recv_failed h = R.recv_none n s (K.recv fd n s).1 (λ i. (h i, (K.recv fd n s).1))

  recv_round-written :
      (got : List ℕ) (r : Received) (s : K.State) (rest : List ℕ → K.State → Reception × K.State)
      → ((got' : List ℕ) → written (rest got' s).1 ≡ written s)
      → written (recv_round K fd got r s rest).1 ≡ written s
  unfolding recv_round
  recv_round-written got recv_failed s rest h = refl
  recv_round-written got (received bs) s rest h = ground (arith, h (got ++ bs))

  recv_loop-written :
      (fuel size : ℕ) (got : List ℕ) (s : K.State)
      → written (recv_loop K fd fuel size got s).1 ≡ written s
  unfolding recv_loop
  recv_loop-written zero size got s = elim (Bool-cases (ltb (length got) size)) [
    | inl more ↦ rw more refl
    | inr all ↦ rw all refl
  ]
  recv_loop-written (suc fuel) size got s =
      let r = K.recv fd (size - length got) s in
      let round =
        recv_round-written got r.0 r.1 (λ got' s'. recv_loop K fd fuel size got' s')
          (λ got'. recv_loop-written fuel size got' r.1)
        ∙ recv_written (size - length got) s r.0 refl in
      elim (Bool-cases (ltb (length got) size)) [ inl more ↦ rw more round | inr all ↦ rw all refl ]

  receive_packet-written :
      (size : ℕ) (s : K.State) → written (receive_packet K fd size s).1 ≡ written s
  unfolding receive_packet
  receive_packet-written size s = recv_loop-written size size [] s

  read_body-written :
      (o : Option TemporaryPacketHeader) (s : K.State)
      → written (read_body K e fd o s).1 ≡ written s
  read_body-written none s = refl
  read_body-written (some hdr) s = receive_packet-written (hdr.len + 1) s

  after_header-written :
      (r : Reception) (s : K.State) → written (after_header K e fd r s).1 ≡ written s
  after_header-written (complete buff) s = read_body-written (deserialize_header_packet e buff) s
  after_header-written failed s = refl
  after_header-written closed s = refl
  after_header-written Reception.undefined s = refl
  after_header-written Reception.stuck s = refl

  -- Reading writes nothing, however it ends.
  pub read_frame-written : (s : K.State) → written (read_frame K e fd s).1 ≡ written s
  unfolding read_frame
  read_frame-written s =
      let r = receive_packet K fd 5 s in after_header-written r.0 r.1 ∙ receive_packet-written 5 s
