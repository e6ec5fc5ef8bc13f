-- ===== src/Net/Frame.antt =====
-- The receiving half of both threads: a header of five bytes, the body that it announces, and the
-- packet that the two make (`RunRecvThread` in src/ServerMod.cpp and src/ClientMod.cpp).
use wire_send.Common.{
  ℕ, ◌+◌, ◌%◌, ◌^◌, ◌<◌, ◌≡◌, sym, ap, ◌∙◌, List, [], ◌∷◌, ◌++◌, append_assoc, Option, none, some,
  arith, length, length-append, take, take-append, drop, drop-append, ℤ,
}
use wire_send.Wire.{
  Packet, TemporaryPacketHeader, TemporaryPacketBody, deserialize_header_packet,
  deserialize_body_packet, combine_packet, serialize_packet,
}
use wire_send.Wire.Memory.{ByteOrder}
use wire_send.Wire.Layout.{
  be_bytes_4, length-be_bytes_4, deserialize_header-frame, deserialize_body-frame,
  serialize_packet-frame,
}
use wire_send.Net.{Kernel, IsStream, IsHealthy, Reception, complete, failed, closed, receive_packet}
use wire_send.Net.Receive.{receive_packet_enough}

-- The packet as it is read: its length field is that of its body.
abbrev pub as_read : Packet → Packet
as_read p = record p { pl_len = length p.pl_body }

-- How the reading of one packet ends.
pub data Arrival : Type 0 where
  arrived : Packet → Arrival
  header_closed header_failed body_closed body_failed : Arrival
  undefined stuck : Arrival

abbrev pub combined : TemporaryPacketHeader → Option TemporaryPacketBody → Arrival
combined hdr none = undefined
combined hdr (some body) = arrived (combine_packet hdr body)

abbrev pub body_arrival : TemporaryPacketHeader → Reception → Arrival
body_arrival hdr (complete buff) = combined hdr (deserialize_body_packet buff hdr)
body_arrival hdr failed = body_failed
body_arrival hdr closed = body_closed
body_arrival hdr Reception.undefined = undefined
body_arrival hdr Reception.stuck = stuck

module _ (K : Kernel) (e : ByteOrder) (fd : ℤ) where
  -- `BytesToRecieve` is a `size_t`: the sum does not wrap.
  abbrev pub read_body : Option TemporaryPacketHeader → K.State → Arrival × K.State
  read_body none s = (undefined, s)
  read_body (some hdr) s =
      let r = receive_packet K fd (hdr.len + 1) s in (body_arrival hdr r.0, r.1)

  abbrev pub after_header : Reception → K.State → Arrival × K.State
  after_header (complete buff) s = read_body (deserialize_header_packet e buff) s
  after_header failed s = (header_failed, s)
  after_header closed s = (header_closed, s)
  after_header Reception.undefined s = (undefined, s)
  after_header Reception.stuck s = (stuck, s)

  unfoldable pub read_frame : K.State → Arrival × K.State
  read_frame s = let r = receive_packet K fd 5 s in after_header r.0 r.1

module _ (K : Kernel) (e : ByteOrder) (fd : ℤ) (S : IsStream K fd) (H : IsHealthy K fd S) where
  open S use {pending, written}

  -- A header and a body of the announced length, on the wire.
  pub read_frame-parts :
      (t : ℕ) (body : List ℕ) (c : ℕ) (rest : List ℕ) (s : K.State)
      → length body + 1 < 2 ^ 31
      → pending s ≡ (t ∷ be_bytes_4 (length body)) ++ ((body ++ c ∷ []) ++ rest)
      → (s' : K.State) × (read_frame K e fd s ≡ (
        arrived (record { pl_type = t; pl_len = length body; pl_body = body; pl_ctl = c }),
        s',
      ))
        × (pending s' ≡ rest)
        × (written s' ≡ written s)
  unfolding read_frame combine_packet
  read_frame-parts t body c rest s small p =
      let header = t ∷ be_bytes_4 (length body) in
      let tail = (body ++ c ∷ []) ++ rest in
      let five : 5 ≡ length header = omega (arith, length-be_bytes_4 (length body)) in
      let (s₁, e₁, p₁, w₁) =
        receive_packet_enough K fd S H 5 s (omega arith)
          (omega (arith, ap length p, length-append header tail)) in
      let left = p₁ ∙ ap (drop 5) p ∙ drop-append 5 header tail five in
      let size : length body + 1 ≡ length (body ++ c ∷ []) = sym (length-append body (c ∷ [])) in
      let (s₂, e₂, p₂, w₂) =
        receive_packet_enough K fd S H (length body + 1) s₁ small
          (omega (arith, ap length left, length-append (body ++ c ∷ []) rest)) in
      (
        s₂,
        rw (
          e₁,
          ap (take 5) p ∙ take-append 5 header tail five,
          deserialize_header-frame e t (length body) (omega arith),
          e₂,
          ap (take (length body + 1)) left
              ∙ take-append (length body + 1) (body ++ c ∷ []) rest size,
          deserialize_body-frame t body c,
        ),
        p₂
            ∙ ap (drop (length body + 1)) left
            ∙ drop-append (length body + 1) (body ++ c ∷ []) rest size,
        w₂ ∙ w₁,
      )

  -- On a healthy connection, if the stream begins with a packet that a host of any byte order
  -- serialized, whose body is shorter than 2^31 - 1 bytes, then one reading of a frame gives that
  -- packet, its length field set to the length of its body, however the kernel splits the bytes;
  -- it takes the bytes of that packet and no others, and writes nothing.
  pub read_frame-serialize_packet :
      (sender : ByteOrder) (p : Packet) (rest : List ℕ) (s : K.State)
      → length p.pl_body + 1 < 2 ^ 31
      → pending s ≡ (serialize_packet sender p).0 ++ rest
      → (s' : K.State) × (read_frame K e fd s
          ≡ (arrived (record p { pl_len = length p.pl_body }), s'))
        × (pending s' ≡ rest)
        × (written s' ≡ written s)
  read_frame-serialize_packet sender p rest s small h =
      read_frame-parts p.pl_type p.pl_body p.pl_ctl rest s small (
        h
        ∙ ap (λ bs. bs ++ rest) (serialize_packet-frame sender p)
        ∙ rw whole (append_assoc header (p.pl_body ++ p.pl_ctl ∷ []) rest))
    where
      header : List ℕ
      header = p.pl_type ∷ be_bytes_4 (length p.pl_body)

      whole : length p.pl_body % 2 ^ 32 ≡ length p.pl_body
      whole = omega arith
