-- ===== src/Wire/Layout.antt =====
-- The form of a packet on the wire, and reading it back on any host.
use wire_send.Common.{
  ℕ, ◌+◌, ◌%◌, ◌^◌, ◌<◌, ◌≡◌, refl, ap, ◌∙◌, List, [], ◌∷◌, ◌++◌, reverse, append_assoc, append-nil,
  some, arith, length, take,
}
use wire_send.Wire.{
  Packet, copy_out, TemporaryPacketHeader, serialize_packet, write_packet_buffer,
  deserialize_header_packet, deserialize_body_packet,
}
use wire_send.Wire.Memory.{
  ByteOrder, little, big, stored, loaded, htonl, ntohl, le_bytes, of_le_bytes, le_bytes-of_le_bytes,
  of_le_bytes-le_bytes_4,
}
use wire_send.Wire.Reading.{
  push_bytes-append, copy_out-append, read_loop-append, get_elem?-append, get_elem?_within,
  read_loop_within, copy_out_within,
}

-- A `uint32_t` in network order.
unfoldable pub be_bytes_4 : ℕ → List ℕ
unfolding le_bytes
be_bytes_4 v = reverse (le_bytes 4 v)

pub length-be_bytes_4 : (v : ℕ) → length (be_bytes_4 v) ≡ 4
unfolding be_bytes_4
length-be_bytes_4 v = refl

pub write_packet_buffer-append :
    (e : ByteOrder) (size : ℕ) (buff : List ℕ) (v : ℕ)
    → write_packet_buffer e size buff v ≡ buff ++ stored e size v
unfolding write_packet_buffer
write_packet_buffer-append e size buff v = push_bytes-append buff (stored e size v)

-- The bytes of `htonl v` do not depend on the host.
pub stored-htonl : (e : ByteOrder) (v : ℕ) → v < 2 ^ 32 → stored e 4 (htonl e v) ≡ be_bytes_4 v
unfolding htonl be_bytes_4
stored-htonl little v h = le_bytes-of_le_bytes (reverse (le_bytes 4 v)) (omega arith)
stored-htonl big v h = refl

pub ntohl-loaded : (e : ByteOrder) (v : ℕ) → v < 2 ^ 32 → ntohl e (loaded e (be_bytes_4 v)) ≡ v
unfolding htonl be_bytes_4
ntohl-loaded little v h =
    ap (λ bs. of_le_bytes (reverse bs))
      (le_bytes-of_le_bytes (reverse (le_bytes 4 v)) (omega arith))
    ∙ of_le_bytes-le_bytes_4 v h
ntohl-loaded big v h = of_le_bytes-le_bytes_4 v h

-- On a host of either byte order a packet is its type, the length of its body modulo 2^32 in four
-- bytes with the highest first, its body and its control byte.
pub serialize_packet-frame :
    (e : ByteOrder) (p : Packet)
    → (serialize_packet e p).0
      ≡ p.pl_type ∷ be_bytes_4 (length p.pl_body % 2 ^ 32) ++ (p.pl_body ++ p.pl_ctl ∷ [])
unfolding serialize_packet
serialize_packet-frame e p =
    let len = length p.pl_body % 2 ^ 32 in
    rw
      (
        push_bytes-append _ p.pl_body,
        write_packet_buffer-append e 4 (p.pl_type ∷ []) (htonl e len),
        stored-htonl e len (omega arith),
      )
      (append_assoc (p.pl_type ∷ be_bytes_4 len) p.pl_body (p.pl_ctl ∷ []))

-- Reading a header of five bytes gives back the type and the length, whichever host wrote it.
pub deserialize_header-frame :
    (e : ByteOrder) (t len : ℕ)
    → len < 2 ^ 32
    → deserialize_header_packet e (t ∷ be_bytes_4 len) ≡ some (record { kind = t; len = len })
unfolding deserialize_header_packet
deserialize_header-frame e t len h = rw (copied, ntohl-loaded e len h)
  where
    copied : copy_out (t ∷ be_bytes_4 len) 1 4 ≡ some (be_bytes_4 len)
    copied = rw (append-nil (be_bytes_4 len)) at (
        copy_out-append (t ∷ []) (be_bytes_4 len) [] 1 4 (omega arith)
          (omega (arith, length-be_bytes_4 len)))

pub deserialize_body-frame :
    (t : ℕ) (body : List ℕ) (c : ℕ)
    → deserialize_body_packet (body ++ c ∷ []) (record { kind = t; len = length body })
      ≡ some (record { body = body; ctl = c })
unfolding deserialize_body_packet
deserialize_body-frame t body c = rw (
  read_loop-append body [] (c ∷ []) 0 [] (omega arith),
  get_elem?-append body c [] (length body) refl,
)

-- A header buffer of five bytes is always readable.
pub deserialize_header_total :
    (e : ByteOrder) (buff : List ℕ)
    → length buff ≡ 5
    → (hdr : TemporaryPacketHeader) × (deserialize_header_packet e buff ≡ some hdr)
unfolding deserialize_header_packet
deserialize_header_total e [] h = absurd (omega arith)
deserialize_header_total e (t ∷ bs) h =
    let len = ntohl e (loaded e (take 4 bs)) in
    (record { kind = t; len = len }, rw (copy_out_within (t ∷ bs) 1 4 (omega arith)))

-- So is a body buffer of one byte more than the header's length.
pub deserialize_body_total :
    (buff : List ℕ) (hdr : TemporaryPacketHeader)
    → length buff ≡ hdr.len + 1
    → (c : ℕ) × (deserialize_body_packet buff hdr
        ≡ some (record { body = take hdr.len buff; ctl = c }))
unfolding deserialize_body_packet
deserialize_body_total buff hdr h =
    let (c, e) = get_elem?_within buff hdr.len (omega arith) in
    (c, rw (read_loop_within buff hdr.len 0 [] (omega arith), e))
