-- ===== src/Wire/Interface.antt =====
-- What headers/CommunMod.hpp and headers/FileTypes.hpp declare of the wire format, what its users
-- rely on, and that src/CommunMod.cpp provides it.
use wire_send.Common.{
  ℕ, ◌+◌, ◌%◌, ◌^◌, ◌<◌, ◌≡◌, refl, sym, ap, ◌∙◌, List, [], ◌∷◌, ◌++◌, Option, some, arith, length,
  length-append, take, drop, take-append, drop-append,
}
use wire_send.Wire.{
  Packet, TemporaryPacketHeader, TemporaryPacketBody, FileMetadata, FileChunk, write_packet_buffer,
  serialize_packet, deserialize_header_packet, deserialize_body_packet, combine_packet,
  serialize_file_metadata_packet, deserialize_file_metadata_packet, serialize_file_chunk,
  deserialize_file_chunk,
}
use wire_send.Wire.Memory.{ByteOrder}
use wire_send.Wire.Layout.{
  be_bytes_4, length-be_bytes_4, serialize_packet-frame, deserialize_header-frame,
  deserialize_body-frame,
}

-- headers/CommunMod.hpp in its three parts. The template is its instances, by the size of the type.
pub record PacketCodec : Type 0 where
  pub write_buffer : (size : ℕ) → List ℕ → ℕ → List ℕ
  pub serialize : Packet → List ℕ × Packet
  pub combine : TemporaryPacketHeader → TemporaryPacketBody → Packet

pub record MetadataCodec : Type 0 where
  pub serialize : FileMetadata → List ℕ
  pub deserialize : List ℕ → Option FileMetadata

pub record ChunkCodec : Type 0 where
  pub serialize : FileChunk → List ℕ
  pub deserialize : List ℕ → FileChunk

pub record Codec : Type 0 where
  pub packets : PacketCodec
  pub metadata : MetadataCodec
  pub chunks : ChunkCodec

-- The two functions that headers/FileTypes.hpp declares.
pub record FrameReader : Type 0 where
  pub read_header : List ℕ → Option TemporaryPacketHeader
  pub read_body : List ℕ → TemporaryPacketHeader → Option TemporaryPacketBody

-- What the threads rely on, for a packet that goes from one host to another: it has a header of five
-- bytes, from which the other host knows how many bytes follow; these give the packet.
pub record IsFraming (writer reader : Codec) (r : FrameReader) : Type 0 where
  pub framed :
      (p : Packet)
      → length p.pl_body < 2 ^ 32
      → (hdr : TemporaryPacketHeader) × (body : TemporaryPacketBody) × (length
            (writer.packets.serialize p).0
          ≡ 5 + (hdr.len + 1))
        × (r.read_header (take 5 (writer.packets.serialize p).0) ≡ some hdr)
        × (r.read_body (drop 5 (writer.packets.serialize p).0) hdr ≡ some body)
        × (reader.packets.combine hdr body ≡ (writer.packets.serialize p).1)
  pub whole_chunks : (c : FileChunk) → reader.chunks.deserialize (writer.chunks.serialize c) ≡ c

-- The implementation, on a host of either byte order.
unfoldable pub packet_codec : ByteOrder → PacketCodec
packet_codec e = record {
  write_buffer = write_packet_buffer e;
  serialize = serialize_packet e;
  combine = combine_packet;
}

unfoldable pub metadata_codec : ByteOrder → MetadataCodec
metadata_codec e = record {
  serialize = serialize_file_metadata_packet e;
  deserialize = deserialize_file_metadata_packet e;
}

unfoldable pub chunk_codec : ChunkCodec
chunk_codec = record { serialize = serialize_file_chunk; deserialize = deserialize_file_chunk }

unfoldable pub codec : ByteOrder → Codec
unfolding packet_codec metadata_codec chunk_codec
codec e = record { packets = packet_codec e; metadata = metadata_codec e; chunks = chunk_codec }

unfoldable pub frame_reader : ByteOrder → FrameReader
frame_reader e = record {
  read_header = deserialize_header_packet e;
  read_body = deserialize_body_packet;
}

module _ (sender receiver : ByteOrder) where
  serialize_packet-framed :
      (p : Packet)
      → length p.pl_body < 2 ^ 32
      → (hdr : TemporaryPacketHeader) × (body : TemporaryPacketBody) × (length
            (serialize_packet sender p).0
          ≡ 5 + (hdr.len + 1))
        × (deserialize_header_packet receiver (take 5 (serialize_packet sender p).0) ≡ some hdr)
        × (deserialize_body_packet (drop 5 (serialize_packet sender p).0) hdr ≡ some body)
        × (combine_packet hdr body ≡ (serialize_packet sender p).1)
  unfolding combine_packet serialize_packet
  serialize_packet-framed p small =
      let small_len : length p.pl_body % 2 ^ 32 ≡ length p.pl_body = omega arith in
      let header = p.pl_type ∷ be_bytes_4 (length p.pl_body) in
      let tail = p.pl_body ++ p.pl_ctl ∷ [] in
      let whole : (serialize_packet sender p).0 ≡ header ++ tail =
        serialize_packet-frame sender p ∙ rw small_len refl in
      let five : 5 ≡ length header = omega (arith, length-be_bytes_4 (length p.pl_body)) in
      (
        record { kind = p.pl_type; len = length p.pl_body },
        record { body = p.pl_body; ctl = p.pl_ctl },
        omega (
          arith,
          ap length whole,
          length-append header tail,
          length-append p.pl_body (p.pl_ctl ∷ []),
        ),
        ap (λ bs. deserialize_header_packet receiver (take 5 bs)) whole
            ∙ ap (deserialize_header_packet receiver) (take-append 5 header tail five)
            ∙ deserialize_header-frame receiver p.pl_type (length p.pl_body) small,
        ap
              (λ bs.
                deserialize_body_packet (drop 5 bs)
                  (record { kind = p.pl_type; len = length p.pl_body }))
              whole
            ∙ ap
                (λ bs.
                  deserialize_body_packet bs (record { kind = p.pl_type; len = length p.pl_body }))
                (drop-append 5 header tail five)
            ∙ deserialize_body-frame p.pl_type p.pl_body p.pl_ctl,
        ap (λ n. record p { pl_len = n }) (sym small_len),
      )

  -- The wire format does what the threads rely on, for a sender and a receiver of any byte order:
  -- a packet whose body has less than 2^32 bytes is five bytes and as many bytes more as the
  -- header announces, with one for the control byte, and from these the receiver's functions give
  -- the packet as its sender has it after serializing; a chunk of a file comes back as it was.
  pub codec-IsFraming : IsFraming (codec sender) (codec receiver) (frame_reader receiver)
  unfolding codec frame_reader serialize_file_chunk deserialize_file_chunk
  codec-IsFraming = record { framed = serialize_packet-framed; whole_chunks = λ c. refl }
