-- ===== src/Wire.antt =====
-- headers/Protocol.hpp, headers/FileTypes.hpp, headers/EnumStates.hpp and src/CommunMod.cpp.
-- A byte vector is a list of numbers. A read outside a vector is undefined in C++ and is `none`
-- here. `size_t` has 64 bits, so no index wraps.
pub mod Memory
pub mod Reading
pub mod Layout
pub mod Metadata
pub mod Bytes
pub mod Interface
use wire_send.Common.{
  ℕ, zero, suc, ◌+◌, ◌%◌, ◌^◌, List, [], ◌∷◌, ◌++◌, Option, none, some, ◌>>=◌, length, take, drop,
  get_elem?, leb, if◌then◌else◌,
}
use Memory.{ByteOrder, stored, loaded, htonl, ntohl}

-- `enum PacketType : uint8_t`, and the number of each.
pub data PacketType : Type 0 where
  message message_broadcast file_transfer file_neg : PacketType
  file_begin file_chunk file_end : PacketType
  file_succ file_fail file_ready : PacketType
  no_arg file_accept file_reject cancel_trans end_connection : PacketType

abbrev pub value : PacketType → ℕ
value message = 0
value message_broadcast = 1
value file_transfer = 2
value file_neg = 3
value file_begin = 4
value file_chunk = 5
value file_end = 6
value file_succ = 7
value file_fail = 8
value file_ready = 9
value no_arg = 10
value file_accept = 11
value file_reject = 12
value cancel_trans = 13
value end_connection = 14

pub record Packet : Type 0 where
  pub pl_type : ℕ
  pub pl_len : ℕ
  pub pl_body : List ℕ
  pub pl_ctl : ℕ

pub record TemporaryPacketHeader : Type 0 where
  pub kind : ℕ
  pub len : ℕ

pub record TemporaryPacketBody : Type 0 where
  pub body : List ℕ
  pub ctl : ℕ

pub record FileChunk : Type 0 where
  pub bytes : List ℕ

pub record FileMetadata : Type 0 where
  pub file_size : ℕ
  pub file_name : List ℕ

-- `for (byte : bytes) buff.push_back(byte)`
unfoldable pub push_bytes : List ℕ → List ℕ → List ℕ
push_bytes buff [] = buff
push_bytes buff (b ∷ bs) = push_bytes (buff ++ b ∷ []) bs

-- `WritePacketBuffer` at an unsigned type of `size` bytes.
unfoldable pub write_packet_buffer : ByteOrder → ℕ → List ℕ → ℕ → List ℕ
unfolding push_bytes
write_packet_buffer e size buff v = push_bytes buff (stored e size v)

-- The buffer, and the packet with its length field set.
unfoldable pub serialize_packet : ByteOrder → Packet → List ℕ × Packet
unfolding push_bytes write_packet_buffer htonl
serialize_packet e p =
    let p' = record p { pl_len = length p.pl_body % 2 ^ 32 } in
    let buff = push_bytes [] (p.pl_type ∷ []) in
    let buff' = write_packet_buffer e 4 buff (htonl e p'.pl_len) in
    (push_bytes buff' p.pl_body ++ p.pl_ctl ∷ [], p')

-- `memcpy(&x, &buff[index], size)`, with the bytes that it copies.
unfoldable pub copy_out : List ℕ → ℕ → ℕ → Option (List ℕ)
copy_out buff index size =
    if leb (index + size) (length buff) then some (take size (drop index buff)) else none

-- `for (i = 0; i < rounds; i++) { out.push_back(buff[index]); index++; }`
unfoldable pub read_loop : List ℕ → ℕ → ℕ → List ℕ → Option (List ℕ)
read_loop buff zero index out = some out
read_loop buff (suc rounds) index out = do
  b ← get_elem? buff index
  read_loop buff rounds (index + 1) (out ++ b ∷ [])

unfoldable pub deserialize_header_packet : ByteOrder → List ℕ → Option TemporaryPacketHeader
unfolding copy_out htonl
deserialize_header_packet e hdrbuff = do
  t ← get_elem? hdrbuff 0
  length_bytes ← copy_out hdrbuff 1 4
  some (record { kind = t; len = ntohl e (loaded e length_bytes) })

unfoldable pub deserialize_body_packet : List ℕ → TemporaryPacketHeader → Option TemporaryPacketBody
unfolding read_loop
deserialize_body_packet buff hdr = do
  bytes ← read_loop buff hdr.len 0 []
  c ← get_elem? buff hdr.len
  some (record { body = bytes; ctl = c })

unfoldable pub combine_packet : TemporaryPacketHeader → TemporaryPacketBody → Packet
combine_packet hdr body = record {
  pl_type = hdr.kind;
  pl_len = hdr.len;
  pl_body = body.body;
  pl_ctl = body.ctl;
}

unfoldable pub serialize_file_metadata_packet : ByteOrder → FileMetadata → List ℕ
unfolding push_bytes write_packet_buffer
serialize_file_metadata_packet e meta =
    let buff = write_packet_buffer e 8 [] meta.file_size in
    let name_len = length meta.file_name % 2 ^ 32 in
    push_bytes (write_packet_buffer e 4 buff name_len) meta.file_name

unfoldable pub deserialize_file_metadata_packet : ByteOrder → List ℕ → Option FileMetadata
unfolding copy_out read_loop
deserialize_file_metadata_packet e buff = do
  size_bytes ← copy_out buff 0 8
  len_bytes ← copy_out buff 8 4
  name ← read_loop buff (loaded e len_bytes) 12 []
  some (record { file_size = loaded e size_bytes; file_name = name })

unfoldable pub serialize_file_chunk : FileChunk → List ℕ
serialize_file_chunk chunk = chunk.bytes

unfoldable pub deserialize_file_chunk : List ℕ → FileChunk
deserialize_file_chunk buff = record { bytes = buff }
