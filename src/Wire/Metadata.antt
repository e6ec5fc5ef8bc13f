-- ===== src/Wire/Metadata.antt =====
-- File metadata in a packet body: when it can be read, and what the host's byte order does to it.
use wire_send.Common.{
  ap, ℕ, ◌+◌, ◌%◌, ◌^◌, ◌≤◌, ◌<◌, ◌≡◌, refl, sym, List, [], ◌++◌, append_assoc, append-nil, none,
  some, ◌>>=◌, arith, length, take, drop, length-append, dec_lt,
}
use wire_send.Wire.{
  FileMetadata, read_loop, serialize_file_metadata_packet, deserialize_file_metadata_packet,
}
use wire_send.Wire.Memory.{
  ByteOrder, little, big, stored, loaded, le_bytes, of_le_bytes, of_le_bytes-le_bytes_4,
  of_le_bytes-le_bytes_8,
}
use wire_send.Wire.Reading.{
  push_bytes-append, copy_out-append, copy_out_within, copy_out-eq_none, read_loop-append,
  read_loop_within, read_loop-eq_none,
}
use wire_send.Wire.Layout.{write_packet_buffer-append}

pub opposite : ByteOrder → ByteOrder
opposite little = big
opposite big = little

-- Both numbers go out in the sender's byte order.
pub serialize_metadata-append :
    (e : ByteOrder) (m : FileMetadata)
    → serialize_file_metadata_packet e m
      ≡ stored e 8 m.file_size ++ (stored e 4 (length m.file_name % 2 ^ 32) ++ m.file_name)
unfolding serialize_file_metadata_packet
serialize_metadata-append e m =
    rw
      (
        push_bytes-append _ m.file_name,
        write_packet_buffer-append e 4 _ (length m.file_name % 2 ^ 32),
        write_packet_buffer-append e 8 [] m.file_size,
      )
      (append_assoc (stored e 8 m.file_size) _ m.file_name)

length-stored_8 : (e : ByteOrder) (v : ℕ) → length (stored e 8 v) ≡ 8
unfolding le_bytes
length-stored_8 little v = refl
length-stored_8 big v = refl

length-stored_4 : (e : ByteOrder) (v : ℕ) → length (stored e 4 v) ≡ 4
unfolding le_bytes
length-stored_4 little v = refl
length-stored_4 big v = refl

loaded-stored_8 : (e : ByteOrder) (v : ℕ) → v < 2 ^ 64 → loaded e (stored e 8 v) ≡ v
unfolding le_bytes
loaded-stored_8 little v h = of_le_bytes-le_bytes_8 v h
loaded-stored_8 big v h = of_le_bytes-le_bytes_8 v h

loaded-stored_4 : (e : ByteOrder) (v : ℕ) → v < 2 ^ 32 → loaded e (stored e 4 v) ≡ v
unfolding le_bytes
loaded-stored_4 little v h = of_le_bytes-le_bytes_4 v h
loaded-stored_4 big v h = of_le_bytes-le_bytes_4 v h

pub length-serialize_metadata :
    (e : ByteOrder) (m : FileMetadata)
    → length (serialize_file_metadata_packet e m) ≡ 12 + length m.file_name
length-serialize_metadata e m =
    let size_bytes = stored e 8 m.file_size in
    let len_bytes = stored e 4 (length m.file_name % 2 ^ 32) in
    omega (
      arith,
      ap length (serialize_metadata-append e m),
      length-append size_bytes (len_bytes ++ m.file_name),
      length-append len_bytes m.file_name,
      length-stored_8 e m.file_size,
      length-stored_4 e (length m.file_name % 2 ^ 32),
    )

-- Reading a body that starts with the two numbers as `size_bytes` and `len_bytes`.
module _ (e : ByteOrder) (size_bytes len_bytes name : List ℕ) (size_8 : 8 ≡ length size_bytes)
    (len_4 : 4 ≡ length len_bytes) where
  abbrev body : List ℕ
  body = size_bytes ++ (len_bytes ++ name)

  length-body : length body ≡ 12 + length name
  length-body =
      omega (arith, length-append size_bytes (len_bytes ++ name), length-append len_bytes name)

  deserialize-eq : deserialize_file_metadata_packet e body ≡ (
      read_loop body (loaded e len_bytes) 12 [] >>= λ n.
      some (record { file_size = loaded e size_bytes; file_name = n }))
  unfolding deserialize_file_metadata_packet
  deserialize-eq = rw (
    copy_out-append [] size_bytes (len_bytes ++ name) 0 8 (omega arith) size_8,
    copy_out-append size_bytes len_bytes name 8 4 size_8 len_4,
  )

  read_name : read_loop body (length name) 12 [] ≡ some name
  read_name =
      rw (append_assoc size_bytes len_bytes (name ++ []), append-nil name) at
        (read_loop-append name (size_bytes ++ len_bytes) [] 12 []
          (omega (arith, length-append size_bytes len_bytes)))

-- Metadata with a size below 2^64 and a name of less than 2^32 bytes is read back as it was on a
-- host of the byte order of the one that wrote it.
pub deserialize-serialize_metadata :
    (e : ByteOrder) (m : FileMetadata)
    → m.file_size < 2 ^ 64
    → length m.file_name < 2 ^ 32
    → deserialize_file_metadata_packet e (serialize_file_metadata_packet e m) ≡ some m
deserialize-serialize_metadata e m hs hn = rw (
  serialize_metadata-append e m,
  small,
  deserialize-eq e size_bytes len_bytes m.file_name size_8 len_4,
  loaded-stored_4 e (length m.file_name) hn,
  read_name e size_bytes len_bytes m.file_name size_8 len_4,
  loaded-stored_8 e m.file_size hs,
)
  where
    size_bytes : List ℕ
    size_bytes = stored e 8 m.file_size

    len_bytes : List ℕ
    len_bytes = stored e 4 (length m.file_name)

    size_8 : 8 ≡ length size_bytes
    size_8 = sym (length-stored_8 e m.file_size)

    len_4 : 4 ≡ length len_bytes
    len_4 = sym (length-stored_4 e (length m.file_name))

    small : length m.file_name % 2 ^ 32 ≡ length m.file_name
    small = omega arith

-- The length of the name that a body announces.
abbrev pub announced : ByteOrder → List ℕ → ℕ
announced e buff = loaded e (take 4 (drop 8 buff))

abbrev pub IsComplete : ByteOrder → List ℕ → Type 0
IsComplete e buff = (12 ≤ length buff) × (12 + announced e buff ≤ length buff)

-- A body that has the twelve bytes of the two numbers, and the bytes of a name of the length that
-- it announces, is read without going beyond it: the size is that of its first eight bytes and
-- the name is what follows the twelve, to the announced length.
pub deserialize_metadata_complete :
    (e : ByteOrder) (buff : List ℕ)
    → IsComplete e buff
    → deserialize_file_metadata_packet e buff
      ≡ some (record {
        file_size = loaded e (take 8 buff);
        file_name = take (announced e buff) (drop 12 buff);
      })
unfolding deserialize_file_metadata_packet
deserialize_metadata_complete e buff h = rw (
  copy_out_within buff 0 8 (omega arith),
  copy_out_within buff 8 4 (omega arith),
  read_loop_within buff (announced e buff) 12 [] (omega arith),
)

-- A body that lacks some of the twelve bytes of the two numbers, or some of the bytes of a name
-- of the length that it announces, is read beyond its end.
pub deserialize_metadata_incomplete :
    (e : ByteOrder) (buff : List ℕ)
    → ¬ IsComplete e buff
    → deserialize_file_metadata_packet e buff ≡ none
unfolding deserialize_file_metadata_packet
deserialize_metadata_incomplete e buff h = elim (dec_lt (length buff) 8) [
  | yes short ↦ rw (copy_out-eq_none buff 0 8 short)
  | no long ↦ rw (copy_out_within buff 0 8 (omega arith)) (elim (dec_lt (length buff) 12) [
    | yes short ↦ rw (copy_out-eq_none buff 8 4 short)
    | no numbers ↦ rw (
      copy_out_within buff 8 4 (omega arith),
      read_loop-eq_none buff (announced e buff) 12 []
          (elim (dec_lt (length buff) (12 + announced e buff)) [
            | yes short ↦ short
            | no all ↦ absurd (h (omega arith, omega arith))
          ])
          (omega arith),
    )
  ])
]

swapped_length :
    (e : ByteOrder) (n : ℕ) → 0 < n → n < 2 ^ 16 → n < loaded (opposite e) (stored e 4 n)
unfolding opposite le_bytes of_le_bytes
swapped_length little n h k = omega arith
swapped_length big n h k = omega arith

-- Metadata with a name of one byte at least and less than 2^16, written on a host of one byte
-- order, makes a host of the other read beyond the body.
pub deserialize_metadata_opposite :
    (e : ByteOrder) (m : FileMetadata)
    → 0 < length m.file_name
    → length m.file_name < 2 ^ 16
    → deserialize_file_metadata_packet (opposite e) (serialize_file_metadata_packet e m) ≡ none
deserialize_metadata_opposite e m h k = rw (
  serialize_metadata-append e m,
  small,
  deserialize-eq (opposite e) size_bytes len_bytes m.file_name size_8 len_4,
  read_loop-eq_none (size_bytes ++ (len_bytes ++ m.file_name)) (loaded (opposite e) len_bytes) 12 []
      (omega (
        arith,
        swapped_length e (length m.file_name) h k,
        length-body (opposite e) size_bytes len_bytes m.file_name size_8 len_4,
      ))
      (omega (arith, length-body (opposite e) size_bytes len_bytes m.file_name size_8 len_4)),
)
  where
    size_bytes : List ℕ
    size_bytes = stored e 8 m.file_size

    len_bytes : List ℕ
    len_bytes = stored e 4 (length m.file_name)

    size_8 : 8 ≡ length size_bytes
    size_8 = sym (length-stored_8 e m.file_size)

    len_4 : 4 ≡ length len_bytes
    len_4 = sym (length-stored_4 e (length m.file_name))

    small : length m.file_name % 2 ^ 32 ≡ length m.file_name
    small = omega arith
