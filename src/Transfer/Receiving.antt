-- ===== src/Transfer/Receiving.antt =====
-- What `RecvFile` does with the packets of one transfer.
use wire_send.Common.{
  ℕ, length, ◌≤◌, ◌<◌, ◌≡◌, ◌≢◌, List, [], ◌++◌, true, false, some, le→not_ltb, lt→ltb, pos,
}
use wire_send.Common.Outcome.{ok}
use wire_send.Wire.{Packet, value, file_begin, file_chunk, file_end}
use wire_send.Files.{Disk, regular, entry_at, exists_at, put}
use wire_send.Files.Laws.{
  find_entry-put_entry_self, find_entry-put_entry_ne, exists_at-exists, open_truncated_new,
  append_to_regular,
}
use wire_send.Files.Paths.{parent_path}
use wire_send.Process.{Process, PendingIncomingFileRequest, say, file_received, no_space}
use wire_send.Transfer.{recv_file}

-- The path of a request names a regular file with these bytes, to which one may write.
pub record IsWriting (path bytes : List ℕ) (d : Disk) : Type 0 where
  pub there : entry_at d path ≡ some (regular bytes)
  pub allowed : d.can_write path ≡ true

-- A request for which the begin marker opens a new file: the folder has space for it, nothing
-- stands at the path, and one may write there.
pub record IsFresh (r : PendingIncomingFileRequest) (available : ℕ) (d : Disk) : Type 0 where
  pub space : d.free_space (parent_path r.file_path_on_target) ≡ some available
  pub fits : r.metadata.file_size ≤ available
  pub free : exists_at d r.file_path_on_target ≡ some false
  pub allowed : d.can_write r.file_path_on_target ≡ true

-- The disks agree but at `path`.
abbrev pub SameElsewhere : List ℕ → Disk → Disk → Type 0
SameElsewhere path d d' = (q : List ℕ) → path ≢ q → entry_at d' q ≡ entry_at d q

pub put-IsWriting :
    (d : Disk) (path bytes : List ℕ)
    → d.can_write path ≡ true
    → IsWriting path bytes (put d path bytes)
put-IsWriting d path bytes h = record {
  there = find_entry-put_entry_self path (regular bytes) d.entries;
  allowed = h;
}

pub put-SameElsewhere : (d : Disk) (path bytes : List ℕ) → SameElsewhere path d (put d path bytes)
put-SameElsewhere d path bytes q h = find_entry-put_entry_ne path q (regular bytes) d.entries h

module _ {System : Type 0} (r : PendingIncomingFileRequest) (p : Process System) where
  pub recv_file_begin :
      (packet : Packet) (available : ℕ)
      → packet.pl_type ≡ value file_begin
      → IsFresh r available p.disk
      → recv_file packet r p
        ≡ ok (pos 0, r, record p { disk = put p.disk r.file_path_on_target [] })
  unfolding recv_file
  recv_file_begin packet available t f = rw (
    t,
    f.space,
    le→not_ltb available r.metadata.file_size f.fits,
    f.free,
    open_truncated_new p.disk r.file_path_on_target
        (exists_at-exists p.disk r.file_path_on_target false f.free) f.allowed,
  )

  pub recv_file_chunk :
      (packet : Packet) (bytes : List ℕ)
      → packet.pl_type ≡ value file_chunk
      → IsWriting r.file_path_on_target bytes p.disk
      → recv_file packet r p
        ≡ ok (
          pos 0,
          r,
          record p { disk = put p.disk r.file_path_on_target (bytes ++ packet.pl_body) },
        )
  unfolding recv_file
  recv_file_chunk packet bytes t w =
      rw (t, append_to_regular p.disk r.file_path_on_target bytes packet.pl_body w.there w.allowed)

  pub recv_file_end :
      (packet : Packet)
      → packet.pl_type ≡ value file_end
      → recv_file packet r p ≡ ok (pos 0, r, say file_received p)
  unfolding recv_file
  recv_file_end packet t = rw t

  -- If the folder has less space than the request's size, but enough for one chunk, then the
  -- begin marker returns 0, tells the user and changes nothing else, and that chunk, if it
  -- follows, is added to a regular file that stands at the path, if one may write to it, and
  -- returns 0 too.
  pub recv_file_no_space :
      (begin chunk : Packet) (available : ℕ) (bytes : List ℕ)
      → begin.pl_type ≡ value file_begin
      → chunk.pl_type ≡ value file_chunk
      → p.disk.free_space (parent_path r.file_path_on_target) ≡ some available
      → available < r.metadata.file_size
      → length chunk.pl_body ≤ available
      → IsWriting r.file_path_on_target bytes p.disk
      → (recv_file begin r p ≡ ok (pos 0, r, say no_space p))
        × (recv_file chunk r (say no_space p)
            ≡ ok (
              pos 0,
              r,
              record (say no_space p) {
                disk = put p.disk r.file_path_on_target (bytes ++ chunk.pl_body);
              },
            ))
  unfolding recv_file
  recv_file_no_space begin chunk available bytes b c space short small w = (
    rw (b, space, lt→ltb available r.metadata.file_size short),
    rw (c, append_to_regular p.disk r.file_path_on_target bytes chunk.pl_body w.there w.allowed),
  )
