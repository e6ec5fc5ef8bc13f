-- ===== src/Transfer/Interface.antt =====
-- headers/FileHandler.hpp: what the two programs take from src/FileHandler.cpp.
use wire_send.Common.{ℕ, List, Bool, ℤ}
use wire_send.Common.Outcome.{Outcome}
use wire_send.Wire.{Packet, FileMetadata}
use wire_send.Wire.Memory.{ByteOrder}
use wire_send.Files.{Disk}
use wire_send.Net.{Kernel}
use wire_send.Process.{PendingIncomingFileRequest, PendingOutgoingFileRequest, Process}
use wire_send.Transfer.{
  create_file_metadata, negotiate_receiver, answer_sender, send_file, recv_file,
  default_file_chunk_size,
}

pub record FileHandler (System : Type 0) : Type 0 where
  pub metadata : Disk → List ℕ → Outcome FileMetadata
  pub negotiate : ℤ → FileMetadata → Process System → Bool × Process System
  pub reply : ℤ → Bool → Process System → Bool × Process System
  pub send : ℤ → PendingOutgoingFileRequest → Process System → ℤ × Process System
  pub recv :
      Packet
      → PendingIncomingFileRequest
      → Process System
      → Outcome (ℤ × PendingIncomingFileRequest × Process System)
  pub chunk_size : ℕ

unfoldable pub file_handler : (K : Kernel) → ByteOrder → FileHandler K.State
file_handler K e = record {
  metadata = create_file_metadata;
  negotiate = negotiate_receiver K e;
  reply = answer_sender K e;
  send = send_file K e;
  recv = recv_file;
  chunk_size = default_file_chunk_size;
}
