-- ===== src/Transfer/Flags.antt =====
-- No call of src/FileHandler.cpp touches the flags of src/api.cpp, but for the two of the negotiation.
use wire_send.Common.{◌≡◌, refl, ap, Bool, false, ℤ, arith, ◌⊎◌}
use wire_send.Common.Outcome.{ok}
use wire_send.Wire.{Packet}
use wire_send.Wire.Memory.{ByteOrder}
use wire_send.Net.{Kernel}
use wire_send.Process.{PendingIncomingFileRequest, PendingOutgoingFileRequest, Process}
use wire_send.Transfer.{
  transmit, send_file, can_receive_files, recv_begin, recv_file, answer_sender,
}
use wire_send.Transfer.Views.{send_file-Same}

pub record Flags : Type 0 where
  pub debug : Bool
  pub running : Bool
  pub server_mode : Bool
  pub neg : Bool

abbrev flags : {System : Type 0} → Process System → Flags
flags p = record {
  debug = p.enable_debug;
  running = p.program_running;
  server_mode = p.running_mode;
  neg = p.active_file_neg_req;
}

-- These flags are as they were.
abbrev SameFlags : {System : Type 0} → Process System → Process System → Type 0
SameFlags p p' = flags p' ≡ flags p

-- The flag of the negotiation is as it was, and the one that the program runs.
abbrev pub SameNeg : {System : Type 0} → Process System → Process System → Type 0
SameNeg p p' = p'.active_file_neg_req ≡ p.active_file_neg_req

abbrev pub SameRunning : {System : Type 0} → Process System → Process System → Type 0
SameRunning p p' = p'.program_running ≡ p.program_running

module _ {System : Type 0} (packet : Packet) (r r' : PendingIncomingFileRequest)
    (p p' : Process System) where
  can_receive_files-SameFlags :
      (b : Bool) → can_receive_files r r.metadata p ≡ ok (b, r', p') → SameFlags p p'
  unfolding can_receive_files
  can_receive_files-SameFlags b h = ground arith

  recv_begin-SameFlags : (flag : ℤ) → recv_begin r p ≡ ok (flag, r', p') → SameFlags p p'
  unfolding recv_begin can_receive_files
  recv_begin-SameFlags flag h = ground arith

  recv_file-SameFlags : (flag : ℤ) → recv_file packet r p ≡ ok (flag, r', p') → SameFlags p p'
  unfolding recv_file
  recv_file-SameFlags flag h = ground (arith, recv_begin-SameFlags flag)

  pub recv_file-SameNeg : (flag : ℤ) → recv_file packet r p ≡ ok (flag, r', p') → SameNeg p p'
  recv_file-SameNeg flag h = ap (λ (f : Flags). f.neg) (recv_file-SameFlags flag h)

  pub recv_file-SameRunning :
      (flag : ℤ) → recv_file packet r p ≡ ok (flag, r', p') → SameRunning p p'
  recv_file-SameRunning flag h = ap (λ (f : Flags). f.running) (recv_file-SameFlags flag h)

module _ {System : Type 0} (packet : Packet) (r r' : PendingIncomingFileRequest)
    (p p' : Process System) where
  recv_begin-SameActive : (flag : ℤ) → recv_begin r p ≡ ok (flag, r', p') → r'.active ≡ r.active
  unfolding recv_begin can_receive_files
  recv_begin-SameActive flag h = ground arith

  -- Nor does the reception of a file end the request.
  pub recv_file-SameActive :
      (flag : ℤ) → recv_file packet r p ≡ ok (flag, r', p') → r'.active ≡ r.active
  unfolding recv_file
  recv_file-SameActive flag h = ground (arith, recv_begin-SameActive flag)

module _ (K : Kernel) (e : ByteOrder) (fd : ℤ) where
  send_file-SameFlags :
      (r : PendingOutgoingFileRequest) (p : Process K.State) → SameFlags p (send_file K e fd r p).1
  send_file-SameFlags r p = send_file-Same K e fd flags (λ s q. refl) (λ q. refl) (λ q. refl) r p

  pub send_file-SameNeg :
      (r : PendingOutgoingFileRequest) (p : Process K.State) → SameNeg p (send_file K e fd r p).1
  send_file-SameNeg r p = ap (λ (f : Flags). f.neg) (send_file-SameFlags r p)

  pub send_file-SameRunning :
      (r : PendingOutgoingFileRequest) (p : Process K.State)
      → SameRunning p (send_file K e fd r p).1
  send_file-SameRunning r p = ap (λ (f : Flags). f.running) (send_file-SameFlags r p)

  pub answer_sender-SameNeg :
      (response : Bool) (p : Process K.State)
      → (SameNeg p (answer_sender K e fd response p).1)
        ⊎ ((answer_sender K e fd response p).1.active_file_neg_req ≡ false)
  unfolding answer_sender transmit
  answer_sender-SameNeg response p = ground arith
