-- ===== src/Client/Starting.antt =====
-- What becomes of a client that does not connect, and of an address that is none.
use wire_send.Common.{ℕ, suc, ◌≡◌, List, false, ℤ, arith}
use wire_send.Common.Outcome.{ok}
use wire_send.Wire.Memory.{ByteOrder}
use wire_send.Net.{Kernel}
use wire_send.Net.Sockets.{Sockets, address, not_an_address, create_socket_fd}
use wire_send.Process.{Process, leave, other_lines}
use wire_send.Client.{recv_thread}
use wire_send.Client.Input.{left, input_round}
use wire_send.Client.Setup.{start_client}

module _ (K : Kernel) (N : Sockets K) (e : ByteOrder) (port : ℕ) (ip : List ℕ)
    (p : Process K.State) where
  abbrev pub own_fd : ℤ
  own_fd = (N.socket p.sys).0

  -- If the address is one and `connect` fails, the client's receiving thread ends in its first
  -- round and changes nothing, and the input loop ends at the first line that is typed, which is
  -- not sent.
  pub start_client_refused :
      (rounds host : ℕ)
      → N.inet_pton ip ≡ address host
      → (N.connect own_fd host port (N.socket p.sys).1).0 ≡ false
      → let v = start_client K N ip port p in
        (recv_thread K e (suc rounds) v ≡ ok (leave, v))
        × (input_round K e v
            ≡ ok (left, record v { proc = record v.proc { input = other_lines v.proc.input } }))
  unfolding start_client create_socket_fd recv_thread input_round
  start_client_refused rounds host a c = (ground arith, ground arith)

  -- For a text that is no address the client connects to the address 0 all the same, and is
  -- connected exactly if that call succeeds.
  pub start_client_invalid :
      N.inet_pton ip ≡ not_an_address
      → (start_client K N ip port p).client_connected
        ≡ (N.connect own_fd 0 port (N.socket p.sys).1).0
  unfolding start_client create_socket_fd
  start_client_invalid a = ground arith
