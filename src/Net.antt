-- ===== src/Net.antt =====
-- src/api.cpp: `RecievePacket` and `SendPacket`, over the calls of the operating system.
--
-- A vector of `n` bytes that is being filled is its filled front; the pointer
-- `buffer.data() + RecvBytes` is where the front ends.
pub mod Receive
pub mod Send
pub mod Frame
pub mod Typing
pub mod Reliable
pub mod Sockets
use wire_send.Common.{
  ℕ, zero, suc, ◌+◌, ◌-◌, ◌%◌, ◌^◌, ◌≤◌, ◌<◌, ◌≡◌, ◌≢◌, List, [], ◌∷◌, ◌++◌, length, take, drop,
  ltb, leb, ◌==◌, if◌then◌else◌, ℤ, pos, negsuc,
}

-- What `recv` leaves: some bytes in the buffer, none at the end of the stream, or an error.
pub data Received : Type 0 where
  received : List ℕ → Received
  recv_failed : Received

pub data Sent : Type 0 where
  sent : ℕ → Sent
  send_failed : Sent

-- The operating system's calls on an unknown state. A descriptor is a C `int`.
pub record Kernel : Type 1 where
  pub State : Type 0
  pub recv : ℤ → ℕ → State → Received × State
  pub send : ℤ → List ℕ → State → Sent × State
  pub shutdown_read : ℤ → State → State
  pub shutdown_write : ℤ → State → State
  pub close : ℤ → State → State

-- What a connected stream socket promises. `pending` is what the peer will have written before
-- it closes and was not yet read; `written` is what the peer will have been sent.
pub record IsStream (K : Kernel) (fd : ℤ) : Type 0 where
  pub pending : K.State → List ℕ
  pub written : K.State → List ℕ
  -- A call delivers the front of the stream, as many bytes as were asked for at most.
  pub recv_front :
      (n : ℕ) (s s' : K.State) (bs : List ℕ)
      → K.recv fd n s ≡ (received bs, s')
      → (length bs ≤ n) × (pending s ≡ bs ++ pending s') × (written s' ≡ written s)
  -- A call accepts a front of what it is given.
  pub send_front :
      (bs : List ℕ) (s s' : K.State) (k : ℕ)
      → K.send fd bs s ≡ (sent k, s')
      → (k ≤ length bs) × (written s' ≡ written s ++ take k bs) × (pending s' ≡ pending s)
  -- A call that fails sends nothing.
  pub send_none :
      (bs : List ℕ) (s s' : K.State)
      → K.send fd bs s ≡ (send_failed, s')
      → (written s' ≡ written s) × (pending s' ≡ pending s)

-- A connection that does not fail: `recv` delivers something while the stream lasts and nothing
-- after it, `send` accepts something. A call moves 0x7ffff000 bytes at most, as Linux documents.
pub record IsHealthy (K : Kernel) (fd : ℤ) (S : IsStream K fd) : Type 0 where
  pub recv_more :
      (n : ℕ) (s : K.State)
      → 0 < n
      → S.pending s ≢ []
      → (bs : List ℕ) × (s' : K.State) × (K.recv fd n s ≡ (received bs, s'))
        × (0 < length bs)
        × (length bs ≤ 0x7ffff000)
  pub recv_end :
      (n : ℕ) (s : K.State)
      → S.pending s ≡ []
      → (s' : K.State) × (K.recv fd n s ≡ (received [], s'))
  pub send_more :
      (bs : List ℕ) (s : K.State)
      → 0 < length bs
      → (k : ℕ) × (s' : K.State) × (K.send fd bs s ≡ (sent k, s')) × (0 < k) × (k ≤ 0x7ffff000)

-- What `RecievePacket` returns: 0 with the buffer (`complete`), -1 (`failed`) or 2 (`closed`).
-- `undefined` is a signed overflow of `int RecvBytes`; `stuck` is no C++ value: the loop's fuel ran
-- out.
pub data Reception : Type 0 where
  complete : List ℕ → Reception
  failed closed undefined stuck : Reception

-- What `SendPacket` returns: 0 (`done`) or -1 (`broken`).
pub data Transmission : Type 0 where
  done broken stuck : Transmission

module _ (K : Kernel) (fd : ℤ) where
  -- The tests on `int RecvFlag = recv(...)`. The conversion from `ssize_t` to `int` keeps 32 bits,
  -- and a number of 2^31 or more is negative. `rest` is the next round of the loop.
  unfoldable pub recv_round :
      List ℕ → Received → K.State → (List ℕ → K.State → Reception × K.State) → Reception × K.State
  recv_round got recv_failed s rest = (failed, s)
  recv_round got (received bs) s rest =
      let flag = length bs % 2 ^ 32 in
      if leb (2 ^ 31) flag
      then (failed, s)
      else if flag == 0
      then (closed, s)
      else if leb (2 ^ 31) (length got + flag)
      then (undefined, s)
      else rest (got ++ bs) s

  -- The loop of `RecievePacket` for a buffer of `size` bytes, of which `got` is filled.
  unfoldable pub recv_loop : ℕ → ℕ → List ℕ → K.State → Reception × K.State
  unfolding recv_round
  recv_loop zero size got s = if ltb (length got) size then (stuck, s) else (complete got, s)
  recv_loop (suc fuel) size got s =
      let r = K.recv fd (size - length got) s in
      let next = recv_round got r.0 r.1 (λ got' s'. recv_loop fuel size got' s') in
      if ltb (length got) size then next else (complete got, s)

  unfoldable pub receive_packet : ℕ → K.State → Reception × K.State
  unfolding recv_loop
  receive_packet size s = recv_loop size size [] s

  -- The tests on `int SendFlag = send(...)`; `SentBytes` is a `size_t`. A send that fails returns:
  -- the signal SIGPIPE, which may end the program instead, is not modelled.
  unfoldable pub send_round :
      ℕ → Sent → K.State → (ℕ → K.State → Transmission × K.State) → Transmission × K.State
  send_round done_bytes send_failed s rest = (broken, s)
  send_round done_bytes (sent k) s rest =
      let flag = k % 2 ^ 32 in
      if leb (2 ^ 31) flag
      then (broken, s)
      else if flag == 0
      then (broken, s)
      else rest (done_bytes + flag) s

  unfoldable pub send_loop : ℕ → List ℕ → ℕ → K.State → Transmission × K.State
  unfolding send_round
  send_loop zero buff done_bytes s = if ltb done_bytes (length buff) then (stuck, s) else (done, s)
  send_loop (suc fuel) buff done_bytes s =
      let r = K.send fd (drop done_bytes buff) s in
      let next = send_round done_bytes r.0 r.1 (λ n s'. send_loop fuel buff n s') in
      if ltb done_bytes (length buff) then next else (done, s)

  unfoldable pub send_packet : List ℕ → K.State → Transmission × K.State
  unfolding send_loop
  send_packet buff s = send_loop (length buff) buff 0 s
