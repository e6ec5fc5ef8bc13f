-- ===== src/Net/Sockets.antt =====
-- The calls that set up a connection, and `BaseConnectionInstance` of src/api.cpp.
use wire_send.Common.{ℕ, List, Bool, true, false, Option, ℤ, negsuc, is_negative, if◌then◌else◌}
use wire_send.Info.{IfAddr}
use wire_send.Net.{Kernel}
use wire_send.Process.{Process, Notice, say}

-- How `bind` ends: with success, or with `errno` at one of the two values that are looked at.
pub data Binding : Type 0 where
  bound address_in_use access_denied other_error : Binding

-- What `inet_pton` returns: 1 with the address, 0 or -1.
pub data Address : Type 0 where
  address : ℕ → Address
  not_an_address unsupported : Address

-- The operating system's calls. A descriptor below zero says that a call failed; a port and an
-- address are the numbers that the `sockaddr_in` holds in network order.
pub record Sockets (K : Kernel) : Type 0 where
  pub socket : K.State → ℤ × K.State
  pub reuse_address : ℤ → K.State → K.State
  pub bind : ℤ → ℕ → K.State → Binding × K.State
  pub listen : ℤ → K.State → Bool × K.State
  pub accept : ℤ → K.State → ℤ × K.State
  pub inet_pton : List ℕ → Address
  pub connect : ℤ → ℕ → ℕ → K.State → Bool × K.State
  pub getifaddrs : K.State → Option (List IfAddr)
  pub inet_ntop : ℕ → List ℕ

-- `BaseConnectionInstance`, whose constructor sets the descriptor to -1.
pub record BaseConnection : Type 0 where
  pub sockfd : ℤ

unfoldable pub base_connection : BaseConnection
base_connection = record { sockfd = negsuc 0 }

-- `GetFd`
abbrev pub get_fd : BaseConnection → ℤ
get_fd b = b.sockfd

module _ (K : Kernel) where
  abbrev pub at_sys : K.State → Process K.State → Process K.State
  at_sys s p = record p { sys = s }

  -- `CreateSocketFd`
  unfoldable pub create_socket_fd :
      Sockets K → BaseConnection → Process K.State → Bool × BaseConnection × Process K.State
  create_socket_fd N b p =
      let r = N.socket p.sys in
      let p' = at_sys r.1 p in
      let b' = record b { sockfd = r.0 } in
      if is_negative r.0 then (false, b', say Notice.socket_error p') else (true, b', p')

  -- `~BaseConnectionInstance`
  unfoldable pub destroy : BaseConnection → K.State → K.State
  destroy b s = K.close b.sockfd (if is_negative b.sockfd then s else K.close b.sockfd s)
