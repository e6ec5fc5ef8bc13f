-- ===== src/Server/Interface.antt =====
-- headers/ServerMod.hpp: `ServerInstance`, `StopServer` and `LockDoor`.
use wire_send.Common.{ℕ, Bool, ℤ}
use wire_send.Common.Outcome.{Outcome}
use wire_send.Wire.Memory.{ByteOrder}
use wire_send.Net.{Kernel}
use wire_send.Net.Sockets.{Sockets}
use wire_send.Server.{Server, ServerInstance}
use wire_send.Server.Input.{stop_server, lock_door}
use wire_send.Server.Setup.{
  server_instance, get_port, start_listening, bind_socket_to_server, accept_client,
}

-- The methods work on the globals too, so they take the whole state. `ctl` is the control byte that
-- `StopServer` leaves unset in its broadcast.
pub record ServerModule (System : Type 0) : Type 0 where
  pub construct : (port : ℕ) → ServerInstance
  pub port_of : ServerInstance → ℕ
  pub listen : Server System → Outcome (Server System)
  pub bind : Server System → Bool × Server System
  pub accept : Server System → ℤ × Server System
  pub stop : (ctl : ℕ) → Server System → Server System
  pub lock : Server System → Server System

unfoldable pub server_module : (K : Kernel) → Sockets K → ByteOrder → ServerModule K.State
server_module K N e = record {
  construct = server_instance;
  port_of = get_port;
  listen = start_listening K N;
  bind = bind_socket_to_server K N;
  accept = accept_client K N;
  stop = stop_server K e;
  lock = lock_door K e;
}
