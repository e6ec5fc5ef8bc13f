-- ===== src/Client/Interface.antt =====
-- headers/ClientMod.hpp: `ClientInstance`, `TerminateConnection` and `CloseConnection`.
use wire_send.Common.{ℕ, List}
use wire_send.Net.{Kernel}
use wire_send.Net.Sockets.{Sockets}
use wire_send.Client.{Client, ClientInstance, terminate_connection, close_connection}
use wire_send.Client.Setup.{get_port, connect_to_server}

-- The methods work on the globals too, so they take the whole state.
pub record ClientModule (System : Type 0) : Type 0 where
  pub connect : (ip : List ℕ) (port : ℕ) → Client System → Client System
  pub port_of : ClientInstance → ℕ
  pub terminate : Client System → Client System
  pub close : Client System → Client System

unfoldable pub client_module : (K : Kernel) → Sockets K → ClientModule K.State
client_module K N = record {
  connect = connect_to_server K N;
  port_of = get_port;
  terminate = terminate_connection K;
  close = close_connection K;
}
