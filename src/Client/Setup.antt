-- ===== src/Client/Setup.antt =====
-- `ClientInstance`, and `StartClient` up to its input loop (src/ClientMod.cpp).
use wire_send.Common.{ℕ, List, [], Bool, true, false}
use wire_send.Wire.{FileMetadata}
use wire_send.Net.{Kernel}
use wire_send.Net.Sockets.{
  Sockets, Address, address, not_an_address, unsupported, at_sys, create_socket_fd, base_connection,
}
use wire_send.Process.{Process, Notice, say}
use wire_send.Client.{Client, ClientInstance, notify}

abbrev no_metadata : FileMetadata
no_metadata = record { file_size = 0; file_name = [] }

-- `ClientInstance NewClient`, whose port is what it happens to be until `ConnectToServer`.
unfoldable pub client_instance : ℕ → ClientInstance
unfolding base_connection
client_instance port = record { base = base_connection; serv_port = port }

-- `GetPort`
abbrev pub get_port : ClientInstance → ℕ
get_port i = i.serv_port

-- The globals as the program starts, and the instance.
unfoldable pub new_client : {System : Type 0} → ℕ → Process System → Client System
unfolding client_instance
new_client port p = record {
  proc = p;
  endpoint = client_instance port;
  client_connected = false;
  incoming = record {
    active = false;
    overwrite = false;
    file_path_on_target = [];
    metadata = no_metadata;
  };
  outgoing = record { active = false; file_path_on_src = []; metadata = no_metadata };
  file_recv_in_progress = false;
  file_send_in_progress = false;
}

module _ (K : Kernel) (N : Sockets K) where
  abbrev told_connection : Bool × K.State → Client K.State → Client K.State
  told_connection (true, s) v = record v {
    proc = say Notice.connected (at_sys K s v.proc);
    client_connected = true;
  }
  told_connection (false, s) v = record v { proc = say Notice.connection_error (at_sys K s v.proc) }

  -- The address that stands in the zeroed `sockaddr_in` goes to `connect`.
  abbrev connect_at : Address → ℕ → Client K.State → Client K.State
  connect_at (address ip) port v = told_connection (N.connect v.sockfd ip port v.proc.sys) v
  connect_at not_an_address port v =
      let v' = notify Notice.invalid_address v in
      told_connection (N.connect v.sockfd 0 port v.proc.sys) v'
  connect_at unsupported port v = notify Notice.address_error v

  -- `ConnectToServer`
  unfoldable pub connect_to_server : List ℕ → ℕ → Client K.State → Client K.State
  connect_to_server ip port v =
      connect_at (N.inet_pton ip) port
        (record v { endpoint = record v.endpoint { serv_port = port } })

  -- `StartClient` up to the creation of the receiving thread.
  unfoldable pub start_client : List ℕ → ℕ → Process K.State → Client K.State
  unfolding new_client connect_to_server
  start_client ip port p =
      let v = new_client port p in
      let (made, base, p') = create_socket_fd K N v.base v.proc in
      connect_to_server ip port
        (record v { proc = p'; endpoint = record v.endpoint { base = base } })
