-- ===== src/Server/Setup.antt =====
-- `ServerInstance`, and `StartServer` up to its input loop (src/ServerMod.cpp).
use wire_send.Common.{
  ℕ, zero, suc, [], ◌∷◌, ◌++◌, Bool, true, false, ℤ, pos, negsuc, is_negative, codes, if◌then◌else◌,
}
use wire_send.Wire.{FileMetadata}
use wire_send.Wire.Memory.{ByteOrder}
use wire_send.Net.{Kernel}
use wire_send.Net.Sockets.{
  Sockets, Binding, bound, address_in_use, access_denied, other_error, at_sys, create_socket_fd,
  base_connection, destroy,
}
use wire_send.Process.{Process, Notice, say, Verdict, go_on, return_error}
use wire_send.Common.Outcome.{Outcome, ok, ◌>>=◌}
use wire_send.Info.{print_server_info}
use wire_send.Server.{Server, ServerInstance, increment, notify}
use wire_send.Server.Input.{broadcast_server_msg, stop_server}

abbrev no_metadata : FileMetadata
no_metadata = record { file_size = 0; file_name = [] }

-- `ServerInstance NewServer(port)`
unfoldable pub server_instance : ℕ → ServerInstance
unfolding base_connection
server_instance port = record { base = base_connection; serv_port = port }

-- `GetPort`
abbrev pub get_port : ServerInstance → ℕ
get_port i = i.serv_port

-- The globals as the program starts, and the instance.
unfoldable pub new_server : {System : Type 0} → ℕ → Process System → Server System
unfolding server_instance
new_server port p = record {
  proc = p;
  endpoint = server_instance port;
  communication_socket_fd = pos 0;
  server_connected = false;
  client_count = pos 0;
  incoming = record {
    active = false;
    overwrite = false;
    file_path_on_target = [];
    metadata = no_metadata;
  };
  outgoing = record { active = false; file_path_on_src = []; metadata = no_metadata };
  file_recv_in_progress = false;
  file_send_in_progress = false;
}

-- `ClientCount < 1`
abbrev below_one : ℤ → Bool
below_one (pos zero) = true
below_one (pos (suc n)) = false
below_one (negsuc n) = true

module _ (K : Kernel) (N : Sockets K) where
  abbrev told_binding : Binding → Server K.State → Bool × Server K.State
  told_binding bound v = (true, v)
  told_binding address_in_use v = (false, notify Notice.bind_error (notify Notice.port_in_use v))
  told_binding access_denied v =
      (false, notify Notice.bind_error (notify Notice.permission_denied v))
  told_binding other_error v = (false, notify Notice.bind_error v)

  -- `BindSocketToServer`
  unfoldable pub bind_socket_to_server : Server K.State → Bool × Server K.State
  bind_socket_to_server v =
      let r = N.bind v.sockfd v.serv_port (N.reuse_address v.sockfd v.proc.sys) in
      told_binding r.0 (record v { proc = at_sys K r.1 v.proc })

  -- `StartListening`
  unfoldable pub start_listening : Server K.State → Outcome (Server K.State)
  start_listening v =
      let r = N.listen v.sockfd v.proc.sys in
      let p = at_sys K r.1 v.proc in
      if r.0
      then (print_server_info N.inet_ntop (N.getifaddrs r.1) v.serv_port >>= λ text.
          ok (record v { proc = say Notice.listening p }))
      else ok (record v { proc = say Notice.not_listening p })

  -- `AcceptClient`
  unfoldable pub accept_client : Server K.State → ℤ × Server K.State
  accept_client v =
      let r = N.accept v.sockfd v.proc.sys in
      let p = at_sys K r.1 v.proc in
      if is_negative r.0 then (negsuc 0, record v { proc = say Notice.accept_error p }) else (
        r.0,
        record v {
          proc = say Notice.client_now_connected p;
          client_count = increment v.client_count;
          server_connected = true;
          communication_socket_fd = r.0;
        },
      )

  abbrev wait_for_client : Server K.State → Outcome (Server K.State)
  wait_for_client v =
      if below_one v.client_count
      then (start_listening v >>= λ v'.
          ok (record (accept_client v').1 { server_connected = true }))
      else ok (notify Notice.too_many_clients v)

  abbrev pub failed_start : ByteOrder → ℕ → Server K.State → Server K.State
  failed_start e ctl v =
      let v' = stop_server K e ctl v in
      record v' {
        proc = record v'.proc { sys = destroy K v'.base v'.proc.sys; program_running = false };
      }

  -- `StartServer` up to the creation of the receiving thread: `go_on` says that it gets there.
  unfoldable pub start_server :
      ByteOrder → ℕ → ℕ → Process K.State → Outcome (Verdict × Server K.State)
  unfolding new_server bind_socket_to_server accept_client start_listening
  start_server e ctl port p =
      let v = new_server port p in
      let (made, base, p') = create_socket_fd K N v.base v.proc in
      let b =
        bind_socket_to_server
          (record v { proc = p'; endpoint = record v.endpoint { base = base } }) in
      let listening = wait_for_client b.1 >>= λ v'. ok (go_on, v') in
      if b.0 then listening else ok (return_error, failed_start e ctl b.1)

  -- The greeting, behind the creation of the thread.
  unfoldable pub greet : ByteOrder → ℕ → Server K.State → Server K.State
  greet e ctl v = broadcast_server_msg K e ctl (codes "Accepted a client!" ++ 10 ∷ []) v
