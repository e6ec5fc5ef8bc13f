-- ===== src/Server/Starting.antt =====
-- How `StartServer` comes to its input loop.
use wire_send.Common.{
  ℕ, ◌≡◌, ◌≢◌, refl, List, Bool, true, false, Option, none, some, ℤ, pos, is_negative, arith,
  if◌then◌else◌,
}
use wire_send.Wire.Memory.{ByteOrder}
use wire_send.Net.{Kernel}
use wire_send.Net.Sockets.{Sockets, Binding, bound, at_sys, create_socket_fd}
use wire_send.Common.Outcome.{ok, undefined}
use wire_send.Info.{get_lan_ip_addr, print_server_info}
use wire_send.Process.{Process, Notice, say, go_on, return_error}
use wire_send.Server.Input.{stop_server}
use wire_send.Server.{Server}
use wire_send.Server.Setup.{
  new_server, bind_socket_to_server, accept_client, start_listening, failed_start, start_server,
}

module _ (K : Kernel) (N : Sockets K) (e : ByteOrder) (ctl port : ℕ) (p : Process K.State) where
  -- The descriptor of `socket`, what `bind` says of it, and what `accept` returns.
  abbrev pub listener : ℤ
  listener = (N.socket p.sys).0

  abbrev pub after_bind : Binding × K.State
  after_bind = N.bind listener port (N.reuse_address listener (N.socket p.sys).1)

  abbrev pub after_listen : Bool × K.State
  after_listen = N.listen listener after_bind.1

  abbrev pub accepted_fd : ℤ
  accepted_fd = (N.accept listener after_listen.1).0

  -- The address that the server would print.
  abbrev pub lan_address : Option (List ℕ)
  lan_address = get_lan_ip_addr N.inet_ntop (N.getifaddrs after_listen.1)

  -- The server as it calls `bind`, after it, and as it calls `accept`.
  abbrev before_bind : Server K.State
  before_bind =
      let v = new_server port p in
      let (made, base, p') = create_socket_fd K N v.base v.proc in
      record v { proc = p'; endpoint = record v.endpoint { base = base } }

  abbrev bound_server : Server K.State
  bound_server = (bind_socket_to_server K N before_bind).1

  abbrev listening_server : Server K.State
  listening_server =
      let notice = if after_listen.0 then Notice.listening else Notice.not_listening in
      record bound_server { proc = say notice (at_sys K after_listen.1 bound_server.proc) }

  -- If `bind` does not succeed, the server returns -1, and the flags of the running program and
  -- of a connection are false.
  pub start_server_refused :
      after_bind.0 ≢ bound
      → (v : Server K.State) × (start_server K N e ctl port p ≡ ok (return_error, v))
        × (v.proc.program_running ≡ false)
        × (v.server_connected ≡ false)
  unfolding start_server create_socket_fd stop_server
  start_server_refused h = (failed_start K N e ctl bound_server, ground arith, refl, refl)

  -- If `bind` succeeds and the host has an address of its own, the server gets to its receiving
  -- thread, with the flag of a connection set whatever `accept` returns; if `accept` fails the
  -- connection's descriptor is 0 and no client is counted, and else the descriptor is what it
  -- returned and one client is counted.
  pub start_server_connected :
      (ip : List ℕ)
      → after_bind.0 ≡ bound
      → lan_address ≡ some ip
      → (v : Server K.State) × (start_server K N e ctl port p ≡ ok (go_on, v))
        × (v.server_connected ≡ true)
        × (v.communication_socket_fd ≡ (if is_negative accepted_fd then pos 0 else accepted_fd))
        × (v.client_count ≡ (if is_negative accepted_fd then pos 0 else pos 1))
  unfolding start_server create_socket_fd start_listening print_server_info
  start_server_connected ip h lan =
      let v = record (accept_client K N listening_server).1 { server_connected = true } in
      (v, ground arith, refl, ground arith, ground arith)

  -- If `bind` and `listen` succeed and the host has no IPv4 address but those of the loopback, or
  -- its addresses cannot be read, the server's start is undefined: it prints a null pointer as a
  -- text.
  pub start_server_offline :
      after_bind.0 ≡ bound
      → after_listen.0 ≡ true
      → lan_address ≡ none
      → start_server K N e ctl port p ≡ undefined
  unfolding start_server create_socket_fd start_listening print_server_info
  start_server_offline h l lan = ground arith
