-- ===== src/Api.antt =====
-- headers/api.hpp: what the other files take from src/api.cpp, and that it provides it.
use wire_send.Common.{ℕ, ◌^◌, ◌<◌, ◌≡◌, ◌≢◌, List, ◌++◌, Bool, Option, length, ℤ}
use wire_send.Common.Outcome.{Outcome}
use wire_send.Info.{IfAddr, get_lan_ip_addr, print_server_info, print_incoming_file_info}
use wire_send.Process.{Process, handle_exit}
use wire_send.Net.{
  Kernel, IsStream, IsHealthy, Reception, complete, Transmission, done, receive_packet, send_packet,
}
use wire_send.Net.Receive.{receive_packet-complete, receive_packet-ne-stuck}
use wire_send.Net.Send.{send_packet-done, send_packet_healthy, send_packet-ne-stuck}
use wire_send.Net.Sockets.{
  Sockets, BaseConnection, base_connection, create_socket_fd, get_fd, destroy,
}
use wire_send.Transfer.{user_action}

-- The methods of `BaseConnectionInstance`.
pub record ConnectionClass (K : Kernel) : Type 0 where
  pub construct : BaseConnection
  pub create_fd : BaseConnection → Process K.State → Bool × BaseConnection × Process K.State
  pub fd : BaseConnection → ℤ
  pub destruct : BaseConnection → K.State → K.State

-- `PrintServerInfo` and `PrintIncomingFileInfo`.
pub record Printing : Type 0 where
  pub show_server : Option (List IfAddr) → ℕ → Outcome (List ℕ)
  pub show_incoming_file : ℕ → List ℕ → List ℕ

-- `RecievePacket` and `SendPacket`.
pub record Transport (K : Kernel) : Type 0 where
  pub receive : ℤ → ℕ → K.State → Reception × K.State
  pub send : ℤ → List ℕ → K.State → Transmission × K.State

-- The functions. `TerminateConnection(BaseConnectionInstance&)` is declared too, but nothing defines
-- it.
pub record Api (K : Kernel) : Type 0 where
  pub exit : Process K.State → Process K.State
  pub lan_ip_addr : Option (List IfAddr) → Option (List ℕ)
  pub connections : ConnectionClass K
  pub printing : Printing
  pub transport : Transport K
  pub ask : List (List ℕ) → Outcome (Bool × List (List ℕ))

-- What its users rely on, on a stream: both calls end; a call that returns 0 has moved its whole
-- buffer, in order, and nothing else; on a connection that does not fail every buffer is sent.
pub record IsTransport (K : Kernel) (a : Api K) (fd : ℤ) (S : IsStream K fd) : Type 0 where
  pub receive_ends : (size : ℕ) (s : K.State) → (a.transport.receive fd size s).0 ≢ Reception.stuck
  pub send_ends :
      (buff : List ℕ) (s : K.State) → (a.transport.send fd buff s).0 ≢ Transmission.stuck
  pub received :
      (size : ℕ) (s s' : K.State) (buff : List ℕ)
      → a.transport.receive fd size s ≡ (complete buff, s')
      → (length buff ≡ size) × (S.pending s ≡ buff ++ S.pending s') × (S.written s' ≡ S.written s)
  pub sent :
      (buff : List ℕ) (s s' : K.State)
      → length buff < 2 ^ 32
      → a.transport.send fd buff s ≡ (done, s')
      → S.written s' ≡ S.written s ++ buff
  pub sent_all :
      IsHealthy K fd S → (buff : List ℕ) (s : K.State) → (a.transport.send fd buff s).0 ≡ done

module _ (K : Kernel) (N : Sockets K) where
  unfoldable pub connection_class : ConnectionClass K
  connection_class = record {
    construct = base_connection;
    create_fd = create_socket_fd K N;
    fd = get_fd;
    destruct = destroy K;
  }

  unfoldable pub printing : Printing
  printing = record {
    show_server = print_server_info N.inet_ntop;
    show_incoming_file = print_incoming_file_info;
  }

  unfoldable pub transport : Transport K
  transport = record { receive = receive_packet K; send = send_packet K }

  unfoldable pub api : Api K
  unfolding connection_class printing transport
  api = record {
    exit = handle_exit;
    lan_ip_addr = get_lan_ip_addr N.inet_ntop;
    connections = connection_class;
    printing = printing;
    transport = transport;
    ask = user_action;
  }

module _ (K : Kernel) (N : Sockets K) (fd : ℤ) (S : IsStream K fd) where
  -- On a stream, whether or not it is healthy, the transport does what its users rely on:
  -- receiving and sending end; a receiving that returns 0 gives as many bytes as asked for, which
  -- are just those taken from the front of the stream, and writes nothing; a sending that returns
  -- 0 of a buffer of less than 2^32 bytes wrote it whole; and on a healthy stream every buffer is
  -- sent.
  pub api-IsTransport : IsTransport K (api K N) fd S
  unfolding api
  api-IsTransport = record {
    receive_ends = receive_packet-ne-stuck K fd;
    send_ends = send_packet-ne-stuck K fd;
    received = receive_packet-complete K fd S;
    sent = send_packet-done K fd S;
    sent_all = λ H. send_packet_healthy K fd S H;
  }
