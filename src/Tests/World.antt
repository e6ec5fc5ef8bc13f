-- ===== src/Tests/World.antt =====
-- A server and a client for the tests, with a file to send and a place to save it.
use wire_send.Common.{ℕ, zero, suc, List, [], ◌∷◌, none, Bool, true, false, some, ℤ, pos, codes}
use wire_send.Info.{IfAddr, inet, other_family}
use wire_send.Net.Sockets.{Sockets, Binding, address, not_an_address}
use wire_send.Wire.{FileMetadata}
use wire_send.Files.{Disk, regular}
use wire_send.Common.Outcome.{Outcome, ok, undefined, terminated, hangs}
use wire_send.Net.{Kernel}
use wire_send.Process.{
  PendingIncomingFileRequest, PendingOutgoingFileRequest, Process, initial_process,
}
use wire_send.Server.{Server}
use wire_send.Client.{Client}
use wire_send.Tests.Pipe.{Pipe, pipe}

abbrev pub file_bytes : List ℕ
file_bytes = 1 ∷ 0 ∷ 255 ∷ []

abbrev pub disk : Disk
disk = record {
  entries = (codes "/home/a.txt", regular file_bytes) ∷ [];
  free_space = λ folder. some 1000;
  can_read = λ path. true;
  can_write = λ path. true;
  can_look_up = λ path. true;
}

abbrev pub metadata : FileMetadata
metadata = record { file_size = 3; file_name = codes "a.txt" }

abbrev pub outgoing : PendingOutgoingFileRequest
outgoing = record { active = true; file_path_on_src = codes "/home/a.txt"; metadata = metadata }

-- The path at which the request's file is to be saved.
abbrev pub incoming_at : List ℕ → PendingIncomingFileRequest
incoming_at path = record {
  active = true;
  overwrite = false;
  file_path_on_target = path;
  metadata = metadata;
}

abbrev pub incoming : PendingIncomingFileRequest
incoming = incoming_at (codes "/tmp/b.txt")

abbrev pub process : List ℕ → Process Pipe
process inbox = initial_process (record { inbox = inbox; outbox = [] }) disk [] []

-- A server and a client with these bytes to read, whose user accepted a request, and whose peer
-- accepted one.
abbrev pub server : List ℕ → Server Pipe
server inbox = record {
  proc = process inbox;
  endpoint = record { base = record { sockfd = pos 3 }; serv_port = 5000 };
  communication_socket_fd = pos 4;
  server_connected = true;
  client_count = pos 1;
  incoming = incoming;
  outgoing = outgoing;
  file_recv_in_progress = false;
  file_send_in_progress = true;
}

abbrev pub client : List ℕ → Client Pipe
client inbox = record {
  proc = process inbox;
  endpoint = record { base = record { sockfd = pos 3 }; serv_port = 5000 };
  client_connected = true;
  incoming = incoming;
  outgoing = outgoing;
  file_recv_in_progress = false;
  file_send_in_progress = true;
}

abbrev ntop : ℕ → List ℕ
ntop zero = codes "127.0.0.1"
ntop (suc n) = codes "10.0.0.7"

-- The addresses of a host that is in a network, behind the loopback address.
abbrev pub interfaces : List IfAddr
interfaces = none ∷ some (inet, 0) ∷ some (other_family, 2) ∷ some (inet, 1) ∷ []

-- Calls of which `bind`, `accept` and `connect` end in the given way.
abbrev pub sockets_of : (K : Kernel) → List IfAddr → Binding → ℤ → Bool → Sockets K
sockets_of K addresses b fd up = record {
  socket = λ s. (pos 3, s);
  reuse_address = λ d s. s;
  bind = λ d port s. (b, s);
  listen = λ d s. (true, s);
  accept = λ d s. (fd, s);
  inet_pton = λ text. elim text [ [] ↦ not_an_address | c ∷ cs ↦ address 1 ];
  connect = λ d host port s. (up, s);
  getifaddrs = λ s. some addresses;
  inet_ntop = ntop;
}

abbrev pub sockets : List IfAddr → Binding → ℤ → Bool → Sockets pipe
sockets = sockets_of pipe

-- The result, or a given value where there is none.
abbrev pub result : {A : Type 0} → A → Outcome A → A
result a (ok b) = b
result a undefined = a
result a terminated = a
result a hangs = a
