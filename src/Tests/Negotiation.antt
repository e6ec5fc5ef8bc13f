-- ===== src/Tests/Negotiation.antt =====
-- The negotiation of a file.
use wire_send.Common.{
  ℕ, ◌≡◌, ◌≢◌, refl, List, [], ◌∷◌, ◌++◌, Option, some, Bool, true, false, ℤ, pos, negsuc, codes,
  arith,
}
use wire_send.Common.Outcome.{ok}
use wire_send.Wire.{serialize_packet}
use wire_send.Wire.Memory.{little, big}
use wire_send.Process.{Process, go_on}
use wire_send.Server
use wire_send.Client
use wire_send.Exchange.Offer.{
  IsOffering, metadata_of, offer_packet, offered_request, server_offers_client,
  client_offers_server,
}
use wire_send.Exchange.Acceptance.{accept_packet, client_accepts_server, server_accepts_client}
use wire_send.Tests.Pipe.{Pipe, pipe, stream, healthy}
use wire_send.Tests.World.{file_bytes, process, server, client}

abbrev path : List ℕ
path = codes "/home/a.txt"

-- The user picks the file and agrees.
abbrev offering : List ℕ → Process Pipe
offering inbox = record (process inbox) { dialogs = some path ∷ []; input = codes "y" ∷ [] }

abbrev offering_server : Server.Server Pipe
offering_server = record (server []) { proc = offering [] }

abbrev offering_client : Client.Client Pipe
offering_client = record (client []) { proc = offering [] }

offering-IsOffering : IsOffering path file_bytes (offering [])
unfolding wire_send.Files.find_entry wire_send.Common.text_eq wire_send.Files.Paths.filename
offering-IsOffering = record {
  chosen = refl;
  there = refl;
  agreed = refl;
  size = omega arith;
  name = omega arith;
}

abbrev offer_bytes : List ℕ
offer_bytes = (serialize_packet little (offer_packet little (metadata_of path file_bytes))).0

server_offers_client_example :
    (v' : Server.Server Pipe) × (w' : Client.Client Pipe) × (Server.Input.file_prompt_command pipe
        little offering_server
      ≡ ok v')
    × (v'.proc.active_file_neg_req ≡ true)
    × (v'.outgoing ≡ offered_request path file_bytes)
    × (v'.proc.sys.outbox ≡ [] ++ offer_bytes)
    × (Client.recv_thread pipe little 1 (client (offer_bytes ++ 7 ∷ [])) ≡ ok (go_on, w'))
    × (w'.incoming
        ≡ record (client []).incoming { active = true; metadata = metadata_of path file_bytes })
    × (w'.proc.sys.inbox ≡ 7 ∷ [])
server_offers_client_example =
    server_offers_client pipe (pos 4) (stream (pos 4)) (healthy (pos 4)) pipe (pos 3)
      (stream (pos 3)) (healthy (pos 3)) little offering_server (client (offer_bytes ++ 7 ∷ []))
      path file_bytes (7 ∷ []) refl offering-IsOffering (record { connection = refl; up = refl })
      refl refl

client_offers_server_example :
    (v' : Client.Client Pipe) × (w' : Server.Server Pipe) × (Client.Input.file_prompt_command pipe
        little offering_client
      ≡ ok v')
    × (v'.proc.active_file_neg_req ≡ true)
    × (v'.outgoing ≡ offered_request path file_bytes)
    × (v'.proc.sys.outbox ≡ [] ++ offer_bytes)
    × (Server.recv_thread pipe little 1 (server (offer_bytes ++ 7 ∷ [])) ≡ ok (go_on, w'))
    × (w'.incoming
        ≡ record (server []).incoming { active = true; metadata = metadata_of path file_bytes })
    × (w'.proc.sys.inbox ≡ 7 ∷ [])
client_offers_server_example =
    client_offers_server pipe (pos 4) (stream (pos 4)) (healthy (pos 4)) pipe (pos 3)
      (stream (pos 3)) (healthy (pos 3)) little offering_client (server (offer_bytes ++ 7 ∷ []))
      path file_bytes (7 ∷ []) refl offering-IsOffering refl refl refl refl

abbrev accepting : Process Pipe
accepting = record (process []) { dialogs = some (codes "/tmp/b.txt") ∷ [] }

abbrev accept_bytes : List ℕ
accept_bytes = (serialize_packet big accept_packet).0

abbrev asking_server : Server.Server Pipe
asking_server = Server.set_neg true (server (accept_bytes ++ 7 ∷ []))

abbrev asking_client : Client.Client Pipe
asking_client = Client.set_neg true (client (accept_bytes ++ 7 ∷ []))

abbrev accepting_client : Client.Client Pipe
accepting_client = record (client []) { proc = accepting }

abbrev accepting_server : Server.Server Pipe
accepting_server = record (server []) { proc = accepting }

client_accepts_server_example :
    ((Client.Input.accept_command pipe big accepting_client).incoming
      ≡ record accepting_client.incoming { file_path_on_target = codes "/tmp/b.txt" })
    × ((Client.Input.accept_command pipe big accepting_client).proc.sys.outbox ≡ [] ++ accept_bytes)
    × (w' : Server.Server Pipe) × (Server.recv_thread pipe little 1 asking_server ≡ ok (go_on, w'))
    × (w'.file_send_in_progress ≡ true)
    × (w'.proc.active_file_neg_req ≡ false)
    × (w'.outgoing ≡ asking_server.outgoing)
    × (w'.proc.sys.inbox ≡ 7 ∷ [])
client_accepts_server_example =
    client_accepts_server pipe (pos 4) (stream (pos 4)) (healthy (pos 4)) pipe (pos 3)
      (stream (pos 3)) (healthy (pos 3)) big little accepting_client asking_server
      (codes "/tmp/b.txt") (7 ∷ []) refl refl refl refl refl refl refl

server_accepts_client_example :
    ((Server.Input.accept_command pipe big accepting_server).incoming
      ≡ record accepting_server.incoming { file_path_on_target = codes "/tmp/b.txt" })
    × ((Server.Input.accept_command pipe big accepting_server).proc.sys.outbox ≡ [] ++ accept_bytes)
    × (w' : Client.Client Pipe) × (Client.recv_thread pipe little 1 asking_client ≡ ok (go_on, w'))
    × (w'.file_send_in_progress ≡ true)
    × (w'.proc.active_file_neg_req ≡ false)
    × (w'.outgoing ≡ asking_client.outgoing)
    × (w'.proc.sys.inbox ≡ 7 ∷ [])
server_accepts_client_example =
    server_accepts_client pipe (pos 4) (stream (pos 4)) (healthy (pos 4)) pipe (pos 3)
      (stream (pos 3)) (healthy (pos 3)) big little accepting_server asking_client
      (codes "/tmp/b.txt") (7 ∷ []) refl refl refl refl refl refl refl
