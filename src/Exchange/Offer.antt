-- ===== src/Exchange/Offer.antt =====
-- The offer of a file, from the dialog to the other program's pending request.
use wire_send.Common.{
  ℕ, ◌^◌, ◌<◌, ◌≡◌, refl, ap, ◌∙◌, List, ◌++◌, true, false, some, ℤ, arith, length,
}
use wire_send.Common.Outcome.{ok}
use wire_send.Wire.{
  Packet, FileMetadata, value, file_neg, no_arg, serialize_packet, serialize_file_metadata_packet,
}
use wire_send.Wire.Memory.{ByteOrder}
use wire_send.Wire.Metadata.{deserialize-serialize_metadata, length-serialize_metadata}
use wire_send.Net.{Kernel, IsStream, IsHealthy}
use wire_send.Files.{entry_at, regular}
use wire_send.Files.Paths.{filename}
use wire_send.Process.{
  Process, PendingOutgoingFileRequest, Notice, say, go_on, first_answer, other_answers, first_line,
  other_lines, is_yes,
}
use wire_send.Transfer.{packet_of, transmit, create_file_metadata, negotiate_receiver}
use wire_send.Transfer.Sending.{transmit_healthy}
use wire_send.Server.{Server}
use wire_send.Server
use wire_send.Client.{Client}
use wire_send.Client

-- What is known of a file, and the packet that offers it.
abbrev pub metadata_of : List ℕ → List ℕ → FileMetadata
metadata_of path bytes = record { file_size = length bytes; file_name = filename path }

abbrev pub offer_packet : ByteOrder → FileMetadata → Packet
offer_packet e meta =
    packet_of (value file_neg) (serialize_file_metadata_packet e meta) (value no_arg)

abbrev pub offered_request : List ℕ → List ℕ → PendingOutgoingFileRequest
offered_request path bytes = record {
  active = true;
  file_path_on_src = path;
  metadata = metadata_of path bytes;
}

-- The user selected a regular file with these bytes and agrees to send it.
pub record IsOffering {System : Type 0} (path bytes : List ℕ) (p : Process System) : Type 0 where
  pub chosen : first_answer p.dialogs ≡ some path
  pub there : entry_at p.disk path ≡ some (regular bytes)
  pub agreed : is_yes (first_line p.input) ≡ true
  pub size : length bytes < 2 ^ 64
  pub name : length (filename path) < 2 ^ 30

module _ (K : Kernel) (e : ByteOrder) (fd : ℤ) (S : IsStream K fd) (H : IsHealthy K fd S) where
  server_offer :
      (v : Server K.State) (path bytes : List ℕ)
      → v.communication_socket_fd ≡ fd
      → IsOffering path bytes v.proc
      → (v' : Server K.State) × (Server.Input.file_prompt_command K e v ≡ ok v')
        × (v'.proc.active_file_neg_req ≡ true)
        × (v'.outgoing ≡ offered_request path bytes)
        × (S.written v'.proc.sys
            ≡ S.written v.proc.sys
              ++ (serialize_packet e (offer_packet e (metadata_of path bytes))).0)
  unfolding Server.Input.file_prompt_command create_file_metadata negotiate_receiver
  server_offer v path bytes same o =
      let meta = metadata_of path bytes in
      let asked =
        record (say (Notice.ask_send meta)
          (record v.proc { dialogs = other_answers v.proc.dialogs; file_transfer_mode = true })) {
            input = other_lines v.proc.input;
          } in
      let (s, sent_it, w) =
        transmit_healthy K e fd S H (offer_packet e meta) asked
          (omega (arith, length-serialize_metadata e meta, o.name)) in
      let run = ap (λ d. transmit K e d (offer_packet e meta) asked) same ∙ sent_it in
      (
        record v {
          proc = record asked { sys = s; active_file_neg_req = true };
          outgoing = offered_request path bytes;
        },
        rw (o.chosen, o.there, o.agreed, run) refl,
        refl,
        refl,
        w,
      )

  client_hears_offer :
      (w : Client K.State) (meta : FileMetadata) (rest : List ℕ)
      → Client.Receiving.IsListening fd w
      → w.proc.active_file_neg_req ≡ false
      → meta.file_size < 2 ^ 64
      → length meta.file_name < 2 ^ 30
      → S.pending w.proc.sys ≡ (serialize_packet e (offer_packet e meta)).0 ++ rest
      → (w' : Client K.State) × (Client.recv_thread K e 1 w ≡ ok (go_on, w'))
        × (w'.incoming ≡ record w.incoming { active = true; metadata = meta })
        × (S.pending w'.proc.sys ≡ rest)
  unfolding Client.handle_packet
  client_hears_offer w meta rest l quiet size name h =
      let read = deserialize-serialize_metadata e meta size (omega arith) in
      let shown = λ (s : K.State).
        Client.notify (Notice.incoming_request meta) (record (Client.with_sys K s w) {
          incoming = record w.incoming { active = true; metadata = meta };
        }) in
      let (s, run, left) =
        Client.Receiving.recv_thread-packet K e fd S H e (offer_packet e meta) rest 0 w shown
          l.connection l.up (omega (arith, length-serialize_metadata e meta)) h
          (λ s. simp (quiet, read)) in
      (shown s, run ∙ (unfold Client.recv_thread in refl), refl, left)

  client_offer :
      (v : Client K.State) (path bytes : List ℕ)
      → v.sockfd ≡ fd
      → IsOffering path bytes v.proc
      → (v' : Client K.State) × (Client.Input.file_prompt_command K e v ≡ ok v')
        × (v'.proc.active_file_neg_req ≡ true)
        × (v'.outgoing ≡ offered_request path bytes)
        × (S.written v'.proc.sys
            ≡ S.written v.proc.sys
              ++ (serialize_packet e (offer_packet e (metadata_of path bytes))).0)
  unfolding Client.Input.file_prompt_command create_file_metadata negotiate_receiver
  client_offer v path bytes same o =
      let meta = metadata_of path bytes in
      let asked =
        record (say (Notice.ask_send meta)
          (record v.proc { dialogs = other_answers v.proc.dialogs; file_transfer_mode = true })) {
            input = other_lines v.proc.input;
          } in
      let (s, sent_it, w) =
        transmit_healthy K e fd S H (offer_packet e meta) asked
          (omega (arith, length-serialize_metadata e meta, o.name)) in
      let run = ap (λ d. transmit K e d (offer_packet e meta) asked) same ∙ sent_it in
      (
        record v {
          proc = record asked { sys = s; active_file_neg_req = true };
          outgoing = offered_request path bytes;
        },
        rw (o.chosen, o.there, o.agreed, run) refl,
        refl,
        refl,
        w,
      )

  server_hears_offer :
      (w : Server K.State) (meta : FileMetadata) (rest : List ℕ)
      → w.communication_socket_fd ≡ fd
      → w.server_connected ≡ true
      → w.proc.active_file_neg_req ≡ false
      → meta.file_size < 2 ^ 64
      → length meta.file_name < 2 ^ 30
      → S.pending w.proc.sys ≡ (serialize_packet e (offer_packet e meta)).0 ++ rest
      → (w' : Server K.State) × (Server.recv_thread K e 1 w ≡ ok (go_on, w'))
        × (w'.incoming ≡ record w.incoming { active = true; metadata = meta })
        × (S.pending w'.proc.sys ≡ rest)
  unfolding Server.handle_packet
  server_hears_offer w meta rest conn up quiet size name h =
      let read = deserialize-serialize_metadata e meta size (omega arith) in
      let shown = λ (s : K.State). Server.notify (Notice.incoming_request meta) (record w {
        proc = record w.proc { sys = s };
        incoming = record w.incoming { active = true; metadata = meta };
      }) in
      let (s, run, left) =
        Server.Receiving.recv_thread-packet K e fd S H e (offer_packet e meta) rest 0 w shown conn
          up (omega (arith, length-serialize_metadata e meta)) h (λ s. simp (quiet, read)) in
      (shown s, run ∙ (unfold Server.recv_thread in refl), refl, left)

module _ (KS : Kernel) (fs : ℤ) (SS : IsStream KS fs) (HS : IsHealthy KS fs SS) (KC : Kernel)
    (fc : ℤ) (SC : IsStream KC fc) (HC : IsHealthy KC fc SC) where
  -- Over two healthy connections of hosts with one byte order: if the server's user selects a
  -- regular file of less than 2^64 bytes, whose name has less than 2^30, and agrees to send it,
  -- then `/f` ends, opens a negotiation, notes path and metadata as the outgoing request, and
  -- writes one packet; if just that packet, with any rest behind it, is what the stream of a
  -- client holds whose thread is up and which has no negotiation of its own open, then one round
  -- of the client's thread makes the file's size and name its active request, keeps the rest of
  -- that request, and leaves the rest of the stream.
  pub server_offers_client :
      (e : ByteOrder) (v : Server KS.State) (w : Client KC.State) (path bytes rest : List ℕ)
      → v.communication_socket_fd ≡ fs
      → IsOffering path bytes v.proc
      → Client.Receiving.IsListening fc w
      → w.proc.active_file_neg_req ≡ false
      → SC.pending w.proc.sys
        ≡ (serialize_packet e (offer_packet e (metadata_of path bytes))).0 ++ rest
      → (v' : Server KS.State) × (w' : Client KC.State) × (Server.Input.file_prompt_command KS e v
          ≡ ok v')
        × (v'.proc.active_file_neg_req ≡ true)
        × (v'.outgoing ≡ offered_request path bytes)
        × (SS.written v'.proc.sys
            ≡ SS.written v.proc.sys
              ++ (serialize_packet e (offer_packet e (metadata_of path bytes))).0)
        × (Client.recv_thread KC e 1 w ≡ ok (go_on, w'))
        × (w'.incoming ≡ record w.incoming { active = true; metadata = metadata_of path bytes })
        × (SC.pending w'.proc.sys ≡ rest)
  server_offers_client e v w path bytes rest same o l quiet h =
      let (v', run, asks, request, out) = server_offer KS e fs SS HS v path bytes same o in
      let (w', heard, pending, left) =
        client_hears_offer KC e fc SC HC w (metadata_of path bytes) rest l quiet o.size o.name h in
      (v', w', run, asks, request, out, heard, pending, left)

  -- In the other direction: if the client's user selects a regular file of less than 2^64 bytes,
  -- whose name has less than 2^30, and agrees to send it, then `/f` ends, opens a negotiation,
  -- notes path and metadata as the outgoing request, and writes one packet; if just that packet,
  -- with any rest behind it, is what the stream of a server holds, of the same byte order, whose
  -- thread is up and which has no negotiation of its own open, then one round of the server's
  -- thread makes the file's size and name its active request, keeps the rest of that request, and
  -- leaves the rest of the stream. Both connections are healthy.
  pub client_offers_server :
      (e : ByteOrder) (v : Client KC.State) (w : Server KS.State) (path bytes rest : List ℕ)
      → v.sockfd ≡ fc
      → IsOffering path bytes v.proc
      → w.communication_socket_fd ≡ fs
      → w.server_connected ≡ true
      → w.proc.active_file_neg_req ≡ false
      → SS.pending w.proc.sys
        ≡ (serialize_packet e (offer_packet e (metadata_of path bytes))).0 ++ rest
      → (v' : Client KC.State) × (w' : Server KS.State) × (Client.Input.file_prompt_command KC e v
          ≡ ok v')
        × (v'.proc.active_file_neg_req ≡ true)
        × (v'.outgoing ≡ offered_request path bytes)
        × (SC.written v'.proc.sys
            ≡ SC.written v.proc.sys
              ++ (serialize_packet e (offer_packet e (metadata_of path bytes))).0)
        × (Server.recv_thread KS e 1 w ≡ ok (go_on, w'))
        × (w'.incoming ≡ record w.incoming { active = true; metadata = metadata_of path bytes })
        × (SS.pending w'.proc.sys ≡ rest)
  client_offers_server e v w path bytes rest same o conn up quiet h =
      let (v', run, asks, request, out) = client_offer KC e fc SC HC v path bytes same o in
      let (w', heard, pending, left) =
        server_hears_offer KS e fs SS HS w (metadata_of path bytes) rest conn up quiet o.size o.name
          h in
      (v', w', run, asks, request, out, heard, pending, left)
