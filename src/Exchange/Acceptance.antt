-- ===== src/Exchange/Acceptance.antt =====
-- The acceptance of an offered file.
use wire_send.Common.{ℕ, ◌≡◌, refl, ap, ◌∙◌, List, ◌++◌, true, false, some, ℤ, arith}
use wire_send.Common.Outcome.{ok}
use wire_send.Wire.{Packet, value, file_neg, file_accept, serialize_packet}
use wire_send.Wire.Memory.{ByteOrder}
use wire_send.Net.{Kernel, IsStream, IsHealthy}
use wire_send.Process.{Notice, say, go_on, first_answer, other_answers}
use wire_send.Transfer.{packet_of, transmit, answer_sender, accept_text}
use wire_send.Transfer.Sending.{transmit_healthy}
use wire_send.Server.{Server}
use wire_send.Server
use wire_send.Client.{Client}
use wire_send.Client

abbrev pub accept_packet : Packet
accept_packet = packet_of (value file_neg) accept_text (value file_accept)

module _ (K : Kernel) (e : ByteOrder) (fd : ℤ) (S : IsStream K fd) (H : IsHealthy K fd S) where
  client_accepts :
      (v : Client K.State) (path : List ℕ)
      → v.sockfd ≡ fd
      → v.incoming.active ≡ true
      → first_answer v.proc.dialogs ≡ some path
      → ((Client.Input.accept_command K e v).incoming
          ≡ record v.incoming { file_path_on_target = path })
        × (S.written (Client.Input.accept_command K e v).proc.sys
            ≡ S.written v.proc.sys ++ (serialize_packet e accept_packet).0)
  unfolding Client.Input.accept_command answer_sender
  client_accepts v path same active chosen =
      let p =
        say (Notice.saving_to path) (record v.proc { dialogs = other_answers v.proc.dialogs }) in
      let (s, sent_it, w) = transmit_healthy K e fd S H accept_packet p (omega arith) in
      let run = ap (λ d. transmit K e d accept_packet p) same ∙ sent_it in
      (rw (active, chosen) refl, rw (active, chosen, run) w)

  server_hears_accept :
      (sender : ByteOrder) (w : Server K.State) (rest : List ℕ)
      → w.communication_socket_fd ≡ fd
      → w.server_connected ≡ true
      → w.proc.active_file_neg_req ≡ true
      → S.pending w.proc.sys ≡ (serialize_packet sender accept_packet).0 ++ rest
      → (w' : Server K.State) × (Server.recv_thread K e 1 w ≡ ok (go_on, w'))
        × (w'.file_send_in_progress ≡ true)
        × (w'.proc.active_file_neg_req ≡ false)
        × (w'.outgoing ≡ w.outgoing)
        × (S.pending w'.proc.sys ≡ rest)
  unfolding Server.handle_packet
  server_hears_accept sender w rest conn up asked h =
      let told = λ (s : K.State). Server.notify Notice.peer_accepted (record w {
        proc = record w.proc { sys = s; active_file_neg_req = false };
        file_send_in_progress = true;
      }) in
      let (s, run, left) =
        Server.Receiving.recv_thread-packet K e fd S H sender accept_packet rest 0 w told conn up
          (omega arith) h (λ s. simp asked) in
      (told s, run ∙ (unfold Server.recv_thread in refl), refl, refl, refl, left)

  server_accepts :
      (v : Server K.State) (path : List ℕ)
      → v.communication_socket_fd ≡ fd
      → v.incoming.active ≡ true
      → first_answer v.proc.dialogs ≡ some path
      → ((Server.Input.accept_command K e v).incoming
          ≡ record v.incoming { file_path_on_target = path })
        × (S.written (Server.Input.accept_command K e v).proc.sys
            ≡ S.written v.proc.sys ++ (serialize_packet e accept_packet).0)
  unfolding Server.Input.accept_command answer_sender
  server_accepts v path same active chosen =
      let p =
        say (Notice.saving_to path) (record v.proc { dialogs = other_answers v.proc.dialogs }) in
      let (s, sent_it, w) = transmit_healthy K e fd S H accept_packet p (omega arith) in
      let run = ap (λ d. transmit K e d accept_packet p) same ∙ sent_it in
      (rw (active, chosen) refl, rw (active, chosen, run) w)

  client_hears_accept :
      (sender : ByteOrder) (w : Client K.State) (rest : List ℕ)
      → w.sockfd ≡ fd
      → w.client_connected ≡ true
      → w.proc.active_file_neg_req ≡ true
      → S.pending w.proc.sys ≡ (serialize_packet sender accept_packet).0 ++ rest
      → (w' : Client K.State) × (Client.recv_thread K e 1 w ≡ ok (go_on, w'))
        × (w'.file_send_in_progress ≡ true)
        × (w'.proc.active_file_neg_req ≡ false)
        × (w'.outgoing ≡ w.outgoing)
        × (S.pending w'.proc.sys ≡ rest)
  unfolding Client.handle_packet
  client_hears_accept sender w rest conn up asked h =
      let told = λ (s : K.State). Client.notify Notice.peer_accepted (record w {
        proc = record w.proc { sys = s; active_file_neg_req = false };
        file_send_in_progress = true;
      }) in
      let (s, run, left) =
        Client.Receiving.recv_thread-packet K e fd S H sender accept_packet rest 0 w told conn up
          (omega arith) h (λ s. simp asked) in
      (told s, run ∙ (unfold Client.recv_thread in refl), refl, refl, refl, left)

module _ (KS : Kernel) (fs : ℤ) (SS : IsStream KS fs) (HS : IsHealthy KS fs SS) (KC : Kernel)
    (fc : ℤ) (SC : IsStream KC fc) (HC : IsHealthy KC fc SC) where
  -- Over two healthy connections: if the client has an active request and its user selects a
  -- path, `/a` makes that the path of the request and writes one packet; if just that packet,
  -- with any rest behind it, is what the stream of a server holds whose thread is up and which
  -- has a negotiation open, then one round of the server's thread closes the negotiation, sets
  -- the flag that the file is to be sent, keeps the outgoing request, and leaves the rest of the
  -- stream.
  pub client_accepts_server :
      (ec es : ByteOrder) (v : Client KC.State) (w : Server KS.State) (path rest : List ℕ)
      → v.sockfd ≡ fc
      → v.incoming.active ≡ true
      → first_answer v.proc.dialogs ≡ some path
      → w.communication_socket_fd ≡ fs
      → w.server_connected ≡ true
      → w.proc.active_file_neg_req ≡ true
      → SS.pending w.proc.sys ≡ (serialize_packet ec accept_packet).0 ++ rest
      → ((Client.Input.accept_command KC ec v).incoming
          ≡ record v.incoming { file_path_on_target = path })
        × (SC.written (Client.Input.accept_command KC ec v).proc.sys
            ≡ SC.written v.proc.sys ++ (serialize_packet ec accept_packet).0)
        × (w' : Server KS.State) × (Server.recv_thread KS es 1 w ≡ ok (go_on, w'))
        × (w'.file_send_in_progress ≡ true)
        × (w'.proc.active_file_neg_req ≡ false)
        × (w'.outgoing ≡ w.outgoing)
        × (SS.pending w'.proc.sys ≡ rest)
  client_accepts_server ec es v w path rest same active chosen conn up asked h =
      let (target, out) = client_accepts KC ec fc SC HC v path same active chosen in
      let (w', run, sends, answered, request, left) =
        server_hears_accept KS es fs SS HS ec w rest conn up asked h in
      (target, out, w', run, sends, answered, request, left)

  -- Over two healthy connections: if the server has an active request and its user selects a
  -- path, `/a` makes that the path of the request and writes one packet; if just that packet,
  -- with any rest behind it, is what the stream of a client holds whose thread is up and which
  -- has a negotiation open, then one round of the client's thread closes the negotiation, sets
  -- the flag that the file is to be sent, keeps the outgoing request, and leaves the rest of the
  -- stream.
  pub server_accepts_client :
      (es ec : ByteOrder) (v : Server KS.State) (w : Client KC.State) (path rest : List ℕ)
      → v.communication_socket_fd ≡ fs
      → v.incoming.active ≡ true
      → first_answer v.proc.dialogs ≡ some path
      → w.sockfd ≡ fc
      → w.client_connected ≡ true
      → w.proc.active_file_neg_req ≡ true
      → SC.pending w.proc.sys ≡ (serialize_packet es accept_packet).0 ++ rest
      → ((Server.Input.accept_command KS es v).incoming
          ≡ record v.incoming { file_path_on_target = path })
        × (SS.written (Server.Input.accept_command KS es v).proc.sys
            ≡ SS.written v.proc.sys ++ (serialize_packet es accept_packet).0)
        × (w' : Client KC.State) × (Client.recv_thread KC ec 1 w ≡ ok (go_on, w'))
        × (w'.file_send_in_progress ≡ true)
        × (w'.proc.active_file_neg_req ≡ false)
        × (w'.outgoing ≡ w.outgoing)
        × (SC.pending w'.proc.sys ≡ rest)
  server_accepts_client es ec v w path rest same active chosen conn up asked h =
      let (target, out) = server_accepts KS es fs SS HS v path same active chosen in
      let (w', run, sends, answered, request, left) =
        client_hears_accept KC ec fc SC HC es w rest conn up asked h in
      (target, out, w', run, sends, answered, request, left)
