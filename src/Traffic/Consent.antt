-- ===== src/Traffic/Consent.antt =====
-- The two programs over one connection, all four threads in any order: what the one handles is what
-- the other wrote, its user reads what was typed, and a file goes out only for a line that accepts it.
use wire_send.Common.{
  sym, ◌∙◌, ◌^◌, ◌≤◌, ◌<◌, ◌≡◌, refl, false, ap, List, [], ◌∷◌, ◌++◌, arith, length, ℤ, ℕ,
}
use mathlib.Core.List.{map}
use wire_send.Wire.{Packet}
use wire_send.Wire.Memory.{ByteOrder}
use wire_send.Net.{Kernel, IsStream}
use wire_send.Net.Reliable.{IsReliable}
use wire_send.Net.Frame.{as_read}
use wire_send.Threads.{Threads, Reach}
use wire_send.Negotiation.Runs.{files_sent, files_sent-acceptances_met}
use wire_send.Traffic.{accepts, messages, message_of}
use wire_send.Traffic.Peer.{lines_sent, accepts_given}
use wire_send.Traffic.Arriving.{packets_handled}
use wire_send.Traffic.Accepting.{acceptances_met-accepts}
use wire_send.Traffic.Delivery.{IsDelivered, delivered}
use wire_send.Traffic.ServerCalls.{server_accepts}
use wire_send.Traffic.ServerPeer.{
  ServerOn, connected_server, server_pending, server_written, server_program-IsPeer,
}
use wire_send.Traffic.Screen.{texts}
use wire_send.Traffic.ClientScreen.{client_shown, words, Reach-ClientShows}
use wire_send.Traffic.ServerScreen.{shown, Reach-Shows}
use wire_send.Traffic.ServerCalm.{server_program-IsPatient}
use wire_send.Traffic.ClientCalls.{client_accepts}
use wire_send.Traffic.ClientPeer.{
  ClientOn, connected_client, client_pending, client_written, client_program-IsPeer,
}
use wire_send.Traffic.ClientCalm.{client_program-IsPatient}
use wire_send.Server.{Server}
use wire_send.Server.Program.{server_program}
use wire_send.Server.Talk.{server_talk}
use wire_send.Client.{Client}
use wire_send.Client.Program.{client_program}
use wire_send.Client.Talk.{client_talk}

accepts-as_read : (ps : List Packet) → accepts (map as_read ps) ≡ accepts ps
accepts-as_read [] = refl
accepts-as_read (p ∷ ps) = omega (arith, accepts-as_read ps)

messages-as_read : (ps : List Packet) → messages (map as_read ps) ≡ messages ps
messages-as_read [] = refl
messages-as_read (p ∷ ps) = ap (◌++◌ (message_of p)) (messages-as_read ps)

module _ (KS : Kernel) (fs : ℤ) (SS : IsStream KS fs) (RS : IsReliable KS fs SS) (es : ByteOrder)
    (KC : Kernel) (fc : ℤ) (SC : IsStream KC fc) (RC : IsReliable KC fc SC) (ec : ByteOrder)
    (v : Server KS.State) (q : Threads (Server KS.State))
    (r : Reach (connected_server KS fs SS es) v q) (w : Client KC.State)
    (u : Threads (Client KC.State)) (l : Reach (connected_client KC fc SC ec) w u)
    (on_server : ServerOn KS fs SS v) (on_client : ClientOn KC fc SC w) where
  server_receives :
      client_written KC fc SC u.state ≡ client_written KC fc SC w ++ server_pending KS fs SS v
      → length (server_pending KS fs SS v) < 2 ^ 32
      → (h : IsDelivered ec
          (client_written KC fc SC w)
          (client_written KC fc SC u.state)
          (packets_handled (connected_server KS fs SS es) q r)
          q.recv
          (server_pending KS fs SS q.state))
        × (accepts h.got ≤ accepts_given (connected_client KC fc SC ec) client_accepts u l)
        × (lines_sent (connected_client KC fc SC ec) u l ≡ messages h.got ++ messages h.left)
  server_receives link few =
      delivered (server_program KS es) (client_program KC ec) (server_pending KS fs SS)
        (server_written KS fs SS) (client_pending KC fc SC) (client_written KC fc SC) es ec
        server_accepts client_accepts (ServerOn KS fs SS) (ClientOn KC fc SC)
        (server_program-IsPeer KS fs SS RS es) (client_program-IsPeer KC fc SC RC ec) v q r w u l
        on_server on_client link few

  -- For any run of the two threads of a server and any run of the two threads of a client, of
  -- hosts of any byte order, if each program's descriptor is that of its connection, both
  -- connections work until their program shuts them, the world outside leaves what they carry as
  -- it is, and what the client wrote in its run, fewer than 2^32 bytes, is what the server's
  -- stream held at the start of its own: what the client wrote is whole packets, and those that
  -- the server handled are a front of them, in their order, none twice and none left out, each as
  -- it was sent but for its length field, which is that of its body; and while its receiving
  -- thread is about to read, its stream holds just the packets behind them, so that none is left
  -- out once the stream is empty.
  pub server_handles :
      client_written KC fc SC u.state ≡ client_written KC fc SC w ++ server_pending KS fs SS v
      → length (server_pending KS fs SS v) < 2 ^ 32
      → IsDelivered ec
          (client_written KC fc SC w)
          (client_written KC fc SC u.state)
          (packets_handled (connected_server KS fs SS es) q r)
          q.recv
          (server_pending KS fs SS q.state)
  server_handles link few = (server_receives link few).0

  -- For any run of the two threads of a server that is not about to send a file and any run of
  -- the two threads of a client, of hosts of any byte order, if each program's descriptor is that
  -- of its connection, both connections work until their program shuts them, the world outside
  -- leaves what they carry as it is, and what the client wrote in its run, fewer than 2^32 bytes,
  -- is what the server's stream held at the start of its own: the server ends the sending of a
  -- file at most as often as the client's user accepted one, by the line `/a` while a request was
  -- active and with a path selected.
  pub server_files_sent :
      v.file_send_in_progress ≡ false
      → client_written KC fc SC u.state ≡ client_written KC fc SC w ++ server_pending KS fs SS v
      → length (server_pending KS fs SS v) < 2 ^ 32
      → files_sent (connected_server KS fs SS es) server_talk v q r
        ≤ accepts_given (connected_client KC fc SC ec) client_accepts u l
  server_files_sent still link few =
      let (h, agreed, told) = server_receives link few in
      let program = server_program KS es in
      let sent =
        files_sent-acceptances_met (connected_server KS fs SS es) server_talk v still q r in
      let begun =
        acceptances_met-accepts program (server_pending KS fs SS) (server_written KS fs SS)
          server_talk (server_program-IsPatient KS es) v q r in
      omega (arith, sent, begun, ap accepts h.handled_is, accepts-as_read h.got, agreed)

  client_receives :
      server_written KS fs SS q.state ≡ server_written KS fs SS v ++ client_pending KC fc SC w
      → length (client_pending KC fc SC w) < 2 ^ 32
      → (h : IsDelivered es
          (server_written KS fs SS v)
          (server_written KS fs SS q.state)
          (packets_handled (connected_client KC fc SC ec) u l)
          u.recv
          (client_pending KC fc SC u.state))
        × (accepts h.got ≤ accepts_given (connected_server KS fs SS es) server_accepts q r)
        × (lines_sent (connected_server KS fs SS es) q r ≡ messages h.got ++ messages h.left)
  client_receives link few =
      delivered (client_program KC ec) (server_program KS es) (client_pending KC fc SC)
        (client_written KC fc SC) (server_pending KS fs SS) (server_written KS fs SS) ec es
        client_accepts server_accepts (ClientOn KC fc SC) (ServerOn KS fs SS)
        (client_program-IsPeer KC fc SC RC ec) (server_program-IsPeer KS fs SS RS es) w u l v q r
        on_client on_server link few

  -- For any run of the two threads of a client and any run of the two threads of a server, of
  -- hosts of any byte order, if each program's descriptor is that of its connection, both
  -- connections work until their program shuts them, the world outside leaves what they carry as
  -- it is, and what the server wrote in its run, fewer than 2^32 bytes, is what the client's
  -- stream held at the start of its own: what the server wrote is whole packets, and those that
  -- the client handled are a front of them, in their order, none twice and none left out, each as
  -- it was sent but for its length field, which is that of its body; and while its receiving
  -- thread is about to read, its stream holds just the packets behind them, so that none is left
  -- out once the stream is empty.
  pub client_handles :
      server_written KS fs SS q.state ≡ server_written KS fs SS v ++ client_pending KC fc SC w
      → length (client_pending KC fc SC w) < 2 ^ 32
      → IsDelivered es
          (server_written KS fs SS v)
          (server_written KS fs SS q.state)
          (packets_handled (connected_client KC fc SC ec) u l)
          u.recv
          (client_pending KC fc SC u.state)
  client_handles link few = (client_receives link few).0

  -- For any run of the two threads of a client that is not about to send a file and any run of
  -- the two threads of a server, of hosts of any byte order, if each program's descriptor is that
  -- of its connection, both connections work until their program shuts them, the world outside
  -- leaves what they carry as it is, and what the server wrote in its run, fewer than 2^32 bytes,
  -- is what the client's stream held at the start of its own: the client ends the sending of a
  -- file at most as often as the server's user accepted one, by the line `/a` while a request was
  -- active and with a path selected.
  pub client_files_sent :
      w.file_send_in_progress ≡ false
      → server_written KS fs SS q.state ≡ server_written KS fs SS v ++ client_pending KC fc SC w
      → length (client_pending KC fc SC w) < 2 ^ 32
      → files_sent (connected_client KC fc SC ec) client_talk w u l
        ≤ accepts_given (connected_server KS fs SS es) server_accepts q r
  client_files_sent still link few =
      let (h, agreed, told) = client_receives link few in
      let program = client_program KC ec in
      let sent =
        files_sent-acceptances_met (connected_client KC fc SC ec) client_talk w still u l in
      let begun =
        acceptances_met-accepts program (client_pending KC fc SC) (client_written KC fc SC)
          client_talk (client_program-IsPatient KC ec) w u l in
      omega (arith, sent, begun, ap accepts h.handled_is, accepts-as_read h.got, agreed)

  -- The messages handled are a front of the lines sent.
  server_hears :
      client_written KC fc SC u.state ≡ client_written KC fc SC w ++ server_pending KS fs SS v
      → length (server_pending KS fs SS v) < 2 ^ 32
      → (rest : List (List ℕ)) × (lines_sent (connected_client KC fc SC ec) u l
          ≡ messages (packets_handled (connected_server KS fs SS es) q r) ++ rest)
  server_hears link few =
      let (h, agreed, told) = server_receives link few in
      (
        messages h.left,
        told
            ∙ ap (λ ls. ls ++ messages h.left)
                (sym (ap messages h.handled_is ∙ messages-as_read h.got)),
      )

  -- For any run of the two threads of a server and any run of the two threads of a client, of
  -- hosts of any byte order, if each program's descriptor is that of its connection, both
  -- connections work until their program shuts them, the world outside leaves what they carry as
  -- it is, and what the client wrote in its run, fewer than 2^32 bytes, is what the server's
  -- stream held at the start of its own: the server's screen shows as the peer's words, behind
  -- those that it showed at the start and in their order, a front of the lines that the client's
  -- input loop sent, each up to its first zero byte and each once, and no other words; the lines
  -- sent are those whose sending did not end the loop, and commands, files and answers may have
  -- gone out between them.
  pub server_shows :
      client_written KC fc SC u.state ≡ client_written KC fc SC w ++ server_pending KS fs SS v
      → length (server_pending KS fs SS v) < 2 ^ 32
      → (got : List (List ℕ)) × (rest : List (List ℕ)) × (lines_sent
            (connected_client KC fc SC ec)
            u
            l
          ≡ got ++ rest)
        × (shown q.state ≡ shown v ++ texts got)
  server_shows link few =
      let (rest, all) = server_hears link few in
      (
        messages (packets_handled (connected_server KS fs SS es) q r),
        rest,
        all,
        Reach-Shows KS es (server_pending KS fs SS) (server_written KS fs SS) v q r,
      )

  -- And those that the client handles.
  client_hears :
      server_written KS fs SS q.state ≡ server_written KS fs SS v ++ client_pending KC fc SC w
      → length (client_pending KC fc SC w) < 2 ^ 32
      → (rest : List (List ℕ)) × (lines_sent (connected_server KS fs SS es) q r
          ≡ messages (packets_handled (connected_client KC fc SC ec) u l) ++ rest)
  client_hears link few =
      let (h, agreed, told) = client_receives link few in
      (
        messages h.left,
        told
            ∙ ap (λ ls. ls ++ messages h.left)
                (sym (ap messages h.handled_is ∙ messages-as_read h.got)),
      )

  -- For any run of the two threads of a client and any run of the two threads of a server, of
  -- hosts of any byte order, if each program's descriptor is that of its connection, both
  -- connections work until their program shuts them, the world outside leaves what they carry as
  -- it is, and what the server wrote in its run, fewer than 2^32 bytes, is what the client's
  -- stream held at the start of its own: the client's screen shows as the peer's words, behind
  -- those that it showed at the start, the texts of the messages and of the broadcasts that it
  -- handled, each up to its first zero byte, in their order and no others; and the texts of those
  -- messages are, byte for byte, a front of the lines that the server's input loop sent, which
  -- are those whose sending did not end the loop.
  pub client_shows :
      server_written KS fs SS q.state ≡ server_written KS fs SS v ++ client_pending KC fc SC w
      → length (client_pending KC fc SC w) < 2 ^ 32
      → (rest : List (List ℕ)) × (lines_sent (connected_server KS fs SS es) q r
          ≡ messages (packets_handled (connected_client KC fc SC ec) u l) ++ rest)
        × (client_shown u.state
            ≡ client_shown w ++ texts (words (packets_handled (connected_client KC fc SC ec) u l)))
  client_shows link few =
      let (rest, all) = client_hears link few in
      (rest, all, Reach-ClientShows KC ec (client_pending KC fc SC) (client_written KC fc SC) w u l)
