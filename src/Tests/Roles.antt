-- ===== src/Tests/Roles.antt =====
-- The two handlers, the wire format and the transport at concrete inputs.
use wire_send.Common.{◌≡◌, inl, refl, [], true, false, pos}
use wire_send.Common.Outcome.{ok}
use wire_send.Wire.{Packet, value, file_neg, file_accept}
use wire_send.Wire.Memory.{little, big}
use wire_send.Wire.Interface.{IsFraming, codec, frame_reader, codec-IsFraming}
use wire_send.Net.Sockets.{bound}
use wire_send.Api.{IsTransport, api, api-IsTransport}
use wire_send.Transfer.{packet_of}
use wire_send.Server
use wire_send.Server.Talk.{server_talk}
use wire_send.Client
use wire_send.Client.Talk.{client_talk}
use wire_send.Exchange.Roles.{handle_packet_agree}
use wire_send.Tests.Pipe.{Pipe, pipe, stream}
use wire_send.Tests.World.{sockets, interfaces, server, client, result}

abbrev accepted : Packet
accepted = packet_of (value file_neg) [] (value file_accept)

abbrev asking_server : Server.Server Pipe
asking_server = record (Server.set_neg true (server [])) { file_send_in_progress = false }

abbrev asking_client : Client.Client Pipe
asking_client = record (Client.set_neg true (client [])) { file_send_in_progress = false }

abbrev sending_server : Server.Server Pipe
sending_server = result asking_server (Server.handle_packet little accepted asking_server)

abbrev sending_client : Client.Client Pipe
sending_client = result asking_client (Client.handle_packet pipe little accepted asking_client)

server_takes : Server.handle_packet little accepted asking_server ≡ ok sending_server
unfolding Server.handle_packet
server_takes = refl

client_takes : Client.handle_packet pipe little accepted asking_client ≡ ok sending_client
unfolding Client.handle_packet
client_takes = refl

handle_packet_agree_example : server_talk sending_server ≡ client_talk sending_client
handle_packet_agree_example =
    handle_packet_agree pipe pipe little accepted asking_server sending_server asking_client
      sending_client server_takes client_takes refl (inl (λ h. cc))

codec-IsFraming_example : IsFraming (codec little) (codec big) (frame_reader big)
codec-IsFraming_example = codec-IsFraming little big

api-IsTransport_example :
    IsTransport pipe (api pipe (sockets interfaces bound (pos 4) true)) (pos 4) (stream (pos 4))
api-IsTransport_example =
    api-IsTransport pipe (sockets interfaces bound (pos 4) true) (pos 4) (stream (pos 4))
