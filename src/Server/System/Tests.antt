-- ===== src/Server/System/Tests.antt =====
-- The theorems on the connections of src/server/ws.rs, and on the program, at one client.
use opencode_rustquitto.Base.{◌≡◌, refl, ap, true, false, [], ◌++◌, Bytes}
use opencode_rustquitto.Error.{Result, ok, ◌>>=◌}
use opencode_rustquitto.Extern.Buffer.{list_buffer}
use opencode_rustquitto.Protocol.PacketType
use opencode_rustquitto.Protocol.Wire.{frame}
use opencode_rustquitto.Extern.Channel.{one_channel}
use opencode_rustquitto.Protocol.Types.{Packet}
use opencode_rustquitto.Protocol.Wire.{connect_body}
use opencode_rustquitto.Protocol.RoundTrip.Connect.{decode-connect_frame}
use opencode_rustquitto.Server.Connection.{drop_rx, close_connection}
use opencode_rustquitto.Server.Connection.Closing.{Forgets}
use opencode_rustquitto.Server.Tcp.{handle_packet}
use opencode_rustquitto.Server.Ws.{handle_ws_packet}
use opencode_rustquitto.Server.Ws.Agree.{without_keep_alive, handle_ws_packet_lem}
use opencode_rustquitto.Server.Ws.Closing.{ws_step_closed}
use opencode_rustquitto.Server.Ws.Loop.{
  Message, binary, close, message, WsLocal, closed, on_decoded, ws_step,
}
use opencode_rustquitto.Server.Ws.Loop as Web
use opencode_rustquitto.Server.System.{
  System, idle, web, place, new_ws_local, IsInitial, Step, accept_ws, ws_runs, start, later,
}
use opencode_rustquitto.Server.System.Invariant.{IsSystem, Reach-IsSystem}
use opencode_rustquitto.Server.Samples.{
  login, login-IsConnect, sessions, unused, nobody, somebody, connected,
}

handle_ws_packet_lem_example :
    handle_ws_packet one_channel sessions false tt connected Packet.pingreq somebody ≡ (
      without_keep_alive
          (handle_packet one_channel sessions false tt connected Packet.pingreq somebody).0,
      (handle_packet one_channel sessions false tt connected Packet.pingreq somebody).1,
    )
handle_ws_packet_lem_example =
    handle_ws_packet_lem one_channel sessions false tt connected Packet.pingreq somebody

-- The client closes its WebSocket.
close_received :
    ws_step list_buffer one_channel sessions false tt
      (message close true)
      (record { conn = connected; sent = [] })
      somebody
    ≡ closed (close_connection one_channel sessions connected somebody)
unfolding ws_step
close_received = refl

ws_step_closed_example :
    Forgets one_channel sessions 0 somebody
      (close_connection one_channel sessions connected somebody)
ws_step_closed_example =
    ws_step_closed one_channel sessions false tt list_buffer (message close true) 0
      (record { conn = connected; sent = [] }) somebody
      (close_connection one_channel sessions connected somebody) refl close_received

-- A WebSocket connection is accepted, and its first message is a CONNECT.
abbrev empty_system : System one_channel sessions Bytes
empty_system = record { world = nobody; tasks = λ i. idle }

abbrev accepted_system : System one_channel sessions Bytes
accepted_system = record empty_system {
  tasks = place 0 (web (new_ws_local list_buffer one_channel sessions tt)) empty_system.tasks;
}

abbrev logged_in : WsLocal one_channel
logged_in = record { conn = connected; sent = [] }

abbrev login_message : Message
login_message = binary (frame PacketType.connect 0 (connect_body login) ++ [])

login_runs :
    ws_step list_buffer one_channel sessions false tt
      (message login_message true)
      (new_ws_local list_buffer one_channel sessions tt)
      nobody
    ≡ Web.running logged_in somebody
unfolding ws_step handle_ws_packet drop_rx opencode_rustquitto.Server.Ws.connect_session
    opencode_rustquitto.Server.Connection.connect_session opencode_rustquitto.Broker.Handlers.reply
login_runs =
    ap
      (λ (r : Result (Packet × Bytes)).
        on_decoded list_buffer one_channel sessions false tt (r >>= (λ t. ok t.0))
          (new_ws_local list_buffer one_channel sessions tt) nobody)
      (decode-connect_frame login [] login-IsConnect)

empty_system-IsInitial : IsInitial list_buffer one_channel sessions tt empty_system
empty_system-IsInitial = record { heap = unused; net = (true, []); world = refl; tasks = λ i. refl }

accepted : Step list_buffer one_channel sessions tt empty_system accepted_system
accepted = accept_ws 0 refl

login_step :
    Step list_buffer one_channel sessions tt accepted_system
      (record { world = somebody; tasks = place 0 (web logged_in) accepted_system.tasks })
unfolding place
login_step =
    ws_runs 0 false (message login_message true) (new_ws_local list_buffer one_channel sessions tt)
      logged_in somebody refl login_runs

Reach-IsSystem_example :
    IsSystem list_buffer one_channel sessions tt
      (record { world = somebody; tasks = place 0 (web logged_in) accepted_system.tasks })
Reach-IsSystem_example =
    Reach-IsSystem list_buffer one_channel sessions tt
      (record { world = somebody; tasks = place 0 (web logged_in) accepted_system.tasks })
      (later (later (start empty_system-IsInitial) accepted) login_step)
