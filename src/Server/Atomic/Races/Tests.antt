-- ===== src/Server/Atomic/Races/Tests.antt =====
-- The early acknowledgement, at the session of one client.
use opencode_rustquitto.Base.{◌≡◌, refl, false, none, some, [], ◌∷◌}
use opencode_rustquitto.Extern.Channel.{one_channel}
use opencode_rustquitto.Protocol.Qos.{at_least_once}
use opencode_rustquitto.Protocol.Types.{PacketId, PublishPacket}
use opencode_rustquitto.Server.Atomic.Safe.{interleave}
use opencode_rustquitto.Server.Atomic.Races.{acknowledged_send, in_flight, puback_race}
use opencode_rustquitto.Server.Samples.{name, sessions, somebody}

abbrev message : PublishPacket
message = record {
  dup = false;
  qos = at_least_once;
  retain = false;
  topic_name = name;
  packet_id = none;
  payload = 7 ∷ [];
}

abbrev id : PacketId
id = record { raw = 1 }

puback_race_example :
    let tasks = acknowledged_send one_channel sessions 0 message id in
    (in_flight one_channel sessions 0 id
        (interleave one_channel sessions (0 ∷ 0 ∷ 1 ∷ []) tasks somebody).1
      ≡ none)
    × (in_flight one_channel sessions 0 id
          (interleave one_channel sessions (0 ∷ 1 ∷ 0 ∷ []) tasks somebody).1
        ≡ some (record { packet = record message { packet_id = some id } }))
unfolding opencode_rustquitto.Server.Connection.connect_session
    opencode_rustquitto.Broker.Handlers.reply opencode_rustquitto.Broker.Handlers.register_session
puback_race_example = puback_race one_channel sessions 0 message id somebody refl refl
