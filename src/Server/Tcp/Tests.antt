-- ===== src/Server/Tcp/Tests.antt =====
-- The theorems on the connections of src/server/tcp.rs at one client.
use opencode_rustquitto.Base.{ℕ, ◌≡◌, ◌≢◌, refl, true, false, some, none, [], ◌∷◌}
use opencode_rustquitto.Error.{Result, ok, err, BrokerError, io, stuck}
use opencode_rustquitto.Extern.Buffer.{list_buffer}
use opencode_rustquitto.Extern.Channel.{one_channel}
use opencode_rustquitto.Protocol.Types.{Packet, ConnackReturnCode, be_bytes}
use opencode_rustquitto.Protocol.Encode
use opencode_rustquitto.Protocol.Encode.{encode, encode_remaining_length}
use opencode_rustquitto.Broker.Handlers.{get_session}
use opencode_rustquitto.Server.Connection.{World, drop_rx}
use opencode_rustquitto.Server.Connection.Closing.{Forgets, SameBut}
use opencode_rustquitto.Server.Tcp.{handle_packet}
use opencode_rustquitto.Server.Tcp.Answers.{handle_packet_connect}
use opencode_rustquitto.Server.Tcp.Loop.Failing.{FailsBy}
use opencode_rustquitto.Server.Tcp.Loop.{
  received, read_failed, running, returned, serve_loop, serve, connection_step,
}
use opencode_rustquitto.Server.Tcp.Loop.Chunks.{status_view, received_in_portions}
use opencode_rustquitto.Server.Tcp.Loop.Ends.{connection_step-ne-stuck}
use opencode_rustquitto.Server.Tcp.Loop.Closing.{connection_step_returned}
use opencode_rustquitto.Server.Tcp.Loop.Drains.{turns, Encodes, turns-Encodes}
use opencode_rustquitto.Server.Extract.{extract_packet}
use opencode_rustquitto.Server.Samples.{name, login, sessions, nobody, somebody, local}

handle_packet_connect_example :
    let result =
      handle_packet one_channel sessions false tt
        (record { session = none; out_rx = none })
        (Packet.connect login)
        nobody in
    let b = result.1.broker in
    let s = b.heap 0 in
    (rx : Unit {0}) × (result.0 ≡ ok (record { session = some 0; out_rx = some rx }, 60))
    × (get_session one_channel sessions b name ≡ some 0)
    × (s.client_id ≡ name)
    × (s.clean_session ≡ true)
    × (s.keep_alive ≡ 60)
    × (◌≡◌ {A = ℕ} 0 0)
    × (b.net.0 ≡ true)
    × (b.net.1
        ≡ Packet.connack
            (record { session_present = false; return_code = ConnackReturnCode.accepted })
          ∷ [])
handle_packet_connect_example = handle_packet_connect one_channel sessions tt login nobody

-- A PINGREQ whose two bytes arrive one by one.
half_waits :
    connection_step list_buffer one_channel sessions false tt
      (received (0xc0 ∷ []))
      (local [])
      somebody
    ≡ running (local (0xc0 ∷ [])) somebody
unfolding connection_step serve serve_loop extract_packet
half_waits = refl

received_in_portions_example :
    status_view list_buffer (
      connection_step list_buffer one_channel sessions false tt
        (received (0x00 ∷ []))
        (local (0xc0 ∷ []))
        somebody)
    ≡ status_view list_buffer (
        connection_step list_buffer one_channel sessions false tt
          (received (0xc0 ∷ 0x00 ∷ []))
          (local [])
          somebody)
received_in_portions_example =
    received_in_portions list_buffer one_channel sessions false tt 0xc0 0x00 [] [] (local [])
      (local (0xc0 ∷ [])) somebody somebody half_waits

connection_step-ne-stuck_example :
    connection_step list_buffer one_channel sessions false tt
      (received (0xc0 ∷ 0x00 ∷ []))
      (local [])
      somebody
    ≢ returned (err stuck) somebody
connection_step-ne-stuck_example =
    connection_step-ne-stuck list_buffer one_channel sessions false tt (received (0xc0 ∷ 0x00 ∷ []))
      (local []) somebody somebody

read_error :
    connection_step list_buffer one_channel sessions false tt (read_failed 5) (local []) somebody
    ≡ returned (err (io 5)) (drop_rx one_channel sessions (some tt) somebody)
unfolding connection_step
read_error = refl

connection_step_returned_example :
    (◌≡◌ {A = Result (Unit {0})} (err (io 5)) (ok tt)
      → (read_failed 5 ≡ received [])
        × Forgets one_channel sessions 0 somebody (drop_rx one_channel sessions (some tt) somebody))
    × ((e : BrokerError)
        → ◌≡◌ {A = Result (Unit {0})} (err (io 5)) (err e)
        → FailsBy list_buffer one_channel sessions false tt
            (read_failed 5)
            (local [])
            somebody
            e
            (drop_rx one_channel sessions (some tt) somebody))
connection_step_returned_example =
    connection_step_returned one_channel sessions false tt list_buffer (read_failed 5) 0 (local [])
      somebody (drop_rx one_channel sessions (some tt) somebody) (err (io 5)) refl read_error

-- Two answers wait in the channel.
abbrev answered : World one_channel sessions
answered = record nobody {
  broker = record nobody.broker {
    net = (true, Packet.pingresp ∷ Packet.puback (record { raw = 7 }) ∷ []);
  };
}

two_answers :
    Encodes list_buffer one_channel sessions false tt
      (Packet.pingresp ∷ Packet.puback (record { raw = 7 }) ∷ [])
      ((0xd0 ∷ 0x00 ∷ []) ∷ (0x40 ∷ 0x02 ∷ 0x00 ∷ 0x07 ∷ []) ∷ [])
unfolding encode Encode.pingresp Encode.puback Encode.simple_packet_with_id
    Encode.simple_packet_with_flags Encode.write_fixed_header encode_remaining_length be_bytes
two_answers = (_, refl, refl, (_, refl, refl, tt))

turns-Encodes_example :
    (v : World one_channel sessions) × (turns list_buffer one_channel sessions false tt 2
        (local [])
        answered
      ≡ running
          (record (local []) {
            written = (0xd0 ∷ 0x00 ∷ []) ∷ (0x40 ∷ 0x02 ∷ 0x00 ∷ 0x07 ∷ []) ∷ [];
          })
          v)
    × (v.broker.net.1 ≡ [])
    × SameBut one_channel sessions answered v
turns-Encodes_example =
    turns-Encodes list_buffer one_channel sessions false tt tt tt
      (Packet.pingresp ∷ Packet.puback (record { raw = 7 }) ∷ [])
      ((0xd0 ∷ 0x00 ∷ []) ∷ (0x40 ∷ 0x02 ∷ 0x00 ∷ 0x07 ∷ []) ∷ []) (local []) answered refl refl
      refl two_answers
