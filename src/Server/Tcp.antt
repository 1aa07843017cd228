-- ===== src/Server/Tcp.antt =====
-- `handle_packet` of src/server/tcp.rs. Its arguments `session` and `out_rx` are moved in, so what it
-- does not return goes out of scope at its end, on an error as well.
pub mod Answers
pub mod Handled
pub mod Invariant
pub mod Loop
mod Tests
use opencode_rustquitto.Base.{ℕ, Bool, Option, none, some}
use opencode_rustquitto.Error.{Result, ok, err, BrokerError, protocol, server_received}
use opencode_rustquitto.Extern.Channel.{Mpsc}
use opencode_rustquitto.Extern.DashMap.{DashMap}
use opencode_rustquitto.Protocol.PacketType
use opencode_rustquitto.Protocol.PacketType.{PacketType}
use opencode_rustquitto.Protocol.Types.{Packet}
use opencode_rustquitto.Broker.Handlers.{
  Address, Broker, reply, handle_disconnect, handle_puback, handle_pubrec, handle_pubrel,
  handle_pubcomp,
}
use opencode_rustquitto.Server.Connection.{
  Connection, World, unconnected, keep_alive_of, drop_rx, on_broker, with_session, answer_publish,
  answer_subscribe, answer_unsubscribe, connect_session,
}

module _ (M : Mpsc) (D : DashMap Address) (locked : Bool) (without_receiver : M.Sender) where
  -- `Ok((session, out_rx, keep_alive))`, where the broker was changed by `f`.
  abbrev pub keep_connection :
      (Broker M D → Broker M D) → Connection M → World M D → Result (Connection M × ℕ) × World M D
  keep_connection f conn w =
      let b = f w.broker in (ok (conn, keep_alive_of b.heap conn.session), record w { broker = b })

  abbrev refuse : PacketType → Connection M → World M D → Result (Connection M × ℕ) × World M D
  refuse kind conn w = (err (protocol (server_received kind)), drop_rx M D conn.out_rx w)

  unfoldable pub handle_packet :
      Connection M → Packet → World M D → Result (Connection M × ℕ) × World M D
  handle_packet conn (Packet.connect connect) w =
      let (rx, w₁) = connect_session M D locked without_receiver connect w in
      (
        ok (record { session = some w.next_address; out_rx = some rx }, connect.keep_alive),
        drop_rx M D conn.out_rx w₁,
      )
  handle_packet conn (Packet.connack p) w = refuse PacketType.connack conn w
  handle_packet conn (Packet.publish publish) w =
      keep_connection (answer_publish M D locked without_receiver publish.qos conn.session publish)
        conn w
  handle_packet conn (Packet.puback pid) w =
      keep_connection (with_session M D (λ s b. handle_puback M D s pid b) conn.session) conn w
  handle_packet conn (Packet.pubrec pid) w =
      keep_connection
        (with_session M D (λ s b. handle_pubrec M D locked without_receiver s pid b) conn.session)
        conn w
  handle_packet conn (Packet.pubrel pid) w =
      keep_connection
        (with_session M D (λ s b. handle_pubrel M D locked without_receiver s pid b) conn.session)
        conn w
  handle_packet conn (Packet.pubcomp pid) w =
      keep_connection (with_session M D (λ s b. handle_pubcomp M D s pid b) conn.session) conn w
  handle_packet conn (Packet.subscribe sub) w =
      keep_connection
        (with_session M D (answer_subscribe M D locked without_receiver sub) conn.session) conn w
  handle_packet conn (Packet.suback p) w = refuse PacketType.suback conn w
  handle_packet conn (Packet.unsubscribe unsub) w =
      keep_connection
        (with_session M D (answer_unsubscribe M D locked without_receiver unsub) conn.session) conn
        w
  handle_packet conn (Packet.unsuback pid) w = refuse PacketType.unsuback conn w
  handle_packet conn Packet.pingreq w =
      keep_connection
        (with_session M D (λ s b. reply M D locked without_receiver s Packet.pingresp b)
          conn.session)
        conn w
  handle_packet conn Packet.pingresp w = refuse PacketType.pingresp conn w
  handle_packet conn Packet.disconnect w = (
    ok (unconnected, 0),
    drop_rx M D conn.out_rx
        (on_broker M D (with_session M D (λ s b. handle_disconnect M D s b) conn.session) w),
  )
