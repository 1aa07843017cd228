-- ===== src/Server/Ws.antt =====
-- `handle_ws_packet` of src/server/ws.rs, the handler of a WebSocket connection.
pub mod Agree
pub mod Invariant
pub mod Closing
pub mod Loop
use opencode_rustquitto.Base.{ℕ, suc, Bool, Option, none, some}
use opencode_rustquitto.Error.{Result, ok, err, BrokerError, protocol, server_received}
use opencode_rustquitto.Extern.Channel.{Mpsc}
use opencode_rustquitto.Extern.DashMap.{DashMap}
use opencode_rustquitto.Protocol.PacketType
use opencode_rustquitto.Protocol.PacketType.{PacketType}
use opencode_rustquitto.Protocol.Qos.{at_most_once, at_least_once, exactly_once}
use opencode_rustquitto.Protocol.Types.{
  Packet, PacketId, ConnectPacket, PublishPacket, SubscribePacket, UnsubscribePacket,
}
use opencode_rustquitto.Broker.Session.{sender_of}
use opencode_rustquitto.Broker.Session
use opencode_rustquitto.Broker.Handlers.{
  Address, Broker, store, register_session, handle_connect, handle_publish, handle_subscribe,
  handle_unsubscribe, handle_disconnect, handle_puback, handle_pubrec, handle_pubrel,
  handle_pubcomp,
}
use opencode_rustquitto.Server.Connection.{
  Connection, World, unconnected, drop_rx, on_broker, with_session,
}

module _ (M : Mpsc) (D : DashMap Address) (locked : Bool) (without_receiver : M.Sender) where
  -- `let sender = sess.sender()`, and `let _ = sender.send(packet)`.
  abbrev pub send_to : Address → Packet → Broker M D → Broker M D
  send_to session packet b = record b {
    net = (M.send b.net (sender_of locked without_receiver (b.heap session)) packet).0;
  }

  -- The arm of CONNECT: the session, the answer, the registration and the greeting.
  unfoldable pub connect_session : ConnectPacket → World M D → (Address × M.Receiver) × World M D
  connect_session connect w =
      let ((tx, rx), net) = M.unbounded_channel w.broker.net in
      let new_session = w.next_address in
      let b₁ : Broker M D = record w.broker {
        heap =
            store new_session
              (Session.new tx connect.client_id connect.clean_session connect.keep_alive)
              w.broker.heap;
        net = net;
      } in
      let (return_code, session_present) = handle_connect M D new_session b₁ in
      let b₂ = register_session M D new_session b₁ in
      let b₃ =
        send_to new_session
          (Packet.connack (record { session_present = session_present; return_code = return_code }))
          b₂ in
      ((new_session, rx), record { broker = b₃; next_address = suc new_session })

  -- `if let (Some(sess), Some(pid)) = (session.as_ref(), publish.packet_id)`, in the arm of PUBLISH at
  -- QoS 1 and in the one at QoS 2.
  unfoldable pub acknowledge : Option Address → Option PacketId → Broker M D → Broker M D
  acknowledge (some sess) (some pid) b = send_to sess (Packet.puback pid) b
  acknowledge _ _ b = b

  unfoldable pub receive : Option Address → Option PacketId → Broker M D → Broker M D
  receive (some sess) (some pid) b = send_to sess (Packet.pubrec pid) b
  receive _ _ b = b

  -- The arm of PUBLISH.
  unfoldable pub answer_publish : Option Address → PublishPacket → Broker M D → Broker M D
  answer_publish session publish b =
      let b₁ = handle_publish M D publish b in
      elim publish.qos [
        | at_most_once ↦ b₁
        | at_least_once ↦ acknowledge session publish.packet_id b₁
        | exactly_once ↦ receive session publish.packet_id b₁
      ]

  -- The arms of SUBSCRIBE, UNSUBSCRIBE and PINGREQ.
  unfoldable pub answer_subscribe : SubscribePacket → Option Address → Broker M D → Broker M D
  answer_subscribe sub none b = b
  answer_subscribe sub (some sess) b =
      let (suback, b₁) = handle_subscribe M D locked without_receiver sess sub b in
      send_to sess (Packet.suback suback) b₁

  unfoldable pub answer_unsubscribe : UnsubscribePacket → Option Address → Broker M D → Broker M D
  answer_unsubscribe unsub none b = b
  answer_unsubscribe unsub (some sess) b =
      let b₁ = handle_unsubscribe M D sess unsub b in
      send_to sess (Packet.unsuback unsub.packet_id) b₁

  unfoldable pub answer_pingreq : Option Address → Broker M D → Broker M D
  answer_pingreq none b = b
  answer_pingreq (some sess) b = send_to sess Packet.pingresp b

  -- `Ok((session, out_rx))`, where the broker was changed by `f`.
  abbrev pub keep_connection :
      (Broker M D → Broker M D) → Connection M → World M D → Result (Connection M) × World M D
  keep_connection f conn w = (ok conn, on_broker M D f w)

  abbrev refuse : PacketType → Connection M → World M D → Result (Connection M) × World M D
  refuse kind conn w = (err (protocol (server_received kind)), drop_rx M D conn.out_rx w)

  unfoldable pub handle_ws_packet :
      Connection M → Packet → World M D → Result (Connection M) × World M D
  handle_ws_packet conn (Packet.connect connect) w =
      let ((new_session, rx), w₁) = connect_session connect w in
      (ok (record { session = some new_session; out_rx = some rx }), drop_rx M D conn.out_rx w₁)
  handle_ws_packet conn (Packet.connack p) w = refuse PacketType.connack conn w
  handle_ws_packet conn (Packet.publish publish) w =
      keep_connection (answer_publish conn.session publish) conn w
  handle_ws_packet conn (Packet.puback pid) w =
      keep_connection (with_session M D (λ s b. handle_puback M D s pid b) conn.session) conn w
  handle_ws_packet conn (Packet.pubrec pid) w =
      keep_connection
        (with_session M D (λ s b. handle_pubrec M D locked without_receiver s pid b) conn.session)
        conn w
  handle_ws_packet conn (Packet.pubrel pid) w =
      keep_connection
        (with_session M D (λ s b. handle_pubrel M D locked without_receiver s pid b) conn.session)
        conn w
  handle_ws_packet conn (Packet.pubcomp pid) w =
      keep_connection (with_session M D (λ s b. handle_pubcomp M D s pid b) conn.session) conn w
  handle_ws_packet conn (Packet.subscribe sub) w =
      keep_connection (answer_subscribe sub conn.session) conn w
  handle_ws_packet conn (Packet.suback p) w = refuse PacketType.suback conn w
  handle_ws_packet conn (Packet.unsubscribe unsub) w =
      keep_connection (answer_unsubscribe unsub conn.session) conn w
  handle_ws_packet conn (Packet.unsuback pid) w = refuse PacketType.unsuback conn w
  handle_ws_packet conn Packet.pingreq w = keep_connection (answer_pingreq conn.session) conn w
  handle_ws_packet conn Packet.pingresp w = refuse PacketType.pingresp conn w
  handle_ws_packet conn Packet.disconnect w = (
    ok unconnected,
    drop_rx M D conn.out_rx
        (on_broker M D (with_session M D (λ s b. handle_disconnect M D s b) conn.session) w),
  )
