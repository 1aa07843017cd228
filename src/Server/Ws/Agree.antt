-- ===== src/Server/Ws/Agree.antt =====
-- The handlers of a packet in src/server/tcp.rs and src/server/ws.rs do the same.
use opencode_rustquitto.Base.{ℕ, Bool, Option, none, some, ◌≡◌, refl, ap}
use opencode_rustquitto.Error.{Result, ok, err}
use opencode_rustquitto.Extern.Channel.{Mpsc}
use opencode_rustquitto.Extern.DashMap.{DashMap}
use opencode_rustquitto.Protocol.Types.{
  Packet, PacketId, PublishPacket, SubscribePacket, UnsubscribePacket,
}
use opencode_rustquitto.Protocol.Qos.{at_most_once, at_least_once, exactly_once}
use opencode_rustquitto.Broker.Handlers.{Address, Broker, reply, handle_publish}
use opencode_rustquitto.Server.Connection.{Connection, World, with_session}
use opencode_rustquitto.Server.Connection
use opencode_rustquitto.Server.Tcp
use opencode_rustquitto.Server.Ws
use opencode_rustquitto.Server.Tcp.{handle_packet}
use opencode_rustquitto.Server.Ws.{handle_ws_packet}

-- A result without the keep-alive.
abbrev pub without_keep_alive : {C : Type 0} → Result (C × ℕ) → Result C
without_keep_alive (ok (c, k)) = ok c
without_keep_alive (err e) = err e

module _ (M : Mpsc) (D : DashMap Address) (locked : Bool) (without_receiver : M.Sender) where
  acknowledge-eq :
      (o : Option Address) (id : Option PacketId) (b : Broker M D)
      → Ws.acknowledge M D locked without_receiver o id b
        ≡ Connection.reply_with_id M D locked without_receiver Packet.puback o id b
  unfolding Ws.acknowledge Connection.reply_with_id reply
  acknowledge-eq none id b = refl
  acknowledge-eq (some s) none b = refl
  acknowledge-eq (some s) (some i) b = refl

  receive-eq :
      (o : Option Address) (id : Option PacketId) (b : Broker M D)
      → Ws.receive M D locked without_receiver o id b
        ≡ Connection.reply_with_id M D locked without_receiver Packet.pubrec o id b
  unfolding Ws.receive Connection.reply_with_id reply
  receive-eq none id b = refl
  receive-eq (some s) none b = refl
  receive-eq (some s) (some i) b = refl

  answer_publish-eq :
      (o : Option Address) (p : PublishPacket) (b : Broker M D)
      → Ws.answer_publish M D locked without_receiver o p b
        ≡ Connection.answer_publish M D locked without_receiver p.qos o p b
  unfolding Ws.answer_publish Connection.answer_publish
  answer_publish-eq o p b =
      let b₁ = handle_publish M D p b in
      elim p.qos
        as (λ q.
          elim q [
            | at_most_once ↦ b₁
            | at_least_once ↦ Ws.acknowledge M D locked without_receiver o p.packet_id b₁
            | exactly_once ↦ Ws.receive M D locked without_receiver o p.packet_id b₁
          ]
          ≡ Connection.answer_publish M D locked without_receiver q o p b) [
            | at_most_once ↦ refl
            | at_least_once ↦ acknowledge-eq o p.packet_id b₁
            | exactly_once ↦ receive-eq o p.packet_id b₁
          ]

  answer_subscribe-eq :
      (p : SubscribePacket) (o : Option Address) (b : Broker M D)
      → Ws.answer_subscribe M D locked without_receiver p o b
        ≡ with_session M D (Connection.answer_subscribe M D locked without_receiver p) o b
  unfolding Ws.answer_subscribe Connection.answer_subscribe with_session reply
  answer_subscribe-eq p none b = refl
  answer_subscribe-eq p (some s) b = refl

  answer_unsubscribe-eq :
      (p : UnsubscribePacket) (o : Option Address) (b : Broker M D)
      → Ws.answer_unsubscribe M D locked without_receiver p o b
        ≡ with_session M D (Connection.answer_unsubscribe M D locked without_receiver p) o b
  unfolding Ws.answer_unsubscribe Connection.answer_unsubscribe with_session reply
  answer_unsubscribe-eq p none b = refl
  answer_unsubscribe-eq p (some s) b = refl

  answer_pingreq-eq :
      (o : Option Address) (b : Broker M D)
      → Ws.answer_pingreq M D locked without_receiver o b
        ≡ with_session M D (λ s c. reply M D locked without_receiver s Packet.pingresp c) o b
  unfolding Ws.answer_pingreq with_session reply
  answer_pingreq-eq none b = refl
  answer_pingreq-eq (some s) b = refl

  -- The same change of the broker, by either handler.
  kept :
      (f g : Broker M D → Broker M D) (conn : Connection M) (w : World M D)
      → f w.broker ≡ g w.broker
      → Ws.keep_connection M D locked without_receiver f conn w ≡ (
        without_keep_alive (Tcp.keep_connection M D locked without_receiver g conn w).0,
        (Tcp.keep_connection M D locked without_receiver g conn w).1,
      )
  kept f g conn w e = ap (λ b. (ok conn, record w { broker = b })) e

  -- On every packet, a WebSocket connection gets the result of a TCP connection in the same state,
  -- without the keep-alive, and leaves the broker in the same state.
  pub handle_ws_packet_lem :
      (conn : Connection M) (packet : Packet) (w : World M D)
      → let tcp = handle_packet M D locked without_receiver conn packet w in
        handle_ws_packet M D locked without_receiver conn packet w
        ≡ (without_keep_alive tcp.0, tcp.1)
  unfolding handle_packet handle_ws_packet Ws.connect_session Connection.connect_session reply
  handle_ws_packet_lem conn (Packet.connect p) w = refl
  handle_ws_packet_lem conn (Packet.publish p) w =
      kept (Ws.answer_publish M D locked without_receiver conn.session p)
        (Connection.answer_publish M D locked without_receiver p.qos conn.session p) conn w
        (answer_publish-eq conn.session p w.broker)
  handle_ws_packet_lem conn (Packet.subscribe p) w =
      kept (Ws.answer_subscribe M D locked without_receiver p conn.session)
        (with_session M D (Connection.answer_subscribe M D locked without_receiver p) conn.session)
        conn w (answer_subscribe-eq p conn.session w.broker)
  handle_ws_packet_lem conn (Packet.unsubscribe p) w =
      kept (Ws.answer_unsubscribe M D locked without_receiver p conn.session)
        (with_session M D (Connection.answer_unsubscribe M D locked without_receiver p)
          conn.session)
        conn w (answer_unsubscribe-eq p conn.session w.broker)
  handle_ws_packet_lem conn Packet.pingreq w =
      kept (Ws.answer_pingreq M D locked without_receiver conn.session)
        (with_session M D (λ s c. reply M D locked without_receiver s Packet.pingresp c)
          conn.session)
        conn w (answer_pingreq-eq conn.session w.broker)
  handle_ws_packet_lem conn _ w = refl
