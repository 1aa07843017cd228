-- ===== src/Server/Connection.antt =====
-- What a connection of src/server/tcp.rs or src/server/ws.rs keeps, and the arms of `handle_packet` of
-- src/server/tcp.rs; src/server/ws.rs has arms of its own, in Server/Ws.antt.
pub mod Closing
pub mod Invariant
use opencode_rustquitto.Base.{ℕ, suc, Bool, Option, none, some}
use opencode_rustquitto.Extern.Channel.{Mpsc}
use opencode_rustquitto.Extern.DashMap.{DashMap}
use opencode_rustquitto.Protocol.Qos.{Qos, at_most_once, at_least_once, exactly_once}
use opencode_rustquitto.Protocol.Types.{
  Packet, PacketId, ConnectPacket, PublishPacket, SubscribePacket, UnsubscribePacket,
}
use opencode_rustquitto.Broker.Session.{Session}
use opencode_rustquitto.Broker.Session
use opencode_rustquitto.Broker.Handlers.{
  Address, Broker, store, reply, handle_publish, register_session, handle_connect, handle_subscribe,
  handle_unsubscribe, handle_disconnect,
}

-- The local variables `session` and `out_rx`.
pub record Connection (M : Mpsc) : Type 0 where
  pub session : Option Address
  pub out_rx : Option M.Receiver

abbrev pub unconnected : {M : Mpsc} → Connection M
unconnected = record { session = none; out_rx = none }

-- The broker that the connections share, and the address that the next `Arc::new` in `Session::new` gives
-- to a session.
pub record World (M : Mpsc) (D : DashMap Address) : Type 0 where
  pub broker : Broker M D
  pub next_address : Address

-- `session.as_ref().map(|s| s.keep_alive).unwrap_or(0)`
unfoldable pub keep_alive_of : {S : Type 0} → (Address → Session S) → Option Address → ℕ
keep_alive_of heap none = 0
keep_alive_of heap (some session) = (heap session).keep_alive

module _ (M : Mpsc) (D : DashMap Address) where
  -- An `Option<UnboundedReceiver>` goes out of scope.
  unfoldable pub drop_rx : Option M.Receiver → World M D → World M D
  drop_rx none w = w
  drop_rx (some rx) w = record w {
    broker = record w.broker { net = M.drop_receiver w.broker.net rx };
  }

  -- A change of the broker alone.
  abbrev pub on_broker : (Broker M D → Broker M D) → World M D → World M D
  on_broker f w = record w { broker = f w.broker }

  -- `if let Some(sess) = session.as_ref()`
  unfoldable pub with_session :
      (Address → Broker M D → Broker M D) → Option Address → Broker M D → Broker M D
  with_session f none b = b
  with_session f (some session) b = f session b

  -- The end behind the loop: `if let Some(sess) = session { broker.handle_disconnect(&sess) }`, and the
  -- channel goes out of scope.
  unfoldable pub close_connection : Connection M → World M D → World M D
  close_connection conn w =
      drop_rx conn.out_rx
        (on_broker (with_session (λ s b. handle_disconnect M D s b) conn.session) w)

  module _ (locked : Bool) (without_receiver : M.Sender) where
    -- `if let (Some(sess), Some(pid)) = (session.as_ref(), publish.packet_id)`
    unfoldable pub reply_with_id :
        (PacketId → Packet) → Option Address → Option PacketId → Broker M D → Broker M D
    reply_with_id answer (some session) (some pid) b =
        reply M D locked without_receiver session (answer pid) b
    reply_with_id answer _ _ b = b

    -- The `match publish.qos`.
    unfoldable pub answer_publish : Qos → Option Address → PublishPacket → Broker M D → Broker M D
    answer_publish at_most_once session publish b = handle_publish M D publish b
    answer_publish at_least_once session publish b =
        reply_with_id Packet.puback session publish.packet_id (handle_publish M D publish b)
    answer_publish exactly_once session publish b =
        reply_with_id Packet.pubrec session publish.packet_id (handle_publish M D publish b)

    -- The arms of SUBSCRIBE and UNSUBSCRIBE, for a connection with a session.
    unfoldable pub answer_subscribe : SubscribePacket → Address → Broker M D → Broker M D
    answer_subscribe sub session b =
        let (suback, b₁) = handle_subscribe M D locked without_receiver session sub b in
        reply M D locked without_receiver session (Packet.suback suback) b₁

    unfoldable pub answer_unsubscribe : UnsubscribePacket → Address → Broker M D → Broker M D
    answer_unsubscribe unsub session b =
        reply M D locked without_receiver session (Packet.unsuback unsub.packet_id)
          (handle_unsubscribe M D session unsub b)

    -- The arm of CONNECT, up to its result: the new session is stored, registered and greeted.
    unfoldable pub connect_session : ConnectPacket → World M D → M.Receiver × World M D
    connect_session connect w =
        let ((tx, rx), net) = M.unbounded_channel w.broker.net in
        let session = w.next_address in
        let s = Session.new tx connect.client_id connect.clean_session connect.keep_alive in
        let b : Broker M D = record w.broker { heap = store session s w.broker.heap; net = net } in
        let (return_code, session_present) = handle_connect M D session b in
        let connack =
          Packet.connack
            (record { session_present = session_present; return_code = return_code }) in
        (
          rx,
          record {
            broker =
                reply M D locked without_receiver session connack (register_session M D session b);
            next_address = suc session;
          },
        )
