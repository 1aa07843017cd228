-- ===== src/Server/Atomic/Packets.antt =====
-- `handle_packet` of src/server/tcp.rs by its atomic actions.
use opencode_rustquitto.Base.{ℕ, suc, Bool, Option, none, some}
use opencode_rustquitto.Error.{Result, ok, err, protocol, server_received}
use opencode_rustquitto.Extern.Channel.{Mpsc}
use opencode_rustquitto.Extern.DashMap.{DashMap}
use opencode_rustquitto.Protocol.PacketType.{PacketType}
use opencode_rustquitto.Protocol.Qos.{Qos, at_most_once, at_least_once, exactly_once}
use opencode_rustquitto.Protocol.Types.{
  Packet, PacketId, ConnectPacket, PublishPacket, SubscribePacket, UnsubscribePacket,
}
use opencode_rustquitto.Broker.Session
use opencode_rustquitto.Broker.Handlers.{Address, store, register_session, handle_connect}
use opencode_rustquitto.Server.Connection.{
  Connection, World, unconnected, keep_alive_of, drop_rx, on_broker,
}
use opencode_rustquitto.Server.Atomic.{done, act, bind, look}
use opencode_rustquitto.Server.Atomic.Handlers.{
  Task, reply, handle_publish, handle_subscribe, handle_unsubscribe, handle_disconnect,
  handle_puback, handle_pubrec, handle_pubrel, handle_pubcomp,
}

module _ (M : Mpsc) (D : DashMap Address) where
  -- `if let Some(sess) = session.as_ref()`
  unfoldable pub with_session :
      (Address → Task M D (Unit {0})) → Option Address → Task M D (Unit {0})
  with_session f none = done tt
  with_session f (some session) = f session

  -- `Session::new` with its channel, at the next address.
  abbrev pub create : ConnectPacket → World M D → World M D
  create connect w =
      let ((tx, rx), net) = M.unbounded_channel w.broker.net in
      let s = Session.new tx connect.client_id connect.clean_session connect.keep_alive in
      record {
        broker = record w.broker { heap = store w.next_address s w.broker.heap; net = net };
        next_address = suc w.next_address;
      }

  module _ (locked : Bool) (without_receiver : M.Sender) where
    unfoldable pub reply_with_id :
        (PacketId → Packet) → Option Address → Option PacketId → Task M D (Unit {0})
    reply_with_id answer (some session) (some pid) =
        reply M D locked without_receiver session (answer pid)
    reply_with_id answer _ _ = done tt

    unfoldable pub answer_publish : Qos → Option Address → PublishPacket → Task M D (Unit {0})
    answer_publish at_most_once session publish = handle_publish M D publish
    answer_publish at_least_once session publish =
        bind (handle_publish M D publish)
          (λ u. reply_with_id Packet.puback session publish.packet_id)
    answer_publish exactly_once session publish =
        bind (handle_publish M D publish)
          (λ u. reply_with_id Packet.pubrec session publish.packet_id)

    unfoldable pub answer_subscribe : SubscribePacket → Address → Task M D (Unit {0})
    answer_subscribe sub session =
        bind (handle_subscribe M D locked without_receiver session sub)
          (λ suback. reply M D locked without_receiver session (Packet.suback suback))

    unfoldable pub answer_unsubscribe : UnsubscribePacket → Address → Task M D (Unit {0})
    answer_unsubscribe unsub session =
        bind (handle_unsubscribe M D session unsub)
          (λ u. reply M D locked without_receiver session (Packet.unsuback unsub.packet_id))

    -- The session is created, then looked at by `handle_connect`, then registered, then greeted.
    unfoldable pub greet : Address → Task M D (Unit {0})
    greet session = look (λ w.
        let (return_code, session_present) = handle_connect M D session w.broker in
        let connack =
          Packet.connack
            (record { session_present = session_present; return_code = return_code }) in
        act (on_broker M D (λ b. register_session M D session b))
          (λ v. reply M D locked without_receiver session connack))

    unfoldable pub connect_session : ConnectPacket → Task M D (Address × M.Receiver)
    connect_session connect = act (create connect) (λ w.
        let session = w.next_address in
        bind (greet session) (λ u. done (session, (M.unbounded_channel w.broker.net).0.1)))

    abbrev pub Outcome : Type 0
    Outcome = Result (Connection M × ℕ)

    abbrev pub keep_connection : Task M D (Unit {0}) → Connection M → Task M D Outcome
    keep_connection p conn =
        bind p (λ u. look (λ w. done (ok (conn, keep_alive_of w.broker.heap conn.session))))

    abbrev pub refuse : PacketType → Connection M → Task M D Outcome
    refuse kind conn =
        act (drop_rx M D conn.out_rx) (λ w. done (err (protocol (server_received kind))))

    unfoldable pub handle_packet : Connection M → Packet → Task M D Outcome
    handle_packet conn (Packet.connect connect) = bind (connect_session connect) (λ new.
        act (drop_rx M D conn.out_rx) (λ w.
          done (ok (record { session = some new.0; out_rx = some new.1 }, connect.keep_alive))))
    handle_packet conn (Packet.connack p) = refuse PacketType.connack conn
    handle_packet conn (Packet.publish publish) =
        keep_connection (answer_publish publish.qos conn.session publish) conn
    handle_packet conn (Packet.puback pid) =
        keep_connection (with_session (λ s. handle_puback M D s pid) conn.session) conn
    handle_packet conn (Packet.pubrec pid) =
        keep_connection
          (with_session (λ s. handle_pubrec M D locked without_receiver s pid) conn.session) conn
    handle_packet conn (Packet.pubrel pid) =
        keep_connection
          (with_session (λ s. handle_pubrel M D locked without_receiver s pid) conn.session) conn
    handle_packet conn (Packet.pubcomp pid) =
        keep_connection (with_session (λ s. handle_pubcomp M D s pid) conn.session) conn
    handle_packet conn (Packet.subscribe sub) =
        keep_connection (with_session (answer_subscribe sub) conn.session) conn
    handle_packet conn (Packet.suback p) = refuse PacketType.suback conn
    handle_packet conn (Packet.unsubscribe unsub) =
        keep_connection (with_session (answer_unsubscribe unsub) conn.session) conn
    handle_packet conn (Packet.unsuback pid) = refuse PacketType.unsuback conn
    handle_packet conn Packet.pingreq =
        keep_connection
          (with_session (λ s. reply M D locked without_receiver s Packet.pingresp) conn.session)
          conn
    handle_packet conn Packet.pingresp = refuse PacketType.pingresp conn
    handle_packet conn Packet.disconnect =
        bind (with_session (λ s. handle_disconnect M D s) conn.session)
          (λ u. act (drop_rx M D conn.out_rx) (λ w. done (ok (unconnected, 0))))
