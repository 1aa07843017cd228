-- ===== src/Server/Atomic/Agree/Packets.antt =====
-- Without interruption, the atomic actions of `handle_packet` of src/server/tcp.rs do what it does in one
-- step.
use opencode_rustquitto.Base.{◌≡◌, refl, ap, ◌∙◌, Bool}
use opencode_rustquitto.Error.{ok}
use opencode_rustquitto.Extern.Channel.{Mpsc}
use opencode_rustquitto.Extern.DashMap.{DashMap}
use opencode_rustquitto.Protocol.Types.{Packet}
use opencode_rustquitto.Broker.Handlers.{Address, Broker, subscriber_of}
use opencode_rustquitto.Broker.Handlers
use opencode_rustquitto.Server.Connection.{Connection, World, unconnected, on_broker, keep_alive_of}
use opencode_rustquitto.Server.Connection
use opencode_rustquitto.Server.Tcp
use opencode_rustquitto.Server.Atomic.{done, act, look, run, bind, run-bind}
use opencode_rustquitto.Server.Atomic.Handlers.{
  Task, handle_disconnect, handle_puback, reply, handle_pubrec, handle_pubrel, handle_pubcomp,
}
use opencode_rustquitto.Server.Atomic.Packets.{
  with_session, answer_publish, answer_subscribe, answer_unsubscribe, greet, connect_session,
  keep_connection, handle_packet,
}
use opencode_rustquitto.Server.Atomic.Agree.Answers.{
  run-with_session, run-left, run-reply, run-answer_publish, run-answer_subscribe, run-acknowledged,
  run-answer_unsubscribe,
}

module _ (M : Mpsc) (D : DashMap Address) where
  module _ (locked : Bool) (without_receiver : M.Sender) where
    run-keep_connection :
        (p : Task M D (Unit {0})) (f : Broker M D → Broker M D) (conn : Connection M)
        (w : World M D)
        → run p w ≡ (tt, on_broker M D f w)
        → run (keep_connection M D locked without_receiver p conn) w
          ≡ Tcp.keep_connection M D locked without_receiver f conn w
    unfolding run
    run-keep_connection p f conn w h =
        run-bind p (λ u. look (λ v. done (ok (conn, keep_alive_of v.broker.heap conn.session)))) w
        ∙ ap
            (λ (o : Unit {0} × World M D).
              (ok (conn, keep_alive_of o.1.broker.heap conn.session), o.1))
            h

    run-kept :
        (p : Address → Task M D (Unit {0})) (f : Address → Broker M D → Broker M D)
        (conn : Connection M) (w : World M D)
        → ((s : Address) → run (p s) w ≡ (tt, on_broker M D (f s) w))
        → run (keep_connection M D locked without_receiver (with_session M D p conn.session) conn) w
          ≡ Tcp.keep_connection M D locked without_receiver
              (Connection.with_session M D f conn.session)
              conn
              w
    run-kept p f conn w h =
        run-keep_connection (with_session M D p conn.session)
          (Connection.with_session M D f conn.session) conn w
          (run-with_session M D p f conn.session w h)

    -- Run without interruption, the atomic actions of `handle_packet` give the result of its one step
    -- and leave the same world, for every packet and in every state of the connection.
    pub run-handle_packet :
        (conn : Connection M) (packet : Packet) (w : World M D)
        → run (handle_packet M D locked without_receiver conn packet) w
          ≡ Tcp.handle_packet M D locked without_receiver conn packet w
    unfolding run bind handle_packet Tcp.handle_packet connect_session greet reply
        Connection.connect_session
    run-handle_packet conn (Packet.connect p) w = refl
    run-handle_packet conn (Packet.connack p) w = refl
    run-handle_packet conn (Packet.publish p) w =
        run-keep_connection (answer_publish M D locked without_receiver p.qos conn.session p)
          (Connection.answer_publish M D locked without_receiver p.qos conn.session p) conn w
          (run-answer_publish M D locked without_receiver p.qos conn.session p w)
    run-handle_packet conn (Packet.puback id) w =
        run-kept (λ s. handle_puback M D s id) (λ s b. Handlers.handle_puback M D s id b) conn w
          (λ s. (run-acknowledged M D locked without_receiver s id w).0)
    run-handle_packet conn (Packet.pubrec id) w =
        run-kept (λ s. handle_pubrec M D locked without_receiver s id)
          (λ s b. Handlers.handle_pubrec M D locked without_receiver s id b) conn w
          (λ s. (run-acknowledged M D locked without_receiver s id w).1)
    run-handle_packet conn (Packet.pubrel id) w =
        run-kept (λ s. handle_pubrel M D locked without_receiver s id)
          (λ s b. Handlers.handle_pubrel M D locked without_receiver s id b) conn w
          (λ s. (run-acknowledged M D locked without_receiver s id w).2)
    run-handle_packet conn (Packet.pubcomp id) w =
        run-kept (λ s. handle_pubcomp M D s id) (λ s b. Handlers.handle_pubcomp M D s id b) conn w
          (λ s. (run-acknowledged M D locked without_receiver s id w).3)
    run-handle_packet conn (Packet.subscribe p) w =
        run-kept (answer_subscribe M D locked without_receiver p)
          (Connection.answer_subscribe M D locked without_receiver p) conn w
          (λ s. run-answer_subscribe M D locked without_receiver p s w)
    run-handle_packet conn (Packet.suback p) w = refl
    run-handle_packet conn (Packet.unsubscribe p) w =
        run-kept (answer_unsubscribe M D locked without_receiver p)
          (Connection.answer_unsubscribe M D locked without_receiver p) conn w
          (λ s. run-answer_unsubscribe M D locked without_receiver p s w)
    run-handle_packet conn (Packet.unsuback id) w = refl
    run-handle_packet conn Packet.pingreq w =
        run-kept (λ s. reply M D locked without_receiver s Packet.pingresp)
          (λ s b. Handlers.reply M D locked without_receiver s Packet.pingresp b) conn w
          (λ s. run-reply M D locked without_receiver s Packet.pingresp w)
    run-handle_packet conn Packet.pingresp w = refl
    run-handle_packet conn Packet.disconnect w =
        run-bind (with_session M D (λ s. handle_disconnect M D s) conn.session)
          (λ u. act (Connection.drop_rx M D conn.out_rx) (λ v. done (ok (unconnected, 0)))) w
        ∙ ap
            (λ (o : Unit {0} × World M D).
              (ok (unconnected, 0), Connection.drop_rx M D conn.out_rx o.1))
            (run-left M D conn.session w)
