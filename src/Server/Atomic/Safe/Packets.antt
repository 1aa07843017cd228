-- ===== src/Server/Atomic/Safe/Packets.antt =====
-- Connections of src/server/tcp.rs that handle their packets at the same time.
use opencode_rustquitto.Base.{ℕ, suc, ◌<◌, ◌≡◌, ap, Bool, Option, none, some, arith}
use opencode_rustquitto.Error.{Result, ok, err}
use opencode_rustquitto.Extern.Channel.{Mpsc}
use opencode_rustquitto.Extern.DashMap.{DashMap}
use opencode_rustquitto.Protocol.PacketType.{PacketType}
use opencode_rustquitto.Protocol.Qos.{Qos, at_most_once, at_least_once, exactly_once}
use opencode_rustquitto.Protocol.Types.{
  Packet, PacketId, ConnectPacket, PublishPacket, SubscribePacket, UnsubscribePacket,
}
use opencode_rustquitto.Broker.Session.{Session}
use opencode_rustquitto.Broker.Session
use opencode_rustquitto.Broker.Session.Invariant.{new-IsSession}
use opencode_rustquitto.Broker.Handlers.Invariant.Registered.{
  stored_below, store-IsBroker, register_session-Keeps,
}
use opencode_rustquitto.Broker.Handlers.{Address, register_session, handle_connect}
use opencode_rustquitto.Server.Connection.{Connection, World, unconnected, keep_alive_of, drop_rx}
use opencode_rustquitto.Server.Connection.Invariant.{Grows, Grows-refl, Grows-Keeps, drop_rx-Grows}
use opencode_rustquitto.Server.Atomic.{done, act, bind, look}
use opencode_rustquitto.Server.Atomic.Handlers.{
  Task, handle_publish, handle_subscribe, handle_unsubscribe, handle_disconnect, handle_puback,
  reply, handle_pubrec, handle_pubrel, handle_pubcomp,
}
use opencode_rustquitto.Server.Atomic.Packets.{
  with_session, create, reply_with_id, answer_publish, answer_subscribe, answer_unsubscribe, greet,
  connect_session, keep_connection, refuse, handle_packet,
}
use opencode_rustquitto.Server.Atomic.Safe.{Any, Safe, Stays, Safe-bind}
use opencode_rustquitto.Server.Atomic.Safe.Publishing.{Safe-handle_publish}
use opencode_rustquitto.Server.Atomic.Safe.Handlers.{
  Safe-handle_subscribe, Safe-handle_unsubscribe, Safe-handle_disconnect, Safe-handle_puback,
  Safe-reply, Safe-handle_pubrec, Safe-handle_pubrel, Safe-handle_pubcomp,
}

module _ (M : Mpsc) (D : DashMap Address) where
  -- The session of a connection was created.
  abbrev pub Created : ℕ → Option Address → Type 0
  Created n o = (a : Address) → o ≡ some a → a < n

  -- So is that of a connection that a result returns.
  abbrev pub Returned : ℕ → Result (Connection M × ℕ) → Type 0
  Returned n (ok (conn, k)) = Created n conn.session
  Returned n (err e) = Unit {0}

  Returned-Stays : Stays M D Returned
  Returned-Stays n m (ok (conn, k)) le q = λ a e. omega (arith, q a e, le)
  Returned-Stays n m (err e) le q = tt

  pub Safe-with_session :
      (n : ℕ) (p : Address → Task M D (Unit {0})) (o : Option Address)
      → ((s : Address) → Safe M D Any n (p s))
      → Safe M D Any n (with_session M D p o)
  unfolding with_session
  Safe-with_session n p none h = tt
  Safe-with_session n p (some s) h = h s

  create-Grows : (p : ConnectPacket) (w : World M D) → Grows M D w (create M D p w)
  create-Grows p w =
      let ((tx, rx), net) = M.unbounded_channel w.broker.net in
      let s = Session.new tx p.client_id p.clean_session p.keep_alive in
      record {
        kept = λ h.
            store-IsBroker M D w.next_address s net w.broker
              (new-IsSession tx p.client_id p.clean_session p.keep_alive) h;
        more = omega arith;
        names = λ a lt.
            ap (λ (r : Session M.Sender). r.client_id)
              (stored_below M D w.next_address a s w.broker.heap lt);
      }

  -- A new session and its receiver.
  abbrev Opened : ℕ → Address × M.Receiver → Type 0
  Opened n new = new.0 < n

  module _ (locked : Bool) (without_receiver : M.Sender) where
    Safe-reply_with_id :
        (n : ℕ) (answer : PacketId → Packet) (o : Option Address) (id : Option PacketId)
        → Safe M D Any n (reply_with_id M D locked without_receiver answer o id)
    unfolding reply_with_id
    Safe-reply_with_id n answer (some s) (some id) =
        Safe-reply M D locked without_receiver n s (answer id)
    Safe-reply_with_id n answer (some s) none = tt
    Safe-reply_with_id n answer none id = tt

    Safe-answer_publish :
        (n : ℕ) (q : Qos) (o : Option Address) (p : PublishPacket)
        → Safe M D Any n (answer_publish M D locked without_receiver q o p)
    unfolding answer_publish
    Safe-answer_publish n at_most_once o p = Safe-handle_publish M D n p
    Safe-answer_publish n at_least_once o p =
        Safe-bind M D Any Any n (handle_publish M D p)
          (λ u. reply_with_id M D locked without_receiver Packet.puback o p.packet_id)
          (Safe-handle_publish M D n p)
          (λ m u le q. Safe-reply_with_id m Packet.puback o p.packet_id)
    Safe-answer_publish n exactly_once o p =
        Safe-bind M D Any Any n (handle_publish M D p)
          (λ u. reply_with_id M D locked without_receiver Packet.pubrec o p.packet_id)
          (Safe-handle_publish M D n p)
          (λ m u le q. Safe-reply_with_id m Packet.pubrec o p.packet_id)

    Safe-answer_subscribe :
        (n : ℕ) (p : SubscribePacket) (s : Address)
        → Safe M D Any n (answer_subscribe M D locked without_receiver p s)
    unfolding answer_subscribe
    Safe-answer_subscribe n p s =
        Safe-bind M D Any Any n (handle_subscribe M D locked without_receiver s p)
          (λ suback. reply M D locked without_receiver s (Packet.suback suback))
          (Safe-handle_subscribe M D locked without_receiver n s p)
          (λ m suback le q. Safe-reply M D locked without_receiver m s (Packet.suback suback))

    Safe-answer_unsubscribe :
        (n : ℕ) (p : UnsubscribePacket) (s : Address)
        → Safe M D Any n (answer_unsubscribe M D locked without_receiver p s)
    unfolding answer_unsubscribe
    Safe-answer_unsubscribe n p s =
        Safe-bind M D Any Any n (handle_unsubscribe M D s p)
          (λ u. reply M D locked without_receiver s (Packet.unsuback p.packet_id))
          (Safe-handle_unsubscribe M D n s p)
          (λ m u le q. Safe-reply M D locked without_receiver m s (Packet.unsuback p.packet_id))

    Safe-greet :
        (n : ℕ) (s : Address) → s < n → Safe M D Any n (greet M D locked without_receiver s)
    unfolding greet
    Safe-greet n s below = λ w h le.
        let (code, present) = handle_connect M D s w.broker in
        let connack = Packet.connack (record { session_present = present; return_code = code }) in
        (
          Grows-refl M D w,
          λ v g lv. (
            Grows-Keeps M D v (register_session M D s v.broker) (
                register_session-Keeps M D v.next_address s v.broker
                  (omega (arith, below, le, lv))),
            Safe-reply M D locked without_receiver v.next_address s connack,
          ),
        )

    Safe-keep_connection :
        (n : ℕ) (p : Task M D (Unit {0})) (conn : Connection M)
        → Created n conn.session
        → Safe M D Any n p
        → Safe M D Returned n (keep_connection M D locked without_receiver p conn)
    Safe-keep_connection n p conn c s =
        Safe-bind M D Any Returned n p
          (λ u. look (λ w. done (ok (conn, keep_alive_of w.broker.heap conn.session)))) s
          (λ m u le q. λ w h lw. (Grows-refl M D w, λ a e. omega (arith, c a e, le, lw)))

    Safe-refuse :
        (n : ℕ) (kind : PacketType) (conn : Connection M)
        → Safe M D Returned n (refuse M D locked without_receiver kind conn)
    Safe-refuse n kind conn = λ w h le. (drop_rx-Grows M D conn.out_rx w, tt)

    Safe-kept :
        (n : ℕ) (p : Address → Task M D (Unit {0})) (conn : Connection M)
        → Created n conn.session
        → ((s : Address) → Safe M D Any n (p s))
        → Safe M D Returned n
            (keep_connection M D locked without_receiver (with_session M D p conn.session) conn)
    Safe-kept n p conn c s =
        Safe-keep_connection n (with_session M D p conn.session) conn c
          (Safe-with_session n p conn.session s)

    pub Safe-handle_packet :
        (n : ℕ) (conn : Connection M) (packet : Packet)
        → Created n conn.session
        → Safe M D Returned n (handle_packet M D locked without_receiver conn packet)
    unfolding handle_packet connect_session bind
    Safe-handle_packet n conn (Packet.connect p) c = λ w h le.
        let session = w.next_address in
        (
          create-Grows p w,
          Safe-bind M D Opened Returned (suc session)
              (bind (greet M D locked without_receiver session)
                (λ u. done (session, (M.unbounded_channel w.broker.net).0.1)))
              (λ new. act (drop_rx M D conn.out_rx) (λ v.
                done (ok (record { session = some new.0; out_rx = some new.1 }, p.keep_alive))))
              (Safe-bind M D Any Opened (suc session) (greet M D locked without_receiver session)
                (λ u. done (session, (M.unbounded_channel w.broker.net).0.1))
                (Safe-greet (suc session) session (omega arith)) (λ m u lm q. omega (arith, lm)))
              (λ m new lm q. λ v g lv.
                let dropped = drop_rx-Grows M D conn.out_rx v in
                (
                  dropped,
                  λ a e. let same : new.0 ≡ a = cc in omega (arith, same, q, lv, dropped.more),
                )),
        )
    Safe-handle_packet n conn (Packet.connack p) c = Safe-refuse n PacketType.connack conn
    Safe-handle_packet n conn (Packet.publish p) c =
        Safe-keep_connection n (answer_publish M D locked without_receiver p.qos conn.session p)
          conn c (Safe-answer_publish n p.qos conn.session p)
    Safe-handle_packet n conn (Packet.puback id) c =
        Safe-kept n (λ s. handle_puback M D s id) conn c (λ s. Safe-handle_puback M D n s id)
    Safe-handle_packet n conn (Packet.pubrec id) c =
        Safe-kept n (λ s. handle_pubrec M D locked without_receiver s id) conn c
          (λ s. Safe-handle_pubrec M D locked without_receiver n s id)
    Safe-handle_packet n conn (Packet.pubrel id) c =
        Safe-kept n (λ s. handle_pubrel M D locked without_receiver s id) conn c
          (λ s. Safe-handle_pubrel M D locked without_receiver n s id)
    Safe-handle_packet n conn (Packet.pubcomp id) c =
        Safe-kept n (λ s. handle_pubcomp M D s id) conn c (λ s. Safe-handle_pubcomp M D n s id)
    Safe-handle_packet n conn (Packet.subscribe p) c =
        Safe-kept n (answer_subscribe M D locked without_receiver p) conn c
          (λ s. Safe-answer_subscribe n p s)
    Safe-handle_packet n conn (Packet.suback p) c = Safe-refuse n PacketType.suback conn
    Safe-handle_packet n conn (Packet.unsubscribe p) c =
        Safe-kept n (answer_unsubscribe M D locked without_receiver p) conn c
          (λ s. Safe-answer_unsubscribe n p s)
    Safe-handle_packet n conn (Packet.unsuback id) c = Safe-refuse n PacketType.unsuback conn
    Safe-handle_packet n conn Packet.pingreq c =
        Safe-kept n (λ s. reply M D locked without_receiver s Packet.pingresp) conn c
          (λ s. Safe-reply M D locked without_receiver n s Packet.pingresp)
    Safe-handle_packet n conn Packet.pingresp c = Safe-refuse n PacketType.pingresp conn
    Safe-handle_packet n conn Packet.disconnect c =
        Safe-bind M D Any Returned n (with_session M D (λ s. handle_disconnect M D s) conn.session)
          (λ u. act (drop_rx M D conn.out_rx) (λ w. done (ok (unconnected, 0))))
          (Safe-with_session n (λ s. handle_disconnect M D s) conn.session
            (λ s. Safe-handle_disconnect M D n s))
          (λ m u le q. λ w h lw. (drop_rx-Grows M D conn.out_rx w, λ a e. absurd (cc)))
