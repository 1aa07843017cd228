-- ===== src/Server/Connection/Invariant.antt =====
-- What the pieces of the packet handlers of src/server/tcp.rs and src/server/ws.rs keep.
use opencode_rustquitto.Base.{suc, ◌≤◌, ◌<◌, ◌≡◌, refl, ◌∙◌, ap, Bool, Option, none, some, arith}
use opencode_rustquitto.Extern.Channel.{Mpsc}
use opencode_rustquitto.Extern.DashMap.{DashMap}
use opencode_rustquitto.Protocol.Qos.{Qos, at_most_once, at_least_once, exactly_once}
use opencode_rustquitto.Protocol.Types.{
  Packet, PacketId, ConnectPacket, PublishPacket, SubscribePacket, UnsubscribePacket,
}
use opencode_rustquitto.Broker.Session.{Session}
use opencode_rustquitto.Broker.Session
use opencode_rustquitto.Broker.Session.Invariant.{new-IsSession}
use opencode_rustquitto.Broker.Handlers.{
  Address, Broker, store, reply, register_session, handle_publish, handle_connect, handle_subscribe,
  handle_unsubscribe, handle_disconnect,
}
use opencode_rustquitto.Broker.Handlers.Invariant.{
  IsBroker, Keeps, Keeps-refl, Keeps-trans, Keeps-net,
}
use opencode_rustquitto.Broker.Handlers.Invariant.Preserved.{
  handle_disconnect-Keeps, reply-Keeps, handle_subscribe-Keeps, handle_unsubscribe-Keeps,
  handle_publish-Keeps,
}
use opencode_rustquitto.Broker.Handlers.Invariant.Registered.{
  register_session-IsBroker, stored_below,
}
use opencode_rustquitto.Server.Connection.{
  Connection, World, drop_rx, on_broker, with_session, close_connection, reply_with_id,
  answer_publish, answer_subscribe, answer_unsubscribe, connect_session,
}

module _ (M : Mpsc) (D : DashMap Address) where
  abbrev pub IsWorld : World M D → Type 0
  IsWorld w = IsBroker M D w.next_address w.broker

  -- The session of a connection was created.
  unfoldable pub IsConnection : Connection M → World M D → Type 0
  IsConnection conn w = (a : Address) → conn.session ≡ some a → a < w.next_address

  -- From `w` to `v`, the invariant is kept, and no session that was created changes its client.
  pub record Grows (w v : World M D) : Type 0 where
    pub kept : IsWorld w → IsWorld v
    pub more : w.next_address ≤ v.next_address
    pub names :
        (a : Address)
        → a < w.next_address
        → (v.broker.heap a).client_id ≡ (w.broker.heap a).client_id

  pub Grows-refl : (w : World M D) → Grows w w
  Grows-refl w = record { kept = λ h. h; more = omega arith; names = λ a lt. refl }

  pub Grows-trans : (u v w : World M D) → Grows u v → Grows v w → Grows u w
  Grows-trans u v w f g = record {
    kept = λ h. g.kept (f.kept h);
    more = omega (arith, f.more, g.more);
    names = λ a lt. g.names a (omega (arith, lt, f.more)) ∙ f.names a lt;
  }

  pub Grows-Keeps :
      (w : World M D) (b : Broker M D)
      → Keeps M D w.next_address w.broker b
      → Grows w (record w { broker = b })
  Grows-Keeps w b k = record { kept = k.kept; more = omega arith; names = λ a lt. k.names a }

  pub drop_rx-Grows : (rx : Option M.Receiver) (w : World M D) → Grows w (drop_rx M D rx w)
  unfolding drop_rx
  drop_rx-Grows none w = Grows-refl w
  drop_rx-Grows (some rx) w =
      let net = M.drop_receiver w.broker.net rx in
      Grows-Keeps w (record w.broker { net = net }) (Keeps-net M D w.next_address net w.broker)

  -- A connection stays one while the world grows.
  pub IsConnection-Grows :
      (conn : Connection M) (w v : World M D)
      → Grows w v
      → IsConnection conn w
      → IsConnection conn v
  unfolding IsConnection
  IsConnection-Grows conn w v g h a e = omega (arith, h a e, g.more)

  module _ (n : Address) where
    pub with_session-Keeps :
        (f : Address → Broker M D → Broker M D) (o : Option Address) (b : Broker M D)
        → ((s : Address) → Keeps M D n b (f s b))
        → Keeps M D n b (with_session M D f o b)
    unfolding with_session
    with_session-Keeps f none b k = Keeps-refl M D n b
    with_session-Keeps f (some s) b k = k s

    module _ (locked : Bool) (without_receiver : M.Sender) where
      reply_with_id-Keeps :
          (answer : PacketId → Packet) (o : Option Address) (id : Option PacketId) (b : Broker M D)
          → Keeps M D n b (reply_with_id M D locked without_receiver answer o id b)
      unfolding reply_with_id
      reply_with_id-Keeps answer (some s) (some id) b =
          reply-Keeps M D n locked without_receiver s (answer id) b
      reply_with_id-Keeps answer (some s) none b = Keeps-refl M D n b
      reply_with_id-Keeps answer none id b = Keeps-refl M D n b

      pub answer_publish-Keeps :
          (q : Qos) (o : Option Address) (p : PublishPacket) (b : Broker M D)
          → Keeps M D n b (answer_publish M D locked without_receiver q o p b)
      unfolding answer_publish
      answer_publish-Keeps at_most_once o p b = handle_publish-Keeps M D n p b
      answer_publish-Keeps at_least_once o p b =
          let b₁ = handle_publish M D p b in
          Keeps-trans M D n b b₁
            (reply_with_id M D locked without_receiver Packet.puback o p.packet_id b₁)
            (handle_publish-Keeps M D n p b) (reply_with_id-Keeps Packet.puback o p.packet_id b₁)
      answer_publish-Keeps exactly_once o p b =
          let b₁ = handle_publish M D p b in
          Keeps-trans M D n b b₁
            (reply_with_id M D locked without_receiver Packet.pubrec o p.packet_id b₁)
            (handle_publish-Keeps M D n p b) (reply_with_id-Keeps Packet.pubrec o p.packet_id b₁)

      pub answer_subscribe-Keeps :
          (p : SubscribePacket) (s : Address) (b : Broker M D)
          → Keeps M D n b (answer_subscribe M D locked without_receiver p s b)
      unfolding answer_subscribe
      answer_subscribe-Keeps p s b =
          let (suback, b₁) = handle_subscribe M D locked without_receiver s p b in
          Keeps-trans M D n b b₁ (reply M D locked without_receiver s (Packet.suback suback) b₁)
            (handle_subscribe-Keeps M D n locked without_receiver s p b)
            (reply-Keeps M D n locked without_receiver s (Packet.suback suback) b₁)

      pub answer_unsubscribe-Keeps :
          (p : UnsubscribePacket) (s : Address) (b : Broker M D)
          → Keeps M D n b (answer_unsubscribe M D locked without_receiver p s b)
      unfolding answer_unsubscribe
      answer_unsubscribe-Keeps p s b =
          let b₁ = handle_unsubscribe M D s p b in
          Keeps-trans M D n b b₁
            (reply M D locked without_receiver s (Packet.unsuback p.packet_id) b₁)
            (handle_unsubscribe-Keeps M D n s p b)
            (reply-Keeps M D n locked without_receiver s (Packet.unsuback p.packet_id) b₁)

  pub disconnect-Grows :
      (o : Option Address) (w : World M D)
      → Grows w (on_broker M D (with_session M D (λ s b. handle_disconnect M D s b) o) w)
  disconnect-Grows o w =
      Grows-Keeps w (with_session M D (λ s b. handle_disconnect M D s b) o w.broker) (
        with_session-Keeps w.next_address (λ s b. handle_disconnect M D s b) o w.broker
          (λ s. handle_disconnect-Keeps M D w.next_address s w.broker))

  pub close_connection-Grows :
      (conn : Connection M) (w : World M D) → Grows w (close_connection M D conn w)
  unfolding close_connection
  close_connection-Grows conn w =
      let v = on_broker M D (with_session M D (λ s b. handle_disconnect M D s b) conn.session) w in
      Grows-trans w v (drop_rx M D conn.out_rx v) (disconnect-Grows conn.session w)
        (drop_rx-Grows conn.out_rx v)

  pub connect_session-Grows :
      (locked : Bool) (without_receiver : M.Sender) (connect : ConnectPacket) (w : World M D)
      → Grows w (connect_session M D locked without_receiver connect w).1
        × ((connect_session M D locked without_receiver connect w).1.next_address
            ≡ suc w.next_address)
  unfolding connect_session register_session
  connect_session-Grows locked without_receiver connect w =
      let ((tx, rx), net) = M.unbounded_channel w.broker.net in
      let n = w.next_address in
      let s = Session.new tx connect.client_id connect.clean_session connect.keep_alive in
      let b₁ : Broker M D = record w.broker { net = net } in
      let b₂ : Broker M D = record b₁ { heap = store n s b₁.heap } in
      let b₃ = register_session M D n b₂ in
      let (code, present) = handle_connect M D n b₂ in
      let greeting = Packet.connack (record { session_present = present; return_code = code }) in
      let replied = reply-Keeps M D (suc n) locked without_receiver n greeting b₃ in
      (
        record {
          kept = λ h.
              let registered =
                register_session-IsBroker M D n s b₁
                  (new-IsSession tx connect.client_id connect.clean_session connect.keep_alive)
                  ((Keeps-net M D n net w.broker).kept h) in
              replied.kept registered;
          more = omega arith;
          names = λ a lt.
              replied.names a
              ∙ ap (λ (r : Session M.Sender). r.client_id)
                  (stored_below M D n a s w.broker.heap lt);
        },
        refl,
      )
