-- ===== src/Server/Atomic/Agree/Answers.antt =====
-- Without interruption, the atomic actions of what a packet handler does with the session of its
-- connection do what it does in one step.
use opencode_rustquitto.Base.{
  ◌≡◌, refl, ap, ◌∙◌, Bool, true, false, Option, none, some, List, [], ◌∷◌, if◌then◌else◌,
}
use opencode_rustquitto.Extern.Channel.{Mpsc}
use opencode_rustquitto.Extern.DashMap.{DashMap}
use opencode_rustquitto.Text.{Text}
use opencode_rustquitto.Protocol.Qos.{Qos, at_most_once, at_least_once, exactly_once}
use opencode_rustquitto.Protocol.Types.{
  Packet, PacketId, PublishPacket, SubscribePacket, SubackPacket, UnsubscribePacket,
  SubscribeReturnCode, success_qos1, failure,
}
use opencode_rustquitto.Broker.Filter.{is_valid_topic_filter}
use opencode_rustquitto.Broker.Subscriptions.{Subscriber, add}
use opencode_rustquitto.Broker.Session.{sender_of}
use opencode_rustquitto.Broker.Handlers.{Address, Broker, subscriber_of}
use opencode_rustquitto.Broker.Handlers
use opencode_rustquitto.Server.Connection.{Connection, World, unconnected, on_broker, keep_alive_of}
use opencode_rustquitto.Server.Connection
use opencode_rustquitto.Server.Atomic.{done, run, bind, run-bind}
use opencode_rustquitto.Server.Atomic.Handlers.{
  Task, add_if, subscribe_all, handle_publish, handle_subscribe, handle_unsubscribe,
  handle_disconnect, handle_puback, reply, handle_pubrec, handle_pubrel, handle_pubcomp,
}
use opencode_rustquitto.Server.Atomic.Packets.{
  with_session, reply_with_id, answer_publish, answer_subscribe, answer_unsubscribe,
}
use opencode_rustquitto.Server.Atomic.Agree.{run-handle_publish}

module _ (M : Mpsc) (D : DashMap Address) where
  run-add_if :
      (v : Bool) (filter : Text) (s : Subscriber M.Sender) (w : World M D)
      → run (add_if M D v filter s) w ≡ (
        tt,
        on_broker M D
            (λ b. record b {
              subscriptions = if v then add b.subscriptions filter s else b.subscriptions;
            })
            w,
      )
  unfolding run add_if
  run-add_if true filter s w = refl
  run-add_if false filter s w = refl

  run-subscribe_all :
      (client_id : Text) (tx : M.Sender) (filters : List (Text × Qos)) (w : World M D)
      → let r = Handlers.subscribe_all M D client_id tx filters w.broker.subscriptions in
        run (subscribe_all M D client_id tx filters) w
        ≡ (r.0, on_broker M D (λ b. record b { subscriptions = r.1 }) w)
  unfolding run subscribe_all Handlers.subscribe_all
  run-subscribe_all client_id tx [] w = refl
  run-subscribe_all client_id tx ((filter, q) ∷ rest) w =
      let v = is_valid_topic_filter filter in
      let s = subscriber_of M D client_id tx in
      let code = if v then success_qos1 else failure in
      let tree = if v then add w.broker.subscriptions filter s else w.broker.subscriptions in
      let w₁ = on_broker M D (λ b. record b { subscriptions = tree }) w in
      run-bind (add_if M D v filter s)
        (λ u. bind (subscribe_all M D client_id tx rest) (λ codes. done (code ∷ codes))) w
      ∙ ap
          (λ (o : Unit {0} × World M D).
            run (bind (subscribe_all M D client_id tx rest) (λ codes. done (code ∷ codes))) o.1)
          (run-add_if v filter s w)
      ∙ run-bind (subscribe_all M D client_id tx rest) (λ codes. done (code ∷ codes)) w₁
      ∙ ap (λ (o : List SubscribeReturnCode × World M D). (code ∷ o.0, o.1))
          (run-subscribe_all client_id tx rest w₁)

  run-handle_disconnect :
      (s : Address) (w : World M D)
      → run (handle_disconnect M D s) w
        ≡ (tt, on_broker M D (λ b. Handlers.handle_disconnect M D s b) w)
  unfolding run handle_disconnect Handlers.handle_disconnect Handlers.remove_session
  run-handle_disconnect s w = refl

  pub run-with_session :
      (p : Address → Task M D (Unit {0})) (f : Address → Broker M D → Broker M D)
      (o : Option Address) (w : World M D)
      → ((s : Address) → run (p s) w ≡ (tt, on_broker M D (f s) w))
      → run (with_session M D p o) w ≡ (tt, on_broker M D (Connection.with_session M D f o) w)
  unfolding run with_session Connection.with_session
  run-with_session p f none w h = refl
  run-with_session p f (some s) w h = h s

  -- The session of a connection, if it has one, is disconnected.
  pub run-left :
      (o : Option Address) (w : World M D)
      → run (with_session M D (λ s. handle_disconnect M D s) o) w ≡ (
        tt,
        on_broker M D (Connection.with_session M D (λ s b. Handlers.handle_disconnect M D s b) o) w,
      )
  run-left o w =
      run-with_session (λ s. handle_disconnect M D s) (λ s b. Handlers.handle_disconnect M D s b) o
        w (λ s. run-handle_disconnect s w)

  module _ (locked : Bool) (without_receiver : M.Sender) where
    run-handle_subscribe :
        (session : Address) (p : SubscribePacket) (w : World M D)
        → let r = Handlers.handle_subscribe M D locked without_receiver session p w.broker in
          run (handle_subscribe M D locked without_receiver session p) w
          ≡ (r.0, on_broker M D (λ b. r.1) w)
    unfolding run handle_subscribe Handlers.handle_subscribe
    run-handle_subscribe session p w =
        let s = w.broker.heap session in
        let tx = sender_of locked without_receiver s in
        run-bind (subscribe_all M D s.client_id tx p.subscriptions)
          (λ codes. done (record { packet_id = p.packet_id; return_codes = codes })) w
        ∙ ap
            (λ (o : List SubscribeReturnCode × World M D).
              (record { packet_id = p.packet_id; return_codes = o.0 }, o.1))
            (run-subscribe_all s.client_id tx p.subscriptions w)

    pub run-reply :
        (s : Address) (p : Packet) (w : World M D)
        → run (reply M D locked without_receiver s p) w
          ≡ (tt, on_broker M D (λ b. Handlers.reply M D locked without_receiver s p b) w)
    unfolding run reply
    run-reply s p w = refl

    run-reply_with_id :
        (answer : PacketId → Packet) (o : Option Address) (id : Option PacketId) (w : World M D)
        → run (reply_with_id M D locked without_receiver answer o id) w
          ≡ (tt, on_broker M D (Connection.reply_with_id M D locked without_receiver answer o id) w)
    unfolding run reply_with_id Connection.reply_with_id reply
    run-reply_with_id answer (some s) (some id) w = refl
    run-reply_with_id answer (some s) none w = refl
    run-reply_with_id answer none id w = refl

    then_reply :
        (answer : PacketId → Packet) (o : Option Address) (p : PublishPacket) (w : World M D)
        → run
            (bind
              (handle_publish M D p)
              (λ u. reply_with_id M D locked without_receiver answer o p.packet_id))
            w
          ≡ (
            tt,
            on_broker M D
                (λ b.
                  Connection.reply_with_id M D locked without_receiver answer o p.packet_id
                    (Handlers.handle_publish M D p b))
                w,
          )
    then_reply answer o p w =
        run-bind (handle_publish M D p)
          (λ u. reply_with_id M D locked without_receiver answer o p.packet_id) w
        ∙ ap
            (λ (r : Unit {0} × World M D).
              run (reply_with_id M D locked without_receiver answer o p.packet_id) r.1)
            (run-handle_publish M D p w)
        ∙ run-reply_with_id answer o p.packet_id
            (on_broker M D (λ b. Handlers.handle_publish M D p b) w)

    pub run-answer_publish :
        (q : Qos) (o : Option Address) (p : PublishPacket) (w : World M D)
        → run (answer_publish M D locked without_receiver q o p) w
          ≡ (tt, on_broker M D (Connection.answer_publish M D locked without_receiver q o p) w)
    unfolding answer_publish Connection.answer_publish
    run-answer_publish at_most_once o p w = run-handle_publish M D p w
    run-answer_publish at_least_once o p w = then_reply Packet.puback o p w
    run-answer_publish exactly_once o p w = then_reply Packet.pubrec o p w

    pub run-answer_subscribe :
        (p : SubscribePacket) (s : Address) (w : World M D)
        → run (answer_subscribe M D locked without_receiver p s) w
          ≡ (tt, on_broker M D (Connection.answer_subscribe M D locked without_receiver p s) w)
    unfolding answer_subscribe Connection.answer_subscribe
    run-answer_subscribe p s w =
        let r = Handlers.handle_subscribe M D locked without_receiver s p w.broker in
        run-bind (handle_subscribe M D locked without_receiver s p)
          (λ suback. reply M D locked without_receiver s (Packet.suback suback)) w
        ∙ ap
            (λ (o : SubackPacket × World M D).
              run (reply M D locked without_receiver s (Packet.suback o.0)) o.1)
            (run-handle_subscribe s p w)
        ∙ run-reply s (Packet.suback r.0) (on_broker M D (λ b. r.1) w)

    -- The arms that are one or two actions.
    pub run-acknowledged :
        (s : Address) (id : PacketId) (w : World M D)
        → (run (handle_puback M D s id) w
            ≡ (tt, on_broker M D (λ b. Handlers.handle_puback M D s id b) w))
          × (run (handle_pubrec M D locked without_receiver s id) w ≡ (
            tt,
            on_broker M D (λ b. Handlers.handle_pubrec M D locked without_receiver s id b) w,
          ))
          × (run (handle_pubrel M D locked without_receiver s id) w ≡ (
            tt,
            on_broker M D (λ b. Handlers.handle_pubrel M D locked without_receiver s id b) w,
          ))
          × (run (handle_pubcomp M D s id) w
              ≡ (tt, on_broker M D (λ b. Handlers.handle_pubcomp M D s id b) w))
    unfolding run handle_puback handle_pubrec handle_pubrel handle_pubcomp reply
        Handlers.handle_puback Handlers.handle_pubrec Handlers.handle_pubrel Handlers.handle_pubcomp
    run-acknowledged s id w = (refl, refl, refl, refl)

    pub run-answer_unsubscribe :
        (p : UnsubscribePacket) (s : Address) (w : World M D)
        → run (answer_unsubscribe M D locked without_receiver p s) w
          ≡ (tt, on_broker M D (Connection.answer_unsubscribe M D locked without_receiver p s) w)
    unfolding run bind answer_unsubscribe Connection.answer_unsubscribe handle_unsubscribe reply
    run-answer_unsubscribe p s w = refl
