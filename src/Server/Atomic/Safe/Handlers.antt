-- ===== src/Server/Atomic/Safe/Handlers.antt =====
-- The atomic actions of the handlers of src/broker/mod.rs and src/broker/session.rs keep the invariant.
use opencode_rustquitto.Base.{ℕ, Bool, true, false, List, [], ◌∷◌, if◌then◌else◌}
use opencode_rustquitto.Extern.Channel.{Mpsc}
use opencode_rustquitto.Extern.DashMap.{DashMap}
use opencode_rustquitto.Text.{Text}
use opencode_rustquitto.Protocol.Qos.{Qos}
use opencode_rustquitto.Protocol.Types.{
  Packet, PacketId, SubscribePacket, UnsubscribePacket, success_qos1, failure,
}
use opencode_rustquitto.Broker.Filter.{is_valid_topic_filter}
use opencode_rustquitto.Broker.Subscriptions.{Subscriber, add, remove_all_for_client}
use opencode_rustquitto.Broker.Subscriptions.WellFormed.{operations-AreWellFormed}
use opencode_rustquitto.Broker.Session.{Session, remember, sender_of}
use opencode_rustquitto.Broker.Session
use opencode_rustquitto.Broker.Session.Invariant.{acknowledged}
use opencode_rustquitto.Broker.Handlers.{
  Address, Broker, get_session, remove_session, subscriber_of,
}
use opencode_rustquitto.Broker.Handlers
use opencode_rustquitto.Broker.Handlers.Invariant.{Keeps-tree}
use opencode_rustquitto.Broker.Handlers.Invariant.Preserved.{
  remove_session-Keeps, handle_unsubscribe-Keeps, reply-Keeps,
}
use opencode_rustquitto.Server.Connection.{on_broker}
use opencode_rustquitto.Server.Connection.Invariant.{Grows-refl}
use opencode_rustquitto.Server.Atomic.{done, bind}
use opencode_rustquitto.Server.Atomic.Handlers.{
  on_session, add_if, subscribe_all, handle_subscribe, handle_unsubscribe, handle_disconnect,
  handle_puback, handle_pubcomp, reply, handle_pubrec, handle_pubrel,
}
use opencode_rustquitto.Server.Atomic.Safe.{Safe, Safe-bind, Safe-change, Any}
use opencode_rustquitto.Server.Atomic.Safe.Publishing.{on_session-Grows, on_broker-Grows}

module _ (M : Mpsc) (D : DashMap Address) where
  Safe-add_if :
      (n : ℕ) (v : Bool) (filter : Text) (s : Subscriber M.Sender)
      → Safe M D Any n (add_if M D v filter s)
  unfolding add_if
  Safe-add_if n false filter s = tt
  Safe-add_if n true filter s =
      let f : Broker M D → Broker M D =
        λ b. record b { subscriptions = add b.subscriptions filter s } in
      Safe-change M D n (on_broker M D f) (λ w le. on_broker-Grows M D f w (λ m b.
        Keeps-tree M D m (add b.subscriptions filter s) b
          (λ h. (operations-AreWellFormed b.subscriptions filter s.client_id s h).0)))

  Safe-subscribe_all :
      (n : ℕ) (client_id : Text) (tx : M.Sender) (filters : List (Text × Qos))
      → Safe M D Any n (subscribe_all M D client_id tx filters)
  unfolding subscribe_all
  Safe-subscribe_all n client_id tx [] = tt
  Safe-subscribe_all n client_id tx ((filter, q) ∷ rest) =
      let valid = is_valid_topic_filter filter in
      let code = if valid then success_qos1 else failure in
      Safe-bind M D Any Any n (add_if M D valid filter (subscriber_of M D client_id tx))
        (λ u. bind (subscribe_all M D client_id tx rest) (λ codes. done (code ∷ codes)))
        (Safe-add_if n valid filter (subscriber_of M D client_id tx))
        (λ m u le t.
          Safe-bind M D Any Any m (subscribe_all M D client_id tx rest)
            (λ codes. done (code ∷ codes)) (Safe-subscribe_all m client_id tx rest)
            (λ k codes lk v. tt))

  pub Safe-handle_disconnect : (n : ℕ) (s : Address) → Safe M D Any n (handle_disconnect M D s)
  unfolding handle_disconnect
  Safe-handle_disconnect n s = λ w h le.
      let client_id = (w.broker.heap s).client_id in
      let f : Broker M D → Broker M D =
        λ b. record b { subscriptions = remove_all_for_client b.subscriptions client_id } in
      (
        on_broker-Grows M D (λ b. remove_session M D (b.heap s).client_id b) w
            (λ m b. remove_session-Keeps M D m (b.heap s).client_id b),
        Safe-change M D w.next_address (on_broker M D f) (λ v lv. on_broker-Grows M D f v (λ m b.
            Keeps-tree M D m (remove_all_for_client b.subscriptions client_id) b (λ t.
              (operations-AreWellFormed b.subscriptions client_id client_id
                (subscriber_of M D client_id (b.heap s).sender) t).2))),
      )

  pub Safe-handle_unsubscribe :
      (n : ℕ) (s : Address) (p : UnsubscribePacket) → Safe M D Any n (handle_unsubscribe M D s p)
  unfolding handle_unsubscribe
  Safe-handle_unsubscribe n s p =
      let f : Broker M D → Broker M D = λ b. Handlers.handle_unsubscribe M D s p b in
      Safe-change M D n (on_broker M D f)
        (λ w le. on_broker-Grows M D f w (λ m b. handle_unsubscribe-Keeps M D m s p b))

  pub Safe-handle_puback :
      (n : ℕ) (s : Address) (id : PacketId) → Safe M D Any n (handle_puback M D s id)
  unfolding handle_puback
  Safe-handle_puback n s id =
      Safe-change M D n (on_session M D s (λ t. Session.handle_puback id t)) (λ w le.
        on_session-Grows M D s (λ t. Session.handle_puback id t) w (λ t. (acknowledged id t).0))

  pub Safe-handle_pubcomp :
      (n : ℕ) (s : Address) (id : PacketId) → Safe M D Any n (handle_pubcomp M D s id)
  unfolding handle_pubcomp
  Safe-handle_pubcomp n s id =
      Safe-change M D n (on_session M D s (λ t. Session.handle_pubcomp id t)) (λ w le.
        on_session-Grows M D s (λ t. Session.handle_pubcomp id t) w (λ t. (acknowledged id t).2))

  module _ (locked : Bool) (without_receiver : M.Sender) where
    pub Safe-handle_subscribe :
        (n : ℕ) (s : Address) (p : SubscribePacket)
        → Safe M D Any n (handle_subscribe M D locked without_receiver s p)
    unfolding handle_subscribe
    Safe-handle_subscribe n s p = λ w h le.
        let t = w.broker.heap s in
        let tx = sender_of locked without_receiver t in
        (
          Grows-refl M D w,
          Safe-bind M D Any Any w.next_address (subscribe_all M D t.client_id tx p.subscriptions)
              (λ codes. done (record { packet_id = p.packet_id; return_codes = codes }))
              (Safe-subscribe_all w.next_address t.client_id tx p.subscriptions)
              (λ m codes lm q. tt),
        )

    pub Safe-reply :
        (n : ℕ) (s : Address) (p : Packet) → Safe M D Any n (reply M D locked without_receiver s p)
    unfolding reply
    Safe-reply n s p =
        let f : Broker M D → Broker M D = λ b. Handlers.reply M D locked without_receiver s p b in
        Safe-change M D n (on_broker M D f)
          (λ w le. on_broker-Grows M D f w (λ m b. reply-Keeps M D m locked without_receiver s p b))

    pub Safe-handle_pubrec :
        (n : ℕ) (s : Address) (id : PacketId)
        → Safe M D Any n (handle_pubrec M D locked without_receiver s id)
    unfolding handle_pubrec
    Safe-handle_pubrec n s id = λ w h le. (
      on_session-Grows M D s (λ t. Session.handle_pubrec id t) w (λ t. (acknowledged id t).1),
      Safe-reply w.next_address s (Packet.pubrel id),
    )

    pub Safe-handle_pubrel :
        (n : ℕ) (s : Address) (id : PacketId)
        → Safe M D Any n (handle_pubrel M D locked without_receiver s id)
    unfolding handle_pubrel
    Safe-handle_pubrel n s id = Safe-reply n s (Packet.pubcomp id)
