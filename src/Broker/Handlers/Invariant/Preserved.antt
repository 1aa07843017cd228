-- ===== src/Broker/Handlers/Invariant/Preserved.antt =====
-- The handlers of src/broker/mod.rs keep the broker's invariant.
use opencode_rustquitto.Base.{
  refl, ◌∙◌, sym, Bool, true, false, Bool-cases, inl, inr, Option, none, some, List, [], ◌∷◌, ◌===◌,
  if◌then◌else◌,
}
use opencode_rustquitto.Extern.Channel.{Mpsc}
use opencode_rustquitto.Extern.DashMap.{DashMap}
use opencode_rustquitto.Text.{Text}
use opencode_rustquitto.Protocol.Qos.{Qos, at_most_once, at_least_once, exactly_once, min_qos}
use opencode_rustquitto.Protocol.Qos
use opencode_rustquitto.Protocol.Types.{
  Packet, PacketId, PublishPacket, SubscribePacket, UnsubscribePacket,
}
use opencode_rustquitto.Broker.Filter.{is_valid_topic_filter}
use opencode_rustquitto.Broker.Subscriptions.{
  Subscriber, TopicTree, add, remove, remove_all_for_client, matches,
}
use opencode_rustquitto.Broker.Subscriptions.WellFormed.{
  IsWellFormed, operations-AreWellFormed, remove-IsWellFormed,
}
use opencode_rustquitto.Broker.Session.{Session, sender_of}
use opencode_rustquitto.Broker.Session
use opencode_rustquitto.Broker.Session.Invariant.{acknowledged, enqueue_publish-KeepsSession}
use opencode_rustquitto.Broker.Handlers.{
  Address, Broker, store, remove_session, get_session, enqueue_to, publish_to, publish_to_all,
  handle_publish, subscribe_all, subscriber_of, handle_subscribe, unsubscribe_all,
  handle_unsubscribe, handle_disconnect, handle_puback, reply, handle_pubrec, handle_pubrel,
  handle_pubcomp,
}
use opencode_rustquitto.Broker.Handlers.Invariant.{
  Keeps, Keeps-refl, Keeps-trans, Keeps-net, Keeps-tree, Keeps-store,
}

module _ (M : Mpsc) (D : DashMap Address) where
  subscribe_all-IsWellFormed :
      (client_id : Text) (tx : M.Sender) (filters : List (Text × Qos)) (tree : TopicTree M.Sender)
      → IsWellFormed tree.root
      → IsWellFormed (subscribe_all M D client_id tx filters tree).1.root
  unfolding subscribe_all
  subscribe_all-IsWellFormed client_id tx [] tree h = h
  subscribe_all-IsWellFormed client_id tx ((filter, q) ∷ rest) tree h =
      let s = subscriber_of M D client_id tx in
      subscribe_all-IsWellFormed client_id tx rest
        (if is_valid_topic_filter filter then add tree filter s else tree)
        (elim (is_valid_topic_filter filter)
          as (λ v. IsWellFormed (if v then add tree filter s else tree).root) [
            | true ↦ (operations-AreWellFormed tree filter client_id s h).0
            | false ↦ h
          ])

  unsubscribe_all-IsWellFormed :
      (client_id : Text) (filters : List Text) (tree : TopicTree M.Sender)
      → IsWellFormed tree.root
      → IsWellFormed (unsubscribe_all M D client_id filters tree).root
  unfolding unsubscribe_all
  unsubscribe_all-IsWellFormed client_id [] tree h = h
  unsubscribe_all-IsWellFormed client_id (filter ∷ rest) tree h =
      unsubscribe_all-IsWellFormed client_id rest (remove tree filter client_id)
        (remove-IsWellFormed tree filter client_id h)

  module _ (n : Address) where
    pub remove_session-Keeps :
        (client_id : Text) (b : Broker M D) → Keeps M D n b (remove_session M D client_id b)
    unfolding remove_session get_session
    remove_session-Keeps client_id b = record {
      kept = λ h. record {
        named = λ k a g. elim (Bool-cases (client_id === k)) [
          | inl here ↦
              absurd (let x = rw here at (sym (D.get-remove b.sessions client_id k) ∙ g) in cc)
          | inr there ↦ h.named k a (rw there at (sym (D.get-remove b.sessions client_id k) ∙ g))
        ];
        sessions_hold = h.sessions_hold;
        tree = h.tree;
      };
      names = λ a. refl;
    }

    pub handle_disconnect-Keeps :
        (session : Address) (b : Broker M D) → Keeps M D n b (handle_disconnect M D session b)
    unfolding handle_disconnect
    handle_disconnect-Keeps session b =
        let client_id = (b.heap session).client_id in
        let b₁ = remove_session M D client_id b in
        Keeps-trans M D n b b₁ (handle_disconnect M D session b) (remove_session-Keeps client_id b)
          (Keeps-tree M D n (remove_all_for_client b₁.subscriptions client_id) b₁ (λ h.
            (operations-AreWellFormed b₁.subscriptions client_id client_id
              (subscriber_of M D client_id (b.heap session).sender) h).2))

    pub handle_puback-Keeps :
        (session : Address) (id : PacketId) (b : Broker M D)
        → Keeps M D n b (handle_puback M D session id b)
    unfolding handle_puback
    handle_puback-Keeps session id b =
        Keeps-store M D n session (Session.handle_puback id (b.heap session)) b
          (acknowledged id (b.heap session)).0

    pub handle_pubcomp-Keeps :
        (session : Address) (id : PacketId) (b : Broker M D)
        → Keeps M D n b (handle_pubcomp M D session id b)
    unfolding handle_pubcomp
    handle_pubcomp-Keeps session id b =
        Keeps-store M D n session (Session.handle_pubcomp id (b.heap session)) b
          (acknowledged id (b.heap session)).2

    module _ (locked : Bool) (without_receiver : M.Sender) where
      pub reply-Keeps :
          (session : Address) (p : Packet) (b : Broker M D)
          → Keeps M D n b (reply M D locked without_receiver session p b)
      unfolding reply
      reply-Keeps session p b =
          Keeps-net M D n (M.send b.net (sender_of locked without_receiver (b.heap session)) p).0 b

      pub handle_pubrec-Keeps :
          (session : Address) (id : PacketId) (b : Broker M D)
          → Keeps M D n b (handle_pubrec M D locked without_receiver session id b)
      unfolding handle_pubrec
      handle_pubrec-Keeps session id b =
          let b₁ : Broker M D = record b {
            heap = store session (Session.handle_pubrec id (b.heap session)) b.heap;
          } in
          Keeps-trans M D n b b₁ (handle_pubrec M D locked without_receiver session id b)
            (Keeps-store M D n session (Session.handle_pubrec id (b.heap session)) b
              (acknowledged id (b.heap session)).1)
            (reply-Keeps session (Packet.pubrel id) b₁)

      pub handle_pubrel-Keeps :
          (session : Address) (id : PacketId) (b : Broker M D)
          → Keeps M D n b (handle_pubrel M D locked without_receiver session id b)
      unfolding handle_pubrel
      handle_pubrel-Keeps session id b = reply-Keeps session (Packet.pubcomp id) b

      pub handle_subscribe-Keeps :
          (session : Address) (p : SubscribePacket) (b : Broker M D)
          → Keeps M D n b (handle_subscribe M D locked without_receiver session p b).1
      unfolding handle_subscribe
      handle_subscribe-Keeps session p b =
          let s = b.heap session in
          let tx = sender_of locked without_receiver s in
          Keeps-tree M D n (subscribe_all M D s.client_id tx p.subscriptions b.subscriptions).1 b
            (subscribe_all-IsWellFormed s.client_id tx p.subscriptions b.subscriptions)

    pub handle_unsubscribe-Keeps :
        (session : Address) (p : UnsubscribePacket) (b : Broker M D)
        → Keeps M D n b (handle_unsubscribe M D session p b)
    unfolding handle_unsubscribe
    handle_unsubscribe-Keeps session p b =
        Keeps-tree M D n
          (unsubscribe_all M D (b.heap session).client_id p.topic_filters b.subscriptions) b
          (unsubscribe_all-IsWellFormed (b.heap session).client_id p.topic_filters b.subscriptions)

    enqueue_to-Keeps :
        (o : Option Address) (p : PublishPacket) (b : Broker M D)
        → Keeps M D n b (enqueue_to M D o p b)
    unfolding enqueue_to
    enqueue_to-Keeps none p b = Keeps-refl M D n b
    enqueue_to-Keeps (some session) p b =
        let (net, s) = Session.enqueue_publish M b.net (b.heap session) p in
        let b₁ : Broker M D = record b { heap = store session s b.heap } in
        Keeps-trans M D n b b₁ (record b₁ { net = net })
          (Keeps-store M D n session s b (enqueue_publish-KeepsSession M b.net (b.heap session) p))
          (Keeps-net M D n net b₁)

    publish_to-Keeps :
        (p : PublishPacket) (s : Subscriber M.Sender) (b : Broker M D)
        → Keeps M D n b (publish_to M D p s b)
    unfolding publish_to
    publish_to-Keeps p s b =
        let q = min_qos p.qos s.qos in
        let p₁ : PublishPacket = record p { qos = q } in
        elim (Bool-cases (Qos.eq q at_most_once)) [
          | inl zero ↦ rw zero (Keeps-net M D n (M.send b.net s.sender (Packet.publish p₁)).0 b)
          | inr more ↦ rw more (enqueue_to-Keeps (get_session M D b s.client_id) p₁ b)
        ]

    publish_to_all-Keeps :
        (p : PublishPacket) (ss : List (Subscriber M.Sender)) (b : Broker M D)
        → Keeps M D n b (publish_to_all M D p ss b)
    unfolding publish_to_all
    publish_to_all-Keeps p [] b = Keeps-refl M D n b
    publish_to_all-Keeps p (s ∷ ss) b =
        let b₁ = publish_to M D p s b in
        Keeps-trans M D n b b₁ (publish_to_all M D p ss b₁) (publish_to-Keeps p s b)
          (publish_to_all-Keeps p ss b₁)

    pub handle_publish-Keeps :
        (p : PublishPacket) (b : Broker M D) → Keeps M D n b (handle_publish M D p b)
    unfolding handle_publish
    handle_publish-Keeps p b = publish_to_all-Keeps p (matches b.subscriptions p.topic_name) b
