-- ===== src/Server/Atomic/Handlers.antt =====
-- The handlers of src/broker/mod.rs and the methods of src/broker/session.rs by their atomic actions.
use opencode_rustquitto.Base.{
  ◌+◌, ◌%◌, Bool, true, false, Option, none, some, List, [], ◌∷◌, ◌==◌, if◌then◌else◌,
}
use opencode_rustquitto.Extern.Channel.{Mpsc}
use opencode_rustquitto.Extern.DashMap.{DashMap}
use opencode_rustquitto.Text.{Text}
use opencode_rustquitto.Protocol.Qos.{Qos, at_most_once, min_qos}
use opencode_rustquitto.Protocol.Qos
use opencode_rustquitto.Protocol.Types.{
  Packet, PacketId, PublishPacket, SubscribePacket, SubackPacket, UnsubscribePacket,
  SubscribeReturnCode, success_qos1, failure,
}
use opencode_rustquitto.Broker.Filter.{is_valid_topic_filter}
use opencode_rustquitto.Broker.Subscriptions.{Subscriber, add, remove_all_for_client, matches}
use opencode_rustquitto.Broker.Session.{Session, remember, sender_of}
use opencode_rustquitto.Broker.Session
use opencode_rustquitto.Broker.Handlers.{
  Address, Broker, store, get_session, remove_session, subscriber_of,
}
use opencode_rustquitto.Broker.Handlers
use opencode_rustquitto.Server.Connection.{World, on_broker}
use opencode_rustquitto.Server.Atomic.{Program, done, act, bind, change, look}

-- `fetch_add(1)`, and `store(1)`.
abbrev pub count_up : {S : Type 0} → Session S → Session S
count_up s = record s { next_packet_id = (s.next_packet_id + 1) % 65536 }

abbrev pub restart : {S : Type 0} → Session S → Session S
restart s = record s { next_packet_id = 1 }

module _ (M : Mpsc) (D : DashMap Address) where
  open M use {Sender, send}

  abbrev pub Task : Type 0 → Type 0
  Task A = Program (World M D) A

  -- A change of a session, under its lock.
  abbrev pub on_session : Address → (Session Sender → Session Sender) → World M D → World M D
  on_session r f w = on_broker M D (λ b. record b { heap = store r (f (b.heap r)) b.heap }) w

  -- `sender.send(packet)`
  abbrev pub sends : Sender → Packet → World M D → World M D
  sends tx packet w = on_broker M D (λ b. record b { net = (send b.net tx packet).0 }) w

  unfoldable pub new_packet_id : Address → Task PacketId
  new_packet_id r = act (on_session r count_up) (λ w.
      let id = (w.broker.heap r).next_packet_id in
      if id == 0
      then act (on_session r restart) (λ v. done (record { raw = 1 }))
      else done (record { raw = id }))

  -- Behind the new identifier: the send, and the entry among the pending ones if it succeeds.
  unfoldable pub send_with_id : Address → PublishPacket → PacketId → Task (Unit {0})
  send_with_id r packet packet_id =
      let p : PublishPacket = record packet { packet_id = some packet_id } in
      act (λ w. sends (w.broker.heap r).sender (Packet.publish p) w)
        (λ w.
          if (send w.broker.net (w.broker.heap r).sender (Packet.publish p)).1
          then change (on_session r (λ s. remember packet.qos packet_id p s))
          else done tt)

  unfoldable pub enqueue_by : Qos → Address → PublishPacket → Task (Unit {0})
  enqueue_by at_most_once r packet =
      change (λ w. sends (w.broker.heap r).sender (Packet.publish packet) w)
  enqueue_by _ r packet = bind (new_packet_id r) (λ packet_id. send_with_id r packet packet_id)

  unfoldable pub enqueue_publish : Address → PublishPacket → Task (Unit {0})
  enqueue_publish r packet = enqueue_by packet.qos r packet

  unfoldable pub enqueue_to : Option Address → PublishPacket → Task (Unit {0})
  enqueue_to none publish = done tt
  enqueue_to (some session) publish = enqueue_publish session publish

  unfoldable pub publish_to : PublishPacket → Subscriber Sender → Task (Unit {0})
  publish_to packet subscriber =
      let effective_qos = min_qos packet.qos subscriber.qos in
      let publish : PublishPacket = record packet { qos = effective_qos } in
      if Qos.eq effective_qos at_most_once
      then change (sends subscriber.sender (Packet.publish publish))
      else look (λ w. enqueue_to (get_session M D w.broker subscriber.client_id) publish)

  unfoldable pub publish_to_all : PublishPacket → List (Subscriber Sender) → Task (Unit {0})
  publish_to_all packet [] = done tt
  publish_to_all packet (subscriber ∷ rest) =
      bind (publish_to packet subscriber) (λ u. publish_to_all packet rest)

  -- The subscribers are those that the tree has under its lock, at the start.
  unfoldable pub handle_publish : PublishPacket → Task (Unit {0})
  handle_publish packet =
      look (λ w. publish_to_all packet (matches w.broker.subscriptions packet.topic_name))

  unfoldable pub add_if : Bool → Text → Subscriber Sender → Task (Unit {0})
  add_if false filter subscriber = done tt
  add_if true filter subscriber =
      change
        (on_broker M D (λ b. record b { subscriptions = add b.subscriptions filter subscriber }))

  -- The tree is locked for each filter anew.
  unfoldable pub subscribe_all : Text → Sender → List (Text × Qos) → Task (List SubscribeReturnCode)
  subscribe_all client_id sender [] = done []
  subscribe_all client_id sender ((filter, requested_qos) ∷ rest) =
      let valid = is_valid_topic_filter filter in
      bind (add_if valid filter (subscriber_of M D client_id sender)) (λ u.
        bind (subscribe_all client_id sender rest)
          (λ codes. done ((if valid then success_qos1 else failure) ∷ codes)))

  unfoldable pub handle_subscribe : Bool → Sender → Address → SubscribePacket → Task SubackPacket
  handle_subscribe locked without_receiver session packet = look (λ w.
      let s = w.broker.heap session in
      bind (subscribe_all s.client_id (sender_of locked without_receiver s) packet.subscriptions)
        (λ codes. done (record { packet_id = packet.packet_id; return_codes = codes })))

  -- The tree is locked once for all filters.
  unfoldable pub handle_unsubscribe : Address → UnsubscribePacket → Task (Unit {0})
  handle_unsubscribe session packet =
      change (on_broker M D (λ b. Handlers.handle_unsubscribe M D session packet b))

  unfoldable pub handle_disconnect : Address → Task (Unit {0})
  handle_disconnect session =
      act (on_broker M D (λ b. remove_session M D (b.heap session).client_id b)) (λ w.
        let client_id = (w.broker.heap session).client_id in
        change (
          on_broker M D
            (λ b. record b { subscriptions = remove_all_for_client b.subscriptions client_id })))

  unfoldable pub handle_puback : Address → PacketId → Task (Unit {0})
  handle_puback session packet_id =
      change (on_session session (λ s. Session.handle_puback packet_id s))

  unfoldable pub handle_pubcomp : Address → PacketId → Task (Unit {0})
  handle_pubcomp session packet_id =
      change (on_session session (λ s. Session.handle_pubcomp packet_id s))

  module _ (locked : Bool) (without_receiver : Sender) where
    unfoldable pub reply : Address → Packet → Task (Unit {0})
    reply session packet =
        change (on_broker M D (λ b. Handlers.reply M D locked without_receiver session packet b))

    unfoldable pub handle_pubrec : Address → PacketId → Task (Unit {0})
    handle_pubrec session packet_id =
        act (on_session session (λ s. Session.handle_pubrec packet_id s))
          (λ w. reply session (Packet.pubrel packet_id))

    unfoldable pub handle_pubrel : Address → PacketId → Task (Unit {0})
    handle_pubrel session packet_id = reply session (Packet.pubcomp packet_id)
