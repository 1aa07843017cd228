-- ===== src/Broker/Handlers.antt =====
-- The handlers of src/broker/mod.rs. An `Arc<Session>` is an address of the heap of sessions, so that
-- the map of sessions and a connection share the session they point to. Each handler is one
-- step; `locked` and `without_receiver` are those of `sender_of`.
pub mod Subscribing
pub mod Leaving
pub mod Acknowledging
pub mod Publishing
pub mod Invariant
pub mod Alone
mod Tests
use opencode_rustquitto.Base.{
  ℕ, Bool, true, false, not, Option, none, some, List, [], ◌∷◌, ◌==◌, if◌then◌else◌,
}
use opencode_rustquitto.Extern.Channel.{Mpsc}
use opencode_rustquitto.Extern.DashMap.{DashMap}
use opencode_rustquitto.Text.{Text}
use opencode_rustquitto.Protocol.Qos.{Qos, at_most_once, at_least_once, min_qos}
use opencode_rustquitto.Protocol.Qos
use opencode_rustquitto.Protocol.Types.{
  Packet, PacketId, PublishPacket, SubscribePacket, SubackPacket, UnsubscribePacket,
  SubscribeReturnCode, success_qos1, failure, ConnackReturnCode,
}
use opencode_rustquitto.Broker.Filter.{is_valid_topic_filter}
use opencode_rustquitto.Broker.Subscriptions.{
  Subscriber, TopicTree, default, add, remove, remove_all_for_client, matches,
}
use opencode_rustquitto.Broker.Session.{Session, sender_of}
use opencode_rustquitto.Broker.Session

abbrev pub Address : Type 0
Address = ℕ

-- The broker's two fields, with the heap and the channels that they refer to.
pub record Broker (M : Mpsc) (D : DashMap Address) : Type 0 where
  pub sessions : D.Map
  pub subscriptions : TopicTree M.Sender
  pub heap : Address → Session M.Sender
  pub net : M.Network

-- `Broker::new`
unfoldable pub new :
    {M : Mpsc} (D : DashMap Address) → (Address → Session M.Sender) → M.Network → Broker M D
new D heap net = record {
  sessions = D.empty;
  subscriptions = record { root = default };
  heap = heap;
  net = net;
}

-- The session at an address is changed in place.
unfoldable pub store :
    {S : Type 0} → Address → Session S → (Address → Session S) → Address → Session S
store r s heap a = if r == a then s else heap a

module _ (M : Mpsc) (D : DashMap Address) where
  open M use {Sender, send}

  unfoldable pub register_session : Address → Broker M D → Broker M D
  register_session session b = record b {
    sessions = D.insert b.sessions (b.heap session).client_id session;
  }

  unfoldable pub remove_session : Text → Broker M D → Broker M D
  remove_session client_id b = record b { sessions = D.remove b.sessions client_id }

  unfoldable pub get_session : Broker M D → Text → Option Address
  get_session b client_id = D.get b.sessions client_id

  -- The test on `contains_key` is for the log only.
  unfoldable pub handle_connect : Address → Broker M D → ConnackReturnCode × Bool
  handle_connect session b = (ConnackReturnCode.accepted, not (b.heap session).clean_session)

  -- `if let Some(session) = …`
  unfoldable pub enqueue_to : Option Address → PublishPacket → Broker M D → Broker M D
  enqueue_to none publish b = b
  enqueue_to (some session) publish b =
      let (net, s) = Session.enqueue_publish M b.net (b.heap session) publish in
      record b { heap = store session s b.heap; net = net }

  -- The body of the loop in `handle_publish`.
  unfoldable pub publish_to : PublishPacket → Subscriber Sender → Broker M D → Broker M D
  publish_to packet subscriber b =
      let effective_qos = min_qos packet.qos subscriber.qos in
      let publish : PublishPacket = record packet { qos = effective_qos } in
      if Qos.eq effective_qos at_most_once
      then record b { net = (send b.net subscriber.sender (Packet.publish publish)).0 }
      else enqueue_to (get_session b subscriber.client_id) publish b

  unfoldable pub publish_to_all : PublishPacket → List (Subscriber Sender) → Broker M D → Broker M D
  publish_to_all packet [] b = b
  publish_to_all packet (subscriber ∷ rest) b =
      publish_to_all packet rest (publish_to packet subscriber b)

  unfoldable pub handle_publish : PublishPacket → Broker M D → Broker M D
  handle_publish packet b = publish_to_all packet (matches b.subscriptions packet.topic_name) b

  abbrev pub subscriber_of : Text → Sender → Subscriber Sender
  subscriber_of client_id sender = record {
    client_id = client_id;
    sender = sender;
    qos = at_least_once;
  }

  -- The loop of `handle_subscribe`: the codes it pushes, and the tree.
  unfoldable pub subscribe_all :
      Text
      → Sender
      → List (Text × Qos)
      → TopicTree Sender
      → List SubscribeReturnCode × TopicTree Sender
  subscribe_all client_id sender [] tree = ([], tree)
  subscribe_all client_id sender ((filter, requested_qos) ∷ rest) tree =
      let valid = is_valid_topic_filter filter in
      let grown = if valid then add tree filter (subscriber_of client_id sender) else tree in
      let (codes, tree₁) = subscribe_all client_id sender rest grown in
      ((if valid then success_qos1 else failure) ∷ codes, tree₁)

  unfoldable pub handle_subscribe :
      Bool → Sender → Address → SubscribePacket → Broker M D → SubackPacket × Broker M D
  handle_subscribe locked without_receiver session packet b =
      let s = b.heap session in
      let sender = sender_of locked without_receiver s in
      let (codes, tree) = subscribe_all s.client_id sender packet.subscriptions b.subscriptions in
      (
        record { packet_id = packet.packet_id; return_codes = codes },
        record b { subscriptions = tree },
      )

  pub unsubscribe_all : Text → List Text → TopicTree Sender → TopicTree Sender
  unsubscribe_all client_id [] tree = tree
  unsubscribe_all client_id (filter ∷ rest) tree =
      unsubscribe_all client_id rest (remove tree filter client_id)

  pub handle_unsubscribe : Address → UnsubscribePacket → Broker M D → Broker M D
  handle_unsubscribe session packet b = record b {
    subscriptions = unsubscribe_all (b.heap session).client_id packet.topic_filters b.subscriptions;
  }

  unfoldable pub handle_disconnect : Address → Broker M D → Broker M D
  handle_disconnect session b =
      let client_id = (b.heap session).client_id in
      let b₁ = remove_session client_id b in
      record b₁ { subscriptions = remove_all_for_client b₁.subscriptions client_id }

  unfoldable pub handle_puback : Address → PacketId → Broker M D → Broker M D
  handle_puback session packet_id b = record b {
    heap = store session (Session.handle_puback packet_id (b.heap session)) b.heap;
  }

  -- `let _ = session.sender().send(packet)`
  unfoldable pub reply : Bool → Sender → Address → Packet → Broker M D → Broker M D
  reply locked without_receiver session packet b = record b {
    net = (send b.net (sender_of locked without_receiver (b.heap session)) packet).0;
  }

  unfoldable pub handle_pubrec : Bool → Sender → Address → PacketId → Broker M D → Broker M D
  handle_pubrec locked without_receiver session packet_id b =
      let heap = store session (Session.handle_pubrec packet_id (b.heap session)) b.heap in
      reply locked without_receiver session (Packet.pubrel packet_id) (record b { heap = heap })

  unfoldable pub handle_pubrel : Bool → Sender → Address → PacketId → Broker M D → Broker M D
  handle_pubrel locked without_receiver session packet_id b =
      reply locked without_receiver session (Packet.pubcomp packet_id) b

  unfoldable pub handle_pubcomp : Address → PacketId → Broker M D → Broker M D
  handle_pubcomp session packet_id b = record b {
    heap = store session (Session.handle_pubcomp packet_id (b.heap session)) b.heap;
  }
