-- ===== src/Broker/Handlers/Tests.antt =====
-- The theorems on the handlers of src/broker/mod.rs at a concrete broker with one channel.
use opencode_rustquitto.Base.{
  ℕ, ◌+◌, ◌≡◌, refl, true, false, not, ◌&&◌, none, some, [], ◌∷◌, ◌===◌, map, ◌++◌,
}
use opencode_rustquitto.Base.Count.{count}
use opencode_rustquitto.Extern.Channel.{one_channel}
use opencode_rustquitto.Extern.DashMap.{DashMap, function_map}
use opencode_rustquitto.Text.{Text, find, contains}
use opencode_rustquitto.Text.Split.{split}
use opencode_rustquitto.Protocol.Qos.{at_most_once, exactly_once}
use opencode_rustquitto.Protocol.Types.{
  Packet, PublishPacket, SubscribePacket, success_qos1, failure, PacketId,
}
use opencode_rustquitto.Broker.Filter.{is_valid_topic_filter, hash_misplaced, plus_misplaced}
use opencode_rustquitto.Broker.Subscriptions.{TopicTree, default, add, of_other}
use opencode_rustquitto.Broker.Subscriptions.Entries.{entries}
use opencode_rustquitto.Broker.Subscriptions.WellFormed.{IsWellFormed, add_recursive-IsWellFormed}
use opencode_rustquitto.Broker.Subscriptions.Match.{matches_prefix}
use opencode_rustquitto.Broker.Session.{lookup, await_pubcomp, Session, sender_of}
use opencode_rustquitto.Broker.Session
use opencode_rustquitto.Broker.Handlers.{
  Address, Broker, subscriber_of, get_session, register_session, handle_subscribe,
  handle_unsubscribe, handle_disconnect, handle_publish, handle_pubrec, handle_pubrel,
}
use opencode_rustquitto.Broker.Handlers
use opencode_rustquitto.Broker.Handlers.Subscribing.{
  code_for, wanted, handle_subscribe_lem, cancelled, handle_unsubscribe_lem,
}
use mathlib.Core.Option
use opencode_rustquitto.Broker.Handlers.Acknowledging.{handle_pubrec_lem}
use opencode_rustquitto.Broker.Handlers.Leaving.{handle_disconnect_lem, disconnect_after_takeover}
use opencode_rustquitto.Broker.Handlers.Publishing.{copies, of_channel, handle_publish_qos0}

abbrev name : Text
name = b'c' ∷ b'1' ∷ []

abbrev topic : Text
topic = b'a' ∷ b'/' ∷ b'b' ∷ []

abbrev bad_filter : Text
bad_filter = b'a' ∷ b'+' ∷ []

abbrev sessions : DashMap Address
sessions = function_map ℕ

-- A broker without connections, and one at which the client has subscribed to the topic.
abbrev idle : Broker one_channel sessions
idle = Handlers.new sessions (λ a. Session.new tt name true 60) (true, [])

abbrev tree : TopicTree (Unit {0})
tree = add (record { root = default }) topic (subscriber_of one_channel sessions name tt)

abbrev subscribed : Broker one_channel sessions
subscribed = record idle { subscriptions = tree }

tree-IsWellFormed : IsWellFormed tree.root
unfolding add
tree-IsWellFormed =
    add_recursive-IsWellFormed (split topic) (subscriber_of one_channel sessions name tt) default
      (tt, tt)

abbrev request : SubscribePacket
request = record {
  packet_id = record { raw = 1 };
  subscriptions = (topic, exactly_once) ∷ (bad_filter, at_most_once) ∷ [];
}

codes : map code_for request.subscriptions ≡ success_qos1 ∷ failure ∷ []
unfolding is_valid_topic_filter hash_misplaced plus_misplaced split find contains
codes = refl

handle_subscribe_lem_example :
    let result = handle_subscribe one_channel sessions false tt 0 request idle in
    (result.0.packet_id ≡ record { raw = 1 })
    × (result.0.return_codes ≡ map code_for request.subscriptions)
    × (count (λ e. e.1.client_id === name) (entries result.1.subscriptions.root)
        ≡ count (λ e. e.1.client_id === name) (entries idle.subscriptions.root)
          + count
              (wanted one_channel sessions
                (λ e. e.1.client_id === name)
                (idle.heap 0).client_id
                (sender_of false tt (idle.heap 0)))
              request.subscriptions)
handle_subscribe_lem_example =
    handle_subscribe_lem one_channel sessions (λ e. e.1.client_id === name) false tt 0 request idle

handle_disconnect_lem_example :
    let client_id = (subscribed.heap 0).client_id in
    let after = handle_disconnect one_channel sessions 0 subscribed in
    (get_session one_channel sessions after client_id ≡ none)
    × ((k : Text)
        → (client_id === k) ≡ false
        → get_session one_channel sessions after k ≡ get_session one_channel sessions subscribed k)
    × (count (λ e. true) (entries after.subscriptions.root)
        ≡ count (λ e. of_other client_id e.1 && true) (entries tree.root))
handle_disconnect_lem_example = handle_disconnect_lem one_channel sessions (λ e. true) 0 subscribed

-- Sessions 0 and 1 belong to the same client.
disconnect_after_takeover_example :
    (get_session one_channel sessions
        (register_session one_channel sessions 1 subscribed)
        (subscribed.heap 1).client_id
      ≡ some 1)
    × (get_session one_channel sessions
          (handle_disconnect one_channel sessions 0
            (register_session one_channel sessions 1 subscribed))
          (subscribed.heap 1).client_id
        ≡ none)
unfolding Handlers.new
disconnect_after_takeover_example =
    disconnect_after_takeover one_channel sessions 0 1 subscribed refl

abbrev message : PublishPacket
message = record {
  dup = false;
  qos = at_most_once;
  retain = false;
  topic_name = topic;
  packet_id = none;
  payload = 1 ∷ 2 ∷ [];
}

handle_publish_qos0_example :
    (handle_publish one_channel sessions message subscribed).net.1
    ≡ copies
        (count
          (λ e. matches_prefix e.0 (split topic) && of_channel one_channel sessions tt e.1)
          (entries tree.root))
        (Packet.publish message)
unfolding Handlers.new
handle_publish_qos0_example =
    handle_publish_qos0 one_channel sessions message subscribed tt refl refl tree-IsWellFormed

-- Every session has a QoS 2 message in flight.
abbrev in_flight : Broker one_channel sessions
in_flight = record subscribed {
  heap = λ a.
      (Session.enqueue_publish one_channel (true, []) (subscribed.heap a)
        (record message { qos = exactly_once })).1;
}

handle_pubrec_lem_example :
    let id : PacketId = record { raw = 1 } in
    let received = handle_pubrec one_channel sessions false tt 0 id in_flight in
    (lookup id (received.heap 0).pending_qos2
      ≡ Option.map await_pubcomp (lookup id (in_flight.heap 0).pending_qos2))
    × (received.net.1 ≡ in_flight.net.1 ++ (Packet.pubrel id ∷ []))
    × ((handle_pubrel one_channel sessions false tt 0 id in_flight).net.1
        ≡ in_flight.net.1 ++ (Packet.pubcomp id ∷ []))
unfolding Handlers.new
handle_pubrec_lem_example =
    handle_pubrec_lem one_channel sessions tt 0 (record { raw = 1 }) in_flight refl

handle_unsubscribe_lem_example :
    count
      (λ e. true)
      (entries
        (handle_unsubscribe one_channel sessions 0
          (record { packet_id = record { raw = 2 }; topic_filters = topic ∷ [] })
          subscribed).subscriptions.root)
    ≡ count
        (λ e.
          not (cancelled one_channel sessions (subscribed.heap 0).client_id (topic ∷ []) e) && true)
        (entries tree.root)
handle_unsubscribe_lem_example =
    handle_unsubscribe_lem one_channel sessions (λ e. true) 0
      (record { packet_id = record { raw = 2 }; topic_filters = topic ∷ [] }) subscribed
      tree-IsWellFormed
