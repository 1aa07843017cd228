-- ===== src/Server/Delivery/Tests.antt =====
-- The theorem on the way of a message at one subscriber.
use opencode_rustquitto.Base.{ℕ, ◌≡◌, refl, true, false, none, some, [], ◌∷◌, ◌++◌, Bytes, arith}
use opencode_rustquitto.Error.{ok}
use opencode_rustquitto.Extern.Buffer.{list_buffer}
use opencode_rustquitto.Extern.Channel.{one_channel}
use opencode_rustquitto.Extern.DashMap.{DashMap, function_map}
use opencode_rustquitto.Text.{Text}
use opencode_rustquitto.Text.Split.{split}
use opencode_rustquitto.Text.Utf8.{ascii-is_utf8}
use opencode_rustquitto.Protocol.Qos.{at_most_once}
use opencode_rustquitto.Protocol.Types.{Packet, PublishPacket, be_bytes}
use opencode_rustquitto.Protocol.Wire.{prefixed}
use opencode_rustquitto.Protocol.Decode.{decode}
use opencode_rustquitto.Protocol.RoundTrip.Publish.{IsSendable}
use opencode_rustquitto.Broker.Subscriptions.{TopicTree, default, add}
use opencode_rustquitto.Broker.Subscriptions.WellFormed.{IsWellFormed, add_recursive-IsWellFormed}
use opencode_rustquitto.Broker.Session
use opencode_rustquitto.Broker.Handlers.{Address, subscriber_of}
use opencode_rustquitto.Broker.Handlers
use opencode_rustquitto.Server.Connection.{World, unconnected}
use opencode_rustquitto.Server.Tcp.{handle_packet}
use opencode_rustquitto.Server.Tcp.Loop.{Local, running}
use opencode_rustquitto.Server.Tcp.Loop.Drains.{turns}
use opencode_rustquitto.Server.Delivery.{repeat, due, published_reaches_socket}

abbrev topic : Text
topic = b'a' ∷ b'/' ∷ b'b' ∷ []

abbrev message : PublishPacket
message = record {
  dup = false;
  qos = at_most_once;
  retain = false;
  topic_name = topic;
  packet_id = none;
  payload = 1 ∷ 2 ∷ [];
}

message-IsSendable : IsSendable message
unfolding prefixed be_bytes
message-IsSendable = record {
  topic = record { fits = omega arith; utf8 = ascii-is_utf8 topic (omega arith) };
  id = omega arith;
  fits = omega arith;
}

abbrev sessions : DashMap Address
sessions = function_map ℕ

abbrev tree : TopicTree (Unit {0})
tree = add (record { root = default }) topic (subscriber_of one_channel sessions (b'c' ∷ []) tt)

tree-IsWellFormed : IsWellFormed tree.root
unfolding add
tree-IsWellFormed =
    add_recursive-IsWellFormed (split topic) (subscriber_of one_channel sessions (b'c' ∷ []) tt)
      default (tt, tt)

abbrev world : World one_channel sessions
world = record {
  broker = record (Handlers.new sessions (λ a. Session.new tt [] true 0) (true, [])) {
    subscriptions = tree;
  };
  next_address = 1;
}

abbrev subscriber : Local one_channel Bytes
subscriber = record { buf = []; conn = record { session = some 0; out_rx = some tt }; written = [] }

published_reaches_socket_example :
    let published =
      (handle_packet one_channel sessions false tt unconnected (Packet.publish message) world).1 in
    let n = due list_buffer one_channel sessions false tt message tt world.broker in
    (bytes : Bytes) × (v : World one_channel sessions) × (decode bytes
      ≡ ok (Packet.publish message, []))
    × (turns list_buffer one_channel sessions false tt n subscriber published
        ≡ running (record subscriber { written = [] ++ repeat n bytes }) v)
    × (v.broker.net.1 ≡ [])
unfolding Handlers.new
published_reaches_socket_example =
    published_reaches_socket list_buffer one_channel sessions false tt message unconnected world
      subscriber tt tt message-IsSendable refl tree-IsWellFormed refl refl refl refl
