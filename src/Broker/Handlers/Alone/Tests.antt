-- ===== src/Broker/Handlers/Alone/Tests.antt =====
-- The theorem on what one client sees of `handle_publish`, at two clients with a subscription each, over
-- channels of their own.
use opencode_rustquitto.Base.{
  ℕ, ◌≡◌, refl, sym, true, false, Bool-cases, inl, inr, some, none, [], ◌∷◌, ◌==◌, ◌===◌, ===_iff,
  if◌then◌else◌,
}
use opencode_rustquitto.Extern.Channels.{channels}
use opencode_rustquitto.Extern.DashMap.{DashMap, function_map}
use opencode_rustquitto.Text.{Text}
use opencode_rustquitto.Protocol.Qos.{at_least_once}
use opencode_rustquitto.Protocol.Types.{PublishPacket}
use opencode_rustquitto.Broker.Subscriptions.{default, add, matches}
use opencode_rustquitto.Broker.Session
use opencode_rustquitto.Broker.Handlers.{
  Address, Broker, subscriber_of, get_session, handle_publish,
}
use opencode_rustquitto.Broker.Handlers.Alone.{Stands, see_all, handle_publish_alone}

abbrev name : Text
name = b'c' ∷ b'1' ∷ []

abbrev second_name : Text
second_name = b'c' ∷ b'2' ∷ []

abbrev topic : Text
topic = b'a' ∷ []

abbrev sessions : DashMap Address
sessions = function_map ℕ

-- The session at an address sends into the channel of the same number.
abbrev subscribed : Broker channels sessions
subscribed = record {
  sessions = λ j. if name === j then some 0 else (if second_name === j then some 1 else none);
  subscriptions =
      add (add (record { root = default }) topic (subscriber_of channels sessions name 0)) topic
        (subscriber_of channels sessions second_name 1);
  heap = λ a. Session.new a (if a == 0 then name else second_name) true 60;
  net = (2, λ c. (true, []));
}

abbrev message : PublishPacket
message = record {
  dup = false;
  qos = at_least_once;
  retain = false;
  topic_name = topic;
  packet_id = none;
  payload = 1 ∷ 2 ∷ [];
}

found_first : (j : Text) → get_session channels sessions subscribed j ≡ some 0 → j ≡ name
unfolding get_session
found_first j h = elim (Bool-cases (name === j)) [
  | inl here ↦ sym ((===_iff name j).0 here)
  | inr there ↦ elim (Bool-cases (second_name === j)) [
    | inl second ↦ absurd (let x = rw (there, second) at h in cc)
    | inr neither ↦ absurd (let x = rw (there, neither) at h in cc)
  ]
]

subscribed-Stands : Stands channels sessions 0 name 0 subscribed
unfolding get_session ◌===◌ Session.new
subscribed-Stands = record {
  found = refl;
  only = found_first;
  sender = refl;
  opened = refl;
  apart = λ j r h far same. far same;
}

handle_publish_alone_example :
    (
      ((handle_publish channels sessions message subscribed).net.1 0).1,
      (handle_publish channels sessions message subscribed).heap 0,
    )
    ≡ see_all channels sessions 0 name 0 message
        (matches subscribed.subscriptions topic)
        ([], Session.new 0 name true 60)
handle_publish_alone_example =
    handle_publish_alone channels sessions 0 name 0 message subscribed subscribed-Stands
