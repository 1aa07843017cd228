-- ===== src/Broker/Tests.antt =====
-- The unit tests of src/broker/subscriptions.rs and src/broker/mod.rs, and the theorems of Broker at
-- concrete trees and sessions.
use opencode_rustquitto.Base.{
  ℕ, ◌+◌, ◌≤◌, ◌≡◌, ◌≢◌, refl, ◌↔◌, Bool, true, false, ◌&&◌, some, none, [], ◌∷◌, ◌===◌, All, take,
}
use opencode_rustquitto.Base.Count.{count, retain}
use opencode_rustquitto.Extern.Channel.{one_channel}
use opencode_rustquitto.Text.{Text, find, contains, ends_with}
use opencode_rustquitto.Text.Split.{split}
use opencode_rustquitto.Protocol.Qos.{Qos, at_most_once, at_least_once, exactly_once}
use opencode_rustquitto.Protocol.Types.{PublishPacket}
use opencode_rustquitto.Broker.Filter.Valid.{hash_levels, plus_levels, is_valid_topic_filter_iff}
use opencode_rustquitto.Broker.Filter.{is_valid_topic_filter, hash_misplaced, plus_misplaced}
use opencode_rustquitto.Broker.Subscriptions.{
  Subscriber, TopicTree, hash, default, get, entry_or_default, modify, add_recursive, add,
  remove_recursive, remove, matches_recursive, matches,
}
use opencode_rustquitto.Broker.Subscriptions.Entries.{kept_levels, entries}
use opencode_rustquitto.Broker.Subscriptions.WellFormed.{IsWellFormed, add_recursive-IsWellFormed}
use opencode_rustquitto.Broker.Subscriptions.Add.{count-add}
use opencode_rustquitto.Broker.Subscriptions.Remove.{left_by, count-remove}
use opencode_rustquitto.Broker.Subscriptions.Match.{matches_prefix, count-matches}
use opencode_rustquitto.Broker.Subscriptions.Mqtt.{
  mqtt_matches, matches_prefix_iff, mqtt_delivered, delivered_below,
}
use opencode_rustquitto.Broker.Session.{
  Session, lookup, new, new_packet_id, enqueue_publish, handle_pubrec, handle_pubcomp,
  waiting_pubrec, waiting_pubcomp,
}
use opencode_rustquitto.Broker.Session.Ids.{after, new_packet_id_repeats}
use opencode_rustquitto.Broker.Session.Pending.{numbered}
use opencode_rustquitto.Broker.Session.Handshake.{qos2_handshake}

-- The topics `a`, `a/b`, `a/+`, `a/#` and `c/b`.
abbrev a : Text
a = b'a' ∷ []

abbrev a_b : Text
a_b = b'a' ∷ b'/' ∷ b'b' ∷ []

abbrev a_plus : Text
a_plus = b'a' ∷ b'/' ∷ b'+' ∷ []

abbrev a_hash : Text
a_hash = b'a' ∷ b'/' ∷ b'#' ∷ []

abbrev c_b : Text
c_b = b'c' ∷ b'/' ∷ b'b' ∷ []

abbrev client : Subscriber ℕ
client = record { client_id = b'c' ∷ b'1' ∷ []; sender = 1; qos = at_most_once }

abbrev default_tree : TopicTree ℕ
default_tree = record { root = default }

-- `exact_match`, `single_level_wildcard`, `multi_level_wildcard`, `remove_subscription` and `no_match`
-- of the source's tests, on shorter topics.
exact_match : matches (add default_tree a_b client) a_b ≡ client ∷ []
unfolding matches matches_recursive get add add_recursive entry_or_default split ◌===◌
exact_match = refl

single_level_wildcard : matches (add default_tree a_plus client) a_b ≡ client ∷ []
unfolding matches matches_recursive get add add_recursive entry_or_default split ◌===◌
single_level_wildcard = refl

multi_level_wildcard : matches (add default_tree a_hash client) a_b ≡ client ∷ []
unfolding matches matches_recursive get add add_recursive entry_or_default split ◌===◌
multi_level_wildcard = refl

remove_subscription : matches (remove (add default_tree a_b client) a_b client.client_id) a_b ≡ []
unfolding matches matches_recursive get add add_recursive entry_or_default split remove
    remove_recursive modify retain ◌===◌
remove_subscription = refl

no_match : matches (add default_tree a_b client) c_b ≡ []
unfolding matches matches_recursive get add add_recursive entry_or_default split ◌===◌
no_match = refl

valid_topic_filter_simple : is_valid_topic_filter a_b ≡ true
unfolding is_valid_topic_filter hash_misplaced plus_misplaced split find contains
valid_topic_filter_simple = refl

valid_topic_filter_single_wildcard : is_valid_topic_filter a_plus ≡ true
unfolding is_valid_topic_filter hash_misplaced plus_misplaced split find contains
valid_topic_filter_single_wildcard = refl

valid_topic_filter_multi_wildcard : is_valid_topic_filter a_hash ≡ true
unfolding is_valid_topic_filter hash_misplaced plus_misplaced split find ends_with contains
valid_topic_filter_multi_wildcard = refl

invalid_topic_filter_empty : is_valid_topic_filter [] ≡ false
unfolding is_valid_topic_filter
invalid_topic_filter_empty = refl

invalid_topic_filter_hash_not_at_end : is_valid_topic_filter (b'#' ∷ a_b) ≡ false
unfolding is_valid_topic_filter hash_misplaced plus_misplaced split find
invalid_topic_filter_hash_not_at_end = refl

is_valid_topic_filter_iff_example : (is_valid_topic_filter a_hash ≡ true) ↔ (
    (a_hash ≢ [])
    × (3 ≤ 65535)
    × (hash_levels (split a_hash) ≡ true)
    × (plus_levels (split a_hash) ≡ true))
is_valid_topic_filter_iff_example = is_valid_topic_filter_iff a_hash

-- Two subscriptions of the same client, to `a/#` and `a`.
abbrev tree : TopicTree ℕ
tree = add (add default_tree a_hash client) a client

tree-IsWellFormed : IsWellFormed tree.root
unfolding add
tree-IsWellFormed =
    add_recursive-IsWellFormed (split a) client (add_recursive default (split a_hash) client)
      (add_recursive-IsWellFormed (split a_hash) client default_tree.root (tt, tt))

abbrev any : Subscriber ℕ → Bool
any s = true

count-add_example :
    count (λ e. true) (entries (add tree a_b client).root)
    ≡ count (λ e. true) (entries tree.root) + 1
count-add_example = count-add (λ e. true) tree a_b client

count-remove_example :
    count (λ e. true) (entries (remove tree a client.client_id).root)
    ≡ count (left_by (kept_levels (split a)) client.client_id (λ e. true)) (entries tree.root)
count-remove_example = count-remove (λ e. true) tree a client.client_id tree-IsWellFormed

count-matches_example :
    count any (matches tree a_b)
    ≡ count (λ e. matches_prefix e.0 (split a_b) && any e.1) (entries tree.root)
count-matches_example = count-matches any tree a_b tree-IsWellFormed

matches_prefix_iff_example :
    (matches_prefix (a ∷ []) (a ∷ a ∷ []) ≡ true)
    ↔ ((n : ℕ) × (mqtt_matches (a ∷ []) (take n (a ∷ a ∷ [])) ≡ true))
matches_prefix_iff_example = matches_prefix_iff (a ∷ []) (a ∷ a ∷ []) ((λ e. absurd (cc)), tt)

mqtt_delivered_example :
    count (λ e. mqtt_matches e.0 (split a_b) && any e.1) (entries tree.root)
    ≤ count any (matches tree a_b)
mqtt_delivered_example = mqtt_delivered any tree a_b tree-IsWellFormed

no_hash : All (λ f. f ≢ hash) (split a)
unfolding split
no_hash = ((λ e. cc), tt)

a_matches : mqtt_matches (split a) (split a) ≡ true
unfolding split mqtt_matches ◌===◌
a_matches = refl

-- A subscription to `a` receives `a/b`.
delivered_below_example :
    (mqtt_matches (split a) (split a_b) ≡ false)
    × (count any (matches (add tree a client) a_b) ≡ count any (matches tree a_b) + 1)
delivered_below_example =
    delivered_below any tree a client a (b'b' ∷ []) tree-IsWellFormed no_hash a_matches

abbrev session : Session (Unit {0})
session = new tt a true 60

abbrev message : Qos → PublishPacket
message q = record {
  dup = false;
  qos = q;
  retain = false;
  topic_name = a_b;
  packet_id = none;
  payload = 1 ∷ 2 ∷ [];
}

session_counter : session.next_packet_id ≡ 1
unfolding new
session_counter = refl

new_packet_id_repeats_example :
    ((new_packet_id (after 65535 session)).0 ≡ record { raw = 1 })
    × ((new_packet_id (after 65536 session)).0 ≡ record { raw = 1 })
new_packet_id_repeats_example = new_packet_id_repeats session session_counter

qos2_handshake_example :
    let id = (new_packet_id session).0 in
    let sent = (enqueue_publish one_channel (true, []) session (message exactly_once)).1 in
    let packet = numbered one_channel session (message exactly_once) in
    (lookup id sent.pending_qos2 ≡ some (record { packet = packet; state = waiting_pubrec }))
    × (lookup id (handle_pubrec id sent).pending_qos2
        ≡ some (record { packet = packet; state = waiting_pubcomp }))
    × (lookup id (handle_pubcomp id (handle_pubrec id sent)).pending_qos2 ≡ none)
qos2_handshake_example =
    qos2_handshake one_channel (true, []) session (message exactly_once) refl refl

-- Two messages in flight; the first one is acknowledged.
abbrev busy : Session (Unit {0})
busy =
    (enqueue_publish one_channel (true, [])
      (enqueue_publish one_channel (true, []) session (message at_least_once)).1
      (message exactly_once)).1
