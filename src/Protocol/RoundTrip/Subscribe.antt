-- ===== src/Protocol/RoundTrip/Subscribe.antt =====
-- SUBSCRIBE and UNSUBSCRIBE packets through `decode` (src/protocol/decode.rs). The broker does not
-- encode them, so the wire form of the specification stands for the client.
use opencode_rustquitto.Base.{
  ℕ, zero, suc, ◌^◌, ◌≤◌, ◌<◌, ◌≡◌, ◌≢◌, refl, ap, ◌∙◌, List, [], ◌∷◌, ◌++◌, append-nil,
  append_assoc, length, length-append, All, Bytes, arith,
}
use opencode_rustquitto.Error.{ok}
use opencode_rustquitto.Text.{Text}
use opencode_rustquitto.Protocol.Qos.{Qos, at_most_once, at_least_once, exactly_once}
use opencode_rustquitto.Protocol.Qos
use opencode_rustquitto.Protocol.PacketType.{PacketType}
use opencode_rustquitto.Protocol.Types.{Packet, PacketId, SubscribePacket, UnsubscribePacket}
use opencode_rustquitto.Protocol.Encode.Layout.{length-be_bytes}
use opencode_rustquitto.Protocol.Wire.{
  frame, prefixed, filters_bytes, topics_bytes, subscribe_body, unsubscribe_body, IsText,
}
use opencode_rustquitto.Protocol.Decode.{decode, decode_body}
use opencode_rustquitto.Protocol.Decode.Readers.{inner_read_u8, inner_read_u16, read_utf8_string}
use opencode_rustquitto.Protocol.Decode.Packets.{
  subscribe_loop, unsubscribe_loop, some_subscriptions, some_topics, decode_subscribe,
  decode_unsubscribe,
}
use opencode_rustquitto.Protocol.Decode.Laws.{
  read_utf8_string-prefixed, read_packet_id-be_bytes, decode-frame,
}

length-prefixed : (t : Text) (rest : Bytes) → length rest < length (prefixed t ++ rest)
unfolding prefixed
length-prefixed t rest =
    rw append_assoc (omega (arith, length-be_bytes (length t) (t ++ rest), length-append t rest))

subscribe_step :
    (fuel : ℕ) (src : Bytes) (done : List (Text × Qos)) (t : Text) (q : Qos) (src₁ : Bytes)
    → read_utf8_string src ≡ ok (t, Qos.as_u8 q ∷ src₁)
    → subscribe_loop (suc fuel) src done ≡ subscribe_loop fuel src₁ (done ++ ((t, q) ∷ []))
unfolding subscribe_loop inner_read_u8 Qos.as_u8 Qos.try_from_u8
subscribe_step fuel [] done t q src₁ h = unfold read_utf8_string inner_read_u16 in cc
subscribe_step fuel (b ∷ src) done t at_most_once src₁ h = rw h
subscribe_step fuel (b ∷ src) done t at_least_once src₁ h = rw h
subscribe_step fuel (b ∷ src) done t exactly_once src₁ h = rw h

filters_bytes_shorter :
    (t : Text) (q : Qos) (subs : List (Text × Qos))
    → length (filters_bytes subs) < length (filters_bytes ((t, q) ∷ subs))
unfolding filters_bytes
filters_bytes_shorter t q subs = omega (arith, length-prefixed t (Qos.as_u8 q ∷ filters_bytes subs))

topics_bytes_shorter :
    (t : Text) (topics : List Text)
    → length (topics_bytes topics) < length (topics_bytes (t ∷ topics))
unfolding topics_bytes
topics_bytes_shorter t topics = length-prefixed t (topics_bytes topics)

subscribe_loop-filters_bytes :
    (subs : List (Text × Qos)) (fuel : ℕ) (done : List (Text × Qos))
    → All (λ s. IsText s.0) subs
    → length (filters_bytes subs) ≤ fuel
    → subscribe_loop fuel (filters_bytes subs) done ≡ ok (done ++ subs, [])
subscribe_loop-filters_bytes [] fuel done h k = unfold subscribe_loop filters_bytes in rw append-nil
subscribe_loop-filters_bytes ((t, q) ∷ subs) zero done h k =
    absurd (omega (arith, filters_bytes_shorter t q subs))
subscribe_loop-filters_bytes ((t, q) ∷ subs) (suc fuel) done h k =
    subscribe_step fuel (filters_bytes ((t, q) ∷ subs)) done t q (filters_bytes subs)
      (unfold filters_bytes in read_utf8_string-prefixed t (Qos.as_u8 q ∷ filters_bytes subs) h.0)
    ∙ subscribe_loop-filters_bytes subs fuel (done ++ ((t, q) ∷ [])) h.1
        (omega (arith, filters_bytes_shorter t q subs))
    ∙ ap (λ l. ok (l, [])) (append_assoc done ((t, q) ∷ []) subs)

unsubscribe_step :
    (fuel : ℕ) (src : Bytes) (done : List Text) (t : Text) (src₁ : Bytes)
    → read_utf8_string src ≡ ok (t, src₁)
    → unsubscribe_loop (suc fuel) src done ≡ unsubscribe_loop fuel src₁ (done ++ (t ∷ []))
unfolding unsubscribe_loop
unsubscribe_step fuel [] done t src₁ h = unfold read_utf8_string inner_read_u16 in cc
unsubscribe_step fuel (b ∷ src) done t src₁ h = rw h

unsubscribe_loop-topics_bytes :
    (topics : List Text) (fuel : ℕ) (done : List Text)
    → All IsText topics
    → length (topics_bytes topics) ≤ fuel
    → unsubscribe_loop fuel (topics_bytes topics) done ≡ ok (done ++ topics, [])
unsubscribe_loop-topics_bytes [] fuel done h k =
    unfold unsubscribe_loop topics_bytes in rw append-nil
unsubscribe_loop-topics_bytes (t ∷ topics) zero done h k =
    absurd (omega (arith, topics_bytes_shorter t topics))
unsubscribe_loop-topics_bytes (t ∷ topics) (suc fuel) done h k =
    unsubscribe_step fuel (topics_bytes (t ∷ topics)) done t (topics_bytes topics)
      (unfold topics_bytes in read_utf8_string-prefixed t (topics_bytes topics) h.0)
    ∙ unsubscribe_loop-topics_bytes topics fuel (done ++ (t ∷ [])) h.1
        (omega (arith, topics_bytes_shorter t topics))
    ∙ ap (λ l. ok (l, [])) (append_assoc done (t ∷ []) topics)

-- What a client may send: at least one filter, each a text that fits its length field.
pub record IsSubscribe (p : SubscribePacket) : Type 0 where
  pub id : p.packet_id.raw < 65536
  pub some_filter : p.subscriptions ≢ []
  pub texts : All (λ s. IsText s.0) p.subscriptions
  pub fits : length (subscribe_body p) < 128 ^ 4

pub record IsUnsubscribe (p : UnsubscribePacket) : Type 0 where
  pub id : p.packet_id.raw < 65536
  pub some_filter : p.topic_filters ≢ []
  pub texts : All IsText p.topic_filters
  pub fits : length (unsubscribe_body p) < 128 ^ 4

some_subscriptions_lem :
    (i : PacketId) (subs : List (Text × Qos))
    → subs ≢ []
    → some_subscriptions i subs ≡ ok (record { packet_id = i; subscriptions = subs })
some_subscriptions_lem i [] h = absurd (h refl)
some_subscriptions_lem i (s ∷ subs) h = refl

some_topics_lem :
    (i : PacketId) (topics : List Text)
    → topics ≢ []
    → some_topics i topics ≡ ok (record { packet_id = i; topic_filters = topics })
some_topics_lem i [] h = absurd (h refl)
some_topics_lem i (t ∷ topics) h = refl

-- A SUBSCRIBE in the wire form of MQTT 3.1.1 is decoded to the packet it stands for: the same
-- identifier, and all filters with their requested levels in order.
pub decode-subscribe_frame :
    (p : SubscribePacket)
    → IsSubscribe p
    → decode (frame PacketType.subscribe 2 (subscribe_body p)) ≡ ok (Packet.subscribe p, [])
unfolding decode_body decode_subscribe
decode-subscribe_frame p s =
    rw (append-nil, append-nil) at
      (decode-frame PacketType.subscribe 2 (subscribe_body p) [] (omega arith) s.fits)
    ∙ rw (
      read_packet_id-be_bytes p.packet_id (filters_bytes p.subscriptions) s.id,
      subscribe_loop-filters_bytes p.subscriptions (length (filters_bytes p.subscriptions)) []
          s.texts (omega arith),
      some_subscriptions_lem p.packet_id p.subscriptions s.some_filter,
    )

-- An UNSUBSCRIBE in the wire form is decoded to the packet it stands for.
pub decode-unsubscribe_frame :
    (p : UnsubscribePacket)
    → IsUnsubscribe p
    → decode (frame PacketType.unsubscribe 2 (unsubscribe_body p)) ≡ ok (Packet.unsubscribe p, [])
unfolding decode_body decode_unsubscribe
decode-unsubscribe_frame p s =
    rw (append-nil, append-nil) at
      (decode-frame PacketType.unsubscribe 2 (unsubscribe_body p) [] (omega arith) s.fits)
    ∙ rw (
      read_packet_id-be_bytes p.packet_id (topics_bytes p.topic_filters) s.id,
      unsubscribe_loop-topics_bytes p.topic_filters (length (topics_bytes p.topic_filters)) []
          s.texts (omega arith),
      some_topics_lem p.packet_id p.topic_filters s.some_filter,
    )
