-- ===== src/Protocol/Decode/Packets.antt =====
-- The packet decoders of src/protocol/decode.rs, one function for each `decode_*`. A `while` loop
-- over the cursor takes fuel, its length, since each round reads a byte at least.
use opencode_rustquitto.Base.{
  ℕ, zero, suc, ◌/◌, bit_and, Bool, true, false, not, ◌&&◌, Option, none, some, List, [], ◌∷◌, ◌++◌,
  ◌==◌, if◌then◌else◌, length, Bytes,
}
use opencode_rustquitto.Error.{
  Result, ok, err, stuck, decoding, reserved_bit_set, will_qos_invalid, invalid_qos,
  invalid_subscribe_qos, invalid_utf8_protocol_name, no_subscriptions, no_topics, ok_or, ◌>>=◌,
  ◌>>◌,
}
use opencode_rustquitto.Text.{Text}
use opencode_rustquitto.Text.Utf8.{is_utf8}
use opencode_rustquitto.Protocol.Qos.{Qos, at_most_once}
use opencode_rustquitto.Protocol.Qos
use opencode_rustquitto.Protocol.Types.{
  PacketId, FixedHeader, ConnectPacket, PublishPacket, SubscribePacket, UnsubscribePacket,
}
use opencode_rustquitto.Protocol.Decode.Readers.{
  inner_read_u8, inner_read_u16, inner_read_exact, read_utf8_string, read_payload, read_packet_id,
}

-- `flags & mask != 0`
unfoldable pub bit_set : ℕ → ℕ → Bool
bit_set flags mask = not (bit_and flags mask == 0)

-- `if condition { return Err(error) }`
abbrev pub fail_if : Bool → Result (Unit {0}) → Result (Unit {0})
fail_if true failure = failure
fail_if false failure = ok tt

abbrev pub is_none : Option Qos → Bool
is_none none = true
is_none (some q) = false

-- `if flag { field = Some(read(src)?) }`
unfoldable pub read_if :
    Bool → (Bytes → Result (Bytes × Bytes)) → Bytes → Result (Option Bytes × Bytes)
read_if false read src = ok (none, src)
read_if true read src = do (value, src₁) ← read src; ok (some value, src₁)

-- A length and as many bytes: the will message and the password.
unfoldable pub read_binary : Bytes → Result (Bytes × Bytes)
read_binary src = do (len, src₁) ← inner_read_u16 src; inner_read_exact src₁ len

-- The name of the protocol: a string with an error message of its own.
unfoldable pub read_protocol_name : Bytes → Result (Text × Bytes)
read_protocol_name src = do
  (bytes, src₁) ← read_binary src
  if is_utf8 bytes then ok (bytes, src₁) else err (decoding invalid_utf8_protocol_name)

unfoldable pub decode_connect : Bytes → Result (ConnectPacket × Bytes)
decode_connect src = do
  (protocol_name, src₁) ← read_protocol_name src
  (protocol_level, src₂) ← inner_read_u8 src₁
  (flags_byte, src₃) ← inner_read_u8 src₂
  let username_flag = bit_set flags_byte 0x80
  let password_flag = bit_set flags_byte 0x40
  let will_retain = bit_set flags_byte 0x20
  let will_qos = Qos.try_from_u8 (bit_and (flags_byte / 8) 0x03)
  let will_flag = bit_set flags_byte 0x04
  let clean_session = bit_set flags_byte 0x02
  fail_if (bit_set flags_byte 0x01) (err (decoding reserved_bit_set))
  fail_if (will_flag && is_none will_qos) (err (decoding will_qos_invalid))
  (keep_alive, src₄) ← inner_read_u16 src₃
  (client_id, src₅) ← read_utf8_string src₄
  (will_topic, src₆) ← read_if will_flag read_utf8_string src₅
  (will_message, src₇) ← read_if will_flag read_binary src₆
  (username, src₈) ← read_if username_flag read_utf8_string src₇
  (password, src₉) ← read_if password_flag read_binary src₈
  ok (
    record {
      protocol_name = protocol_name;
      protocol_level = protocol_level;
      clean_session = clean_session;
      will_flag = will_flag;
      will_qos = will_qos;
      will_retain = will_retain;
      username_flag = username_flag;
      password_flag = password_flag;
      keep_alive = keep_alive;
      client_id = client_id;
      will_topic = will_topic;
      will_message = will_message;
      username = username;
      password = password;
    },
    src₉,
  )

-- `if qos != QoS::AtMostOnce { Some(read_packet_id(src)?) } else { None }`
unfoldable pub read_publish_id : Qos → Bytes → Result (Option PacketId × Bytes)
read_publish_id at_most_once src = ok (none, src)
read_publish_id _ src = do (packet_id, src₁) ← read_packet_id src; ok (some packet_id, src₁)

unfoldable pub decode_publish : FixedHeader → Bytes → Result (PublishPacket × Bytes)
decode_publish header src = do
  let dup = bit_set header.flags 0x08
  let qos_bits = bit_and (header.flags / 2) 0x03
  qos ← ok_or (Qos.try_from_u8 qos_bits) (decoding (invalid_qos qos_bits))
  let retain = bit_set header.flags 0x01
  (topic_name, src₁) ← read_utf8_string src
  (packet_id, src₂) ← read_publish_id qos src₁
  (payload, src₃) ← read_payload src₂ (length src₂)
  ok (
    record {
      dup = dup;
      qos = qos;
      retain = retain;
      topic_name = topic_name;
      packet_id = packet_id;
      payload = payload;
    },
    src₃,
  )

unfoldable pub decode_puback : Bytes → Result (PacketId × Bytes)
decode_puback src = read_packet_id src

unfoldable pub decode_pubrec : Bytes → Result (PacketId × Bytes)
decode_pubrec src = read_packet_id src

unfoldable pub decode_pubrel : Bytes → Result (PacketId × Bytes)
decode_pubrel src = read_packet_id src

unfoldable pub decode_pubcomp : Bytes → Result (PacketId × Bytes)
decode_pubcomp src = read_packet_id src

unfoldable pub subscribe_loop : ℕ → Bytes → List (Text × Qos) → Result (List (Text × Qos) × Bytes)
subscribe_loop fuel [] subscriptions = ok (subscriptions, [])
subscribe_loop zero (b ∷ src) subscriptions = err stuck
subscribe_loop (suc fuel) (b ∷ src) subscriptions = do
  (topic_filter, src₁) ← read_utf8_string (b ∷ src)
  (qos_byte, src₂) ← inner_read_u8 src₁
  qos ← ok_or (Qos.try_from_u8 (bit_and qos_byte 0x03)) (decoding (invalid_subscribe_qos qos_byte))
  subscribe_loop fuel src₂ (subscriptions ++ ((topic_filter, qos) ∷ []))

-- `if subscriptions.is_empty() { return Err(…) }`
abbrev pub some_subscriptions : PacketId → List (Text × Qos) → Result SubscribePacket
some_subscriptions packet_id [] = err (decoding no_subscriptions)
some_subscriptions packet_id (s ∷ ss) =
    ok (record { packet_id = packet_id; subscriptions = s ∷ ss })

unfoldable pub decode_subscribe : Bytes → Result (SubscribePacket × Bytes)
decode_subscribe src = do
  (packet_id, src₁) ← read_packet_id src
  (subscriptions, src₂) ← subscribe_loop (length src₁) src₁ []
  packet ← some_subscriptions packet_id subscriptions
  ok (packet, src₂)

unfoldable pub unsubscribe_loop : ℕ → Bytes → List Text → Result (List Text × Bytes)
unsubscribe_loop fuel [] topic_filters = ok (topic_filters, [])
unsubscribe_loop zero (b ∷ src) topic_filters = err stuck
unsubscribe_loop (suc fuel) (b ∷ src) topic_filters = do
  (topic_filter, src₁) ← read_utf8_string (b ∷ src)
  unsubscribe_loop fuel src₁ (topic_filters ++ (topic_filter ∷ []))

abbrev pub some_topics : PacketId → List Text → Result UnsubscribePacket
some_topics packet_id [] = err (decoding no_topics)
some_topics packet_id (t ∷ ts) = ok (record { packet_id = packet_id; topic_filters = t ∷ ts })

unfoldable pub decode_unsubscribe : Bytes → Result (UnsubscribePacket × Bytes)
decode_unsubscribe src = do
  (packet_id, src₁) ← read_packet_id src
  (topic_filters, src₂) ← unsubscribe_loop (length src₁) src₁ []
  packet ← some_topics packet_id topic_filters
  ok (packet, src₂)
