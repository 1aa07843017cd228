-- ===== src/Protocol/Tests.antt =====
-- The unit tests of src/protocol/encode.rs and decode.rs, and the theorems of Protocol at concrete
-- packets.
use opencode_rustquitto.Base.{
  ◌≡◌, ◌≢◌, refl, true, false, some, none, [], ◌∷◌, ◌++◌, length, Bytes, arith,
}
use opencode_rustquitto.Error.{ok, err, decoding, stuck, unexpected_end}
use opencode_rustquitto.Extern.Buffer.{list_buffer}
use opencode_rustquitto.Text.Utf8.{is_utf8, ascii-is_utf8}
use opencode_rustquitto.Protocol.Qos.{Qos, at_most_once, at_least_once, exactly_once}
use opencode_rustquitto.Protocol.Qos
use opencode_rustquitto.Protocol.PacketType.{PacketType}
use opencode_rustquitto.Protocol.PacketType
use opencode_rustquitto.Protocol.Types.{
  Packet, PublishPacket, ConnectPacket, SubscribePacket, ConnackReturnCode, be_bytes,
}
use opencode_rustquitto.Protocol.Encode
use opencode_rustquitto.Protocol.Encode.{encode, encode_remaining_length}
use opencode_rustquitto.Protocol.Wire.{
  frame, prefixed, flags_of_publish, publish_body, subscribe_body, connect_body, filters_bytes,
  IsText, IsConnect,
}
use opencode_rustquitto.Protocol.Decode.{decode, decode_body}
use opencode_rustquitto.Protocol.Decode.Readers.{
  decode_remaining_length, remaining_length_loop, decode_fixed_header, inner_read_u8,
  inner_read_u16, inner_read_exact, text_of, read_utf8_string, read_payload,
}
use opencode_rustquitto.Protocol.Decode.Packets.{bit_set, read_publish_id, decode_publish}
use opencode_rustquitto.Protocol.Decode.Length.{decode-encode_remaining_length}
use opencode_rustquitto.Protocol.Decode.Total.{decode-ne-stuck}
use opencode_rustquitto.Protocol.RoundTrip.Publish.{
  IsSendable, decode-publish-frame, decode-encode-publish,
}
use opencode_rustquitto.Protocol.RoundTrip.Acks.{pubrel, decode-encode-ack}
use opencode_rustquitto.Protocol.RoundTrip.Subscribe.{IsSubscribe, decode-subscribe_frame}
use opencode_rustquitto.Protocol.RoundTrip.Connect.{decode-connect_frame}

encode_length_16384 : encode_remaining_length 16384 ≡ 0x80 ∷ 0x80 ∷ 0x01 ∷ []
unfolding encode_remaining_length
encode_length_16384 = refl

encode_length_16383 : encode_remaining_length 16383 ≡ 0xff ∷ 0x7f ∷ []
unfolding encode_remaining_length
encode_length_16383 = refl

decode_length_128 : decode_remaining_length (0x80 ∷ 0x01 ∷ []) ≡ ok (128, 2, [])
unfolding decode_remaining_length remaining_length_loop
decode_length_128 = refl

-- A length cut off after its first byte.
decode_length_cut : decode_remaining_length (0x80 ∷ []) ≡ err (decoding unexpected_end)
unfolding decode_remaining_length remaining_length_loop
decode_length_cut = refl

decode_pingreq : decode (0xc0 ∷ 0x00 ∷ []) ≡ ok (Packet.pingreq, [])
unfolding decode decode_body decode_fixed_header decode_remaining_length remaining_length_loop
    inner_read_u8 PacketType.try_from_u8
decode_pingreq = refl

abbrev test_topic : Bytes
test_topic = b't' ∷ b'e' ∷ b's' ∷ b't' ∷ []

abbrev hello : PublishPacket
hello = record {
  dup = false;
  qos = at_least_once;
  retain = true;
  topic_name = test_topic;
  packet_id = some (record { raw = 258 });
  payload = b'h' ∷ b'i' ∷ [];
}

-- `decode-publish_qos0` of the source's tests.
decode-publish_qos0 :
    decode (0x30 ∷ 0x0b ∷ 0x00 ∷ 0x04 ∷ (test_topic ++ (b'h' ∷ b'e' ∷ b'l' ∷ b'l' ∷ b'o' ∷ [])))
    ≡ ok (
      Packet.publish (record {
        dup = false;
        qos = at_most_once;
        retain = false;
        topic_name = test_topic;
        packet_id = none;
        payload = b'h' ∷ b'e' ∷ b'l' ∷ b'l' ∷ b'o' ∷ [];
      }),
      [],
    )
unfolding decode decode_body decode_fixed_header decode_remaining_length remaining_length_loop
    inner_read_u8 inner_read_u16 inner_read_exact text_of is_utf8 read_utf8_string read_payload
    read_publish_id decode_publish bit_set PacketType.try_from_u8 Qos.try_from_u8
decode-publish_qos0 = refl

test_topic-IsText : IsText test_topic
test_topic-IsText = record { fits = omega arith; utf8 = ascii-is_utf8 test_topic (omega arith) }

hello-IsSendable : IsSendable hello
unfolding prefixed be_bytes
hello-IsSendable = record { topic = test_topic-IsText; id = omega arith; fits = omega arith }

decode-encode_remaining_length_example :
    decode_remaining_length (encode_remaining_length 16384 ++ (7 ∷ []))
    ≡ ok (16384, length (encode_remaining_length 16384), 7 ∷ [])
decode-encode_remaining_length_example = decode-encode_remaining_length 16384 (7 ∷ []) (omega arith)

decode-ne-stuck_example : decode (0x82 ∷ 0x02 ∷ 0x00 ∷ 0x01 ∷ []) ≢ err stuck
decode-ne-stuck_example = decode-ne-stuck (0x82 ∷ 0x02 ∷ 0x00 ∷ 0x01 ∷ [])

-- Two packets in one buffer: the second one ends up in the payload of the first.
decode-publish-frame_example :
    decode
      (frame PacketType.publish (flags_of_publish hello) (publish_body hello) ++ (0xc0 ∷ 0x00 ∷ []))
    ≡ ok (Packet.publish (record hello { payload = b'h' ∷ b'i' ∷ 0xc0 ∷ 0x00 ∷ [] }), [])
decode-publish-frame_example = decode-publish-frame hello (0xc0 ∷ 0x00 ∷ []) hello-IsSendable

decode-encode-publish_example :
    (out : Bytes) × (encode list_buffer (Packet.publish hello) ≡ ok out)
    × (decode out ≡ ok (Packet.publish hello, []))
decode-encode-publish_example = decode-encode-publish list_buffer hello hello-IsSendable

decode-encode-ack_example :
    (out : Bytes) × (encode list_buffer (Packet.pubrel (record { raw = 515 })) ≡ ok out)
    × (decode (out ++ (1 ∷ [])) ≡ ok (Packet.pubrel (record { raw = 515 }), 1 ∷ []))
decode-encode-ack_example =
    decode-encode-ack list_buffer pubrel (record { raw = 515 }) (1 ∷ []) (omega arith)

abbrev accept : Packet
accept =
    Packet.connack (record { session_present = true; return_code = ConnackReturnCode.accepted })

abbrev two_filters : SubscribePacket
two_filters = record {
  packet_id = record { raw = 1 };
  subscriptions = (test_topic, exactly_once) ∷ (b'#' ∷ [], at_most_once) ∷ [];
}

two_filters-IsSubscribe : IsSubscribe two_filters
unfolding prefixed be_bytes filters_bytes
two_filters-IsSubscribe = record {
  id = omega arith;
  some_filter = λ e. cc;
  texts = (
    test_topic-IsText,
    (record { fits = omega arith; utf8 = ascii-is_utf8 (b'#' ∷ []) (omega arith) }, tt),
  );
  fits = omega arith;
}

decode-subscribe_frame_example :
    decode (frame PacketType.subscribe 2 (subscribe_body two_filters))
    ≡ ok (Packet.subscribe two_filters, [])
decode-subscribe_frame_example = decode-subscribe_frame two_filters two_filters-IsSubscribe

abbrev mqtt : Bytes
mqtt = b'M' ∷ b'Q' ∷ b'T' ∷ b'T' ∷ []

-- A client with a will, a user name and no password.
abbrev login : ConnectPacket
login = record {
  protocol_name = mqtt;
  protocol_level = 4;
  clean_session = true;
  will_flag = true;
  will_qos = some exactly_once;
  will_retain = false;
  username_flag = true;
  password_flag = false;
  keep_alive = 60;
  client_id = test_topic;
  will_topic = some test_topic;
  will_message = some (0xff ∷ []);
  username = some mqtt;
  password = none;
}

mqtt-IsText : IsText mqtt
mqtt-IsText = record { fits = omega arith; utf8 = ascii-is_utf8 mqtt (omega arith) }

login-IsConnect : IsConnect login
unfolding prefixed be_bytes
login-IsConnect = record {
  name = mqtt-IsText;
  level = λ e n. cc;
  keep_alive = omega arith;
  client_id = test_topic-IsText;
  will_topic = test_topic-IsText;
  will_message = omega arith;
  username = mqtt-IsText;
  password = tt;
  fits = omega arith;
}

decode-connect_frame_example :
    decode (frame PacketType.connect 0 (connect_body login) ++ []) ≡ ok (Packet.connect login, [])
decode-connect_frame_example = decode-connect_frame login [] login-IsConnect
