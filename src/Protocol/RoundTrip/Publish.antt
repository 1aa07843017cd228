-- ===== src/Protocol/RoundTrip/Publish.antt =====
-- PUBLISH packets through `encode` and `decode` (src/protocol/encode.rs and decode.rs).
use opencode_rustquitto.Base.{
  ℕ, ◌/◌, ◌^◌, ◌<◌, ◌≡◌, refl, bit_and, Option, some, none, [], ◌++◌, append_assoc, append-nil,
  length, Bytes, arith,
}
use opencode_rustquitto.Error.{ok}
use opencode_rustquitto.Extern.Buffer.{BytesMut}
use opencode_rustquitto.Protocol.Qos.{
  Qos, at_most_once, at_least_once, exactly_once, try_from_u8-as_u8,
}
use opencode_rustquitto.Protocol.Qos
use opencode_rustquitto.Protocol.PacketType.{PacketType}
use opencode_rustquitto.Protocol.Types.{Packet, PacketId, PublishPacket, packet_type}
use opencode_rustquitto.Protocol.Encode.{encode, publish, put_publish_id}
use opencode_rustquitto.Protocol.Encode.Layout.{publish_front, encode-frame, flags_of_publish-lt}
use opencode_rustquitto.Protocol.Wire.{
  frame, id_bytes, flags_of_publish, publish_body, IsText, IdFits,
}
use opencode_rustquitto.Protocol.Decode.{decode, decode_body}
use opencode_rustquitto.Protocol.Decode.Readers.{read_payload}
use opencode_rustquitto.Protocol.Decode.Packets.{bit_set, decode_publish, read_publish_id}
use opencode_rustquitto.Protocol.Decode.Laws.{
  read_utf8_string-prefixed, read_packet_id-be_bytes, inner_read_exact-append, decode-frame,
}

publish_flag_parts :
    (p : PublishPacket)
    → (bit_set (flags_of_publish p) 0x08 ≡ p.dup)
      × (bit_and (flags_of_publish p / 2) 0x03 ≡ Qos.as_u8 p.qos)
      × (bit_set (flags_of_publish p) 0x01 ≡ p.retain)
unfolding bit_set flags_of_publish Qos.as_u8
publish_flag_parts p = ground arith

read_publish_id-id_bytes :
    (q : Qos) (i : Option PacketId) (rest : Bytes)
    → IdFits q i
    → read_publish_id q (id_bytes q i ++ rest) ≡ ok (i, rest)
unfolding read_publish_id
read_publish_id-id_bytes at_most_once none rest h = refl
read_publish_id-id_bytes at_most_once (some i) rest h = absurd h
read_publish_id-id_bytes at_least_once none rest h = absurd h
read_publish_id-id_bytes at_least_once (some i) rest h = rw (read_packet_id-be_bytes i rest h)
read_publish_id-id_bytes exactly_once none rest h = absurd h
read_publish_id-id_bytes exactly_once (some i) rest h = rw (read_packet_id-be_bytes i rest h)

read_payload_all : (src : Bytes) → read_payload src (length src) ≡ ok (src, [])
unfolding read_payload
read_payload_all src = rw (append-nil src) at (inner_read_exact-append src [])

-- What the broker can send and read back: a topic that fits its length field and is UTF-8, an
-- identifier exactly with QoS above 0, and a body that MQTT can announce.
pub record IsSendable (p : PublishPacket) : Type 0 where
  pub topic : IsText p.topic_name
  pub id : IdFits p.qos p.packet_id
  pub fits : length (publish_body p) < 128 ^ 4

decode_publish-body :
    (p : PublishPacket) (n : ℕ) (extra : Bytes)
    → IsText p.topic_name
    → IdFits p.qos p.packet_id
    → decode_publish
        (record {
          packet_type = PacketType.publish;
          flags = flags_of_publish p;
          remaining_length = n;
        })
        (publish_body p ++ extra)
      ≡ ok (record p { payload = p.payload ++ extra }, [])
unfolding decode_publish
decode_publish-body p n extra t i =
    let parts = publish_flag_parts p in
    rw (
      append_assoc,
      append_assoc,
      parts.1,
      try_from_u8-as_u8 p.qos,
      read_utf8_string-prefixed p.topic_name (id_bytes p.qos p.packet_id ++ (p.payload ++ extra)) t,
      read_publish_id-id_bytes p.qos p.packet_id (p.payload ++ extra) i,
      read_payload_all (p.payload ++ extra),
      parts.0,
      parts.2,
    )

-- `decode` on the frame of a PUBLISH. The decoder takes all that is left of its buffer for the
-- payload, so bytes behind the frame, such as the next packet, end up in the message.
pub decode-publish-frame :
    (p : PublishPacket) (extra : Bytes)
    → IsSendable p
    → decode (frame PacketType.publish (flags_of_publish p) (publish_body p) ++ extra)
      ≡ ok (Packet.publish (record p { payload = p.payload ++ extra }), [])
unfolding decode_body
decode-publish-frame p extra s = rw (
  decode-frame PacketType.publish (flags_of_publish p) (publish_body p) extra
      (flags_of_publish-lt p) s.fits,
  decode_publish-body p (length (publish_body p)) extra s.topic s.id,
)

encode-publish_frame :
    (B : BytesMut) (p : PublishPacket) (out : B.Buffer)
    → IsSendable p
    → encode B (Packet.publish p) ≡ ok out
    → decode (B.contents out) ≡ ok (Packet.publish p, [])
unfolding packet_type
encode-publish_frame B p out s h =
    rw (encode-frame B (Packet.publish p) out s.topic.fits h)
      (rw (append-nil, append-nil) at (decode-publish-frame p [] s))

put_publish_id_total :
    (B : BytesMut) (q : Qos) (i : Option PacketId) (buf : B.Buffer)
    → IdFits q i
    → (out : B.Buffer) × (put_publish_id B q i buf ≡ ok out)
unfolding put_publish_id
put_publish_id_total B at_most_once none buf h = (buf, refl)
put_publish_id_total B at_most_once (some i) buf h = absurd h
put_publish_id_total B at_least_once none buf h = absurd h
put_publish_id_total B at_least_once (some i) buf h = (B.put_u16 buf i.raw, refl)
put_publish_id_total B exactly_once none buf h = absurd h
put_publish_id_total B exactly_once (some i) buf h = (B.put_u16 buf i.raw, refl)

encode-publish_total :
    (B : BytesMut) (p : PublishPacket)
    → IdFits p.qos p.packet_id
    → (out : B.Buffer) × (encode B (Packet.publish p) ≡ ok out)
unfolding encode publish
encode-publish_total B p h =
    let (b, e) = put_publish_id_total B p.qos p.packet_id (publish_front B p) h in
    (B.put b p.payload, rw e)

-- The broker encodes every sendable PUBLISH, and decoding the bytes gives the same packet with
-- nothing left over.
pub decode-encode-publish :
    (B : BytesMut) (p : PublishPacket)
    → IsSendable p
    → (out : B.Buffer) × (encode B (Packet.publish p) ≡ ok out)
      × (decode (B.contents out) ≡ ok (Packet.publish p, []))
decode-encode-publish B p s =
    let (out, e) = encode-publish_total B p s.id in (out, e, encode-publish_frame B p out s e)
