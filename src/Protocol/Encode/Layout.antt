-- ===== src/Protocol/Encode/Layout.antt =====
-- The bytes that the encoders of src/protocol/encode.rs write, against the wire form.
use opencode_rustquitto.Base.{
  ℕ, ◌+◌, ◌*◌, ◌%◌, ◌<◌, ◌≡◌, refl, if◌then◌else◌, inl, inr, sym, ◌∙◌, bit_or, Option, some, none,
  List, [], ◌∷◌, ◌++◌, append_assoc, append-nil, map, length, length-map, length-append, Bytes,
  arith,
}
use opencode_rustquitto.Base.Bits.{publish_first_byte}
use native.Mathlib.Nat.{mod-eq_of_lt}
use opencode_rustquitto.Error.{ok, Result-cases}
use opencode_rustquitto.Extern.Buffer.{BytesMut}
use opencode_rustquitto.Protocol.Qos.{Qos, at_most_once, at_least_once, exactly_once}
use opencode_rustquitto.Protocol.Qos
use opencode_rustquitto.Protocol.PacketType.{PacketType}
use opencode_rustquitto.Protocol.PacketType
use opencode_rustquitto.Protocol.Types.{
  Packet, PacketId, ConnackPacket, SubackPacket, PublishPacket, SubscribeReturnCode, suback_code,
  be_bytes, packet_type,
}
use opencode_rustquitto.Protocol.Encode.{
  encode_remaining_length, remaining_length_for_packet, publish_flags, write_fixed_header,
  write_utf8_string, put_codes, put_publish_id, encode, wants_id, simple_packet_with_flags,
  simple_packet_with_id, puback, pubrec, pubrel, pubcomp, unsuback, pingresp, publish, connack,
  suback,
}
use opencode_rustquitto.Protocol.Wire.{
  prefixed, frame, id_bytes, flags_of_publish, publish_body, connack_body, suback_body,
}

-- The four flags and the body of a packet that the broker may send.
abbrev pub flags_of : Packet → ℕ
flags_of (Packet.publish p) = flags_of_publish p
flags_of (Packet.pubrel i) = 2
flags_of _ = 0

abbrev pub body_of : Packet → Bytes
body_of (Packet.connack p) = connack_body p
body_of (Packet.publish p) = publish_body p
body_of (Packet.puback i) = be_bytes i.raw
body_of (Packet.pubrec i) = be_bytes i.raw
body_of (Packet.pubrel i) = be_bytes i.raw
body_of (Packet.pubcomp i) = be_bytes i.raw
body_of (Packet.suback p) = suback_body p
body_of (Packet.unsuback i) = be_bytes i.raw
body_of _ = []

abbrev pub TopicFits : Packet → Type 0
TopicFits (Packet.publish p) = length p.topic_name < 65536
TopicFits _ = Unit

publish_flags_lem : (p : PublishPacket) → publish_flags p ≡ flags_of_publish p
unfolding publish_flags flags_of_publish Qos.as_u8
publish_flags_lem p = ground arith

pub length-be_bytes : (n : ℕ) (rest : Bytes) → length (be_bytes n ++ rest) ≡ 2 + length rest
unfolding be_bytes
length-be_bytes n rest = omega arith

length-suback_body :
    (i : PacketId) (codes : List SubscribeReturnCode)
    → 2 + length codes ≡ length (be_bytes i.raw ++ map suback_code codes)
length-suback_body i codes =
    omega (arith, length-be_bytes i.raw (map suback_code codes), length-map codes suback_code)

pub flags_of_publish-lt : (p : PublishPacket) → flags_of_publish p < 16
unfolding flags_of_publish Qos.as_u8
flags_of_publish-lt p = ground arith

module _ (B : BytesMut) where
  open B use {Buffer, contents, with_capacity, put_u8}

  contents-write_fixed_header :
      (n kind flags remaining : ℕ)
      → contents (write_fixed_header B (with_capacity n) kind flags remaining)
        ≡ bit_or (kind * 16 % 256) flags ∷ encode_remaining_length remaining
  unfolding write_fixed_header
  contents-write_fixed_header n kind flags remaining =
      rw (B.contents-put, B.contents-put_u8, B.contents-with_capacity)

  contents-put_codes :
      (buf : Buffer) (codes : List SubscribeReturnCode)
      → contents (put_codes B buf codes) ≡ contents buf ++ map suback_code codes
  unfolding put_codes
  contents-put_codes buf [] = sym (append-nil (contents buf))
  contents-put_codes buf (code ∷ codes) =
      contents-put_codes (put_u8 buf (suback_code code)) codes
      ∙ rw (B.contents-put_u8, append_assoc)

  simple_layout :
      (kind flags : ℕ) (i : PacketId)
      → contents (simple_packet_with_flags B kind flags i)
        ≡ (bit_or (kind * 16 % 256) flags ∷ encode_remaining_length 2) ++ be_bytes i.raw
  unfolding simple_packet_with_flags
  simple_layout kind flags i = rw (B.contents-put_u16, contents-write_fixed_header)

  connack_layout :
      (p : ConnackPacket) → contents (connack B p) ≡ frame PacketType.connack 0 (connack_body p)
  unfolding connack PacketType.as_u8 encode_remaining_length
  connack_layout p = rw (B.contents-put_u8, B.contents-put_u8, contents-write_fixed_header)

  suback_layout :
      (p : SubackPacket) → contents (suback B p) ≡ frame PacketType.suback 0 (suback_body p)
  unfolding suback PacketType.as_u8
  suback_layout p =
      contents-put_codes _ p.return_codes
      ∙ rw (
        B.contents-put_u16,
        contents-write_fixed_header,
        append_assoc,
        length-suback_body p.packet_id p.return_codes,
      )

  id_layout :
      (buf : Buffer) (q : Qos) (i : Option PacketId) (out : Buffer)
      → put_publish_id B q i buf ≡ ok out
      → contents out ≡ contents buf ++ id_bytes q i
  unfolding put_publish_id
  id_layout buf at_most_once i out h = cc (append-nil (contents buf))
  id_layout buf at_least_once none out h = cc
  id_layout buf at_least_once (some i) out h = cc (B.contents-put_u16 buf i.raw)
  id_layout buf exactly_once none out h = cc
  id_layout buf exactly_once (some i) out h = cc (B.contents-put_u16 buf i.raw)

  id_length :
      (buf : Buffer) (q : Qos) (i : Option PacketId) (out : Buffer)
      → put_publish_id B q i buf ≡ ok out
      → length (id_bytes q i) ≡ (if wants_id q then 2 else 0)
  unfolding put_publish_id be_bytes
  id_length buf at_most_once i out h = refl
  id_length buf at_least_once none out h = cc
  id_length buf at_least_once (some i) out h = refl
  id_length buf exactly_once none out h = cc
  id_length buf exactly_once (some i) out h = refl

  -- The buffer of a PUBLISH up to its topic.
  abbrev pub publish_front : PublishPacket → Buffer
  publish_front p =
      write_utf8_string B
        (write_fixed_header B (with_capacity (10 + length p.topic_name + length p.payload)) 3
          (publish_flags p) (remaining_length_for_packet (Packet.publish p)))
        p.topic_name

  contents-publish_front :
      (p : PublishPacket)
      → length p.topic_name < 65536
      → contents (publish_front p)
        ≡ ((48 + flags_of_publish p)
            ∷ encode_remaining_length (remaining_length_for_packet (Packet.publish p)))
          ++ prefixed p.topic_name
  unfolding write_utf8_string prefixed
  contents-publish_front p fits = rw (
    B.contents-put,
    B.contents-put_u16,
    contents-write_fixed_header,
    publish_flags_lem p,
    publish_first_byte (flags_of_publish p) (flags_of_publish-lt p),
    mod-eq_of_lt fits,
    append_assoc,
  )

  publish-length :
      (p : PublishPacket)
      → length (id_bytes p.qos p.packet_id) ≡ (if wants_id p.qos then 2 else 0)
      → remaining_length_for_packet (Packet.publish p) ≡ length (publish_body p)
  unfolding remaining_length_for_packet prefixed
  publish-length p h = omega (
    arith,
    h,
    length-append (prefixed p.topic_name) (id_bytes p.qos p.packet_id ++ p.payload),
    length-append (id_bytes p.qos p.packet_id) p.payload,
    length-be_bytes (length p.topic_name) p.topic_name,
  )

  publish_layout :
      (p : PublishPacket) (out : Buffer)
      → length p.topic_name < 65536
      → publish B p ≡ ok out
      → contents out ≡ frame PacketType.publish (flags_of_publish p) (publish_body p)
  unfolding publish PacketType.as_u8
  publish_layout p out fits h =
      elim (Result-cases (put_publish_id B p.qos p.packet_id (publish_front p))) [
        | inl (b, e) ↦
            let done : contents out ≡ contents b ++ p.payload = cc (B.contents-put b p.payload) in
            let length_field =
              publish-length p (id_length (publish_front p) p.qos p.packet_id b e) in
            done
            ∙ rw
                (
                  id_layout (publish_front p) p.qos p.packet_id b e,
                  contents-publish_front p fits,
                  length_field,
                )
                (simp append_assoc)
        | inr (x, e) ↦ absurd (cc)
      ]

  pub encode-frame :
      (p : Packet) (out : Buffer)
      → TopicFits p
      → encode B p ≡ ok out
      → contents out ≡ frame (packet_type p) (flags_of p) (body_of p)
  unfolding encode packet_type puback pubrec pubrel pubcomp unsuback pingresp simple_packet_with_id
      PacketType.as_u8 encode_remaining_length be_bytes
  encode-frame (Packet.publish p) out fits h = publish_layout p out fits h
  encode-frame (Packet.connack p) out fits h = cc (connack_layout p)
  encode-frame (Packet.suback p) out fits h = cc (suback_layout p)
  encode-frame (Packet.puback i) out fits h = cc (simple_layout 4 0 i)
  encode-frame (Packet.pubrec i) out fits h = cc (simple_layout 5 0 i)
  encode-frame (Packet.pubrel i) out fits h = cc (simple_layout 6 2 i)
  encode-frame (Packet.pubcomp i) out fits h = cc (simple_layout 7 0 i)
  encode-frame (Packet.unsuback i) out fits h = cc (
    B.contents-put_u16 (write_fixed_header B (with_capacity 4) 11 0 2) i.raw,
    contents-write_fixed_header 4 11 0 2,
  )
  encode-frame Packet.pingresp out fits h = cc (contents-write_fixed_header 2 13 0 0)
  encode-frame _ out fits h = cc
