-- ===== src/Protocol/RoundTrip/Acks.antt =====
-- The acknowledgements and the other packets that the broker sends, through `encode` and `decode`.
use opencode_rustquitto.Base.{◌^◌, ◌<◌, ◌≡◌, refl, ◌∙◌, [], ◌++◌, append-nil, length, Bytes, arith}
use opencode_rustquitto.Error.{ok, err, decoding, server_received}
use opencode_rustquitto.Extern.Buffer.{BytesMut}
use opencode_rustquitto.Protocol.PacketType.{PacketType}
use opencode_rustquitto.Protocol.Types.{Packet, PacketId, packet_type, be_bytes}
use opencode_rustquitto.Protocol.Encode
use opencode_rustquitto.Protocol.Encode.{encode}
use opencode_rustquitto.Protocol.Encode.Layout.{encode-frame, TopicFits, flags_of, body_of}
use opencode_rustquitto.Protocol.Wire.{frame}
use opencode_rustquitto.Protocol.Decode.{decode, decode_body}
use opencode_rustquitto.Protocol.Decode.Readers.{inner_read_u8}
use opencode_rustquitto.Protocol.Decode.Packets.{
  decode_puback, decode_pubrec, decode_pubrel, decode_pubcomp,
}
use opencode_rustquitto.Protocol.Decode.Laws.{read_packet_id-be_bytes, decode-frame}

-- The four packets of the QoS 1 and QoS 2 flows that carry an identifier alone.
pub data AckKind : Type 0 where
  puback pubrec pubrel pubcomp : AckKind

abbrev ack : AckKind → PacketId → Packet
ack puback i = Packet.puback i
ack pubrec i = Packet.pubrec i
ack pubrel i = Packet.pubrel i
ack pubcomp i = Packet.pubcomp i

id_fits : (i : PacketId) → length (be_bytes i.raw) < 128 ^ 4
unfolding be_bytes
id_fits i = omega arith

decode-ack-frame :
    (k : AckKind) (i : PacketId) (rest : Bytes)
    → i.raw < 65536
    → decode (frame (packet_type (ack k i)) (flags_of (ack k i)) (body_of (ack k i)) ++ rest)
      ≡ ok (ack k i, rest)
unfolding decode_body decode_puback decode_pubrec decode_pubrel decode_pubcomp packet_type
decode-ack-frame puback i rest h =
    decode-frame PacketType.puback 0 (be_bytes i.raw) rest (omega arith) (id_fits i)
    ∙ rw (read_packet_id-be_bytes i rest h)
decode-ack-frame pubrec i rest h =
    decode-frame PacketType.pubrec 0 (be_bytes i.raw) rest (omega arith) (id_fits i)
    ∙ rw (read_packet_id-be_bytes i rest h)
decode-ack-frame pubrel i rest h =
    decode-frame PacketType.pubrel 2 (be_bytes i.raw) rest (omega arith) (id_fits i)
    ∙ rw (read_packet_id-be_bytes i rest h)
decode-ack-frame pubcomp i rest h =
    decode-frame PacketType.pubcomp 0 (be_bytes i.raw) rest (omega arith) (id_fits i)
    ∙ rw (read_packet_id-be_bytes i rest h)

encode-ack_total :
    (B : BytesMut) (k : AckKind) (i : PacketId) → (out : B.Buffer) × (encode B (ack k i) ≡ ok out)
unfolding encode
encode-ack_total B puback i = (Encode.puback B i, refl)
encode-ack_total B pubrec i = (Encode.pubrec B i, refl)
encode-ack_total B pubrel i = (Encode.pubrel B i, refl)
encode-ack_total B pubcomp i = (Encode.pubcomp B i, refl)

ack-TopicFits : (k : AckKind) (i : PacketId) → TopicFits (ack k i)
ack-TopicFits puback i = tt
ack-TopicFits pubrec i = tt
ack-TopicFits pubrel i = tt
ack-TopicFits pubcomp i = tt

-- The broker encodes each of PUBACK, PUBREC, PUBREL and PUBCOMP, and decoding the bytes gives the
-- same packet and leaves whatever follows them.
pub decode-encode-ack :
    (B : BytesMut) (k : AckKind) (i : PacketId) (rest : Bytes)
    → i.raw < 65536
    → (out : B.Buffer) × (encode B (ack k i) ≡ ok out)
      × (decode (B.contents out ++ rest) ≡ ok (ack k i, rest))
decode-encode-ack B k i rest h =
    let (out, e) = encode-ack_total B k i in
    (out, e, rw (encode-frame B (ack k i) out (ack-TopicFits k i) e) (decode-ack-frame k i rest h))

-- The packets that only a server sends, and that it can announce.
abbrev IsReply : Packet → Type 0
IsReply (Packet.connack p) = Unit
IsReply (Packet.suback p) = length (body_of (Packet.suback p)) < 128 ^ 4
IsReply (Packet.unsuback i) = Unit
IsReply Packet.pingresp = Unit
IsReply _ = ⊥

refused :
    (B : BytesMut) (p : Packet) (out : B.Buffer)
    → IsReply p
    → TopicFits p
    → encode B p ≡ ok out
    → flags_of p < 16
    → length (body_of p) < 128 ^ 4
    → decode_body
        (packet_type p)
        (record {
          packet_type = packet_type p;
          flags = flags_of p;
          remaining_length = length (body_of p);
        })
        (body_of p ++ [])
      ≡ err (decoding (server_received (packet_type p)))
    → decode (B.contents out) ≡ err (decoding (server_received (packet_type p)))
refused B p out r t e f n h =
    rw (encode-frame B p out t e, ← append-nil (frame (packet_type p) (flags_of p) (body_of p)))
      (decode-frame (packet_type p) (flags_of p) (body_of p) [] f n ∙ h)

-- The broker encodes its replies CONNACK, SUBACK, UNSUBACK and PINGRESP, and refuses each of them,
-- by its kind, as input.
pub decode-encode_reply :
    (B : BytesMut) (p : Packet)
    → IsReply p
    → (out : B.Buffer) × (encode B p ≡ ok out)
      × (decode (B.contents out) ≡ err (decoding (server_received (packet_type p))))
unfolding encode decode_body packet_type inner_read_u8
decode-encode_reply B (Packet.connack p) h =
    let out = Encode.connack B p in
    (out, refl, refused B (Packet.connack p) out h tt refl (omega arith) (omega arith) refl)
decode-encode_reply B (Packet.suback p) h =
    let out = Encode.suback B p in
    (out, refl, refused B (Packet.suback p) out h tt refl (omega arith) h refl)
decode-encode_reply B (Packet.unsuback i) h =
    let out = Encode.unsuback B i in
    (out, refl, refused B (Packet.unsuback i) out h tt refl (omega arith) (id_fits i) refl)
decode-encode_reply B Packet.pingresp h =
    let out = Encode.pingresp B in
    (out, refl, refused B Packet.pingresp out h tt refl (omega arith) (omega arith) refl)
decode-encode_reply B _ h = absurd h
