-- ===== src/Protocol/Decode.antt =====
-- `decode` of src/protocol/decode.rs: one packet from the front of a buffer. The readers and the
-- decoders of the single packets are the children `Readers` and `Packets`.
pub mod Readers
pub mod Packets
pub mod Length
pub mod Laws
pub mod Halts
pub mod Total
use opencode_rustquitto.Base.{ℕ, Bool, true, false, length, ltb, Bytes}
use opencode_rustquitto.Error.{
  Result, ok, err, decoding, incomplete_packet, server_received, ◌>>=◌, ◌>>◌,
}
use opencode_rustquitto.Protocol.PacketType.{PacketType}
use opencode_rustquitto.Protocol.Types.{Packet, FixedHeader}
use Readers.{inner_read_u8, decode_fixed_header}
use Packets.{
  fail_if, decode_connect, decode_publish, decode_puback, decode_pubrec, decode_pubrel,
  decode_pubcomp, decode_subscribe, decode_unsubscribe,
}

-- The `match header.packet_type`.
unfoldable pub decode_body : PacketType → FixedHeader → Bytes → Result (Packet × Bytes)
decode_body PacketType.connect header src = do
  (packet, src₁) ← decode_connect src
  ok (Packet.connect packet, src₁)
decode_body PacketType.connack header src = do
  (session_present, src₁) ← inner_read_u8 src
  err (decoding (server_received PacketType.connack))
decode_body PacketType.publish header src = do
  (packet, src₁) ← decode_publish header src
  ok (Packet.publish packet, src₁)
decode_body PacketType.puback header src = do
  (packet_id, src₁) ← decode_puback src
  ok (Packet.puback packet_id, src₁)
decode_body PacketType.pubrec header src = do
  (packet_id, src₁) ← decode_pubrec src
  ok (Packet.pubrec packet_id, src₁)
decode_body PacketType.pubrel header src = do
  (packet_id, src₁) ← decode_pubrel src
  ok (Packet.pubrel packet_id, src₁)
decode_body PacketType.pubcomp header src = do
  (packet_id, src₁) ← decode_pubcomp src
  ok (Packet.pubcomp packet_id, src₁)
decode_body PacketType.subscribe header src = do
  (packet, src₁) ← decode_subscribe src
  ok (Packet.subscribe packet, src₁)
decode_body PacketType.suback header src = err (decoding (server_received PacketType.suback))
decode_body PacketType.unsubscribe header src = do
  (packet, src₁) ← decode_unsubscribe src
  ok (Packet.unsubscribe packet, src₁)
decode_body PacketType.unsuback header src = err (decoding (server_received PacketType.unsuback))
decode_body PacketType.pingreq header src = ok (Packet.pingreq, src)
decode_body PacketType.pingresp header src = err (decoding (server_received PacketType.pingresp))
decode_body PacketType.disconnect header src = ok (Packet.disconnect, src)

unfoldable pub decode : Bytes → Result (Packet × Bytes)
decode src = do
  (header, src₁) ← decode_fixed_header src
  fail_if (ltb (length src₁) header.remaining_length)
      (err (decoding (incomplete_packet header.remaining_length (length src₁))))
  decode_body header.packet_type header src₁
