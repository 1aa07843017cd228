-- ===== src/Protocol/Encode.antt =====
-- src/protocol/encode.rs: the packets that the broker sends, as bytes. A `u8` is written `% 256`
-- and a `u16` `% 65536` where the source narrows to it.
pub mod Length
pub mod Layout
use opencode_rustquitto.Base.{
  ℕ, zero, suc, ◌+◌, ◌*◌, ◌/◌, ◌%◌, ◌<◌, bit_or, Bool, true, false, Option, List, [], ◌∷◌, ◌++◌,
  if◌then◌else◌, length, Bytes, dite, dec_lt, arith, not,
}
use mathlib.Core.WellFounded.{Acc, WellFounded}
use opencode_rustquitto.Error.{
  Result, ok, err, encoding, packet_id_required, cannot_encode, ok_or, ◌>>=◌,
}
use opencode_rustquitto.Extern.Buffer.{BytesMut}
use opencode_rustquitto.Text.{Text}
use opencode_rustquitto.Protocol.Qos.{Qos, at_most_once}
use opencode_rustquitto.Protocol.Qos
use opencode_rustquitto.Protocol.Types.{
  Packet, PacketId, ConnackPacket, PublishPacket, SubackPacket, SubscribeReturnCode, packet_type,
  connack_code, suback_code, flag,
}

below_accessible : (k n : ℕ) → n < k → Acc ◌<◌ n
below_accessible zero n h = absurd (omega arith)
below_accessible (suc k) n h = Acc.intro n (λ m hm. below_accessible k m (omega arith))

-- The recursion over a falling number is well founded.
pub lt_wf : WellFounded ◌<◌
unfolding below_accessible
lt_wf = record { apply = λ n. below_accessible (suc n) n (omega arith) }

group_shrinks : (n : ℕ) → 0 < n / 128 → n / 128 < n
group_shrinks n h = omega arith

-- The loop of `encode_remaining_length`: `encoded` is what was pushed so far.
pub encode_length_loop : Bytes → (length : ℕ) → Acc ◌<◌ length → Bytes
unfolding group_shrinks
encode_length_loop encoded length (Acc.intro _ smaller) =
    let byte = length % 128 in
    dite (dec_lt 0 (length / 128))
      (λ more.
        encode_length_loop (encoded ++ (bit_or byte 0x80 ∷ [])) (length / 128)
          (smaller _ (group_shrinks length more)))
      (λ _. encoded ++ (byte ∷ []))

unfoldable pub encode_remaining_length : ℕ → Bytes
unfolding encode_length_loop lt_wf dec_lt
encode_remaining_length length = encode_length_loop [] length (lt_wf.apply length)

-- `p.qos != QoS::AtMostOnce`
abbrev pub wants_id : Qos → Bool
wants_id at_most_once = false
wants_id _ = true

pub remaining_length_for_packet : Packet → ℕ
remaining_length_for_packet (Packet.connack p) = 2
remaining_length_for_packet (Packet.publish p) =
    2 + length p.topic_name + (if wants_id p.qos then 2 else 0) + length p.payload
remaining_length_for_packet (Packet.puback i) = 2
remaining_length_for_packet (Packet.pubrec i) = 2
remaining_length_for_packet (Packet.pubrel i) = 2
remaining_length_for_packet (Packet.pubcomp i) = 2
remaining_length_for_packet (Packet.unsuback i) = 2
remaining_length_for_packet (Packet.suback s) = 2 + length s.return_codes
remaining_length_for_packet Packet.pingresp = 0
remaining_length_for_packet _ = 0

pub publish_flags : PublishPacket → ℕ
publish_flags packet =
    let flags = if packet.dup then bit_or 0 0x08 else 0 in
    let flags' = bit_or flags (Qos.as_u8 packet.qos * 2 % 256) in
    if packet.retain then bit_or flags' 0x01 else flags'

module _ (B : BytesMut) where
  open B use {Buffer, with_capacity, put_u8, put_u16, put}

  pub write_utf8_string : Buffer → Text → Buffer
  write_utf8_string buf value = put (put_u16 buf (length value % 65536)) value

  unfoldable pub write_fixed_header : Buffer → ℕ → ℕ → ℕ → Buffer
  write_fixed_header buf packet_type flags remaining_length =
      put (put_u8 buf (bit_or (packet_type * 16 % 256) flags))
        (encode_remaining_length remaining_length)

  unfoldable pub simple_packet_with_flags : ℕ → ℕ → PacketId → Buffer
  simple_packet_with_flags packet_type flags packet_id =
      put_u16 (write_fixed_header (with_capacity 4) packet_type flags 2) packet_id.raw

  unfoldable pub simple_packet_with_id : ℕ → PacketId → Buffer
  simple_packet_with_id packet_type packet_id = simple_packet_with_flags packet_type 0 packet_id

  pub connack : ConnackPacket → Buffer
  connack packet =
      let buf = write_fixed_header (with_capacity 4) 2 0 2 in
      put_u8 (put_u8 buf (flag packet.session_present)) (connack_code packet.return_code)

  -- `for code in codes { buf.put_u8(*code as u8) }`
  pub put_codes : Buffer → List SubscribeReturnCode → Buffer
  put_codes buf [] = buf
  put_codes buf (code ∷ codes) = put_codes (put_u8 buf (suback_code code)) codes

  pub suback : SubackPacket → Buffer
  suback packet =
      let remaining = 2 + length packet.return_codes in
      let buf = write_fixed_header (with_capacity (5 + length packet.return_codes)) 9 0 remaining in
      put_codes (put_u16 buf packet.packet_id.raw) packet.return_codes

  pub unsuback : PacketId → Buffer
  unsuback packet_id = put_u16 (write_fixed_header (with_capacity 4) 11 0 2) packet_id.raw

  unfoldable pub puback : PacketId → Buffer
  puback packet_id = simple_packet_with_id 4 packet_id

  pub pubrec : PacketId → Buffer
  pubrec packet_id = simple_packet_with_id 5 packet_id

  pub pubrel : PacketId → Buffer
  pubrel packet_id = simple_packet_with_flags 6 0x02 packet_id

  pub pubcomp : PacketId → Buffer
  pubcomp packet_id = simple_packet_with_id 7 packet_id

  unfoldable pub pingresp : Buffer
  pingresp = write_fixed_header (with_capacity 2) 13 0 0

  -- The packet identifier of a PUBLISH, between the topic and the payload.
  unfoldable pub put_publish_id : Qos → Option PacketId → Buffer → Result Buffer
  put_publish_id at_most_once packet_id buf = ok buf
  put_publish_id _ packet_id buf = do
    pid ← ok_or packet_id (encoding packet_id_required)
    ok (put_u16 buf pid.raw)

  unfoldable pub publish : PublishPacket → Result Buffer
  publish packet = do
    let remaining = remaining_length_for_packet (Packet.publish packet)
    let buf = with_capacity (10 + length packet.topic_name + length packet.payload)
    let buf₁ = write_fixed_header buf 3 (publish_flags packet) remaining
    let buf₂ = write_utf8_string buf₁ packet.topic_name
    buf₃ ← put_publish_id packet.qos packet.packet_id buf₂
    ok (put buf₃ packet.payload)

  unfoldable pub encode : Packet → Result Buffer
  encode (Packet.connack p) = ok (connack p)
  encode (Packet.publish p) = publish p
  encode (Packet.puback pid) = ok (puback pid)
  encode (Packet.pubrec pid) = ok (pubrec pid)
  encode (Packet.pubrel pid) = ok (pubrel pid)
  encode (Packet.pubcomp pid) = ok (pubcomp pid)
  encode (Packet.suback p) = ok (suback p)
  encode (Packet.unsuback pid) = ok (unsuback pid)
  encode Packet.pingresp = ok pingresp
  encode packet = err (encoding (cannot_encode (packet_type packet)))
