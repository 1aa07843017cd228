-- ===== src/Protocol/Types.antt =====
-- The packets of src/protocol/types.rs. A `u8` or `u16` field is a number, a `String` its bytes.
use opencode_rustquitto.Base.{
  ℕ, ◌+◌, ◌*◌, ◌/◌, ◌%◌, Bool, true, false, Option, List, [], ◌∷◌, Bytes,
}
use opencode_rustquitto.Text.{Text}
use opencode_rustquitto.Protocol.Qos.{Qos}
use opencode_rustquitto.Protocol.PacketType.{PacketType}

pub record PacketId : Type 0 where
  pub raw : ℕ

pub record FixedHeader : Type 0 where
  pub packet_type : PacketType
  pub flags : ℕ
  pub remaining_length : ℕ

pub data ConnackReturnCode : Type 0 where
  accepted unacceptable_protocol_version identifier_rejected : ConnackReturnCode
  server_unavailable bad_username_or_password not_authorized : ConnackReturnCode

pub data SubscribeReturnCode : Type 0 where
  success_qos0 success_qos1 success_qos2 failure : SubscribeReturnCode

pub record ConnectPacket : Type 0 where
  pub protocol_name : Text
  pub protocol_level : ℕ
  pub clean_session : Bool
  pub will_flag : Bool
  pub will_qos : Option Qos
  pub will_retain : Bool
  pub username_flag : Bool
  pub password_flag : Bool
  pub keep_alive : ℕ
  pub client_id : Text
  pub will_topic : Option Text
  pub will_message : Option Bytes
  pub username : Option Text
  pub password : Option Bytes

pub record ConnackPacket : Type 0 where
  pub session_present : Bool
  pub return_code : ConnackReturnCode

pub record PublishPacket : Type 0 where
  pub dup : Bool
  pub qos : Qos
  pub retain : Bool
  pub topic_name : Text
  pub packet_id : Option PacketId
  pub payload : Bytes

pub record SubscribePacket : Type 0 where
  pub packet_id : PacketId
  pub subscriptions : List (Text × Qos)

pub record SubackPacket : Type 0 where
  pub packet_id : PacketId
  pub return_codes : List SubscribeReturnCode

pub record UnsubscribePacket : Type 0 where
  pub packet_id : PacketId
  pub topic_filters : List Text

pub data Packet : Type 0 where
  connect : ConnectPacket → Packet
  connack : ConnackPacket → Packet
  publish : PublishPacket → Packet
  puback pubrec pubrel pubcomp : PacketId → Packet
  subscribe : SubscribePacket → Packet
  suback : SubackPacket → Packet
  unsubscribe : UnsubscribePacket → Packet
  unsuback : PacketId → Packet
  pingreq pingresp disconnect : Packet

-- `Packet::packet_type`
unfoldable pub packet_type : Packet → PacketType
packet_type (connect p) = PacketType.connect
packet_type (connack p) = PacketType.connack
packet_type (publish p) = PacketType.publish
packet_type (puback i) = PacketType.puback
packet_type (pubrec i) = PacketType.pubrec
packet_type (pubrel i) = PacketType.pubrel
packet_type (pubcomp i) = PacketType.pubcomp
packet_type (subscribe p) = PacketType.subscribe
packet_type (suback p) = PacketType.suback
packet_type (unsubscribe p) = PacketType.unsubscribe
packet_type (unsuback i) = PacketType.unsuback
packet_type pingreq = PacketType.pingreq
packet_type pingresp = PacketType.pingresp
packet_type disconnect = PacketType.disconnect

-- `code as u8`
unfoldable pub connack_code : ConnackReturnCode → ℕ
connack_code accepted = 0
connack_code unacceptable_protocol_version = 1
connack_code identifier_rejected = 2
connack_code server_unavailable = 3
connack_code bad_username_or_password = 4
connack_code not_authorized = 5

unfoldable pub suback_code : SubscribeReturnCode → ℕ
suback_code success_qos0 = 0x00
suback_code success_qos1 = 0x01
suback_code success_qos2 = 0x02
suback_code failure = 0x80

-- `u16::to_be_bytes` and `u16::from_be_bytes`
unfoldable pub be_bytes : ℕ → Bytes
be_bytes n = (n / 256 % 256) ∷ (n % 256) ∷ []

abbrev pub from_be : ℕ → ℕ → ℕ
from_be hi lo = hi * 256 + lo

-- `u8::from` of a `bool`
abbrev pub flag : Bool → ℕ
flag true = 1
flag false = 0
