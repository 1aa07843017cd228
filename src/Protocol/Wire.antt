-- ===== src/Protocol/Wire.antt =====
-- The binary form of the packets by MQTT 3.1.1, sections 2 and 3, written down independently of
-- src/protocol/encode.rs and decode.rs: the specification that both are held against.
use opencode_rustquitto.Base.{
  ◌≢◌, ◌^◌, ℕ, ◌+◌, ◌*◌, Bool, true, false, Option, none, some, List, [], ◌∷◌, ◌++◌, length, Bytes,
  map, ◌<◌, ◌≡◌,
}
use opencode_rustquitto.Text.{Text}
use opencode_rustquitto.Text.Utf8.{is_utf8}
use opencode_rustquitto.Protocol.Qos.{Qos, at_most_once}
use opencode_rustquitto.Protocol.Qos
use opencode_rustquitto.Protocol.PacketType.{PacketType}
use opencode_rustquitto.Protocol.PacketType
use opencode_rustquitto.Protocol.Encode.{encode_remaining_length}
use opencode_rustquitto.Protocol.Types.{
  ConnectPacket, PacketId, PublishPacket, ConnackPacket, SubackPacket, SubscribePacket,
  UnsubscribePacket, connack_code, suback_code, be_bytes, flag,
}

-- A length of two bytes and the bytes themselves: strings and binary data.
unfoldable pub prefixed : Bytes → Bytes
prefixed bytes = be_bytes (length bytes) ++ bytes

-- The first byte of a packet: its kind, and four flags.
abbrev pub header_byte : PacketType → ℕ → ℕ
header_byte kind flags = PacketType.as_u8 kind * 16 + flags

-- A packet: the first byte, the length of the body, and the body.
abbrev pub frame : PacketType → ℕ → Bytes → Bytes
frame kind flags body = (header_byte kind flags ∷ encode_remaining_length (length body)) ++ body

abbrev pub id_bytes : Qos → Option PacketId → Bytes
id_bytes at_most_once packet_id = []
id_bytes q none = []
id_bytes q (some i) = be_bytes i.raw

-- DUP, two bits of QoS, RETAIN.
unfoldable pub flags_of_publish : PublishPacket → ℕ
unfolding Qos.as_u8
flags_of_publish p = flag p.dup * 8 + Qos.as_u8 p.qos * 2 + flag p.retain

abbrev pub publish_body : PublishPacket → Bytes
publish_body p = prefixed p.topic_name ++ (id_bytes p.qos p.packet_id ++ p.payload)

abbrev pub connack_body : ConnackPacket → Bytes
connack_body p = flag p.session_present ∷ connack_code p.return_code ∷ []

abbrev pub suback_body : SubackPacket → Bytes
suback_body p = be_bytes p.packet_id.raw ++ map suback_code p.return_codes

-- Pairs of a topic filter and a requested level.
unfoldable pub filters_bytes : List (Text × Qos) → Bytes
unfolding Qos.as_u8
filters_bytes [] = []
filters_bytes ((filter, qos) ∷ more) = prefixed filter ++ (Qos.as_u8 qos ∷ filters_bytes more)

unfoldable pub topics_bytes : List Text → Bytes
topics_bytes [] = []
topics_bytes (filter ∷ more) = prefixed filter ++ topics_bytes more

abbrev pub subscribe_body : SubscribePacket → Bytes
subscribe_body p = be_bytes p.packet_id.raw ++ filters_bytes p.subscriptions

abbrev pub unsubscribe_body : UnsubscribePacket → Bytes
unsubscribe_body p = be_bytes p.packet_id.raw ++ topics_bytes p.topic_filters

-- A string that the two length bytes can announce.
pub record IsText (t : Text) : Type 0 where
  pub fits : length t < 65536
  pub utf8 : is_utf8 t ≡ true

-- A QoS above 0 comes with a packet identifier, and QoS 0 with none.
abbrev pub IdFits : Qos → Option PacketId → Type 0
IdFits at_most_once none = Unit
IdFits at_most_once (some i) = ⊥
IdFits q none = ⊥
IdFits q (some i) = i.raw < 65536

-- Two bits of the connect flags; 3 stands for no level.
abbrev pub qos_bits : Option Qos → ℕ
qos_bits none = 3
qos_bits (some q) = Qos.as_u8 q

abbrev pub flag_bits : Bool → Bool → Bool → Option Qos → Bool → Bool → ℕ
flag_bits user password retain qos will clean =
    flag user * 128
    + flag password * 64
    + flag retain * 32
    + qos_bits qos * 8
    + flag will * 4
    + flag clean * 2

unfoldable pub connect_flags : ConnectPacket → ℕ
connect_flags p =
    flag_bits p.username_flag p.password_flag p.will_retain p.will_qos p.will_flag p.clean_session

-- A field of the payload that may be absent.
abbrev pub optional : Option Bytes → Bytes
optional none = []
optional (some bytes) = prefixed bytes

abbrev connect_payload : ConnectPacket → Bytes
connect_payload p =
    prefixed p.client_id
    ++ (optional p.will_topic
        ++ (optional p.will_message ++ (optional p.username ++ optional p.password)))

abbrev pub connect_body : ConnectPacket → Bytes
connect_body p =
    prefixed p.protocol_name
    ++ (p.protocol_level ∷ connect_flags p ∷ (be_bytes p.keep_alive ++ connect_payload p))

-- A flag announces a field, which then satisfies `P`.
abbrev pub Announces : (Bytes → Type 0) → Bool → Option Bytes → Type 0
Announces P true (some bytes) = P bytes
Announces P true none = ⊥
Announces P false (some bytes) = ⊥
Announces P false none = Unit

abbrev pub IsBinary : Bytes → Type 0
IsBinary bytes = length bytes < 65536

-- A CONNECT whose flags agree with its fields, and whose will has a level.
pub record IsConnect (p : ConnectPacket) : Type 0 where
  pub name : IsText p.protocol_name
  pub level : p.will_flag ≡ true → p.will_qos ≢ none
  pub keep_alive : p.keep_alive < 65536
  pub client_id : IsText p.client_id
  pub will_topic : Announces IsText p.will_flag p.will_topic
  pub will_message : Announces IsBinary p.will_flag p.will_message
  pub username : Announces IsText p.username_flag p.username
  pub password : Announces IsBinary p.password_flag p.password
  pub fits : length (connect_body p) < 128 ^ 4
