-- ===== src/Protocol/RoundTrip/Connect.antt =====
-- CONNECT packets through `decode` (src/protocol/decode.rs), from the wire form of the specification.
use opencode_rustquitto.Base.{
  ℕ, ◌/◌, ◌≡◌, ◌≢◌, refl, ◌∙◌, bit_and, Bool, true, false, ◌&&◌, Option, some, none, ◌∷◌, ◌++◌,
  append_assoc, Bytes, arith,
}
use opencode_rustquitto.Error.{Result, ok}
use opencode_rustquitto.Text.{Text}
use opencode_rustquitto.Protocol.Qos.{Qos, at_most_once, at_least_once, exactly_once}
use opencode_rustquitto.Protocol.Qos
use opencode_rustquitto.Protocol.PacketType.{PacketType}
use opencode_rustquitto.Protocol.Types.{Packet, ConnectPacket, be_bytes}
use opencode_rustquitto.Protocol.Wire.{
  frame, prefixed, optional, flag_bits, connect_flags, connect_body, IsText, IsBinary, Announces,
  IsConnect,
}
use opencode_rustquitto.Protocol.Decode.{decode, decode_body}
use opencode_rustquitto.Protocol.Decode.Readers.{inner_read_u8, read_utf8_string}
use opencode_rustquitto.Protocol.Decode.Packets.{
  bit_set, is_none, read_if, read_binary, read_protocol_name, decode_connect,
}
use opencode_rustquitto.Protocol.Decode.Laws.{
  inner_read_u16-be_bytes, read_utf8_string-prefixed, read_binary-prefixed, decode-frame,
}

module _ (user password retain : Bool) (qos : Option Qos) (will clean : Bool) where
  abbrev bits : ℕ
  bits = flag_bits user password retain qos will clean

  upper_bits :
      (bit_set bits 0x80 ≡ user) × (bit_set bits 0x40 ≡ password) × (bit_set bits 0x20 ≡ retain)
  unfolding bit_set Qos.as_u8
  upper_bits = ground arith

  lower_bits :
      (bit_set bits 0x04 ≡ will) × (bit_set bits 0x02 ≡ clean) × (bit_set bits 0x01 ≡ false)
  unfolding bit_set Qos.as_u8
  lower_bits = ground arith

  level_bits : Qos.try_from_u8 (bit_and (bits / 8) 0x03) ≡ qos
  unfolding Qos.try_from_u8 Qos.as_u8
  level_bits = ground arith

read_if-optional :
    (P : Bytes → Type 0) (read : Bytes → Result (Bytes × Bytes))
    → ((bytes rest : Bytes) → P bytes → read (prefixed bytes ++ rest) ≡ ok (bytes, rest))
    → (b : Bool) (field : Option Bytes) (rest : Bytes) → Announces P b field
    → read_if b read (optional field ++ rest) ≡ ok (field, rest)
unfolding read_if
read_if-optional P read law true (some bytes) rest h = rw (law bytes rest h)
read_if-optional P read law true none rest h = absurd h
read_if-optional P read law false (some bytes) rest h = absurd h
read_if-optional P read law false none rest h = refl

read_text_if :
    (b : Bool) (field : Option Bytes) (rest : Bytes)
    → Announces IsText b field
    → read_if b read_utf8_string (optional field ++ rest) ≡ ok (field, rest)
read_text_if =
    read_if-optional IsText read_utf8_string (λ t rest h. read_utf8_string-prefixed t rest h)

read_binary_if :
    (b : Bool) (field : Option Bytes) (rest : Bytes)
    → Announces IsBinary b field
    → read_if b read_binary (optional field ++ rest) ≡ ok (field, rest)
read_binary_if = read_if-optional IsBinary read_binary (λ t rest h. read_binary-prefixed t rest h)

read_protocol_name-prefixed :
    (t : Text) (rest : Bytes) → IsText t → read_protocol_name (prefixed t ++ rest) ≡ ok (t, rest)
unfolding read_protocol_name
read_protocol_name-prefixed t rest h = rw (read_binary-prefixed t rest h.fits, h.utf8)

-- The body of a CONNECT with `rest` behind it, bracketed the way that the decoder reads it.
abbrev laid_out : ConnectPacket → Bytes → Bytes
laid_out p rest =
    prefixed p.protocol_name
    ++ (p.protocol_level
        ∷ connect_flags p
        ∷ (be_bytes p.keep_alive
            ++ (prefixed p.client_id
                ++ (optional p.will_topic
                    ++ (optional p.will_message
                        ++ (optional p.username ++ (optional p.password ++ rest)))))))

laid_out_lem : (p : ConnectPacket) (rest : Bytes) → connect_body p ++ rest ≡ laid_out p rest
laid_out_lem p rest = simp append_assoc

will_guard :
    (will : Bool) (qos : Option Qos) → (will ≡ true → qos ≢ none) → (will && is_none qos) ≡ false
will_guard will qos h = ground (arith, h)

decode_connect-laid_out :
    (p : ConnectPacket) (rest : Bytes)
    → IsConnect p
    → decode_connect (laid_out p rest) ≡ ok (p, rest)
unfolding decode_connect inner_read_u8 connect_flags
decode_connect-laid_out p rest c =
    let upper =
      upper_bits p.username_flag p.password_flag p.will_retain p.will_qos p.will_flag
        p.clean_session in
    let lower =
      lower_bits p.username_flag p.password_flag p.will_retain p.will_qos p.will_flag
        p.clean_session in
    let level =
      level_bits p.username_flag p.password_flag p.will_retain p.will_qos p.will_flag
        p.clean_session in
    rw (
      read_protocol_name-prefixed p.protocol_name _ c.name,
      upper.0,
      upper.1,
      upper.2,
      level,
      lower.0,
      lower.1,
      lower.2,
      will_guard p.will_flag p.will_qos c.level,
      inner_read_u16-be_bytes p.keep_alive _ c.keep_alive,
      read_utf8_string-prefixed p.client_id _ c.client_id,
      read_text_if p.will_flag p.will_topic _ c.will_topic,
      read_binary_if p.will_flag p.will_message _ c.will_message,
      read_text_if p.username_flag p.username _ c.username,
      read_binary_if p.password_flag p.password rest c.password,
    )

-- A CONNECT in the wire form of MQTT 3.1.1, its flags in agreement with its fields, is decoded to
-- the packet it stands for, field by field, and what follows it is left.
pub decode-connect_frame :
    (p : ConnectPacket) (rest : Bytes)
    → IsConnect p
    → decode (frame PacketType.connect 0 (connect_body p) ++ rest) ≡ ok (Packet.connect p, rest)
unfolding decode_body
decode-connect_frame p rest c =
    decode-frame PacketType.connect 0 (connect_body p) rest (omega arith) c.fits
    ∙ rw (laid_out_lem p rest, decode_connect-laid_out p rest c)
