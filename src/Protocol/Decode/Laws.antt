-- ===== src/Protocol/Decode/Laws.antt =====
-- What the readers of src/protocol/decode.rs return on the wire form of a value, with any bytes
-- behind it.
use opencode_rustquitto.Base.{
  ℕ, ◌/◌, ◌^◌, ◌<◌, ◌≡◌, bit_and, ◌∷◌, ◌++◌, append_assoc, length, length-append, take-append,
  drop-append, Bytes, arith,
}
use opencode_rustquitto.Base.Bits.{low_four}
use opencode_rustquitto.Error.{ok}
use opencode_rustquitto.Text.{Text}
use opencode_rustquitto.Protocol.PacketType.{PacketType, try_from_u8-as_u8, as_u8-lt}
use opencode_rustquitto.Protocol.PacketType
use opencode_rustquitto.Protocol.Types.{PacketId, be_bytes}
use opencode_rustquitto.Protocol.Encode.{encode_remaining_length}
use opencode_rustquitto.Protocol.Wire.{frame, prefixed, header_byte, IsText}
use opencode_rustquitto.Protocol.Decode.{decode, decode_body}
use opencode_rustquitto.Protocol.Decode.Readers.{
  inner_read_u8, inner_read_u16, inner_read_exact, text_of, read_utf8_string, read_packet_id,
  decode_fixed_header,
}
use opencode_rustquitto.Protocol.Decode.Packets.{read_binary}
use opencode_rustquitto.Protocol.Decode.Length.{decode-encode_remaining_length}

pub inner_read_u16-be_bytes :
    (n : ℕ) (rest : Bytes) → n < 65536 → inner_read_u16 (be_bytes n ++ rest) ≡ ok (n, rest)
unfolding inner_read_u16 be_bytes
inner_read_u16-be_bytes n rest h = ground arith

pub inner_read_exact-append :
    (bytes rest : Bytes) → inner_read_exact (bytes ++ rest) (length bytes) ≡ ok (bytes, rest)
unfolding inner_read_exact
inner_read_exact-append bytes rest =
    ground (arith, length-append bytes rest, take-append bytes rest, drop-append bytes rest)

pub read_binary-prefixed :
    (bytes rest : Bytes)
    → length bytes < 65536
    → read_binary (prefixed bytes ++ rest) ≡ ok (bytes, rest)
unfolding read_binary prefixed
read_binary-prefixed bytes rest h =
    rw (append_assoc, inner_read_u16-be_bytes (length bytes) (bytes ++ rest) h)
      (inner_read_exact-append bytes rest)

pub read_utf8_string-prefixed :
    (t : Text) (rest : Bytes) → IsText t → read_utf8_string (prefixed t ++ rest) ≡ ok (t, rest)
unfolding read_utf8_string text_of prefixed
read_utf8_string-prefixed t rest h = rw (
  append_assoc,
  inner_read_u16-be_bytes (length t) (t ++ rest) h.fits,
  inner_read_exact-append t rest,
  h.utf8,
)

pub read_packet_id-be_bytes :
    (i : PacketId) (rest : Bytes)
    → i.raw < 65536
    → read_packet_id (be_bytes i.raw ++ rest) ≡ ok (i, rest)
unfolding read_packet_id
read_packet_id-be_bytes i rest h = rw (inner_read_u16-be_bytes i.raw rest h)

pub header_byte_parts :
    (kind : PacketType) (flags : ℕ)
    → flags < 16
    → (header_byte kind flags / 16 ≡ PacketType.as_u8 kind)
      × (bit_and (header_byte kind flags) 0x0f ≡ flags)
header_byte_parts kind flags h = (
  omega arith,
  rw (low_four (header_byte kind flags) (omega (arith, as_u8-lt kind))) (omega arith),
)

-- The fixed header of a packet, with any bytes behind it.
pub decode_fixed_header_lem :
    (kind : PacketType) (flags n : ℕ) (rest : Bytes)
    → flags < 16
    → n < 128 ^ 4
    → decode_fixed_header ((header_byte kind flags ∷ encode_remaining_length n) ++ rest)
      ≡ ok (record { packet_type = kind; flags = flags; remaining_length = n }, rest)
decode_fixed_header_lem kind flags n rest h k =
    let parts = header_byte_parts kind flags h in
    unfold decode_fixed_header inner_read_u8 in
    rw (parts.0, try_from_u8-as_u8 kind, decode-encode_remaining_length n rest k, parts.1)

-- A whole frame reaches the decoder of its kind, which sees whatever follows the frame too.
pub decode-frame :
    (kind : PacketType) (flags : ℕ) (body extra : Bytes)
    → flags < 16
    → length body < 128 ^ 4
    → decode (frame kind flags body ++ extra)
      ≡ decode_body kind
          (record { packet_type = kind; flags = flags; remaining_length = length body })
          (body ++ extra)
unfolding decode
decode-frame kind flags body extra h k =
    rw (append_assoc, decode_fixed_header_lem kind flags (length body) (body ++ extra) h k)
      (ground (arith, length-append body extra))
