-- ===== src/Protocol/Decode/Readers.antt =====
-- The readers of src/protocol/decode.rs. The cursor `&mut &[u8]` is passed explicitly: a reader
-- takes what is left of the buffer and returns its value with what is left then. After an error
-- no caller looks at the cursor again, so an error comes back alone.
use opencode_rustquitto.Base.{
  ℕ, ◌+◌, ◌*◌, ◌/◌, bit_and, ◌≡◌, ◌&&◌, [], ◌∷◌, ◌==◌, leb, ltb, if◌then◌else◌, length, is_empty,
  take, drop, Bytes, arith,
}
use opencode_rustquitto.Error.{
  Result, ok, err, decoding, unexpected_end, malformed_length, length_too_large, buffer_exhausted,
  too_short_for_u16, too_short, invalid_utf8, unknown_packet_type, ok_or, ◌>>=◌,
}
use opencode_rustquitto.Text.{Text}
use opencode_rustquitto.Text.Utf8.{is_utf8}
use opencode_rustquitto.Protocol.PacketType
use opencode_rustquitto.Protocol.Types.{PacketId, FixedHeader, from_be}

unfoldable pub inner_read_u8 : Bytes → Result (ℕ × Bytes)
inner_read_u8 [] = err (decoding buffer_exhausted)
inner_read_u8 (byte ∷ rest) = ok (byte, rest)

unfoldable pub inner_read_u16 : Bytes → Result (ℕ × Bytes)
inner_read_u16 [] = err (decoding too_short_for_u16)
inner_read_u16 (hi ∷ []) = err (decoding too_short_for_u16)
inner_read_u16 (hi ∷ lo ∷ rest) = ok (from_be hi lo, rest)

unfoldable pub inner_read_exact : Bytes → ℕ → Result (Bytes × Bytes)
inner_read_exact src len =
    if ltb (length src) len
    then err (decoding (too_short len (length src)))
    else ok (take len src, drop len src)

-- `String::from_utf8(bytes.to_vec()).map_err(…)`
unfoldable pub text_of : Bytes → Result Text
text_of bytes = if is_utf8 bytes then ok bytes else err (decoding invalid_utf8)

unfoldable pub read_utf8_string : Bytes → Result (Text × Bytes)
read_utf8_string src = do
  (len, src₁) ← inner_read_u16 src
  (bytes, src₂) ← inner_read_exact src₁ len
  text ← text_of bytes
  ok (text, src₂)

unfoldable pub read_payload : Bytes → ℕ → Result (Bytes × Bytes)
read_payload src len = inner_read_exact src len

unfoldable pub read_packet_id : Bytes → Result (PacketId × Bytes)
read_packet_id src = do (raw, src₁) ← inner_read_u16 src; ok (record { raw = raw }, src₁)

-- The loop of `decode_remaining_length`. Its guard `BytesMut::new().remaining() >= buf.len() &&
-- buf.is_empty()` is `buf.is_empty()`, whatever the new buffer answers (`exhausted_lem`), and after
-- it `inner_read_u8` takes the first byte. All numbers stay below 2 ^ 32, so `usize` cannot wrap.
unfoldable pub remaining_length_loop : Bytes → ℕ → ℕ → ℕ → Result (ℕ × ℕ × Bytes)
remaining_length_loop [] multiplier value bytes_consumed = err (decoding unexpected_end)
remaining_length_loop (byte ∷ rest) multiplier value bytes_consumed =
    let value' = value + multiplier * bit_and byte 0x7f in
    let multiplier' = multiplier * 128 in
    let consumed = bytes_consumed + 1 in
    let more = remaining_length_loop rest multiplier' value' consumed in
    if bit_and byte 0x80 == 0
    then ok (value', consumed, rest)
    else if leb 4 consumed
    then err (decoding malformed_length)
    else if ltb (128 * 128 * 128) multiplier'
    then err (decoding length_too_large)
    else more

exhausted_lem :
    (remaining : ℕ) (buf : Bytes) → (leb (length buf) remaining && is_empty buf) ≡ is_empty buf
exhausted_lem remaining [] = ground arith
exhausted_lem remaining (b ∷ buf) = ground arith

-- The value, the bytes consumed, and the cursor.
unfoldable pub decode_remaining_length : Bytes → Result (ℕ × ℕ × Bytes)
decode_remaining_length buf = remaining_length_loop buf 1 0 0

unfoldable pub decode_fixed_header : Bytes → Result (FixedHeader × Bytes)
decode_fixed_header buf = do
  (first_byte, buf₁) ← inner_read_u8 buf
  let packet_type_byte = first_byte / 16
  let flags = bit_and first_byte 0x0f
  packet_type ←
      ok_or (PacketType.try_from_u8 packet_type_byte)
        (decoding (unknown_packet_type packet_type_byte))
  (remaining_length, consumed, buf₂) ← decode_remaining_length buf₁
  ok (
    record { packet_type = packet_type; flags = flags; remaining_length = remaining_length },
    buf₂,
  )
