-- ===== src/Server/Extract/Framed.antt =====
-- `extract_packet` of src/server/tcp.rs on a buffer that begins with a frame, whole or cut off.
use opencode_rustquitto.Base.{
  ℕ, ◌+◌, ◌-◌, ◌%◌, ◌^◌, ◌≤◌, ◌<◌, ◌≡◌, refl, ◌∙◌, ap, none, some, [], ◌∷◌, ◌++◌, append_assoc,
  length, length-append, take, drop, take-append, drop-append, Bytes, arith,
}
use opencode_rustquitto.Error.{ok, err, decoding, unexpected_end}
use opencode_rustquitto.Extern.Buffer.{BytesMut}
use opencode_rustquitto.Protocol.PacketType.{PacketType, try_from_u8-as_u8}
use opencode_rustquitto.Protocol.Encode.{encode_remaining_length}
use opencode_rustquitto.Protocol.Encode.Length.{
  encode_remaining_length_shape, length_bytes, encode_remaining_length-length_bytes,
}
use opencode_rustquitto.Protocol.Wire.{frame, header_byte}
use opencode_rustquitto.Protocol.Decode.Readers.{
  decode_fixed_header, decode_remaining_length, remaining_length_loop, inner_read_u8,
}
use opencode_rustquitto.Protocol.Decode.Laws.{decode_fixed_header_lem, header_byte_parts}
use opencode_rustquitto.Protocol.Decode.Length.{inner_byte}
use opencode_rustquitto.Server.Extract.{packet_of, take_packet, extract_packet}

-- A header that ends behind the first of several length bytes.
cut_header :
    (kind : PacketType) (flags g : ℕ)
    → flags < 16
    → g < 128
    → decode_fixed_header (header_byte kind flags ∷ (g + 128) ∷ []) ≡ err (decoding unexpected_end)
cut_header kind flags g f h =
    let parts = header_byte_parts kind flags f in
    let looped : decode_remaining_length ((g + 128) ∷ []) ≡ err (decoding unexpected_end) =
      unfold decode_remaining_length in
      inner_byte g 1 0 0 [] h (omega arith) (omega arith)
      ∙ (unfold remaining_length_loop in refl) in
    unfold decode_fixed_header inner_read_u8 in rw (parts.0, try_from_u8-as_u8 kind, looped)

first_length_byte :
    (n : ℕ) → 128 ≤ n → n < 128 ^ 4 → take 1 (encode_remaining_length n) ≡ (n % 128 + 128) ∷ []
unfolding length_bytes
first_length_byte n l h = rw (encode_remaining_length-length_bytes 3 n h) (ground arith)

module _ (B : BytesMut) where
  open B use {Buffer, contents, split_to}

  -- The header of a frame with a body of `n` bytes.
  abbrev pub header : PacketType → ℕ → ℕ → Bytes
  header kind flags n = header_byte kind flags ∷ encode_remaining_length n

  extract-take_packet :
      (buf : Buffer) (kind : PacketType) (flags n : ℕ) (behind : Bytes)
      → contents buf ≡ header kind flags n ++ behind
      → flags < 16
      → n < 128 ^ 4
      → extract_packet B buf
        ≡ take_packet B buf
            (ok (record { packet_type = kind; flags = flags; remaining_length = n }, behind))
  unfolding extract_packet
  extract-take_packet buf kind flags n behind e f h =
      let shape = encode_remaining_length_shape n h in
      let long : 2 ≤ length (contents buf) =
        rw e (omega (arith, length-append (encode_remaining_length n) behind, shape)) in
      rw (ap (λ c. decode_fixed_header c) e ∙ decode_fixed_header_lem kind flags n behind f h)
        (ground arith)

  -- A frame whose body has not arrived in full: nothing is taken, and the buffer is left.
  pub extract_packet_waits :
      (buf : Buffer) (kind : PacketType) (flags n : ℕ) (part : Bytes)
      → contents buf ≡ header kind flags n ++ part
      → flags < 16
      → n < 128 ^ 4
      → length part < n
      → extract_packet B buf ≡ (none, buf)
  unfolding take_packet
  extract_packet_waits buf kind flags n part e f h short =
      let size : length (contents buf) ≡ length (header kind flags n) + length part =
        ap (λ (c : Bytes). length c) e ∙ length-append (header kind flags n) part in
      extract-take_packet buf kind flags n part e f h ∙ ground arith

  -- A buffer that begins with a whole frame: exactly the frame is taken and decoded by itself,
  -- and all that follows it stays in the buffer for the next call.
  pub extract_packet_takes :
      (buf : Buffer) (kind : PacketType) (flags : ℕ) (body rest : Bytes)
      → contents buf ≡ frame kind flags body ++ rest
      → flags < 16
      → length body < 128 ^ 4
      → ((extract_packet B buf).0 ≡ some (packet_of (frame kind flags body)))
        × (contents (extract_packet B buf).1 ≡ rest)
  unfolding take_packet
  extract_packet_takes buf kind flags body rest e f h =
      let n = length body in
      let whole = frame kind flags body in
      let e' = e ∙ append_assoc (header kind flags n) body rest in
      let size : length (contents buf)
          ≡ length (header kind flags n) + (length body + length rest) =
        ap (λ (c : Bytes). length c) e'
        ∙ length-append (header kind flags n) (body ++ rest)
        ∙ ap (λ (k : ℕ). length (header kind flags n) + k) (length-append body rest) in
      let total : length (contents buf) - length (body ++ rest) + n ≡ length whole =
        omega (arith, size, length-append body rest, length-append (header kind flags n) body) in
      let fits : length whole ≤ length (contents buf) =
        omega (arith, size, length-append (header kind flags n) body) in
      let cut = B.contents-split_to buf (length whole) fits in
      let taken : take (length whole) (contents buf) ≡ whole =
        ap (λ (c : Bytes). take (length whole) c) e ∙ take-append whole rest in
      let left : drop (length whole) (contents buf) ≡ rest =
        ap (λ (c : Bytes). drop (length whole) c) e ∙ drop-append whole rest in
      rw (extract-take_packet buf kind flags n (body ++ rest) e' f h, total)
        (ground (arith, fits, cut, taken, left))

  -- A frame with a body of 128 bytes or more, of which two bytes have arrived: the length field is
  -- not complete, and the call reports an error where more bytes would complete it.
  pub extract_packet_refuses :
      (buf : Buffer) (kind : PacketType) (flags n : ℕ)
      → contents buf ≡ take 2 (header kind flags n)
      → flags < 16
      → 128 ≤ n
      → n < 128 ^ 4
      → extract_packet B buf ≡ (some (err (decoding unexpected_end)), buf)
  unfolding extract_packet take_packet
  extract_packet_refuses buf kind flags n e f l h =
      let two = e ∙ ap (λ (g : Bytes). header_byte kind flags ∷ g) (first_length_byte n l h) in
      rw (two, cut_header kind flags (n % 128) f (omega arith)) (ground arith)
