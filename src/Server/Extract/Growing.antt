-- ===== src/Server/Extract/Growing.antt =====
-- `extract_packet` of src/server/tcp.rs depends on the bytes of its buffer alone, takes two of them at
-- least, and takes the same packet when more bytes have arrived.
use opencode_rustquitto.Base.{
  ℕ, ◌+◌, ◌-◌, ◌*◌, ◌/◌, ◌≤◌, ◌<◌, ◌≡◌, refl, ◌∙◌, sym, ap, false, Option, none, some, [], ◌∷◌,
  ◌++◌, length, length-append, drop, take-append_of_le, drop-append_of_le, length-drop, Bytes, ltb,
  bit_and, Bool-cases, inl, inr, arith,
}
use opencode_rustquitto.Error.{Result, ok, err, ok_or, ◌>>=◌, decoding, unknown_packet_type}
use opencode_rustquitto.Extern.Buffer.{BytesMut, list_buffer}
use opencode_rustquitto.Protocol.PacketType
use opencode_rustquitto.Protocol.Types.{Packet, FixedHeader}
use opencode_rustquitto.Protocol.Decode.Readers.{
  decode_fixed_header, decode_remaining_length, remaining_length_loop, inner_read_u8,
}
use opencode_rustquitto.Server.Extract.{packet_of, take_packet, extract_packet}

-- More bytes behind those that were read change nothing but what is left.
remaining_length_loop-append :
    (src more : Bytes) (multiplier value consumed n used : ℕ) (rest : Bytes)
    → remaining_length_loop src multiplier value consumed ≡ ok (n, used, rest)
    → remaining_length_loop (src ++ more) multiplier value consumed ≡ ok (n, used, rest ++ more)
unfolding remaining_length_loop
remaining_length_loop-append [] more multiplier value consumed n used rest h = absurd (cc)
remaining_length_loop-append (x ∷ src) more multiplier value consumed n used rest h = ground (
  arith,
  remaining_length_loop-append src more (multiplier * 128) (value + multiplier * bit_and x 0x7f)
      (consumed + 1) n used rest,
)

-- What is left is an end of what was there, and shorter.
remaining_length_loop-lt :
    (src : Bytes) (multiplier value consumed n used : ℕ) (rest : Bytes)
    → remaining_length_loop src multiplier value consumed ≡ ok (n, used, rest)
    → length rest < length src
unfolding remaining_length_loop
remaining_length_loop-lt [] multiplier value consumed n used rest h = absurd (cc)
remaining_length_loop-lt (x ∷ src) multiplier value consumed n used rest h = ground (
  arith,
  remaining_length_loop-lt src (multiplier * 128) (value + multiplier * bit_and x 0x7f)
      (consumed + 1) n used rest,
)

-- The header of a buffer with a first byte, from its kind and the length field.
header_of : ℕ → Option PacketType.PacketType → Result (ℕ × ℕ × Bytes) → Result (FixedHeader × Bytes)
header_of x none r = err (decoding (unknown_packet_type (x / 16)))
header_of x (some kind) (err e) = err e
header_of x (some kind) (ok (n, used, rest)) =
    ok (record { packet_type = kind; flags = bit_and x 0x0f; remaining_length = n }, rest)

decode_fixed_header-header_of :
    (x : ℕ) (src : Bytes)
    → decode_fixed_header (x ∷ src)
      ≡ header_of x (PacketType.try_from_u8 (x / 16)) (decode_remaining_length src)
unfolding header_of
decode_fixed_header-header_of x src =
    unfold decode_fixed_header inner_read_u8 in
    by_cases (PacketType.try_from_u8 (x / 16)) (decode_remaining_length src)
  where
    by_cases :
        (kind : Option PacketType.PacketType) (r : Result (ℕ × ℕ × Bytes))
        → (ok_or kind (decoding (unknown_packet_type (x / 16))) >>= (λ k. r >>= (λ t.
            ok (record { packet_type = k; flags = bit_and x 0x0f; remaining_length = t.0 }, t.2))))
          ≡ header_of x kind r
    by_cases none r = refl
    by_cases (some kind) (err e) = refl
    by_cases (some kind) (ok t) = refl

header_of-append :
    (x : ℕ) (kind : Option PacketType.PacketType) (src more : Bytes) (header : FixedHeader)
    (peek : Bytes) (r : Result (ℕ × ℕ × Bytes))
    → decode_remaining_length src ≡ r
    → header_of x kind r ≡ ok (header, peek)
    → (header_of x kind (decode_remaining_length (src ++ more)) ≡ ok (header, peek ++ more))
      × (length peek < length src)
unfolding header_of decode_remaining_length
header_of-append x none src more header peek r e h = absurd (cc)
header_of-append x (some kind) src more header peek (err b) e h = absurd (cc)
header_of-append x (some kind) src more header peek (ok (n, used, rest)) e h =
    let longer = remaining_length_loop-append src more 1 0 0 n used rest e in
    let shorter = remaining_length_loop-lt src 1 0 0 n used rest e in
    let same : rest ≡ peek = cc in (rw longer (cc), rw same at shorter)

decode_fixed_header-append :
    (src more : Bytes) (header : FixedHeader) (peek : Bytes)
    → decode_fixed_header src ≡ ok (header, peek)
    → (decode_fixed_header (src ++ more) ≡ ok (header, peek ++ more))
      × (2 + length peek ≤ length src)
decode_fixed_header-append [] more header peek h =
    absurd (unfold decode_fixed_header inner_read_u8 in cc)
decode_fixed_header-append (x ∷ src) more header peek h =
    let (longer, shorter) =
      header_of-append x (PacketType.try_from_u8 (x / 16)) src more header peek
        (decode_remaining_length src) refl (sym (decode_fixed_header-header_of x src) ∙ h) in
    (decode_fixed_header-header_of x (src ++ more) ∙ longer, omega arith)

take_packet-view :
    (B : BytesMut) (b : B.Buffer) (r : Result (FixedHeader × Bytes))
    → ((take_packet B b r).0 ≡ (take_packet list_buffer (B.contents b) r).0)
      × (B.contents (take_packet B b r).1 ≡ (take_packet list_buffer (B.contents b) r).1)
unfolding take_packet
take_packet-view B b (err e) = (refl, refl)
take_packet-view B b (ok (header, peek)) =
    let total = length (B.contents b) - length peek + header.remaining_length in
    elim (Bool-cases (ltb (length (B.contents b)) total)) [
      | inl short ↦ rw short (refl, refl)
      | inr whole ↦
          let cut = B.contents-split_to b total (ground (arith, whole)) in
          rw whole (ap (λ t. some (packet_of t)) cut.0, cut.1)
    ]

-- The packet that is taken, and the bytes that are left, depend on the bytes of the buffer alone.
pub extract_packet-view :
    (B : BytesMut) (b : B.Buffer)
    → ((extract_packet B b).0 ≡ (extract_packet list_buffer (B.contents b)).0)
      × (B.contents (extract_packet B b).1 ≡ (extract_packet list_buffer (B.contents b)).1)
unfolding extract_packet
extract_packet-view B b = elim (Bool-cases (ltb (length (B.contents b)) 2)) [
  | inl short ↦ rw short (refl, refl)
  | inr long ↦ rw long (take_packet-view B b (decode_fixed_header (B.contents b)))
]

take_packet-append :
    (c more rest : Bytes) (p : Packet) (r : Result (FixedHeader × Bytes))
    → decode_fixed_header c ≡ r
    → take_packet list_buffer c r ≡ (some (ok p), rest)
    → (take_packet list_buffer (c ++ more) (decode_fixed_header (c ++ more))
        ≡ (some (ok p), rest ++ more))
      × (length rest + 2 ≤ length c)
unfolding take_packet
take_packet-append c more rest p (err e) d h = absurd (cc)
take_packet-append c more rest p (ok (header, peek)) d h =
    let (longer, two) = decode_fixed_header-append c more header peek d in
    let total = length c - length peek + header.remaining_length in
    let total' : length (c ++ more) - length (peek ++ more) + header.remaining_length ≡ total =
      omega (arith, length-append c more, length-append peek more) in
    elim (Bool-cases (ltb (length c) total)) [
      | inl short ↦ absurd (let e = rw short at h in cc)
      | inr whole ↦
          let fits : total ≤ length c = ground (arith, whole) in
          let found = rw whole at h in
          let left : drop total c ≡ rest = ap (λ (r : Option (Result Packet) × Bytes). r.1) found in
          let whole' : ltb (length (c ++ more)) total ≡ false =
            ground (arith, length-append c more, fits) in
          (
            rw
                (
                  longer,
                  total',
                  whole',
                  take-append_of_le total c more fits,
                  drop-append_of_le total c more fits,
                  left,
                )
                (ap (λ (r : Option (Result Packet) × Bytes). (r.0, rest ++ more)) found),
            omega (arith, ap (λ (r : Bytes). length r) left, length-drop total c),
          )
    ]

-- A packet that is taken from a buffer is also taken from a longer one, with the same bytes left and
-- the new ones behind them; it takes two bytes at least.
pub extract_packet-append :
    (c more rest : Bytes) (p : Packet)
    → extract_packet list_buffer c ≡ (some (ok p), rest)
    → (extract_packet list_buffer (c ++ more) ≡ (some (ok p), rest ++ more))
      × (length rest + 2 ≤ length c)
unfolding extract_packet
extract_packet-append c more rest p h = elim (Bool-cases (ltb (length c) 2)) [
  | inl short ↦ absurd (let e = rw short at h in cc)
  | inr long ↦
      let long' : ltb (length (c ++ more)) 2 ≡ false = ground (arith, length-append c more, long) in
      rw long' (take_packet-append c more rest p (decode_fixed_header c) refl (rw long at h))
]

take_packet-none :
    (c rest : Bytes) (r : Result (FixedHeader × Bytes))
    → take_packet list_buffer c r ≡ (none, rest)
    → rest ≡ c
unfolding take_packet
take_packet-none c rest (err e) h = absurd (cc)
take_packet-none c rest (ok (header, peek)) h =
    elim (Bool-cases (ltb (length c) (length c - length peek + header.remaining_length))) [
      | inl short ↦ let e = rw short at h in cc
      | inr whole ↦ absurd (let e = rw whole at h in cc)
    ]

-- While no packet is taken, no byte is.
pub extract_packet-none : (c rest : Bytes) → extract_packet list_buffer c ≡ (none, rest) → rest ≡ c
unfolding extract_packet
extract_packet-none c rest h = elim (Bool-cases (ltb (length c) 2)) [
  | inl short ↦ let e = rw short at h in cc
  | inr long ↦ take_packet-none c rest (decode_fixed_header c) (rw long at h)
]
