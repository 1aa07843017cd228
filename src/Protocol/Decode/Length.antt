-- ===== src/Protocol/Decode/Length.antt =====
-- `decode_remaining_length` of src/protocol/decode.rs: on what `encode_remaining_length` wrote, and
-- on any input.
use opencode_rustquitto.Base.{
  ℕ, zero, suc, ◌+◌, ◌*◌, ◌/◌, ◌%◌, ◌^◌, ◌≤◌, ◌<◌, ◌≡◌, refl, ◌⊎◌, bit_and, [], ◌∷◌, ◌++◌, length,
  All, Bytes, IsByte, arith, ap, dec_lt,
}
use opencode_rustquitto.Base.Bits.{low_seven, top_bit}
use opencode_rustquitto.Error.{ok, err, BrokerError, decoding, malformed_length, unexpected_end}
use opencode_rustquitto.Protocol.Decode.Readers.{remaining_length_loop, decode_remaining_length}
use native.Mathlib.Nat.{div-add-mod}
use opencode_rustquitto.Protocol.Encode.{encode_remaining_length}
use opencode_rustquitto.Protocol.Encode.Length.{length_bytes, encode_remaining_length-length_bytes}

-- A last byte, and a byte with the top bit set over the group `g`, at the round that has read
-- `consumed` bytes.
last_byte :
    (g multiplier value consumed : ℕ) (rest : Bytes)
    → g < 128
    → remaining_length_loop (g ∷ rest) multiplier value consumed
      ≡ ok (value + multiplier * g, consumed + 1, rest)
unfolding remaining_length_loop
last_byte g multiplier value consumed rest h = ground (arith, low_seven g, top_bit g)

pub inner_byte :
    (g multiplier value consumed : ℕ) (rest : Bytes)
    → g < 128
    → consumed < 3
    → multiplier ≤ 128 * 128
    → remaining_length_loop ((g + 128) ∷ rest) multiplier value consumed
      ≡ remaining_length_loop rest (multiplier * 128) (value + multiplier * g) (consumed + 1)
unfolding remaining_length_loop
inner_byte g multiplier value consumed rest h c m =
    ground (arith, low_seven (g + 128), top_bit (g + 128))

fourth_byte :
    (g multiplier value : ℕ) (rest : Bytes)
    → g < 128
    → remaining_length_loop ((g + 128) ∷ rest) multiplier value 3 ≡ err (decoding malformed_length)
unfolding remaining_length_loop
fourth_byte g multiplier value rest h = ground (arith, top_bit (g + 128))

split_groups : (n m : ℕ) → m * n ≡ m * (n % 128) + m * 128 * (n / 128)
split_groups n m = grind (arith, ap (λ (t : ℕ). m * t) (div-add-mod n 128))

-- The multiplier before a byte that is not the fourth.
round_multiplier :
    (consumed multiplier : ℕ)
    → consumed < 3
    → multiplier ≡ 128 ^ consumed
    → (multiplier ≤ 128 * 128) × (multiplier * 128 ≡ 128 ^ (consumed + 1))
round_multiplier zero m h e = omega arith
round_multiplier (suc zero) m h e = omega arith
round_multiplier (suc (suc zero)) m h e = omega arith
round_multiplier (suc (suc (suc c))) m h e = absurd (omega arith)

-- `consumed + k` is three while the limit on the multiplier is not reached.
loop-length_bytes :
    (k n multiplier value consumed : ℕ) (rest : Bytes)
    → n < 128 ^ suc k
    → consumed + k ≡ 3
    → multiplier ≡ 128 ^ consumed
    → remaining_length_loop (length_bytes k n ++ rest) multiplier value consumed
      ≡ ok (value + multiplier * n, consumed + length (length_bytes k n), rest)
unfolding length_bytes
loop-length_bytes zero n multiplier value consumed rest h c m =
    last_byte n multiplier value consumed rest h
loop-length_bytes (suc k) n multiplier value consumed rest h c m =
    let r = round_multiplier consumed multiplier (omega arith) m in
    ground (
      arith,
      last_byte n multiplier value consumed rest,
      inner_byte (n % 128) multiplier value consumed (length_bytes k (n / 128) ++ rest),
      split_groups n multiplier,
      r,
      loop-length_bytes k (n / 128) (multiplier * 128) (value + multiplier * (n % 128))
          (consumed + 1) rest (omega arith) (omega arith) r.1,
    )

-- The broker reads back every length that MQTT allows, and leaves what follows it.
pub decode-encode_remaining_length :
    (n : ℕ) (rest : Bytes)
    → n < 128 ^ 4
    → decode_remaining_length (encode_remaining_length n ++ rest)
      ≡ ok (n, length (encode_remaining_length n), rest)
unfolding decode_remaining_length
decode-encode_remaining_length n rest h =
    rw (encode_remaining_length-length_bytes 3 n h)
      (ground (arith, loop-length_bytes 3 n 1 0 0 rest))

too_many_groups :
    (n : ℕ) (rest : Bytes)
    → 128 ^ 4 ≤ n
    → decode_remaining_length (length_bytes 9 n ++ rest) ≡ err (decoding malformed_length)
unfolding decode_remaining_length length_bytes
too_many_groups n rest h = ground (
  arith,
  inner_byte (n % 128) 1 0 0 (length_bytes 8 (n / 128) ++ rest),
  inner_byte (n / 128 % 128) 128 (n % 128) 1 (length_bytes 7 (n / 128 / 128) ++ rest),
  inner_byte (n / 128 / 128 % 128) (128 * 128) (n % 128 + 128 * (n / 128 % 128)) 2
      (length_bytes 6 (n / 128 / 128 / 128) ++ rest),
  fourth_byte (n / 128 / 128 / 128 % 128) (128 * 128 * 128)
      (n % 128 + 128 * (n / 128 % 128) + 128 * 128 * (n / 128 / 128 % 128))
      (length_bytes 5 (n / 128 / 128 / 128 / 128) ++ rest),
)

-- A length of five groups or more, which the encoder writes without complaint, is refused.
pub decode-encode_remaining_length_too_large :
    (n : ℕ) (rest : Bytes)
    → 128 ^ 4 ≤ n
    → n < 2 ^ 64
    → decode_remaining_length (encode_remaining_length n ++ rest) ≡ err (decoding malformed_length)
decode-encode_remaining_length_too_large n rest h top =
    rw (encode_remaining_length-length_bytes 9 n (omega arith)) (too_many_groups n rest h)

-- A group of seven bits fits below the next multiplier.
group_bound :
    (x multiplier value : ℕ)
    → value < multiplier
    → value + multiplier * (x % 128) < multiplier * 128
group_bound x multiplier value h = grind arith

below_limit : (consumed : ℕ) → consumed ≤ 3 → 128 ^ consumed * 128 ≤ 128 ^ 4
below_limit zero h = omega arith
below_limit (suc zero) h = omega arith
below_limit (suc (suc zero)) h = omega arith
below_limit (suc (suc (suc zero))) h = omega arith
below_limit (suc (suc (suc (suc c)))) h = absurd (omega arith)

loop_takes :
    (src : Bytes) (multiplier value consumed n used : ℕ) (rest : Bytes)
    → All IsByte src
    → consumed ≤ 3
    → multiplier ≡ 128 ^ consumed
    → value < multiplier
    → remaining_length_loop src multiplier value consumed ≡ ok (n, used, rest)
    → (n < 128 ^ 4) × (consumed < used) × (used ≤ 4) × (length src + consumed ≡ length rest + used)
unfolding remaining_length_loop
loop_takes [] multiplier value consumed n used rest b c m v e = cc
loop_takes (x ∷ src) multiplier value consumed n used rest b c m v e = elim (dec_lt consumed 3) [
  | yes p ↦
      let r = round_multiplier consumed multiplier p m in
      let value' = value + multiplier * bit_and x 0x7f in
      ground (
        arith,
        low_seven x,
        group_bound x multiplier value,
        below_limit consumed,
        r,
        loop_takes src (multiplier * 128) value' (consumed + 1) n used rest b.1,
      )
  | no p ↦ ground (arith, low_seven x, group_bound x multiplier value, below_limit consumed)
]

-- Whatever the bytes, a length that is accepted is below 128 ^ 4 and takes one to four bytes.
pub decode_remaining_length_takes :
    (src : Bytes) (n used : ℕ) (rest : Bytes)
    → All IsByte src
    → decode_remaining_length src ≡ ok (n, used, rest)
    → (n < 128 ^ 4) × (1 ≤ used) × (used ≤ 4) × (length src ≡ length rest + used)
unfolding decode_remaining_length
decode_remaining_length_takes src n used rest b e =
    omega (arith, loop_takes src 1 0 0 n used rest b (omega arith) refl (omega arith) e)

loop_errors :
    (src : Bytes) (multiplier value consumed : ℕ) (e : BrokerError)
    → consumed ≤ 3
    → multiplier ≡ 128 ^ consumed
    → remaining_length_loop src multiplier value consumed ≡ err e
    → (e ≡ decoding unexpected_end) ⊎ (e ≡ decoding malformed_length)
unfolding remaining_length_loop
loop_errors [] multiplier value consumed e c m h = ground arith
loop_errors (x ∷ src) multiplier value consumed e c m h = elim (dec_lt consumed 3) [
  | yes p ↦
      let r = round_multiplier consumed multiplier p m in
      let value' = value + multiplier * bit_and x 0x7f in
      ground (arith, r, loop_errors src (multiplier * 128) value' (consumed + 1) e)
  | no p ↦ ground arith
]

-- The decoder's only complaints about a length are that it ends early and that it is too long:
-- the third error of the loop, "Remaining length too large", is never given.
pub decode_remaining_length_errors :
    (src : Bytes) (e : BrokerError)
    → decode_remaining_length src ≡ err e
    → (e ≡ decoding unexpected_end) ⊎ (e ≡ decoding malformed_length)
unfolding decode_remaining_length
decode_remaining_length_errors src e h = loop_errors src 1 0 0 e (omega arith) refl h
