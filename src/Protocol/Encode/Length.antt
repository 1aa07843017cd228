-- ===== src/Protocol/Encode/Length.antt =====
-- `encode_remaining_length` of src/protocol/encode.rs against a plain description of its format:
-- groups of seven bits, lowest first, the top bit set on all but the last.
use opencode_rustquitto.Base.{
  ℕ, zero, suc, ◌+◌, ◌/◌, ◌%◌, ◌^◌, ◌≤◌, ◌<◌, ◌≡◌, [], ◌∷◌, ◌++◌, append_assoc, ltb, if◌then◌else◌,
  length, All, Bytes, IsByte, arith,
}
use opencode_rustquitto.Base.Bits.{set_top_bit}
use opencode_rustquitto.Protocol.Encode.{encode_length_loop, encode_remaining_length, lt_wf}
use mathlib.Core.WellFounded.{Acc}

-- The groups of `n`, for `n` below 128 ^ (k + 1).
unfoldable pub length_bytes : ℕ → ℕ → Bytes
length_bytes zero n = n ∷ []
length_bytes (suc k) n =
    let rest = length_bytes k (n / 128) in if ltb n 128 then n ∷ [] else (n % 128 + 128) ∷ rest

encode_length_loop-length_bytes :
    (k : ℕ) (encoded : Bytes) (n : ℕ) (w : Acc ◌<◌ n)
    → n < 128 ^ suc k
    → encode_length_loop encoded n w ≡ encoded ++ length_bytes k n
unfolding encode_length_loop length_bytes
encode_length_loop-length_bytes zero encoded n (Acc.intro _ smaller) h = ground arith
encode_length_loop-length_bytes (suc k) encoded n (Acc.intro _ smaller) h =
    let group : Bytes = (n % 128 + 128) ∷ [] in
    grind (
      arith,
      set_top_bit (n % 128) (omega arith),
      λ (w : Acc ◌<◌ (n / 128)).
          encode_length_loop-length_bytes k (encoded ++ group) (n / 128) w (omega arith),
      append_assoc encoded group (length_bytes k (n / 128)),
    )

pub encode_remaining_length-length_bytes :
    (k n : ℕ) → n < 128 ^ suc k → encode_remaining_length n ≡ length_bytes k n
unfolding encode_remaining_length
encode_remaining_length-length_bytes k n h =
    encode_length_loop-length_bytes k [] n (lt_wf.apply n) h

length_bytes_shape :
    (k n : ℕ)
    → n < 128 ^ suc k
    → All IsByte (length_bytes k n)
      × (1 ≤ length (length_bytes k n))
      × (length (length_bytes k n) ≤ suc k)
unfolding length_bytes
length_bytes_shape zero n h = omega arith
length_bytes_shape (suc k) n h = ground (arith, length_bytes_shape k (n / 128) (omega arith))

-- For a length that MQTT allows, the encoding is one to four bytes.
pub encode_remaining_length_shape :
    (n : ℕ)
    → n < 128 ^ 4
    → All IsByte (encode_remaining_length n)
      × (1 ≤ length (encode_remaining_length n))
      × (length (encode_remaining_length n) ≤ 4)
encode_remaining_length_shape n h =
    rw (encode_remaining_length-length_bytes 3 n h) (length_bytes_shape 3 n h)
