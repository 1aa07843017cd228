-- ===== src/Extern/Buffer.antt =====
-- `BytesMut` of the package `bytes`: the operations that the broker calls, with their documented
-- effect on the bytes that the buffer holds.
use opencode_rustquitto.Base.{ℕ, ◌≡◌, refl, [], ◌∷◌, ◌++◌, length, take, drop, Bytes, ◌≤◌}
use opencode_rustquitto.Protocol.Types.{be_bytes}

pub record BytesMut : Type 1 where
  pub Buffer : Type 0
  -- `&buf[..]`
  pub contents : Buffer → Bytes
  pub with_capacity : ℕ → Buffer
  pub put_u8 : Buffer → ℕ → Buffer
  pub put_u16 : Buffer → ℕ → Buffer
  -- `put` of a slice, and `extend_from_slice`
  pub put : Buffer → Bytes → Buffer
  -- `split_to(n)`: the first `n` bytes, and the buffer without them
  pub split_to : Buffer → ℕ → Buffer × Buffer
  pub contents-with_capacity : (n : ℕ) → contents (with_capacity n) ≡ []
  pub contents-put_u8 : (b : Buffer) (x : ℕ) → contents (put_u8 b x) ≡ contents b ++ (x ∷ [])
  -- big-endian
  pub contents-put_u16 : (b : Buffer) (x : ℕ) → contents (put_u16 b x) ≡ contents b ++ be_bytes x
  pub contents-put : (b : Buffer) (xs : Bytes) → contents (put b xs) ≡ contents b ++ xs
  pub contents-split_to :
      (b : Buffer) (n : ℕ)
      → n ≤ length (contents b)
      → (contents (split_to b n).0 ≡ take n (contents b))
        × (contents (split_to b n).1 ≡ drop n (contents b))

-- A list is such a buffer.
abbrev pub list_buffer : BytesMut
list_buffer = record {
  Buffer = Bytes;
  contents = λ b. b;
  with_capacity = λ n. [];
  put_u8 = λ b x. b ++ (x ∷ []);
  put_u16 = λ b x. b ++ be_bytes x;
  put = λ b xs. b ++ xs;
  split_to = λ b n. (take n b, drop n b);
  contents-with_capacity = λ n. refl;
  contents-put_u8 = λ b x. refl;
  contents-put_u16 = λ b x. refl;
  contents-put = λ b xs. refl;
  contents-split_to = λ b n h. (refl, refl);
}
