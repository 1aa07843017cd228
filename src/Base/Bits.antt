-- ===== src/Base/Bits.antt =====
-- Masks and shifts on one byte as arithmetic: each law is a table, checked by evaluation.
use Prim.Native.Nat.{ℕ, zero, suc, ◌+◌, ◌*◌, ◌/◌, ◌%◌, ◌<◌, bit_and, bit_or}
use mathlib.Core.Path.{◌≡◌, refl}
use mathlib.Core.Bool.{Bool, true, ◌&&◌}
use native.Mathlib.Omega.{arith}
use opencode_rustquitto.Base.Tests.{◌==◌, ==_iff}

holds_below : ℕ → (ℕ → Bool) → Bool
holds_below zero p = true
holds_below (suc n) p = p n && holds_below n p

holds_below_sound : (n : ℕ) (p : ℕ → Bool) → holds_below n p ≡ true → (x : ℕ) → x < n → p x ≡ true
unfolding holds_below
holds_below_sound zero p h x lt = absurd (omega arith)
holds_below_sound (suc n) p h x lt =
    ground (arith, λ (q : holds_below n p ≡ true). holds_below_sound n p q x)

module _ (n : ℕ) (f g : ℕ → ℕ) where
  table : holds_below n (λ x. f x == g x) ≡ true → (x : ℕ) → x < n → f x ≡ g x
  table h x lt = (==_iff (f x) (g x)).0 (holds_below_sound n (λ y. f y == g y) h x lt)

pub low_seven : (b : ℕ) → b < 256 → bit_and b 0x7f ≡ b % 128
unfolding holds_below
low_seven = table 256 _ _ refl

pub top_bit : (b : ℕ) → b < 256 → bit_and b 0x80 ≡ b / 128 * 128
unfolding holds_below
top_bit = table 256 _ _ refl

pub set_top_bit : (b : ℕ) → b < 128 → bit_or b 0x80 ≡ b + 128
unfolding holds_below
set_top_bit = table 128 _ _ refl

pub low_four : (b : ℕ) → b < 256 → bit_and b 0x0f ≡ b % 16
unfolding holds_below
low_four = table 256 _ _ refl

-- The first byte of a PUBLISH packet.
pub publish_first_byte : (flags : ℕ) → flags < 16 → bit_or 48 flags ≡ 48 + flags
unfolding holds_below
publish_first_byte = table 16 _ _ refl
