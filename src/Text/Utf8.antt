-- ===== src/Text/Utf8.antt =====
-- The test of the standard library's `String::from_utf8`: the well-formed byte sequences of the
-- Unicode standard, table 3-7.
use opencode_rustquitto.Base.{
  ℕ, Bool, true, false, ◌&&◌, List, [], ◌∷◌, leb, ltb, ◌==◌, if◌then◌else◌, ◌≡◌, refl, arith,
  Option, none, some, ◌<◌, All,
}

-- What the next byte has to be: the start of a character, or a continuation byte between two
-- bounds with `tail` or no further continuation bytes (0x80 to 0xBF) behind it.
pub data Expect : Type 0 where
  start : Expect
  last : Expect
  middle : ℕ → ℕ → Expect
  third : ℕ → ℕ → Expect

abbrev in_range : ℕ → ℕ → ℕ → Bool
in_range lo hi b = leb lo b && leb b hi

-- The state after a first byte; `none` is a byte that starts no character.
unfoldable pub lead : ℕ → Option Expect
lead b =
    if ltb b 0x80
    then some start
    else if in_range 0xc2 0xdf b
    then some last
    else if b == 0xe0
    then some (middle 0xa0 0xbf)
    else if b == 0xed
    then some (middle 0x80 0x9f)
    else if in_range 0xe1 0xef b
    then some (middle 0x80 0xbf)
    else if b == 0xf0
    then some (third 0x90 0xbf)
    else if b == 0xf4
    then some (third 0x80 0x8f)
    else if in_range 0xf1 0xf3 b
    then some (third 0x80 0xbf)
    else none

unfoldable pub advance : Expect → ℕ → Option Expect
unfolding lead
advance start b = lead b
advance last b = if in_range 0x80 0xbf b then some start else none
advance (middle lo hi) b = if in_range lo hi b then some last else none
advance (third lo hi) b = if in_range lo hi b then some (middle 0x80 0xbf) else none

unfoldable pub is_utf8_from : Expect → List ℕ → Bool
is_utf8_from start [] = true
is_utf8_from last [] = false
is_utf8_from (middle lo hi) [] = false
is_utf8_from (third lo hi) [] = false
is_utf8_from s (b ∷ bs) = elim (advance s b) [ none ↦ false | some s' ↦ is_utf8_from s' bs ]

unfoldable pub is_utf8 : List ℕ → Bool
unfolding is_utf8_from advance
is_utf8 = is_utf8_from start

-- Every ASCII text is valid UTF-8.
pub ascii-is_utf8 : (bs : List ℕ) → All (λ b. b < 128) bs → is_utf8 bs ≡ true
unfolding is_utf8
ascii-is_utf8 [] h = refl
ascii-is_utf8 (b ∷ bs) h = ground (arith, ascii-is_utf8 bs h.1)
