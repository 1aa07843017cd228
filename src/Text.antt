-- ===== src/Text.antt =====
-- Rust's `str` and `String`: a sequence of bytes that is valid UTF-8. The functions here are those
-- of the standard library that the program calls: `String::from_utf8`, `split`, `find`,
-- `contains` and `ends_with` for one ASCII character, on bytes.
pub mod Utf8
pub mod Split
use opencode_rustquitto.Base.{
  ℕ, zero, suc, Bool, true, false, List, [], ◌∷◌, Option, none, some, ◌==◌, ◌||◌, if◌then◌else◌,
}

abbrev pub Text : Type 0
Text = List ℕ

-- The position of the first byte `c`.
unfoldable pub find : ℕ → Text → Option ℕ
find c [] = none
find c (x ∷ xs) =
    let later = find c xs in
    if x == c then some 0 else elim later [ none ↦ none | some i ↦ some (suc i) ]

unfoldable pub contains : ℕ → Text → Bool
contains c [] = false
contains c (x ∷ xs) = x == c || contains c xs

unfoldable pub ends_with : ℕ → Text → Bool
ends_with c [] = false
ends_with c (x ∷ []) = x == c
ends_with c (x ∷ y ∷ xs) = ends_with c (y ∷ xs)
