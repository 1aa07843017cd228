-- ===== src/Protocol/Qos.antt =====
-- `QoS` of src/protocol/types.rs.
use opencode_rustquitto.Base.{
  ℕ, ◌≡◌, refl, Bool, Option, none, some, ◌==◌, ltb, if◌then◌else◌, arith, ◌↔◌,
}

pub data Qos : Type 0 where
  at_most_once at_least_once exactly_once : Qos

-- `value as u8`
unfoldable pub as_u8 : Qos → ℕ
as_u8 at_most_once = 0
as_u8 at_least_once = 1
as_u8 exactly_once = 2

unfoldable pub try_from_u8 : ℕ → Option Qos
try_from_u8 value =
    if value == 0
    then some at_most_once
    else if value == 1
    then some at_least_once
    else if value == 2
    then some exactly_once
    else none

-- The derived `==` and the `min` of the derived order.
unfoldable pub eq : Qos → Qos → Bool
unfolding as_u8
eq a b = as_u8 a == as_u8 b

unfoldable pub min_qos : Qos → Qos → Qos
unfolding as_u8
min_qos a b = if ltb (as_u8 b) (as_u8 a) then b else a

-- `try_from_u8` accepts a number exactly when it is the number of a level, and gives that level.
try_from_u8_iff : (n : ℕ) (q : Qos) → (try_from_u8 n ≡ some q) ↔ (n ≡ as_u8 q)
unfolding try_from_u8 as_u8
try_from_u8_iff n at_most_once = ground arith
try_from_u8_iff n at_least_once = ground arith
try_from_u8_iff n exactly_once = ground arith

pub try_from_u8-as_u8 : (q : Qos) → try_from_u8 (as_u8 q) ≡ some q
unfolding try_from_u8 as_u8
try_from_u8-as_u8 at_most_once = refl
try_from_u8-as_u8 at_least_once = refl
try_from_u8-as_u8 exactly_once = refl
