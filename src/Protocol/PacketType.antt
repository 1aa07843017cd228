-- ===== src/Protocol/PacketType.antt =====
-- `PacketType` of src/protocol/types.rs: the 14 kinds of packets and their numbers.
use opencode_rustquitto.Base.{◌<◌, ℕ, ◌≡◌, refl, Option, none, some, ◌==◌, if◌then◌else◌, arith}

pub data PacketType : Type 0 where
  connect connack publish puback pubrec pubrel pubcomp : PacketType
  subscribe suback unsubscribe unsuback pingreq pingresp disconnect : PacketType

unfoldable pub as_u8 : PacketType → ℕ
as_u8 connect = 1
as_u8 connack = 2
as_u8 publish = 3
as_u8 puback = 4
as_u8 pubrec = 5
as_u8 pubrel = 6
as_u8 pubcomp = 7
as_u8 subscribe = 8
as_u8 suback = 9
as_u8 unsubscribe = 10
as_u8 unsuback = 11
as_u8 pingreq = 12
as_u8 pingresp = 13
as_u8 disconnect = 14

unfoldable pub try_from_u8 : ℕ → Option PacketType
try_from_u8 value =
    if value == 1
    then some connect
    else if value == 2
    then some connack
    else if value == 3
    then some publish
    else if value == 4
    then some puback
    else if value == 5
    then some pubrec
    else if value == 6
    then some pubrel
    else if value == 7
    then some pubcomp
    else if value == 8
    then some subscribe
    else if value == 9
    then some suback
    else if value == 10
    then some unsubscribe
    else if value == 11
    then some unsuback
    else if value == 12
    then some pingreq
    else if value == 13
    then some pingresp
    else if value == 14
    then some disconnect
    else none

unfoldable pub required_flags : PacketType → ℕ
required_flags pubrel = 0x02
required_flags subscribe = 0x02
required_flags unsubscribe = 0x02
required_flags _ = 0x00

pub try_from_u8-as_u8 : (t : PacketType) → try_from_u8 (as_u8 t) ≡ some t
unfolding try_from_u8 as_u8
try_from_u8-as_u8 connect = refl
try_from_u8-as_u8 _ = refl

-- What `try_from_u8` accepts is the number of the kind that it gives.
as_u8-try_from_u8 : (n : ℕ) (t : PacketType) → try_from_u8 n ≡ some t → as_u8 t ≡ n
unfolding try_from_u8 as_u8
as_u8-try_from_u8 n t h = ground arith

pub as_u8-lt : (t : PacketType) → as_u8 t < 15
unfolding as_u8
as_u8-lt connect = omega arith
as_u8-lt _ = omega arith
