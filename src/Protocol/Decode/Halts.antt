-- ===== src/Protocol/Decode/Halts.antt =====
-- Decoders that end with a result that the Rust code has: one rule for each way to build a decoder,
-- and the readers of src/protocol/decode.rs.
use opencode_rustquitto.Base.{
  ℕ, ◌≡◌, ◌≢◌, refl, Bool, true, false, Option, none, some, [], ◌∷◌, if◌then◌else◌, Bytes,
}
use opencode_rustquitto.Error.{Result, ok, err, Message, decoding, stuck, ok_or, ◌>>=◌}
use opencode_rustquitto.Protocol.Qos.{Qos}
use opencode_rustquitto.Protocol.Types.{FixedHeader}
use opencode_rustquitto.Protocol.Decode.Readers.{
  inner_read_u8, inner_read_u16, inner_read_exact, text_of, read_utf8_string, read_payload,
  read_packet_id,
}
use opencode_rustquitto.Protocol.Decode.Packets.{
  fail_if, read_if, read_binary, read_protocol_name, read_publish_id, decode_connect,
  decode_publish,
}

-- The result is one that the Rust code has.
pub record Halts {ℓ} {A : Type ℓ} (r : Result A) : Type ℓ where
  pub never : r ≢ err stuck

module _ {ℓ} {A : Type ℓ} where
  pub Halts-ok : (a : A) → Halts (ok a)
  Halts-ok a = record { never = λ e. cc }

  pub Halts-err : (m : Message) → Halts {A = A} (err (decoding m))
  Halts-err m = record { never = λ e. cc }

  pub Halts-ok_or : (o : Option A) (m : Message) → Halts (ok_or o (decoding m))
  Halts-ok_or none m = Halts-err m
  Halts-ok_or (some a) m = Halts-ok a

  pub Halts-if : (b : Bool) (r s : Result A) → Halts r → Halts s → Halts (if b then r else s)
  Halts-if true r s h k = h
  Halts-if false r s h k = k

pub Halts-fail_if : (b : Bool) (m : Message) → Halts (fail_if b (err (decoding m)))
Halts-fail_if true m = Halts-err m
Halts-fail_if false m = Halts-ok tt

module _ {ℓ κ} {A : Type ℓ} {B : Type κ} where
  pub Halts-bind :
      (r : Result A) (f : A → Result B) → Halts r → ((a : A) → Halts (f a)) → Halts (r >>= f)
  Halts-bind (ok a) f h k = k a
  Halts-bind (err e) f h k = record { never = λ p. h.never (unfold Halts-ok in cc) }

  -- The rest may use what was returned.
  pub Halts-bind_eq :
      (r : Result A) (f : A → Result B)
      → Halts r
      → ((a : A) → r ≡ ok a → Halts (f a))
      → Halts (r >>= f)
  Halts-bind_eq r f h k = Halts-bind_at r refl
    where
      Halts-bind_at : (s : Result A) → r ≡ s → Halts (s >>= f)
      Halts-bind_at (ok a) e = k a e
      Halts-bind_at (err x) e = record { never = λ p. h.never (cc) }

pub ruleset basic_rules = (Halts-ok, Halts-err, Halts-ok_or, Halts-if, Halts-fail_if, Halts-bind)

pub inner_read_u8-Halts : (src : Bytes) → Halts (inner_read_u8 src)
unfolding inner_read_u8
inner_read_u8-Halts [] = search basic_rules
inner_read_u8-Halts (b ∷ src) = search basic_rules

pub inner_read_u16-Halts : (src : Bytes) → Halts (inner_read_u16 src)
unfolding inner_read_u16
inner_read_u16-Halts [] = search basic_rules
inner_read_u16-Halts (b ∷ []) = search basic_rules
inner_read_u16-Halts (b ∷ c ∷ src) = search basic_rules

pub inner_read_exact-Halts : (src : Bytes) (n : ℕ) → Halts (inner_read_exact src n)
unfolding inner_read_exact
inner_read_exact-Halts src n = search basic_rules

pub text_of-Halts : (bytes : Bytes) → Halts (text_of bytes)
unfolding text_of
text_of-Halts bytes = search basic_rules

pub ruleset reader_rules =
    (basic_rules, inner_read_u8-Halts, inner_read_u16-Halts, inner_read_exact-Halts, text_of-Halts)

pub read_utf8_string-Halts : (src : Bytes) → Halts (read_utf8_string src)
unfolding read_utf8_string
read_utf8_string-Halts src = search reader_rules depth 8

pub read_packet_id-Halts : (src : Bytes) → Halts (read_packet_id src)
unfolding read_packet_id
read_packet_id-Halts src = search reader_rules depth 8

pub read_binary-Halts : (src : Bytes) → Halts (read_binary src)
unfolding read_binary
read_binary-Halts src = search reader_rules depth 8

pub read_protocol_name-Halts : (src : Bytes) → Halts (read_protocol_name src)
unfolding read_protocol_name
read_protocol_name-Halts src = search (reader_rules, read_binary-Halts) depth 8

pub read_if-Halts :
    (b : Bool) (read : Bytes → Result (Bytes × Bytes)) (src : Bytes)
    → ((s : Bytes) → Halts (read s))
    → Halts (read_if b read src)
unfolding read_if
read_if-Halts false read src h = search basic_rules
read_if-Halts true read src h = search (basic_rules, h) depth 8

pub read_publish_id-Halts : (q : Qos) (src : Bytes) → Halts (read_publish_id q src)
unfolding read_publish_id
read_publish_id-Halts Qos.at_most_once src = search basic_rules
read_publish_id-Halts _ src = search (basic_rules, read_packet_id-Halts) depth 8

pub read_payload-Halts : (src : Bytes) (n : ℕ) → Halts (read_payload src n)
unfolding read_payload
read_payload-Halts src n = search reader_rules

pub ruleset field_rules = (
  reader_rules, read_utf8_string-Halts, read_packet_id-Halts, read_binary-Halts,
  read_protocol_name-Halts, read_if-Halts, read_publish_id-Halts, read_payload-Halts,
)

pub decode_connect-Halts : (src : Bytes) → Halts (decode_connect src)
unfolding decode_connect
decode_connect-Halts src = search field_rules depth 30

pub decode_publish-Halts : (header : FixedHeader) (src : Bytes) → Halts (decode_publish header src)
unfolding decode_publish
decode_publish-Halts header src = search field_rules depth 12
