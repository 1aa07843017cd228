-- ===== src/Protocol/Decode/Total.antt =====
-- `decode` of src/protocol/decode.rs ends on every input: the fuel of its two loops, the length of
-- the buffer, is enough.
use opencode_rustquitto.Base.{
  ℕ, zero, suc, bit_and, ◌==◌, leb, ltb, ◌*◌, ◌+◌, ◌≤◌, ◌<◌, ◌≡◌, ◌≢◌, List, [], ◌∷◌, ◌++◌, length,
  length-drop, Bytes, arith,
}
use opencode_rustquitto.Error.{ok, err, malformed_length, length_too_large, decoding, stuck, ok_or}
use opencode_rustquitto.Text.{Text}
use opencode_rustquitto.Protocol.Qos.{Qos}
use opencode_rustquitto.Protocol.PacketType.{PacketType}
use opencode_rustquitto.Protocol.Types.{FixedHeader, PacketId}
use opencode_rustquitto.Protocol.Decode.{decode, decode_body}
use opencode_rustquitto.Protocol.Decode.Readers.{
  inner_read_u8, inner_read_u16, inner_read_exact, text_of, read_utf8_string, read_packet_id,
  remaining_length_loop, decode_remaining_length, decode_fixed_header,
}
use opencode_rustquitto.Protocol.Decode.Packets.{
  subscribe_loop, unsubscribe_loop, some_subscriptions, some_topics, decode_puback, decode_pubrec,
  decode_pubrel, decode_pubcomp, decode_subscribe, decode_unsubscribe,
}
use opencode_rustquitto.Protocol.Decode.Halts.{
  Halts, Halts-if, Halts-ok, Halts-err, Halts-ok_or, Halts-bind, Halts-bind_eq, basic_rules,
  inner_read_u8-Halts, read_packet_id-Halts, read_utf8_string-Halts, decode_connect-Halts,
  decode_publish-Halts,
}

-- A string takes its two length bytes at least.
read_utf8_string_takes :
    (src : Bytes) (t : Text) (rest : Bytes)
    → read_utf8_string src ≡ ok (t, rest)
    → length rest < length src
unfolding read_utf8_string inner_read_u16 inner_read_exact text_of
read_utf8_string_takes [] t rest h = cc
read_utf8_string_takes (a ∷ []) t rest h = cc
read_utf8_string_takes (a ∷ b ∷ src) t rest h = ground (arith, length-drop (a * 256 + b) src)

inner_read_u8_takes :
    (src : Bytes) (b : ℕ) (rest : Bytes)
    → inner_read_u8 src ≡ ok (b, rest)
    → length src ≡ suc (length rest)
unfolding inner_read_u8
inner_read_u8_takes [] b rest h = cc
inner_read_u8_takes (a ∷ src) b rest h = ground arith

subscribe_loop-Halts :
    (fuel : ℕ) (src : Bytes) (done : List (Text × Qos))
    → length src ≤ fuel
    → Halts (subscribe_loop fuel src done)
unfolding subscribe_loop
subscribe_loop-Halts fuel [] done h = Halts-ok (done, [])
subscribe_loop-Halts zero (b ∷ src) done h = absurd (omega arith)
subscribe_loop-Halts (suc fuel) (b ∷ src) done h =
    Halts-bind_eq (read_utf8_string (b ∷ src)) _ (read_utf8_string-Halts (b ∷ src)) λ (t, src₁) e₁.
      Halts-bind_eq (inner_read_u8 src₁) _ (inner_read_u8-Halts src₁) λ (q, src₂) e₂.
        Halts-bind (ok_or _ _) _ (Halts-ok_or _ _) λ qos.
          subscribe_loop-Halts fuel src₂ (done ++ ((t, qos) ∷ [])) (
            omega (
              arith,
              read_utf8_string_takes (b ∷ src) t src₁ e₁,
              inner_read_u8_takes src₁ q src₂ e₂,
            ))

unsubscribe_loop-Halts :
    (fuel : ℕ) (src : Bytes) (done : List Text)
    → length src ≤ fuel
    → Halts (unsubscribe_loop fuel src done)
unfolding unsubscribe_loop
unsubscribe_loop-Halts fuel [] done h = Halts-ok (done, [])
unsubscribe_loop-Halts zero (b ∷ src) done h = absurd (omega arith)
unsubscribe_loop-Halts (suc fuel) (b ∷ src) done h =
    Halts-bind_eq (read_utf8_string (b ∷ src)) _ (read_utf8_string-Halts (b ∷ src)) λ (t, src₁) e.
      unsubscribe_loop-Halts fuel src₁ (done ++ (t ∷ []))
        (omega (arith, read_utf8_string_takes (b ∷ src) t src₁ e))

some_subscriptions-Halts :
    (i : PacketId) (subs : List (Text × Qos)) → Halts (some_subscriptions i subs)
some_subscriptions-Halts i [] = search basic_rules
some_subscriptions-Halts i (s ∷ subs) = search basic_rules

some_topics-Halts : (i : PacketId) (topics : List Text) → Halts (some_topics i topics)
some_topics-Halts i [] = search basic_rules
some_topics-Halts i (t ∷ topics) = search basic_rules

decode_subscribe-Halts : (src : Bytes) → Halts (decode_subscribe src)
unfolding decode_subscribe
decode_subscribe-Halts src =
    Halts-bind (read_packet_id src) _ (read_packet_id-Halts src) λ (i, src₁).
      Halts-bind (subscribe_loop (length src₁) src₁ []) _
        (subscribe_loop-Halts (length src₁) src₁ [] (omega arith))
        λ (subs, src₂).
          Halts-bind (some_subscriptions i subs) _ (some_subscriptions-Halts i subs)
            λ p. Halts-ok (p, src₂)

decode_unsubscribe-Halts : (src : Bytes) → Halts (decode_unsubscribe src)
unfolding decode_unsubscribe
decode_unsubscribe-Halts src =
    Halts-bind (read_packet_id src) _ (read_packet_id-Halts src) λ (i, src₁).
      Halts-bind (unsubscribe_loop (length src₁) src₁ []) _
        (unsubscribe_loop-Halts (length src₁) src₁ [] (omega arith))
        λ (topics, src₂).
          Halts-bind (some_topics i topics) _ (some_topics-Halts i topics) λ p. Halts-ok (p, src₂)

ruleset packet_rules = (
  basic_rules, inner_read_u8-Halts, read_packet_id-Halts, decode_connect-Halts,
  decode_publish-Halts, decode_subscribe-Halts, decode_unsubscribe-Halts,
)

decode_body-Halts :
    (kind : PacketType) (header : FixedHeader) (src : Bytes) → Halts (decode_body kind header src)
unfolding decode_body decode_puback decode_pubrec decode_pubrel decode_pubcomp
decode_body-Halts PacketType.connect header src = search packet_rules depth 8
decode_body-Halts _ header src = search packet_rules depth 8

remaining_length_loop-Halts :
    (src : Bytes) (multiplier value consumed : ℕ)
    → Halts (remaining_length_loop src multiplier value consumed)
unfolding remaining_length_loop
remaining_length_loop-Halts [] multiplier value consumed = Halts-err _
remaining_length_loop-Halts (b ∷ src) multiplier value consumed =
    let value' = value + multiplier * bit_and b 0x7f in
    let next = remaining_length_loop-Halts src (multiplier * 128) value' (consumed + 1) in
    Halts-if (bit_and b 0x80 == 0) (ok (value', consumed + 1, src)) _ (search basic_rules) (
      Halts-if (leb 4 (consumed + 1)) (err (decoding malformed_length)) _ (search basic_rules) (
        Halts-if (ltb (128 * 128 * 128) (multiplier * 128)) (err (decoding length_too_large))
          (remaining_length_loop src (multiplier * 128) value' (consumed + 1)) (search basic_rules)
          next))

decode_remaining_length-Halts : (src : Bytes) → Halts (decode_remaining_length src)
unfolding decode_remaining_length
decode_remaining_length-Halts src = remaining_length_loop-Halts src 1 0 0

pub decode_fixed_header-Halts : (src : Bytes) → Halts (decode_fixed_header src)
unfolding decode_fixed_header
decode_fixed_header-Halts src =
    search (basic_rules, inner_read_u8-Halts, decode_remaining_length-Halts) depth 12

pub decode-Halts : (src : Bytes) → Halts (decode src)
unfolding decode
decode-Halts src = search (basic_rules, decode_fixed_header-Halts, decode_body-Halts) depth 12

-- On every input `decode` returns a packet or an error of the Rust code: its loops end within
-- their fuel.
pub decode-ne-stuck : (src : Bytes) → decode src ≢ err stuck
decode-ne-stuck src = (decode-Halts src).never
