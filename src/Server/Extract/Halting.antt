-- ===== src/Server/Extract/Halting.antt =====
-- An error of `extract_packet` of src/server/tcp.rs is one of the decoder's.
use opencode_rustquitto.Base.{
  ◌+◌, ◌-◌, ◌≡◌, ◌≢◌, ◌∙◌, ap, Bool-cases, inl, inr, Option, some, length, Bytes, ltb,
}
use opencode_rustquitto.Error.{Result, ok, err, BrokerError, stuck, ◌>>=◌}
use opencode_rustquitto.Extern.Buffer.{list_buffer}
use opencode_rustquitto.Protocol.Types.{Packet, FixedHeader}
use opencode_rustquitto.Protocol.Decode.{decode}
use opencode_rustquitto.Protocol.Decode.Readers.{decode_fixed_header}
use opencode_rustquitto.Protocol.Decode.Halts.{Halts}
use opencode_rustquitto.Protocol.Decode.Total.{decode-Halts, decode_fixed_header-Halts}
use opencode_rustquitto.Server.Extract.{packet_of, take_packet, extract_packet}

stuck_within : (r : Result (Packet × Bytes)) → (r >>= (λ t. ok t.0)) ≡ err stuck → r ≡ err stuck
stuck_within (ok t) h = absurd (cc)
stuck_within (err x) h = cc

packet_of-ne-stuck : (c : Bytes) → packet_of c ≢ err stuck
packet_of-ne-stuck c e = (decode-Halts c).never (stuck_within (decode c) e)

taken_is :
    (r : Result Packet) (c rest : Bytes) (e : BrokerError)
    → ◌≡◌ {A = Option (Result Packet) × Bytes} (some r, c) (some (err e), rest)
    → r ≡ err e
taken_is r c rest e h = cc

take_packet-ne-stuck :
    (c rest : Bytes) (r : Result (FixedHeader × Bytes)) (e : BrokerError)
    → Halts r
    → take_packet list_buffer c r ≡ (some (err e), rest)
    → e ≢ stuck
unfolding take_packet
take_packet-ne-stuck c rest (err x) e h t s = h.never (cc)
take_packet-ne-stuck c rest (ok (header, peek)) e h t s =
    let total = length c - length peek + header.remaining_length in
    elim (Bool-cases (ltb (length c) total)) [
      | inl short ↦ absurd (let x = rw short at t in cc)
      | inr whole ↦ packet_of-ne-stuck (list_buffer.split_to c total).0 (
          taken_is (packet_of (list_buffer.split_to c total).0) (list_buffer.split_to c total).1
            rest e (rw whole at t)
          ∙ ap err s)
    ]

pub extract_packet-ne-stuck :
    (c rest : Bytes) (e : BrokerError)
    → extract_packet list_buffer c ≡ (some (err e), rest)
    → e ≢ stuck
unfolding extract_packet
extract_packet-ne-stuck c rest e h = elim (Bool-cases (ltb (length c) 2)) [
  | inl short ↦ absurd (let x = rw short at h in cc)
  | inr long ↦
      take_packet-ne-stuck c rest (decode_fixed_header c) e (decode_fixed_header-Halts c)
        (rw long at h)
]
