-- ===== src/Server/Extract.antt =====
-- `extract_packet` of src/server/tcp.rs. The buffer is returned with the result; an `Err` leaves it.
pub mod Framed
pub mod Growing
pub mod Halting
use opencode_rustquitto.Base.{ℕ, ◌+◌, ◌-◌, Option, none, some, Bytes, length, ltb, if◌then◌else◌}
use opencode_rustquitto.Error.{Result, ok, err, ◌>>=◌}
use opencode_rustquitto.Extern.Buffer.{BytesMut}
use opencode_rustquitto.Protocol.Types.{FixedHeader, Packet}
use opencode_rustquitto.Protocol.Decode.{decode}
use opencode_rustquitto.Protocol.Decode.Readers.{decode_fixed_header}

-- `decode(&mut slice)`, whose slice is dropped afterwards.
abbrev pub packet_of : Bytes → Result Packet
packet_of slice = do (packet, rest) ← decode slice; ok packet

module _ (B : BytesMut) where
  open B use {Buffer, contents, split_to}

  -- From the decoded header on; `peek` is what follows the header.
  unfoldable pub take_packet :
      Buffer → Result (FixedHeader × Bytes) → Option (Result Packet) × Buffer
  take_packet buf (err e) = (some (err e), buf)
  take_packet buf (ok (header, peek)) =
      let consumed = length (contents buf) - length peek in
      let total_len = consumed + header.remaining_length in
      let (packet_data, rest) = split_to buf total_len in
      if ltb (length (contents buf)) total_len
      then (none, buf)
      else (some (packet_of (contents packet_data)), rest)

  unfoldable pub extract_packet : Buffer → Option (Result Packet) × Buffer
  extract_packet buf =
      if ltb (length (contents buf)) 2
      then (none, buf)
      else take_packet buf (decode_fixed_header (contents buf))
