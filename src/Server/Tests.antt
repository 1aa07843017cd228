-- ===== src/Server/Tests.antt =====
-- The theorems on `extract_packet` of src/server/tcp.rs at concrete buffers.
use opencode_rustquitto.Base.{◌≡◌, refl, some, [], ◌∷◌, ◌++◌, Bytes, take, arith}
use opencode_rustquitto.Error.{err, decoding, unexpected_end}
use opencode_rustquitto.Extern.Buffer.{list_buffer}
use opencode_rustquitto.Protocol.PacketType
use opencode_rustquitto.Protocol.Wire.{frame}
use opencode_rustquitto.Server.Extract.{packet_of, extract_packet}
use opencode_rustquitto.Server.Extract.Framed.{header, extract_packet_takes, extract_packet_refuses}

-- A topic of one letter and a payload of one byte.
abbrev body : Bytes
body = 0 ∷ 1 ∷ b'a' ∷ 7 ∷ []

-- Two packets in one read: the PUBLISH is taken without the PINGREQ behind it.
extract_packet_takes_example :
    ((extract_packet list_buffer (frame PacketType.publish 0 body ++ (0xc0 ∷ 0x00 ∷ []))).0
      ≡ some (packet_of (frame PacketType.publish 0 body)))
    × ((extract_packet list_buffer (frame PacketType.publish 0 body ++ (0xc0 ∷ 0x00 ∷ []))).1
        ≡ 0xc0 ∷ 0x00 ∷ [])
extract_packet_takes_example =
    extract_packet_takes list_buffer (frame PacketType.publish 0 body ++ (0xc0 ∷ 0x00 ∷ []))
      PacketType.publish 0 body (0xc0 ∷ 0x00 ∷ []) refl (omega arith) (omega arith)

extract_packet_refuses_example :
    extract_packet list_buffer (take 2 (header list_buffer PacketType.publish 0 300))
    ≡ (some (err (decoding unexpected_end)), take 2 (header list_buffer PacketType.publish 0 300))
extract_packet_refuses_example =
    extract_packet_refuses list_buffer (take 2 (header list_buffer PacketType.publish 0 300))
      PacketType.publish 0 300 refl (omega arith) (omega arith) (omega arith)
