-- ===== src/Packets/Empty.antt =====
-- common/packets/src/disconnect, pingreq and pingresp: the packets that carry nothing.
pub mod RoundTrip
use t1_tp.Common.{ℕ, List, [], ◌∷◌}
use t1_tp.Packets.Error.{IoError, PacketResult, ok, ◌>>=◌, ◌>>◌}
use t1_tp.Packets.Header.{PacketType, check_packet_type, check_reserved_bits, build_control_byte}
use t1_tp.Packets.Length.{read_remaining_bytes}
use t1_tp.Packets.Acks.{verify_packet_end}

-- What the three `encode` functions do, each with its own type.
unfoldable pub encode_empty : PacketType → PacketResult (List ℕ)
encode_empty packet_type = ok (build_control_byte packet_type 0 ∷ 0 ∷ [])

-- What the three `read_from` functions do: the packet has no content but its type.
unfoldable pub read_empty : PacketType → IoError → List ℕ → ℕ → PacketResult (Unit {0} × List ℕ)
read_empty packet_type e stream control_byte = do
  check_packet_type control_byte packet_type
  check_reserved_bits control_byte 0
  (packet_bytes, after) ← read_remaining_bytes e stream
  verify_packet_end packet_bytes
  ok (tt, after)

-- `Disconnect::encode` and `Disconnect::read_from`
unfoldable pub encode_disconnect : PacketResult (List ℕ)
encode_disconnect = encode_empty PacketType.disconnect

unfoldable pub read_disconnect : IoError → List ℕ → ℕ → PacketResult (Unit {0} × List ℕ)
read_disconnect = read_empty PacketType.disconnect

-- `PingReq::encode` and `PingReq::read_from`
unfoldable pub encode_ping_req : PacketResult (List ℕ)
encode_ping_req = encode_empty PacketType.ping_req

unfoldable pub read_ping_req : IoError → List ℕ → ℕ → PacketResult (Unit {0} × List ℕ)
read_ping_req = read_empty PacketType.ping_req

-- `PingResp::encode` and `PingResp::read_from`
unfoldable pub encode_ping_resp : PacketResult (List ℕ)
encode_ping_resp = encode_empty PacketType.ping_resp

unfoldable pub read_ping_resp : IoError → List ℕ → ℕ → PacketResult (Unit {0} × List ℕ)
read_ping_resp = read_empty PacketType.ping_resp
