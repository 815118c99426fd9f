-- ===== src/Packets/Empty/RoundTrip.antt =====
-- common/packets/src/disconnect, pingreq and pingresp: writing against reading.
use t1_tp.Common.{ℕ, ◌≡◌, refl, List, [], ◌∷◌, if◌then◌else◌, arith}
use t1_tp.Packets.Error.{IoError, ok, err, invalid_control_packet_type}
use t1_tp.Packets.Header.{PacketType, same_type}
use t1_tp.Packets.Header.Laws.{check_packet_type-build, check_reserved_bits-same}
use t1_tp.Packets.Length.Framing.{read_remaining_bytes_none}
use t1_tp.Packets.Acks.{verify_packet_end}
use t1_tp.Packets.Empty.{encode_empty, read_empty}

-- What is written of a packet without content is read by the function of its own type, with the
-- bytes that follow it left, and refused by that of another type.
pub read_empty-encode_empty :
    (e : IoError) (written expected : PacketType) (rest : List ℕ)
    → (control_byte : ℕ) × (encode_empty written ≡ ok (control_byte ∷ 0 ∷ []))
      × (read_empty expected e (0 ∷ rest) control_byte
          ≡ (if same_type written expected then ok (tt, rest) else err invalid_control_packet_type))
unfolding encode_empty read_empty verify_packet_end
read_empty-encode_empty e written expected rest = (
  _,
  refl,
  ground (
    arith,
    check_packet_type-build written expected 0,
    check_reserved_bits-same written 0,
    read_remaining_bytes_none e rest,
  ),
)
