-- ===== src/Packets/Acks.antt =====
-- common/packets/src/puback and unsuback: the packets that carry an identifier and nothing else.
pub mod RoundTrip
use t1_tp.Common.{ℕ, List, [], ◌∷◌, ◌++◌, ◌==◌, if◌then◌else◌}
use t1_tp.Packets.Error.{IoError, PacketResult, ok, err, ◌>>=◌, ◌>>◌, invalid_protocol, other}
use t1_tp.Packets.Stream.{be_bytes, read_u16_or_zero}
use t1_tp.Packets.Header.{PacketType, check_packet_type, check_reserved_bits, build_control_byte}
use t1_tp.Packets.Length.{read_remaining_bytes}
use t1_tp.Packets.Filter.{TopicFilter}

pub record Puback : Type 0 where
  pub packet_id : ℕ

pub record Unsuback : Type 0 where
  pub packet_id : ℕ
  pub topics : List TopicFilter

-- `verify_packet_id`, which each of the packets declares alike.
unfoldable pub verify_packet_id : ℕ → PacketResult (Unit {0})
verify_packet_id packet_id = if packet_id == 0 then err invalid_protocol else ok tt

-- `verify_packet_end`, on the cursor that holds a packet: one more byte is an error.
unfoldable pub verify_packet_end : List ℕ → PacketResult (Unit {0})
verify_packet_end [] = ok tt
verify_packet_end (b ∷ bytes) = err other

-- `Puback::new`
unfoldable pub new_puback : ℕ → PacketResult Puback
new_puback packet_id = do verify_packet_id packet_id; ok (record { packet_id = packet_id })

-- `Puback::encode`, with the control byte that it writes out
unfoldable pub encode_puback : Puback → PacketResult (List ℕ)
encode_puback p = ok ((64 ∷ 2 ∷ []) ++ be_bytes p.packet_id)

-- `Puback::read_from`
unfoldable pub read_puback : IoError → List ℕ → ℕ → PacketResult (Puback × List ℕ)
read_puback e stream control_byte = do
  check_packet_type control_byte PacketType.puback
  check_reserved_bits control_byte 0
  (remaining_bytes, after) ← read_remaining_bytes e stream
  let (packet_id, bytes) = read_u16_or_zero remaining_bytes
  verify_packet_end bytes
  ok (record { packet_id = packet_id }, after)

-- `Unsuback::new`
unfoldable pub new_unsuback : ℕ → PacketResult Unsuback
new_unsuback packet_id = do
  verify_packet_id packet_id
  ok (record { packet_id = packet_id; topics = [] })

-- `Unsuback::encode`
unfoldable pub encode_unsuback : Unsuback → PacketResult (List ℕ)
encode_unsuback p = ok ((build_control_byte PacketType.unsuback 0 ∷ 2 ∷ []) ++ be_bytes p.packet_id)

-- `Unsuback::read_from`, which leaves what the packet holds behind the identifier unread.
unfoldable pub read_unsuback : IoError → List ℕ → ℕ → PacketResult (Unsuback × List ℕ)
read_unsuback e stream control_byte = do
  check_packet_type control_byte PacketType.unsuback
  check_reserved_bits control_byte 0
  (remaining_bytes, after) ← read_remaining_bytes e stream
  let (packet_id, bytes) = read_u16_or_zero remaining_bytes
  verify_packet_id packet_id
  ok (record { packet_id = packet_id; topics = [] }, after)

-- `Unsuback::set_topics`
unfoldable pub set_topics : Unsuback → List TopicFilter → Unsuback
set_topics p topics = record p { topics = topics }
