-- ===== src/Packets/Acks/RoundTrip.antt =====
-- common/packets/src/puback and unsuback: `encode` against `read_from`.
use t1_tp.Common.{ℕ, ◌≡◌, ◌<◌, refl, List, ◌∷◌, ◌++◌, [], ◌/◌, ◌%◌, arith}
use t1_tp.Packets.Error.{IoError, ok}
use t1_tp.Packets.Stream.{be_bytes}
use t1_tp.Packets.Stream.Laws.{read_u16_or_zero-be_bytes}
use t1_tp.Packets.Header.{
  PacketType, build_control_byte, check_packet_type, check_reserved_bits, compare_reserved_bytes,
  type_of_byte, type_of_bits, same_type, to_bits,
}
use t1_tp.Packets.Header.Laws.{check_packet_type-same, check_reserved_bits-same}
use t1_tp.Packets.Length.Framing.{read_remaining_bytes_two}
use t1_tp.Packets.Acks.{
  verify_packet_id, verify_packet_end, Puback, Unsuback, new_puback, encode_puback, read_puback,
  new_unsuback, encode_unsuback, read_unsuback,
}

puback_type : check_packet_type 64 PacketType.puback ≡ ok tt
unfolding check_packet_type type_of_byte type_of_bits same_type to_bits
puback_type = refl

puback_reserved : check_reserved_bits 64 0 ≡ ok tt
unfolding check_reserved_bits compare_reserved_bytes
puback_reserved = refl

read_puback_bytes :
    (e : IoError) (p : Puback) (rest : List ℕ)
    → p.packet_id < 65536
    → read_puback e (2 ∷ (be_bytes p.packet_id ++ rest)) 64 ≡ ok (p, rest)
unfolding read_puback verify_packet_end
read_puback_bytes e p rest fits = rw (
  puback_type,
  puback_reserved,
  read_remaining_bytes_two e (p.packet_id / 256 % 256) (p.packet_id % 256) rest,
  read_u16_or_zero-be_bytes p.packet_id [] fits,
)

read_unsuback_bytes :
    (e : IoError) (packet_id : ℕ) (rest : List ℕ)
    → 0 < packet_id
    → packet_id < 65536
    → read_unsuback e (2 ∷ (be_bytes packet_id ++ rest)) (build_control_byte PacketType.unsuback 0)
      ≡ ok (record { packet_id = packet_id; topics = [] }, rest)
unfolding read_unsuback verify_packet_id
read_unsuback_bytes e packet_id rest positive fits =
    rw
      (
        check_packet_type-same PacketType.unsuback 0 (omega arith),
        check_reserved_bits-same PacketType.unsuback 0 (omega arith),
        read_remaining_bytes_two e (packet_id / 256 % 256) (packet_id % 256) rest,
        read_u16_or_zero-be_bytes packet_id [] fits,
      )
      (ground arith)

-- A PUBACK with a 16-bit identifier above zero can be made, and is read back from what `encode` writes
-- of it; the bytes that follow it are left.
pub read_puback-encode_puback :
    (e : IoError) (p : Puback) (rest : List ℕ)
    → 0 < p.packet_id
    → p.packet_id < 65536
    → (control_byte : ℕ) × (stream : List ℕ) × (new_puback p.packet_id ≡ ok p)
      × (encode_puback p ≡ ok (control_byte ∷ stream))
      × (read_puback e (stream ++ rest) control_byte ≡ ok (p, rest))
unfolding new_puback verify_packet_id encode_puback
read_puback-encode_puback e p rest positive fits =
    (_, _, ground arith, refl, read_puback_bytes e p rest fits)

-- An UNSUBACK with a 16-bit identifier above zero, as it is made, is read back from what `encode`
-- writes of it; the bytes that follow it are left.
pub read_unsuback-encode_unsuback :
    (e : IoError) (packet_id : ℕ) (rest : List ℕ)
    → 0 < packet_id
    → packet_id < 65536
    → (p : Unsuback) × (control_byte : ℕ) × (stream : List ℕ) × (new_unsuback packet_id ≡ ok p)
      × (encode_unsuback p ≡ ok (control_byte ∷ stream))
      × (read_unsuback e (stream ++ rest) control_byte ≡ ok (p, rest))
unfolding new_unsuback verify_packet_id encode_unsuback
read_unsuback-encode_unsuback e packet_id rest positive fits =
    (_, _, _, ground arith, refl, read_unsuback_bytes e packet_id rest positive fits)
