-- ===== src/Packets/Header/Laws.antt =====
-- common/packets/src/helpers.rs and qos.rs: building the first byte of a packet against reading it.
use t1_tp.Common.{
  true, ◌∙◌, ℕ, ◌+◌, ◌*◌, ◌/◌, ◌^◌, ◌<◌, ◌≡◌, refl, ◌==◌, if◌then◌else◌, arith, bit_and, same_below,
  same_below→eq, low_nibble, high_nibble,
}
use t1_tp.Packets.Error.{ok, err, invalid_reserved_bits, invalid_control_packet_type}
use t1_tp.Packets.Header.{
  PacketType, to_bits, type_of_bits, type_of_byte, same_type, check_packet_type,
  check_reserved_bits, build_control_byte, QosLevel, qos_byte, qos_of_byte,
}

or_nibble : (t : PacketType) (r : ℕ) → r < 16 → build_control_byte t r ≡ to_bits t * 16 + r
unfolding build_control_byte to_bits same_below
or_nibble PacketType.connect = same_below→eq _ _ 16 refl
or_nibble _ = same_below→eq _ _ 16 refl

to_bits_bounds : (t : PacketType) → (0 < to_bits t) × (to_bits t < 15)
unfolding to_bits
to_bits_bounds PacketType.connect = omega arith
to_bits_bounds _ = omega arith

pub build_control_byte-lt : (t : PacketType) (r : ℕ) → r < 16 → build_control_byte t r < 256
build_control_byte-lt t r h = omega (arith, or_nibble t r h, to_bits_bounds t)

type_of_bits-to_bits : (t : PacketType) → type_of_bits (to_bits t) ≡ ok t
unfolding type_of_bits to_bits
type_of_bits-to_bits PacketType.connect = refl
type_of_bits-to_bits _ = refl

to_bits_of_type : (b : ℕ) (t : PacketType) → type_of_bits b ≡ ok t → to_bits t ≡ b
unfolding type_of_bits to_bits
to_bits_of_type b PacketType.connect h = ground arith
to_bits_of_type b _ h = ground arith

pub type_of_byte-build :
    (t : PacketType) (r : ℕ) → r < 16 → type_of_byte (build_control_byte t r) ≡ ok t
unfolding type_of_byte
type_of_byte-build t r h =
    let high : bit_and (build_control_byte t r) 240 / 2 ^ 4 ≡ to_bits t = omega (
      arith,
      or_nibble t r h,
      to_bits_bounds t,
      high_nibble (build_control_byte t r) (build_control_byte-lt t r h),
    ) in
    rw high (type_of_bits-to_bits t)

pub check_reserved_bits-build :
    (t : PacketType) (r expected : ℕ)
    → r < 16
    → check_reserved_bits (build_control_byte t r) expected
      ≡ (if r == expected then ok tt else err invalid_reserved_bits)
unfolding check_reserved_bits
check_reserved_bits-build t r expected h =
    ground (arith, or_nibble t r, to_bits_bounds t, low_nibble (build_control_byte t r))

pub check_packet_type-build :
    (t expected : PacketType) (r : ℕ)
    → r < 16
    → check_packet_type (build_control_byte t r) expected
      ≡ (if same_type t expected then ok tt else err invalid_control_packet_type)
unfolding check_packet_type
check_packet_type-build t expected r h = rw (type_of_byte-build t r h) (ground arith)

-- A byte whose type is read is the one that is built from that type and its low four bits.
pub build-type_of_byte :
    (b : ℕ) (t : PacketType)
    → b < 256
    → type_of_byte b ≡ ok t
    → build_control_byte t (bit_and b 15) ≡ b
unfolding type_of_byte
build-type_of_byte b t hb h = omega (
  arith,
  low_nibble b hb,
  high_nibble b hb,
  to_bits_of_type (bit_and b 240 / 2 ^ 4) t h,
  or_nibble t (bit_and b 15) (omega (arith, low_nibble b hb)),
)

pub qos_of_byte-qos_byte : (q : QosLevel) → qos_of_byte (qos_byte q) ≡ ok q
unfolding qos_of_byte
qos_of_byte-qos_byte QosLevel.qos_level0 = refl
qos_of_byte-qos_byte _ = refl

pub qos_byte_of_ok : (b : ℕ) (q : QosLevel) → qos_of_byte b ≡ ok q → qos_byte q ≡ b
unfolding qos_of_byte
qos_byte_of_ok b q h = ground arith

same_type_refl : (t : PacketType) → same_type t t ≡ true
unfolding same_type to_bits
same_type_refl PacketType.connect = refl
same_type_refl _ = refl

-- The two checks of a control byte that was built for them.
pub check_packet_type-same :
    (t : PacketType) (r : ℕ) → r < 16 → check_packet_type (build_control_byte t r) t ≡ ok tt
check_packet_type-same t r h = check_packet_type-build t t r h ∙ rw (same_type_refl t)

pub check_reserved_bits-same :
    (t : PacketType) (r : ℕ) → r < 16 → check_reserved_bits (build_control_byte t r) r ≡ ok tt
check_reserved_bits-same t r h = ground (arith, check_reserved_bits-build t r r h)
