-- ===== src/Packets/Header.antt =====
-- common/packets/src/helpers.rs and qos.rs: the first byte of a packet, its type and its reserved
-- bits, and the levels of quality of service.
pub mod Laws
use t1_tp.Common.{
  ℕ, ◌*◌, ◌/◌, ◌%◌, ◌^◌, ◌≡◌, ◌≢◌, Bool, true, false, ◌==◌, if◌then◌else◌, bit_and, bit_or,
}
use mathlib.Core.Bool.{not}
use t1_tp.Packets.Error.{
  PacketResult, ok, err, ◌>>=◌, ◌>>◌, invalid_control_packet_type, invalid_reserved_bits,
  invalid_qos_level,
}

pub data PacketType : Type 0 where
  connect connack publish puback pub_rec pub_rel pub_comp subscribe suback : PacketType
  unsubscribe unsuback ping_req ping_resp disconnect : PacketType

-- `impl From<PacketType> for u8`
unfoldable pub to_bits : PacketType → ℕ
to_bits connect = 1
to_bits connack = 2
to_bits publish = 3
to_bits puback = 4
to_bits pub_rec = 5
to_bits pub_rel = 6
to_bits pub_comp = 7
to_bits subscribe = 8
to_bits suback = 9
to_bits unsubscribe = 10
to_bits unsuback = 11
to_bits ping_req = 12
to_bits ping_resp = 13
to_bits disconnect = 14

-- The `match` of `try_from`, on the four high bits of the control byte.
unfoldable pub type_of_bits : ℕ → PacketResult PacketType
type_of_bits bits =
    if bits == 1
    then ok connect
    else if bits == 2
    then ok connack
    else if bits == 3
    then ok publish
    else if bits == 4
    then ok puback
    else if bits == 5
    then ok pub_rec
    else if bits == 6
    then ok pub_rel
    else if bits == 7
    then ok pub_comp
    else if bits == 8
    then ok subscribe
    else if bits == 9
    then ok suback
    else if bits == 10
    then ok unsubscribe
    else if bits == 11
    then ok unsuback
    else if bits == 12
    then ok ping_req
    else if bits == 13
    then ok ping_resp
    else if bits == 14
    then ok disconnect
    else err invalid_control_packet_type

-- `impl TryFrom<u8> for PacketType`
unfoldable pub type_of_byte : ℕ → PacketResult PacketType
type_of_byte control_byte = type_of_bits (bit_and control_byte 240 / 2 ^ 4)

-- `==` on packet types, which the source derives.
unfoldable pub same_type : PacketType → PacketType → Bool
unfolding to_bits
same_type a b = to_bits a == to_bits b

unfoldable pub compare_reserved_bytes : ℕ → ℕ → Bool
compare_reserved_bytes control_byte expected = bit_and control_byte 15 == expected

unfoldable pub check_packet_type : ℕ → PacketType → PacketResult (Unit {0})
check_packet_type control_byte expected = do
  packet_type ← type_of_byte control_byte
  if not (same_type packet_type expected) then err invalid_control_packet_type else ok tt

unfoldable pub check_reserved_bits : ℕ → ℕ → PacketResult (Unit {0})
unfolding compare_reserved_bytes
check_reserved_bits control_byte expected =
    if compare_reserved_bytes control_byte expected then ok tt else err invalid_reserved_bits

-- The shift of a `u8` drops what leaves the byte.
unfoldable pub build_control_byte : PacketType → ℕ → ℕ
build_control_byte packet_type reserved_bits =
    bit_or (to_bits packet_type * 2 ^ 4 % 256) reserved_bits

pub data QosLevel : Type 0 where
  qos_level0 qos_level1 qos_level2 : QosLevel

-- `impl From<QoSLevel> for u8`, and `qos as u8`.
abbrev pub qos_byte : QosLevel → ℕ
qos_byte qos_level0 = 0
qos_byte qos_level1 = 1
qos_byte qos_level2 = 2

-- `impl TryFrom<u8> for QoSLevel`
unfoldable pub qos_of_byte : ℕ → PacketResult QosLevel
qos_of_byte value =
    if value == 0
    then ok qos_level0
    else if value == 1
    then ok qos_level1
    else if value == 2
    then ok qos_level2
    else err invalid_qos_level

-- `==` on levels, which the source derives.
abbrev pub same_qos : QosLevel → QosLevel → Bool
same_qos a b = qos_byte a == qos_byte b
