-- ===== src/Packets/Publish/Encoding.antt =====
-- common/packets/src/publish/encoding.rs: how a PUBLISH packet is written.
use t1_tp.Common.{
  ℕ, ◌+◌, ◌*◌, ◌%◌, ◌^◌, not, List, [], ◌∷◌, ◌++◌, if◌then◌else◌, Option, none, some, length,
  bit_or,
}
use t1_tp.Packets.Error.{PacketResult, ok, ◌>>=◌, unwrap}
use t1_tp.Packets.Stream.{be_bytes}
use t1_tp.Packets.Header.{PacketType, QosLevel, qos_level0, qos_byte, same_qos, build_control_byte}
use t1_tp.Packets.Length
use t1_tp.Packets.Length.{from_uncoded}
use t1_tp.Packets.Field
use t1_tp.Packets.Field.{new_from_string}
use t1_tp.Packets.Publish.{Publish}

-- The identifier in the variable header, present only above level 0.
abbrev pub id_bytes : Option ℕ → QosLevel → List ℕ
id_bytes none qos = []
id_bytes (some packet_identifier) qos =
    if not (same_qos qos qos_level0) then be_bytes packet_identifier else []

-- `variable_header`: it unwraps the field of the topic's name.
unfoldable pub variable_header : Publish → PacketResult (List ℕ)
variable_header p = do
  field ← unwrap (new_from_string p.topic_name)
  ok (Field.encode field ++ id_bytes p.packet_id p.qos)

-- `reserved_bits`
unfoldable pub reserved_bits : Publish → ℕ
reserved_bits p =
    let bits : ℕ = if p.dup_flag then bit_or 0 8 else 0 in
    let bits' : ℕ = if p.retain_flag then bit_or bits 1 else bits in
    bit_or bits' (qos_byte p.qos * 2 ^ 1 % 256)

-- `fixed_header`
unfoldable pub fixed_header : Publish → PacketResult (List ℕ)
fixed_header p = do
  header ← variable_header p
  remaining_length ← from_uncoded (length header + length p.payload)
  ok (build_control_byte PacketType.publish (reserved_bits p) ∷ Length.encode remaining_length)

-- `encode`
unfoldable pub encode : Publish → PacketResult (List ℕ)
encode p = do
  fixed ← fixed_header p
  variable ← variable_header p
  ok (fixed ++ (variable ++ p.payload))
