-- ===== src/Packets/Publish/Decoding.antt =====
-- common/packets/src/publish/decoding.rs: how a PUBLISH packet is read.
use t1_tp.Common.{
  ℕ, ◌/◌, ◌^◌, Bool, ◌&&◌, ◌||◌, List, ◌==◌, if◌then◌else◌, Option, none, some, is_empty, contains,
  bit_and,
}
use t1_tp.Packets.Error.{
  IoError, PacketResult, ok, err, ◌>>=◌, ◌>>◌, other, error_at_reading_packet, invalid_dup_flag,
  topic_name_must_be_at_least_one_character_long, topic_name_must_not_have_wildcards,
}
use t1_tp.Packets.Stream.{read_u16_or_zero}
use t1_tp.Packets.Header.{
  PacketType, QosLevel, qos_level0, qos_of_byte, same_qos, check_packet_type,
}
use t1_tp.Packets.Length.{read_remaining_bytes}
use t1_tp.Packets.Field.{is_utf8, new_from_stream}
use t1_tp.Packets.Publish.{Publish}

-- `verify_retain_flag`
unfoldable pub verify_retain_flag : ℕ → Bool
verify_retain_flag control_byte = bit_and control_byte 1 == 1

-- `verify_qos_level_flag`
unfoldable pub verify_qos_level_flag : ℕ → PacketResult QosLevel
verify_qos_level_flag control_byte = qos_of_byte (bit_and control_byte 6 / 2 ^ 1)

-- `verify_dup_flag`
unfoldable pub verify_dup_flag : ℕ → QosLevel → PacketResult Bool
verify_dup_flag control_byte qos_level =
    let dup_flag = bit_and control_byte 8 / 2 ^ 3 in
    if same_qos qos_level qos_level0 && (dup_flag == 1)
    then err invalid_dup_flag
    else ok (dup_flag == 1)

-- `verify_topic_name`. A text has no characters exactly when it has no bytes.
unfoldable pub verify_topic_name : List ℕ → PacketResult (List ℕ × List ℕ)
verify_topic_name bytes = elim (new_from_stream bytes) [
  | none ↦ err other
  | some (topic_name, rest) ↦
      if is_empty topic_name
      then err topic_name_must_be_at_least_one_character_long
      else if contains b'+' topic_name || contains b'#' topic_name
      then err topic_name_must_not_have_wildcards
      else ok (topic_name, rest)
]

-- `verify_packet_id`
unfoldable pub verify_packet_id : List ℕ → QosLevel → PacketResult (Option ℕ × List ℕ)
verify_packet_id bytes qos_level =
    if same_qos qos_level qos_level0
    then ok (none, bytes)
    else let (packet_id, rest) = read_u16_or_zero bytes in
      if packet_id == 0 then err other else ok (some packet_id, rest)

-- `read_payload`: all that is left of the packet.
unfoldable pub read_payload : List ℕ → PacketResult (List ℕ)
read_payload bytes = if is_utf8 bytes then ok bytes else err error_at_reading_packet

-- `Publish::read_from`, behind the control byte; with the packet come the bytes that follow it.
unfoldable pub read_from : IoError → List ℕ → ℕ → PacketResult (Publish × List ℕ)
read_from e stream control_byte = do
  let retain_flag = verify_retain_flag control_byte
  qos_level ← verify_qos_level_flag control_byte
  dup_flag ← verify_dup_flag control_byte qos_level
  check_packet_type control_byte PacketType.publish
  (remaining_bytes, after) ← read_remaining_bytes e stream
  (topic_name, bytes) ← verify_topic_name remaining_bytes
  (packet_id, bytes') ← verify_packet_id bytes qos_level
  payload ← read_payload bytes'
  ok (
    record {
      packet_id = packet_id;
      topic_name = topic_name;
      qos = qos_level;
      retain_flag = retain_flag;
      dup_flag = dup_flag;
      payload = payload;
    },
    after,
  )
