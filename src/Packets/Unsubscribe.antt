-- ===== src/Packets/Unsubscribe.antt =====
-- common/packets/src/unsubscribe: the UNSUBSCRIBE packet, a list of the names of topic filters.
pub mod RoundTrip
pub mod Fuel
use t1_tp.Common.{
  ℕ, zero, suc, ◌+◌, List, [], ◌∷◌, ◌++◌, if◌then◌else◌, length, is_empty, Option, none, some,
}
use t1_tp.Packets.Error.{IoError, PacketResult, ok, err, ◌>>=◌, ◌>>◌, invalid_protocol, unwrap}
use t1_tp.Packets.Stream.{be_bytes, read_u16_or_zero}
use t1_tp.Packets.Header.{
  PacketType, qos_level0, check_packet_type, check_reserved_bits, build_control_byte,
}
use t1_tp.Packets.Length
use t1_tp.Packets.Length.{from_uncoded, read_remaining_bytes}
use t1_tp.Packets.Field
use t1_tp.Packets.Field.{new_from_string, new_from_stream}
use t1_tp.Packets.Filter
use t1_tp.Packets.Filter.{TopicFilter}
use t1_tp.Packets.Acks.{verify_packet_id}

pub record Unsubscribe : Type 0 where
  pub packet_id : ℕ
  pub topic_filters : List TopicFilter

-- `Unsubscribe::new`
unfoldable pub new : ℕ → List TopicFilter → PacketResult Unsubscribe
new packet_id topic_filters = do
  verify_packet_id packet_id
  ok (record { packet_id = packet_id; topic_filters = topic_filters })

-- The loop of `payload`
unfoldable pub encode_filters : List TopicFilter → PacketResult (List ℕ)
encode_filters [] = ok []
encode_filters (t ∷ topic_filters) = do
  field ← new_from_string t.name
  more ← encode_filters topic_filters
  ok (Field.encode field ++ more)

-- `fixed_header`, which unwraps the payload
unfoldable pub fixed_header : Unsubscribe → PacketResult (List ℕ)
fixed_header p = do
  payload ← unwrap (encode_filters p.topic_filters)
  remaining_length ← from_uncoded (length payload + length (be_bytes p.packet_id))
  ok (build_control_byte PacketType.unsubscribe 2 ∷ Length.encode remaining_length)

-- `Unsubscribe::encode`
unfoldable pub encode : Unsubscribe → PacketResult (List ℕ)
encode p = do
  fixed ← fixed_header p
  payload ← encode_filters p.topic_filters
  ok (fixed ++ (be_bytes p.packet_id ++ payload))

-- The loop of `read_topic_filters`, over the bytes of the packet that are left. Each filter takes at
-- least two of them, so that as much fuel as there are bytes is enough.
unfoldable pub read_filters : ℕ → List ℕ → PacketResult (List TopicFilter)
read_filters zero bytes = ok []
read_filters (suc fuel) bytes = elim (new_from_stream bytes) [
  | none ↦ ok []
  | some (field, rest) ↦ if is_empty field then err invalid_protocol else do
    topic ← Filter.new field qos_level0
    topics ← read_filters fuel rest
    ok (topic ∷ topics)
]

-- `read_topic_filters`
unfoldable pub read_topic_filters : List ℕ → PacketResult (List TopicFilter)
read_topic_filters bytes = do
  topic_filters ← read_filters (length bytes) bytes
  if is_empty topic_filters then err invalid_protocol else ok topic_filters

-- `Unsubscribe::read_from`
unfoldable pub read_from : IoError → List ℕ → ℕ → PacketResult (Unsubscribe × List ℕ)
read_from e stream control_byte = do
  check_packet_type control_byte PacketType.unsubscribe
  check_reserved_bits control_byte 2
  (remaining_bytes, after) ← read_remaining_bytes e stream
  let (packet_id, rest) = read_u16_or_zero remaining_bytes
  topic_filters ← read_topic_filters rest
  ok (record { packet_id = packet_id; topic_filters = topic_filters }, after)
