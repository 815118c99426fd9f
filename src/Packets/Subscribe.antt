-- ===== src/Packets/Subscribe.antt =====
-- common/packets/src/subscribe: the SUBSCRIBE packet, a list of topic filters.
pub mod RoundTrip
pub mod Response
pub mod Fuel
use t1_tp.Common.{
  ℕ, zero, suc, ◌+◌, List, [], ◌∷◌, ◌++◌, if◌then◌else◌, length, is_empty, Option, none, some,
}
use t1_tp.Packets.Error.{IoError, eof, PacketResult, ok, err, ◌>>=◌, ◌>>◌, invalid_protocol}
use t1_tp.Packets.Stream.{be_bytes, read_u16, read_byte}
use t1_tp.Packets.Header.{
  PacketType, QosLevel, qos_byte, qos_of_byte, check_reserved_bits, build_control_byte,
}
use t1_tp.Packets.Length
use t1_tp.Packets.Length.{from_uncoded, read_remaining_bytes}
use t1_tp.Packets.Field.{new_from_stream}
use t1_tp.Packets.Filter
use t1_tp.Packets.Filter.{TopicFilter}
use t1_tp.Packets.Suback.{Suback, new_from_vec}

pub record Subscribe : Type 0 where
  pub packet_identifier : ℕ
  pub topics : List TopicFilter

-- The loop of `remaining_length`, from the last filter to the first
abbrev pub topics_length : List TopicFilter → ℕ
topics_length [] = 0
topics_length (t ∷ topics) = 2 + Filter.len t + topics_length topics

-- `remaining_length`
unfoldable pub remaining_length : Subscribe → ℕ
remaining_length p = 2 + topics_length p.topics

-- The loop of `encode`
abbrev pub encode_topics : List TopicFilter → List ℕ
encode_topics [] = []
encode_topics (t ∷ topics) = Filter.encode t ++ encode_topics topics

-- `Subscribe::encode`. The bytes `(id >> 8) as u8` and `(id & 0xFF) as u8` are those of `to_be_bytes`.
unfoldable pub encode : Subscribe → PacketResult (List ℕ)
encode p = do
  remaining ← from_uncoded (remaining_length p)
  let body = be_bytes p.packet_identifier ++ encode_topics p.topics
  ok (build_control_byte PacketType.subscribe 2 ∷ (Length.encode remaining ++ body))

-- The loop of `read_from`, over the bytes of the packet that are left. Each filter takes at least
-- three of them, so that as much fuel as there are bytes is enough.
unfoldable pub read_topics : ℕ → List ℕ → PacketResult (List TopicFilter)
read_topics zero bytes = ok []
read_topics (suc fuel) bytes = elim (new_from_stream bytes) [
  | none ↦ ok []
  | some (field, rest) ↦ do
    (byte, rest') ← read_byte eof rest
    qos ← qos_of_byte byte
    topic ← Filter.new field qos
    topics ← read_topics fuel rest'
    ok (topic ∷ topics)
]

-- `Subscribe::read_from`; `get_identifier` is `read_u16`.
unfoldable pub read_from : IoError → List ℕ → ℕ → PacketResult (Subscribe × List ℕ)
read_from e stream control_byte = do
  check_reserved_bits control_byte 2
  (bytes, after) ← read_remaining_bytes e stream
  (packet_identifier, rest) ← read_u16 eof bytes
  topics ← read_topics (length rest) rest
  if is_empty topics
      then err invalid_protocol
      else ok (record { packet_identifier = packet_identifier; topics = topics }, after)

-- The loop of `response`
abbrev pub return_codes : List TopicFilter → List ℕ
return_codes [] = []
return_codes (t ∷ topics) = qos_byte t.qos ∷ return_codes topics

-- `Subscribe::response`
unfoldable pub response : Subscribe → PacketResult Suback
response p = new_from_vec (return_codes p.topics) p.packet_identifier

-- The loop of `set_max_qos`
abbrev pub lower_all : List TopicFilter → QosLevel → List TopicFilter
lower_all [] max_qos = []
lower_all (t ∷ topics) max_qos = Filter.set_max_qos t max_qos ∷ lower_all topics max_qos

-- `Subscribe::set_max_qos`
unfoldable pub set_max_qos : Subscribe → QosLevel → Subscribe
set_max_qos p max_qos = record p { topics = lower_all p.topics max_qos }
