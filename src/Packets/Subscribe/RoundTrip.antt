-- ===== src/Packets/Subscribe/RoundTrip.antt =====
-- common/packets/src/subscribe: `encode` against `read_from`.
use t1_tp.Common.{
  ℕ, suc, zero, ◌+◌, ◌≤◌, ◌<◌, ◌≡◌, refl, false, List, [], ◌∷◌, ◌++◌, length, arith, append_assoc,
  All, is_empty, length-append,
}
use t1_tp.Packets.Error.{IoError, eof, ok, ◌>>=◌}
use t1_tp.Packets.Stream.{be_bytes, read_byte}
use t1_tp.Packets.Stream.Laws.{read_u16-be_bytes}
use t1_tp.Packets.Header.{PacketType, qos_byte, build_control_byte}
use t1_tp.Packets.Header.Laws.{check_reserved_bits-same, qos_of_byte-qos_byte}
use t1_tp.Packets.Length
use t1_tp.Packets.Length.{max_variable_length, read_remaining_bytes, from_uncoded}
use t1_tp.Packets.Length.Framing.{from_uncoded_fits, read_remaining_bytes-encode}
use t1_tp.Packets.Field
use t1_tp.Packets.Field.{new_from_stream, new_from_string}
use t1_tp.Packets.Field.Laws.{IsField, new_from_stream-encode}
use t1_tp.Packets.Filter
use t1_tp.Packets.Filter.{TopicFilter, check_valid_topic_name}
use t1_tp.Packets.Subscribe.{
  Subscribe, topics_length, remaining_length, encode_topics, encode, read_topics, read_from,
}

-- A filter that `TopicFilter::new` makes of a Rust string.
pub record IsFilter (t : TopicFilter) : Type 0 where
  pub field : IsField t.name
  pub valid : check_valid_topic_name t.name ≡ ok tt

pub new-IsFilter : (t : TopicFilter) → IsFilter t → Filter.new t.name t.qos ≡ ok t
unfolding Filter.new new_from_string
new-IsFilter t h = rw (h.valid) (ground (arith, h.field.fits))

read_one :
    (fuel : ℕ) (t : TopicFilter) (rest : List ℕ)
    → IsFilter t
    → read_topics (suc fuel) (Filter.encode t ++ rest)
      ≡ (read_topics fuel rest >>= λ topics. ok (t ∷ topics))
unfolding read_topics Filter.encode read_byte
read_one fuel t rest h = rw (
  append_assoc (Field.encode t.name) (qos_byte t.qos ∷ []) rest,
  new_from_stream-encode t.name (qos_byte t.qos ∷ rest) h.field,
  read_topics,
  qos_of_byte-qos_byte t.qos,
  new-IsFilter t h,
)

-- The filters are read back with any fuel that is no less than the number of them.
read_topics-encode_topics :
    (fuel : ℕ) (topics : List TopicFilter)
    → All IsFilter topics
    → length topics ≤ fuel
    → read_topics fuel (encode_topics topics) ≡ ok topics
unfolding new_from_stream
read_topics-encode_topics zero [] h le = unfold read_topics in refl
read_topics-encode_topics (suc fuel) [] h le = unfold read_topics in refl
read_topics-encode_topics zero (t ∷ topics) h le = absurd (omega arith)
read_topics-encode_topics (suc fuel) (t ∷ topics) h le = rw (
  read_one fuel t (encode_topics topics) h.0,
  read_topics-encode_topics fuel topics h.1 (omega arith),
)

encode-length : (t : TopicFilter) → length (Filter.encode t) ≡ 3 + length t.name
unfolding Filter.encode Field.encode
encode-length t = omega (arith, length-append t.name (qos_byte t.qos ∷ []))

len-length : (t : TopicFilter) → Filter.len t ≡ 1 + length t.name
unfolding Filter.len Field.encode
len-length t = omega arith

topics_length-encode_topics :
    (topics : List TopicFilter) → topics_length topics ≡ length (encode_topics topics)
topics_length-encode_topics [] = refl
topics_length-encode_topics (t ∷ topics) = omega (
  arith,
  length-append (Filter.encode t) (encode_topics topics),
  encode-length t,
  len-length t,
  topics_length-encode_topics topics,
)

length_topics : (topics : List TopicFilter) → length topics ≤ length (encode_topics topics)
length_topics [] = omega arith
length_topics (t ∷ topics) = omega (
  arith,
  length-append (Filter.encode t) (encode_topics topics),
  encode-length t,
  length_topics topics,
)

abbrev body : Subscribe → List ℕ
body p = be_bytes p.packet_identifier ++ encode_topics p.topics

encode-body :
    (p : Subscribe)
    → remaining_length p ≤ max_variable_length
    → encode p
      ≡ ok (build_control_byte PacketType.subscribe 2 ∷ (Length.encode (length (body p)) ++ body p))
unfolding encode remaining_length
encode-body p room =
    let size : 2 + topics_length p.topics ≡ length (body p) =
      omega (arith, topics_length-encode_topics p.topics) in
    rw (size, from_uncoded_fits (length (body p)) (rw size at room))

read_body :
    (e : IoError) (p : Subscribe) (rest : List ℕ)
    → All IsFilter p.topics
    → is_empty p.topics ≡ false
    → p.packet_identifier < 65536
    → length (body p) ≤ max_variable_length
    → read_from e
        (Length.encode (length (body p)) ++ (body p ++ rest))
        (build_control_byte PacketType.subscribe 2)
      ≡ ok (p, rest)
unfolding read_from
read_body e p rest filters named fits room = rw (
  check_reserved_bits-same PacketType.subscribe 2 (omega arith),
  read_remaining_bytes-encode e (body p) rest room,
  read_u16-be_bytes eof p.packet_identifier (encode_topics p.topics) fits,
  read_topics-encode_topics (length (encode_topics p.topics)) p.topics filters
      (length_topics p.topics),
  named,
)

-- A SUBSCRIBE packet with a 16-bit identifier and at least one filter, all of them as `TopicFilter::new`
-- makes them, is read back from what `encode` writes of it, if it fits a packet; the bytes that follow
-- it are left.
pub read_from-encode_subscribe :
    (e : IoError) (p : Subscribe) (rest : List ℕ)
    → All IsFilter p.topics
    → is_empty p.topics ≡ false
    → p.packet_identifier < 65536
    → remaining_length p ≤ max_variable_length
    → (control_byte : ℕ) × (stream : List ℕ) × (encode p ≡ ok (control_byte ∷ stream))
      × (read_from e (stream ++ rest) control_byte ≡ ok (p, rest))
unfolding remaining_length
read_from-encode_subscribe e p rest filters named fits room = (
  _,
  Length.encode (length (body p)) ++ body p,
  encode-body p room,
  rw (append_assoc (Length.encode (length (body p))) (body p) rest)
      (read_body e p rest filters named fits (omega (arith, topics_length-encode_topics p.topics))),
)
