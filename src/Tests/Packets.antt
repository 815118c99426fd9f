-- ===== src/Tests/Packets.antt =====
-- The packets of the protocol on concrete bytes.
use t1_tp.Common.{
  arith, ℕ, ◌+◌, ◌≤◌, ◌<◌, ◌≡◌, refl, true, false, List, [], ◌∷◌, ◌++◌, none, some, length,
}
use t1_tp.Packets.Error.{eof, ok}
use t1_tp.Packets.Header.{
  qos_level0, qos_level1, to_bits, type_of_bits, type_of_byte, same_type, qos_of_byte,
  check_packet_type,
}
use t1_tp.Packets.Stream.{read_exact}
use t1_tp.Packets.Length
use t1_tp.Packets.Length.{
  max_variable_length, from_encoded, from_encoded_loop, read_remaining_bytes,
}
use t1_tp.Packets.Length.RoundTrip.{from_encoded-encode}
use t1_tp.Packets.Length.Bounds.{from_encoded_bounds}
use t1_tp.Packets.Field
use t1_tp.Packets.Field.{new_from_stream, is_utf8}
use t1_tp.Packets.Field.Laws.{IsField}
use t1_tp.Packets.Filter
use t1_tp.Packets.Filter.{TopicFilter, check_valid_topic_name}
use t1_tp.Packets.Filter.Laws.{check-plus_followed}
use t1_tp.Packets.Publish.{Publish}
use t1_tp.Packets.Publish.Encoding as PublishEncoding
use t1_tp.Packets.Publish.Decoding as PublishDecoding
use t1_tp.Packets.Publish.Decoding.{
  verify_qos_level_flag, verify_dup_flag, verify_retain_flag, verify_topic_name, verify_packet_id,
  read_payload,
}
use t1_tp.Packets.Publish.Shape.{IsSendable, arriving}
use t1_tp.Packets.Publish.RoundTrip.{read_from-encode_publish}
use t1_tp.Packets.Publish.Reading.{read_from-IsSendable}
use t1_tp.Packets.Subscribe
use t1_tp.Packets.Subscribe.{Subscribe, read_topics, response, set_max_qos, remaining_length}
use t1_tp.Packets.Subscribe.RoundTrip.{IsFilter, read_from-encode_subscribe}
use t1_tp.Packets.Unsubscribe.{Unsubscribe}
use t1_tp.Packets.Unsubscribe.RoundTrip as UnsubscribeRoundTrip
use t1_tp.Packets.Unsubscribe.RoundTrip.{at_level0, read_from-encode_unsubscribe}
use t1_tp.Packets.Connect.{Connect}
use t1_tp.Packets.Connect.Encoding as ConnectEncoding
use t1_tp.Packets.Connect.Encoding.{flags}
use t1_tp.Packets.Connect.Decoding as ConnectDecoding
use t1_tp.Packets.Connect.Decoding.{connect_of_flags}
use t1_tp.Packets.Connect.RoundTrip as ConnectRoundTrip
use t1_tp.Packets.Connect.RoundTrip.{read_from-encode_connect}

abbrev text : List ℕ
text = b'a' ∷ b'/' ∷ b'b' ∷ []

text-IsField : IsField text
unfolding is_utf8
text-IsField = record { fits = omega arith; utf8 = refl }

from_encoded-encode_example : from_encoded eof (Length.encode 300 ++ (9 ∷ [])) ≡ ok (300, 9 ∷ [])
from_encoded-encode_example = from_encoded-encode eof 300 (9 ∷ []) (omega arith)

abbrev coded : List ℕ
coded = 172 ∷ 2 ∷ 9 ∷ []

abbrev nine : List ℕ
nine = 9 ∷ []

from_encoded_bounds_example :
    (300 ≤ max_variable_length) × (length nine < length coded) × (length coded ≤ length nine + 4)
unfolding from_encoded from_encoded_loop
from_encoded_bounds_example =
    from_encoded_bounds eof coded 300 nine (omega arith, (omega arith, (omega arith, tt))) refl

check-plus_followed_example :
    check_valid_topic_name ((b'a' ∷ []) ++ (b'/' ∷ b'+' ∷ (b'b' ∷ []))) ≡ ok tt
check-plus_followed_example = check-plus_followed (b'a' ∷ []) (b'b' ∷ []) refl refl refl refl

abbrev packet : Publish
packet = record {
  packet_id = some 5;
  topic_name = text;
  qos = qos_level1;
  retain_flag = true;
  dup_flag = false;
  payload = b'x' ∷ [];
}

packet-IsSendable : IsSendable packet
unfolding is_utf8
packet-IsSendable = record {
  topic = text-IsField;
  named = refl;
  plain = refl;
  text = refl;
  first = refl;
  identified = (omega arith, omega arith);
  fits = omega arith;
}

read_from-encode_publish_example :
    (control_byte : ℕ) × (stream : List ℕ) × (PublishEncoding.encode packet
      ≡ ok (control_byte ∷ stream))
    × (PublishDecoding.read_from eof (stream ++ (1 ∷ [])) control_byte
        ≡ ok (arriving packet, 1 ∷ []))
read_from-encode_publish_example = read_from-encode_publish eof packet (1 ∷ []) packet-IsSendable

-- A packet at level 0 under `a`, with the payload `x`
abbrev short : Publish
short = record {
  packet_id = none;
  topic_name = b'a' ∷ [];
  qos = qos_level0;
  retain_flag = false;
  dup_flag = false;
  payload = b'x' ∷ [];
}

read_from-IsSendable_example : IsSendable short × (arriving short ≡ short)
unfolding PublishDecoding.read_from verify_qos_level_flag verify_dup_flag verify_retain_flag
    verify_topic_name verify_packet_id read_payload check_packet_type type_of_byte type_of_bits
    same_type to_bits qos_of_byte read_remaining_bytes from_encoded from_encoded_loop read_exact
    new_from_stream is_utf8
read_from-IsSendable_example =
    read_from-IsSendable eof (4 ∷ 0 ∷ 1 ∷ b'a' ∷ b'x' ∷ []) 48 short []
      (omega arith, (omega arith, (omega arith, (omega arith, (omega arith, tt))))) refl

abbrev filter : TopicFilter
filter = record { name = text; qos = qos_level1 }

filter-IsFilter : IsFilter filter
unfolding check_valid_topic_name
filter-IsFilter = record { field = text-IsField; valid = refl }

abbrev asked : Subscribe
asked = record { packet_identifier = 7; topics = filter ∷ [] }

read_from-encode_subscribe_example :
    (control_byte : ℕ) × (stream : List ℕ) × (Subscribe.encode asked ≡ ok (control_byte ∷ stream))
    × (Subscribe.read_from eof (stream ++ (1 ∷ [])) control_byte ≡ ok (asked, 1 ∷ []))
unfolding remaining_length Filter.len Field.encode
read_from-encode_subscribe_example =
    read_from-encode_subscribe eof asked (1 ∷ []) (filter-IsFilter, tt) refl (omega arith)
      (omega arith)

abbrev given_up : Unsubscribe
given_up = record { packet_id = 8; topic_filters = filter ∷ [] }

given_up-IsSendable : UnsubscribeRoundTrip.IsSendable given_up
unfolding Field.encode
given_up-IsSendable = record {
  positive = omega arith;
  fits = omega arith;
  filters = (filter-IsFilter, tt);
  asks = refl;
  room = omega arith;
}

abbrev greeting : Connect
greeting = record {
  client_id = text;
  clean_session = true;
  user_name = some text;
  password = some text;
  last_will = some (record { retain_flag = true; topic = filter; topic_message = text });
  keep_alive = 60;
}

greeting-IsSendable : ConnectRoundTrip.IsSendable greeting
greeting-IsSendable = record {
  id = text-IsField;
  will = (filter-IsFilter, text-IsField);
  user = text-IsField;
  secret = text-IsField;
  alive = omega arith;
}

read_from-encode_connect_example :
    (control_byte : ℕ) × (stream : List ℕ) × (ConnectEncoding.encode greeting
      ≡ ok (control_byte ∷ stream))
    × (ConnectDecoding.read_from eof (stream ++ (1 ∷ [])) control_byte ≡ ok (greeting, 1 ∷ []))
unfolding Field.encode
read_from-encode_connect_example =
    read_from-encode_connect eof greeting (1 ∷ []) greeting-IsSendable (omega arith)
