-- ===== src/Packets/Unsubscribe/RoundTrip.antt =====
-- common/packets/src/unsubscribe: `encode` against `read_from`.
use t1_tp.Common.{
  ℕ, suc, zero, ◌+◌, ◌≤◌, ◌<◌, ◌≡◌, refl, false, List, [], ◌∷◌, ◌++◌, length, arith, append_assoc,
  All, is_empty, length-append,
}
use t1_tp.Packets.Error.{IoError, ok, ◌>>=◌}
use t1_tp.Packets.Stream.{be_bytes}
use t1_tp.Packets.Stream.Laws.{read_u16_or_zero-be_bytes}
use t1_tp.Packets.Header.{PacketType, qos_level0, build_control_byte}
use t1_tp.Packets.Header.Laws.{check_packet_type-same, check_reserved_bits-same}
use t1_tp.Packets.Length
use t1_tp.Packets.Length.{max_variable_length, read_remaining_bytes, from_uncoded}
use t1_tp.Packets.Length.Framing.{from_uncoded_fits, read_remaining_bytes-encode}
use t1_tp.Packets.Field
use t1_tp.Packets.Field.{new_from_stream, new_from_string, max_field_len}
use t1_tp.Packets.Field.Laws.{IsField, new_from_stream-encode}
use t1_tp.Packets.Filter.{TopicFilter, check_valid_topic_name}
use t1_tp.Packets.Subscribe.RoundTrip.{IsFilter, new-IsFilter}
use t1_tp.Packets.Acks.{verify_packet_id}
use t1_tp.Packets.Unsubscribe.{
  Unsubscribe, new, encode_filters, fixed_header, encode, read_filters, read_topic_filters,
  read_from,
}

-- The filters as they arrive: their levels are not sent.
abbrev pub at_level0 : List TopicFilter → List TopicFilter
at_level0 [] = []
at_level0 (t ∷ filters) = record t { qos = qos_level0 } ∷ at_level0 filters

abbrev pub names_bytes : List TopicFilter → List ℕ
names_bytes [] = []
names_bytes (t ∷ filters) = Field.encode t.name ++ names_bytes filters

new_from_string-IsField : (name : List ℕ) → IsField name → new_from_string name ≡ ok name
unfolding new_from_string
new_from_string-IsField name h = ground (arith, h.fits)

encode_filters-names_bytes :
    (filters : List TopicFilter)
    → All IsFilter filters
    → encode_filters filters ≡ ok (names_bytes filters)
unfolding encode_filters
encode_filters-names_bytes [] h = refl
encode_filters-names_bytes (t ∷ filters) h =
    rw (new_from_string-IsField t.name h.0.field, encode_filters-names_bytes filters h.1)

named : (name : List ℕ) → check_valid_topic_name name ≡ ok tt → is_empty name ≡ false
unfolding check_valid_topic_name
named [] h = cc
named (c ∷ name) h = refl

lowered-IsFilter : (t : TopicFilter) → IsFilter t → IsFilter (record t { qos = qos_level0 })
lowered-IsFilter t h = record { field = h.field; valid = h.valid }

read_one :
    (fuel : ℕ) (t : TopicFilter) (rest : List ℕ)
    → IsFilter t
    → read_filters (suc fuel) (Field.encode t.name ++ rest)
      ≡ (read_filters fuel rest >>= λ filters. ok (record t { qos = qos_level0 } ∷ filters))
unfolding read_filters
read_one fuel t rest h = rw (
  new_from_stream-encode t.name rest h.field,
  read_filters,
  named t.name h.valid,
  new-IsFilter (record t { qos = qos_level0 }) (lowered-IsFilter t h),
)

read_filters-names_bytes :
    (fuel : ℕ) (filters : List TopicFilter)
    → All IsFilter filters
    → length filters ≤ fuel
    → read_filters fuel (names_bytes filters) ≡ ok (at_level0 filters)
unfolding new_from_stream
read_filters-names_bytes zero [] h le = unfold read_filters in refl
read_filters-names_bytes (suc fuel) [] h le = unfold read_filters in refl
read_filters-names_bytes zero (t ∷ filters) h le = absurd (omega arith)
read_filters-names_bytes (suc fuel) (t ∷ filters) h le = rw (
  read_one fuel t (names_bytes filters) h.0,
  read_filters-names_bytes fuel filters h.1 (omega arith),
)

length_filters : (filters : List TopicFilter) → length filters ≤ length (names_bytes filters)
unfolding Field.encode
length_filters [] = omega arith
length_filters (t ∷ filters) =
    omega (arith, length-append (Field.encode t.name) (names_bytes filters), length_filters filters)

abbrev body : Unsubscribe → List ℕ
body p = be_bytes p.packet_id ++ names_bytes p.topic_filters

-- A packet with a 16-bit identifier above zero and at least one filter, all of them as
-- `TopicFilter::new` makes them.
pub record IsSendable (p : Unsubscribe) : Type 0 where
  pub positive : 0 < p.packet_id
  pub fits : p.packet_id < 65536
  pub filters : All IsFilter p.topic_filters
  pub asks : is_empty p.topic_filters ≡ false
  pub room : 2 + length (names_bytes p.topic_filters) ≤ max_variable_length

encode-body :
    (p : Unsubscribe)
    → IsSendable p
    → encode p
      ≡ ok (
          build_control_byte PacketType.unsubscribe 2 ∷ (Length.encode (length (body p)) ++ body p))
unfolding encode fixed_header
encode-body p h =
    let size : length (names_bytes p.topic_filters) + length (be_bytes p.packet_id)
        ≡ length (body p) =
      omega arith in
    rw (
      encode_filters-names_bytes p.topic_filters h.filters,
      size,
      from_uncoded_fits (length (body p)) (omega (arith, h.room)),
    )

at_level0_asks :
    (filters : List TopicFilter) → is_empty filters ≡ false → is_empty (at_level0 filters) ≡ false
at_level0_asks [] h = h
at_level0_asks (t ∷ filters) h = refl

read_body :
    (e : IoError) (p : Unsubscribe) (rest : List ℕ)
    → IsSendable p
    → read_from e
        (Length.encode (length (body p)) ++ (body p ++ rest))
        (build_control_byte PacketType.unsubscribe 2)
      ≡ ok (record p { topic_filters = at_level0 p.topic_filters }, rest)
unfolding read_from read_topic_filters
read_body e p rest h = rw (
  check_packet_type-same PacketType.unsubscribe 2 (omega arith),
  check_reserved_bits-same PacketType.unsubscribe 2 (omega arith),
  read_remaining_bytes-encode e (body p) rest (omega (arith, h.room)),
  read_u16_or_zero-be_bytes p.packet_id (names_bytes p.topic_filters) h.fits,
  read_filters-names_bytes (length (names_bytes p.topic_filters)) p.topic_filters h.filters
      (length_filters p.topic_filters),
  at_level0_asks p.topic_filters h.asks,
)

-- An UNSUBSCRIBE packet that can be sent can be made, and is read back from what `encode` writes of it;
-- its filters arrive at level 0, and the bytes that follow it are left.
pub read_from-encode_unsubscribe :
    (e : IoError) (p : Unsubscribe) (rest : List ℕ)
    → IsSendable p
    → (control_byte : ℕ) × (stream : List ℕ) × (new p.packet_id p.topic_filters ≡ ok p)
      × (encode p ≡ ok (control_byte ∷ stream))
      × (read_from e (stream ++ rest) control_byte
          ≡ ok (record p { topic_filters = at_level0 p.topic_filters }, rest))
unfolding new verify_packet_id
read_from-encode_unsubscribe e p rest h = (
  _,
  Length.encode (length (body p)) ++ body p,
  ground (arith, h.positive),
  encode-body p h,
  rw (append_assoc (Length.encode (length (body p))) (body p) rest) (read_body e p rest h),
)
