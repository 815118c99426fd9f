-- ===== src/Packets/Connect/RoundTrip.antt =====
-- common/packets/src/connect: `encode` against `read_from`.
use t1_tp.Common.{
  sym, ℕ, ◌+◌, ◌≤◌, ◌<◌, ◌≡◌, refl, List, [], ◌∷◌, ◌++◌, length, arith, append_assoc, append-nil,
  Option, none, some,
}
use t1_tp.Packets.Error.{IoError, eof, ok}
use t1_tp.Packets.Stream.{be_bytes, read_byte}
use t1_tp.Packets.Stream.Laws.{read_u16-be_bytes}
use t1_tp.Packets.Header.{PacketType, build_control_byte}
use t1_tp.Packets.Header.Laws.{check_packet_type-same, check_reserved_bits-same}
use t1_tp.Packets.Length
use t1_tp.Packets.Length.{max_variable_length, read_remaining_bytes, from_uncoded}
use t1_tp.Packets.Length.Framing.{from_uncoded_fits, read_remaining_bytes-encode}
use t1_tp.Packets.Field
use t1_tp.Packets.Field.{is_utf8, new_from_string, new_from_stream, max_field_len}
use t1_tp.Packets.Field.Laws.{IsField, new_from_stream-encode}
use t1_tp.Packets.Subscribe.RoundTrip.{IsFilter, new-IsFilter}
use t1_tp.Packets.Connect.{Connect, LastWill}
use t1_tp.Packets.Connect.Encoding.{
  mqtt, protocol_name, flags, will_fields, optional_field, payload, variable_header, fixed_header,
  encode,
}
use t1_tp.Packets.Connect.Decoding.{
  read_field, verify_protocol, verify_protocol_level, get_flags, get_will_data, get_text, check_end,
  read_content, read_from,
}
use t1_tp.Packets.Connect.Flags.{blank_will, blank_text, connect_of_flags-flags}

abbrev text_bytes : Option (List ℕ) → List ℕ
text_bytes none = []
text_bytes (some text) = Field.encode text

abbrev will_bytes : Option LastWill → List ℕ
will_bytes none = []
will_bytes (some w) = Field.encode w.topic.name ++ Field.encode w.topic_message

-- Texts and filters as Rust has them, of lengths that fields can carry.
abbrev pub IsText : Option (List ℕ) → Type 0
IsText none = Unit
IsText (some text) = IsField text

abbrev pub IsWill : Option LastWill → Type 0
IsWill none = Unit
IsWill (some w) = IsFilter w.topic × IsField w.topic_message

abbrev content : Connect → List ℕ
content c =
    Field.encode c.client_id
    ++ (will_bytes c.last_will ++ (text_bytes c.user_name ++ text_bytes c.password))

abbrev body : Connect → List ℕ
body c = protocol_name ++ (4 ∷ flags c ∷ (be_bytes c.keep_alive ++ content c))

-- A packet that can be sent.
pub record IsSendable (c : Connect) : Type 0 where
  pub id : IsField c.client_id
  pub will : IsWill c.last_will
  pub user : IsText c.user_name
  pub secret : IsText c.password
  pub alive : c.keep_alive < 65536

new_from_string-IsField : (name : List ℕ) → IsField name → new_from_string name ≡ ok name
unfolding new_from_string
new_from_string-IsField name h = ground (arith, h.fits)

optional_field-IsText : (t : Option (List ℕ)) → IsText t → optional_field t ≡ ok (text_bytes t)
unfolding optional_field
optional_field-IsText none h = refl
optional_field-IsText (some text) h = rw (new_from_string-IsField text h)

will_fields-IsWill : (w : Option LastWill) → IsWill w → will_fields w ≡ ok (will_bytes w)
unfolding will_fields
will_fields-IsWill none h = refl
will_fields-IsWill (some w) h =
    rw (new_from_string-IsField w.topic.name h.0.field, new_from_string-IsField w.topic_message h.1)

payload-content : (c : Connect) → IsSendable c → payload c ≡ ok (content c)
unfolding payload
payload-content c h = rw (
  new_from_string-IsField c.client_id h.id,
  will_fields-IsWill c.last_will h.will,
  optional_field-IsText c.user_name h.user,
  optional_field-IsText c.password h.secret,
)

read_field-encode :
    (value rest : List ℕ)
    → IsField value
    → read_field (Field.encode value ++ rest) ≡ ok (value, rest)
unfolding read_field
read_field-encode value rest h = rw (new_from_stream-encode value rest h, read_field)

get_text-text_bytes :
    (t : Option (List ℕ)) (rest : List ℕ)
    → IsText t
    → get_text (blank_text t) (text_bytes t ++ rest) ≡ ok (t, rest)
unfolding get_text
get_text-text_bytes none rest h = refl
get_text-text_bytes (some text) rest h = rw (read_field-encode text rest h)

get_will_data-will_bytes :
    (w : Option LastWill) (rest : List ℕ)
    → IsWill w
    → get_will_data (blank_will w) (will_bytes w ++ rest) ≡ ok (w, rest)
unfolding get_will_data
get_will_data-will_bytes none rest h = refl
get_will_data-will_bytes (some w) rest h = rw (
  append_assoc (Field.encode w.topic.name) (Field.encode w.topic_message) rest,
  read_field-encode w.topic.name (Field.encode w.topic_message ++ rest) h.0.field,
  read_field-encode w.topic_message rest h.1,
  new-IsFilter w.topic h.0,
)

mqtt-IsField : IsField mqtt
unfolding is_utf8
mqtt-IsField = record { fits = omega arith; utf8 = refl }

verify_protocol-name : (rest : List ℕ) → verify_protocol (protocol_name ++ rest) ≡ ok rest
unfolding verify_protocol
verify_protocol-name rest = rw (read_field-encode mqtt rest mqtt-IsField)

read_content-body : (c : Connect) → IsSendable c → read_content (body c) ≡ ok c
unfolding read_content verify_protocol_level get_flags check_end read_byte
read_content-body c h = rw (
  verify_protocol-name (4 ∷ flags c ∷ (be_bytes c.keep_alive ++ content c)),
  connect_of_flags-flags c,
  read_u16-be_bytes eof c.keep_alive (content c) h.alive,
  read_field-encode c.client_id _ h.id,
  get_will_data-will_bytes c.last_will _ h.will,
  get_text-text_bytes c.user_name _ h.user,
  sym (append-nil (text_bytes c.password)),
  get_text-text_bytes c.password [] h.secret,
)

encode-body :
    (c : Connect)
    → IsSendable c
    → length (body c) ≤ max_variable_length
    → encode c
      ≡ ok (build_control_byte PacketType.connect 0 ∷ (Length.encode (length (body c)) ++ body c))
unfolding encode fixed_header variable_header Field.encode
encode-body c h room =
    let header : List ℕ = protocol_name ++ (4 ∷ flags c ∷ be_bytes c.keep_alive) in
    let size : length header + length (content c) ≡ length (body c) = omega arith in
    rw (payload-content c h, size, from_uncoded_fits (length (body c)) room)

read_body :
    (e : IoError) (c : Connect) (rest : List ℕ)
    → IsSendable c
    → length (body c) ≤ max_variable_length
    → read_from e
        (Length.encode (length (body c)) ++ (body c ++ rest))
        (build_control_byte PacketType.connect 0)
      ≡ ok (c, rest)
unfolding read_from
read_body e c rest h room = rw (
  read_remaining_bytes-encode e (body c) rest room,
  check_packet_type-same PacketType.connect 0 (omega arith),
  check_reserved_bits-same PacketType.connect 0 (omega arith),
  read_content-body c h,
)

-- A CONNECT packet whose texts fit their fields, whose will has a filter as `TopicFilter::new` makes
-- them, and which fits a packet, is read back from what `encode` writes of it; the bytes that follow it
-- are left.
pub read_from-encode_connect :
    (e : IoError) (c : Connect) (rest : List ℕ)
    → IsSendable c
    → length (body c) ≤ max_variable_length
    → (control_byte : ℕ) × (stream : List ℕ) × (encode c ≡ ok (control_byte ∷ stream))
      × (read_from e (stream ++ rest) control_byte ≡ ok (c, rest))
read_from-encode_connect e c rest h room = (
  _,
  Length.encode (length (body c)) ++ body c,
  encode-body c h room,
  rw (append_assoc (Length.encode (length (body c))) (body c) rest) (read_body e c rest h room),
)
