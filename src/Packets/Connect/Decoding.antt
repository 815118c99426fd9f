-- ===== src/Packets/Connect/Decoding.antt =====
-- common/packets/src/connect/decoding.rs: how a CONNECT packet is read.
use t1_tp.Common.{
  ℕ, ◌/◌, ◌^◌, Bool, true, false, not, ◌||◌, List, [], ◌∷◌, Option, none, some, ◌==◌, if◌then◌else◌,
  bit_and, same_text,
}
use t1_tp.Packets.Error.{
  IoError, eof, PacketResult, ok, err, ◌>>=◌, ◌>>◌, other, invalid_protocol, invalid_protocol_level,
  invalid_flags,
}
use t1_tp.Packets.Stream.{read_byte, read_u16}
use t1_tp.Packets.Header.{
  PacketType, qos_level0, same_qos, qos_of_byte, check_packet_type, check_reserved_bits,
}
use t1_tp.Packets.Length.{read_remaining_bytes}
use t1_tp.Packets.Field.{new_from_stream}
use t1_tp.Packets.Filter
use t1_tp.Packets.Connect.{Connect, LastWill}
use t1_tp.Packets.Connect.Encoding.{mqtt}

-- `Field::new_from_stream(bytes).ok_or_else(PacketError::new)?`
unfoldable pub read_field : List ℕ → PacketResult (List ℕ × List ℕ)
read_field bytes = elim (new_from_stream bytes) [ none ↦ err other | some field ↦ ok field ]

-- `verify_protocol`
unfoldable pub verify_protocol : List ℕ → PacketResult (List ℕ)
verify_protocol bytes = do
  (name, rest) ← read_field bytes
  if not (same_text name mqtt) then err invalid_protocol else ok rest

-- `verify_protocol_level`
unfoldable pub verify_protocol_level : List ℕ → PacketResult (List ℕ)
verify_protocol_level bytes = do
  (level, rest) ← read_byte eof bytes
  if not (level == 4) then err invalid_protocol_level else ok rest

-- The text `placeholder`, a topic until the will's own is read
abbrev pub placeholder : List ℕ
placeholder = b'p' ∷ b'l' ∷ b'a' ∷ b'c' ∷ b'e' ∷ b'h' ∷ b'o' ∷ b'l' ∷ b'd' ∷ b'e' ∷ b'r' ∷ []

-- `get_will`
unfoldable pub get_will : ℕ → PacketResult (Option LastWill)
get_will byte = do
  qos ← qos_of_byte (bit_and byte 24 / 2 ^ 3)
  if not (bit_and byte 4 == 0)
      then (do
        topic ← Filter.new placeholder qos
        ok (
            some (record {
              retain_flag = not (bit_and byte 32 == 0);
              topic = topic;
              topic_message = [];
            })))
      else if not (bit_and byte 32 == 0) || not (same_qos qos qos_level0)
      then err invalid_flags
      else ok none

abbrev empty_if : Bool → Option (List ℕ)
empty_if true = some []
empty_if false = none

-- What `get_flags` makes of the byte that it reads
unfoldable pub connect_of_flags : ℕ → PacketResult Connect
connect_of_flags byte = if not (bit_and byte 1 == 0) then err invalid_flags else do
  last_will ← get_will byte
  ok (record {
    client_id = [];
    clean_session = not (bit_and byte 2 == 0);
    user_name = empty_if (not (bit_and byte 128 == 0));
    password = empty_if (not (bit_and byte 64 == 0));
    last_will = last_will;
    keep_alive = 0;
  })

-- `get_flags`
unfoldable pub get_flags : List ℕ → PacketResult (Connect × List ℕ)
get_flags bytes = do
  (byte, rest) ← read_byte eof bytes
  connect ← connect_of_flags byte
  ok (connect, rest)

-- `get_will_data`: the will with its topic and its message
unfoldable pub get_will_data : Option LastWill → List ℕ → PacketResult (Option LastWill × List ℕ)
get_will_data none bytes = ok (none, bytes)
get_will_data (some last_will) bytes = do
  (topic_name, rest) ← read_field bytes
  (message, rest') ← read_field rest
  topic ← Filter.new topic_name last_will.topic.qos
  ok (some (record last_will { topic = topic; topic_message = message }), rest')

-- The two halves of `get_auth`
unfoldable pub get_text : Option (List ℕ) → List ℕ → PacketResult (Option (List ℕ) × List ℕ)
get_text none bytes = ok (none, bytes)
get_text (some text) bytes = do (value, rest) ← read_field bytes; ok (some value, rest)

-- The end of `read_from`: a byte that is left is an error.
unfoldable pub check_end : List ℕ → PacketResult (Unit {0})
check_end [] = ok tt
check_end (b ∷ bytes) = err other

-- What `read_from` does behind the fixed header: `get_keep_alive` is `read_u16`, `get_client_id` is
-- `read_field`.
unfoldable pub read_content : List ℕ → PacketResult Connect
read_content bytes = do
  rest1 ← verify_protocol bytes
  rest2 ← verify_protocol_level rest1
  (ret, rest3) ← get_flags rest2
  (keep_alive, rest4) ← read_u16 eof rest3
  (client_id, rest5) ← read_field rest4
  (last_will, rest6) ← get_will_data ret.last_will rest5
  (user_name, rest7) ← get_text ret.user_name rest6
  (password, rest8) ← get_text ret.password rest7
  check_end rest8
  ok (record {
    client_id = client_id;
    clean_session = ret.clean_session;
    user_name = user_name;
    password = password;
    last_will = last_will;
    keep_alive = keep_alive;
  })

-- `Connect::read_from`, which reads the packet before it checks the control byte.
unfoldable pub read_from : IoError → List ℕ → ℕ → PacketResult (Connect × List ℕ)
read_from e stream control_byte = do
  (bytes, after) ← read_remaining_bytes e stream
  check_packet_type control_byte PacketType.connect
  check_reserved_bits control_byte 0
  connect ← read_content bytes
  ok (connect, after)

-- `Connect::new_from_zero`
unfoldable pub new_from_zero : IoError → List ℕ → PacketResult (Connect × List ℕ)
new_from_zero e stream = do (control_byte, rest) ← read_byte e stream; read_from e rest control_byte
