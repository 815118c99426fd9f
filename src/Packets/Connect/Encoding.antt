-- ===== src/Packets/Connect/Encoding.antt =====
-- common/packets/src/connect/encoding.rs: how a CONNECT packet is written.
use t1_tp.Common.{
  ℕ, ◌+◌, ◌*◌, ◌%◌, ◌^◌, List, [], ◌∷◌, ◌++◌, length, Option, none, some, if◌then◌else◌, bit_or,
}
use t1_tp.Packets.Error.{PacketResult, ok, ◌>>=◌}
use t1_tp.Packets.Stream.{be_bytes}
use t1_tp.Packets.Header.{PacketType, qos_byte, build_control_byte}
use t1_tp.Packets.Length
use t1_tp.Packets.Length.{from_uncoded}
use t1_tp.Packets.Field
use t1_tp.Packets.Field.{new_from_string}
use t1_tp.Packets.Publish.{is_some}
use t1_tp.Packets.Connect.{Connect, LastWill}

-- The text `MQTT`
abbrev pub mqtt : List ℕ
mqtt = b'M' ∷ b'Q' ∷ b'T' ∷ b'T' ∷ []

-- `protocol_name`: its field is made of a text of four bytes.
abbrev pub protocol_name : List ℕ
protocol_name = Field.encode mqtt

-- The flags of a last will
abbrev pub will_flags : Option LastWill → ℕ → ℕ
will_flags none bits = bits
will_flags (some last_will) bits =
    let retain : ℕ = if last_will.retain_flag then bit_or bits 32 else bits in
    bit_or (bit_or retain (qos_byte last_will.topic.qos * 2 ^ 3 % 256)) 4

-- `flags`
unfoldable pub flags : Connect → ℕ
flags c =
    let user : ℕ = if is_some c.user_name then bit_or 0 128 else 0 in
    let password : ℕ = if is_some c.password then bit_or user 64 else user in
    let will : ℕ = will_flags c.last_will password in
    if c.clean_session then bit_or will 2 else will

-- The fields that are present only when the packet has them
unfoldable pub will_fields : Option LastWill → PacketResult (List ℕ)
will_fields none = ok []
will_fields (some last_will) = do
  topic ← new_from_string last_will.topic.name
  message ← new_from_string last_will.topic_message
  ok (Field.encode topic ++ Field.encode message)

unfoldable pub optional_field : Option (List ℕ) → PacketResult (List ℕ)
optional_field none = ok []
optional_field (some text) = do field ← new_from_string text; ok (Field.encode field)

-- `payload`
unfoldable pub payload : Connect → PacketResult (List ℕ)
payload c = do
  client_id ← new_from_string c.client_id
  last_will ← will_fields c.last_will
  user_name ← optional_field c.user_name
  password ← optional_field c.password
  ok (Field.encode client_id ++ (last_will ++ (user_name ++ password)))

-- `variable_header`, with the protocol level 4
unfoldable pub variable_header : Connect → List ℕ
variable_header c = protocol_name ++ (4 ∷ flags c ∷ be_bytes c.keep_alive)

-- `fixed_header`
unfoldable pub fixed_header : Connect → PacketResult (List ℕ)
fixed_header c = do
  content ← payload c
  remaining_length ← from_uncoded (length (variable_header c) + length content)
  ok (build_control_byte PacketType.connect 0 ∷ Length.encode remaining_length)

-- `Connect::encode`
unfoldable pub encode : Connect → PacketResult (List ℕ)
encode c = do
  fixed ← fixed_header c
  content ← payload c
  ok (fixed ++ (variable_header c ++ content))
