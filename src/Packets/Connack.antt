-- ===== src/Packets/Connack.antt =====
-- common/packets/src/connack: the CONNACK packet, the server's answer to a CONNECT.
pub mod RoundTrip
use t1_tp.Common.{ℕ, Bool, true, false, not, ◌&&◌, List, [], ◌∷◌, ◌++◌, ◌==◌, if◌then◌else◌}
use t1_tp.Packets.Error.{
  ErrorKind, IoError, PacketResult, ok, err, ◌>>=◌, ◌>>◌, invalid_protocol, other,
}
use t1_tp.Packets.Stream.{read_byte}
use t1_tp.Packets.Header.{PacketType, check_packet_type, check_reserved_bits, build_control_byte}

pub data ConnackReturnCode : Type 0 where
  accepted unacceptable_protocol_version identifier_rejected : ConnackReturnCode
  server_unavailable bad_user_name_or_password not_authorized : ConnackReturnCode

pub record Connack : Type 0 where
  pub session_present : Bool
  pub return_code : ConnackReturnCode

-- `impl From<ConnackReturnCode> for u8`
abbrev pub code_byte : ConnackReturnCode → ℕ
code_byte accepted = 0
code_byte unacceptable_protocol_version = 1
code_byte identifier_rejected = 2
code_byte server_unavailable = 3
code_byte bad_user_name_or_password = 4
code_byte not_authorized = 5

-- `impl TryFrom<u8> for ConnackReturnCode`
unfoldable pub code_of_byte : ℕ → PacketResult ConnackReturnCode
code_of_byte byte =
    if byte == 0
    then ok accepted
    else if byte == 1
    then ok unacceptable_protocol_version
    else if byte == 2
    then ok identifier_rejected
    else if byte == 3
    then ok server_unavailable
    else if byte == 4
    then ok bad_user_name_or_password
    else if byte == 5
    then ok not_authorized
    else err other

-- `Connack::encode`
unfoldable pub encode : Connack → PacketResult (List ℕ)
encode p =
    let session_present : ℕ = if p.session_present then 1 else 0 in
    ok
      (build_control_byte PacketType.connack 0 ∷ 2 ∷ session_present ∷ code_byte p.return_code ∷ [])

-- `verify_remaining_length`
unfoldable pub verify_remaining_length : IoError → List ℕ → PacketResult (List ℕ)
verify_remaining_length e stream = do
  (remaining_length, rest) ← read_byte e stream
  if not (remaining_length == 2) then err invalid_protocol else ok rest

-- `verify_session_present_flag`
unfoldable pub verify_session_present_flag : IoError → List ℕ → PacketResult (Bool × List ℕ)
verify_session_present_flag e stream = do
  (session_present, rest) ← read_byte e stream
  if not (session_present == 1) && not (session_present == 0)
      then err invalid_protocol
      else ok (session_present == 1, rest)

-- The `match` of `verify_return_code`: a refusal is an error to the client that reads it.
abbrev pub answer : ConnackReturnCode → PacketResult ConnackReturnCode
answer unacceptable_protocol_version = err ErrorKind.unacceptable_protocol_version
answer identifier_rejected = err ErrorKind.identifier_rejected
answer server_unavailable = err ErrorKind.server_unavailable
answer bad_user_name_or_password = err ErrorKind.bad_user_name_or_password
answer not_authorized = err ErrorKind.not_authorized
answer accepted = ok accepted

-- `verify_return_code`
unfoldable pub verify_return_code : IoError → List ℕ → PacketResult (ConnackReturnCode × List ℕ)
verify_return_code e stream = do
  (byte, rest) ← read_byte e stream
  return_code ← code_of_byte byte
  code ← answer return_code
  ok (code, rest)

-- `Connack::read_from`
unfoldable pub read_from : IoError → List ℕ → ℕ → PacketResult (Connack × List ℕ)
read_from e stream control_byte = do
  check_packet_type control_byte PacketType.connack
  check_reserved_bits control_byte 0
  rest ← verify_remaining_length e stream
  (session_present, rest') ← verify_session_present_flag e rest
  (return_code, after) ← verify_return_code e rest'
  ok (record { session_present = session_present; return_code = return_code }, after)
