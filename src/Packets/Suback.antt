-- ===== src/Packets/Suback.antt =====
-- common/packets/src/suback: the SUBACK packet, with one return code for each filter asked for.
pub mod RoundTrip
use t1_tp.Common.{ℕ, ◌+◌, Bool, not, ◌||◌, List, [], ◌∷◌, ◌++◌, ◌==◌, if◌then◌else◌, length}
use t1_tp.Packets.Error.{IoError, PacketResult, ok, err, ◌>>=◌, ◌>>◌, invalid_return_code}
use t1_tp.Packets.Stream.{be_bytes, read_u16_or_zero}
use t1_tp.Packets.Header.{PacketType, check_packet_type, check_reserved_bits, build_control_byte}
use t1_tp.Packets.Length
use t1_tp.Packets.Length.{from_uncoded, read_remaining_bytes}
use t1_tp.Packets.Filter.{TopicFilter}

pub record Suback : Type 0 where
  pub return_codes : List ℕ
  pub subscribe_packet_id : ℕ
  pub topics : List TopicFilter

-- `is_return_code_valid`
unfoldable pub is_return_code_valid : ℕ → Bool
is_return_code_valid code = (code == 0) || ((code == 1) || (code == 128))

-- `verify_return_code`
unfoldable pub verify_return_code : ℕ → PacketResult (Unit {0})
verify_return_code code = if not (is_return_code_valid code) then err invalid_return_code else ok tt

-- `verify_return_codes_from_vec`
unfoldable pub verify_return_codes_from_vec : List ℕ → PacketResult (Unit {0})
verify_return_codes_from_vec [] = ok tt
verify_return_codes_from_vec (code ∷ codes) = do
  verify_return_code code
  verify_return_codes_from_vec codes

-- `Suback::new_from_vec`
unfoldable pub new_from_vec : List ℕ → ℕ → PacketResult Suback
new_from_vec return_codes subscribe_packet_id = do
  verify_return_codes_from_vec return_codes
  ok (record {
    return_codes = return_codes;
    subscribe_packet_id = subscribe_packet_id;
    topics = [];
  })

-- `fixed_header`
unfoldable pub fixed_header : Suback → PacketResult (List ℕ)
fixed_header p = do
  remaining_length ← from_uncoded (length p.return_codes + length (be_bytes p.subscribe_packet_id))
  ok (build_control_byte PacketType.suback 0 ∷ Length.encode remaining_length)

-- `Suback::encode`
unfoldable pub encode : Suback → PacketResult (List ℕ)
encode p = do
  fixed ← fixed_header p
  ok (fixed ++ (be_bytes p.subscribe_packet_id ++ p.return_codes))

-- `Suback::read_from`: the return codes are all that is left of the packet.
unfoldable pub read_from : IoError → List ℕ → ℕ → PacketResult (Suback × List ℕ)
read_from e stream control_byte = do
  check_packet_type control_byte PacketType.suback
  check_reserved_bits control_byte 0
  (remaining_bytes, after) ← read_remaining_bytes e stream
  let (subscribe_packet_id, return_codes) = read_u16_or_zero remaining_bytes
  verify_return_codes_from_vec return_codes
  ok (
    record { return_codes = return_codes; subscribe_packet_id = subscribe_packet_id; topics = [] },
    after,
  )

-- `Suback::set_topics`
unfoldable pub set_topics : Suback → List TopicFilter → Suback
set_topics p topics = record p { topics = topics }
