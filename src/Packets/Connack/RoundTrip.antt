-- ===== src/Packets/Connack/RoundTrip.antt =====
-- common/packets/src/connack: `encode` against `read_from`.
use t1_tp.Common.{ℕ, ◌≡◌, refl, Bool, true, false, List, ◌∷◌, ◌++◌, if◌then◌else◌}
use t1_tp.Packets.Error.{IoError, ok, ◌>>=◌}
use t1_tp.Packets.Stream.{read_byte}
use t1_tp.Packets.Header.{
  build_control_byte, to_bits, check_packet_type, check_reserved_bits, compare_reserved_bytes,
  type_of_byte, type_of_bits, same_type,
}
use t1_tp.Packets.Connack.{
  Connack, ConnackReturnCode, answer, encode, code_of_byte, verify_remaining_length,
  verify_session_present_flag, verify_return_code, read_from, accepted, code_byte,
}

read_written :
    (e : IoError) (session_present : Bool) (code : ConnackReturnCode) (rest : List ℕ)
    → read_from e (2 ∷ (if session_present then 1 else 0) ∷ code_byte code ∷ rest) 32 ≡ (
        answer code >>= λ c.
        ok (record { session_present = session_present; return_code = code }, rest))
unfolding read_from check_packet_type check_reserved_bits compare_reserved_bytes type_of_byte
    type_of_bits same_type to_bits verify_remaining_length verify_session_present_flag
    verify_return_code code_of_byte read_byte
read_written e true accepted rest = refl
read_written e false accepted rest = refl
read_written e true _ rest = refl
read_written e false _ rest = refl

-- Reading what `encode` writes gives the packet when its code accepts the connection, and the error
-- of its code otherwise, whatever follows it.
pub read_from-encode_connack :
    (e : IoError) (p : Connack) (rest : List ℕ)
    → (control_byte : ℕ) × (stream : List ℕ) × (encode p ≡ ok (control_byte ∷ stream))
      × (read_from e (stream ++ rest) control_byte
          ≡ (answer p.return_code >>= λ code. ok (p, rest)))
unfolding encode build_control_byte to_bits
read_from-encode_connack e p rest =
    (_, _, refl, read_written e p.session_present p.return_code rest)
