-- ===== src/Packets/Suback/RoundTrip.antt =====
-- common/packets/src/suback: `encode` against `read_from`.
use t1_tp.Common.{ℕ, ◌+◌, ◌≤◌, ◌<◌, ◌≡◌, List, [], ◌∷◌, ◌++◌, length, arith, append_assoc}
use t1_tp.Packets.Error.{IoError, ok}
use t1_tp.Packets.Stream.{be_bytes}
use t1_tp.Packets.Stream.Laws.{read_u16_or_zero-be_bytes}
use t1_tp.Packets.Header.{PacketType, build_control_byte}
use t1_tp.Packets.Header.Laws.{check_packet_type-same, check_reserved_bits-same}
use t1_tp.Packets.Length
use t1_tp.Packets.Length.{max_variable_length, read_remaining_bytes, from_uncoded}
use t1_tp.Packets.Length.Framing.{from_uncoded_fits, read_remaining_bytes-encode}
use t1_tp.Packets.Suback.{
  Suback, verify_return_codes_from_vec, new_from_vec, encode, fixed_header, read_from,
}

abbrev body : List ℕ → ℕ → List ℕ
body codes id = be_bytes id ++ codes

abbrev made : List ℕ → ℕ → Suback
made codes id = record { return_codes = codes; subscribe_packet_id = id; topics = [] }

new_from_vec-made :
    (codes : List ℕ) (id : ℕ)
    → verify_return_codes_from_vec codes ≡ ok tt
    → new_from_vec codes id ≡ ok (made codes id)
unfolding new_from_vec
new_from_vec-made codes id valid = rw valid

encode-body :
    (codes : List ℕ) (id : ℕ)
    → 2 + length codes ≤ max_variable_length
    → encode (made codes id)
      ≡ ok (
          build_control_byte PacketType.suback 0
          ∷ (Length.encode (length (body codes id)) ++ body codes id))
unfolding encode fixed_header
encode-body codes id room =
    let size : length codes + length (be_bytes id) ≡ length (body codes id) = omega arith in
    rw (size, from_uncoded_fits (length (body codes id)) (omega arith))

read_body :
    (e : IoError) (codes : List ℕ) (id : ℕ) (rest : List ℕ)
    → verify_return_codes_from_vec codes ≡ ok tt
    → id < 65536
    → 2 + length codes ≤ max_variable_length
    → read_from e
        (Length.encode (length (body codes id)) ++ (body codes id ++ rest))
        (build_control_byte PacketType.suback 0)
      ≡ ok (made codes id, rest)
unfolding read_from
read_body e codes id rest valid fits room = rw (
  check_packet_type-same PacketType.suback 0 (omega arith),
  check_reserved_bits-same PacketType.suback 0 (omega arith),
  read_remaining_bytes-encode e (body codes id) rest (omega arith),
  read_u16_or_zero-be_bytes id codes fits,
  valid,
)

-- A SUBACK that `new_from_vec` makes with a 16-bit identifier, of codes that fit a packet, is read back
-- from what `encode` writes of it, and the bytes that follow it are left.
pub read_from-encode_suback :
    (e : IoError) (codes : List ℕ) (id : ℕ) (rest : List ℕ)
    → verify_return_codes_from_vec codes ≡ ok tt
    → id < 65536
    → 2 + length codes ≤ max_variable_length
    → (p : Suback) × (control_byte : ℕ) × (stream : List ℕ) × (new_from_vec codes id ≡ ok p)
      × (encode p ≡ ok (control_byte ∷ stream))
      × (read_from e (stream ++ rest) control_byte ≡ ok (p, rest))
read_from-encode_suback e codes id rest valid fits room = (
  made codes id,
  _,
  Length.encode (length (body codes id)) ++ body codes id,
  new_from_vec-made codes id valid,
  encode-body codes id room,
  rw (append_assoc (Length.encode (length (body codes id))) (body codes id) rest)
      (read_body e codes id rest valid fits room),
)
