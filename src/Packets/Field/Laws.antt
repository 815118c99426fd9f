-- ===== src/Packets/Field/Laws.antt =====
-- common/packets/src/utf8.rs: `encode` against `new_from_stream`.
use t1_tp.Common.{
  ℕ, ◌+◌, ◌*◌, ◌/◌, ◌%◌, ◌^◌, ◌≤◌, ◌≡◌, true, List, [], ◌∷◌, ◌++◌, length, some, arith, IsByte, All,
  length-append, length-take_le, take-append, drop-append, take-append-drop,
}
use t1_tp.Packets.Field.{max_field_len, is_utf8, new_from_stream, encode}

-- A text as Rust has it, of a length that a field can carry.
pub record IsField (value : List ℕ) : Type 0 where
  pub fits : length value ≤ max_field_len
  pub utf8 : is_utf8 value ≡ true

-- What `encode` writes of a field is read back, with the bytes that follow it left.
pub new_from_stream-encode :
    (value rest : List ℕ)
    → IsField value
    → new_from_stream (encode value ++ rest) ≡ some (value, rest)
unfolding new_from_stream encode
new_from_stream-encode value rest h =
    let size : length value / 2 ^ 8 % 256 * 256 + length value % 256 ≡ length value = omega arith in
    rw (size, take-append, drop-append) (ground (arith, length-append value rest))

-- A field that is read is a text, its length fits, and the bytes that were read are its encoding.
pub new_from_stream_sound :
    (bytes value rest : List ℕ)
    → All IsByte bytes
    → new_from_stream bytes ≡ some (value, rest)
    → IsField value × (bytes ≡ encode value ++ rest)
unfolding new_from_stream encode
new_from_stream_sound [] value rest hb h = cc
new_from_stream_sound (hi ∷ []) value rest hb h = cc
new_from_stream_sound (hi ∷ lo ∷ bytes) value rest hb h =
    let size = hi * 256 + lo in
    ground (arith, take-append-drop size bytes, length-take_le size bytes)
