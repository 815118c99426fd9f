-- ===== src/Packets/Length/Bounds.antt =====
-- common/packets/src/packet_reader.rs: the bytes of `encode`, and the range of `from_encoded`.
use t1_tp.Common.{
  ℕ, zero, suc, ◌+◌, ◌*◌, ◌%◌, ◌/◌, ◌^◌, ◌≤◌, ◌<◌, ◌≡◌, ◌⊎◌, inl, inr, List, [], ◌∷◌, arith,
  bit_and, low_bits, IsByte, All, length,
}
use t1_tp.Packets.Error.{IoError, ok}
use t1_tp.Packets.Length.{max_variable_length, from_encoded_loop, from_encoded, encode}
use t1_tp.Packets.Length.RoundTrip.{groups, encode-groups}

groups_shape :
    (k n : ℕ)
    → n < 128 ^ suc k
    → All IsByte (groups k n) × (1 ≤ length (groups k n)) × (length (groups k n) ≤ k + 1)
unfolding groups
groups_shape zero n h = omega arith
groups_shape (suc k) n h = ground (arith, groups_shape k (n / 128))

-- For every length that a packet may have, `encode` writes one to four bytes.
pub encode_shape :
    (n : ℕ)
    → n ≤ max_variable_length
    → All IsByte (encode n) × (1 ≤ length (encode n)) × (length (encode n) ≤ 4)
encode_shape n h = rw (encode-groups n h) (groups_shape 3 n (omega arith))

module _ (e : IoError) where
  fourth :
      (acc : ℕ) (bytes : List ℕ) (n : ℕ) (rest : List ℕ)
      → All IsByte bytes
      → acc < 2097152
      → from_encoded_loop e 2097152 acc bytes ≡ ok (n, rest)
      → (n ≤ max_variable_length) × (length bytes ≡ length rest + 1)
  unfolding from_encoded_loop
  fourth acc [] n rest hb ha h = cc
  fourth acc (b ∷ bytes) n rest hb ha h = ground (arith, low_bits b)

  third :
      (acc : ℕ) (bytes : List ℕ) (n : ℕ) (rest : List ℕ)
      → All IsByte bytes
      → acc < 16384
      → from_encoded_loop e 16384 acc bytes ≡ ok (n, rest)
      → (n ≤ max_variable_length) × (length rest < length bytes) × (length bytes ≤ length rest + 2)
  unfolding from_encoded_loop
  third acc [] n rest hb ha h = cc
  third acc (b ∷ bytes) n rest hb ha h =
      ground (arith, low_bits b, fourth (acc + bit_and b 127 * 16384) bytes n rest)

  second :
      (acc : ℕ) (bytes : List ℕ) (n : ℕ) (rest : List ℕ)
      → All IsByte bytes
      → acc < 128
      → from_encoded_loop e 128 acc bytes ≡ ok (n, rest)
      → (n ≤ max_variable_length) × (length rest < length bytes) × (length bytes ≤ length rest + 3)
  unfolding from_encoded_loop
  second acc [] n rest hb ha h = cc
  second acc (b ∷ bytes) n rest hb ha h =
      ground (arith, low_bits b, third (acc + bit_and b 127 * 128) bytes n rest)

  -- On any bytes, a length that `from_encoded` returns is one that a packet may have, and it took
  -- one to four bytes.
  pub from_encoded_bounds :
      (bytes : List ℕ) (n : ℕ) (rest : List ℕ)
      → All IsByte bytes
      → from_encoded e bytes ≡ ok (n, rest)
      → (n ≤ max_variable_length) × (length rest < length bytes) × (length bytes ≤ length rest + 4)
  unfolding from_encoded from_encoded_loop
  from_encoded_bounds [] n rest hb h = cc
  from_encoded_bounds (b ∷ bytes) n rest hb h =
      ground (arith, low_bits b, second (bit_and b 127) bytes n rest)

  -- A round that succeeds ends the loop there, or hands on to the next round.
  from_encoded_loop_step :
      (m acc b : ℕ) (bytes : List ℕ) (n : ℕ) (rest : List ℕ)
      → from_encoded_loop e m acc (b ∷ bytes) ≡ ok (n, rest)
      → (rest ≡ bytes)
        ⊎ (from_encoded_loop e
              (m * 128 % 2 ^ 32)
              ((acc + bit_and b 127 * m % 2 ^ 32) % 2 ^ 32)
              bytes
            ≡ ok (n, rest))
  unfolding from_encoded_loop
  from_encoded_loop_step m acc b bytes n rest h = ground arith

  from_encoded_loop-IsByte :
      (bytes : List ℕ) (m acc n : ℕ) (rest : List ℕ)
      → All IsByte bytes
      → from_encoded_loop e m acc bytes ≡ ok (n, rest)
      → All IsByte rest
  unfolding from_encoded_loop
  from_encoded_loop-IsByte [] m acc n rest hb h = cc
  from_encoded_loop-IsByte (b ∷ bytes) m acc n rest hb h =
      elim (from_encoded_loop_step m acc b bytes n rest h) [
        | inl e ↦ rw e hb.1
        | inr again ↦ from_encoded_loop-IsByte bytes _ _ n rest hb.1 again
      ]

  pub from_encoded-IsByte :
      (bytes : List ℕ) (n : ℕ) (rest : List ℕ)
      → All IsByte bytes
      → from_encoded e bytes ≡ ok (n, rest)
      → All IsByte rest
  unfolding from_encoded
  from_encoded-IsByte bytes n rest = from_encoded_loop-IsByte bytes 1 0 n rest
