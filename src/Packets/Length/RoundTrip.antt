-- ===== src/Packets/Length/RoundTrip.antt =====
-- common/packets/src/packet_reader.rs: `encode` against `from_encoded`.
use t1_tp.Common.{
  ℕ, zero, suc, ◌+◌, ◌*◌, ◌/◌, ◌%◌, ◌^◌, ◌≤◌, ◌<◌, ◌≡◌, List, [], ◌∷◌, ◌++◌, ltb, if◌then◌else◌,
  arith, bit_or, append_assoc, low_bits, top_bit, set_top_bit,
}
use mathlib.Core.WellFounded.{Acc}
use t1_tp.Packets.Error.{IoError, ok}
use t1_tp.Packets.Length.{
  max_variable_length, from_encoded_loop, from_encoded, encode_loop, encode, lt_wf,
}

-- The groups of seven bits of a number with at most `k + 1` of them, the lowest first.
unfoldable pub groups : ℕ → ℕ → List ℕ
groups zero n = n ∷ []
groups (suc k) n =
    let more = groups k (n / 128) in if ltb n 128 then n ∷ [] else (n % 128 + 128) ∷ more

marked_group : (n : ℕ) → 128 ≤ n → bit_or (n % 128) 128 % 256 ≡ n % 128 + 128
marked_group n h = omega (arith, set_top_bit (n % 128) (omega arith))

encode_loop-groups :
    (k n : ℕ) (w : Acc ◌<◌ n) (out : List ℕ)
    → n < 128 ^ suc k
    → encode_loop n w out ≡ out ++ groups k n
unfolding encode_loop groups
encode_loop-groups zero n (Acc.intro _ smaller) out h = ground arith
encode_loop-groups (suc k) n (Acc.intro _ smaller) out h = grind (
  arith,
  marked_group n,
  λ (w : Acc ◌<◌ (n / 128)).
      encode_loop-groups k (n / 128) w (out ++ ((n % 128 + 128) ∷ [])) (omega arith),
  append_assoc out ((n % 128 + 128) ∷ []) (groups k (n / 128)),
)

pub encode-groups : (n : ℕ) → n ≤ max_variable_length → encode n ≡ groups 3 n
unfolding encode
encode-groups n h = encode_loop-groups 3 n (lt_wf.apply n) [] (omega arith)

module _ (e : IoError) where
  last_group :
      (g m acc : ℕ) (rest : List ℕ)
      → g < 128
      → acc + g * m < 2 ^ 32
      → from_encoded_loop e m acc (g ∷ rest) ≡ ok (acc + g * m, rest)
  unfolding from_encoded_loop
  last_group g m acc rest hg fits = ground (arith, low_bits g, top_bit g)

  inner_group :
      (g m acc : ℕ) (rest : List ℕ)
      → g < 128
      → m ≤ 16384
      → acc + g * m < 2 ^ 32
      → from_encoded_loop e m acc ((g + 128) ∷ rest)
        ≡ from_encoded_loop e (m * 128) (acc + g * m) rest
  unfolding from_encoded_loop
  inner_group g m acc rest hg hm fits = ground (arith, low_bits (g + 128), top_bit (g + 128))

  fourth :
      (n acc : ℕ) (rest : List ℕ)
      → n < 128
      → acc < 2097152
      → from_encoded_loop e 2097152 acc (groups 0 n ++ rest) ≡ ok (acc + n * 2097152, rest)
  unfolding groups
  fourth n acc rest hn ha = last_group n 2097152 acc rest hn (omega arith)

  third :
      (n acc : ℕ) (rest : List ℕ)
      → n < 16384
      → acc < 16384
      → from_encoded_loop e 16384 acc (groups 1 n ++ rest) ≡ ok (acc + n * 16384, rest)
  unfolding groups
  third n acc rest hn ha = ground (
    arith,
    last_group n 16384 acc rest,
    inner_group (n % 128) 16384 acc (groups 0 (n / 128) ++ rest),
    fourth (n / 128) (acc + n % 128 * 16384) rest,
  )

  second :
      (n acc : ℕ) (rest : List ℕ)
      → n < 2097152
      → acc < 128
      → from_encoded_loop e 128 acc (groups 2 n ++ rest) ≡ ok (acc + n * 128, rest)
  unfolding groups
  second n acc rest hn ha = ground (
    arith,
    last_group n 128 acc rest,
    inner_group (n % 128) 128 acc (groups 1 (n / 128) ++ rest),
    third (n / 128) (acc + n % 128 * 128) rest,
  )

  first :
      (n : ℕ) (rest : List ℕ)
      → n ≤ max_variable_length
      → from_encoded_loop e 1 0 (groups 3 n ++ rest) ≡ ok (n, rest)
  unfolding groups
  first n rest hn = ground (
    arith,
    last_group n 1 0 rest,
    inner_group (n % 128) 1 0 (groups 2 (n / 128) ++ rest),
    second (n / 128) (n % 128) rest,
  )

  -- For every length that a packet may have, `from_encoded` returns the length that `encode`
  -- wrote, and leaves the bytes that follow it.
  pub from_encoded-encode :
      (n : ℕ) (rest : List ℕ)
      → n ≤ max_variable_length
      → from_encoded e (encode n ++ rest) ≡ ok (n, rest)
  unfolding from_encoded
  from_encoded-encode n rest h = rw (encode-groups n h) (first n rest h)
