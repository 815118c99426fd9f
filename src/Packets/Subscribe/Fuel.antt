-- ===== src/Packets/Subscribe/Fuel.antt =====
-- common/packets/src/subscribe/decoding.rs: the fuel of the loop that reads the filters.
use t1_tp.Common.{
  ℕ, suc, zero, ◌+◌, ◌*◌, ◌≤◌, ◌≡◌, refl, inl, inr, List, [], ◌∷◌, length, arith, some,
  Option-cases, length-drop,
}
use t1_tp.Packets.Stream.{read_byte}
use t1_tp.Packets.Field.{new_from_stream}
use t1_tp.Packets.Subscribe.{read_topics}

-- A field takes at least the two bytes of its length.
pub new_from_stream-length :
    (bytes value rest : List ℕ)
    → new_from_stream bytes ≡ some (value, rest)
    → 2 + length rest ≤ length bytes
unfolding new_from_stream
new_from_stream-length [] value rest h = cc
new_from_stream-length (hi ∷ []) value rest h = cc
new_from_stream-length (hi ∷ lo ∷ bytes) value rest h =
    ground (arith, length-drop (hi * 256 + lo) bytes)

-- Any fuel that is no less than the number of bytes gives the same filters, or the same error.
pub read_topics_enough :
    (fuel more : ℕ) (bytes : List ℕ)
    → length bytes ≤ fuel
    → length bytes ≤ more
    → read_topics fuel bytes ≡ read_topics more bytes
unfolding read_topics read_byte
read_topics_enough zero zero bytes hf hm = refl
read_topics_enough zero (suc more) [] hf hm = unfold new_from_stream in refl
read_topics_enough zero (suc more) (b ∷ bytes) hf hm = absurd (omega arith)
read_topics_enough (suc fuel) zero [] hf hm = unfold new_from_stream in refl
read_topics_enough (suc fuel) zero (b ∷ bytes) hf hm = absurd (omega arith)
read_topics_enough (suc fuel) (suc more) bytes hf hm = elim (Option-cases (new_from_stream bytes)) [
  | inl absent ↦ rw (absent, read_topics)
  | inr ((field, []), present) ↦ rw (present, read_topics, read_byte)
  | inr ((field, b ∷ rest), present) ↦
      let shorter : 3 + length rest ≤ length bytes =
        omega (arith, new_from_stream-length bytes field (b ∷ rest) present) in
      rw (
        present,
        read_topics,
        read_byte,
        read_topics_enough fuel more rest (omega arith) (omega arith),
      )
]
