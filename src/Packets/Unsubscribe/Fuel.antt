-- ===== src/Packets/Unsubscribe/Fuel.antt =====
-- common/packets/src/unsubscribe/decoding.rs: the fuel of the loop that reads the filters.
use t1_tp.Common.{
  ℕ, suc, zero, ◌+◌, ◌≤◌, ◌≡◌, refl, inl, inr, List, [], ◌∷◌, length, arith, Option-cases,
}
use t1_tp.Packets.Field.{new_from_stream}
use t1_tp.Packets.Subscribe.Fuel.{new_from_stream-length}
use t1_tp.Packets.Unsubscribe.{read_filters}

-- Any fuel that is no less than the number of bytes gives the same filters of an UNSUBSCRIBE packet, or
-- the same error.
pub read_filters_enough :
    (fuel more : ℕ) (bytes : List ℕ)
    → length bytes ≤ fuel
    → length bytes ≤ more
    → read_filters fuel bytes ≡ read_filters more bytes
unfolding read_filters
read_filters_enough zero zero bytes hf hm = refl
read_filters_enough zero (suc more) [] hf hm = unfold new_from_stream in refl
read_filters_enough zero (suc more) (b ∷ bytes) hf hm = absurd (omega arith)
read_filters_enough (suc fuel) zero [] hf hm = unfold new_from_stream in refl
read_filters_enough (suc fuel) zero (b ∷ bytes) hf hm = absurd (omega arith)
read_filters_enough (suc fuel) (suc more) bytes hf hm =
    elim (Option-cases (new_from_stream bytes)) [
      | inl absent ↦ rw (absent, read_filters)
      | inr ((field, rest), present) ↦
          let shorter : 2 + length rest ≤ length bytes =
            new_from_stream-length bytes field rest present in
          rw (present, read_filters, read_filters_enough fuel more rest (omega arith) (omega arith))
    ]
