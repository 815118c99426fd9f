-- ===== src/Packets/Length.antt =====
-- common/packets/src/packet_reader.rs: the Remaining Length of a packet, seven bits to a byte.
pub mod RoundTrip
pub mod Framing
pub mod Bounds
use t1_tp.Common.{
  ℕ, zero, suc, ◌+◌, ◌*◌, ◌/◌, ◌%◌, ◌^◌, ◌<◌, List, [], ◌∷◌, ◌++◌, ltb, ◌==◌, if◌then◌else◌, arith,
  bit_and, bit_or,
}
use mathlib.Core.Bool.{cond}
use mathlib.Core.Logic.{dite}
use mathlib.Core.WellFounded.{Acc, WellFounded}
use native.Mathlib.Decide.{dec_lt}
use t1_tp.Packets.Error.{IoError, PacketResult, ok, err, ◌>>=◌, from_io_error, other}
use t1_tp.Packets.Stream.{read_exact, read_byte}

abbrev pub max_multiplier : ℕ
max_multiplier = 128 * 128 * 128

abbrev pub max_variable_length : ℕ
max_variable_length = 268_435_455

-- `RemainingLength::from_uncoded`; the field `length` is a `u32`.
unfoldable pub from_uncoded : ℕ → PacketResult ℕ
from_uncoded length = if ltb max_variable_length length then err other else ok (length % 2 ^ 32)

-- The loop of `RemainingLength::from_encoded`, over the bytes that are left. The arithmetic is that
-- of `u32`. `read_exact` of one byte is the match on the stream.
unfoldable pub from_encoded_loop : IoError → ℕ → ℕ → List ℕ → PacketResult (ℕ × List ℕ)
unfolding from_io_error
from_encoded_loop e multiplier length [] = err (from_io_error e)
from_encoded_loop e multiplier length (encoded_byte ∷ rest) =
    let length' = (length + bit_and encoded_byte 127 * multiplier % 2 ^ 32) % 2 ^ 32 in
    let multiplier' = multiplier * 128 % 2 ^ 32 in
    let again = from_encoded_loop e multiplier' length' rest in
    if bit_and encoded_byte 128 == 0
    then ok (length', rest)
    else if ltb max_multiplier multiplier'
    then err other
    else again

unfoldable pub from_encoded : IoError → List ℕ → PacketResult (ℕ × List ℕ)
from_encoded e stream = from_encoded_loop e 1 0 stream

pub Acc-below : (k n : ℕ) → n < k → Acc ◌<◌ n
Acc-below zero n h = elim h [ ]
Acc-below (suc k) n h = Acc.intro n (λ m hm. Acc-below k m (omega arith))

unfoldable pub lt_wf : WellFounded ◌<◌
unfolding Acc-below
lt_wf = record { apply = λ n. Acc-below (suc n) n (omega arith) }

pub quotient_shrinks : (n : ℕ) → 0 < n / 128 → n / 128 < n
quotient_shrinks n h = omega arith

-- The loop of `RemainingLength::encode`: it goes on while the quotient is not zero.
unfoldable pub encode_loop : (length : ℕ) → Acc ◌<◌ length → List ℕ → List ℕ
encode_loop length (Acc.intro _ smaller) encoded =
    let encoded_byte = length % 128 in
    dite (dec_lt 0 (length / 128))
      (λ more.
        encode_loop (length / 128) (smaller _ (quotient_shrinks length more))
          (encoded ++ ((bit_or encoded_byte 128 % 256) ∷ [])))
      (λ _. encoded ++ ((encoded_byte % 256) ∷ []))

-- `RemainingLength::encode`
unfoldable pub encode : ℕ → List ℕ
encode length = encode_loop length (lt_wf.apply length) []

-- `read_remaining_bytes`: the bytes of the packet, as a cursor, and what follows it.
unfoldable pub read_remaining_bytes : IoError → List ℕ → PacketResult (List ℕ × List ℕ)
read_remaining_bytes e stream = do
  (remaining_len, rest) ← from_encoded e stream
  read_exact e remaining_len rest
