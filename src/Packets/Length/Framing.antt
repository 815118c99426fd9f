-- ===== src/Packets/Length/Framing.antt =====
-- common/packets/src/packet_reader.rs: reading the bytes of a packet behind its Remaining Length.
use t1_tp.Common.{
  ℕ, ◌≤◌, ◌≡◌, All, IsByte, List, [], ◌∷◌, ◌++◌, All-take, length-take_le, length, arith,
}
use t1_tp.Packets.Error.{IoError, ok, bind-eq-ok}
use t1_tp.Packets.Stream.{read_exact}
use t1_tp.Packets.Stream.Laws.{read_exact-append}
use t1_tp.Packets.Length.{
  max_variable_length, from_uncoded, from_encoded, from_encoded_loop, encode, read_remaining_bytes,
}
use t1_tp.Packets.Length.Bounds.{from_encoded_bounds, from_encoded-IsByte}
use t1_tp.Packets.Length.RoundTrip.{from_encoded-encode}

pub from_uncoded_fits : (n : ℕ) → n ≤ max_variable_length → from_uncoded n ≡ ok n
unfolding from_uncoded
from_uncoded_fits n h = ground arith

pub read_remaining_bytes-encode :
    (e : IoError) (bytes rest : List ℕ)
    → length bytes ≤ max_variable_length
    → read_remaining_bytes e (encode (length bytes) ++ (bytes ++ rest)) ≡ ok (bytes, rest)
unfolding read_remaining_bytes
read_remaining_bytes-encode e bytes rest h =
    rw (from_encoded-encode e (length bytes) (bytes ++ rest) h) (read_exact-append e bytes rest)

read_exact_bounds :
    (e : IoError) (n : ℕ) (more bytes rest : List ℕ)
    → All IsByte more
    → n ≤ max_variable_length
    → read_exact e n more ≡ ok (bytes, rest)
    → All IsByte bytes × (length bytes ≤ max_variable_length)
unfolding read_exact
read_exact_bounds e n more bytes rest hb hn h =
    ground (arith, All-take IsByte n more hb, length-take_le n more)

-- On bytes, what is read as a packet is bytes, no more than a packet may have.
pub read_remaining_bytes_bounds :
    (e : IoError) (stream bytes rest : List ℕ)
    → All IsByte stream
    → read_remaining_bytes e stream ≡ ok (bytes, rest)
    → All IsByte bytes × (length bytes ≤ max_variable_length)
unfolding read_remaining_bytes
read_remaining_bytes_bounds e stream bytes rest hb h =
    let ((n, more), read, exact) = bind-eq-ok (from_encoded e stream) _ h in
    let bounds = from_encoded_bounds e stream n more hb read in
    let more_bytes = from_encoded-IsByte e stream n more hb read in
    read_exact_bounds e n more bytes rest more_bytes bounds.0 exact

-- A packet of two bytes.
pub read_remaining_bytes_two :
    (e : IoError) (a b : ℕ) (rest : List ℕ)
    → read_remaining_bytes e (2 ∷ a ∷ b ∷ rest) ≡ ok (a ∷ b ∷ [], rest)
unfolding read_remaining_bytes from_encoded from_encoded_loop read_exact
read_remaining_bytes_two e a b rest = ground arith

-- A packet of no bytes.
pub read_remaining_bytes_none :
    (e : IoError) (rest : List ℕ) → read_remaining_bytes e (0 ∷ rest) ≡ ok ([], rest)
unfolding read_remaining_bytes from_encoded from_encoded_loop read_exact
read_remaining_bytes_none e rest = ground arith
