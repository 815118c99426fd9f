-- ===== src/Packets/Stream/Laws.antt =====
-- Reading against writing at the front of a stream.
use t1_tp.Common.{
  ℕ, ◌+◌, ◌*◌, ◌/◌, ◌%◌, ◌<◌, ◌≡◌, List, ◌++◌, length, length-append, take-append, drop-append,
  arith,
}
use t1_tp.Packets.Error.{IoError, ok}
use t1_tp.Packets.Stream.{read_exact, read_u16, read_u16_or_zero, be_bytes}

pub read_exact-append :
    (e : IoError) (bytes rest : List ℕ)
    → read_exact e (length bytes) (bytes ++ rest) ≡ ok (bytes, rest)
unfolding read_exact
read_exact-append e bytes rest =
    rw (take-append, drop-append) (ground (arith, length-append bytes rest))

be_value : (n : ℕ) → n < 65536 → n / 256 % 256 * 256 + n % 256 ≡ n
be_value n h = omega arith

pub read_u16-be_bytes :
    (e : IoError) (n : ℕ) (rest : List ℕ)
    → n < 65536
    → read_u16 e (be_bytes n ++ rest) ≡ ok (n, rest)
unfolding read_u16
read_u16-be_bytes e n rest h = rw (be_value n h)

pub read_u16_or_zero-be_bytes :
    (n : ℕ) (rest : List ℕ) → n < 65536 → read_u16_or_zero (be_bytes n ++ rest) ≡ (n, rest)
unfolding read_u16_or_zero
read_u16_or_zero-be_bytes n rest h = rw (be_value n h)
