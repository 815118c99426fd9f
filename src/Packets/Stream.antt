-- ===== src/Packets/Stream.antt =====
-- What the packets use of `std::io::Read`. A stream is the list of the bytes that it still gives,
-- with the error that it answers when those are used up; for a `Cursor` that is end of file.
pub mod Laws
use t1_tp.Common.{ℕ, ◌+◌, ◌*◌, ◌/◌, ◌%◌, List, [], ◌∷◌, length, take, drop, leb, if◌then◌else◌}
use t1_tp.Packets.Error.{IoError, PacketResult, ok, err, from_io_error}

-- `stream.read_exact(&mut buf)?` with a buffer of `n` bytes: the buffer and the bytes left.
unfoldable pub read_exact : IoError → ℕ → List ℕ → PacketResult (List ℕ × List ℕ)
read_exact e n bytes =
    if leb n (length bytes) then ok (take n bytes, drop n bytes) else err (from_io_error e)

-- `read_exact` with a buffer of one byte.
unfoldable pub read_byte : IoError → List ℕ → PacketResult (ℕ × List ℕ)
read_byte e [] = err (from_io_error e)
read_byte e (b ∷ rest) = ok (b, rest)

-- `read_exact` with a buffer of two bytes, and `u16::from_be_bytes` of it.
unfoldable pub read_u16 : IoError → List ℕ → PacketResult (ℕ × List ℕ)
read_u16 e (hi ∷ lo ∷ rest) = ok (hi * 256 + lo, rest)
read_u16 e _ = err (from_io_error e)

-- `to_be_bytes` of a `u16`.
abbrev pub be_bytes : ℕ → List ℕ
be_bytes n = (n / 256 % 256) ∷ (n % 256) ∷ []

-- `let _ = bytes.read_exact(&mut buf); u16::from_be_bytes(buf)` on a cursor, where `buf` starts
-- as two zeros: too short a cursor leaves the buffer and the cursor as they were.
unfoldable pub read_u16_or_zero : List ℕ → ℕ × List ℕ
read_u16_or_zero (hi ∷ lo ∷ rest) = (hi * 256 + lo, rest)
read_u16_or_zero bytes = (0, bytes)
