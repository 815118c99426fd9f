-- ===== src/Packets/Field.antt =====
-- common/packets/src/utf8.rs: a text with its length in two bytes before it. A Rust `String` is the
-- list of its bytes, which are UTF-8.
pub mod Laws
use t1_tp.Common.{
  ℕ, ◌+◌, ◌*◌, ◌/◌, ◌%◌, ◌^◌, Bool, true, false, ◌&&◌, List, [], ◌∷◌, length, take, drop, leb, ltb,
  ◌==◌, if◌then◌else◌, Option, none, some,
}
use t1_tp.Packets.Error.{PacketResult, ok, err, other}

abbrev pub max_field_len : ℕ
max_field_len = 65535

-- Where a scan of UTF-8 stands: between two characters, or with so many bytes of one still due,
-- the next of them in a range that the first byte narrows; `broken` has seen an ill-formed byte.
pub data Scan : Type 0 where
  start due1 due2 due3 after_e0 after_ed after_f0 after_f4 broken : Scan

abbrev in_range : ℕ → ℕ → ℕ → Bool
in_range lo hi b = leb lo b && leb b hi

-- The state behind the first byte of a character.
pub scan_first : ℕ → Scan
scan_first b =
    if ltb b 128
    then start
    else if in_range 194 223 b
    then due1
    else if b == 224
    then after_e0
    else if b == 237
    then after_ed
    else if in_range 225 239 b
    then due2
    else if b == 240
    then after_f0
    else if b == 244
    then after_f4
    else if in_range 241 243 b
    then due3
    else broken

pub scan_step : Scan → ℕ → Scan
unfolding scan_first
scan_step start b = scan_first b
scan_step due1 b = if in_range 128 191 b then start else broken
scan_step due2 b = if in_range 128 191 b then due1 else broken
scan_step due3 b = if in_range 128 191 b then due2 else broken
scan_step after_e0 b = if in_range 160 191 b then due1 else broken
scan_step after_ed b = if in_range 128 159 b then due1 else broken
scan_step after_f0 b = if in_range 144 191 b then due2 else broken
scan_step after_f4 b = if in_range 128 143 b then due2 else broken
scan_step broken b = broken

pub scan : Scan → List ℕ → Scan
unfolding scan_step
scan s [] = s
scan s (b ∷ bytes) = scan (scan_step s b) bytes

pub is_start : Scan → Bool
is_start start = true
is_start _ = false

-- Whether `std::str::from_utf8` accepts the bytes (the well-formed sequences of Unicode).
unfoldable pub is_utf8 : List ℕ → Bool
unfolding scan is_start
is_utf8 bytes = is_start (scan start bytes)

-- `Field::new_from_string`: the field is its value.
unfoldable pub new_from_string : List ℕ → PacketResult (List ℕ)
new_from_string value = if ltb max_field_len (length value) then err other else ok value

-- `Field::new_from_stream`, on a cursor.
unfoldable pub new_from_stream : List ℕ → Option (List ℕ × List ℕ)
new_from_stream (hi ∷ lo ∷ bytes) =
    let size = hi * 256 + lo in
    if leb size (length bytes)
    then (if is_utf8 (take size bytes) then some (take size bytes, drop size bytes) else none)
    else none
new_from_stream _ = none

-- `Field::encode`: bytes 6 and 7 of the eight of a `usize`, then the value.
unfoldable pub encode : List ℕ → List ℕ
encode value = (length value / 2 ^ 8 % 256) ∷ (length value % 256) ∷ value
