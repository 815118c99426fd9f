-- ===== src/Server/Loop/Fuel.antt =====
-- server/src/server/mod.rs and packet_processing.rs: the packets of one part of the input, each of which
-- takes at least one byte.
use t1_tp.Common.{
  ◌⊎◌, length-drop, ◌^◌, ◌%◌, ◌*◌, ℕ, ◌+◌, ◌≤◌, ◌≡◌, refl, false, inl, inr, List, [], ◌∷◌, length,
  drop, arith, bit_and,
}
use t1_tp.Packets.Error.{IoError, PacketResult, bind-eq-ok}
use t1_tp.Packets.Stream.{read_exact}
use t1_tp.Packets.Length.{from_encoded_loop, from_encoded, read_remaining_bytes}
use t1_tp.Packets.Header.{PacketType}
use t1_tp.Packets.Publish.Decoding
use t1_tp.Packets.Acks.{Puback, read_puback}
use t1_tp.Packets.Subscribe.{Subscribe}
use t1_tp.Packets.Subscribe
use t1_tp.Packets.Unsubscribe.{Unsubscribe}
use t1_tp.Packets.Unsubscribe
use t1_tp.Packets.Publish.{Publish}
use t1_tp.Packets.Empty.{read_empty}
use t1_tp.Server.Result.{is_ok}
use t1_tp.Server.Action.{of_packet}

length-drop_le : (n : ℕ) (bytes : List ℕ) → length (drop n bytes) ≤ length bytes
length-drop_le n bytes = omega (arith, length-drop n bytes)

from_encoded_loop-length :
    (e : IoError) (m acc : ℕ) (bytes : List ℕ) (n : ℕ) (rest : List ℕ)
    → from_encoded_loop e m acc bytes ≡ PacketResult.ok (n, rest)
    → length rest ≤ length bytes
unfolding from_encoded_loop
from_encoded_loop-length e m acc [] n rest h = cc
from_encoded_loop-length e m acc (b ∷ bytes) n rest h = ground (
  arith,
  from_encoded_loop-length e (m * 128 % 2 ^ 32) ((acc + bit_and b 127 * m % 2 ^ 32) % 2 ^ 32) bytes
      n rest,
)

read_remaining_bytes-length :
    (e : IoError) (stream bytes after : List ℕ)
    → read_remaining_bytes e stream ≡ PacketResult.ok (bytes, after)
    → length after ≤ length stream
unfolding read_remaining_bytes from_encoded read_exact
read_remaining_bytes-length e stream bytes after h =
    let ((n, rest), encoded, read) =
      bind-eq-ok (from_encoded e stream) (λ (n, rest). read_exact e n rest) h in
    ground (arith, length-drop_le n rest, from_encoded_loop-length e 1 0 stream n rest encoded)

-- A frame is read, and then what is left is no longer than the stream, or it is not read.
remaining-cases :
    (e : IoError) (stream : List ℕ)
    → ((bytes : List ℕ) × (after : List ℕ) × (read_remaining_bytes e stream
          ≡ PacketResult.ok (bytes, after))
        × (length after ≤ length stream))
      ⊎ (is_ok {A = List ℕ × List ℕ} (of_packet (read_remaining_bytes e stream)) ≡ false)
remaining-cases e stream = cases (read_remaining_bytes e stream) refl
  where
    cases :
        (r : PacketResult (List ℕ × List ℕ))
        → read_remaining_bytes e stream ≡ r
        → ((bytes : List ℕ) × (after : List ℕ) × (read_remaining_bytes e stream
              ≡ PacketResult.ok (bytes, after))
            × (length after ≤ length stream))
          ⊎ (is_ok {A = List ℕ × List ℕ} (of_packet (read_remaining_bytes e stream)) ≡ false)
    cases (PacketResult.ok (bytes, after)) h =
        inl (bytes, after, h, read_remaining_bytes-length e stream bytes after h)
    cases (PacketResult.err kind) h = inr (rw h refl)
    cases PacketResult.panic h = inr (rw h refl)

module _ (e : IoError) (stream : List ℕ) (control_byte : ℕ) (rest : List ℕ) where
  pub read_empty-length :
      (t : PacketType) (a : Unit {0})
      → read_empty t e stream control_byte ≡ PacketResult.ok (a, rest)
      → length rest ≤ length stream
  unfolding read_empty
  read_empty-length t a h = elim (remaining-cases e stream) [
    | inl (bytes, after, framed, le) ↦ ground arith
    | inr fails ↦ ground arith
  ]

  pub read_puback-length :
      (a : Puback)
      → read_puback e stream control_byte ≡ PacketResult.ok (a, rest)
      → length rest ≤ length stream
  unfolding read_puback
  read_puback-length a h = elim (remaining-cases e stream) [
    | inl (bytes, after, framed, le) ↦ ground arith
    | inr fails ↦ ground arith
  ]

  pub read_unsubscribe-length :
      (a : Unsubscribe)
      → Unsubscribe.read_from e stream control_byte ≡ PacketResult.ok (a, rest)
      → length rest ≤ length stream
  unfolding Unsubscribe.read_from
  read_unsubscribe-length a h = elim (remaining-cases e stream) [
    | inl (bytes, after, framed, le) ↦ ground arith
    | inr fails ↦ ground arith
  ]

  pub read_subscribe-length :
      (a : Subscribe)
      → Subscribe.read_from e stream control_byte ≡ PacketResult.ok (a, rest)
      → length rest ≤ length stream
  unfolding Subscribe.read_from
  read_subscribe-length a h = elim (remaining-cases e stream) [
    | inl (bytes, after, framed, le) ↦ ground arith
    | inr fails ↦ ground arith
  ]

  pub read_publish-length :
      (a : Publish)
      → Decoding.read_from e stream control_byte ≡ PacketResult.ok (a, rest)
      → length rest ≤ length stream
  unfolding Decoding.read_from
  read_publish-length a h = elim (remaining-cases e stream) [
    | inl (bytes, after, framed, le) ↦ ground arith
    | inr fails ↦ ground arith
  ]
