-- ===== src/Server/Loop/Enough.antt =====
-- server/src/server/mod.rs and packet_processing.rs: the loop over the packets of one part ends.
use t1_tp.Common.{
  some, Option, ℕ, zero, suc, ◌≤◌, ◌<◌, ◌≡◌, refl, Bool, true, Bool-cases, Option, some, none, inl,
  inr, List, [], ◌∷◌, length, arith,
}
use t1_tp.Packets.Error.{IoError, PacketResult}
use t1_tp.Packets.Header.{PacketType, type_of_byte, same_type}
use t1_tp.Packets.Publish.Decoding
use t1_tp.Packets.Acks.{read_puback}
use t1_tp.Packets.Subscribe
use t1_tp.Packets.Unsubscribe
use t1_tp.Packets.Empty.{read_ping_req, read_disconnect, encode_ping_resp}
use t1_tp.Topics.Tree.{ClientId}
use t1_tp.Server.Result.{ServerResult, ServerErrorKind, ok, err, panic, Result-cases}
use t1_tp.Server.Action.{Action, pure, lift, of_packet, ◌>>=◌, ◌>>◌}
use t1_tp.Server.Client.{StreamIo, send_packet, acknowledge}
use t1_tp.Server.Processing.{
  Server, handling_publish, handling_subscribe, handling_unsubscribe, execute, on_client,
}
use t1_tp.Server.Processing.Incoming.{
  process_type, process_packet_given_control_byte, process_packet,
}
use t1_tp.Server.Loop.{ServerErrorKind, ServerResult, read_packets}
use t1_tp.Server.Loop.Fuel.{
  read_empty-length, read_puback-length, read_unsubscribe-length, read_subscribe-length,
  read_publish-length,
}

-- What the loop over the packets of a part answers, with the server behind it.
abbrev pub Answer : Type 0 → Type 0 → Type 0 → Type 0
Answer S I L = ServerResult (Bool × Option ServerErrorKind) × Server S I L

module _ {S I L : Type 0} where
  -- An answer to a packet that is read leaves the bytes behind it.
  answered-length :
      {A : Type 0} (n : ℕ) (r : PacketResult (A × List ℕ))
      (k : A → Action (Server S I L) (Unit {0})) (s : Server S I L) (rest : List ℕ)
      → ((a : A) → (rest' : List ℕ) → r ≡ PacketResult.ok (a, rest') → length rest' ≤ n)
      → ((lift (of_packet r) >>= λ x. k x.0 >> pure x.1) s).0 ≡ ok rest
      → length rest ≤ n
  answered-length n (PacketResult.ok (a, rest')) k s rest h e = elim (Result-cases (k a s).0) [
    | inl (b, done) ↦ ground (arith, h a rest' refl)
    | inr failed ↦ ground arith
  ]
  answered-length n (PacketResult.err kind) k s rest h e = cc
  answered-length n PacketResult.panic k s rest h e = cc

module _ {S I L : Type 0} (io : StreamIo S) (e : IoError) where
  process_type-length :
      (t : PacketType) (control_byte : ℕ) (stream : List ℕ) (id : ClientId) (s : Server S I L)
      (rest : List ℕ)
      → (process_type io e t control_byte stream id s).0 ≡ ok rest
      → length rest ≤ length stream
  unfolding process_type read_ping_req read_disconnect
  process_type-length PacketType.publish control_byte stream id s rest h =
      answered-length (length stream) (Decoding.read_from e stream control_byte)
        (λ p. execute (handling_publish p id)) s rest
        (λ a rest' r. read_publish-length e stream control_byte rest' a r) h
  process_type-length PacketType.puback control_byte stream id s rest h =
      answered-length (length stream) (read_puback e stream control_byte)
        (λ p. on_client id (acknowledge io p)) s rest
        (λ a rest' r. read_puback-length e stream control_byte rest' a r) h
  process_type-length PacketType.subscribe control_byte stream id s rest h =
      answered-length (length stream) (Subscribe.read_from e stream control_byte)
        (λ p. execute (handling_subscribe p id)) s rest
        (λ a rest' r. read_subscribe-length e stream control_byte rest' a r) h
  process_type-length PacketType.unsubscribe control_byte stream id s rest h =
      answered-length (length stream) (Unsubscribe.read_from e stream control_byte)
        (λ p. execute (handling_unsubscribe p id)) s rest
        (λ a rest' r. read_unsubscribe-length e stream control_byte rest' a r) h
  process_type-length PacketType.ping_req control_byte stream id s rest h =
      answered-length (length stream) (read_ping_req e stream control_byte)
        (λ _. on_client id (send_packet io encode_ping_resp)) s rest
        (λ a rest' r. read_empty-length e stream control_byte rest' PacketType.ping_req a r) h
  process_type-length PacketType.disconnect control_byte stream id s rest h =
      answered-length (length stream) (read_disconnect e stream control_byte) (λ _. pure tt) s rest
        (λ a rest' r. read_empty-length e stream control_byte rest' PacketType.disconnect a r) h
  process_type-length PacketType.connect control_byte stream id s rest h = cc
  process_type-length PacketType.connack control_byte stream id s rest h = cc
  process_type-length PacketType.pub_rec control_byte stream id s rest h = cc
  process_type-length PacketType.pub_rel control_byte stream id s rest h = cc
  process_type-length PacketType.pub_comp control_byte stream id s rest h = cc
  process_type-length PacketType.suback control_byte stream id s rest h = cc
  process_type-length PacketType.unsuback control_byte stream id s rest h = cc
  process_type-length PacketType.ping_resp control_byte stream id s rest h = cc

  -- A packet that is processed takes at least one byte.
  process_packet-length :
      (stream : List ℕ) (id : ClientId) (s : Server S I L) (t : PacketType) (rest : List ℕ)
      → (process_packet io e stream id s).0 ≡ ok (t, rest)
      → length rest < length stream
  unfolding process_packet process_packet_given_control_byte
  process_packet-length [] id s t rest h = cc
  process_packet-length (b ∷ stream) id s t rest h =
      elim (Result-cases (of_packet (type_of_byte b))) [
        | inl (t', typed) ↦ elim (Result-cases (process_type io e t' b stream id s).0) [
          | inl (r, done) ↦ ground (arith, process_type-length t' b stream id s r done)
          | inr failed ↦ ground arith
        ]
        | inr failed ↦ ground arith
      ]

  -- With any fuel that is more than the number of the bytes the loop has this answer.
  abbrev pub Answers : Bool → List ℕ → ClientId → Server S I L → Answer S I L → Type 0
  Answers active bytes id s answer =
      (fuel : ℕ) → length bytes < fuel → read_packets io fuel e active bytes id s ≡ some answer

  with_fuel :
      (active : Bool) (bytes : List ℕ) (id : ClientId) (s : Server S I L) (answer : Answer S I L)
      → ((fuel : ℕ)
          → length bytes < suc fuel
          → read_packets io (suc fuel) e active bytes id s ≡ some answer)
      → Answers active bytes id s answer
  with_fuel active bytes id s answer h zero room = absurd (omega arith)
  with_fuel active bytes id s answer h (suc fuel) room = h fuel room

  -- A packet behind which the loop is over, or goes on with fewer bytes
  goes_on :
      (r : ServerResult (PacketType × List ℕ)) (active : Bool) (bytes : List ℕ) (id : ClientId)
      (s : Server S I L)
      → (process_packet io e bytes id s).0 ≡ r
      → ((t : PacketType) (rest : List ℕ)
          → r ≡ ok (t, rest)
          → (answer : Answer S I L) × Answers true rest id
              (process_packet io e bytes id s).1
              answer)
      → ((t : PacketType) (rest : List ℕ) → r ≡ ok (t, rest) → length rest < length bytes)
      → (answer : Answer S I L) × Answers active bytes id s answer
  unfolding read_packets
  goes_on (err kind) active bytes id s h later shorter = (
    (ok (active, some kind), (process_packet io e bytes id s).1),
    with_fuel active bytes id s _ λ fuel room. ground arith,
  )
  goes_on panic active bytes id s h later shorter = (
    (panic, (process_packet io e bytes id s).1),
    with_fuel active bytes id s _ λ fuel room. ground arith,
  )
  goes_on (ok (t, rest)) active bytes id s h later shorter =
      elim (Bool-cases (same_type t PacketType.disconnect)) [
        | inl leaves ↦ (
          (ok (true, none), (process_packet io e bytes id s).1),
          with_fuel active bytes id s _ λ fuel room. ground arith,
        )
        | inr stays ↦
            let (answer, same) = later t rest refl in
            let fewer = shorter t rest refl in
            (
              answer,
              with_fuel active bytes id s answer
                  λ fuel room. let again = same fuel (omega arith) in ground arith,
            )
      ]

  ends_within :
      (m : ℕ) (active : Bool) (bytes : List ℕ) (id : ClientId) (s : Server S I L)
      → length bytes < m
      → (answer : Answer S I L) × Answers active bytes id s answer
  ends_within zero active bytes id s room = absurd (omega arith)
  ends_within (suc m) active bytes id s room =
      let shorter = process_packet-length bytes id s in
      goes_on (process_packet io e bytes id s).0 active bytes id s refl
        (λ t rest done.
          let fewer = shorter t rest done in
          ends_within m true rest id (process_packet io e bytes id s).1 (omega arith))
        shorter

  -- The loop over the packets of a part comes to an end: it has one answer, with one server behind it, and
  -- has it with any fuel that is more than the number of the bytes. The fuel is not used up.
  pub read_packets_enough :
      (active : Bool) (bytes : List ℕ) (id : ClientId) (s : Server S I L)
      → (answer : Answer S I L) × Answers active bytes id s answer
  read_packets_enough active bytes id s =
      ends_within (suc (length bytes)) active bytes id s (omega arith)
