-- ===== src/Server/Client/Queue.antt =====
-- server/src/client/mod.rs: the queue of the packets that a client has not acknowledged.
use t1_tp.Common.{
  ◌-◌, ◌||◌, same_text, ◌&&◌, Option-cases, Bool-cases, ℕ, ◌≡◌, refl, inl, inr, Bool, true, false,
  not, List, [], ◌∷◌, ◌++◌, All, Option, none, some, if◌then◌else◌, arith, ◌==◌, ltb,
}
use t1_tp.Packets.Header.{qos_level1, same_qos}
use t1_tp.Packets.Publish.{Publish, set_dup}
use t1_tp.Packets.Publish.Encoding
use t1_tp.Packets.Connect.{Connect}
use t1_tp.Packets.Acks.{Puback}
use t1_tp.Server.Result.{ServerResult, ok, err, panic}
use t1_tp.Server.Client.{
  from_packet_error, IoError, PacketResult, StreamIo, NetworkConnection, Client, connected,
  remove_acknowledged, on_stream, send_packet, disconnect, reconnect, acknowledge, resend,
  send_unacknowledged, send_publish, rest_when_empty, wait_for, check_reconnect_id,
}

-- What waits for its acknowledgement: a packet of level 1 with an identifier, marked as sent before.
abbrev pub IsWaiting : ℕ × Publish → Type 0
IsWaiting (time, publish) =
    (publish.qos ≡ qos_level1)
    × (publish.dup_flag ≡ true)
    × (id : ℕ) × (publish.packet_id ≡ some id)

abbrev pub waits : ℕ → Publish → Bool
waits id publish = elim publish.packet_id [ none ↦ false | some n ↦ id == n ]

-- The queue without the first packet that has the identifier
abbrev pub without_first : ℕ → List (ℕ × Publish) → List (ℕ × Publish)
without_first id [] = []
without_first id ((time, publish) ∷ more) =
    if waits id publish then more else (time, publish) ∷ without_first id more

remove_acknowledged-without_first :
    (id : ℕ) (queue : List (ℕ × Publish))
    → All IsWaiting queue
    → remove_acknowledged id queue ≡ ok (without_first id queue)
unfolding remove_acknowledged
remove_acknowledged-without_first id [] h = refl
remove_acknowledged-without_first id ((time, publish) ∷ more) (h, hs) =
    rw (h.3, remove_acknowledged, remove_acknowledged-without_first id more hs) (ground arith)

pub without_first-All :
    (P : ℕ × Publish → Type 0) (id : ℕ) (queue : List (ℕ × Publish))
    → All P queue
    → All P (without_first id queue)
without_first-All P id [] h = h
without_first-All P id ((time, publish) ∷ more) h = elim (Bool-cases (waits id publish)) [
  | inl e ↦ rw e h.1
  | inr e ↦ rw e (h.0, without_first-All P id more h.1)
]

abbrev pub succeeds : ServerResult (Unit {0}) → Bool
succeeds (ok _) = true
succeeds _ = false

-- Whether the time since the last sending is over.
abbrev pub is_due : Option ℕ → ℕ → ℕ → Bool
is_due none now time = true
is_due (some least) now time = ltb least (now - time)

-- Whether a time is asked for and the last sending lies ahead of the clock.
abbrev pub is_ahead : Option ℕ → ℕ → ℕ → Bool
is_ahead none now time = false
is_ahead (some least) now time = ltb now time

module _ {S I : Type 0} (io : StreamIo S) where
  pub on_stream-queue :
      (operation : S → Option IoError × S) (c : Client S I)
      → (on_stream io operation c).1.unacknowledged ≡ c.unacknowledged
  unfolding on_stream
  on_stream-queue operation c = ground arith

  written :
      (encoded : PacketResult (List ℕ)) (c : Client S I)
      → (elim encoded as (λ r. ServerResult (Unit {0}) × Client S I) [
        | PacketResult.ok bytes ↦ on_stream io (λ s. io.write_all s bytes) c
        | PacketResult.err kind ↦ (err (from_packet_error kind), c)
        | PacketResult.panic ↦ (panic, c)
      ]).1.unacknowledged
        ≡ c.unacknowledged
  written (PacketResult.ok bytes) c = on_stream-queue (λ s. io.write_all s bytes) c
  written (PacketResult.err kind) c = refl
  written PacketResult.panic c = refl

  rest_when_empty-queue :
      (c : Client S I)
      → (¬ ((rest_when_empty io c).0 ≡ panic))
        × ((rest_when_empty io c).1.unacknowledged ≡ c.unacknowledged)
  unfolding rest_when_empty on_stream
  rest_when_empty-queue c = (λ h. ground arith, ground arith)

  wait_for-queue :
      (publish : Publish) (now : ℕ) (c : Client S I)
      → (wait_for io publish now c).1.unacknowledged ≡ (
          if same_qos publish.qos qos_level1
          then c.unacknowledged ++ ((now, set_dup publish true) ∷ [])
          else c.unacknowledged)
  unfolding wait_for on_stream
  wait_for-queue publish now c = ground arith

  pub send_packet-queue :
      (encoded : PacketResult (List ℕ)) (c : Client S I)
      → (send_packet io encoded c).1.unacknowledged ≡ c.unacknowledged
  unfolding send_packet
  send_packet-queue encoded c = elim (Option-cases c.connection) [
    | inl none_left ↦ rw (none_left, send_packet)
    | inr (connection, present) ↦ rw (present, send_packet) (written encoded c)
  ]

  pub disconnect-queue :
      (gracefully : Bool) (random : ℕ) (c : Client S I)
      → (disconnect io gracefully random c).1.unacknowledged ≡ c.unacknowledged
  unfolding disconnect
  disconnect-queue gracefully random c = ground arith

  -- A session keeps its queue over a new connection, but for a CONNECT packet of its own client that
  -- asks for a clean session.
  pub reconnect-queue :
      (new_connect : Connect) (conn : NetworkConnection S I) (random : ℕ) (c : Client S I)
      → (reconnect io new_connect conn random c).1.unacknowledged ≡ (
          if same_text c.id new_connect.client_id && new_connect.clean_session
          then []
          else c.unacknowledged)
  unfolding reconnect check_reconnect_id
  reconnect-queue new_connect conn random c = ground (
    arith,
    disconnect-queue false random c,
    disconnect-queue false random (record c { unacknowledged = [] }),
  )

  -- Where all of the queue waits, an acknowledgement removes the first packet with its identifier and
  -- does not panic.
  pub acknowledge-queue :
      (puback : Puback) (c : Client S I)
      → All IsWaiting c.unacknowledged
      → (¬ ((acknowledge io puback c).0 ≡ panic))
        × ((acknowledge io puback c).1.unacknowledged
            ≡ without_first puback.packet_id c.unacknowledged)
  unfolding acknowledge
  acknowledge-queue puback c h =
      rw (remove_acknowledged-without_first puback.packet_id c.unacknowledged h, acknowledge)
        (rest_when_empty-queue
          (record c { unacknowledged = without_first puback.packet_id c.unacknowledged }))

  resend-queue :
      (now : ℕ) (publish : Publish) (c : Client S I)
      → (resend io now publish c).1.unacknowledged ≡ (
          if succeeds (resend io now publish c).0
          then (now, publish) ∷ c.unacknowledged
          else c.unacknowledged)
  unfolding resend
  resend-queue now publish c = ground (arith, send_packet-queue (Encoding.encode publish) c)

  -- The first packet of the queue is sent when its time is over, or when no time is given. When that
  -- sending succeeds the packet stays first, with the time of it, and when it fails the packet is gone. A
  -- packet that is not due stays as it was, and one whose last sending lies ahead of the clock is gone
  -- with a panic. The rest of the queue stays.
  pub send_unacknowledged-queue :
      (min_elapsed_time : Option ℕ) (now time : ℕ) (publish : Publish) (more : List (ℕ × Publish))
      (c : Client S I)
      → c.unacknowledged ≡ (time, publish) ∷ more
      → let sent = send_packet io (Encoding.encode publish) (record c { unacknowledged = more }) in
        let (result, c') = send_unacknowledged io min_elapsed_time now c in
        (is_ahead min_elapsed_time now time ≡ true → (result ≡ panic) × (c'.unacknowledged ≡ more))
        × (is_ahead min_elapsed_time now time ≡ false
            → is_due min_elapsed_time now time ≡ true
            → (result ≡ sent.0)
              × (c'.unacknowledged ≡ (if succeeds sent.0 then (now, publish) ∷ more else more)))
        × (is_ahead min_elapsed_time now time ≡ false
            → is_due min_elapsed_time now time ≡ false
            → (result ≡ ok tt) × (c'.unacknowledged ≡ (time, publish) ∷ more))
  unfolding send_unacknowledged resend
  send_unacknowledged-queue none now time publish more c e =
      let kept = send_packet-queue (Encoding.encode publish) (record c { unacknowledged = more }) in
      (
        (λ ahead. absurd (ground arith)),
        (λ punctual due. (ground arith, ground arith)),
        λ punctual early. absurd (ground arith),
      )
  send_unacknowledged-queue (some least) now time publish more c e =
      let kept = send_packet-queue (Encoding.encode publish) (record c { unacknowledged = more }) in
      (
        (λ ahead. (ground arith, ground arith)),
        (λ punctual due. (ground arith, ground arith)),
        λ punctual early. (ground arith, ground arith),
      )

  -- A packet of level 1 that is published waits at the end of the queue, marked as sent before, unless
  -- the sending of it fails to a client that is connected; at another level it does not wait.
  pub send_publish-queue :
      (publish : Publish) (now : ℕ) (c : Client S I)
      → let sent = send_packet io (Encoding.encode publish) c in
        (send_publish io publish now c).1.unacknowledged ≡ (
          if same_qos publish.qos qos_level1 && (not (connected c) || succeeds sent.0)
          then c.unacknowledged ++ ((now, set_dup publish true) ∷ [])
          else c.unacknowledged)
  unfolding send_publish
  send_publish-queue publish now c =
      let (result, c') = send_packet io (Encoding.encode publish) c in
      ground (
        arith,
        send_packet-queue (Encoding.encode publish) c,
        wait_for-queue publish now c,
        wait_for-queue publish now c',
      )
