-- ===== src/Server/Client/Reachable.antt =====
-- server/src/client/mod.rs: the sessions that the operations reach from a new one.
use t1_tp.Common.{
  ℕ, ◌≡◌, refl, inl, inr, Bool, true, not, ◌&&◌, ◌||◌, List, [], ◌∷◌, All, All-append, Option, none,
  some, arith, same_text, Bool-cases,
}
use t1_tp.Packets.Header.{QosLevel, qos_level0, qos_level1, qos_level2, same_qos}
use t1_tp.Packets.Publish.{Publish, set_dup}
use t1_tp.Packets.Publish.Encoding
use t1_tp.Packets.Publish.Shape.{IsIdentified}
use t1_tp.Packets.Connect.{Connect}
use t1_tp.Packets.Acks.{Puback}
use t1_tp.Server.Result.{panic}
use t1_tp.Server.Client.{
  StreamIo, NetworkConnection, Client, new, connected, send_packet, disconnect, reconnect,
  acknowledge, send_unacknowledged, send_publish,
}
use t1_tp.Server.Client.Queue.{
  is_due, is_ahead, IsWaiting, without_first, without_first-All, succeeds, disconnect-queue,
  reconnect-queue, acknowledge-queue, send_unacknowledged-queue, send_publish-queue,
}

-- One operation on a session. What is published has an identifier above level 0.
pub data Step {S I : Type 0} (io : StreamIo S) : Client S I → Client S I → Type 0 where
  published :
      (p : Publish) (now : ℕ) (c : Client S I)
      → IsIdentified p.qos p.packet_id
      → Step io c (send_publish io p now c).1
  acknowledged : (p : Puback) (c : Client S I) → Step io c (acknowledge io p c).1
  resent :
      (least : Option ℕ) (now : ℕ) (c : Client S I)
      → Step io c (send_unacknowledged io least now c).1
  left :
      (gracefully : Bool) (random : ℕ) (c : Client S I)
      → Step io c (disconnect io gracefully random c).1
  returned :
      (connect : Connect) (conn : NetworkConnection S I) (random : ℕ) (c : Client S I)
      → Step io c (reconnect io connect conn random c).1

pub data Reached {S I : Type 0} (io : StreamIo S) : Client S I → Type 0 where
  begun : (connect : Connect) (conn : NetworkConnection S I) → Reached io (new connect conn)
  stepped : (c c' : Client S I) → Reached io c → Step io c c' → Reached io c'

identified_at_1 :
    (q : QosLevel) (id : Option ℕ)
    → IsIdentified q id
    → same_qos q qos_level1 ≡ true
    → (q ≡ qos_level1) × (n : ℕ) × (id ≡ some n)
identified_at_1 qos_level1 none h e = absurd h
identified_at_1 qos_level1 (some n) h e = (refl, n, refl)
identified_at_1 qos_level0 id h e = cc
identified_at_1 qos_level2 id h e = cc

IsWaiting-at_1 :
    (p : Publish) (now : ℕ)
    → IsIdentified p.qos p.packet_id
    → same_qos p.qos qos_level1 ≡ true
    → IsWaiting (now, set_dup p true)
IsWaiting-at_1 p now h e =
    let (level, n, id) = identified_at_1 p.qos p.packet_id h e in (level, refl, n, id)

module _ {S I : Type 0} (io : StreamIo S) where
  resent_waits :
      (least : Option ℕ) (now : ℕ) (c : Client S I) (queue : List (ℕ × Publish))
      → c.unacknowledged ≡ queue
      → All IsWaiting queue
      → All IsWaiting (send_unacknowledged io least now c).1.unacknowledged
  resent_waits least now c [] e w =
      unfold send_unacknowledged in rw (e, send_unacknowledged) (rw e tt)
  resent_waits least now c ((time, p) ∷ more) e w =
      let (gone_back, due, early) = send_unacknowledged-queue io least now time p more c e in
      elim (Bool-cases (is_ahead least now time)) [
        | inl ahead ↦ rw ((gone_back ahead).1) w.1
        | inr punctual ↦ elim (Bool-cases (is_due least now time)) [
          | inr waiting ↦ rw ((early punctual waiting).1) w
          | inl over ↦
              elim (Bool-cases (
                succeeds
                  (send_packet io (Encoding.encode p) (record c { unacknowledged = more })).0)) [
                    | inl sent ↦ rw ((due punctual over).1, sent) w
                    | inr failed ↦ rw ((due punctual over).1, failed) w.1
                  ]
        ]
      ]

  step_waits :
      (c c' : Client S I)
      → Step io c c'
      → All IsWaiting c.unacknowledged
      → All IsWaiting c'.unacknowledged
  step_waits _ _ (published p now c h) w =
      elim (Bool-cases (
        same_qos p.qos qos_level1
        && (not (connected c) || succeeds (send_packet io (Encoding.encode p) c).0))) [
          | inl kept ↦
              rw (send_publish-queue io p now c, kept)
                (All-append IsWaiting c.unacknowledged _ w
                  (IsWaiting-at_1 p now h (ground arith), tt))
          | inr passed ↦ rw (send_publish-queue io p now c, passed) w
        ]
  step_waits _ _ (acknowledged p c) w =
      rw ((acknowledge-queue io p c w).1)
        (without_first-All IsWaiting p.packet_id c.unacknowledged w)
  step_waits _ _ (resent least now c) w = resent_waits least now c c.unacknowledged refl w
  step_waits _ _ (left gracefully random c) w = rw (disconnect-queue io gracefully random c) w
  step_waits _ _ (returned connect conn random c) w =
      elim (Bool-cases (same_text c.id connect.client_id && connect.clean_session)) [
        | inl dropped ↦ rw (reconnect-queue io connect conn random c, dropped) tt
        | inr kept ↦ rw (reconnect-queue io connect conn random c, kept) w
      ]

  -- In every session that is reached from a new one, each packet of the queue is at level 1, is marked
  -- as sent before and has an identifier.
  pub Reached-waits : (c : Client S I) → Reached io c → All IsWaiting c.unacknowledged
  unfolding new
  Reached-waits _ (begun connect conn) = tt
  Reached-waits _ (stepped c c' r s) = step_waits c c' s (Reached-waits c r)

  -- In every session that is reached from a new one, acknowledging a packet does not panic and removes
  -- the first packet with the identifier from the queue.
  pub Reached-acknowledge :
      (c : Client S I) (p : Puback)
      → Reached io c
      → (¬ ((acknowledge io p c).0 ≡ panic))
        × ((acknowledge io p c).1.unacknowledged ≡ without_first p.packet_id c.unacknowledged)
  Reached-acknowledge c p r = acknowledge-queue io p c (Reached-waits c r)
