-- ===== src/Server/Client/Will.antt =====
-- server/src/client/mod.rs: the last will of a client when its session is disconnected.
use t1_tp.Common.{
  ℕ, ◌≡◌, refl, Bool, true, false, not, ◌||◌, List, Option, none, some, if◌then◌else◌, arith,
  contains,
}
use t1_tp.Packets.Header.{QosLevel, qos_level0, qos_level1, qos_level2, same_qos}
use t1_tp.Packets.Publish
use t1_tp.Packets.Publish.{Publish, check_no_wildcards}
use t1_tp.Packets.Connect.{LastWill, take_last_will}
use t1_tp.Server.Result.{ok, panic}
use t1_tp.Server.Client.{StreamIo, Client, on_stream, publish_of_will, disconnect, connected}

-- The packet that a will stands for
abbrev pub will_packet : LastWill → ℕ → Publish
will_packet will random = record {
  packet_id = if not (same_qos will.topic.qos qos_level0) then some random else none;
  topic_name = will.topic.name;
  qos = will.topic.qos;
  retain_flag = will.retain_flag;
  dup_flag = false;
  payload = will.topic_message;
}

pub will_at :
    (q : QosLevel) (retain : Bool) (name message : List ℕ) (random : ℕ)
    → let will : LastWill = record {
      retain_flag = retain;
      topic = record { name = name; qos = q };
      topic_message = message;
    } in
      publish_of_will will random ≡ (
        if contains b'+' name || contains b'#' name
        then panic
        else ok (some (will_packet will random)))
unfolding publish_of_will Publish.new check_no_wildcards
will_at qos_level0 retain name message random = ground arith
will_at qos_level1 retain name message random = ground arith
will_at qos_level2 retain name message random = ground arith

module _ {S I : Type 0} (io : StreamIo S) where
  disconnect_closed :
      (gracefully : Bool) (random : ℕ) (c : Client S I)
      → (on_stream io io.close c).0 ≡ ok tt
      → (will : LastWill) → c.connect.last_will ≡ some will
      → (disconnect io gracefully random c).0
        ≡ (if gracefully then ok none else publish_of_will will random)
  unfolding disconnect take_last_will
  disconnect_closed gracefully random c closed will present = ground arith

  -- When the connection of a client with a last will is closed without an error, or it has none any more,
  -- its will is given to be published exactly when the client did not disconnect by itself; the server
  -- panics instead if the topic of the will has a wildcard.
  pub disconnect-publish_of_will :
      (gracefully : Bool) (random : ℕ) (c : Client S I) (will : LastWill)
      → (on_stream io io.close c).0 ≡ ok tt
      → c.connect.last_will ≡ some will
      → (disconnect io gracefully random c).0 ≡ (
          if gracefully
          then ok none
          else if contains b'+' will.topic.name || contains b'#' will.topic.name
          then panic
          else ok (some (will_packet will random)))
  disconnect-publish_of_will gracefully random c will closed present = rw (
    disconnect_closed gracefully random c closed will present,
    will_at will.topic.qos will.retain_flag will.topic.name will.topic_message random,
  )

  silent : Client S I → Client S I
  silent c = record c { connection = none; connect = record c.connect { last_will = none } }

  disconnect-silent :
      (again : Bool) (random : ℕ) (c : Client S I)
      → (disconnect io again random (silent c)).0 ≡ ok none
  unfolding disconnect take_last_will on_stream silent
  disconnect-silent true random c = refl
  disconnect-silent false random c = refl

  disconnect_leaves :
      (gracefully : Bool) (random : ℕ) (c : Client S I) (sent : Option Publish)
      → (disconnect io gracefully random c).0 ≡ ok sent
      → (disconnect io gracefully random c).1 ≡ silent c
  unfolding disconnect take_last_will silent
  disconnect_leaves gracefully random c sent h = ground arith

  -- Behind a disconnection that did not fail a session is not connected, and the next disconnection
  -- publishes no will.
  pub disconnect-disconnect :
      (gracefully again : Bool) (random next : ℕ) (c : Client S I) (sent : Option Publish)
      → (disconnect io gracefully random c).0 ≡ ok sent
      → (connected (disconnect io gracefully random c).1 ≡ false)
        × ((disconnect io again next (disconnect io gracefully random c).1).0 ≡ ok none)
  unfolding connected silent
  disconnect-disconnect gracefully again random next c sent h =
      rw (disconnect_leaves gracefully random c sent h) (refl, disconnect-silent again next c)
