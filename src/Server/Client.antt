-- ===== src/Server/Client.antt =====
-- server/src/client/mod.rs: the session of a client, with the packets that it has not acknowledged.
-- An operation gives its result and the session behind it. The stream is a parameter; times are
-- numbers of milliseconds, and the time and the random number that the source asks for are arguments.
pub mod Queue
pub mod Reachable
pub mod Will
use t1_tp.Common.{
  ℕ, zero, suc, ◌+◌, ◌*◌, ◌-◌, ◌==◌, ltb, Bool, true, false, not, List, [], ◌∷◌, ◌++◌, length,
  is_empty, Option, none, some, if◌then◌else◌, same_text,
}
use t1_tp.Packets.Error.{IoError, PacketResult}
use t1_tp.Packets.Header.{qos_level0, qos_level1, same_qos}
use t1_tp.Packets.Filter.{TopicFilter}
use t1_tp.Packets.Publish
use t1_tp.Packets.Publish.{Publish, set_dup}
use t1_tp.Packets.Publish.Encoding
use t1_tp.Packets.Connect.{Connect, LastWill, take_last_will}
use t1_tp.Packets.Acks.{Puback}
use t1_tp.Topics.Tree.{ClientId}
use t1_tp.Server.Result.{
  ServerErrorKind, ServerResult, ok, err, panic, of_io, from_packet_error, client_disconnected,
  irrecoverable,
}

-- What the session uses of a stream (`Write`, `Interrupt` and `Close`): the error, if there is one,
-- and the stream behind it.
pub record StreamIo (S : Type 0) : Type 0 where
  pub write_all : S → List ℕ → Option IoError × S
  pub close : S → Option IoError × S
  pub alert : S → ℕ → Option IoError × S
  pub sleep : S → Option IoError × S

-- `NetworkConnection`
pub record NetworkConnection (S I : Type 0) : Type 0 where
  pub id : I
  pub stream : S

-- `Client`
pub record Client (S I : Type 0) : Type 0 where
  pub id : ClientId
  pub connection : Option (NetworkConnection S I)
  pub connect : Connect
  pub unacknowledged : List (ℕ × Publish)

-- `UNACK_RESENDING_FREQ`, in milliseconds
abbrev pub unack_resending_freq : ℕ
unack_resending_freq = 500

module _ {S I : Type 0} where
  -- `Client::new`
  unfoldable pub new : Connect → NetworkConnection S I → Client S I
  new connect network_connection = record {
    id = connect.client_id;
    connection = some network_connection;
    connect = connect;
    unacknowledged = [];
  }

  -- `Client::connected`
  unfoldable pub connected : Client S I → Bool
  connected c = elim c.connection [ none ↦ false | some connection ↦ true ]

  -- `check_reconnect_id`
  unfoldable pub check_reconnect_id : Client S I → Connect → ServerResult (Unit {0})
  check_reconnect_id c new_connect =
      if not (same_text c.id new_connect.client_id) then err irrecoverable else ok tt

  -- `Client::keep_alive`, in milliseconds
  unfoldable pub keep_alive : Client S I → Option ℕ
  keep_alive c = if c.connect.keep_alive == 0 then none else some (1500 * c.connect.keep_alive)

-- The packet of a last will; `random` is what `rand::random()` gives.
unfoldable pub publish_of_will : LastWill → ℕ → ServerResult (Option Publish)
publish_of_will will random =
    let packet_identifier : Option ℕ =
      if not (same_qos will.topic.qos qos_level0) then some random else none in
    elim (Publish.new false will.topic.qos will.retain_flag will.topic.name will.topic_message
      packet_identifier) [
        | PacketResult.ok publish ↦ ok (some publish)
        | PacketResult.err kind ↦ panic
        | PacketResult.panic ↦ panic
      ]

-- The search of `acknowledge` and the removal of what it finds: the first packet with the identifier
-- goes. A packet without an identifier before it is a panic.
unfoldable pub remove_acknowledged : ℕ → List (ℕ × Publish) → ServerResult (List (ℕ × Publish))
remove_acknowledged packet_id [] = ok []
remove_acknowledged packet_id ((time, publish) ∷ more) =
    let rest = remove_acknowledged packet_id more in
    elim publish.packet_id [
      | none ↦ panic
      | some id ↦ if packet_id == id then ok more else elim rest [
        | ok left ↦ ok ((time, publish) ∷ left)
        | err kind ↦ err kind
        | panic ↦ panic
      ]
    ]

module _ {S I : Type 0} (io : StreamIo S) where
  -- An operation on the stream of the connection, if there is one
  unfoldable pub on_stream :
      (S → Option IoError × S) → Client S I → ServerResult (Unit {0}) × Client S I
  on_stream operation c = elim c.connection [
    | none ↦ (ok tt, c)
    | some connection ↦
        let (e, stream) = operation connection.stream in
        (of_io e, record c { connection = some (record connection { stream = stream }) })
  ]

  -- `Client::send_packet`, with the answer of `packet.encode()`
  unfoldable pub send_packet :
      PacketResult (List ℕ) → Client S I → ServerResult (Unit {0}) × Client S I
  send_packet encoded c = elim c.connection [
    | none ↦ (err client_disconnected, c)
    | some connection ↦ elim encoded [
      | PacketResult.ok bytes ↦ on_stream (λ s. io.write_all s bytes) c
      | PacketResult.err kind ↦ (err (from_packet_error kind), c)
      | PacketResult.panic ↦ (panic, c)
    ]
  ]

  -- `Client::disconnect`: an error at closing leaves the last will.
  unfoldable pub disconnect : Bool → ℕ → Client S I → ServerResult (Option Publish) × Client S I
  disconnect gracefully random c =
      let (closed, _) = on_stream io.close c in
      let alone : Client S I = record c { connection = none } in
      let (last_will, connect) = take_last_will c.connect in
      let silent : Client S I = record alone { connect = connect } in
      elim closed [
        | err kind ↦ (err kind, alone)
        | panic ↦ (panic, alone)
        | ok _ ↦ if gracefully then (ok none, silent) else elim last_will [
          | none ↦ (ok none, silent)
          | some will ↦ (publish_of_will will random, silent)
        ]
      ]

  -- `Client::reconnect`
  unfoldable pub reconnect :
      Connect → NetworkConnection S I → ℕ → Client S I → ServerResult (Option Publish) × Client S I
  reconnect new_connect new_connection random c = elim (check_reconnect_id c new_connect) [
    | err kind ↦ (err kind, c)
    | panic ↦ (panic, c)
    | ok _ ↦
        let kept : Client S I =
          if new_connect.clean_session then record c { unacknowledged = [] } else c in
        let (result, c') = disconnect false random kept in
        elim result [
          | err kind ↦ (err kind, c')
          | panic ↦ (panic, c')
          | ok last_will ↦
              (ok last_will, record c' { connection = some new_connection; connect = new_connect })
        ]
  ]

  -- The end of `acknowledge`: with nothing left to be acknowledged, the stream wakes up after the
  -- keep-alive time, or not at all.
  unfoldable pub rest_when_empty : Client S I → ServerResult (Unit {0}) × Client S I
  rest_when_empty c =
      if is_empty c.unacknowledged
      then elim (keep_alive c) [
        | none ↦ on_stream io.sleep c
        | some time ↦ on_stream (λ s. io.alert s time) c
      ]
      else (ok tt, c)

  -- `Client::acknowledge`
  unfoldable pub acknowledge : Puback → Client S I → ServerResult (Unit {0}) × Client S I
  acknowledge puback c = elim (remove_acknowledged puback.packet_id c.unacknowledged) [
    | err kind ↦ (err kind, c)
    | panic ↦ (panic, c)
    | ok left ↦ rest_when_empty (record c { unacknowledged = left })
  ]

  -- A packet goes out again: it is put back at the front when that succeeds, and only then.
  unfoldable pub resend : ℕ → Publish → Client S I → ServerResult (Unit {0}) × Client S I
  resend now publish c =
      let (result, c') = send_packet (Encoding.encode publish) c in
      elim result [
        | err kind ↦ (err kind, c')
        | panic ↦ (panic, c')
        | ok _ ↦ (ok tt, record c' { unacknowledged = (now, publish) ∷ c'.unacknowledged })
      ]

  -- `Client::send_unacknowledged`. A time that lies ahead of `now` is a panic.
  unfoldable pub send_unacknowledged :
      Option ℕ → ℕ → Client S I → ServerResult (Unit {0}) × Client S I
  send_unacknowledged min_elapsed_time now c = elim c.unacknowledged [
    | [] ↦ (ok tt, c)
    | (last_time_published, publish) ∷ more ↦
        let c' : Client S I = record c { unacknowledged = more } in
        elim min_elapsed_time [
          | none ↦ resend now publish c'
          | some min_elapsed ↦
              if ltb now last_time_published
              then (panic, c')
              else if ltb min_elapsed (now - last_time_published)
              then resend now publish c'
              else (ok tt, c)
        ]
  ]

  -- The end of `send_publish`: a packet of level 1 waits for its acknowledgement.
  unfoldable pub wait_for : Publish → ℕ → Client S I → ServerResult (Unit {0}) × Client S I
  wait_for publish now c =
      let waiting : Client S I = record c {
        unacknowledged = c.unacknowledged ++ ((now, set_dup publish true) ∷ []);
      } in
      if same_qos publish.qos qos_level1
      then if ltb 1 (length waiting.unacknowledged)
        then on_stream (λ s. io.alert s unack_resending_freq) waiting
        else (ok tt, waiting)
      else (ok tt, c)

  -- `Client::send_publish`
  unfoldable pub send_publish : Publish → ℕ → Client S I → ServerResult (Unit {0}) × Client S I
  send_publish publish now c =
      let (result, c') =
        if connected c then send_packet (Encoding.encode publish) c else (ok tt, c) in
      elim result [
        | err kind ↦ (err kind, c')
        | panic ↦ (panic, c')
        | ok _ ↦ wait_for publish now c'
      ]
