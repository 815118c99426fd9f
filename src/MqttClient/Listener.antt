-- ===== src/MqttClient/Listener.antt =====
-- mqtt_client/src/client/client_listener.rs: the thread that reads what the server sends. The packets
-- that it asks its pool to acknowledge are the list of their identifiers.
pub mod Answers
pub mod Handling
pub mod Pending
use t1_tp.Common.{
  ℕ, zero, suc, ◌+◌, ◌/◌, ◌==◌, Bool, true, false, ◌||◌, List, [], ◌∷◌, ◌++◌, drop, length, Option,
  none, some, if◌then◌else◌,
}
use t1_tp.Packets.Error.{ErrorKind, IoError, PacketResult, would_block_io}
use t1_tp.Packets.Header.{PacketType}
use t1_tp.Packets.Publish.{Publish}
use t1_tp.Packets.Publish.Decoding
use t1_tp.Packets.Connack
use t1_tp.Packets.Connack.{Connack}
use t1_tp.Packets.Acks.{Puback, Unsuback, read_puback, read_unsuback}
use t1_tp.Packets.Acks
use t1_tp.Packets.Suback.{Suback}
use t1_tp.Packets.Suback
use t1_tp.Packets.Empty.{read_ping_resp}
use t1_tp.MqttClient.{
  ClientError, ClientResult, ok, err, panic, of_packet, of_io, unsupported_packet_type,
  publish_without_id, PendingAck, subscribe, unsubscribe, ping_req, publish, connect, Message,
  connected, subscribed, unsubscribed, published, publication, internal_error,
}

-- `ClientListener`, without its stream
pub record ClientListener : Type 0 where
  pub pending_ack : Option PendingAck
  pub observed : List Message
  pub stop : Bool
  pub to_acknowledge : List ℕ

-- An operation of the listener
abbrev pub Listening : Type 0 → Type 0
Listening A = ClientListener → ClientResult A × ClientListener

-- `self.observer.update(…)`
unfoldable pub update : Message → ClientListener → ClientListener
update message l = record l { observed = l.observed ++ (message ∷ []) }

-- `lock.take()` and the message that tells of it
unfoldable pub settle : Message → ClientListener → ClientListener
settle message l = update message (record l { pending_ack = none })

-- What is read, and what is done with it; `?` on an error.
unfoldable pub reading :
    {A : Type 0}
    → PacketResult (A × List ℕ)
    → (A → ClientListener → ClientResult (Unit {0}) × ClientListener)
    → Listening (List ℕ)
reading (PacketResult.ok (packet, rest)) handle l =
    let (result, l') = handle packet l in
    (elim result [ ok _ ↦ ok rest | err e ↦ err e | panic ↦ panic ], l')
reading (PacketResult.err kind) handle l = (err (of_packet kind), l)
reading PacketResult.panic handle l = (panic, l)

-- `CONNECT_USER_ERRORS`
unfoldable pub is_user_error : ErrorKind → Bool
is_user_error ErrorKind.bad_user_name_or_password = true
is_user_error ErrorKind.not_authorized = true
is_user_error ErrorKind.identifier_rejected = true
is_user_error _ = false

-- `matches!(lock.as_ref(), Some(PendingAck::Connect(_)))`
unfoldable pub expects_connack : Option PendingAck → Bool
expects_connack (some (connect c)) = true
expects_connack _ = false

-- The handlers, each with what it does once its packet is read

unfoldable pub on_publish : Publish → Listening (Unit {0})
on_publish packet l = elim packet.packet_id [
  | none ↦ (ok tt, update (publication packet) l)
  | some id ↦ (
    ok tt,
    record (update (publication packet) l) { to_acknowledge = l.to_acknowledge ++ (id ∷ []) },
  )
]

unfoldable pub on_suback : Suback → Listening (Unit {0})
on_suback suback l = elim l.pending_ack [
  | some pending ↦ elim pending [
    | subscribe s ↦
        if s.packet_identifier == suback.subscribe_packet_id
        then (ok tt, settle (subscribed (ok (Suback.set_topics suback s.topics))) l)
        else (ok tt, l)
    | _ ↦ (ok tt, l)
  ]
  | none ↦ (ok tt, l)
]

unfoldable pub on_unsuback : Unsuback → Listening (Unit {0})
on_unsuback unsuback l = elim l.pending_ack [
  | some pending ↦ elim pending [
    | unsubscribe u ↦
        if u.packet_id == unsuback.packet_id
        then (ok tt, settle (unsubscribed (ok (Acks.set_topics unsuback u.topic_filters))) l)
        else (ok tt, l)
    | _ ↦ (ok tt, l)
  ]
  | none ↦ (ok tt, l)
]

unfoldable pub on_puback : Puback → Listening (Unit {0})
on_puback puback l = elim l.pending_ack [
  | some pending ↦ elim pending [
    | publish p ↦ elim p.packet_id [
      | some expected_id ↦
          if expected_id == puback.packet_id
          then (ok tt, settle (published (ok (some puback))) l)
          else (ok tt, l)
      | none ↦ (err publish_without_id, l)
    ]
    | _ ↦ (ok tt, l)
  ]
  | none ↦ (ok tt, l)
]

unfoldable pub on_pingresp : Unit {0} → Listening (Unit {0})
on_pingresp _ l = elim l.pending_ack [
  | some pending ↦ elim pending [
    | ping_req ↦ (ok tt, record l { pending_ack = none })
    | _ ↦ (ok tt, l)
  ]
  | none ↦ (ok tt, l)
]

-- The `match` of `handle_connack`. A refusal of the server is read with its whole packet, three bytes
-- behind the control byte.
unfoldable pub on_connack : List ℕ → PacketResult (Connack × List ℕ) → Listening (List ℕ)
on_connack stream (PacketResult.err kind) l =
    if is_user_error kind
    then if expects_connack l.pending_ack
      then (
        ok (drop 3 stream),
        settle (connected (err (of_packet kind))) (record l { stop = true }),
      )
      else (ok (drop 3 stream), l)
    else (err (of_packet kind), l)
on_connack stream (PacketResult.ok (packet, rest)) l =
    if expects_connack l.pending_ack
    then (ok rest, settle (connected (ok packet)) l)
    else (ok rest, l)
on_connack stream PacketResult.panic l = (panic, l)

-- `get_code_type`
unfoldable pub get_code_type : ℕ → Option PacketType
get_code_type code =
    if code == 1
    then some PacketType.connect
    else if code == 2
    then some PacketType.connack
    else if code == 3
    then some PacketType.publish
    else if code == 4
    then some PacketType.puback
    else if code == 8
    then some PacketType.subscribe
    else if code == 9
    then some PacketType.suback
    else if code == 10
    then some PacketType.unsubscribe
    else if code == 11
    then some PacketType.unsuback
    else if code == 12
    then some PacketType.ping_req
    else if code == 13
    then some PacketType.ping_resp
    else if code == 14
    then some PacketType.disconnect
    else none

-- Whether the error of a read is `TimedOut` or `WouldBlock`
unfoldable pub is_waiting : IoError → Bool
is_waiting would_block_io = true
is_waiting _ = false

module _ (e : IoError) where
  -- The `match` of `handle_packet` on the types that it knows
  unfoldable pub handle_type : PacketType → ℕ → List ℕ → Listening (List ℕ)
  handle_type PacketType.publish header stream =
      reading (Decoding.read_from e stream header) on_publish
  handle_type PacketType.puback header stream = reading (read_puback e stream header) on_puback
  handle_type PacketType.suback header stream = reading (Suback.read_from e stream header) on_suback
  handle_type PacketType.unsuback header stream =
      reading (read_unsuback e stream header) on_unsuback
  handle_type PacketType.ping_resp header stream =
      reading (read_ping_resp e stream header) on_pingresp
  handle_type PacketType.connack header stream =
      on_connack stream (Connack.read_from e stream header)
  handle_type _ header stream = λ l. (err unsupported_packet_type, l)

  -- `handle_packet`: the bytes behind the packet. An unknown type is told to the observer alone.
  unfoldable pub handle_packet : ℕ → List ℕ → Listening (List ℕ)
  handle_packet header stream l = elim (get_code_type (header / 16)) [
    | none ↦
        (ok stream, update (internal_error (of_packet ErrorKind.invalid_control_packet_type)) l)
    | some packet_type ↦ handle_type packet_type header stream l
  ]

  -- `try_read_packet`
  unfoldable pub try_read_packet : List ℕ → Listening (List ℕ)
  try_read_packet [] l = if is_waiting e || l.stop then (ok [], l) else (err (of_io e), l)
  try_read_packet (header ∷ stream) l = handle_packet header stream l

  -- A round of the loop of `wait_for_packets`: an error stops the listener.
  unfoldable pub listen_once : List ℕ → Listening (List ℕ)
  listen_once stream l =
      let (result, l') = try_read_packet stream l in
      elim result [
        | ok rest ↦ (ok rest, l')
        | err error ↦ (ok [], update (internal_error error) (record l' { stop = true }))
        | panic ↦ (panic, l')
      ]
