-- ===== src/MqttClient/Listener/Answers.antt =====
-- mqtt_client/src/client/client_listener.rs: what answers the packet that waits.
use t1_tp.Common.{ℕ, ◌/◌, ◌≡◌, ◌⊎◌, List, [], ◌∷◌, ◌++◌, none, some}
use t1_tp.Packets.Error.{IoError, PacketResult}
use t1_tp.Packets.Header.{PacketType}
use t1_tp.Packets.Connack.{Connack}
use t1_tp.Packets.Acks.{Puback, Unsuback, read_puback, read_unsuback}
use t1_tp.Packets.Suback.{Suback}
use t1_tp.Packets.Suback
use t1_tp.Packets.Empty.{read_ping_resp}
use t1_tp.MqttClient.{
  ClientResult, ok, PendingAck, subscribe, unsubscribe, ping_req, publish, connect, Message,
  connected, subscribed, unsubscribed, published,
}
use t1_tp.MqttClient.Listener.{ClientListener, get_code_type}

-- What the observer is told of when a packet is settled: the answer with the identifier of the packet, and
-- with its filters; an answer to a PINGREQ is not told.
abbrev pub Tells : PendingAck → List Message → List Message → Type 0
Tells (subscribe s) before now =
    (suback : Suback) × (suback.subscribe_packet_id ≡ s.packet_identifier)
    × (suback.topics ≡ s.topics)
    × (now ≡ before ++ (subscribed (ok suback) ∷ []))
Tells (unsubscribe u) before now =
    (unsuback : Unsuback) × (unsuback.packet_id ≡ u.packet_id)
    × (unsuback.topics ≡ u.topic_filters)
    × (now ≡ before ++ (unsubscribed (ok unsuback) ∷ []))
Tells (publish p) before now =
    (puback : Puback) × (p.packet_id ≡ some puback.packet_id)
    × (now ≡ before ++ (published (ok (some puback)) ∷ []))
Tells (connect c) before now =
    (answer : ClientResult Connack) × (now ≡ before ++ (connected answer ∷ []))
Tells ping_req before now = now ≡ before

-- A packet that answers what waits: one of its kind, which is read from the bytes, with its identifier.
abbrev pub Answers : IoError → List ℕ → PendingAck → Type 0
Answers e [] pending = ⊥
Answers e (header ∷ stream) (subscribe s) =
    (get_code_type (header / 16) ≡ some PacketType.suback)
    × (suback : Suback) × (rest : List ℕ) × (Suback.read_from e stream header
        ≡ PacketResult.ok (suback, rest))
    × (s.packet_identifier ≡ suback.subscribe_packet_id)
Answers e (header ∷ stream) (unsubscribe u) =
    (get_code_type (header / 16) ≡ some PacketType.unsuback)
    × (unsuback : Unsuback) × (rest : List ℕ) × (read_unsuback e stream header
        ≡ PacketResult.ok (unsuback, rest))
    × (u.packet_id ≡ unsuback.packet_id)
Answers e (header ∷ stream) (publish p) =
    (get_code_type (header / 16) ≡ some PacketType.puback)
    × (puback : Puback) × (rest : List ℕ) × (read_puback e stream header
        ≡ PacketResult.ok (puback, rest))
    × (p.packet_id ≡ some puback.packet_id)
Answers e (header ∷ stream) (connect c) = get_code_type (header / 16) ≡ some PacketType.connack
Answers e (header ∷ stream) ping_req =
    (get_code_type (header / 16) ≡ some PacketType.ping_resp)
    × (rest : List ℕ) × (read_ping_resp e stream header ≡ PacketResult.ok (tt, rest))

-- What waits still waits, or it is settled by something that answers it.
abbrev pub IsKept : (PendingAck → Type 0) → ClientListener → ClientListener → Type 0
IsKept Answered l l' =
    (l'.pending_ack ≡ l.pending_ack)
    ⊎ ((pending : PendingAck) × (l.pending_ack ≡ some pending)
        × Answered pending
        × (l'.pending_ack ≡ none)
        × Tells pending l.observed l'.observed)
