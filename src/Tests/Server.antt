-- ===== src/Tests/Server.antt =====
-- Sessions over a stream that takes all that is written to it.
use t1_tp.Common.{
  true, arith, ℕ, ◌≡◌, refl, false, ◌||◌, List, [], ◌∷◌, ◌++◌, All, if◌then◌else◌, none, some,
}
use t1_tp.Packets.Error.{broken_pipe}
use t1_tp.Packets.Header.{qos_level1}
use t1_tp.Packets.Publish.{Publish}
use t1_tp.Packets.Connect.{Connect}
use t1_tp.Packets.Connect.{LastWill}
use t1_tp.Server.Client.{disconnect, on_stream}
use t1_tp.Server.Client.Will.{will_packet, disconnect-publish_of_will}
use t1_tp.Common.{contains}
use t1_tp.Server.Result.{ok, panic}
use t1_tp.Server.Client.{
  StreamIo, NetworkConnection, Client, new, acknowledge, send_unacknowledged, send_publish,
  send_packet,
}
use t1_tp.Packets.Publish.Encoding
use t1_tp.Server.Client.Queue.{
  IsWaiting, without_first, succeeds, is_due, is_ahead, send_unacknowledged-queue,
}
use t1_tp.Server.Client.Reachable.{
  published, Reached, begun, stepped, Reached-waits, Reached-acknowledge,
}

-- A stream is what was written to it.
abbrev io : StreamIo (List ℕ)
io = record {
  write_all = λ s bytes. (none, s ++ bytes);
  close = λ s. (none, s);
  alert = λ s time. (none, s);
  sleep = λ s. (none, s);
}

-- A stream on which each operation fails
abbrev broken : StreamIo (List ℕ)
broken = record {
  write_all = λ s bytes. (some broken_pipe, s);
  close = λ s. (some broken_pipe, s);
  alert = λ s time. (some broken_pipe, s);
  sleep = λ s. (some broken_pipe, s);
}

abbrev connect : Connect
connect = record {
  client_id = b'c' ∷ [];
  clean_session = false;
  user_name = none;
  password = none;
  last_will = none;
  keep_alive = 10;
}

abbrev connection : NetworkConnection (List ℕ) ℕ
connection = record { id = 1; stream = [] }

abbrev packet : Publish
packet = record {
  packet_id = some 5;
  topic_name = b'a' ∷ [];
  qos = qos_level1;
  retain_flag = false;
  dup_flag = false;
  payload = b'x' ∷ [];
}

abbrev session : Client (List ℕ) ℕ
session = new connect connection

-- The session with a packet that waits
abbrev busy : Client (List ℕ) ℕ
busy = (send_publish io packet 100 session).1

busy-Reached : Reached io busy
busy-Reached =
    stepped session busy (begun connect connection)
      (published packet 100 session (omega arith, omega arith))

Reached-waits_example :
    All IsWaiting (send_publish io packet 100 (new connect connection)).1.unacknowledged
Reached-waits_example = Reached-waits io busy busy-Reached

Reached-acknowledge_example :
    (¬ ((acknowledge io (record { packet_id = 5 }) busy).0 ≡ panic))
    × ((acknowledge io (record { packet_id = 5 }) busy).1.unacknowledged
        ≡ without_first 5 busy.unacknowledged)
Reached-acknowledge_example = Reached-acknowledge io busy (record { packet_id = 5 }) busy-Reached

-- The session of which the connection is lost
abbrev waiting : Client (List ℕ) ℕ
waiting = record session { unacknowledged = (100, packet) ∷ [] }

send_unacknowledged-queue_example :
    let sent =
      send_packet broken (Encoding.encode packet) (record waiting { unacknowledged = [] }) in
    let (result, c') = send_unacknowledged broken none 700 waiting in
    (is_ahead none 700 100 ≡ true → (result ≡ panic) × (c'.unacknowledged ≡ []))
    × (is_ahead none 700 100 ≡ false
        → is_due none 700 100 ≡ true
        → (result ≡ sent.0)
          × (c'.unacknowledged ≡ (if succeeds sent.0 then (700, packet) ∷ [] else [])))
    × (is_ahead none 700 100 ≡ false
        → is_due none 700 100 ≡ false
        → (result ≡ ok tt) × (c'.unacknowledged ≡ (100, packet) ∷ []))
send_unacknowledged-queue_example =
    send_unacknowledged-queue broken none 700 100 packet [] waiting refl

-- A session with a last will, to the topic `a/#`
abbrev will : LastWill
will = record {
  retain_flag = false;
  topic = record { name = b'a' ∷ b'/' ∷ b'#' ∷ []; qos = qos_level1 };
  topic_message = b'x' ∷ [];
}

abbrev willing : Client (List ℕ) ℕ
willing = record session { connect = record connect { last_will = some will } }

disconnect-publish_of_will_example : (disconnect io false 5 willing).0 ≡ (
    if false
    then ok none
    else if contains b'+' will.topic.name || contains b'#' will.topic.name
    then panic
    else ok (some (will_packet will 5)))
unfolding on_stream new
disconnect-publish_of_will_example = disconnect-publish_of_will io false 5 willing will refl refl
