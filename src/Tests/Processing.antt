-- ===== src/Tests/Processing.antt =====
-- Jobs and connections of the server over a stream that takes all that is written to it.
use t1_tp.Common.{ℕ, ◌≡◌, refl, true, false, List, [], ◌∷◌, ◌++◌, none, some, arith}
use mathlib.Core.WellFounded.{Acc}
use t1_tp.Common.Map.{get, insert, text_key}
use t1_tp.Packets.Error.{would_block_io, broken_pipe}
use t1_tp.Packets.Stream.{be_bytes}
use t1_tp.Packets.Header.{qos_level0, qos_level1}
use t1_tp.Packets.Publish.{Publish, set_retain_flag}
use t1_tp.Packets.Publish
use t1_tp.Topics.Tree.{SubscriptionData, ClientId}
use t1_tp.Topics.Tree
use t1_tp.Topics.Names.{levels}
use t1_tp.Topics.Publishing.{Message}
use t1_tp.Topics.Subscribing.{subscribe}
use t1_tp.Topics.Delivery.{Among}
use t1_tp.Server.Result.{ok, err, connection_refused}
use t1_tp.Packets.Connect.{Connect}
use t1_tp.Packets.Connect.Decoding.{
  new_from_zero, read_content, verify_protocol, read_field, check_end, connect_of_flags, get_flags,
  get_text, get_will, get_will_data, verify_protocol_level,
}
use t1_tp.Packets.Connect.Decoding
use t1_tp.Packets.Length.{read_remaining_bytes, from_encoded, from_encoded_loop}
use t1_tp.Packets.Header.{
  check_packet_type, type_of_byte, type_of_bits, same_type, check_reserved_bits,
  compare_reserved_bytes, qos_of_byte, to_bits,
}
use t1_tp.Packets.Field.{new_from_stream, is_utf8}
use t1_tp.Packets.Stream.{read_byte, read_exact, read_u16}
use t1_tp.Packets.Connack.{unacceptable_protocol_version}
use t1_tp.Topics.Held.{held}
use t1_tp.Topics.Held.Subscribed.{held-subscribe}
use t1_tp.Topics.Matching.{serves}
use t1_tp.Topics.Names.{topic_filter_matches, match_parts, kind}
use t1_tp.Server.Client.{StreamIo, NetworkConnection, Client}
use t1_tp.Server.Client
use t1_tp.Server.Manager.{ConnectInfo, new_session, check_credentials, with_id, enter, client_add}
use t1_tp.Server.Processing.{
  Job, Server, handling_publish, dispatching, sending, run_job, handle_publish, on_manager,
  remove_topics,
}
use t1_tp.Server.Processing.Delivered.{written, publish-sends, handle_publish-acknowledges}
use t1_tp.Server.Processing.Terminates.{Next, steps_end}
use t1_tp.Server.Manager.Acting.{acted}
use t1_tp.Server.Processing.Drained.{Trace, Trace-delivers}
use t1_tp.Server.Loop.Enough.{Answer, Answers, read_packets_enough}
use t1_tp.Server.Connection.{
  wait_for_connect, Visit, wait_for_connect, try_clone, connect_client, run_client,
}
use t1_tp.Server.Connection.Refused.{refuses, connect_client-refused}
use t1_tp.Server.Connection.Unanswered.{run_client-unwritten}
use t1_tp.Tests.Manager.{io, method, named, connection, same_number}

abbrev packet : Publish
packet = record {
  packet_id = some 5;
  topic_name = b'a' ∷ [];
  qos = qos_level1;
  retain_flag = false;
  dup_flag = false;
  payload = b'x' ∷ [];
}

-- The session of the publisher
abbrev session : Client (List ℕ) ℕ
session = Client.new named connection

-- A server with one session, a subscription of another client to `a`, and a publication that waits
abbrev server : Server (List ℕ) ℕ (Unit {0})
server = record {
  clients_manager = record {
    clients = insert (b'c' ∷ []) session [];
    login = none;
    generic_ids_counter = 0;
  };
  topic_handler =
      (subscribe (levels (b'a' ∷ [])) Tree.new (b's' ∷ []) (record { qos = qos_level0 }) true).0;
  pool = handling_publish packet (b'c' ∷ []) ∷ [];
}

steps_end_example : Acc (Next io) server
steps_end_example = steps_end io server

read_packets_enough_example :
    (answer : Answer (List ℕ) ℕ (Unit {0})) × Answers io would_block_io false
      (192 ∷ 0 ∷ [])
      (b'c' ∷ [])
      server
      answer
read_packets_enough_example =
    read_packets_enough io would_block_io false (192 ∷ 0 ∷ []) (b'c' ∷ []) server

handle_publish-acknowledges_example :
    get (b'c' ∷ []) (handle_publish io packet (b'c' ∷ []) server).1.clients_manager.clients
    ≡ some (written io (64 ∷ 2 ∷ be_bytes 5) connection session)
unfolding get insert Client.new
handle_publish-acknowledges_example =
    handle_publish-acknowledges io packet 5 (b'c' ∷ []) session connection server refl
      (λ e. absurd (omega arith)) refl refl

held-server :
    held (levels (b'a' ∷ [])) server.topic_handler (b's' ∷ []) ≡ some (record { qos = qos_level0 })
unfolding levels
held-server =
    held-subscribe (levels (b'a' ∷ [])) (levels (b'a' ∷ [])) Tree.new (b's' ∷ []) (b's' ∷ [])
      (record { qos = qos_level0 }) true refl

publish-sends_example :
    let sent =
      Publish.set_max_qos
        (set_retain_flag (Publish.set_max_qos packet qos_level1) false)
        qos_level0 in
    (sent.packet_id ≡ some 5)
    × (messages : List Message) × ((run_job io 100
          (handling_publish packet (b'c' ∷ []))
          server).1.pool
        ≡ server.pool ++ (dispatching messages ∷ []))
    × ((later : ℕ) (s' : Server (List ℕ) ℕ (Unit {0}))
        → Among (sending (b's' ∷ []) sent) (run_job io later (dispatching messages) s').1.pool)
unfolding serves topic_filter_matches match_parts kind levels
publish-sends_example =
    publish-sends io (levels (b'a' ∷ [])) packet (b'c' ∷ []) (b's' ∷ [])
      (record { qos = qos_level0 }) server 100 held-server refl refl

Trace-delivers_example :
    let sent =
      Publish.set_max_qos
        (set_retain_flag (Publish.set_max_qos packet qos_level1) false)
        qos_level0 in
    let handled = (run_job io 100 (handling_publish packet (b'c' ∷ [])) server).1 in
    ((jobs : List Job) × (s' : Server (List ℕ) ℕ (Unit {0})) × Trace io handled jobs s'
      × (s'.pool ≡ []))
    × ((jobs : List Job) (s' : Server (List ℕ) ℕ (Unit {0}))
        → Trace io handled jobs s'
        → s'.pool ≡ []
        → Among (sending (b's' ∷ []) sent) jobs)
    × ((later : ℕ) (s' : Server (List ℕ) ℕ (Unit {0}))
        → get (b's' ∷ []) (run_job io later (sending (b's' ∷ []) sent) s').1.clients_manager.clients
          ≡ acted (Client.send_publish io sent later) (get (b's' ∷ []) s'.clients_manager.clients))
unfolding serves topic_filter_matches match_parts kind levels
Trace-delivers_example =
    Trace-delivers io (levels (b'a' ∷ [])) packet (b'c' ∷ []) (b's' ∷ [])
      (record { qos = qos_level0 }) server 100 held-server refl refl

-- A client that speaks another protocol: the name of it is not MQTT.
abbrev stranger : Visit (List ℕ) ℕ (Unit {0})
stranger = record {
  network_connection = connection;
  hello = 16 ∷ 12 ∷ 0 ∷ 4 ∷ b'M' ∷ b'Q' ∷ b'T' ∷ b'X' ∷ 4 ∷ 2 ∷ 0 ∷ 10 ∷ 0 ∷ 0 ∷ [];
  end_error = would_block_io;
  try_clone = λ s. some s;
  now = 0;
  random = 7;
  parts = [];
}

stranger_hello :
    wait_for_connect would_block_io stranger.hello
    ≡ err (connection_refused unacceptable_protocol_version)
unfolding wait_for_connect new_from_zero read_byte Decoding.read_from read_remaining_bytes
    from_encoded from_encoded_loop read_exact check_packet_type type_of_byte type_of_bits same_type
    check_reserved_bits read_content verify_protocol read_field new_from_stream is_utf8 check_end
    connect_of_flags get_flags get_text get_will verify_protocol_level compare_reserved_bytes
    to_bits read_u16
stranger_hello = refl

stranger_refused : refuses (connect_client io method stranger server).0 ≡ true
unfolding connect_client
stranger_refused = rw stranger_hello refl

connect_client-refused_example :
    (connect_client io method stranger server).1.clients_manager.clients
    ≡ server.clients_manager.clients
connect_client-refused_example = connect_client-refused io method stranger server stranger_refused

-- A client that is let in, over a stream to which nothing can be written
abbrev broken : StreamIo (List ℕ)
broken = record {
  write_all = λ s bytes. (some broken_pipe, s);
  close = λ s. (none, s);
  alert = λ s time. (none, s);
  sleep = λ s. (none, s);
}

abbrev guest : Visit (List ℕ) ℕ (Unit {0})
guest = record stranger {
  hello = 16 ∷ 13 ∷ 0 ∷ 4 ∷ b'M' ∷ b'Q' ∷ b'T' ∷ b'T' ∷ 4 ∷ 2 ∷ 0 ∷ 10 ∷ 0 ∷ 1 ∷ b'g' ∷ [];
}

abbrev let_in : ConnectInfo
let_in = record { id = b'g' ∷ []; session_present = false; takeover_last_will = none }

abbrev guest_connect : Connect
guest_connect = record {
  client_id = b'g' ∷ [];
  clean_session = true;
  user_name = none;
  password = none;
  last_will = none;
  keep_alive = 10;
}

guest_hello : wait_for_connect would_block_io guest.hello ≡ ok guest_connect
unfolding wait_for_connect new_from_zero read_byte Decoding.read_from read_remaining_bytes
    from_encoded from_encoded_loop read_exact check_packet_type type_of_byte type_of_bits same_type
    check_reserved_bits read_content verify_protocol read_field new_from_stream is_utf8 check_end
    connect_of_flags get_flags get_text get_will verify_protocol_level compare_reserved_bytes
    to_bits read_u16 qos_of_byte get_will_data
guest_hello = refl

guest_enters : (connect_client broken method guest server).0 ≡ ok let_in
unfolding connect_client try_clone new_session on_manager check_credentials with_id enter client_add
    Client.new get insert remove_topics
guest_enters = rw guest_hello refl

run_client-unwritten_example :
    (client : Client (List ℕ) ℕ) × (handle : NetworkConnection (List ℕ) ℕ) × (get let_in.id
        (run_client broken same_number method guest server).1.clients_manager.clients
      ≡ some client)
    × (client.connection ≡ some handle)
    × (handle.id ≡ guest.network_connection.id)
run_client-unwritten_example =
    run_client-unwritten broken same_number method guest server let_in
      (λ bytes. (broken_pipe, refl)) guest_enters
