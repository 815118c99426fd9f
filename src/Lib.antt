-- ===== src/Lib.antt =====
-- The MQTT 3.1.1 broker and client of this repository: its packets (common/packets), its tree of topics
-- (server/src/topic_handler), its sessions (server/src/client, server/src/clients_manager) and the
-- processing of what the clients send (server/src/server), and the client library (mqtt_client).
--
-- A client's bytes are read as packets; a SUBSCRIBE or UNSUBSCRIBE packet changes the tree of topics, a
-- PUBLISH packet walks it and gives one message for each subscription that matches, and a message goes to
-- the session of its client, which keeps it until it is acknowledged.
--
-- Common, and the files below it: lists, texts as lists of bytes, bits of a byte, and maps as lists of
-- entries; what the other parts share.
--
-- Packets models common/packets/src.
--   Error: packet_error.rs. Only the kind of an error is kept, not its message. The result has a third
--     case, panic, for an unwrap or an expect that fails.
--   Stream: what the code uses of std::io::Read. A stream is the bytes that it still gives, and the error
--     that it answers when they are used up. The cursor over a packet answers the end of file.
--   Header: helpers.rs and qos.rs. Length: packet_reader.rs, with the arithmetic of u32 written out.
--   Field: utf8.rs. A String is the list of its bytes, and what std::str::from_utf8 accepts is an
--     automaton over them. Filter: topic_filter.rs.
--   Publish, Connect, Connack, Acks (PUBACK and UNSUBACK), Empty (DISCONNECT, PINGREQ and PINGRESP), Suback,
--     Subscribe, Unsubscribe: the folders of the packets. encode gives the bytes, read_from takes the bytes
--     behind the control byte and the control byte, and gives the packet with the bytes that follow it.
--
-- Topics models server/src/topic_handler/mod.rs.
--   Names: the levels of names and filters, and their matching. Tree: the nodes. A HashMap is a list of
--     entries with distinct keys in use, a table of subtopics a list of its own, and a lock its content,
--     since each operation runs from its start to its end; the order of the entries stands for the order
--     in which a HashMap is walked.
--   Subscribing and Publishing: the operations of Topic. Handler: those of TopicHandler.
--   Held: the abstract map from filters and clients to subscriptions that the tree implements. Matching:
--     which filters are served for a name, and the matching of the code against section 4.7.1 of MQTT 3.1.1.
--     Delivery: who gets a packet.
--
-- Server models server/src.
--   Result: server/server_error.rs. Action: operations on a state, with an error or a panic as their answer.
--   Client: client/mod.rs, the session, over a stream that is a parameter (the traits of traits.rs and
--     Write). The times that the code asks the system for and its random numbers are arguments.
--     Client.Queue and Client.Reachable say what the operations do to the packets that wait, Client.Will
--     what becomes of the last will.
--   Manager: clients_manager/mod.rs, the sessions by their ids, with the login method as a parameter.
--     Credentials, Sessions, Fresh, Acting, Ending and Shutdown take its operations one by one, GenericId the texts
--     of the ids that it gives out, Reachable the managers that the operations reach from a new one.
--   SimpleLogin: clients_manager/simple_login.rs, a login method. A file is the lines that its reader gives,
--     or the errors; it does not change between two logins. Cached compares the memory of the accounts with
--     the file, Complete says how much of the file it holds.
--   Config: config.rs, the configuration from the lines of a file; the parser of the log levels, which is the
--     logger's, is an argument. Lookups reads the table of keys, Accepted says what an accepted file holds,
--     Unreadable what a file of accounts that cannot be read leads to.
--   Processing: server/packet_processing.rs. The state is the manager, the tree of topics and the jobs of
--     the pool; a job is what a closure of the source does. Jobs and Terminates say which jobs a job asks
--     for and that they come to an end, Delivered what they bring to the clients, Drained what has been sent
--     when no job is left, Incoming reads packets.
--   Loop: client_loop of server/mod.rs, over the parts in which the input of a client comes. Connection: the
--     other operations of server/mod.rs on a connection, from its CONNECT packet to its end.
--   A job is one step, and the threads of the pool take the jobs in any order: what two jobs do between
--   each other's calls is not modelled. What other threads do between two parts of the input of a client
--   is an argument of Loop. The two handles of a connection that try_clone makes are two values.
--
-- MqttClient models mqtt_client/src: the parent has the errors and the messages to the observer.
--   Listener: client/client_listener.rs; an on_ function is the end of the handle_ function of the source,
--     once its packet is read. Listener.Answers says what answers the packet that waits, Handling
--     what the handlers make of it, Pending what reading does to it.
--   Sender: client/client_sender.rs; a do_ function is the function with an underscore of the source. What
--     the sender finds each time that it wakes up is an argument. Waiting is about wait_for_ack, Exchanged
--     about a whole exchange.
--
-- Tests has runs at concrete values.
--
-- A read of a cursor that is too short leaves the cursor and the buffer as they were, which is how the
-- standard library of the code's edition reads a cursor; the documentation leaves it open.
--
-- Loops: those of the length end by themselves (four rounds at most for reading, and a quotient that
-- shrinks for writing). The loops that read filters run on fuel, as much of it as the packet has bytes:
-- each round takes two bytes or more. The loop over the packets of a part of the input runs on fuel, one
-- more than the bytes of the part: each packet takes one byte or more. The sender waits on fuel for 44 checks: a
-- resend comes with the eleventh check at the latest, and there are three. The decimal text of a generic id
-- has fuel for ten digits, which a number of 32 bits does not exceed.
--
-- Not modelled: the messages of errors, logging, poisoned locks, channels that are closed, interleavings
-- of threads within a job, sockets and the starting of threads, the dump of the state, the thread pool, the
-- threads of the client library, and the programs that use it.
pub mod Common
pub mod Packets
pub mod Topics
pub mod Server
pub mod MqttClient
pub mod Tests
