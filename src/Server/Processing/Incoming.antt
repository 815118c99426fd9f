-- ===== src/Server/Processing/Incoming.antt =====
-- server/src/server/packet_processing.rs: the packets that a client sends. What is read from a stream
-- is the list of bytes that it still gives, with the error that it answers behind them.
use t1_tp.Common.{ℕ, List, [], ◌∷◌}
use t1_tp.Packets.Error.{IoError}
use t1_tp.Packets.Header.{PacketType, type_of_byte}
use t1_tp.Packets.Publish.Decoding
use t1_tp.Packets.Acks.{read_puback}
use t1_tp.Packets.Subscribe
use t1_tp.Packets.Unsubscribe
use t1_tp.Packets.Empty.{read_ping_req, read_disconnect, encode_ping_resp}
use t1_tp.Topics.Tree.{ClientId}
use t1_tp.Server.Result.{from_io_error, protocol_violation}
use t1_tp.Server.Action.{Action, pure, fail, lift, of_packet, ◌>>=◌, ◌>>◌}
use t1_tp.Server.Client.{StreamIo, send_packet, acknowledge}
use t1_tp.Server.Processing.{
  Server, handling_publish, handling_subscribe, handling_unsubscribe, execute, on_client,
}

module _ {S I L : Type 0} (io : StreamIo S) (e : IoError) where
  -- What `process_packet_given_control_byte` does with a packet of each type: the bytes behind it.
  unfoldable pub process_type : PacketType → ℕ → List ℕ → ClientId → Action (Server S I L) (List ℕ)
  process_type PacketType.publish control_byte stream id = do
    (publish, rest) ← lift (of_packet (Decoding.read_from e stream control_byte))
    execute (handling_publish publish id)
    pure rest
  process_type PacketType.puback control_byte stream id = do
    (packet, rest) ← lift (of_packet (read_puback e stream control_byte))
    on_client id (acknowledge io packet)
    pure rest
  process_type PacketType.subscribe control_byte stream id = do
    (subscribe, rest) ← lift (of_packet (Subscribe.read_from e stream control_byte))
    execute (handling_subscribe subscribe id)
    pure rest
  process_type PacketType.unsubscribe control_byte stream id = do
    (unsubscribe, rest) ← lift (of_packet (Unsubscribe.read_from e stream control_byte))
    execute (handling_unsubscribe unsubscribe id)
    pure rest
  process_type PacketType.ping_req control_byte stream id = do
    (_, rest) ← lift (of_packet (read_ping_req e stream control_byte))
    on_client id (send_packet io encode_ping_resp)
    pure rest
  process_type PacketType.disconnect control_byte stream id = do
    (_, rest) ← lift (of_packet (read_disconnect e stream control_byte))
    pure rest
  process_type _ control_byte stream id = fail protocol_violation

  -- `process_packet_given_control_byte`: the type of the packet and the bytes behind it.
  unfoldable pub process_packet_given_control_byte :
      ℕ → List ℕ → ClientId → Action (Server S I L) (PacketType × List ℕ)
  process_packet_given_control_byte control_byte stream id = do
    packet_type ← lift (of_packet (type_of_byte control_byte))
    rest ← process_type packet_type control_byte stream id
    pure (packet_type, rest)

  -- `process_packet`
  unfoldable pub process_packet : List ℕ → ClientId → Action (Server S I L) (PacketType × List ℕ)
  process_packet [] id = fail (from_io_error e)
  process_packet (control_byte ∷ stream) id =
      process_packet_given_control_byte control_byte stream id
