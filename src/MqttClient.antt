-- ===== src/MqttClient.antt =====
-- mqtt_client/src: the client library. What it waits for and what it tells its observer; the message of
-- an error is not modelled, only where it comes from.
pub mod Listener
pub mod Sender
use t1_tp.Common.{Option, ◌≡◌}
use t1_tp.Packets.Error.{ErrorKind, IoError}
use t1_tp.Packets.Publish.{Publish}
use t1_tp.Packets.Connect.{Connect}
use t1_tp.Packets.Connack.{Connack}
use t1_tp.Packets.Acks.{Puback, Unsuback}
use t1_tp.Packets.Suback.{Suback}
use t1_tp.Packets.Subscribe.{Subscribe}
use t1_tp.Packets.Unsubscribe.{Unsubscribe}

-- `ClientError`: the error that it was made of, or the text with which the code makes it.
pub data ClientError : Type 0 where
  of_packet : ErrorKind → ClientError
  of_io : IoError → ClientError
  unsupported_packet_type publish_without_id : ClientError
  not_connected no_suback no_puback no_pingresp no_unsuback : ClientError

-- `Result` of the library; `panic` says that the thread panics.
pub data ClientResult (A : Type 0) : Type 0 where
  ok : A → ClientResult A
  err : ClientError → ClientResult A
  panic : ClientResult A

-- `PendingAck`
pub data PendingAck : Type 0 where
  subscribe : Subscribe → PendingAck
  unsubscribe : Unsubscribe → PendingAck
  ping_req : PendingAck
  publish : Publish → PendingAck
  connect : Connect → PendingAck

-- `Message`
pub data Message : Type 0 where
  connected : ClientResult Connack → Message
  subscribed : ClientResult Suback → Message
  unsubscribed : ClientResult Unsuback → Message
  published : ClientResult (Option Puback) → Message
  publication : Publish → Message
  internal_error : ClientError → Message
