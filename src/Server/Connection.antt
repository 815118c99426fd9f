-- ===== src/Server/Connection.antt =====
-- server/src/server/mod.rs and packet_processing.rs: a connection from its CONNECT packet to its end. The
-- handle of the thread and that of the session are two values, as `try_clone` gives them.
pub mod Refused
pub mod Unanswered
use t1_tp.Common.{ℕ, Bool, true, false, ◌&&◌, List, [], ◌∷◌, Option, none, some, if◌then◌else◌}
use t1_tp.Packets.Error.{ErrorKind, IoError, PacketResult, invalid_protocol, invalid_protocol_level}
use t1_tp.Packets.Publish.{Publish}
use t1_tp.Packets.Connect.{Connect}
use t1_tp.Packets.Connect.Decoding.{new_from_zero}
use t1_tp.Packets.Connack.{Connack, ConnackReturnCode, accepted, unacceptable_protocol_version}
use t1_tp.Packets.Connack
use t1_tp.Topics.Tree.{ClientId}
use t1_tp.Server.Result.{
  ServerErrorKind, ServerResult, ok, err, panic, of_io, from_packet_error, connection_refused,
  irrecoverable,
}
use t1_tp.Server.Action.{Action, pure, fail, lift, of_packet, ◌>>=◌, ◌>>◌}
use t1_tp.Server.Client.{StreamIo, NetworkConnection, unack_resending_freq}
use t1_tp.Server.Manager.{Login, ConnectInfo, DisconnectInfo, new_session, disconnect}
use t1_tp.Server.Manager.Shutdown.{ShutdownInfo, shutdown}
use t1_tp.Server.Processing.{Server, on_manager, remove_topics, send_last_will}
use t1_tp.Server.Loop.{Arrival, client_loop}

-- A connection that a client opens: what it sends first, and then; `try_clone` is what the operating
-- system gives for a second handle.
pub record Visit (S I L : Type 0) : Type 0 where
  pub network_connection : NetworkConnection S I
  pub hello : List ℕ
  pub end_error : IoError
  pub try_clone : S → Option S
  pub now : ℕ
  pub random : ℕ
  pub parts : List (Arrival S I L)

-- `wait_for_connect`
unfoldable pub wait_for_connect : IoError → List ℕ → ServerResult Connect
wait_for_connect e hello = elim (new_from_zero e hello) [
  | PacketResult.ok (connect, rest) ↦ ok connect
  | PacketResult.err kind ↦ elim kind [
    | invalid_protocol ↦ err (connection_refused unacceptable_protocol_version)
    | invalid_protocol_level ↦ err (connection_refused unacceptable_protocol_version)
    | other_kind ↦ err (from_packet_error other_kind)
  ]
  | PacketResult.panic ↦ panic
]

-- The answer of `network_connection.write_all(&packet.encode()?)?`
unfoldable pub write_connack : {S : Type 0} → StreamIo S → Connack → S → ServerResult (Unit {0})
write_connack io connack stream = elim (Connack.encode connack) [
  | PacketResult.ok bytes ↦ of_io (io.write_all stream bytes).0
  | PacketResult.err kind ↦ err (from_packet_error kind)
  | PacketResult.panic ↦ panic
]

-- `NetworkConnection::try_clone`
unfoldable pub try_clone :
    {S I : Type 0} → (S → Option S) → NetworkConnection S I → ServerResult (NetworkConnection S I)
try_clone clone connection = elim (clone connection.stream) [
  | none ↦ err irrecoverable
  | some stream ↦ ok (record connection { stream = stream })
]

-- The last will of a session, if there is one
unfoldable pub send_will : {S I L : Type 0} → Option Publish → Action (Server S I L) (Unit {0})
send_will none = pure tt
send_will (some last_will) = send_last_will last_will

module _ {S I L : Type 0} (io : StreamIo S) (method : Login L) where
  -- `connect_client`
  unfoldable pub connect_client : Visit S I L → Action (Server S I L) ConnectInfo
  connect_client visit = do
    connect ← lift (wait_for_connect visit.end_error visit.hello)
    let (e, stream) = io.alert visit.network_connection.stream unack_resending_freq
    lift (of_io e)
    second ← lift (try_clone visit.try_clone (record visit.network_connection { stream = stream }))
    info ← on_manager (new_session io method second visit.random connect)
    if info.session_present && connect.clean_session then remove_topics info.id else pure tt
    pure info

module _ {S I L : Type 0} (io : StreamIo S) where
  -- The connection as `connect_client` leaves it
  unfoldable pub alerted : Visit S I L → Visit S I L
  alerted visit = elim (wait_for_connect visit.end_error visit.hello) [
    | ok connect ↦ record visit {
      network_connection = record visit.network_connection {
        stream = (io.alert visit.network_connection.stream unack_resending_freq).1;
      };
    }
    | err kind ↦ visit
    | panic ↦ visit
  ]

  -- `client_loop(…).unwrap_or(false)`
  unfoldable pub loop_or_false : ConnectInfo → Visit S I L → Action (Server S I L) (Option Bool)
  loop_or_false info visit s =
      let (result, s') = client_loop io info.id visit.now visit.parts s in
      elim result [
        | ok gracefully ↦ (ok gracefully, s')
        | err kind ↦ (ok (some false), s')
        | panic ↦ (panic, s')
      ]

  -- `manage_failed_connection`
  unfoldable pub manage_failed_connection :
      Visit S I L → ServerErrorKind → Action (Server S I L) (Unit {0})
  manage_failed_connection visit (connection_refused return_code) = lift (
      write_connack io (record { session_present = false; return_code = return_code })
        visit.network_connection.stream)
  manage_failed_connection visit kind = fail kind

module _ {S I L : Type 0} (io : StreamIo S) (same_id : I → I → Bool) where
  -- The end of `manage_successful_connection`, once the client has left
  unfoldable pub leave : ConnectInfo → Visit S I L → Bool → Action (Server S I L) (Unit {0})
  leave info visit gracefully = do
    left ←
        on_manager (disconnect io same_id info.id visit.network_connection gracefully visit.random)
    if left.clean_session then remove_topics info.id else pure tt
    send_will left.publish_last_will

  -- `manage_successful_connection`; nothing comes behind the loop while the client stays.
  unfoldable pub manage_successful_connection :
      ConnectInfo → Visit S I L → Action (Server S I L) (Unit {0})
  manage_successful_connection info visit = do
    lift (
        write_connack io (record { session_present = info.session_present; return_code = accepted })
          visit.network_connection.stream)
    send_will info.takeover_last_will
    gracefully ← loop_or_false io info visit
    elim gracefully [ none ↦ pure tt | some gracefully ↦ leave info visit gracefully ]

module _ {S I L : Type 0} (io : StreamIo S) (same_id : I → I → Bool) (method : Login L) where
  -- `_run_client`
  unfoldable pub run_client : Visit S I L → Action (Server S I L) (Unit {0})
  run_client visit s =
      let (result, s') = connect_client io method visit s in
      elim result [
        | ok info ↦ manage_successful_connection io same_id info (alerted io visit) s'
        | err kind ↦ manage_failed_connection io (alerted io visit) kind s'
        | panic ↦ (panic, s')
      ]

module _ {S I L : Type 0} where
  -- The loops of `Server::shutdown`
  unfoldable pub remove_all : List ClientId → Action (Server S I L) (Unit {0})
  remove_all [] = pure tt
  remove_all (id ∷ ids) = do remove_topics id; remove_all ids

  unfoldable pub send_last_wills : List (ClientId × Publish) → Action (Server S I L) (Unit {0})
  send_last_wills [] = pure tt
  send_last_wills ((id, last_will) ∷ more) = do send_last_will last_will; send_last_wills more

-- `Server::shutdown`
unfoldable pub shutdown_server :
    {S I L : Type 0} → StreamIo S → (ClientId → ℕ) → Action (Server S I L) (Unit {0})
shutdown_server io random = do
  info ← on_manager (shutdown io false random)
  remove_all info.clean_session_ids
  send_last_wills info.last_will_packets
