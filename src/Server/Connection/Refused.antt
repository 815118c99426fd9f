-- ===== src/Server/Connection/Refused.antt =====
-- server/src/server/mod.rs and clients_manager/mod.rs: the clients that the server refuses.
use t1_tp.Common.{[], ℕ, ◌≡◌, refl, Bool, true, false, inl, inr, Option, arith, Option-cases}
use t1_tp.Common.Map.{get, text_key}
use t1_tp.Packets.Error.{IoError}
use t1_tp.Packets.Connect.{take_last_will, LastWill, Connect}
use t1_tp.Server.Result.{ServerResult, err, of_io, from_io_error, connection_refused, Result-cases}
use t1_tp.Server.Client
use t1_tp.Server.Client.{
  Client, StreamIo, NetworkConnection, reconnect, check_reconnect_id, on_stream,
  unack_resending_freq, publish_of_will,
}
use t1_tp.Server.Manager.{
  new_generic_id, ClientsManager, Login, new_session, check_credentials, with_id, enter,
  process_client_empty_id,
}
use t1_tp.Server.Manager.Credentials.{check_credentials-clients}
use t1_tp.Server.Manager.Sessions.{enter-none, enter-some}
use t1_tp.Server.Processing.{Server, on_manager, remove_topics}
use t1_tp.Server.Connection.{Visit, wait_for_connect, try_clone, connect_client}

-- Whether a result is a refusal
abbrev pub refuses : {A : Type 0} → ServerResult A → Bool
refuses (err (connection_refused code)) = true
refuses _ = false

of_io-accepts : (e : Option IoError) → refuses (of_io e) ≡ false
unfolding from_io_error
of_io-accepts e = ground arith

publish_of_will-accepts :
    (will : LastWill) (random : ℕ) → refuses (publish_of_will will random) ≡ false
unfolding publish_of_will
publish_of_will-accepts will random = ground arith

module _ {S I : Type 0} (io : StreamIo S) where
  on_stream-accepts :
      (operation : S → Option IoError × S) (c : Client S I)
      → refuses (on_stream io operation c).0 ≡ false
  unfolding on_stream
  on_stream-accepts operation c = elim (Option-cases c.connection) [
    | inl e ↦ rw (e, on_stream) refl
    | inr (connection, e) ↦ rw (e, on_stream) (of_io-accepts (operation connection.stream).0)
  ]

  disconnect-accepts :
      (gracefully : Bool) (random : ℕ) (c : Client S I)
      → refuses (Client.disconnect io gracefully random c).0 ≡ false
  unfolding Client.disconnect take_last_will
  disconnect-accepts gracefully random c = elim (Option-cases c.connect.last_will) [
    | inl e ↦ ground (arith, on_stream-accepts io.close c)
    | inr (will, e) ↦
        ground (arith, on_stream-accepts io.close c, publish_of_will-accepts will random)
  ]

  reconnect-accepts :
      (connect : Connect) (conn : NetworkConnection S I) (random : ℕ) (c : Client S I)
      → refuses (reconnect io connect conn random c).0 ≡ false
  unfolding reconnect check_reconnect_id
  reconnect-accepts connect conn random c = ground (
    arith,
    disconnect-accepts false random c,
    disconnect-accepts false random (record c { unacknowledged = [] }),
  )

module _ {S I L : Type 0} (io : StreamIo S) (connection : NetworkConnection S I) (random : ℕ) where
  enter-accepts :
      (connect : Connect) (m : ClientsManager S I L)
      → refuses (enter io connection random connect m).0 ≡ false
  enter-accepts connect m = elim (Option-cases (get connect.client_id m.clients)) [
    | inl e ↦ rw (enter-none io connection random connect m e) refl
    | inr (old, e) ↦ ground (
      arith,
      enter-some io connection random connect m old e,
      reconnect-accepts io connect connection random old,
    )
  ]

  with_id-unchanged :
      (connect : Connect) (m : ClientsManager S I L)
      → refuses (with_id connect m).0 ≡ true
      → (with_id connect m).1.clients ≡ m.clients
  unfolding with_id process_client_empty_id new_generic_id
  with_id-unchanged connect m h = ground arith

  new_session-refused :
      (method : Login L) (connect : Connect) (m : ClientsManager S I L)
      → refuses (new_session io method connection random connect m).0 ≡ true
      → (new_session io method connection random connect m).1.clients ≡ m.clients
  unfolding new_session
  new_session-refused method connect m h =
      elim (Result-cases (check_credentials method connect m).0) [
        | inl (_, checked) ↦
            elim (Result-cases (with_id connect (check_credentials method connect m).1).0) [
              | inl (settled, settles) ↦ ground (
                arith,
                enter-accepts settled (with_id connect (check_credentials method connect m).1).1,
              )
              | inr failed ↦ ground (
                arith,
                with_id-unchanged connect (check_credentials method connect m).1,
                check_credentials-clients method connect m,
              )
            ]
        | inr failed ↦ ground (arith, check_credentials-clients method connect m)
      ]

-- A client that is refused, whatever the return code, changes no session of the server.
pub connect_client-refused :
    {S I L : Type 0} (io : StreamIo S) (method : Login L) (visit : Visit S I L) (s : Server S I L)
    → refuses (connect_client io method visit s).0 ≡ true
    → (connect_client io method visit s).1.clients_manager.clients ≡ s.clients_manager.clients
unfolding connect_client on_manager remove_topics
connect_client-refused io method visit s h =
    elim (Result-cases (wait_for_connect visit.end_error visit.hello)) [
      | inl (connect, heard) ↦
          let (e, stream) = io.alert visit.network_connection.stream unack_resending_freq in
          elim (Result-cases
            (try_clone visit.try_clone (record visit.network_connection { stream = stream }))) [
              | inl (second, cloned) ↦ ground (
                arith,
                of_io-accepts e,
                new_session-refused io second visit.random method connect s.clients_manager,
              )
              | inr failed ↦ ground (arith, of_io-accepts e)
            ]
      | inr failed ↦ ground arith
    ]
