-- ===== src/Server/Connection/Unanswered.antt =====
-- server/src/server/mod.rs: a client whose CONNACK packet cannot be written.
use t1_tp.Common.{
  ℕ, ◌≡◌, refl, ap, ◌∙◌, Bool, false, inl, inr, List, [], ◌∷◌, Option, some, arith, if◌then◌else◌,
  same_text_iff,
}
use t1_tp.Common.Map.{get, text_key}
use t1_tp.Packets.Error.{IoError}
use t1_tp.Packets.Connack
use t1_tp.Packets.Connack.{Connack, accepted, code_byte}
use t1_tp.Packets.Header.{PacketType, build_control_byte}
use t1_tp.Packets.Connect.{Connect}
use t1_tp.Server.Result.{ok, of_io, Result-cases, is_ok}
use t1_tp.Server.Client.{Client, StreamIo, NetworkConnection, unack_resending_freq}
use t1_tp.Server.Manager.{Login, ConnectInfo, new_session}
use t1_tp.Server.Manager.Sessions.{new_session-enter, enter-answer}
use t1_tp.Server.Processing.{Server, on_manager, remove_topics}
use t1_tp.Server.Connection.{
  Connect, alerted, Visit, wait_for_connect, try_clone, connect_client, write_connack,
  manage_successful_connection, run_client,
}

module _ {S : Type 0} (io : StreamIo S) where
  write_connack-fails :
      (connack : Connack) (stream : S)
      → ((bytes : List ℕ) → (e : IoError) × ((io.write_all stream bytes).0 ≡ some e))
      → is_ok (write_connack io connack stream) ≡ false
  unfolding write_connack Connack.encode
  write_connack-fails connack stream h =
      let (e, failed) = h (
        build_control_byte PacketType.connack 0
        ∷ 2
        ∷ (if connack.session_present then 1 else 0)
        ∷ code_byte connack.return_code
        ∷ []) in
      rw failed refl

module _ {S I : Type 0} where
  cloned_id :
      (clone : S → Option S) (conn second : NetworkConnection S I)
      → try_clone clone conn ≡ ok second
      → second.id ≡ conn.id
  unfolding try_clone
  cloned_id clone conn second h = ground arith

module _ {S I L : Type 0} (io : StreamIo S) where
  -- `connect_client` that succeeds begins a session with a second handle of the connection.
  connect_client-begins :
      (method : Login L) (visit : Visit S I L) (s : Server S I L) (info : ConnectInfo)
      → (connect_client io method visit s).0 ≡ ok info
      → (connect : Connect) × (second : NetworkConnection S I) × (second.id
          ≡ visit.network_connection.id)
        × ((new_session io method second visit.random connect s.clients_manager).0 ≡ ok info)
        × ((connect_client io method visit s).1.clients_manager
            ≡ (new_session io method second visit.random connect s.clients_manager).1)
  unfolding connect_client on_manager remove_topics
  connect_client-begins method visit s info h =
      elim (Result-cases (wait_for_connect visit.end_error visit.hello)) [
        | inl (connect, heard) ↦
            let (e, stream) = io.alert visit.network_connection.stream unack_resending_freq in
            elim (Result-cases
              (try_clone visit.try_clone (record visit.network_connection { stream = stream }))) [
                | inl (second, cloned) ↦
                    let same =
                      cloned_id visit.try_clone
                        (record visit.network_connection { stream = stream }) second cloned in
                    elim (Result-cases (of_io e)) [
                      | inl (_, alerted) ↦
                          elim (Result-cases
                            (new_session io method second visit.random connect
                              s.clients_manager).0) [
                                | inl (info', begins) ↦
                                    (connect, second, same, ground arith, ground arith)
                                | inr failed ↦ absurd (ground arith)
                              ]
                      | inr failed ↦ absurd (ground arith)
                    ]
                | inr failed ↦ absurd (ground arith)
              ]
        | inr failed ↦ absurd (ground arith)
      ]

  -- Behind `connect_client` that succeeds there is a session under the id of the answer, and it is
  -- connected by a handle of the connection.
  connected_session :
      (method : Login L) (visit : Visit S I L) (s : Server S I L) (info : ConnectInfo)
      → (connect_client io method visit s).0 ≡ ok info
      → (client : Client S I) × (handle : NetworkConnection S I) × (get info.id
            (connect_client io method visit s).1.clients_manager.clients
          ≡ some client)
        × (client.connection ≡ some handle)
        × (handle.id ≡ visit.network_connection.id)
  connected_session method visit s info h =
      let (connect, second, same, begins, manager) = connect_client-begins method visit s info h in
      let (settled, settles, enters, whole) =
        new_session-enter io second visit.random method connect s.clients_manager info begins in
      let (id, present, client, connected, given, found) =
        enter-answer io second visit.random settled _ info enters in
      (
        client,
        second,
        rw (manager, whole, found info.id)
            (ground (arith, same_text_iff settled.client_id info.id)),
        connected,
        same,
      )

module _ {S I L : Type 0} (io : StreamIo S) (same_id : I → I → Bool) (method : Login L) where
  unwritten :
      (visit : Visit S I L) (s : Server S I L) (info : ConnectInfo)
      → ((bytes : List ℕ)
          → (e : IoError) × ((io.write_all (alerted io visit).network_connection.stream bytes).0
              ≡ some e))
      → (connect_client io method visit s).0 ≡ ok info
      → (run_client io same_id method visit s).1 ≡ (connect_client io method visit s).1
  unfolding run_client manage_successful_connection
  unwritten visit s info fails h =
      let answer : Connack = record {
        session_present = info.session_present;
        return_code = accepted;
      } in
      let failed =
        write_connack-fails io answer (alerted io visit).network_connection.stream fails in
      elim (Result-cases (write_connack io answer (alerted io visit).network_connection.stream)) [
        | inl (_, written) ↦ absurd (ground arith)
        | inr _ ↦ ground arith
      ]

  -- When nothing can be written to the stream of a client that is let in, its session stays behind
  -- `_run_client` as a connected one.
  pub run_client-unwritten :
      (visit : Visit S I L) (s : Server S I L) (info : ConnectInfo)
      → ((bytes : List ℕ)
          → (e : IoError) × ((io.write_all (alerted io visit).network_connection.stream bytes).0
              ≡ some e))
      → (connect_client io method visit s).0 ≡ ok info
      → (client : Client S I) × (handle : NetworkConnection S I) × (get info.id
            (run_client io same_id method visit s).1.clients_manager.clients
          ≡ some client)
        × (client.connection ≡ some handle)
        × (handle.id ≡ visit.network_connection.id)
  run_client-unwritten visit s info fails h =
      let (client, handle, found, connected, same) = connected_session io method visit s info h in
      (
        client,
        handle,
        ap (λ (s' : Server S I L). get info.id s'.clients_manager.clients)
              (unwritten visit s info fails h)
            ∙ found,
        connected,
        same,
      )
