-- ===== src/Server/Manager/Sessions.antt =====
-- server/src/clients_manager/mod.rs: the sessions behind each operation of the manager, and the ids
-- that it gives out.
use t1_tp.Common.{
  ℕ, ◌+◌, ◌%◌, ◌^◌, ◌≡◌, refl, sym, ap, Bool, true, false, inl, inr, [], same_text, ◌∙◌, is_empty,
  if◌then◌else◌, Option, none, some, arith, Option-cases,
}
use t1_tp.Common.Map.{get, insert, get-insert, text_key}
use t1_tp.Packets.Publish.{Publish, is_some}
use t1_tp.Packets.Connect.{Connect, set_id}
use t1_tp.Packets.Connack.{identifier_rejected}
use t1_tp.Topics.Tree.{ClientId}
use t1_tp.Server.Result.{ok, err, panic, connection_refused}
use t1_tp.Server.Action.{bind-ok, ◌>>=◌}
use t1_tp.Server.Client
use t1_tp.Server.Client.{Client, StreamIo, NetworkConnection, reconnect, check_reconnect_id}
use t1_tp.Server.Manager.{
  ClientsManager, Login, ConnectInfo, check_credentials, generic_id, with_id,
  process_client_empty_id, new_generic_id, enter, client_add, new_session,
}

module _ {S I L : Type 0} where
  -- Each session is stored under its own id.
  abbrev pub IsKeyed : ClientsManager S I L → Type 0
  IsKeyed m =
      (id : ClientId) (client : Client S I) → get id m.clients ≡ some client → client.id ≡ id

  pub get-client_add :
      (client : Client S I) (m : ClientsManager S I L) (id : ClientId)
      → get id (client_add client m).clients
        ≡ (if same_text client.id id then some client else get id m.clients)
  unfolding client_add
  get-client_add client m id = get-insert client.id id client m.clients

  pub with_id-given :
      (connect : Connect) (m : ClientsManager S I L)
      → is_empty connect.client_id ≡ false
      → with_id connect m ≡ (ok connect, m)
  unfolding with_id
  with_id-given connect m e = simp (e, with_id)

  pub with_id-generic :
      (connect : Connect) (m : ClientsManager S I L)
      → is_empty connect.client_id ≡ true
      → with_id connect m ≡ (
          if connect.clean_session
          then (
            ok (record connect { client_id = generic_id ((m.generic_ids_counter + 1) % 2 ^ 32) }),
            record m { generic_ids_counter = (m.generic_ids_counter + 1) % 2 ^ 32 },
          )
          else (err (connection_refused identifier_rejected), m))
  unfolding with_id process_client_empty_id new_generic_id set_id
  with_id-generic connect m e = rw (e, with_id) (ground arith)

module _ {S I : Type 0} (io : StreamIo S) where
  pub disconnect-id :
      (gracefully : Bool) (random : ℕ) (c : Client S I)
      → ((Client.disconnect io gracefully random c).1.id ≡ c.id)
        × ((Client.disconnect io gracefully random c).1.connection ≡ none)
  unfolding Client.disconnect
  disconnect-id gracefully random c = ground arith

  pub reconnect-id :
      (connect : Connect) (conn : NetworkConnection S I) (random : ℕ) (c : Client S I)
      → (reconnect io connect conn random c).1.id ≡ c.id
  unfolding reconnect
  reconnect-id connect conn random c = ground (
    arith,
    disconnect-id false random c,
    disconnect-id false random (record c { unacknowledged = [] }),
  )

  reconnect-ok :
      (connect : Connect) (conn : NetworkConnection S I) (random : ℕ) (c : Client S I)
      (will : Option Publish)
      → (reconnect io connect conn random c).0 ≡ ok will
      → ((reconnect io connect conn random c).1.connection ≡ some conn)
        × ((reconnect io connect conn random c).1.connect ≡ connect)
  unfolding reconnect
  reconnect-ok connect conn random c will h = ground arith

module _ {S I L : Type 0} (io : StreamIo S) (connection : NetworkConnection S I) (random : ℕ)
    (connect : Connect) (m : ClientsManager S I L) where
  pub enter-none :
      get connect.client_id m.clients ≡ none
      → enter io connection random connect m ≡ (
        ok (record { id = connect.client_id; session_present = false; takeover_last_will = none }),
        client_add (Client.new connect connection) m,
      )
  unfolding enter
  enter-none e = rw (e, enter) refl

  pub enter-some :
      (old : Client S I)
      → get connect.client_id m.clients ≡ some old
      → let (result, client) = reconnect io connect connection random old in
        let m' : ClientsManager S I L = record m {
          clients = insert connect.client_id client m.clients;
        } in
        enter io connection random connect m ≡ elim result [
          | err kind ↦ (err kind, m')
          | panic ↦ (panic, m')
          | ok will ↦ (
            ok (record {
              id = connect.client_id;
              session_present = true;
              takeover_last_will = will;
            }),
            m',
          )
        ]
  unfolding enter
  enter-some old e = rw (e, enter) refl

  -- What `enter` leaves: the session under the packet's id, whether or not it succeeds, and the others.
  pub enter-clients :
      IsKeyed m
      → (client : Client S I) × (client.id ≡ connect.client_id)
        × ((id : ClientId)
            → get id (enter io connection random connect m).1.clients
              ≡ (if same_text connect.client_id id then some client else get id m.clients))
  unfolding Client.new
  enter-clients keyed = elim (Option-cases (get connect.client_id m.clients)) [
    | inl e ↦ (
      Client.new connect connection,
      refl,
      λ id. rw (enter-none e) (get-client_add (Client.new connect connection) m id),
    )
    | inr (old, e) ↦
        let (result, client) = reconnect io connect connection random old in
        (
          client,
          reconnect-id io connect connection random old ∙ keyed connect.client_id old e,
          λ id.
              rw (enter-some old e)
                (ground (arith, get-insert connect.client_id id client m.clients)),
        )
  ]

  -- What `enter` answers, and the session that it leaves when it succeeds.
  abbrev pub IsEntered : ConnectInfo → ClientsManager S I L → Type 0
  IsEntered info m' =
      (info.id ≡ connect.client_id)
      × (info.session_present ≡ is_some (get connect.client_id m.clients))
      × (client : Client S I) × (client.connection ≡ some connection)
      × (client.connect ≡ connect)
      × ((id : ClientId)
          → get id m'.clients
            ≡ (if same_text connect.client_id id then some client else get id m.clients))

  pub enter-answer :
      (info : ConnectInfo)
      → (enter io connection random connect m).0 ≡ ok info
      → IsEntered info (enter io connection random connect m).1
  unfolding Client.new
  enter-answer info h = elim (Option-cases (get connect.client_id m.clients)) [
    | inl e ↦ (
      ground (arith, enter-none e),
      ground (arith, enter-none e),
      Client.new connect connection,
      refl,
      refl,
      λ id. rw (enter-none e) (get-client_add (Client.new connect connection) m id),
    )
    | inr (old, e) ↦
        let (result, client) = reconnect io connect connection random old in
        let (connected, given) =
          reconnect-ok io connect connection random old info.takeover_last_will
            (ground (arith, enter-some old e)) in
        (
          ground (arith, enter-some old e),
          ground (arith, enter-some old e),
          client,
          connected,
          given,
          λ id.
              rw (enter-some old e)
                (ground (arith, get-insert connect.client_id id client m.clients)),
        )
  ]

  pub enter-counter :
      (enter io connection random connect m).1.generic_ids_counter ≡ m.generic_ids_counter
  unfolding enter client_add
  enter-counter = ground arith

module _ {S I L : Type 0} (io : StreamIo S) (connection : NetworkConnection S I) (random : ℕ)
    (method : Login L) (connect : Connect) (m : ClientsManager S I L) where
  -- A call of `new_session` that succeeds enters with the packet that `with_id` gives.
  pub new_session-enter :
      (info : ConnectInfo)
      → (new_session io method connection random connect m).0 ≡ ok info
      → (settled : Connect) × ((with_id connect (check_credentials method connect m).1).0
          ≡ ok settled)
        × ((enter io connection random settled
              (with_id connect (check_credentials method connect m).1).1).0
            ≡ ok info)
        × (new_session io method connection random connect m
            ≡ enter io connection random settled
                (with_id connect (check_credentials method connect m).1).1)
  unfolding new_session
  new_session-enter info h =
      let (_, checked, behind) =
        bind-ok (check_credentials method connect)
          (λ _. with_id connect >>= enter io connection random) m info h in
      let h1 = sym (ap (λ x. x.0) behind) ∙ h in
      let (settled, settles, behind1) =
        bind-ok (with_id connect) (enter io connection random)
          (check_credentials method connect m).1 info h1 in
      (settled, settles, sym (ap (λ x. x.0) behind1) ∙ h1, behind ∙ behind1)
