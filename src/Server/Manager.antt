-- ===== src/Server/Manager.antt =====
-- server/src/clients_manager/mod.rs and server/src/traits.rs: the sessions that the server knows, how
-- they begin and end. The login method, the streams and the equality of two addresses are parameters;
-- the random numbers that the source asks for are arguments.
pub mod GenericId
pub mod Credentials
pub mod Sessions
pub mod Fresh
pub mod Acting
pub mod Ending
pub mod Reachable
pub mod Shutdown
use t1_tp.Common.{
  ℕ, ◌+◌, ◌/◌, ◌%◌, ◌^◌, ltb, Bool, true, false, not, zero, suc, List, [], ◌∷◌, ◌++◌, is_empty,
  starts_with, same_text, Option, none, some, if◌then◌else◌,
}
use t1_tp.Common.Map.{Map, get, insert, remove, text_key}
use t1_tp.Packets.Error.{IoError}
use t1_tp.Packets.Publish.{Publish}
use t1_tp.Packets.Connack.{identifier_rejected, not_authorized, bad_user_name_or_password}
use t1_tp.Packets.Connect.{Connect, set_id}
use t1_tp.Topics.Tree.{ClientId}
use t1_tp.Server.Result.{
  ServerErrorKind, ServerResult, ok, err, panic, from_io_error, client_not_found,
  connection_refused,
}
use t1_tp.Server.Action.{Action, pure, fail, ◌>>=◌, ◌>>◌}
use t1_tp.Server.Client
use t1_tp.Server.Client.{Client, NetworkConnection, StreamIo, reconnect}

pub data LoginResult : Type 0 where
  username_not_found invalid_password accepted : LoginResult

-- The answer of `Login::login`
pub data LoginAnswer : Type 0 where
  answered : LoginResult → LoginAnswer
  io_failed : IoError → LoginAnswer

-- `Login`: asked for a user name and a password
pub record Login (L : Type 0) : Type 0 where
  pub login : L → List ℕ → List ℕ → LoginAnswer × L

-- `ClientsManager`
pub record ClientsManager (S I L : Type 0) : Type 0 where
  pub clients : Map ClientId (Client S I)
  pub login : Option L
  pub generic_ids_counter : ℕ

pub record DisconnectInfo : Type 0 where
  pub publish_last_will : Option Publish
  pub clean_session : Bool

pub record ConnectInfo : Type 0 where
  pub id : ClientId
  pub session_present : Bool
  pub takeover_last_will : Option Publish

-- `GENERIC_ID_SUFFIX`
abbrev pub generic_id_suffix : List ℕ
generic_id_suffix = b'_' ∷ b'_' ∷ b'C' ∷ b'L' ∷ b'I' ∷ b'E' ∷ b'N' ∷ b'T' ∷ b'_' ∷ b'_' ∷ []

-- The decimal digits of a number, on fuel for the count of them.
unfoldable pub digits : ℕ → ℕ → List ℕ
digits zero n = []
digits (suc fuel) n = elim (ltb n 10) [
  | true ↦ (b'0' + n) ∷ []
  | false ↦ digits fuel (n / 10) ++ ((b'0' + n % 10) ∷ [])
]

-- The text that `new_generic_id` makes of a number: a number of 32 bits has at most ten digits.
unfoldable pub generic_id : ℕ → List ℕ
generic_id n = generic_id_suffix ++ digits 10 n

module _ {S I L : Type 0} where
  -- `ClientsManager::new`
  unfoldable pub new : Option L → ClientsManager S I L
  new login = record { clients = []; login = login; generic_ids_counter = 0 }

  -- `ClientsManager::set_auth`
  unfoldable pub set_auth : Option L → ClientsManager S I L → ClientsManager S I L
  set_auth login m = record m { login = login }

  -- `ClientsManager::client_do`
  unfoldable pub client_do :
      {T : Type 0} → ClientId → Action (Client S I) T → Action (ClientsManager S I L) T
  client_do id action m = elim (get id m.clients) [
    | none ↦ (err client_not_found, m)
    | some client ↦
        let (result, client') = action client in
        (result, record m { clients = insert id client' m.clients })
  ]

  -- `client_add`
  unfoldable pub client_add : Client S I → ClientsManager S I L → ClientsManager S I L
  client_add client m = record m { clients = insert client.id client m.clients }

  -- `check_taken_ids`
  unfoldable pub check_taken_ids : ClientId → List ℕ → Action (ClientsManager S I L) (Unit {0})
  check_taken_ids id user_name m = elim (get id m.clients) [
    | none ↦ (ok tt, m)
    | some client ↦ elim client.connect.user_name [
      | none ↦ (ok tt, m)
      | some old_user_name ↦
          if not (same_text user_name old_user_name)
          then (err (connection_refused identifier_rejected), m)
          else (ok tt, m)
    ]
  ]

  -- What `check_credentials` makes of the answer of the login.
  unfoldable pub on_login_answer :
      ClientId → List ℕ → LoginAnswer → Action (ClientsManager S I L) (Unit {0})
  on_login_answer id user_name (io_failed e) = fail (from_io_error e)
  on_login_answer id user_name (answered username_not_found) =
      fail (connection_refused not_authorized)
  on_login_answer id user_name (answered invalid_password) =
      fail (connection_refused bad_user_name_or_password)
  on_login_answer id user_name (answered accepted) = check_taken_ids id user_name

  -- `new_generic_id`; the counter is a `u32`.
  unfoldable pub new_generic_id : ClientsManager S I L → List ℕ × ClientsManager S I L
  new_generic_id m =
      let counter = (m.generic_ids_counter + 1) % 2 ^ 32 in
      (generic_id counter, record m { generic_ids_counter = counter })

  -- `process_client_empty_id`: the packet with its new id.
  unfoldable pub process_client_empty_id : Connect → Action (ClientsManager S I L) Connect
  process_client_empty_id connect m =
      if not connect.clean_session
      then (err (connection_refused identifier_rejected), m)
      else (let (id, m') = new_generic_id m in (ok (set_id connect id), m'))

  -- The packet whose id is not empty, which `new_session` goes on with
  unfoldable pub with_id : Connect → Action (ClientsManager S I L) Connect
  with_id connect =
      if is_empty connect.client_id then process_client_empty_id connect else pure connect

module _ {S I L : Type 0} (method : Login L) where
  -- `check_credentials`
  unfoldable pub check_credentials : Connect → Action (ClientsManager S I L) (Unit {0})
  check_credentials connect m =
      if starts_with generic_id_suffix connect.client_id
      then (err (connection_refused identifier_rejected), m)
      else elim m.login [
        | none ↦ (ok tt, m)
        | some login ↦ elim connect.user_name [
          | none ↦ (err (connection_refused not_authorized), m)
          | some user_name ↦ elim connect.password [
            | none ↦ (err (connection_refused bad_user_name_or_password), m)
            | some password ↦
                let (answer, login') = method.login login user_name password in
                on_login_answer connect.client_id user_name answer
                  (record m { login = some login' })
          ]
        ]
      ]

module _ {S I L : Type 0} (io : StreamIo S) where
  -- The end of `new_session`, with the id settled: the session goes on, or a new one begins.
  unfoldable pub enter :
      NetworkConnection S I → ℕ → Connect → Action (ClientsManager S I L) ConnectInfo
  enter network_connection random connect m = elim (get connect.client_id m.clients) [
    | none ↦ (
      ok (record { id = connect.client_id; session_present = false; takeover_last_will = none }),
      client_add (Client.new connect network_connection) m,
    )
    | some old_client ↦
        (let (result, client) = reconnect io connect network_connection random old_client in
          let m' : ClientsManager S I L = record m {
            clients = insert connect.client_id client m.clients;
          } in
          elim result [
            | err kind ↦ (err kind, m')
            | panic ↦ (panic, m')
            | ok takeover_last_will ↦ (
              ok (record {
                id = connect.client_id;
                session_present = true;
                takeover_last_will = takeover_last_will;
              }),
              m',
            )
          ])
  ]

  -- `new_session`
  unfoldable pub new_session :
      Login L → NetworkConnection S I → ℕ → Connect → Action (ClientsManager S I L) ConnectInfo
  new_session method network_connection random connect = do
    check_credentials method connect
    settled ← with_id connect
    enter network_connection random settled

-- The answer for a session that the thread has nothing to do with any more
unfoldable pub already_disconnected : DisconnectInfo
already_disconnected = record { publish_last_will = none; clean_session = false }

module _ {S I : Type 0} (same_id : I → I → Bool) where
  -- Whether another connection has taken the session over.
  unfoldable pub is_taken_over : NetworkConnection S I → Client S I → Bool
  is_taken_over network_connection client = elim client.connection [
    | none ↦ false
    | some old ↦ not (same_id network_connection.id old.id)
  ]

module _ {S I L : Type 0} where
  -- The end of `disconnect`: a clean session goes away.
  unfoldable pub forget_clean :
      ClientId → Option Publish → Action (ClientsManager S I L) DisconnectInfo
  forget_clean id publish_last_will m = elim (get id m.clients) [
    | none ↦ (panic, m)
    | some client ↦
        if client.connect.clean_session
        then (
          ok (record { publish_last_will = publish_last_will; clean_session = true }),
          record m { clients = remove id m.clients },
        )
        else (ok (record { publish_last_will = publish_last_will; clean_session = false }), m)
  ]

module _ {S I L : Type 0} (io : StreamIo S) (same_id : I → I → Bool) where
  -- `ClientsManager::disconnect`
  unfoldable pub disconnect :
      ClientId → NetworkConnection S I → Bool → ℕ → Action (ClientsManager S I L) DisconnectInfo
  disconnect id network_connection gracefully random m = elim (get id m.clients) [
    | none ↦ (ok already_disconnected, m)
    | some client ↦
        if is_taken_over same_id network_connection client
        then (ok already_disconnected, m)
        else (client_do id (Client.disconnect io gracefully random) >>= forget_clean id) m
  ]
