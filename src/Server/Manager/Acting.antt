-- ===== src/Server/Manager/Acting.antt =====
-- server/src/clients_manager/mod.rs: the sessions behind an operation on one of them.
use t1_tp.Common.{
  ℕ, ◌≡◌, refl, ap, ◌∙◌, Bool, ◌&&◌, inl, inr, same_text, same_text_iff, if◌then◌else◌, Option,
  none, some, arith, Bool-cases, Option-cases,
}
use t1_tp.Common.Map.{get, insert, get-insert, get-remove, text_key}
use t1_tp.Packets.Publish.{Publish}
use t1_tp.Topics.Tree.{ClientId}
use t1_tp.Server.Result.{ServerResult, is_ok, ok, err, panic}
use t1_tp.Server.Action.{then_do, Action}
use t1_tp.Server.Client
use t1_tp.Server.Client.{Client, StreamIo, NetworkConnection, on_stream, publish_of_will}
use t1_tp.Server.Manager.{
  ClientsManager, DisconnectInfo, is_taken_over, client_do, forget_clean, disconnect,
}

pub client_do-some :
    {S I L T : Type 0} (id : ClientId) (action : Action (Client S I) T) (m : ClientsManager S I L)
    (client : Client S I)
    → get id m.clients ≡ some client
    → client_do id action m
      ≡ ((action client).0, record m { clients = insert id (action client).1 m.clients })
unfolding client_do
client_do-some id action m client e = rw (e, client_do) refl

module _ {S I : Type 0} (io : StreamIo S) (same_id : I → I → Bool)
    (connection : NetworkConnection S I) (gracefully : Bool) (random : ℕ) where
  -- The session behind the operations of `disconnect`
  abbrev pub left_over : Option (Client S I) → Option (Client S I)
  left_over none = none
  left_over (some client) =
      if is_taken_over same_id connection client
      then some client
      else (let (result, client') = Client.disconnect io gracefully random client in
          if is_ok result && client'.connect.clean_session then none else some client')

module _ {S I L : Type 0} (id : ClientId) where
  forget_clean-get :
      (will : Option Publish) (client : Client S I) (m : ClientsManager S I L) (j : ClientId)
      → get id m.clients ≡ some client
      → get j (forget_clean id will m).1.clients
        ≡ (if client.connect.clean_session && same_text id j then none else get j m.clients)
  unfolding forget_clean
  forget_clean-get will client m j e =
      rw (e, forget_clean) (ground (arith, get-remove id j m.clients))

  abbrev stored : Client S I → ClientsManager S I L → ClientsManager S I L
  stored client m = record m { clients = insert id client m.clients }

  forgetting :
      (r : ServerResult (Option Publish)) (client : Client S I) (m : ClientsManager S I L)
      (j : ClientId)
      → get j
          (elim r as (λ _. ServerResult DisconnectInfo × ClientsManager S I L) [
            | ok will ↦ forget_clean id will (stored client m)
            | err kind ↦ (err kind, stored client m)
            | panic ↦ (panic, stored client m)
          ]).1.clients
        ≡ (if same_text id j
            then (if is_ok r && client.connect.clean_session then none else some client)
            else get j m.clients)
  forgetting (ok will) client m j = ground (
    arith,
    get-insert id j client m.clients,
    forget_clean-get will client (stored client m) j
        (get-insert id id client m.clients ∙ ground (arith, same_text_iff id id)),
  )
  forgetting (err kind) client m j = get-insert id j client m.clients
  forgetting panic client m j = get-insert id j client m.clients

module _ {S I L : Type 0} (io : StreamIo S) (same_id : I → I → Bool) (id : ClientId)
    (connection : NetworkConnection S I) (gracefully : Bool) (random : ℕ) where
  pub disconnect-left_over :
      (m : ClientsManager S I L) (j : ClientId)
      → get j (disconnect io same_id id connection gracefully random m).1.clients ≡ (
          if same_text id j
          then left_over io same_id connection gracefully random (get id m.clients)
          else get j m.clients)
  unfolding disconnect
  disconnect-left_over m j = elim (Option-cases (get id m.clients)) [
    | inl e ↦ rw (e, disconnect) (ground (arith, same_text_iff id j, e))
    | inr (client, e) ↦ elim (Bool-cases (is_taken_over same_id connection client)) [
      | inl taken ↦ rw (e, disconnect, taken) (ground (arith, same_text_iff id j, e))
      | inr own ↦
          rw (e, disconnect, own)
            (ap (λ x. get j (then_do (forget_clean id) x).1.clients)
                (client_do-some id (Client.disconnect io gracefully random) m client e)
              ∙ forgetting id (Client.disconnect io gracefully random client).0
                  (Client.disconnect io gracefully random client).1 m j)
    ]
  ]

  pub disconnect-counter :
      (m : ClientsManager S I L)
      → (disconnect io same_id id connection gracefully random m).1.generic_ids_counter
        ≡ m.generic_ids_counter
  unfolding disconnect client_do forget_clean
  disconnect-counter m = ground arith

-- What an operation on a session makes of it, if it is there
abbrev pub acted :
    {S I T : Type 0} → Action (Client S I) T → Option (Client S I) → Option (Client S I)
acted action none = none
acted action (some client) = some (action client).1

module _ {S I L T : Type 0} (id : ClientId) (action : Action (Client S I) T)
    (m : ClientsManager S I L) where
  pub client_do-acted :
      (j : ClientId)
      → get j (client_do id action m).1.clients
        ≡ (if same_text id j then acted action (get id m.clients) else get j m.clients)
  unfolding client_do
  client_do-acted j = elim (Option-cases (get id m.clients)) [
    | inl e ↦ rw (e, client_do) (ground (arith, same_text_iff id j, e))
    | inr (client, e) ↦ rw (e, client_do) (get-insert id j (action client).1 m.clients)
  ]

  pub client_do-counter : (client_do id action m).1.generic_ids_counter ≡ m.generic_ids_counter
  unfolding client_do
  client_do-counter = ground arith
