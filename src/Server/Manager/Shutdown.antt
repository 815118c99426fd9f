-- ===== src/Server/Manager/Shutdown.antt =====
-- server/src/clients_manager/mod.rs: `shutdown` and the sessions behind it.
use t1_tp.Common.{
  inr, inl, ℕ, ◌≡◌, refl, ap, ◌∙◌, Bool, true, false, List, [], ◌∷◌, All, if◌then◌else◌, Option,
  none, some, arith,
}
use t1_tp.Common.Map.{Map}
use t1_tp.Packets.Publish.{Publish}
use t1_tp.Packets.Connect.{take_last_will}
use t1_tp.Topics.Tree.{ClientId}
use t1_tp.Server.Result.{Result-cases, ok, err, panic}
use t1_tp.Server.Action.{Action}
use t1_tp.Server.Client
use t1_tp.Server.Client.{Client, StreamIo, NetworkConnection, on_stream}
use t1_tp.Server.Manager.{ClientsManager}

pub record ShutdownInfo : Type 0 where
  pub clean_session_ids : List ClientId
  pub last_will_packets : List (ClientId × Publish)

-- The ids of the clean sessions, and the entries of the others: what `retain` makes of the entries.
unfoldable pub clean_ids : {S I : Type 0} → Map ClientId (Client S I) → List ClientId
clean_ids [] = []
clean_ids ((id, client) ∷ more) =
    let rest = clean_ids more in if client.connect.clean_session then client.id ∷ rest else rest

unfoldable pub retain_kept : {S I : Type 0} → Map ClientId (Client S I) → Map ClientId (Client S I)
retain_kept [] = []
retain_kept ((id, client) ∷ more) =
    let rest = retain_kept more in
    if client.connect.clean_session then rest else (id, client) ∷ rest

abbrev pub with_will :
    ClientId → Option Publish → List (ClientId × Publish) → List (ClientId × Publish)
with_will id none wills = wills
with_will id (some will) wills = (id, will) ∷ wills

module _ {S I : Type 0} (io : StreamIo S) (gracefully : Bool) (random : ClientId → ℕ) where
  -- The loop of `shutdown` over the entries: an error ends it, with the sessions before it disconnected.
  unfoldable pub disconnect_all : Action (Map ClientId (Client S I)) (List (ClientId × Publish))
  disconnect_all [] = (ok [], [])
  disconnect_all ((id, client) ∷ more) =
      let (rest, more') = disconnect_all more in
      let (result, client') = Client.disconnect io gracefully (random id) client in
      elim result [
        | err kind ↦ (err kind, (id, client') ∷ more)
        | panic ↦ (panic, (id, client') ∷ more)
        | ok will ↦ elim rest [
          | err kind ↦ (err kind, (id, client') ∷ more')
          | panic ↦ (panic, (id, client') ∷ more')
          | ok wills ↦ (ok (with_will id will wills), (id, client') ∷ more')
        ]
      ]

module _ {S I L : Type 0} (io : StreamIo S) (gracefully : Bool) (random : ClientId → ℕ) where
  -- `ClientsManager::shutdown`
  unfoldable pub shutdown : Action (ClientsManager S I L) ShutdownInfo
  shutdown m =
      let (result, clients) = disconnect_all io gracefully random m.clients in
      let m' : ClientsManager S I L = record m { clients = clients } in
      elim result [
        | err kind ↦ (err kind, m')
        | panic ↦ (panic, m')
        | ok wills ↦ (
          ok (record { clean_session_ids = clean_ids clients; last_will_packets = wills }),
          record m' { clients = retain_kept clients },
        )
      ]

-- The ids that the clean sessions have
abbrev pub named_clean : {S I : Type 0} → Map ClientId (Client S I) → List ClientId
named_clean [] = []
named_clean ((id, client) ∷ more) = elim client.connect.clean_session [
  | true ↦ client.id ∷ named_clean more
  | false ↦ named_clean more
]

clean_ids-named_clean :
    {S I : Type 0} (clients : Map ClientId (Client S I)) → clean_ids clients ≡ named_clean clients
unfolding clean_ids
clean_ids-named_clean [] = refl
clean_ids-named_clean ((id, client) ∷ more) = ground (arith, clean_ids-named_clean more)

-- The ids of the sessions that stay
abbrev pub kept_ids : {S I : Type 0} → Map ClientId (Client S I) → List ClientId
kept_ids [] = []
kept_ids ((id, client) ∷ more) =
    let rest = kept_ids more in if client.connect.clean_session then rest else id ∷ rest

abbrev pub ids : {S I : Type 0} → Map ClientId (Client S I) → List ClientId
ids [] = []
ids ((id, client) ∷ more) = id ∷ ids more

abbrev pub IsAlone : {S I : Type 0} → ClientId × Client S I → Type 0
IsAlone (id, client) = client.connection ≡ none

-- A session that stays behind a shutdown: it is not clean, and has no connection.
abbrev pub IsAtRest : {S I : Type 0} → ClientId × Client S I → Type 0
IsAtRest (id, client) = (client.connect.clean_session ≡ false) × (client.connection ≡ none)

module _ {S I : Type 0} (io : StreamIo S) where
  disconnect-alone :
      (gracefully : Bool) (random : ℕ) (c : Client S I)
      → ((Client.disconnect io gracefully random c).1.connection ≡ none)
        × ((Client.disconnect io gracefully random c).1.id ≡ c.id)
        × ((Client.disconnect io gracefully random c).1.connect.clean_session
            ≡ c.connect.clean_session)
  unfolding Client.disconnect take_last_will
  disconnect-alone gracefully random c = ground arith

  module _ (gracefully : Bool) (random : ClientId → ℕ) where
    disconnect_all_step :
        (id : ClientId) (client : Client S I) (more : Map ClientId (Client S I))
        (wills : List (ClientId × Publish))
        → (disconnect_all io gracefully random ((id, client) ∷ more)).0 ≡ ok wills
        → (wills' : List (ClientId × Publish)) × ((disconnect_all io gracefully random more).0
            ≡ ok wills')
          × ((disconnect_all io gracefully random ((id, client) ∷ more)).1
              ≡ (id, (Client.disconnect io gracefully (random id) client).1)
                ∷ (disconnect_all io gracefully random more).1)
    unfolding disconnect_all
    disconnect_all_step id client more wills h =
        elim (Result-cases (Client.disconnect io gracefully (random id) client).0) [
          | inl (will, e) ↦ elim (Result-cases (disconnect_all io gracefully random more).0) [
            | inl (wills', e') ↦ (wills', e', ground arith)
            | inr e' ↦ absurd (ground arith)
          ]
          | inr e ↦ absurd (ground arith)
        ]

    disconnect_all-ok :
        (clients : Map ClientId (Client S I)) (wills : List (ClientId × Publish))
        → (disconnect_all io gracefully random clients).0 ≡ ok wills
        → (clean_ids (disconnect_all io gracefully random clients).1 ≡ clean_ids clients)
          × (kept_ids (disconnect_all io gracefully random clients).1 ≡ kept_ids clients)
          × All IsAlone (disconnect_all io gracefully random clients).1
    unfolding disconnect_all clean_ids
    disconnect_all-ok [] wills h = (refl, refl, tt)
    disconnect_all-ok ((id, client) ∷ more) wills h =
        let (wills', h', clients) = disconnect_all_step id client more wills h in
        let (same, kept, alone) = disconnect_all-ok more wills' h' in
        let (apart, own, clean) = disconnect-alone gracefully (random id) client in
        rw clients (ground arith, ground arith, (apart, alone))

retain_kept-IsAtRest :
    {S I : Type 0} (clients : Map ClientId (Client S I))
    → All IsAlone clients
    → All IsAtRest (retain_kept clients) × (ids (retain_kept clients) ≡ kept_ids clients)
unfolding retain_kept
retain_kept-IsAtRest [] h = (tt, refl)
retain_kept-IsAtRest ((id, client) ∷ more) h = ground (arith, retain_kept-IsAtRest more h.1)

module _ {S I L : Type 0} (io : StreamIo S) (gracefully : Bool) (random : ClientId → ℕ) where
  shutdown-clients :
      (m : ClientsManager S I L) (wills : List (ClientId × Publish))
      → (disconnect_all io gracefully random m.clients).0 ≡ ok wills
      → (shutdown io gracefully random m).1.clients
        ≡ retain_kept (disconnect_all io gracefully random m.clients).1
  unfolding shutdown
  shutdown-clients m wills e = ground arith

  -- Behind a shutdown that succeeds no session has a connection, the sessions that stay are those that
  -- are not clean, in their order, and the answer has the ids of the clean ones.
  pub shutdown-IsAtRest :
      (m : ClientsManager S I L) (info : ShutdownInfo)
      → (shutdown io gracefully random m).0 ≡ ok info
      → (info.clean_session_ids ≡ named_clean m.clients)
        × (ids (shutdown io gracefully random m).1.clients ≡ kept_ids m.clients)
        × All IsAtRest (shutdown io gracefully random m).1.clients
  unfolding shutdown
  shutdown-IsAtRest m info h =
      elim (Result-cases (disconnect_all io gracefully random m.clients).0) [
        | inl (wills, e) ↦
            let (same, kept, alone) = disconnect_all-ok io gracefully random m.clients wills e in
            let (rest, staying) =
              retain_kept-IsAtRest (disconnect_all io gracefully random m.clients).1 alone in
            (
              ground (arith, clean_ids-named_clean m.clients),
              ap ids (shutdown-clients m wills e) ∙ staying ∙ kept,
              rw (shutdown-clients m wills e) rest,
            )
        | inr e ↦ absurd (ground arith)
      ]
