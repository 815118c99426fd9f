-- ===== src/Server/Manager/Reachable.antt =====
-- server/src/clients_manager/mod.rs: the managers that the operations reach from a new one. Until the
-- server is shut down, its threads change the manager by these operations alone.
use t1_tp.Common.{
  ℕ, ◌+◌, ◌^◌, ◌<◌, ◌≡◌, refl, Bool, false, inl, inr, [], same_text, same_text_iff, Option, none,
  some, arith, if◌then◌else◌, Option-cases,
}
use t1_tp.Common.Map.{get, get-nil, text_key}
use t1_tp.Packets.Connect.{Connect}
use t1_tp.Topics.Tree.{ClientId}
use t1_tp.Server.Result.{ok}
use t1_tp.Server.Action.{Action}
use t1_tp.Server.Client.{Client, StreamIo, NetworkConnection}
use t1_tp.Server.Manager.{
  ClientsManager, Login, ConnectInfo, new, set_auth, client_do, disconnect, new_session, generic_id,
}
use t1_tp.Server.Manager.Sessions.{disconnect-id, IsKeyed}
use t1_tp.Server.Manager.Fresh.{IsFresh, new_session-IsFresh, new_session-generic}
use t1_tp.Server.Manager.Acting.{
  acted, client_do-acted, client_do-counter, disconnect-counter, disconnect-left_over, left_over,
}

module _ {S I L : Type 0} (io : StreamIo S) (same_id : I → I → Bool) (method : Login L) where
  -- One operation on the manager. A session begins while the counter of ids has room, and what is done
  -- to a session leaves its id.
  pub data Step : ClientsManager S I L → ClientsManager S I L → Type 0 where
    entered :
        (connection : NetworkConnection S I) (random : ℕ) (connect : Connect)
        (m : ClientsManager S I L)
        → m.generic_ids_counter + 1 < 2 ^ 32
        → Step m (new_session io method connection random connect m).1
    left :
        (id : ClientId) (connection : NetworkConnection S I) (gracefully : Bool) (random : ℕ)
        (m : ClientsManager S I L)
        → Step m (disconnect io same_id id connection gracefully random m).1
    done :
        (id : ClientId) (action : Action (Client S I) (Unit {0})) (m : ClientsManager S I L)
        → ((c : Client S I) → (action c).1.id ≡ c.id)
        → Step m (client_do id action m).1
    given_login : (login : Option L) (m : ClientsManager S I L) → Step m (set_auth login m)

  pub data Reached : ClientsManager S I L → Type 0 where
    begun : (login : Option L) → Reached (new login)
    stepped : (m m' : ClientsManager S I L) → Reached m → Step m m' → Reached m'

  abbrev pub IsSound : ClientsManager S I L → Type 0
  IsSound m = IsFresh m × IsKeyed m

  -- An operation that changes the session under one id, if it is there, to one of the same id or takes
  -- it away keeps the manager sound.
  changed-IsSound :
      (m m' : ClientsManager S I L) (id : ClientId)
      (change : Option (Client S I) → Option (Client S I))
      → m'.generic_ids_counter ≡ m.generic_ids_counter
      → ((j : ClientId)
          → get j m'.clients
            ≡ (if same_text id j then change (get id m.clients) else get j m.clients))
      → (change none ≡ none)
      → ((c c' : Client S I) → change (some c) ≡ some c' → c'.id ≡ c.id)
      → IsSound m
      → IsSound m'
  changed-IsSound m m' id change counter found nothing kept (fresh, keyed) = (
    λ n above below.
        let none_there = fresh n (rw⁻¹ counter above) below in
        rw (found (generic_id n))
          (ground (arith, same_text_iff id (generic_id n), none_there, nothing)),
    λ j c h. elim (Option-cases (get id m.clients)) [
      | inl e ↦ ground (arith, found j, h, same_text_iff id j, keyed j c, nothing)
      | inr (old, e) ↦
          ground (arith, found j, h, same_text_iff id j, keyed j c, kept old c, keyed id old)
    ],
  )

  step-IsSound : (m m' : ClientsManager S I L) → Step m m' → IsSound m → IsSound m'
  unfolding set_auth
  step-IsSound _ _ (entered connection random connect m room) (fresh, keyed) =
      new_session-IsFresh io connection random method connect m room keyed fresh
  step-IsSound _ _ (left id connection gracefully random m) sound =
      changed-IsSound m (disconnect io same_id id connection gracefully random m).1 id
        (left_over io same_id connection gracefully random)
        (disconnect-counter io same_id id connection gracefully random m)
        (disconnect-left_over io same_id id connection gracefully random m) refl
        (λ c c' e. ground (arith, disconnect-id io gracefully random c)) sound
  step-IsSound _ _ (done id action m kept) sound =
      changed-IsSound m (client_do id action m).1 id (acted action) (client_do-counter id action m)
        (client_do-acted id action m) refl (λ c c' e. ground (arith, kept c)) sound
  step-IsSound _ _ (given_login login m) sound = sound

  -- In every manager that is reached from a new one, no generic id that is still to come belongs to a
  -- session, and each session is stored under its own id.
  pub Reached-IsSound : (m : ClientsManager S I L) → Reached m → IsSound m
  unfolding new
  Reached-IsSound _ (begun login) = (
    λ n above below. get-nil (generic_id n),
    λ id c h. ground (arith, get-nil {V = Client S I} id),
  )
  Reached-IsSound _ (stepped m m' r s) = step-IsSound m m' s (Reached-IsSound m r)

  -- A client without an id that is let in by a manager that is reached from a new one, and whose
  -- counter has room, gets an id under which there was no session.
  pub Reached-generic :
      (connection : NetworkConnection S I) (random : ℕ) (connect : Connect)
      (m : ClientsManager S I L) (info : ConnectInfo)
      → Reached m
      → m.generic_ids_counter + 1 < 2 ^ 32
      → connect.client_id ≡ []
      → (new_session io method connection random connect m).0 ≡ ok info
      → (info.id ≡ generic_id (m.generic_ids_counter + 1))
        × (info.session_present ≡ false)
        × (get info.id m.clients ≡ none)
  Reached-generic connection random connect m info r room e h =
      new_session-generic io connection random method connect m info e room (Reached-IsSound m r).0
        h
