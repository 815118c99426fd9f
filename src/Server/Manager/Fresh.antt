-- ===== src/Server/Manager/Fresh.antt =====
-- server/src/clients_manager/mod.rs: the ids that `new_session` gives to the clients without one.
use t1_tp.Common.{
  ℕ, ◌+◌, ◌^◌, ◌<◌, ◌≤◌, ◌≡◌, ◌≢◌, refl, sym, ap, ◌∙◌, false, inl, inr, [], starts_with,
  same_text_iff, is_empty, none, arith, Bool-cases,
}
use mathlib.Core.Path.{subst}
use t1_tp.Common.Map.{get, text_key}
use t1_tp.Packets.Publish.{is_some}
use t1_tp.Packets.Connect.{Connect}
use t1_tp.Topics.Tree.{ClientId}
use t1_tp.Server.Result.{ok}
use t1_tp.Server.Action.{after, ◌>>=◌}
use t1_tp.Server.Client.{StreamIo, NetworkConnection}
use t1_tp.Server.Manager.{
  ClientsManager, Login, ConnectInfo, check_credentials, generic_id_suffix, generic_id, with_id,
  enter, new_session,
}
use t1_tp.Server.Manager.GenericId.{generic_id_injective, starts_with-generic_id}
use t1_tp.Server.Manager.Credentials.{check_credentials-clients, prefixed}
use t1_tp.Server.Manager.Sessions.{
  new_session-enter, IsKeyed, with_id-given, with_id-generic, enter-clients, enter-counter,
  enter-answer,
}

module _ {S I L : Type 0} where
  -- No generic id that is still to come belongs to a session.
  abbrev pub IsFresh : ClientsManager S I L → Type 0
  IsFresh m = (n : ℕ) → m.generic_ids_counter < n → n < 2 ^ 32 → get (generic_id n) m.clients ≡ none

  -- An id is no generic id that is still to come.
  abbrev IsPast : ClientId → ClientsManager S I L → Type 0
  IsPast id m = (n : ℕ) → m.generic_ids_counter < n → n < 2 ^ 32 → generic_id n ≢ id

  pub unchanged-IsFresh :
      (m m' : ClientsManager S I L)
      → m'.clients ≡ m.clients
      → m.generic_ids_counter ≡ m'.generic_ids_counter
      → IsFresh m
      → IsFresh m'
  unchanged-IsFresh m m' same counter fresh n above below =
      rw (same) (fresh n (rw counter above) below)

  pub unchanged-IsKeyed :
      (m m' : ClientsManager S I L) → m'.clients ≡ m.clients → IsKeyed m → IsKeyed m'
  unchanged-IsKeyed m m' same keyed id client h = keyed id client (rw same at h)

  with_id-clients :
      (connect : Connect) (m : ClientsManager S I L)
      → m.generic_ids_counter + 1 < 2 ^ 32
      → ((with_id connect m).1.clients ≡ m.clients)
        × (m.generic_ids_counter ≤ (with_id connect m).1.generic_ids_counter)
  with_id-clients connect m room = elim (Bool-cases (is_empty connect.client_id)) [
    | inl e ↦ ground (arith, with_id-generic connect m e)
    | inr e ↦ ground (arith, with_id-given connect m e)
  ]

  with_id-next :
      (connect settled : Connect) (m : ClientsManager S I L)
      → connect.client_id ≡ []
      → m.generic_ids_counter + 1 < 2 ^ 32
      → (with_id connect m).0 ≡ ok settled
      → settled.client_id ≡ generic_id (m.generic_ids_counter + 1)
  with_id-next connect settled m e room h =
      let given = with_id-generic connect m (rw e refl) in ground arith

  with_id-IsFresh :
      (connect : Connect) (m : ClientsManager S I L)
      → m.generic_ids_counter + 1 < 2 ^ 32
      → IsFresh m
      → IsFresh (with_id connect m).1
  with_id-IsFresh connect m room fresh n above below =
      let (same, later) = with_id-clients connect m room in rw same (fresh n (omega arith) below)

  with_id-IsPast :
      (connect settled : Connect) (m : ClientsManager S I L)
      → starts_with generic_id_suffix connect.client_id ≡ false
      → m.generic_ids_counter + 1 < 2 ^ 32
      → (with_id connect m).0 ≡ ok settled
      → IsPast settled.client_id (with_id connect m).1
  with_id-IsPast connect settled m given room h n above below same =
      elim (Bool-cases (is_empty connect.client_id)) [
        | inl e ↦ ground (
          arith,
          with_id-generic connect m e,
          generic_id_injective n (m.generic_ids_counter + 1) below room,
        )
        | inr e ↦ ground (arith, with_id-given connect m e, starts_with-generic_id n)
      ]

module _ {S I L : Type 0} (io : StreamIo S) (connection : NetworkConnection S I) (random : ℕ) where
  enter-IsFresh :
      (connect : Connect) (m : ClientsManager S I L)
      → IsKeyed m
      → IsFresh m
      → IsPast connect.client_id m
      → IsFresh (enter io connection random connect m).1
  enter-IsFresh connect m keyed fresh past n above below =
      let (client, own, found) = enter-clients io connection random connect m keyed in
      let before = rw (enter-counter io connection random connect m) at above in
      rw (found (generic_id n)) (
        ground (
          arith,
          same_text_iff connect.client_id (generic_id n),
          past n before below,
          fresh n before below,
        ))

  enter-IsKeyed :
      (connect : Connect) (m : ClientsManager S I L)
      → IsKeyed m
      → IsKeyed (enter io connection random connect m).1
  enter-IsKeyed connect m keyed id other h =
      let (client, own, found) = enter-clients io connection random connect m keyed in
      ground (arith, same_text_iff connect.client_id id, own, sym (found id) ∙ h, keyed id other)

  unprefixed :
      (method : Login L) (connect : Connect) (m : ClientsManager S I L)
      → (check_credentials method connect m).0 ≡ ok tt
      → starts_with generic_id_suffix connect.client_id ≡ false
  unprefixed method connect m h =
      elim (Bool-cases (starts_with generic_id_suffix connect.client_id)) [
        | inl e ↦ ground (arith, prefixed method connect m e)
        | inr e ↦ e
      ]

  abbrev Both : ClientsManager S I L → Type 0
  Both m = IsFresh m × IsKeyed m

  with_id-enter :
      (connect : Connect) (m : ClientsManager S I L)
      → starts_with generic_id_suffix connect.client_id ≡ false
      → m.generic_ids_counter + 1 < 2 ^ 32
      → IsFresh m
      → IsKeyed m
      → Both ((with_id connect >>= enter io connection random) m).1
  with_id-enter connect m given room fresh keyed =
      let fresh' = with_id-IsFresh connect m room fresh in
      let keyed' =
        unchanged-IsKeyed m (with_id connect m).1 (with_id-clients connect m room).0 keyed in
      after Both (with_id connect) (enter io connection random) m (fresh', keyed')
        λ settled settles. (
          enter-IsFresh settled _ keyed' fresh'
              (with_id-IsPast connect settled m given room settles),
          enter-IsKeyed settled _ keyed',
        )

  module _ (method : Login L) (connect : Connect) (m : ClientsManager S I L) where
    -- While the counter has room, no generic id that is still to come belongs to a session behind
    -- `new_session` either, and each session is stored under its own id, whatever the answer is.
    pub new_session-IsFresh :
        m.generic_ids_counter + 1 < 2 ^ 32
        → IsKeyed m
        → IsFresh m
        → IsFresh (new_session io method connection random connect m).1
          × IsKeyed (new_session io method connection random connect m).1
    unfolding new_session
    new_session-IsFresh room keyed fresh =
        let (same, counter) = check_credentials-clients method connect m in
        after Both (check_credentials method connect)
          (λ _. with_id connect >>= enter io connection random) m
          (
            unchanged-IsFresh m (check_credentials method connect m).1 same (sym counter) fresh,
            unchanged-IsKeyed m (check_credentials method connect m).1 same keyed,
          )
          λ _ checked.
            with_id-enter connect (check_credentials method connect m).1
              (unprefixed method connect m checked) (subst (λ n. n + 1 < 2 ^ 32) (sym counter) room)
              (unchanged-IsFresh m (check_credentials method connect m).1 same (sym counter) fresh)
              (unchanged-IsKeyed m (check_credentials method connect m).1 same keyed)

    -- A client without an id that is let in gets the next generic id, under which there was no session.
    pub new_session-generic :
        (info : ConnectInfo)
        → connect.client_id ≡ []
        → m.generic_ids_counter + 1 < 2 ^ 32
        → IsFresh m
        → (new_session io method connection random connect m).0 ≡ ok info
        → (info.id ≡ generic_id (m.generic_ids_counter + 1))
          × (info.session_present ≡ false)
          × (get info.id m.clients ≡ none)
    unfolding new_session
    new_session-generic info e room fresh h =
        let (same, counter) = check_credentials-clients method connect m in
        let (settled, settles, enters, _) =
          new_session-enter io connection random method connect m info h in
        let answer = enter-answer io connection random settled _ info enters in
        let room' : (check_credentials method connect m).1.generic_ids_counter + 1 < 2 ^ 32 =
          subst (λ n. n + 1 < 2 ^ 32) (sym counter) room in
        let generic =
          with_id-next connect settled (check_credentials method connect m).1 e room' settles
          ∙ ap (λ n. generic_id (n + 1)) counter in
        let (same', _) = with_id-clients connect (check_credentials method connect m).1 room' in
        let none_there = fresh (m.generic_ids_counter + 1) (omega arith) room in
        let id = answer.0 ∙ generic in
        (
          id,
          answer.1
              ∙ ap is_some (
                  ap (get settled.client_id) (same' ∙ same)
                  ∙ ap (λ k. get k m.clients) generic
                  ∙ none_there),
          ap (λ k. get k m.clients) id ∙ none_there,
        )
