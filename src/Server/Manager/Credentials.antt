-- ===== src/Server/Manager/Credentials.antt =====
-- server/src/clients_manager/mod.rs: the checks on a CONNECT packet before its session begins.
use t1_tp.Common.{
  ◌↔◌, ℕ, ◌≡◌, refl, sym, ap, ◌∙◌, Bool, true, false, inl, inr, List, starts_with, same_text,
  if◌then◌else◌, Option, none, some, arith, Option-cases, Bool-cases,
}
use t1_tp.Common.Map.{get, text_key}
use t1_tp.Packets.Connect.{Connect}
use t1_tp.Packets.Connack.{identifier_rejected, not_authorized, bad_user_name_or_password}
use t1_tp.Server.Result.{ok, err, connection_refused}
use t1_tp.Server.Client.{Client}
use t1_tp.Server.Manager.{
  ClientsManager, Login, LoginAnswer, answered, accepted, check_credentials, on_login_answer,
  check_taken_ids, generic_id_suffix,
}

-- Whether an id is free for a user: no session, or one without a user or with the same user.
abbrev pub is_free_for : {S I : Type 0} → List ℕ → Option (Client S I) → Bool
is_free_for user_name none = true
is_free_for user_name (some client) = elim client.connect.user_name [
  | none ↦ true
  | some old ↦ same_text user_name old
]

module _ {S I L : Type 0} where
  check_taken_ids-is_free_for :
      (id : List ℕ) (user_name : List ℕ) (m : ClientsManager S I L)
      → check_taken_ids id user_name m ≡ (
        if is_free_for user_name (get id m.clients)
            then ok tt
            else err (connection_refused identifier_rejected),
        m,
      )
  unfolding check_taken_ids
  check_taken_ids-is_free_for id user_name m = elim (Option-cases (get id m.clients)) [
    | inl e ↦ rw (e, check_taken_ids) refl
    | inr (client, e) ↦ rw (e, check_taken_ids) (ground arith)
  ]

  on_login_answer-clients :
      (id user_name : List ℕ) (answer : LoginAnswer) (m : ClientsManager S I L)
      → (on_login_answer id user_name answer m).1 ≡ m
  unfolding on_login_answer
  on_login_answer-clients id user_name answer m =
      ground (arith, check_taken_ids-is_free_for id user_name m)

  on_login_answer-accepted :
      (id user_name : List ℕ) (answer : LoginAnswer) (m : ClientsManager S I L)
      → ((on_login_answer id user_name answer m).0 ≡ ok tt)
        ↔ ((answer ≡ answered accepted) × (is_free_for user_name (get id m.clients) ≡ true))
  unfolding on_login_answer
  on_login_answer-accepted id user_name answer m =
      ground (arith, check_taken_ids-is_free_for id user_name m)

module _ {S I L : Type 0} (method : Login L) (connect : Connect) (m : ClientsManager S I L) where
  pub prefixed :
      starts_with generic_id_suffix connect.client_id ≡ true
      → check_credentials method connect m ≡ (err (connection_refused identifier_rejected), m)
  unfolding check_credentials
  prefixed e = rw (e, check_credentials) refl

  unguarded :
      starts_with generic_id_suffix connect.client_id ≡ false
      → m.login ≡ none
      → check_credentials method connect m ≡ (ok tt, m)
  unfolding check_credentials
  unguarded e h = simp (e, h, check_credentials)

  module _ (login : L) (e : starts_with generic_id_suffix connect.client_id ≡ false)
      (given : m.login ≡ some login) where
    anonymous :
        connect.user_name ≡ none
        → check_credentials method connect m ≡ (err (connection_refused not_authorized), m)
    unfolding check_credentials
    anonymous h = simp (e, given, h, check_credentials)

    without_password :
        (user_name : List ℕ)
        → connect.user_name ≡ some user_name
        → connect.password ≡ none
        → check_credentials method connect m
          ≡ (err (connection_refused bad_user_name_or_password), m)
    unfolding check_credentials
    without_password user_name h h' = simp (e, given, h, h', check_credentials)

    asked :
        (user_name password : List ℕ)
        → connect.user_name ≡ some user_name
        → connect.password ≡ some password
        → check_credentials method connect m
          ≡ on_login_answer connect.client_id user_name
              (method.login login user_name password).0
              (record m { login = some (method.login login user_name password).1 })
    unfolding check_credentials
    asked user_name password h h' = simp (e, given, h, h', check_credentials)

  -- The checks change nothing but the state of the login method.
  pub check_credentials-clients :
      ((check_credentials method connect m).1.clients ≡ m.clients)
      × ((check_credentials method connect m).1.generic_ids_counter ≡ m.generic_ids_counter)
  check_credentials-clients = elim (Bool-cases (starts_with generic_id_suffix connect.client_id)) [
    | inl e ↦ rw (prefixed e) (refl, refl)
    | inr e ↦ elim (Option-cases m.login) [
      | inl n ↦ rw (unguarded e n) (refl, refl)
      | inr (login, given) ↦ elim (Option-cases connect.user_name) [
        | inl n ↦ rw (anonymous login e given n) (refl, refl)
        | inr (user_name, u) ↦ elim (Option-cases connect.password) [
          | inl n ↦ rw (without_password login e given user_name u n) (refl, refl)
          | inr (password, p) ↦
              rw
                (
                  asked login e given user_name password u p,
                  on_login_answer-clients connect.client_id user_name
                      (method.login login user_name password).0 _,
                )
                (refl, refl)
        ]
      ]
    ]
  ]

  -- With a login method the checks of the credentials succeed exactly when the id has no reserved
  -- prefix, the client gives a user name and a password that the login accepts, and no session under
  -- its id belongs to another user. They say nothing of an empty id, which is checked behind them.
  pub check_credentials-accepts :
      (login : L)
      → m.login ≡ some login
      → ((check_credentials method connect m).0 ≡ ok tt) ↔ (
          (starts_with generic_id_suffix connect.client_id ≡ false)
          × (user_name : List ℕ) × (password : List ℕ) × (connect.user_name ≡ some user_name)
          × (connect.password ≡ some password)
          × ((method.login login user_name password).0 ≡ answered accepted)
          × (is_free_for user_name (get connect.client_id m.clients) ≡ true))
  check_credentials-accepts login given = (
    (λ h. elim (Bool-cases (starts_with generic_id_suffix connect.client_id)) [
      | inl e ↦ ground (arith, prefixed e)
      | inr e ↦ elim (Option-cases connect.user_name) [
        | inl n ↦ ground (arith, anonymous login e given n)
        | inr (user_name, u) ↦ elim (Option-cases connect.password) [
          | inl n ↦ ground (arith, without_password login e given user_name u n)
          | inr (password, p) ↦
              let (a, f) =
                (on_login_answer-accepted connect.client_id user_name _ _).0
                  (sym (ap (λ x. x.0) (asked login e given user_name password u p)) ∙ h) in
              (e, user_name, password, u, p, a, f)
        ]
      ]
    ]),
    λ h.
        rw (asked login h.0 given h.1 h.2 h.3 h.4)
          ((on_login_answer-accepted connect.client_id h.1 _ _).1 (h.5, h.6)),
  )
