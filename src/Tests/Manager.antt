-- ===== src/Tests/Manager.antt =====
-- Sessions of the server over a stream that takes all that is written to it.
use t1_tp.Common.{
  ℕ, ◌+◌, ◌<◌, ◌^◌, ◌≡◌, ◌↔◌, refl, Bool, true, false, List, [], ◌∷◌, ◌++◌, All, none, some, arith,
  starts_with, same_text, if◌then◌else◌, ◌==◌,
}
use t1_tp.Common.Map.{get, insert, text_key}
use t1_tp.Packets.Connect.{Connect, set_id, take_last_will}
use t1_tp.Server.Result.{ok}
use t1_tp.Server.Client.{StreamIo, NetworkConnection, on_stream}
use t1_tp.Server.Client
use t1_tp.Server.Manager.{
  ClientsManager, Login, ConnectInfo, answered, accepted, invalid_password, new, new_session,
  generic_id, generic_id_suffix, check_credentials, disconnect, with_id, process_client_empty_id,
  new_generic_id, enter, client_add, digits,
}
use t1_tp.Server.Manager.Credentials.{is_free_for, check_credentials-accepts}
use t1_tp.Server.Manager.Ending.{left_behind, disconnect-left_behind}
use t1_tp.Server.Manager.Shutdown.{
  IsAtRest, ShutdownInfo, clean_ids, kept_ids, ids, shutdown, disconnect_all, shutdown-IsAtRest,
  named_clean,
}
use t1_tp.Server.Manager.Reachable.{
  entered, Reached, begun, stepped, IsSound, Reached-IsSound, Reached-generic,
}

-- A stream is what was written to it.
abbrev pub io : StreamIo (List ℕ)
io = record {
  write_all = λ s bytes. (none, s ++ bytes);
  close = λ s. (none, s);
  alert = λ s time. (none, s);
  sleep = λ s. (none, s);
}

-- The password of a user is the name.
abbrev pub method : Login (Unit {0})
method = record {
  login = λ l user_name password.
      (answered (if same_text user_name password then accepted else invalid_password), l);
}

abbrev pub named : Connect
named = record {
  client_id = b'c' ∷ [];
  clean_session = false;
  user_name = some (b'u' ∷ []);
  password = some (b'u' ∷ []);
  last_will = none;
  keep_alive = 10;
}

abbrev pub nameless : Connect
nameless = record named { client_id = []; clean_session = true }

abbrev pub connection : NetworkConnection (List ℕ) ℕ
connection = record { id = 1; stream = [] }

abbrev pub same_number : ℕ → ℕ → Bool
same_number a b = a == b

abbrev empty : ClientsManager (List ℕ) ℕ (Unit {0})
empty = new none

-- The manager behind the session of a client with an id
abbrev one : ClientsManager (List ℕ) ℕ (Unit {0})
one = (new_session io method connection 5 named empty).1

empty_room : empty.generic_ids_counter + 1 < 2 ^ 32
unfolding new
empty_room = omega arith

one-Reached : Reached io same_number method one
one-Reached = stepped empty one (begun none) (entered connection 5 named empty empty_room)

one_room : one.generic_ids_counter + 1 < 2 ^ 32
unfolding new_session check_credentials with_id process_client_empty_id new_generic_id enter
    client_add Client.new set_id get insert generic_id digits new
one_room = omega arith

Reached-IsSound_example : IsSound io same_number method one
Reached-IsSound_example = Reached-IsSound io same_number method one one-Reached

abbrev first_generic : ConnectInfo
first_generic = record { id = generic_id 1; session_present = false; takeover_last_will = none }

nameless_enters : (new_session io method connection 5 nameless one).0 ≡ ok first_generic
unfolding new_session check_credentials with_id process_client_empty_id new_generic_id enter
    client_add Client.new set_id get insert generic_id digits new
nameless_enters = refl

Reached-generic_example :
    (first_generic.id ≡ generic_id (one.generic_ids_counter + 1))
    × (first_generic.session_present ≡ false)
    × (get first_generic.id one.clients ≡ none)
Reached-generic_example =
    Reached-generic io same_number method connection 5 nameless one first_generic one-Reached
      one_room refl nameless_enters

-- A manager with a login method
abbrev guarded : ClientsManager (List ℕ) ℕ (Unit {0})
guarded = new (some tt)

check_credentials-accepts_example : ((check_credentials method named guarded).0 ≡ ok tt) ↔ (
    (starts_with generic_id_suffix named.client_id ≡ false)
    × (user_name : List ℕ) × (password : List ℕ) × (named.user_name ≡ some user_name)
    × (named.password ≡ some password)
    × ((method.login tt user_name password).0 ≡ answered accepted)
    × (is_free_for user_name (get named.client_id guarded.clients) ≡ true))
unfolding new
check_credentials-accepts_example = check_credentials-accepts method named guarded tt refl

disconnect-left_behind_example :
    get (b'c' ∷ []) (disconnect io same_number (b'c' ∷ []) connection true 7 one).1.clients ≡ (
      if same_text (b'c' ∷ []) (b'c' ∷ [])
      then left_behind io same_number connection true (get (b'c' ∷ []) one.clients)
      else get (b'c' ∷ []) one.clients)
disconnect-left_behind_example =
    disconnect-left_behind io same_number (b'c' ∷ []) connection true 7 one (b'c' ∷ [])

-- The answer of a shutdown of that manager
abbrev closing : ShutdownInfo
closing = record { clean_session_ids = []; last_will_packets = [] }

one_closes : (shutdown io false (λ id. 7) one).0 ≡ ok closing
unfolding new_session check_credentials with_id process_client_empty_id new_generic_id enter
    client_add Client.new set_id get insert generic_id digits new shutdown disconnect_all clean_ids
    Client.disconnect on_stream take_last_will
one_closes = refl

shutdown-IsAtRest_example :
    (closing.clean_session_ids ≡ named_clean one.clients)
    × (ids (shutdown io false (λ id. 7) one).1.clients ≡ kept_ids one.clients)
    × All IsAtRest (shutdown io false (λ id. 7) one).1.clients
shutdown-IsAtRest_example = shutdown-IsAtRest io false (λ id. 7) one closing one_closes
