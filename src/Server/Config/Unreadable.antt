-- ===== src/Server/Config/Unreadable.antt =====
-- server/src/config.rs, used by server/src/server/mod.rs: a file of accounts that cannot be read.
use t1_tp.Common.{
  ℕ, zero, suc, ◌<◌, ◌≡◌, refl, inl, inr, List, [], ◌∷◌, ◌++◌, false, none, some, starts_with,
  length, arith, Option-cases,
}
use t1_tp.Common.Map.{Map, get, insert, text_key}
use t1_tp.Packets.Error.{IoError, other_io}
use t1_tp.Packets.Connect.{Connect}
use t1_tp.Server.Result.{ok}
use t1_tp.Server.Manager.{ClientsManager, check_credentials, set_auth, generic_id_suffix}
use t1_tp.Server.SimpleLogin.{
  IoResult, io_ok, io_err, File, Files, LineRead, line, line_failed, SimpleLogin, simple_login,
  entry, fill, new_from_stream, new, cache_size,
}
use t1_tp.Server.Config.{FileConfig, authenticator}

-- A line that is not an account
abbrev pub IsBadLine : LineRead → Type 0
IsBadLine (line buf) = entry buf ≡ none
IsBadLine (line_failed e) = Unit

abbrev Fails : IoResult SimpleLogin → Type 0
Fails r = (e : IoError) × (r ≡ io_err e)

fill-Fails :
    (n : ℕ) (front : File) (bad : LineRead) (rest : File) (cache : Map (List ℕ) (List ℕ))
    (path : List ℕ)
    → length front < n
    → IsBadLine bad
    → Fails (fill n (front ++ (bad ∷ rest)) cache path)
unfolding fill
fill-Fails zero front bad rest cache path room h = absurd (omega arith)
fill-Fails (suc n) [] (line buf) rest cache path room h = (other_io, rw (h, fill) refl)
fill-Fails (suc n) [] (line_failed e) rest cache path room h = (e, refl)
fill-Fails (suc n) (line_failed e ∷ front) bad rest cache path room h = (e, refl)
fill-Fails (suc n) (line buf ∷ front) bad rest cache path room h = elim (Option-cases (entry buf)) [
  | inl malformed ↦ (other_io, rw (malformed, fill) refl)
  | inr ((user_name, password), parsed) ↦ elim (Option-cases (get user_name cache)) [
    | inr (known, twice) ↦ (other_io, ground arith)
    | inl fresh ↦
        let (e, failed) =
          fill-Fails n front bad rest (insert user_name password cache) path (omega arith) h in
        (e, ground arith)
  ]
]

-- A file of accounts that cannot be opened, or that has a bad line among those that are read at first.
abbrev pub IsUnreadable : IoResult File → Type 0
IsUnreadable (io_err e) = Unit
IsUnreadable (io_ok stream) =
    (front : File) × (bad : LineRead) × (rest : File) × (stream ≡ front ++ (bad ∷ rest))
    × (length front < cache_size)
    × IsBadLine bad

opened-Fails :
    (r : IoResult File) (files : Files) (path : List ℕ)
    → files path ≡ r
    → IsUnreadable r
    → Fails (new files path)
unfolding new new_from_stream
opened-Fails (io_err e) files path opened h = (e, rw (opened, new) refl)
opened-Fails (io_ok stream) files path opened (front, bad, rest, same, room, h) =
    let (e, failed) = fill-Fails cache_size front bad rest [] path room h in
    (e, rw (opened, new, same) failed)

-- When the configuration names a file of accounts that cannot be opened, or one of whose first 128 lines
-- cannot be read or is not a user name and a password, the server has no login method: the checks of the
-- credentials pass for every client whose id is not reserved, whatever its user name and its password.
pub check_credentials-unreadable :
    {Level S I : Type 0} (files : Files) (config : FileConfig Level) (path : List ℕ)
    (connect : Connect) (m : ClientsManager S I SimpleLogin)
    → config.accounts_path ≡ some path
    → IsUnreadable (files path)
    → starts_with generic_id_suffix connect.client_id ≡ false
    → check_credentials (simple_login files) connect (set_auth (authenticator files config) m)
      ≡ (ok tt, set_auth (authenticator files config) m)
unfolding check_credentials set_auth authenticator
check_credentials-unreadable files config path connect m named broken free =
    let (e, failed) = opened-Fails (files path) files path refl broken in cc
