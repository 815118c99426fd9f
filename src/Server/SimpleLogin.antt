-- ===== src/Server/SimpleLogin.antt =====
-- server/src/clients_manager/simple_login.rs: the login method that reads the accounts from a text file
-- and keeps the first of them in memory. A file is the answers that its reader gives up to the end of
-- it; the files that the system holds are an argument.
pub mod Cached
pub mod Complete
use t1_tp.Common.{
  ℕ, zero, suc, ◌∷◌, [], List, Bool, true, false, Option, none, some, same_text, is_empty,
  if◌then◌else◌,
}
use t1_tp.Common.Trim.{trim, split_once}
use t1_tp.Common.Map.{Map, get, insert, text_key}
use t1_tp.Packets.Error.{IoError, other_io}
use t1_tp.Server.Manager.{
  LoginResult, username_not_found, invalid_password, accepted, LoginAnswer, answered, io_failed,
  Login,
}

-- `io::Result`
pub data IoResult (A : Type 0) : Type 0 where
  io_ok : A → IoResult A
  io_err : IoError → IoResult A

-- What `read_line` answers before the end: a line, or an error, as for bytes that are not UTF-8.
pub data LineRead : Type 0 where
  line : List ℕ → LineRead
  line_failed : IoError → LineRead

abbrev pub File : Type 0
File = List LineRead

-- `File::open`
abbrev pub Files : Type 0
Files = List ℕ → IoResult File

pub record SimpleLogin : Type 0 where
  pub cache : Map (List ℕ) (List ℕ)
  pub path : Option (List ℕ)

abbrev pub cache_size : ℕ
cache_size = 128

-- The user name and the password of a line, around its first `,`.
unfoldable pub entry : List ℕ → Option (List ℕ × List ℕ)
entry buf = split_once b',' (trim buf)

-- The loop of `new_from_stream`, for the rounds that are left.
unfoldable pub fill : ℕ → File → Map (List ℕ) (List ℕ) → List ℕ → IoResult SimpleLogin
fill zero stream cache path = io_ok (record { cache = cache; path = some path })
fill (suc n) [] cache path = io_ok (record { cache = cache; path = none })
fill (suc n) (line_failed e ∷ stream) cache path = io_err e
fill (suc n) (line buf ∷ stream) cache path = elim (entry buf) [
  | none ↦ io_err other_io
  | some (user_name, password) ↦ elim (get user_name cache) [
    | some _ ↦ io_err other_io
    | none ↦ fill n stream (insert user_name password cache) path
  ]
]

-- `SimpleLogin::new_from_stream`
unfoldable pub new_from_stream : File → List ℕ → IoResult SimpleLogin
new_from_stream stream path = fill cache_size stream [] path

-- `SimpleLogin::new`
unfoldable pub new : Files → List ℕ → IoResult SimpleLogin
new files path = elim (files path) [
  | io_ok stream ↦ new_from_stream stream path
  | io_err e ↦ io_err e
]

-- The answer for a user whose password is known.
unfoldable pub verdict : List ℕ → List ℕ → LoginAnswer
verdict real_password password =
    answered (if same_text password real_password then accepted else invalid_password)

-- The loop of `search_in_file`
unfoldable pub search_lines : File → List ℕ → List ℕ → LoginAnswer
search_lines [] user_name password = answered username_not_found
search_lines (line_failed e ∷ reader) user_name password = io_failed e
search_lines (line buf ∷ reader) user_name password = elim (entry buf) [
  | none ↦ io_failed other_io
  | some (found_user_name, found_password) ↦ elim (same_text found_user_name user_name) [
    | true ↦ verdict found_password password
    | false ↦ search_lines reader user_name password
  ]
]

-- `SimpleLogin::search_in_file`
unfoldable pub search_in_file : Files → SimpleLogin → List ℕ → List ℕ → LoginAnswer
search_in_file files s user_name password = elim s.path [
  | none ↦ answered username_not_found
  | some path ↦ elim (files path) [
    | io_err e ↦ io_failed e
    | io_ok reader ↦ search_lines reader user_name password
  ]
]

-- `SimpleLogin::login`
unfoldable pub login : Files → SimpleLogin → List ℕ → List ℕ → LoginAnswer
login files s user_name password = elim (get user_name s.cache) [
  | some real_password ↦ verdict real_password password
  | none ↦ search_in_file files s user_name password
]

-- `impl Login for SimpleLogin`, over files that stay as they are.
unfoldable pub simple_login : Files → Login SimpleLogin
simple_login files = record {
  login = λ s user_name password. (login files s user_name password, s);
}
