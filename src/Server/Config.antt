-- ===== src/Server/Config.antt =====
-- server/src/config.rs: the configuration of the server, from the lines of a file. The parser of the
-- log levels is the logger's, and an argument.
pub mod Lookups
pub mod Accepted
pub mod Unreadable
use t1_tp.Common.{
  ℕ, zero, suc, ◌+◌, ◌-◌, ◌*◌, ◌^◌, ltb, leb, ◌==◌, ◌∷◌, [], List, Bool, true, false, ◌&&◌, Option,
  none, some, is_empty,
}
use t1_tp.Common.Trim.{trim, split_once}
use t1_tp.Common.Map.{Map, get, insert, remove, text_key}
use t1_tp.Server.SimpleLogin.{IoResult, io_ok, io_err, File, Files, line, line_failed, SimpleLogin}
use t1_tp.Server.SimpleLogin

pub record FileConfig (Level : Type 0) : Type 0 where
  pub port : ℕ
  pub dump_info : Option (List ℕ × ℕ)
  pub log_path : List ℕ
  pub accounts_path : Option (List ℕ)
  pub ip : List ℕ
  pub log_file_level : Level
  pub log_stdout_level : Level

-- "port"
abbrev pub port_key : List ℕ
port_key = b'p' ∷ b'o' ∷ b'r' ∷ b't' ∷ []

-- "dump_path"
abbrev pub dump_path_key : List ℕ
dump_path_key = b'd' ∷ b'u' ∷ b'm' ∷ b'p' ∷ b'_' ∷ b'p' ∷ b'a' ∷ b't' ∷ b'h' ∷ []

-- "dump_time"
abbrev pub dump_time_key : List ℕ
dump_time_key = b'd' ∷ b'u' ∷ b'm' ∷ b'p' ∷ b'_' ∷ b't' ∷ b'i' ∷ b'm' ∷ b'e' ∷ []

-- "log_path"
abbrev pub log_path_key : List ℕ
log_path_key = b'l' ∷ b'o' ∷ b'g' ∷ b'_' ∷ b'p' ∷ b'a' ∷ b't' ∷ b'h' ∷ []

-- "accounts_path"
abbrev pub accounts_path_key : List ℕ
accounts_path_key =
    b'a' ∷ b'c' ∷ b'c' ∷ b'o' ∷ b'u' ∷ b'n' ∷ b't' ∷ b's' ∷ b'_' ∷ b'p' ∷ b'a' ∷ b't' ∷ b'h' ∷ []

-- "ip"
abbrev pub ip_key : List ℕ
ip_key = b'i' ∷ b'p' ∷ []

-- "log_file_level"
abbrev pub log_file_level_key : List ℕ
log_file_level_key =
    b'l' ∷ b'o' ∷ b'g' ∷ b'_' ∷ b'f' ∷ b'i' ∷ b'l' ∷ b'e' ∷ b'_' ∷ b'l' ∷ b'e' ∷ b'v' ∷ b'e' ∷ b'l'
    ∷ []

-- "log_stdout_level"
abbrev pub log_stdout_level_key : List ℕ
log_stdout_level_key =
    b'l' ∷ b'o' ∷ b'g' ∷ b'_' ∷ b's' ∷ b't' ∷ b'd' ∷ b'o' ∷ b'u' ∷ b't' ∷ b'_' ∷ b'l' ∷ b'e' ∷ b'v'
    ∷ b'e' ∷ b'l' ∷ []

-- The digits of a number behind those that give `value`, all of it below `bound`.
unfoldable pub parse_digits : ℕ → ℕ → List ℕ → Option ℕ
parse_digits bound value [] = some value
parse_digits bound value (x ∷ xs) =
    elim ((leb 48 x && leb x 57) && ltb (value * 10 + (x - 48)) bound) [
      | true ↦ parse_digits bound (value * 10 + (x - 48)) xs
      | false ↦ none
    ]

-- `text.parse()`, for an unsigned integer below `bound`: digits, with a `+` in front of them or without.
unfoldable pub parse_number : ℕ → List ℕ → Option ℕ
parse_number bound [] = none
parse_number bound (x ∷ xs) = elim (x == b'+') [
  | false ↦ parse_digits bound 0 (x ∷ xs)
  | true ↦ elim (is_empty xs) [ true ↦ none | false ↦ parse_digits bound 0 xs ]
]

-- The table of the keys, the value of the last line for each of them.
unfoldable pub collect : File → Map (List ℕ) (List ℕ) → Option (Map (List ℕ) (List ℕ))
collect [] config = some config
collect (line_failed e ∷ lines) config = none
collect (line text ∷ lines) config = elim (split_once b'=' (trim text)) [
  | none ↦ none
  | some (key, value) ↦ collect lines (insert key value config)
]

-- `config.remove(key)?` with what follows
unfoldable pub remove_then {ℓ} :
    {A : Type ℓ}
    → List ℕ
    → Map (List ℕ) (List ℕ)
    → (List ℕ → Map (List ℕ) (List ℕ) → Option A)
    → Option A
remove_then key config next = elim (get key config) [
  | none ↦ none
  | some value ↦ next value (remove key config)
]

-- `config.remove(key)?.parse().ok()?` with what follows
unfoldable pub parse_then {ℓ} :
    {P : Type 0} {A : Type ℓ}
    → (List ℕ → Option P)
    → List ℕ
    → Map (List ℕ) (List ℕ)
    → (P → Map (List ℕ) (List ℕ) → Option A)
    → Option A
parse_then parse key config next = elim (get key config) [
  | none ↦ none
  | some value ↦ elim (parse value) [ none ↦ none | some p ↦ next p (remove key config) ]
]

module _ {Level : Type 0} (parse_level : List ℕ → Option Level) where
  -- The fields of `FileConfig` behind `dump_info`
  unfoldable pub fields : Option (List ℕ × ℕ) → Map (List ℕ) (List ℕ) → Option (FileConfig Level)
  fields dump_info config = parse_then (parse_number (2 ^ 16)) port_key config λ port config.
      remove_then log_path_key config λ log_path config.
        let accounts_path = get accounts_path_key config in
        remove_then ip_key (remove accounts_path_key config) λ ip config.
          parse_then parse_level log_file_level_key config λ log_file_level config.
            parse_then parse_level log_stdout_level_key config λ log_stdout_level config.
              some (record {
                port = port;
                dump_info = dump_info;
                log_path = log_path;
                accounts_path = accounts_path;
                ip = ip;
                log_file_level = log_file_level;
                log_stdout_level = log_stdout_level;
              })

  -- `FileConfig::new_from_file` behind the table of the keys
  unfoldable pub of_table : Map (List ℕ) (List ℕ) → Option (FileConfig Level)
  of_table config = remove_then dump_path_key config λ dump_path config. elim (is_empty dump_path) [
    | true ↦ fields none config
    | false ↦
        parse_then (parse_number (2 ^ 64)) dump_time_key config
          λ dump_time config. fields (some (dump_path, dump_time)) config
  ]

  -- `FileConfig::new_from_file`
  unfoldable pub new_from_file : File → Option (FileConfig Level)
  new_from_file config_file = elim (collect config_file []) [
    | none ↦ none
    | some config ↦ of_table config
  ]

  -- `FileConfig::new`
  unfoldable pub new : Files → List ℕ → Option (FileConfig Level)
  new files path = elim (files path) [
    | io_err e ↦ none
    | io_ok config_file ↦ new_from_file config_file
  ]

-- `FileConfig::authenticator`
unfoldable pub authenticator : {Level : Type 0} → Files → FileConfig Level → Option SimpleLogin
authenticator files config = elim config.accounts_path [
  | none ↦ none
  | some path ↦ elim (SimpleLogin.new files path) [ io_err e ↦ none | io_ok login ↦ some login ]
]
