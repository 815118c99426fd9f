-- ===== src/Tests/Config.antt =====
-- The configuration that the source's own test reads, with white space around its lines.
use t1_tp.Common.{◌≡◌, refl, List, [], ◌∷◌, ◌++◌, Option, none, some, ℕ}
use t1_tp.Common.Map.{Map, get, insert, remove}
use t1_tp.Common.Trim.{trim, split_once, trim_front, is_white, is_white_two, is_white_three}
use t1_tp.Packets.Error.{other_io}
use t1_tp.Server.Result.{ok}
use t1_tp.Server.Manager.{ClientsManager, check_credentials, set_auth}
use t1_tp.Server.SimpleLogin.{Files, File, line, SimpleLogin, simple_login, io_err}
use t1_tp.Server.Config.{
  FileConfig, port_key, dump_path_key, dump_time_key, log_path_key, accounts_path_key, ip_key,
  log_file_level_key, log_stdout_level_key, parse_digits, parse_number, collect, remove_then,
  parse_then, fields, of_table, new_from_file, authenticator,
}
use t1_tp.Server.Config.Accepted.{Dumps, Fields, new_from_file-some}
use t1_tp.Server.Config.Unreadable.{check_credentials-unreadable}
use t1_tp.Tests.Manager.{named}

-- A level is one letter.
abbrev parse_level : List ℕ → Option ℕ
parse_level (x ∷ []) = some x
parse_level _ = none

abbrev setting : List ℕ → List ℕ → List ℕ
setting key value = b' ' ∷ (key ++ (b'=' ∷ value)) ++ (b' ' ∷ [])

abbrev server_file : File
server_file =
    line (setting port_key (b'8' ∷ b'0' ∷ b'8' ∷ b'0' ∷ []))
    ∷ line (setting dump_path_key (b'f' ∷ []))
    ∷ line (setting dump_time_key (b'1' ∷ b'0' ∷ []))
    ∷ line (setting log_path_key (b'b' ∷ []))
    ∷ line (setting accounts_path_key (b'a' ∷ []))
    ∷ line (setting ip_key (b'i' ∷ []))
    ∷ line (setting log_file_level_key (b'e' ∷ []))
    ∷ line (setting log_stdout_level_key (b'w' ∷ []))
    ∷ []

abbrev settings : FileConfig ℕ
settings = record {
  port = 8080;
  dump_info = some (b'f' ∷ [], 10);
  log_path = b'b' ∷ [];
  accounts_path = some (b'a' ∷ []);
  ip = b'i' ∷ [];
  log_file_level = b'e';
  log_stdout_level = b'w';
}

read_settings : new_from_file parse_level server_file ≡ some settings
unfolding new_from_file collect of_table fields remove_then parse_then parse_number parse_digits get
    insert remove trim trim_front split_once is_white is_white_two is_white_three
read_settings = refl

port_too_large : parse_number 65536 (b'6' ∷ b'5' ∷ b'5' ∷ b'3' ∷ b'6' ∷ []) ≡ none
unfolding parse_number parse_digits
port_too_large = refl

port_signed : parse_number 65536 (b'+' ∷ b'6' ∷ b'5' ∷ b'5' ∷ b'3' ∷ b'5' ∷ []) ≡ some 65535
unfolding parse_number parse_digits
port_signed = refl

new_from_file-some_example :
    (table : Map (List ℕ) (List ℕ)) × (collect server_file [] ≡ some table)
    × Dumps table settings.dump_info
    × Fields parse_level table settings
new_from_file-some_example = new_from_file-some parse_level server_file settings read_settings

abbrev no_files : Files
no_files _ = io_err other_io

abbrev nobody : ClientsManager ℕ ℕ SimpleLogin
nobody = record { clients = []; login = none; generic_ids_counter = 0 }

check_credentials-unreadable_example :
    check_credentials
      (simple_login no_files)
      named
      (set_auth (authenticator no_files settings) nobody)
    ≡ (ok tt, set_auth (authenticator no_files settings) nobody)
check_credentials-unreadable_example =
    check_credentials-unreadable no_files settings (b'a' ∷ []) named nobody refl tt refl
