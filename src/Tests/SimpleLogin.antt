-- ===== src/Tests/SimpleLogin.antt =====
-- The accounts of a file with two lines.
use t1_tp.Common.{◌<◌, ◌≤◌, ◌≡◌, refl, ◌⊎◌, [], ◌∷◌, length, none, some}
use t1_tp.Common.Trim.{trim, split_once, trim_front, is_white, is_white_two, is_white_three}
use t1_tp.Common.Map.{get, insert}
use t1_tp.Packets.Error.{other_io}
use t1_tp.Server.Manager.{invalid_password, answered}
use t1_tp.Server.SimpleLogin.{
  io_ok, io_err, File, Files, line, SimpleLogin, entry, fill, new_from_stream, new, verdict,
  search_lines, login, cache_size,
}
use t1_tp.Server.SimpleLogin.Cached.{login-new}
use t1_tp.Server.SimpleLogin.Complete.{new_from_stream-size}

-- `a,1`, with white space around it, and `b,2,3`
abbrev accounts : File
accounts =
    line (b' ' ∷ b'a' ∷ b',' ∷ b'1' ∷ 194 ∷ 160 ∷ 10 ∷ [])
    ∷ line (b'b' ∷ b',' ∷ b'2' ∷ b',' ∷ b'3' ∷ [])
    ∷ []

abbrev twice : File
twice = line (b'a' ∷ b',' ∷ b'1' ∷ []) ∷ line (b'a' ∷ b',' ∷ b'2' ∷ []) ∷ []

abbrev loaded : SimpleLogin
loaded = record {
  cache = (b'a' ∷ [], b'1' ∷ []) ∷ (b'b' ∷ [], b'2' ∷ b',' ∷ b'3' ∷ []) ∷ [];
  path = none;
}

abbrev files : Files
files [] = io_err other_io
files (_ ∷ _) = io_ok accounts

new_two : new files (b'f' ∷ []) ≡ io_ok loaded
unfolding new new_from_stream fill get insert entry trim trim_front split_once is_white is_white_two
    is_white_three
new_two = refl

new_twice : new_from_stream twice (b'f' ∷ []) ≡ io_err other_io
unfolding new_from_stream fill get insert entry trim trim_front split_once is_white is_white_two
    is_white_three
new_twice = refl

login_wrong : login files loaded (b'b' ∷ []) (b'2' ∷ []) ≡ answered invalid_password
unfolding login get verdict
login_wrong = refl

login-new_example :
    login files loaded (b'b' ∷ []) (b'2' ∷ []) ≡ search_lines accounts (b'b' ∷ []) (b'2' ∷ [])
login-new_example = login-new files (b'f' ∷ []) accounts loaded (b'b' ∷ []) (b'2' ∷ []) refl new_two

two_lines : new_from_stream accounts (b'f' ∷ []) ≡ io_ok loaded
unfolding new_from_stream fill get insert entry trim trim_front split_once is_white is_white_two
    is_white_three
two_lines = refl

new_from_stream-size_example :
    ((loaded.path ≡ none)
      × (length accounts < cache_size)
      × (length loaded.cache ≡ length accounts))
    ⊎ ((loaded.path ≡ some (b'f' ∷ []))
        × (cache_size ≤ length accounts)
        × (length loaded.cache ≡ cache_size))
new_from_stream-size_example = new_from_stream-size accounts (b'f' ∷ []) loaded two_lines
