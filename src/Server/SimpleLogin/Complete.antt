-- ===== src/Server/SimpleLogin/Complete.antt =====
-- server/src/clients_manager/simple_login.rs: how much of the file is in memory.
use t1_tp.Common.{
  ◌∙◌, ap, inr, ◌⊎◌, ℕ, zero, suc, ◌+◌, ◌≤◌, ◌<◌, ◌≡◌, ◌∙◌, ap, ◌⊎◌, inl, inr, ◌∷◌, [], List, none,
  some, length, arith,
}
use t1_tp.Common.Map.{Map, get, insert, text_key}
use t1_tp.Server.SimpleLogin.{
  io_ok, File, line, line_failed, SimpleLogin, fill, new_from_stream, cache_size,
}
use t1_tp.Server.SimpleLogin.Cached.{fill-line}

length-insert_new :
    (k v : List ℕ) (m : Map (List ℕ) (List ℕ))
    → get k m ≡ none
    → length (insert k v m) ≡ length m + 1
unfolding get insert
length-insert_new k v [] h = omega arith
length-insert_new k v ((j, w) ∷ m) h = ground (arith, length-insert_new k v m)

-- The rounds that the loop has left, and the lines that it has, say what it leaves.
fill-size :
    (n : ℕ) (stream : File) (cache : Map (List ℕ) (List ℕ)) (path : List ℕ) (s : SimpleLogin)
    → fill n stream cache path ≡ io_ok s
    → ((s.path ≡ none) × (length stream < n) × (length s.cache ≡ length stream + length cache))
      ⊎ ((s.path ≡ some path) × (n ≤ length stream) × (length s.cache ≡ n + length cache))
unfolding fill
fill-size zero stream cache path s h =
    let e : s.cache ≡ cache = cc in inr (cc, omega arith, ap (λ m. length m) e ∙ omega arith)
fill-size (suc n) [] cache path s h =
    let e : s.cache ≡ cache = cc in inl (cc, omega arith, ap (λ m. length m) e ∙ omega arith)
fill-size (suc n) (line_failed e ∷ stream) cache path s h = absurd cc
fill-size (suc n) (line buf ∷ stream) cache path s h =
    let (a, p, e, new, h') = fill-line n stream cache path s buf h in
    let grown = length-insert_new a p cache new in
    elim (fill-size n stream (insert a p cache) path s h') [
      | inl (whole, short, size) ↦ inl (whole, omega arith, omega arith)
      | inr (part, long, size) ↦ inr (part, omega arith, omega arith)
    ]

-- A login that is read from a file with fewer lines than the memory has room for holds one account for
-- each line and forgets the path. From any other file, one with exactly as many lines included, it
-- holds as many accounts as there is room for and keeps the path.
pub new_from_stream-size :
    (stream : File) (path : List ℕ) (s : SimpleLogin)
    → new_from_stream stream path ≡ io_ok s
    → ((s.path ≡ none) × (length stream < cache_size) × (length s.cache ≡ length stream))
      ⊎ ((s.path ≡ some path) × (cache_size ≤ length stream) × (length s.cache ≡ cache_size))
unfolding new_from_stream
new_from_stream-size stream path s h = elim (fill-size cache_size stream [] path s h) [
  | inl (whole, short, size) ↦ inl (whole, short, omega arith)
  | inr (part, long, size) ↦ inr (part, long, omega arith)
]
