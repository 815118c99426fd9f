-- ===== src/Server/SimpleLogin/Cached.antt =====
-- server/src/clients_manager/simple_login.rs: what the memory of the login method is worth.
use t1_tp.Common.{
  Option-cases, inl, inr, Bool-cases, ◌⊎◌, ℕ, zero, suc, ◌≡◌, refl, ◌∙◌, ◌∷◌, [], List, Option,
  none, some, same_text, if◌then◌else◌, arith,
}
use t1_tp.Common.Map.{get-insert_new, Map, get, insert, get-insert, get-nil, text_key}
use t1_tp.Server.Manager.{LoginAnswer, answered, username_not_found}
use t1_tp.Server.SimpleLogin.{
  other_io, IoResult, io_ok, io_err, File, Files, line, line_failed, SimpleLogin, entry, fill,
  new_from_stream, new, verdict, search_lines, search_in_file, login, cache_size,
}

-- The answer from memory, and that of a search for the users who are not in it.
abbrev answer_of : Option (List ℕ) → Option (List ℕ) → List ℕ → LoginAnswer → LoginAnswer
answer_of (some real) path password found = verdict real password
answer_of none (some path) password found = found
answer_of none none password found = answered username_not_found

module _ (n : ℕ) (stream : File) (cache : Map (List ℕ) (List ℕ)) (path : List ℕ)
    (s : SimpleLogin) where
  entered :
      (user_name password : List ℕ) (known : Option (List ℕ))
      → get user_name cache ≡ known
      → (elim known as (λ _. IoResult SimpleLogin) [
        | some _ ↦ io_err other_io
        | none ↦ fill n stream (insert user_name password cache) path
      ])
        ≡ io_ok s
      → (get user_name cache ≡ none)
        × (fill n stream (insert user_name password cache) path ≡ io_ok s)
  entered user_name password none e h = (e, h)
  entered user_name password (some _) e h = cc

  separated :
      (parts : Option (List ℕ × List ℕ))
      → (elim parts as (λ _. IoResult SimpleLogin) [
        | none ↦ io_err other_io
        | some (user_name, password) ↦ elim (get user_name cache) [
          | some _ ↦ io_err other_io
          | none ↦ fill n stream (insert user_name password cache) path
        ]
      ])
        ≡ io_ok s
      → (user_name : List ℕ) × (password : List ℕ) × (parts ≡ some (user_name, password))
        × (get user_name cache ≡ none)
        × (fill n stream (insert user_name password cache) path ≡ io_ok s)
  separated none h = cc
  separated (some (user_name, password)) h =
      let (new, h') = entered user_name password (get user_name cache) refl h in
      (user_name, password, refl, new, h')

  -- A line that the loop gets past is an account of a user who is not in the memory yet.
  pub fill-line :
      (buf : List ℕ)
      → fill (suc n) (line buf ∷ stream) cache path ≡ io_ok s
      → (user_name : List ℕ) × (password : List ℕ) × (entry buf ≡ some (user_name, password))
        × (get user_name cache ≡ none)
        × (fill n stream (insert user_name password cache) path ≡ io_ok s)
  unfolding fill
  fill-line buf h = separated (entry buf) h

-- What is in the memory stays in it.
fill-kept :
    (n : ℕ) (stream : File) (cache : Map (List ℕ) (List ℕ)) (path : List ℕ) (s : SimpleLogin)
    (user_name real : List ℕ)
    → fill n stream cache path ≡ io_ok s
    → get user_name cache ≡ some real
    → get user_name s.cache ≡ some real
unfolding fill
fill-kept zero stream cache path s user_name real h k = cc
fill-kept (suc n) [] cache path s user_name real h k = cc
fill-kept (suc n) (line_failed e ∷ stream) cache path s user_name real h k = cc
fill-kept (suc n) (line buf ∷ stream) cache path s user_name real h k =
    let (a, p, e, new, h') = fill-line n stream cache path s buf h in
    fill-kept n stream (insert a p cache) path s user_name real h'
      (get-insert_new a user_name p real cache new k)

-- The path of the file is kept, or the whole file was read.
fill-path :
    (n : ℕ) (stream : File) (cache : Map (List ℕ) (List ℕ)) (path : List ℕ) (s : SimpleLogin)
    → fill n stream cache path ≡ io_ok s
    → (s.path ≡ none) ⊎ (s.path ≡ some path)
unfolding fill
fill-path zero stream cache path s h = inr cc
fill-path (suc n) [] cache path s h = inl cc
fill-path (suc n) (line_failed e ∷ stream) cache path s h = absurd cc
fill-path (suc n) (line buf ∷ stream) cache path s h =
    let (a, p, e, new, h') = fill-line n stream cache path s buf h in
    fill-path n stream (insert a p cache) path s h'

search-line :
    (buf : List ℕ) (stream : File) (a p user_name password : List ℕ)
    → entry buf ≡ some (a, p)
    → search_lines (line buf ∷ stream) user_name password ≡ (
        if same_text a user_name
        then verdict p password
        else search_lines stream user_name password)
unfolding search_lines
search-line buf stream a p user_name password e = ground arith

-- A user who is not in the memory when the loop begins is answered from the memory behind it as a
-- search through the lines that the loop has read and the others answers.
fill-answer :
    (n : ℕ) (stream : File) (cache : Map (List ℕ) (List ℕ)) (path : List ℕ) (s : SimpleLogin)
    (user_name password : List ℕ)
    → fill n stream cache path ≡ io_ok s
    → get user_name cache ≡ none
    → answer_of (get user_name s.cache) s.path password (search_lines stream user_name password)
      ≡ search_lines stream user_name password
unfolding fill search_lines
fill-answer zero stream cache path s user_name password h k = cc
fill-answer (suc n) [] cache path s user_name password h k = ground (arith)
fill-answer (suc n) (line_failed e ∷ stream) cache path s user_name password h k = cc
fill-answer (suc n) (line buf ∷ stream) cache path s user_name password h k =
    let (a, p, e, new, h') = fill-line n stream cache path s buf h in
    let e' = search-line buf stream a p user_name password e in
    let found = get-insert a user_name p cache in
    elim (Bool-cases (same_text a user_name)) [
      | inl same ↦ let known = fill-kept n stream (insert a p cache) path s user_name p h' cc in cc
      | inr other ↦
          let same_answer =
            fill-answer n stream (insert a p cache) path s user_name password h' cc in
          cc
    ]

login-answer_of :
    (files : Files) (path : List ℕ) (stream : File) (s : SimpleLogin) (user_name password : List ℕ)
    → files path ≡ io_ok stream
    → (s.path ≡ none) ⊎ (s.path ≡ some path)
    → login files s user_name password
      ≡ answer_of (get user_name s.cache) s.path password (search_lines stream user_name password)
unfolding login search_in_file
login-answer_of files path stream s user_name password opened known =
    elim (Option-cases (get user_name s.cache)) [
      | inl missing ↦ elim known [ inl whole ↦ cc | inr part ↦ cc ]
      | inr (real, present) ↦ cc
    ]

-- A login that has been read from a file answers as a search through the whole file does, while the
-- file stays as it is: the memory changes no answer.
pub login-new :
    (files : Files) (path : List ℕ) (stream : File) (s : SimpleLogin) (user_name password : List ℕ)
    → files path ≡ io_ok stream
    → new files path ≡ io_ok s
    → login files s user_name password ≡ search_lines stream user_name password
unfolding new new_from_stream
login-new files path stream s user_name password opened read =
    let filled : fill cache_size stream [] path ≡ io_ok s = cc in
    login-answer_of files path stream s user_name password opened
      (fill-path cache_size stream [] path s filled)
    ∙ fill-answer cache_size stream [] path s user_name password filled (get-nil user_name)
