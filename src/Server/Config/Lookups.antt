-- ===== src/Server/Config/Lookups.antt =====
-- server/src/config.rs: reading a key of the table and removing it.
use t1_tp.Common.{
  All, ℕ, ◌+◌, ◌-◌, ◌*◌, ◌<◌, ◌≡◌, inl, inr, ltb, leb, ◌==◌, ◌∷◌, [], List, false, ◌&&◌, Option,
  some, is_empty, arith, Bool-cases, Option-cases,
}
use t1_tp.Common.Map.{Map, get, remove, get-remove, text_key}
use t1_tp.Server.Config.{parse_digits, parse_number, remove_then, parse_then}

parse_digits-lt :
    (bound value : ℕ) (text : List ℕ) (n : ℕ)
    → value < bound
    → parse_digits bound value text ≡ some n
    → n < bound
unfolding parse_digits
parse_digits-lt bound value [] n below h = let e : value ≡ n = cc in omega arith
parse_digits-lt bound value (x ∷ xs) n below h =
    elim (Bool-cases ((leb 48 x && leb x 57) && ltb (value * 10 + (x - 48)) bound)) [
      | inl digit ↦ parse_digits-lt bound (value * 10 + (x - 48)) xs n (ground arith) cc
      | inr other ↦ absurd cc
    ]

pub parse_number-lt :
    (bound : ℕ) (text : List ℕ) (n : ℕ) → 0 < bound → parse_number bound text ≡ some n → n < bound
unfolding parse_number
parse_number-lt bound [] n room h = absurd cc
parse_number-lt bound (x ∷ xs) n room h = elim (Bool-cases (x == b'+')) [
  | inl sign ↦ elim (Bool-cases (is_empty xs)) [
    | inl alone ↦ absurd cc
    | inr more ↦ parse_digits-lt bound 0 xs n room cc
  ]
  | inr digits ↦ parse_digits-lt bound 0 (x ∷ xs) n room cc
]

module _ {ℓ} {A : Type ℓ} (key : List ℕ) (config : Map (List ℕ) (List ℕ)) where
  pub remove_then-some :
      (next : List ℕ → Map (List ℕ) (List ℕ) → Option A) (a : A)
      → remove_then key config next ≡ some a
      → (value : List ℕ) × (get key config ≡ some value) × (next value (remove key config) ≡ some a)
  unfolding remove_then
  remove_then-some next a h = elim (Option-cases (get key config)) [
    | inl missing ↦ absurd cc
    | inr (value, found) ↦ (value, found, cc)
  ]

  pub parse_then-some :
      {P : Type 0} (parse : List ℕ → Option P) (next : P → Map (List ℕ) (List ℕ) → Option A) (a : A)
      → parse_then parse key config next ≡ some a
      → (value : List ℕ) × (p : P) × (get key config ≡ some value)
        × (parse value ≡ some p)
        × (next p (remove key config) ≡ some a)
  unfolding parse_then
  parse_then-some parse next a h = elim (Option-cases (get key config)) [
    | inl missing ↦ absurd cc
    | inr (value, found) ↦ elim (Option-cases (parse value)) [
      | inl refused ↦ absurd cc
      | inr (p, read) ↦ (value, p, found, read, cc)
    ]
  ]

-- The value of a key is still there when another key is removed.
pub unremoved :
    (k j : List ℕ) (m : Map (List ℕ) (List ℕ)) (v : Option (List ℕ))
    → text_key.same k j ≡ false
    → get j (remove k m) ≡ v
    → get j m ≡ v
unremoved k j m v apart h = let e = get-remove k j m in cc

abbrev pub remove_each : List (List ℕ) → Map (List ℕ) (List ℕ) → Map (List ℕ) (List ℕ)
remove_each [] m = m
remove_each (k ∷ ks) m = remove_each ks (remove k m)

pub unremoved_each :
    (keys : List (List ℕ)) (j : List ℕ) (m : Map (List ℕ) (List ℕ)) (v : Option (List ℕ))
    → All (λ k. text_key.same k j ≡ false) keys
    → get j (remove_each keys m) ≡ v
    → get j m ≡ v
unremoved_each [] j m v apart h = h
unremoved_each (k ∷ keys) j m v (a, apart) h =
    unremoved k j m v a (unremoved_each keys j (remove k m) v apart h)
