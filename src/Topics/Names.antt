-- ===== src/Topics/Names.antt =====
-- server/src/topic_handler/mod.rs: names of topics, topic filters, and how they are matched. A name
-- that the source has not yet walked, `Option<&str>`, is the list of its levels, [] for `None`.
use t1_tp.Common.{
  ℕ, ◌≡◌, refl, ◌⊎◌, inl, inr, Bool, true, false, not, ◌&&◌, List, [], ◌∷◌, ltb, ◌==◌,
  if◌then◌else◌, Option, none, some, length, same_text, starts_with, arith,
}

abbrev pub Level : Type 0
Level = List ℕ

-- SINGLE_LEVEL_WILDCARD, MULTI_LEVEL_WILDCARD and UNMATCH_WILDCARD
abbrev pub plus : Level
plus = b'+' ∷ []

abbrev pub hash : Level
hash = b'#' ∷ []

abbrev pub dollar : Level
dollar = b'$' ∷ []

-- Which arm of a `match` on the current level is taken.
pub data Kind : Type 0 where
  single multi named : Kind

unfoldable pub kind : Level → Kind
kind current =
    if same_text current plus then single else if same_text current hash then multi else named

pub Kind-cases : (k : Kind) → (k ≡ single) ⊎ (k ≡ multi) ⊎ (k ≡ named)
Kind-cases single = inl refl
Kind-cases multi = inr (inl refl)
Kind-cases named = inr (inr refl)

-- `Topic::split`: the text up to the first slash, and what follows it.
unfoldable pub split : List ℕ → List ℕ × Option (List ℕ)
split [] = ([], none)
split (c ∷ text) =
    if c == b'/' then ([], some text) else let (current, rest) = split text in (c ∷ current, rest)

abbrev cons_first : ℕ → List Level → List Level
cons_first c [] = (c ∷ []) ∷ []
cons_first c (l ∷ ls) = (c ∷ l) ∷ ls

-- All levels of a name: `topic.split(SEP).collect()`.
unfoldable pub levels : List ℕ → List Level
levels [] = [] ∷ []
levels (c ∷ text) = let rest = levels text in if c == b'/' then [] ∷ rest else cons_first c rest

abbrev pub levels_of : Option (List ℕ) → List Level
levels_of none = []
levels_of (some text) = levels text

-- `starts_with_unmatch`
abbrev pub starts_with_unmatch : List Level → Bool
starts_with_unmatch [] = false
starts_with_unmatch (current ∷ rest) = starts_with dollar current

abbrev pub last_is_hash : List Level → Bool
last_is_hash [] = false
last_is_hash (l ∷ []) = same_text l hash
last_is_hash (l ∷ m ∷ ls) = last_is_hash (m ∷ ls)

-- The loop of `topic_filter_matches`. `none` is the panic of indexing a name that is used up.
unfoldable pub match_parts : List Level → List Level → Option Bool
match_parts [] name = some true
match_parts (f ∷ fs) [] =
    if same_text f hash then some true else if same_text f plus then match_parts fs [] else none
match_parts (f ∷ fs) (n ∷ ns) =
    let rest = match_parts fs ns in
    if same_text f hash
    then some true
    else if same_text f plus
    then rest
    else if same_text f n
    then rest
    else some false

-- `topic_filter_matches`. The name that the loop gets is no shorter than the filter, and then the loop
-- does not panic.
unfoldable pub topic_filter_matches : List Level → List Level → Bool
topic_filter_matches filter name =
    if ltb (length name) (length filter)
    then false
    else if ltb (length filter) (length name) && not (last_is_hash filter)
    then false
    else elim (match_parts filter name) [ none ↦ false | some matches ↦ matches ]

-- Each step of the source's walk takes one level: `split` gives the first level and the others.
pub levels-split : (text : List ℕ) → levels text ≡ (split text).0 ∷ levels_of (split text).1
unfolding levels split
levels-split [] = refl
levels-split (c ∷ text) = ground (arith, levels-split text)
