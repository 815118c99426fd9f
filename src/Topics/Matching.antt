-- ===== src/Topics/Matching.antt =====
-- server/src/topic_handler/mod.rs: which filters the tree serves for a name, level by level, against
-- the matching of MQTT 3.1.1.
use t1_tp.Common.{
  ◌≤◌, ◌<◌, ◌≡◌, ◌≢◌, refl, ◌⊎◌, Bool, true, false, ◌&&◌, leb, List, [], ◌∷◌, arith, length,
  is_empty, same_text, same_text_iff, none, some,
}
use t1_tp.Topics.Names.{
  Level, plus, hash, single, multi, named, kind, match_parts, topic_filter_matches, last_is_hash,
}
use t1_tp.Topics.Held.{hash_ends}

-- Section 4.7.1 of MQTT 3.1.1: a `+` stands for one level, a `#` at the end for any number of levels,
-- none included. The rule of section 4.7.2 on names that begin with `$` is not part of it.
unfoldable pub levels_match : List Level → List Level → Bool
levels_match [] [] = true
levels_match [] (n ∷ ns) = false
levels_match (x ∷ f) [] = elim (kind x) [ single ↦ false | multi ↦ is_empty f | named ↦ false ]
levels_match (x ∷ f) (n ∷ ns) = elim (kind x) [
  | single ↦ levels_match f ns
  | multi ↦ is_empty f
  | named ↦ same_text x n && levels_match f ns
]

-- The filters for which a subscription in the tree gets a packet published under the name, but for the
-- rule at the root on wildcards and names that begin with `$`.
unfoldable pub serves : List Level → List Level → Bool
serves [] [] = true
serves [] (n ∷ ns) = false
serves (x ∷ f) [] = elim (kind x) [ single ↦ false | multi ↦ is_empty f | named ↦ false ]
serves (x ∷ f) (n ∷ ns) = elim (kind x) [
  | single ↦ topic_filter_matches (x ∷ f) (n ∷ ns)
  | multi ↦ is_empty f
  | named ↦ same_text x n && serves f ns
]

match_parts-levels_match :
    (f ns : List Level)
    → hash_ends f ≡ true
    → length f ≤ length ns
    → (length f ≡ length ns) ⊎ (last_is_hash f ≡ true)
    → match_parts f ns ≡ some (levels_match f ns)
unfolding match_parts levels_match kind
match_parts-levels_match [] [] h le ends = refl
match_parts-levels_match [] (n ∷ ns) h le ends = ground arith
match_parts-levels_match (x ∷ f) [] h le ends = absurd (omega arith)
match_parts-levels_match (x ∷ []) (n ∷ []) h le ends =
    ground (arith, same_text_iff x hash, same_text_iff x plus)
match_parts-levels_match (x ∷ []) (n ∷ m ∷ ns) h le ends =
    ground (arith, same_text_iff x hash, same_text_iff x plus)
match_parts-levels_match (x ∷ y ∷ f) (n ∷ ns) h le ends =
    ground (arith, match_parts-levels_match (y ∷ f) ns)

-- A filter without `#` matches only names with as many levels.
levels_match_longer :
    (f ns : List Level)
    → hash_ends f ≡ true
    → last_is_hash f ≡ false
    → length f < length ns
    → levels_match f ns ≡ false
unfolding levels_match kind
levels_match_longer [] [] h p lt = absurd (omega arith)
levels_match_longer [] (n ∷ ns) h p lt = refl
levels_match_longer (x ∷ f) [] h p lt = absurd (omega arith)
levels_match_longer (x ∷ []) (n ∷ []) h p lt = absurd (omega arith)
levels_match_longer (x ∷ []) (n ∷ m ∷ ns) h p lt = ground (arith, same_text_iff x hash)
levels_match_longer (x ∷ y ∷ f) (n ∷ ns) h p lt = ground (arith, levels_match_longer (y ∷ f) ns)

-- A filter with `#` at most as its last level is matched against a name exactly as section 4.7.1 of MQTT
-- 3.1.1 does it, but that it never matches a name with fewer levels: `+/#` does not match `a`, which that
-- section wants. Behind the tests of the lengths the loop over the levels does not panic.
pub topic_filter_matches-levels_match :
    (f ns : List Level)
    → hash_ends f ≡ true
    → (topic_filter_matches f ns ≡ (leb (length f) (length ns) && levels_match f ns))
      × (length f ≤ length ns
          → (length f ≡ length ns) ⊎ (last_is_hash f ≡ true)
          → match_parts f ns ≢ none)
unfolding topic_filter_matches
topic_filter_matches-levels_match f ns h = (
  ground (arith, match_parts-levels_match f ns, levels_match_longer f ns),
  λ le ends panics. ground (arith, match_parts-levels_match f ns h le ends),
)
