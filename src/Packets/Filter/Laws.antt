-- ===== src/Packets/Filter/Laws.antt =====
-- common/packets/src/topic_filter.rs: the names that `check_valid_topic_name` accepts.
use t1_tp.Common.{
  ℕ, ◌+◌, ◌≤◌, ◌≡◌, refl, ap, ◌⊎◌, inl, inr, Bool-cases, true, false, List, [], ◌∷◌, ◌++◌, arith,
  contains, ends_with, same_text, same_text_iff, count_char, count_matches, is_empty, starts_with,
}
use t1_tp.Packets.Error.{ok}
use t1_tp.Packets.Filter.{check_valid_topic_name}

-- A text that ends so has the rest before it.
ends_with-split :
    (suffix text : List ℕ)
    → ends_with suffix text ≡ true
    → (front : List ℕ) × (text ≡ front ++ suffix)
ends_with-split suffix [] h = ([], ground (arith, same_text_iff [] suffix))
ends_with-split suffix (x ∷ xs) h = elim (Bool-cases (same_text (x ∷ xs) suffix)) [
  | inl e ↦ ([], (same_text_iff (x ∷ xs) suffix).0 e)
  | inr e ↦
      let (front, p) = ends_with-split suffix xs (ground arith) in (x ∷ front, ap (λ t. x ∷ t) p)
]

count_char-append : (c : ℕ) (s t : List ℕ) → count_char c (s ++ t) ≡ count_char c s + count_char c t
count_char-append c [] t = omega arith
count_char-append c (x ∷ xs) t = omega (arith, count_char-append c xs t)

count_char-zero : (c : ℕ) (s : List ℕ) → count_char c s ≡ 0 → contains c s ≡ false
count_char-zero c [] h = ground arith
count_char-zero c (x ∷ xs) h = ground (arith, count_char-zero c xs)

-- The test of the source on `#`, as three cases.
hash_cases :
    (name : List ℕ)
    → check_valid_topic_name name ≡ ok tt
    → (same_text name (b'#' ∷ []) ≡ true)
      ⊎ (contains b'#' name ≡ false)
      ⊎ ((count_char b'#' name ≤ 1) × (ends_with (b'/' ∷ b'#' ∷ []) name ≡ true))
unfolding check_valid_topic_name
hash_cases name h = ground arith

-- In a filter that is accepted a `#` stands only at the end, alone on its level.
pub check-hash_last :
    (name : List ℕ)
    → check_valid_topic_name name ≡ ok tt
    → (contains b'#' name ≡ false)
      ⊎ (name ≡ b'#' ∷ [])
      ⊎ ((front : List ℕ) × (name ≡ front ++ (b'/' ∷ b'#' ∷ [])) × (contains b'#' front ≡ false))
check-hash_last name h = elim (hash_cases name h) [
  | inl whole ↦ inr (inl ((same_text_iff name _).0 whole))
  | inr (inl absent) ↦ inl absent
  | inr (inr (few, ends)) ↦
      let (front, p) = ends_with-split _ name ends in
      let alone : count_char b'#' front ≡ 0 =
        omega
          (arith, few, ap (count_char b'#') p, count_char-append b'#' front (b'/' ∷ b'#' ∷ [])) in
      inr (inr (front, p, count_char-zero b'#' front alone))
]

contains-append_false :
    (c : ℕ) (s t : List ℕ)
    → contains c s ≡ false
    → contains c t ≡ false
    → contains c (s ++ t) ≡ false
contains-append_false c [] t hs ht = ht
contains-append_false c (x ∷ xs) t hs ht = ground (arith, contains-append_false c xs t)

count_char-absent : (c : ℕ) (s : List ℕ) → contains c s ≡ false → count_char c s ≡ 0
count_char-absent c [] h = refl
count_char-absent c (x ∷ xs) h = ground (arith, count_char-absent c xs)

abbrev slash_plus : List ℕ
slash_plus = b'/' ∷ b'+' ∷ []

count_matches-absent : (s : List ℕ) → contains b'+' s ≡ false → count_matches slash_plus s ≡ 0
count_matches-absent [] h = refl
count_matches-absent (x ∷ []) h = ground arith
count_matches-absent (x ∷ y ∷ r) h = ground (arith, count_matches-absent (y ∷ r))

count_matches-once :
    (front back : List ℕ)
    → contains b'+' front ≡ false
    → contains b'+' back ≡ false
    → count_matches slash_plus (front ++ (b'/' ∷ b'+' ∷ back)) ≡ 1
count_matches-once [] [] hf hb = refl
count_matches-once [] (x ∷ xs) hf hb = ground (arith, count_matches-absent (x ∷ xs))
count_matches-once (x ∷ []) back hf hb = ground (arith, count_matches-once [] back)
count_matches-once (x ∷ y ∷ r) back hf hb = ground (arith, count_matches-once (y ∷ r) back)

-- The check at a text with one `+`, which stands behind a slash.
check-one_plus :
    (name : List ℕ)
    → is_empty name ≡ false
    → contains b'#' name ≡ false
    → count_char b'+' name ≡ 1
    → starts_with (b'+' ∷ b'/' ∷ []) name ≡ false
    → count_matches slash_plus name ≡ 1
    → check_valid_topic_name name ≡ ok tt
unfolding check_valid_topic_name
check-one_plus name some_text no_hash one not_first behind =
    ground (arith, count_char-absent b'#' name)

not-is_empty-append :
    (front : List ℕ) (x : ℕ) (back : List ℕ) → is_empty (front ++ (x ∷ back)) ≡ false
not-is_empty-append [] x back = refl
not-is_empty-append (y ∷ r) x back = refl

starts_with-absent :
    (front back : List ℕ)
    → contains b'+' front ≡ false
    → starts_with (b'+' ∷ b'/' ∷ []) (front ++ (b'/' ∷ back)) ≡ false
starts_with-absent [] back h = refl
starts_with-absent (x ∷ r) back h = ground arith

-- A `+` behind a slash is accepted whatever text without wildcards follows it on its level, so
-- `a/+b` passes for a filter although its `+` does not take up a whole level.
pub check-plus_followed :
    (front back : List ℕ)
    → contains b'+' front ≡ false
    → contains b'#' front ≡ false
    → contains b'+' back ≡ false
    → contains b'#' back ≡ false
    → check_valid_topic_name (front ++ (b'/' ∷ b'+' ∷ back)) ≡ ok tt
check-plus_followed front back fp fh bp bh =
    let tail : List ℕ = b'/' ∷ b'+' ∷ back in
    let one : count_char b'+' (front ++ tail) ≡ 1 = omega (
      arith,
      count_char-append b'+' front tail,
      count_char-absent b'+' front fp,
      count_char-absent b'+' back bp,
    ) in
    check-one_plus (front ++ tail) (not-is_empty-append front b'/' (b'+' ∷ back))
      (contains-append_false b'#' front tail fh bh) one (starts_with-absent front (b'+' ∷ back) fp)
      (count_matches-once front back fp bp)
