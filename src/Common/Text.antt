-- ===== src/Common/Text.antt =====
-- Texts as lists of bytes. A character that a program looks for is ASCII, so it is one byte.
use Prim.Native.Nat.{ℕ, ◌+◌}
use mathlib.Core.Path.{◌≡◌}
use mathlib.Core.Logic.{◌↔◌}
use mathlib.Core.Bool.{Bool, true, false, ◌&&◌, ◌||◌}
use mathlib.Core.List.{List, [], ◌∷◌}
use native.Mathlib.Omega.{arith}
use t1_tp.Common.Tests.{◌==◌, if◌then◌else◌}

-- `==` on texts
abbrev pub same_text : List ℕ → List ℕ → Bool
same_text [] [] = true
same_text [] (y ∷ ys) = false
same_text (x ∷ xs) [] = false
same_text (x ∷ xs) (y ∷ ys) = (x == y) && same_text xs ys

pub same_text_iff : (s t : List ℕ) → (same_text s t ≡ true) ↔ (s ≡ t)
same_text_iff [] [] = ground arith
same_text_iff [] (y ∷ ys) = ground arith
same_text_iff (x ∷ xs) [] = ground arith
same_text_iff (x ∷ xs) (y ∷ ys) = ground (arith, same_text_iff xs ys)

-- `text.is_empty()`
abbrev pub is_empty {ℓ} : {A : Type ℓ} → List A → Bool
is_empty [] = true
is_empty (x ∷ xs) = false

-- `text.contains(c)`
abbrev pub contains : ℕ → List ℕ → Bool
contains c [] = false
contains c (x ∷ xs) = (x == c) || contains c xs

-- `text.starts_with(prefix)`
abbrev pub starts_with : List ℕ → List ℕ → Bool
starts_with [] text = true
starts_with (p ∷ ps) [] = false
starts_with (p ∷ ps) (x ∷ xs) = (p == x) && starts_with ps xs

-- `text.ends_with(suffix)`
abbrev pub ends_with : List ℕ → List ℕ → Bool
ends_with suffix [] = same_text [] suffix
ends_with suffix (x ∷ xs) = same_text (x ∷ xs) suffix || ends_with suffix xs

-- `text.matches(c).count()`
abbrev pub count_char : ℕ → List ℕ → ℕ
count_char c [] = 0
count_char c (x ∷ xs) = (if x == c then 1 else 0) + count_char c xs

-- `text.matches(pattern).count()`, of a pattern that cannot overlap itself.
abbrev pub count_matches : List ℕ → List ℕ → ℕ
count_matches pattern [] = 0
count_matches pattern (x ∷ xs) =
    (if starts_with pattern (x ∷ xs) then 1 else 0) + count_matches pattern xs
