-- ===== src/Common/Trim.antt =====
-- `str::trim` and `str::split_once` on texts as lists of bytes of UTF-8.
use Prim.Native.Nat.{ℕ}
use mathlib.Core.Bool.{Bool, true, false, ◌&&◌, ◌||◌}
use mathlib.Core.List.{List, [], ◌∷◌, reverse}
use mathlib.Core.Option.{Option, none, some}
use t1_tp.Common.Tests.{◌==◌, leb, if◌then◌else◌}

-- White space of one, of two and of three bytes, as Unicode's `White_Space` has it.
unfoldable pub is_white : ℕ → Bool
is_white x = (x == 32) || (leb 9 x && leb x 13)

unfoldable pub is_white_two : ℕ → ℕ → Bool
is_white_two x y = (x == 194) && ((y == 133) || (y == 160))

unfoldable pub is_white_three : ℕ → ℕ → ℕ → Bool
is_white_three x y z =
    ((x == 225) && ((y == 154) && (z == 128)))
    || (((x == 226)
          && (((y == 128)
                && ((leb 128 z && leb z 138) || ((z == 168) || ((z == 169) || (z == 175)))))
              || ((y == 129) && (z == 159))))
        || ((x == 227) && ((y == 128) && (z == 128))))

-- A text behind its leading white space. The tests of two and of three bytes are arguments, since the
-- end of a text shows them in the other order.
unfoldable pub trim_front : (ℕ → ℕ → Bool) → (ℕ → ℕ → ℕ → Bool) → List ℕ → List ℕ
trim_front two three [] = []
trim_front two three (x ∷ []) = if is_white x then [] else x ∷ []
trim_front two three (x ∷ y ∷ []) = elim (is_white x) [
  | true ↦ trim_front two three (y ∷ [])
  | false ↦ if two x y then [] else x ∷ y ∷ []
]
trim_front two three (x ∷ y ∷ z ∷ rest) = elim (is_white x) [
  | true ↦ trim_front two three (y ∷ z ∷ rest)
  | false ↦ elim (two x y) [
    | true ↦ trim_front two three (z ∷ rest)
    | false ↦ elim (three x y z) [ true ↦ trim_front two three rest | false ↦ x ∷ y ∷ z ∷ rest ]
  ]
]

-- `text.trim()`
unfoldable pub trim : List ℕ → List ℕ
trim text = reverse (
    trim_front (λ x y. is_white_two y x) (λ x y z. is_white_three z y x)
      (reverse (trim_front is_white_two is_white_three text)))

-- `text.split_once(c)`
unfoldable pub split_once : ℕ → List ℕ → Option (List ℕ × List ℕ)
split_once c [] = none
split_once c (x ∷ xs) =
    if x == c
    then some ([], xs)
    else elim (split_once c xs) [ none ↦ none | some (front, behind) ↦ some (x ∷ front, behind) ]
