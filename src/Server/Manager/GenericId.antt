-- ===== src/Server/Manager/GenericId.antt =====
-- server/src/clients_manager/mod.rs: the texts of the generic ids.
use t1_tp.Common.{
  ℕ, ◌+◌, ◌-◌, ◌*◌, ◌/◌, ◌%◌, ◌^◌, ◌<◌, ◌≡◌, refl, sym, ap, ◌∙◌, ltb, true, false, inl, inr, zero,
  suc, List, [], ◌∷◌, ◌++◌, starts_with, arith, Bool-cases,
}
use t1_tp.Server.Manager.{digits, generic_id, generic_id_suffix}

-- The number whose decimal digits come behind those of `acc`
abbrev value_from : ℕ → List ℕ → ℕ
value_from acc [] = acc
value_from acc (x ∷ xs) = value_from (10 * acc + (x - b'0')) xs

value_from-append :
    (acc x : ℕ) (xs : List ℕ)
    → value_from acc (xs ++ (x ∷ [])) ≡ 10 * value_from acc xs + (x - b'0')
value_from-append acc x [] = refl
value_from-append acc x (y ∷ xs) = value_from-append (10 * acc + (y - b'0')) x xs

digits_short : (fuel n : ℕ) → n < 10 → digits (suc fuel) n ≡ (b'0' + n) ∷ []
unfolding digits
digits_short fuel n h = ground arith

digits_long :
    (fuel n : ℕ)
    → ltb n 10 ≡ false
    → digits (suc fuel) n ≡ digits fuel (n / 10) ++ ((b'0' + n % 10) ∷ [])
unfolding digits
digits_long fuel n h = ground arith

value_from-digits_long :
    (fuel n : ℕ)
    → ltb n 10 ≡ false
    → value_from 0 (digits fuel (n / 10)) ≡ n / 10
    → value_from 0 (digits (suc fuel) n) ≡ n
value_from-digits_long fuel n h e =
    ap (value_from 0) (digits_long fuel n h)
    ∙ value_from-append 0 (b'0' + n % 10) (digits fuel (n / 10))
    ∙ rw e (omega arith)

value_from-digits_1 : (fuel n : ℕ) → n < 10 → value_from 0 (digits (suc fuel) n) ≡ n
value_from-digits_1 fuel n h = rw (digits_short fuel n h) (omega arith)

value_from-digits : (fuel n : ℕ) → n < 10 ^ suc fuel → value_from 0 (digits (suc fuel) n) ≡ n
value_from-digits zero n h = value_from-digits_1 zero n (omega arith)
value_from-digits (suc fuel) n h = elim (Bool-cases (ltb n 10)) [
  | inl e ↦ value_from-digits_1 (suc fuel) n (ground arith)
  | inr e ↦ value_from-digits_long (suc fuel) n e (value_from-digits fuel (n / 10) (omega arith))
]

suffixed : (s t : List ℕ) → generic_id_suffix ++ s ≡ generic_id_suffix ++ t → s ≡ t
suffixed s t e = cc

pub generic_id_injective : (m n : ℕ) → m < 2 ^ 32 → n < 2 ^ 32 → generic_id m ≡ generic_id n → m ≡ n
unfolding generic_id
generic_id_injective m n hm hn e =
    sym (value_from-digits 9 m (omega arith))
    ∙ ap (value_from 0) (suffixed (digits 10 m) (digits 10 n) e)
    ∙ value_from-digits 9 n (omega arith)

pub starts_with-generic_id : (n : ℕ) → starts_with generic_id_suffix (generic_id n) ≡ true
unfolding generic_id
starts_with-generic_id n = refl
