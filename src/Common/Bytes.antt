-- ===== src/Common/Bytes.antt =====
-- Masks and shifts on one byte as arithmetic: a table of 256 entries, checked by evaluation.
use Prim.Native.Nat.{ℕ, zero, suc, ◌+◌, ◌*◌, ◌/◌, ◌%◌, ◌<◌, bit_and, bit_or}
use mathlib.Core.Path.{◌≡◌, refl}
use mathlib.Core.Bool.{Bool, true, false}
use mathlib.Core.Logic.{ite}
use native.Mathlib.Decide.{ℕ_discrete}
use native.Mathlib.Omega.{arith}

abbrev pub IsByte : ℕ → Type 0
IsByte b = b < 256

module _ (f g : ℕ → ℕ) where
  unfoldable pub same_below : ℕ → Bool
  unfolding ℕ_discrete
  same_below zero = true
  same_below (suc n) = ite (ℕ_discrete (f n) (g n)) (same_below n) false

  pub same_below→eq : (n : ℕ) → same_below n ≡ true → (i : ℕ) → i < n → f i ≡ g i
  unfolding same_below
  same_below→eq zero e i h = absurd (omega arith)
  same_below→eq (suc n) e i h = ground (arith, same_below→eq n (ground arith) i)

pub low_bits : (b : ℕ) → b < 256 → bit_and b 127 ≡ b % 128
unfolding same_below
low_bits = same_below→eq _ _ 256 refl

pub top_bit : (b : ℕ) → b < 256 → bit_and b 128 ≡ b / 128 * 128
unfolding same_below
top_bit = same_below→eq _ _ 256 refl

pub set_top_bit : (b : ℕ) → b < 128 → bit_or b 128 ≡ b + 128
unfolding same_below
set_top_bit = same_below→eq _ _ 128 refl

pub low_nibble : (b : ℕ) → b < 256 → bit_and b 15 ≡ b % 16
unfolding same_below
low_nibble = same_below→eq _ _ 256 refl

pub high_nibble : (b : ℕ) → b < 256 → bit_and b 240 ≡ b / 16 * 16
unfolding same_below
high_nibble = same_below→eq _ _ 256 refl
