-- ===== src/Bits/Digits.antt =====
-- The native bit operations, one binary digit at a time.
use Prim.Native.Nat.{
  min, max, differ, digits, bitwise, bit_and-bitwise, bit_or-bitwise, bit_xor-bitwise,
}
use native.Mathlib.Nat.{le_refl}
use trdb.Base.{
  ℕ, zero, suc, ◌+◌, ◌*◌, ◌/◌, ◌%◌, ◌≤◌, bit_and, bit_or, bit_xor, ◌≡◌, refl, ap, arith,
}

module _ (rest : ℕ → ℕ) (op : ℕ → ℕ → ℕ) where
  -- `digits` gives the same result on any two amounts of fuel that cover the first number.
  fuel_covers : (n m a b : ℕ) → a ≤ m → a ≤ n → digits rest op n a b ≡ digits rest op m a b
  fuel_covers zero zero a b p q = refl
  fuel_covers zero (suc m) zero b p q = refl
  fuel_covers zero (suc m) (suc a) b p q = elim q [ ]
  fuel_covers (suc n) zero zero b p q = refl
  fuel_covers (suc n) zero (suc a) b p q = elim p [ ]
  fuel_covers (suc n) (suc m) zero b p q = refl
  fuel_covers (suc n) (suc m) (suc a) b p q =
      ap (λ r. r * 2 + op (suc a % 2) (b % 2))
        (fuel_covers n m (suc a / 2) (b / 2) (omega arith) (omega arith))

  last_digit :
      (a b : ℕ)
      → bitwise rest op (suc a) b ≡ bitwise rest op (suc a / 2) (b / 2) * 2 + op (suc a % 2) (b % 2)
  last_digit a b =
      ap (λ r. r * 2 + op (suc a % 2) (b % 2))
        (fuel_covers a (suc a / 2) (suc a / 2) (b / 2) (le_refl _) (omega arith))

pub and_digit : (a b : ℕ) → bit_and a b ≡ bit_and (a / 2) (b / 2) * 2 + min (a % 2) (b % 2)
and_digit zero b = simp bit_and-bitwise (omega arith)
and_digit (suc a) b = simp bit_and-bitwise (last_digit (λ _. zero) min a b)

pub or_digit : (a b : ℕ) → bit_or a b ≡ bit_or (a / 2) (b / 2) * 2 + max (a % 2) (b % 2)
or_digit zero b = simp bit_or-bitwise (omega arith)
or_digit (suc a) b = simp bit_or-bitwise (last_digit (λ y. y) max a b)

differ-zero : (x : ℕ) → differ x 0 ≡ x
differ-zero zero = refl
differ-zero (suc x) = refl

xor_digit : (a b : ℕ) → bit_xor a b ≡ bit_xor (a / 2) (b / 2) * 2 + differ (a % 2) (b % 2)
xor_digit zero b = simp bit_xor-bitwise (digit b)
  where
    digit : (b : ℕ) → b ≡ b / 2 * 2 + differ 0 (b % 2)
    digit b = omega arith
xor_digit (suc a) b = simp bit_xor-bitwise (last_digit (λ y. y) differ a b)

-- The lowest digit of an exclusive or with an even number.
pub xor_digit_even : (a b : ℕ) → bit_xor a (b * 2) ≡ bit_xor (a / 2) b * 2 + a % 2
xor_digit_even a b = ground (arith, xor_digit a (b * 2), differ-zero (a % 2))
