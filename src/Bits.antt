-- ===== src/Bits.antt =====
-- `&`, `|` and `^` on numbers of any width: masks are remainders, disjoint fields are sums, and
-- flipping one bit adds or subtracts its weight.
mod Digits
pub mod Fields
use Digits.{and_digit, or_digit, xor_digit_even}
use Prim.Native.Nat.{bit_or-bitwise}
use mathlib.Core.WellFounded
use native.Mathlib.Nat.{add-zero, add-suc, pow-suc, one-le-pow}
use trdb.Base.{
  ◌∙◌, ℕ, zero, suc, ◌+◌, ◌-◌, ◌*◌, ◌/◌, ◌%◌, ◌^◌, ◌<◌, ◌≤◌, bit_and, bit_or, bit_xor, ◌≡◌, refl,
  ap, arith, lt_wf,
}

double_pow : (k x : ℕ) → x * 2 ^ suc k ≡ 2 * (x * 2 ^ k)
double_pow k x = omega (arith, ap (λ (p : ℕ). x * p) (pow-suc 2 k))

-- The powers of two multiply by adding their exponents.
pub two_pow-add : (j k : ℕ) → 2 ^ (j + k) ≡ 2 ^ j * 2 ^ k
two_pow-add j zero = ground (arith, add-zero j)
two_pow-add j (suc k) = ground (
  arith,
  add-suc j k,
  ap (λ (p : ℕ). 2 ^ j * p) (pow-suc 2 k),
  pow-suc 2 (j + k),
  two_pow-add j k,
)

bit_or-zero : (a : ℕ) → bit_or a 0 ≡ a
bit_or-zero a = WellFounded.induction lt_wf {C = λ n. bit_or n 0 ≡ n} a λ n ih. above n ih
  where
    above : (n : ℕ) → ((m : ℕ) → m < n → bit_or m 0 ≡ m) → bit_or n 0 ≡ n
    above zero ih = refl
    above (suc n) ih = omega (arith, or_digit (suc n) 0, ih (suc n / 2) (omega arith))

bit_and-zero : (a : ℕ) → bit_and a 0 ≡ 0
bit_and-zero a = WellFounded.induction lt_wf {C = λ n. bit_and n 0 ≡ 0} a λ n ih. above n ih
  where
    above : (n : ℕ) → ((m : ℕ) → m < n → bit_and m 0 ≡ 0) → bit_and n 0 ≡ 0
    above zero ih = refl
    above (suc n) ih = omega (arith, and_digit (suc n) 0, ih (suc n / 2) (omega arith))

-- A low part that fits under the high one is joined to it by addition.
pub bit_or_above : (k lo hi : ℕ) → lo < 2 ^ k → bit_or lo (hi * 2 ^ k) ≡ lo + hi * 2 ^ k
bit_or_above zero zero hi fits = simp bit_or-bitwise (omega arith)
bit_or_above zero (suc lo) hi fits = absurd (omega arith)
bit_or_above (suc k) lo hi fits =
    ground (
      arith,
      or_digit lo (hi * 2 ^ suc k),
      double_pow k hi,
      pow-suc 2 k,
      bit_or_above k (lo / 2) hi,
    )

-- The same from the other side.
pub bit_or_below : (k lo hi : ℕ) → lo < 2 ^ k → bit_or (hi * 2 ^ k) lo ≡ lo + hi * 2 ^ k
bit_or_below zero zero hi fits = bit_or-zero (hi * 1) ∙ omega arith
bit_or_below zero (suc lo) hi fits = absurd (omega arith)
bit_or_below (suc k) lo hi fits =
    ground (
      arith,
      or_digit (hi * 2 ^ suc k) lo,
      double_pow k hi,
      pow-suc 2 k,
      bit_or_below k (lo / 2) hi,
    )

bit_and_fields : (k lo hi : ℕ) → lo < 2 ^ k → bit_and (lo + hi * 2 ^ k) (2 ^ k - 1) ≡ lo
bit_and_fields zero lo hi fits = rw bit_and-zero (omega arith)
bit_and_fields (suc k) lo hi fits = ground (
  arith,
  and_digit (lo + hi * 2 ^ suc k) (2 ^ suc k - 1),
  double_pow k hi,
  pow-suc 2 k,
  one-le-pow k 2,
  bit_and_fields k (lo / 2) hi,
)

-- `x & (2 ^ k - 1)` keeps the k lowest bits.
pub bit_and_low : (k x : ℕ) → bit_and x (2 ^ k - 1) ≡ x % 2 ^ k
bit_and_low k x = ground (arith, one-le-pow k 2, bit_and_fields k (x % 2 ^ k) (x / 2 ^ k))

-- Flipping the top bit of a number that lacks it, and of one that has it.
pub bit_xor_set : (k lo : ℕ) → lo < 2 ^ k → bit_xor lo (2 ^ k) ≡ lo + 2 ^ k
bit_xor_set zero zero fits = refl
bit_xor_set zero (suc lo) fits = absurd (omega arith)
bit_xor_set (suc k) lo fits =
    ground (arith, xor_digit_even lo (2 ^ k), pow-suc 2 k, bit_xor_set k (lo / 2))

pub bit_xor_clear : (k lo : ℕ) → lo < 2 ^ k → bit_xor (lo + 2 ^ k) (2 ^ k) ≡ lo
bit_xor_clear zero zero fits = refl
bit_xor_clear zero (suc lo) fits = absurd (omega arith)
bit_xor_clear (suc k) lo fits =
    ground (arith, xor_digit_even (lo + 2 ^ suc k) (2 ^ k), pow-suc 2 k, bit_xor_clear k (lo / 2))
