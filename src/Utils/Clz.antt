-- ===== src/Utils/Clz.antt =====
-- What the leading zeros and the sign-extendable bits of a word say about its value.
use native.Mathlib.Nat.{one-le-pow, pow-le-pow_right}
use trdb.Base.{ℕ, zero, suc, ◌+◌, ◌-◌, ◌^◌, ◌≤◌, ◌<◌, ◌≡◌, refl, ◌↔◌, ◌⊎◌, arith}
use trdb.Utils.{clz, sign_extendable_bits}

pub clz-le : (w x : ℕ) → clz w x ≤ w
unfolding clz
clz-le zero x = omega arith
clz-le (suc w) x = ground (arith, clz-le w x)

-- A word has k leading zeros exactly when its value fits the j bits below them.
pub le-clz_iff : (w k j x : ℕ) → k + j ≡ w → x < 2 ^ w → (k ≤ clz w x) ↔ (x < 2 ^ j)
unfolding clz
le-clz_iff zero zero zero x h lt = (λ _. lt, λ _. omega arith)
le-clz_iff zero zero (suc j) x h lt = absurd (omega arith)
le-clz_iff zero (suc k) j x h lt = absurd (omega arith)
le-clz_iff (suc w) zero j x h lt =
    let e : j ≡ suc w = omega arith in (λ _. rw e lt, λ _. omega arith)
le-clz_iff (suc w) (suc k) j x h lt = ground (
  arith,
  le-clz_iff w k j x (omega arith),
  pow-le-pow_right {n = 2} (omega arith) {i = j} {j = w} (omega arith),
)

-- For k + j = 32, a 32-bit word has at least k sign-extendable bits exactly when it is below 2 ^
-- j, or within that of 2 ^ 32.
pub le-sign_extendable_bits_iff :
    (k j a : ℕ)
    → k + j ≡ 32
    → a < 2 ^ 32
    → (k ≤ sign_extendable_bits a) ↔ ((a < 2 ^ j) ⊎ (2 ^ 32 ≤ a + 2 ^ j))
unfolding sign_extendable_bits
le-sign_extendable_bits_iff k j a h lt = ground (
  arith,
  one-le-pow j 2,
  le-clz_iff 32 k j a h lt,
  le-clz_iff 32 k j (2 ^ 32 - 1 - a) h (omega arith),
)

pub sign_extendable_bits_pos : (a : ℕ) → a < 2 ^ 32 → 1 ≤ sign_extendable_bits a
sign_extendable_bits_pos a lt = (le-sign_extendable_bits_iff 1 31 a refl lt).1 (ground arith)

pub sign_extendable_bits-le : (a : ℕ) → sign_extendable_bits a ≤ 32
unfolding sign_extendable_bits
sign_extendable_bits-le a = ground (arith, clz-le 32 a, clz-le 32 (2 ^ 32 - 1 - a))
