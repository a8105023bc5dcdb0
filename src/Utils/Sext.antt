-- ===== src/Utils/Sext.antt =====
-- Sign extension from a narrower field.
use native.Mathlib.Nat.{
  pow-suc, one-le-pow, pow-le-pow_right, mod-eq_of_lt, mod-eq-sub-mod, mod-lt,
  mul-add-mod_self_right,
}
use trdb.Base.{
  ℕ, zero, suc, ◌+◌, ◌-◌, ◌*◌, ◌%◌, ◌^◌, ◌≤◌, ◌<◌, ◌≡◌, ◌⊎◌, inl, inr, arith, Bool-cases, ltb,
  if◌then◌else◌, done, bit_xor, ap, ◌∙◌,
}
use native.Mathlib.Decide.{dec_lt}
use trdb.Bits.{two_pow-add, bit_and_low, bit_xor_set, bit_xor_clear}
use trdb.Utils.{sign_extendable_bits, sext32, sext128}
use trdb.Utils.Clz.{sign_extendable_bits-le, le-sign_extendable_bits_iff}

flip_top :
    (k m low : ℕ)
    → low < 2 ^ suc k
    → 2 ^ suc k ≤ m
    → (bit_xor low (2 ^ k) + m - 2 ^ k) % m ≡ (if ltb low (2 ^ k) then low else low + m - 2 ^ suc k)
flip_top k m low h hm = ground (
  arith,
  pow-suc 2 k,
  one-le-pow k 2,
  bit_xor_set k low,
  bit_xor_clear k (low - 2 ^ k),
  mod-eq_of_lt {n = low} {m = m},
  mod-eq_of_lt {n = low + m - 2 ^ suc k} {m = m},
  mod-eq-sub-mod {n = low + m} {m = m},
)

-- `sext32` repeats the top one of the low `k + 1` bits above them.
pub sext32_lem :
    (val k : ℕ)
    → k < 31
    → sext32 val (suc k)
      ≡ done (
          if ltb (val % 2 ^ suc k) (2 ^ k)
          then val % 2 ^ suc k
          else val % 2 ^ suc k + 2 ^ 32 - 2 ^ suc k)
unfolding sext32
sext32_lem val k h = ground (
  arith,
  bit_and_low (suc k) val,
  flip_top k (2 ^ 32) (val % 2 ^ suc k),
  one-le-pow (suc k) 2,
  pow-le-pow_right {n = 2} (omega arith) {i = suc k} {j = 32} (omega arith),
)

pub sext128_lem :
    (val k : ℕ)
    → k < 127
    → sext128 val (suc k)
      ≡ done (
          if ltb (val % 2 ^ suc k) (2 ^ k)
          then val % 2 ^ suc k
          else val % 2 ^ suc k + 2 ^ 128 - 2 ^ suc k)
unfolding sext128
sext128_lem val k h = ground (
  arith,
  bit_and_low (suc k) val,
  flip_top k (2 ^ 128) (val % 2 ^ suc k),
  one-le-pow (suc k) 2,
  pow-le-pow_right {n = 2} (omega arith) {i = suc k} {j = 128} (omega arith),
)

-- The low part of a word just below the top.
mod_below_top : (j k d : ℕ) → 0 < d → d ≤ 2 ^ k → (2 ^ (j + k) - d) % 2 ^ k ≡ 2 ^ k - d
mod_below_top j k d pos fits = rw split (mod-eq ∙ mod-eq_of_lt (omega (arith, one-le-pow k 2)))
  where
    split : 2 ^ (j + k) - d ≡ (2 ^ j - 1) * 2 ^ k + (2 ^ k - d)
    split =
        let less_one : 2 ^ j ≡ 2 ^ j - 1 + 1 = omega (arith, one-le-pow j 2) in
        omega (arith, two_pow-add j k, ap (λ (p : ℕ). p * 2 ^ k) less_one)

    mod-eq : ((2 ^ j - 1) * 2 ^ k + (2 ^ k - d)) % 2 ^ k ≡ (2 ^ k - d) % 2 ^ k
    mod-eq = mul-add-mod_self_right (2 ^ j - 1) (2 ^ k) (2 ^ k - d)

extend_fitting :
    (val a k j : ℕ)
    → j + suc k ≡ 32
    → k < 31
    → a < 2 ^ 32
    → (a < 2 ^ k) ⊎ (2 ^ 32 ≤ a + 2 ^ k)
    → val % 2 ^ suc k ≡ a % 2 ^ suc k
    → sext32 val (suc k) ≡ done a
extend_fitting val a k j e h lt (inl low) same =
    ground (arith, sext32_lem val k h, pow-suc 2 k, mod-eq_of_lt {n = a} {m = 2 ^ suc k})
extend_fitting val a k j e h lt (inr high) same = ground (
  arith,
  sext32_lem val k h,
  pow-suc 2 k,
  ap (λ (n : ℕ). 2 ^ n) e,
  mod_below_top j (suc k) (2 ^ 32 - a),
)

whole :
    (val a k : ℕ)
    → k ≡ 31
    → val < 2 ^ 32
    → a < 2 ^ 32
    → val % 2 ^ suc k ≡ a % 2 ^ suc k
    → sext32 val (suc k) ≡ done a
unfolding sext32
whole val a k e hv lt same =
    let same' : val % 2 ^ 32 ≡ a % 2 ^ 32 = rw e at same in
    let equal : val ≡ a = omega arith in ground arith

-- A word that agrees with a in its low bits, as many as are left when all but one of the sign-
-- extendable bits of a are dropped, or more, up to 32, is extended by sext32 to a itself.
pub sext32-sign_extendable_bits :
    (val a bit : ℕ)
    → val < 2 ^ 32
    → a < 2 ^ 32
    → 33 ≤ sign_extendable_bits a + bit
    → bit ≤ 32
    → val % 2 ^ bit ≡ a % 2 ^ bit
    → sext32 val bit ≡ done a
sext32-sign_extendable_bits val a zero hv lt keep fits same =
    absurd (omega (arith, sign_extendable_bits-le a))
sext32-sign_extendable_bits val a (suc k) hv lt keep fits same = elim (dec_lt k 31) [
  | yes small ↦
      extend_fitting val a k (31 - k) (omega arith) small lt
        ((le-sign_extendable_bits_iff (32 - k) k a (omega arith) lt).0 (omega arith)) same
  | no top ↦ whole val a k (omega arith) hv lt same
]

high_copies : (j k low : ℕ) → low < 2 ^ k → (low + 2 ^ (j + k) - 2 ^ k) % 2 ^ k ≡ low
high_copies j k low h = rw split (mul-add-mod_self_right (2 ^ j - 1) (2 ^ k) low ∙ mod-eq_of_lt h)
  where
    split : low + 2 ^ (j + k) - 2 ^ k ≡ (2 ^ j - 1) * 2 ^ k + low
    split =
        let less_one : 2 ^ j ≡ 2 ^ j - 1 + 1 = omega (arith, one-le-pow j 2) in
        omega (arith, two_pow-add j k, ap (λ (p : ℕ). p * 2 ^ k) less_one)

-- What sext128 returns for a width of k + 1 bits has their low bits.
sext128-low :
    (val k : ℕ)
    → k < 127
    → (if ltb (val % 2 ^ suc k) (2 ^ k)
          then val % 2 ^ suc k
          else val % 2 ^ suc k + 2 ^ 128 - 2 ^ suc k)
        % 2 ^ suc k
      ≡ val % 2 ^ suc k
sext128-low val k h =
    let top : 127 - k + suc k ≡ 128 = omega arith in
    let low_fits = mod-lt val (one-le-pow (suc k) 2 (omega arith)) in
    elim (Bool-cases (ltb (val % 2 ^ suc k) (2 ^ k))) [
      | inl small ↦ rw small (mod-eq_of_lt low_fits)
      | inr big ↦ rw big (rw top at (high_copies (127 - k) (suc k) (val % 2 ^ suc k) low_fits))
    ]

-- For a width of 1 to 127 bits, sext128 is defined, keeps the bits of that width, and returns a
-- value itself that has its sign bit and all bits above clear.
pub sext128_keeps :
    (val bit : ℕ)
    → 0 < bit
    → bit < 128
    → (s : ℕ) × (sext128 val bit ≡ done s)
      × (s % 2 ^ bit ≡ val % 2 ^ bit)
      × (val < 2 ^ (bit - 1) → s ≡ val)
sext128_keeps val zero pos h = absurd (omega arith)
sext128_keeps val (suc k) pos h =
    (_, sext128_lem val k (omega arith), sext128-low val k (omega arith), positive)
  where
    low : ℕ
    low = val % 2 ^ suc k

    shift : suc k - 1 ≡ k
    shift = omega arith

    positive :
        val < 2 ^ (suc k - 1) → (if ltb low (2 ^ k) then low else low + 2 ^ 128 - 2 ^ suc k) ≡ val
    positive h =
        let less : val < 2 ^ k = rw shift at h in
        let whole : low ≡ val = mod-eq_of_lt (omega (arith, pow-suc 2 k, less)) in ground arith

-- For a width of 1 to 127 bits, sext128 is defined and returns a word of 128 bits that has the
-- same low bits, as many as the width says, and that lies, read as a signed number, between - 2 ^
-- (width - 1) and 2 ^ (width - 1) - 1: its bits from the sign bit of the width upwards are all
-- clear or all set.
pub sext128_extends :
    (val bit : ℕ)
    → 0 < bit
    → bit < 128
    → (s : ℕ) × (sext128 val bit ≡ done s)
      × (s < 2 ^ 128)
      × (s % 2 ^ bit ≡ val % 2 ^ bit)
      × ((s < 2 ^ (bit - 1)) ⊎ (2 ^ 128 ≤ s + 2 ^ (bit - 1)))
sext128_extends val zero pos h = absurd (omega arith)
sext128_extends val (suc k) pos h =
    (_, sext128_lem val k (omega arith), short, sext128-low val k (omega arith), signed)
  where
    low : ℕ
    low = val % 2 ^ suc k

    low_fits : low < 2 ^ suc k
    low_fits = mod-lt val (one-le-pow (suc k) 2 (omega arith))

    narrow : 2 ^ suc k ≤ 2 ^ 128
    narrow = pow-le-pow_right {n = 2} (omega arith) {i = suc k} {j = 128} (omega arith)

    short : (if ltb low (2 ^ k) then low else low + 2 ^ 128 - 2 ^ suc k) < 2 ^ 128
    short = ground (arith, low_fits, narrow)

    shift : suc k - 1 ≡ k
    shift = omega arith

    signed :
        ((if ltb low (2 ^ k) then low else low + 2 ^ 128 - 2 ^ suc k) < 2 ^ (suc k - 1))
        ⊎ (2 ^ 128 ≤ (if ltb low (2 ^ k) then low else low + 2 ^ 128 - 2 ^ suc k) + 2 ^ (suc k - 1))
    signed = elim (Bool-cases (ltb low (2 ^ k))) [
      | inl small ↦ inl (rw (shift, small) (ground (arith, small)))
      | inr big ↦ inr (rw (shift, big) (ground (arith, big, narrow, pow-suc 2 k)))
    ]
