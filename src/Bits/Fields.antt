-- ===== src/Bits/Fields.antt =====
-- A field of b bits above the a lowest ones, and what a truncation or an extension leaves of it.
use native.Mathlib.Nat.{
  one-le-pow, mod-lt, mod-eq_of_lt, div-add-mod', div-div-eq-div-mul, mul-add-mod_self_right,
  mul-add-div_right, div-eq_of_lt, add_comm, add-zero, mul-le-mul_right,
}
use mathlib.Core.Path.{◌≡⟨◌⟩◌, ◌∎}
use trdb.Base.{ℕ, suc, ◌+◌, ◌-◌, ◌*◌, ◌/◌, ◌%◌, ◌^◌, ◌<◌, ◌≤◌, ◌≡◌, sym, ap, ◌∙◌, arith}
use trdb.Bits.{two_pow-add}

abbrev pub field : ℕ → ℕ → ℕ → ℕ
field a b x = x / 2 ^ a % 2 ^ b

two_pow_pos : (k : ℕ) → 0 < 2 ^ k
two_pow_pos k = one-le-pow k 2 (omega arith)

pub low_plus_high : (s j lo hi : ℕ) → lo < 2 ^ s → hi < 2 ^ j → lo + hi * 2 ^ s < 2 ^ (s + j)
low_plus_high s j lo hi h k =
    omega (arith, two_pow-add s j, mul-le-mul_right {m = suc hi} {n = 2 ^ j} (2 ^ s) k)

-- A number is cut off at s + j bits by cutting what stands above its s lowest ones.
pub mod_fields :
    (s j lo hi : ℕ) → lo < 2 ^ s → (lo + hi * 2 ^ s) % 2 ^ (s + j) ≡ lo + hi % 2 ^ j * 2 ^ s
mod_fields s j lo hi h =
    (lo + hi * 2 ^ s) % 2 ^ (s + j)
    ≡⟨ ap (λ n. n % 2 ^ (s + j)) split ⟩
      (hi / 2 ^ j * 2 ^ (s + j) + (lo + hi % 2 ^ j * 2 ^ s)) % 2 ^ (s + j)
    ≡⟨ mul-add-mod_self_right (hi / 2 ^ j) (2 ^ (s + j)) _ ⟩ (lo + hi % 2 ^ j * 2 ^ s) % 2 ^ (s + j)
    ≡⟨ mod-eq_of_lt (low_plus_high s j lo (hi % 2 ^ j) h (mod-lt hi (two_pow_pos j))) ⟩
      lo + hi % 2 ^ j * 2 ^ s ∎
  where
    split : lo + hi * 2 ^ s ≡ hi / 2 ^ j * 2 ^ (s + j) + (lo + hi % 2 ^ j * 2 ^ s)
    split = omega (
      arith,
      ap (λ (t : ℕ). hi / 2 ^ j * t) (two_pow-add s j),
      ap (λ (t : ℕ). t * 2 ^ s) (div-add-mod' hi (2 ^ j)),
    )

pub high_of : (s lo hi : ℕ) → lo < 2 ^ s → (lo + hi * 2 ^ s) / 2 ^ s ≡ hi
high_of s lo hi h =
    ap (λ n. n / 2 ^ s) (add_comm lo (hi * 2 ^ s))
    ∙ mul-add-div_right (two_pow_pos s) hi lo
    ∙ (ap (λ n. hi + n) (div-eq_of_lt h) ∙ add-zero hi)

pub low_of : (s lo hi : ℕ) → lo < 2 ^ s → (lo + hi * 2 ^ s) % 2 ^ s ≡ lo
low_of s lo hi h =
    ap (λ n. n % 2 ^ s) (add_comm lo (hi * 2 ^ s))
    ∙ mul-add-mod_self_right hi (2 ^ s) lo
    ∙ mod-eq_of_lt h

pub split_at : (s x : ℕ) → x % 2 ^ s + x / 2 ^ s * 2 ^ s ≡ x
split_at s x = omega (arith, div-add-mod' x (2 ^ s))

pub cut : (s j x : ℕ) → x % 2 ^ (s + j) ≡ x % 2 ^ s + x / 2 ^ s % 2 ^ j * 2 ^ s
cut s j x =
    ap (λ n. n % 2 ^ (s + j)) (sym (split_at s x))
    ∙ mod_fields s j (x % 2 ^ s) (x / 2 ^ s) (mod-lt x (two_pow_pos s))

pub mod-mod_pow : (s t x : ℕ) → s ≤ t → x % 2 ^ t % 2 ^ s ≡ x % 2 ^ s
mod-mod_pow s t x h =
    let e : t ≡ s + (t - s) = omega arith in
    ap (λ n. x % 2 ^ n % 2 ^ s) e
    ∙ ap (λ n. n % 2 ^ s) (cut s (t - s) x)
    ∙ low_of s (x % 2 ^ s) (x / 2 ^ s % 2 ^ (t - s)) (mod-lt x (two_pow_pos s))

field-cut : (a b x : ℕ) → field a b x ≡ x % 2 ^ (a + b) / 2 ^ a
field-cut a b x = sym (
    ap (λ n. n / 2 ^ a) (cut a b x)
    ∙ high_of a (x % 2 ^ a) (x / 2 ^ a % 2 ^ b) (mod-lt x (two_pow_pos a)))

-- A field that lies within the t lowest bits is seen by them alone.
pub field-mod : (a b t x : ℕ) → a + b ≤ t → field a b (x % 2 ^ t) ≡ field a b x
field-mod a b t x h =
    field-cut a b (x % 2 ^ t)
    ∙ ap (λ n. n / 2 ^ a) (mod-mod_pow (a + b) t x h)
    ∙ sym (field-cut a b x)

pub field-agree : (a b t x y : ℕ) → a + b ≤ t → x % 2 ^ t ≡ y % 2 ^ t → field a b x ≡ field a b y
field-agree a b t x y h e = sym (field-mod a b t x h) ∙ ap (field a b) e ∙ field-mod a b t y h

-- A field of a number whose a lowest bits are dropped.
pub field-div : (a b c x : ℕ) → field a b (x / 2 ^ c) ≡ field (c + a) b x
field-div a b c x =
    ap (λ n. n % 2 ^ b)
      (div-div-eq-div-mul x (2 ^ c) (2 ^ a) ∙ ap (λ n. x / n) (sym (two_pow-add c a)))

-- The field on top of lo.
pub field-top : (s b lo hi : ℕ) → lo < 2 ^ s → field s b (lo + hi * 2 ^ s) ≡ hi % 2 ^ b
field-top s b lo hi h = ap (λ n. n % 2 ^ b) (high_of s lo hi h)
