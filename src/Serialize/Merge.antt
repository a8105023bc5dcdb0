-- ===== src/Serialize/Merge.antt =====
-- One more packet behind the bits that are stitched already: the arithmetic of trdb_write_packets of
-- src/serialize.c.
use trdb.Base.{
  ℕ, ◌+◌, ◌*◌, ◌/◌, ◌%◌, ◌^◌, ◌<◌, ◌≤◌, ◌≡◌, ◌⊎◌, inl, inr, sym, ap, ◌∙◌, List, ◌++◌, arith,
}
use native.Mathlib.Nat.{mod-lt, mod-eq_of_lt, one-le-pow, div-div-eq-div-mul, div-lt_iff_lt-mul}
use trdb.Bits.{two_pow-add}
use trdb.Bits.Fields.{
  field, field-mod, low_plus_high, mod_fields, low_of, high_of, split_at, mod-mod_pow,
}
use trdb.Serialize.{bytes_of, shl128}
use trdb.Serialize.Joined.{bytes_of-add, bytes_of-low, byte_at-bytes_of, pow_lt}
use trdb.Serialize.Stitch.{byte_at}

-- The high part of a number below 2 ^ (s + a).
high_lt : (s a x : ℕ) → x < 2 ^ (s + a) → x / 2 ^ s < 2 ^ a
high_lt s a x h =
    let size : x < 2 ^ a * 2 ^ s =
      omega (arith, h, ap (λ (k : ℕ). 2 ^ k) (order s a), two_pow-add a s) in
    (div-lt_iff_lt-mul {k = 2 ^ s} {x = x} {y = 2 ^ a} (one-le-pow s 2 (omega arith))).1 size
  where
    order : (j k : ℕ) → j + k ≡ k + j
    order j k = omega arith

from_zero : (k : ℕ) → k ≡ 0 + k
from_zero k = omega arith

-- m whole bytes and a bits are there, the number x; n bits of w come behind them.
module _ (m a n w x : ℕ) (small : a < 8) (fits : a + n ≤ 128) (low : x < 2 ^ (8 * m + a)) where
  abbrev pub joined : ℕ
  joined = x + w % 2 ^ n * 2 ^ (8 * m + a)

  abbrev pub carry : ℕ
  carry = x / 2 ^ (8 * m)

  -- What stands above the whole bytes.
  abbrev pub above : ℕ
  above = carry + w % 2 ^ n * 2 ^ a

  -- The word that is copied, with the carry.
  abbrev pub word : ℕ
  word = shl128 w a + carry

  pub carry_lt : carry < 2 ^ a
  carry_lt = high_lt (8 * m) a x low

  pub joined_lt : joined < 2 ^ (8 * m + a + n)
  joined_lt =
      low_plus_high (8 * m + a) n x (w % 2 ^ n) low (mod-lt w (one-le-pow n 2 (omega arith)))

  parts : joined ≡ x % 2 ^ (8 * m) + above * 2 ^ (8 * m)
  parts = omega (arith, split_at (8 * m) x, ap (λ (k : ℕ). w % 2 ^ n * k) (two_pow-add (8 * m) a))

  pub joined-high : joined / 2 ^ (8 * m) ≡ above
  joined-high =
      ap (λ (k : ℕ). k / 2 ^ (8 * m)) parts
      ∙ high_of (8 * m) (x % 2 ^ (8 * m)) above (mod-lt x (one-le-pow (8 * m) 2 (omega arith)))

  joined-low : joined % 2 ^ (8 * m) ≡ x % 2 ^ (8 * m)
  joined-low =
      ap (λ (k : ℕ). k % 2 ^ (8 * m)) parts
      ∙ low_of (8 * m) (x % 2 ^ (8 * m)) above (mod-lt x (one-le-pow (8 * m) 2 (omega arith)))

  shifted-low : shl128 w a % 2 ^ (a + n) ≡ w % 2 ^ n * 2 ^ a
  shifted-low =
      mod-mod_pow (a + n) 128 (w * 2 ^ a) fits
      ∙ ap (λ (k : ℕ). k % 2 ^ (a + n)) (from_zero (w * 2 ^ a))
      ∙ mod_fields a n 0 w (one-le-pow a 2 (omega arith))
      ∙ sym (from_zero (w % 2 ^ n * 2 ^ a))

  pub shifted_even : shl128 w a % 2 ^ a ≡ 0
  shifted_even =
      mod-mod_pow a 128 (w * 2 ^ a) (omega (arith, small))
      ∙ ap (λ (k : ℕ). k % 2 ^ a) (from_zero (w * 2 ^ a))
      ∙ low_of a 0 w (one-le-pow a 2 (omega arith))

  word-low : word % 2 ^ (a + n) ≡ above
  word-low =
      let u : ℕ = shl128 w a / 2 ^ a in
      let shifted : shl128 w a ≡ u * 2 ^ a = omega (arith, split_at a (shl128 w a), shifted_even) in
      let low_bits : u % 2 ^ n * 2 ^ a ≡ w % 2 ^ n * 2 ^ a =
        from_zero (u % 2 ^ n * 2 ^ a)
        ∙ sym (mod_fields a n 0 u (one-le-pow a 2 (omega arith)))
        ∙ sym (ap (λ (k : ℕ). k % 2 ^ (a + n)) (shifted ∙ from_zero (u * 2 ^ a)))
        ∙ shifted-low in
      let word_parts : word ≡ carry + u * 2 ^ a = omega (arith, shifted) in
      ap (λ (k : ℕ). k % 2 ^ (a + n)) word_parts
      ∙ mod_fields a n carry u carry_lt
      ∙ ap (λ (k : ℕ). carry + k) low_bits

  -- The bytes behind: whole bytes g of what is above, and r bits.
  module _ (g r : ℕ) (split : a + n ≡ 8 * g + r) (part : r < 8) where
    word-bytes : bytes_of g word ≡ bytes_of g above
    word-bytes = bytes_of-low g word above (
        sym (mod-mod_pow (8 * g) (a + n) word (omega (arith, split)))
        ∙ ap (λ (k : ℕ). k % 2 ^ (8 * g)) word-low)

    pub bytes_of-joined : bytes_of m x ++ bytes_of g word ≡ bytes_of (m + g) joined
    bytes_of-joined =
        ap (λ l. bytes_of m x ++ l) word-bytes
        ∙ ap (λ l. l ++ bytes_of g above) (bytes_of-low m x joined (sym joined-low))
        ∙ ap (λ (k : ℕ). bytes_of m joined ++ bytes_of g k) (sym joined-high)
        ∙ sym (bytes_of-add m g joined)

    above_lt : above < 2 ^ (8 * g + r)
    above_lt =
        pow_lt split
          (low_plus_high a n carry (w % 2 ^ n) carry_lt (mod-lt w (one-le-pow n 2 (omega arith))))

    field-word : field (8 * g) r word ≡ above / 2 ^ (8 * g)
    field-word =
        sym (field-mod (8 * g) r (a + n) word (omega (arith, split)))
        ∙ ap (λ (k : ℕ). field (8 * g) r k) word-low
        ∙ mod-eq_of_lt (high_lt (8 * g) r above above_lt)

    joined-rest : joined / 2 ^ (8 * (m + g)) ≡ above / 2 ^ (8 * g)
    joined-rest =
        let sizes : 8 * (m + g) ≡ 8 * m + 8 * g = omega arith in
        ap (λ (k : ℕ). joined / 2 ^ k) sizes
        ∙ ap (λ (k : ℕ). joined / k) (two_pow-add (8 * m) (8 * g))
        ∙ sym (div-div-eq-div-mul joined (2 ^ (8 * m)) (2 ^ (8 * g)))
        ∙ ap (λ (k : ℕ). k / 2 ^ (8 * g)) joined-high

    -- The byte behind the whole ones holds the bits that are left.
    pub byte_at-word :
        (k : ℕ) (stale : List ℕ)
        → (r ≡ 0) ⊎ (g < k)
        → byte_at (bytes_of k word ++ stale) g % 2 ^ r ≡ joined / 2 ^ (8 * (m + g))
    byte_at-word k stale (inl empty) =
        let one : 2 ^ r ≡ 1 = ap (λ (k : ℕ). 2 ^ k) empty in
        omega (
          arith,
          one,
          mod-lt (byte_at (bytes_of k word ++ stale) g) (one-le-pow r 2 (omega arith)),
          high_lt (8 * g) r above above_lt,
          joined-rest,
        )
    byte_at-word k stale (inr more) =
        ap (λ (b : ℕ). b % 2 ^ r) (byte_at-bytes_of k g word stale more)
        ∙ mod-mod_pow r 8 (word / 2 ^ (8 * g)) (omega (arith, part))
        ∙ field-word
        ∙ sym joined-rest
