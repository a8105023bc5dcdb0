-- ===== src/Serialize/Joined.antt =====
-- The bits of stitched packets, for trdb_write_packets of src/serialize.c.
use trdb.Base.{
  ℕ, zero, suc, ◌+◌, ◌-◌, ◌*◌, ◌/◌, ◌%◌, ◌^◌, ◌<◌, ◌≡◌, refl, sym, ap, ◌∙◌, List, ◌∷◌, ◌++◌, set,
  bit_or, arith,
}
use mathlib.Core.Path.{subst}
use native.Mathlib.Nat.{div-div-eq-div-mul, mod-lt, one-le-pow}
use trdb.Bits.{bit_or_below, two_pow-add}
use trdb.Bits.Fields.{low_plus_high, cut, mod-mod_pow, field-agree}
use trdb.Serialize.{bytes_of}
use trdb.Serialize.Stitch.{byte_at}

eight_more : (m : ℕ) → 2 ^ (8 * suc m) ≡ 256 * 2 ^ (8 * m)
eight_more m = ap (λ (n : ℕ). 2 ^ n) (omega arith) ∙ two_pow-add 8 (8 * m)

shift_byte : (m x : ℕ) → x / 256 / 2 ^ (8 * m) ≡ x / 2 ^ (8 * suc m)
shift_byte m x = div-div-eq-div-mul x 256 (2 ^ (8 * m)) ∙ ap (λ (n : ℕ). x / n) (sym (eight_more m))

-- Bytes of a number, and then of what stands above them.
pub bytes_of-add : (m k x : ℕ) → bytes_of (m + k) x ≡ bytes_of m x ++ bytes_of k (x / 2 ^ (8 * m))
unfolding bytes_of
bytes_of-add zero k x =
    let size : 0 + k ≡ k = omega arith in
    let same : x ≡ x / 1 = omega arith in
    ap (λ (n : ℕ). bytes_of n x) size ∙ ap (λ (n : ℕ). bytes_of k n) same
bytes_of-add (suc m) k x =
    let size : suc m + k ≡ suc (m + k) = omega arith in
    ap (λ (n : ℕ). bytes_of n x) size
    ∙ ap (λ l. x % 256 ∷ l)
        (bytes_of-add m k (x / 256)
          ∙ ap (λ (n : ℕ). bytes_of m (x / 256) ++ bytes_of k n) (shift_byte m x))

-- The bytes of a number depend on its low bits.
pub bytes_of-low : (m x y : ℕ) → x % 2 ^ (8 * m) ≡ y % 2 ^ (8 * m) → bytes_of m x ≡ bytes_of m y
unfolding bytes_of
bytes_of-low zero x y e = refl
bytes_of-low (suc m) x y e =
    let first : x % 256 ≡ y % 256 =
      sym (mod-mod_pow 8 (8 * suc m) x (omega arith))
      ∙ ap (λ (n : ℕ). n % 256) e
      ∙ mod-mod_pow 8 (8 * suc m) y (omega arith) in
    ap (λ (n : ℕ). n ∷ bytes_of m (x / 256)) first
    ∙ ap (λ l. y % 256 ∷ l)
        (bytes_of-low m (x / 256) (y / 256) (field-agree 8 (8 * m) (8 * suc m) x y (omega arith) e))

pub byte_at-bytes_of :
    (k i x : ℕ) (rest : List ℕ) → i < k → byte_at (bytes_of k x ++ rest) i ≡ x / 2 ^ (8 * i) % 256
unfolding bytes_of
byte_at-bytes_of zero i x rest h = absurd (omega (arith, h))
byte_at-bytes_of (suc k) zero x rest h = omega arith
byte_at-bytes_of (suc k) (suc i) x rest h =
    byte_at-bytes_of k i (x / 256) rest (omega (arith, h))
    ∙ ap (λ (n : ℕ). n % 256) (shift_byte i x)

pub pow_lt : {m n x : ℕ} → m ≡ n → x < 2 ^ m → x < 2 ^ n
pow_lt {x = x} e h = subst (λ (k : ℕ). x < 2 ^ k) e h

-- The carry in the first byte.
pub set-carry :
    (k a v carry : ℕ) (rest : List ℕ)
    → a < 8
    → carry < 2 ^ a
    → v % 2 ^ a ≡ 0
    → set (bytes_of (suc k) v ++ rest) 0 (bit_or (byte_at (bytes_of (suc k) v ++ rest) 0) carry)
      ≡ bytes_of (suc k) (v + carry) ++ rest
unfolding bytes_of
set-carry k a v carry rest small low even =
    let whole : a + (8 - a) ≡ 8 = omega (arith, small) in
    let q : ℕ = v / 2 ^ a % 2 ^ (8 - a) in
    let high : v % 256 ≡ q * 2 ^ a =
      ap (λ (n : ℕ). v % 2 ^ n) (sym whole) ∙ cut a (8 - a) v ∙ omega (arith, even) in
    let top : carry + q * 2 ^ a < 256 = pow_lt whole (
      low_plus_high a (8 - a) carry q low
        (mod-lt (v / 2 ^ a) (one-le-pow (8 - a) 2 (omega arith)))) in
    let both : bit_or (v % 256) carry ≡ (v + carry) % 256 =
      ap (λ (n : ℕ). bit_or n carry) high ∙ bit_or_below a carry q low ∙ omega (arith, high, top) in
    ap (λ (n : ℕ). n ∷ (bytes_of k (v / 256) ++ rest)) both
    ∙ ap (λ (n : ℕ). (v + carry) % 256 ∷ (bytes_of k n ++ rest)) (omega (arith, high, top))
