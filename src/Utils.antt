-- ===== src/Utils.antt =====
-- src/utils.c and the macros of internal/utils.h: masks, leading zeros and sign extension. Words
-- are native numbers below 2 ^ 32, 2 ^ 64 or 2 ^ 128, and wrapping is written out.
pub mod Clz
pub mod Sext
use trdb.Base.{
  ℕ, zero, suc, ◌+◌, ◌-◌, ◌/◌, ◌%◌, ◌^◌, Bool, ◌||◌, ◌&&◌, not, if◌then◌else◌, ltb, ◌==◌, bit_and,
  bit_xor, Outcome, done, undefined, ◌>>=◌, ◌>>◌, defined_if,
}

-- MASK_FROM
unfoldable pub mask_from : ℕ → ℕ
mask_from len = if len == 64 then 2 ^ 64 - 1 else 2 ^ len - 1

-- The zeros above the highest one of a word of w bits: `__builtin_clz` at w = 32 and
-- `__builtin_clzll` at w = 64, which the compiler defines at words other than 0.
unfoldable pub clz : ℕ → ℕ → ℕ
clz zero x = 0
clz (suc w) x = if ltb x (2 ^ w) then suc (clz w x) else 0

unfoldable pub sign_extendable_bits : ℕ → ℕ
sign_extendable_bits addr =
    let zeros = clz 32 addr in
    let ones = clz 32 (2 ^ 32 - 1 - addr) in
    if addr == 0 || addr == 2 ^ 32 - 1 then 32 else if ltb ones zeros then zeros else ones

unfoldable pub sign_extendable_bits64 : ℕ → ℕ
sign_extendable_bits64 addr =
    let zeros = clz 64 addr in
    let ones = clz 64 (2 ^ 64 - 1 - addr) in
    if addr == 0 || addr == 2 ^ 64 - 1 then 64 else if ltb ones zeros then zeros else ones

-- trdb_sign_extendable_bits, without TRDB_ARCH64
abbrev pub trdb_sign_extendable_bits : ℕ → ℕ
trdb_sign_extendable_bits addr = sign_extendable_bits addr

-- A shift of a 32-bit word by more than 31 places is undefined.
unfoldable pub sext32 : ℕ → ℕ → Outcome ℕ
sext32 val bit =
    let m = 2 ^ (bit - 1) in
    let low = bit_and val (2 ^ bit - 1) in
    if bit == 0
    then done 0
    else if bit == 32
    then done val
    else do defined_if (ltb bit 32); done ((bit_xor low m + 2 ^ 32 - m) % 2 ^ 32)

-- The same at 128 bits.
unfoldable pub sext128 : ℕ → ℕ → Outcome ℕ
sext128 val bit =
    let m = 2 ^ (bit - 1) in
    let low = bit_and val (2 ^ bit - 1) in
    if bit == 0
    then done 0
    else if bit == 128
    then done val
    else do defined_if (ltb bit 128); done ((bit_xor low m + 2 ^ 128 - m) % 2 ^ 128)

-- clz_u128. `builtin` is `__builtin_clzll`, whose result at 0 the compiler leaves open; the array
-- `retval` is read at `idx`.
unfoldable pub clz_u128 : (ℕ → ℕ) → ℕ → ℕ
clz_u128 builtin u =
    let hi = u / 2 ^ 64 in
    let lo = u % 2 ^ 64 in
    if not (hi == 0) then builtin hi else if not (lo == 0) then builtin lo + 64 else 128

unfoldable pub sign_extendable_bits128 : (ℕ → ℕ) → ℕ → ℕ
sign_extendable_bits128 builtin addr =
    let zeros = clz_u128 builtin addr in
    let ones = clz_u128 builtin (2 ^ 128 - 1 - addr) in if ltb ones zeros then zeros else ones
