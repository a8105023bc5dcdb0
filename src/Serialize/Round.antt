-- ===== src/Serialize/Round.antt =====
-- A round of the loop of trdb_write_packets of src/serialize.c: one more packet behind the others.
use trdb.Base.{
  ℕ, zero, suc, ◌+◌, ◌-◌, ◌*◌, ◌/◌, ◌%◌, ◌^◌, ◌<◌, ◌≤◌, ◌≡◌, ◌⊎◌, inl, inr, refl, sym, ap, ◌∙◌,
  false, ltb, ◌==◌, List, ◌∷◌, ◌++◌, length, take, drop, set, arith, bit_and, bit_or, take-all,
}
use mathlib.Core.Path.{subst}
use trdb.Errors.{value}
use trdb.Bits.{bit_and_low}
use trdb.Utils.{mask_from}
use trdb.Serialize.{bytes_of, bytes_for, shl128}
use trdb.Serialize.Bytes.{length-bytes_of}
use trdb.Serialize.Roundtrip.{bytes_for-bounds}
use trdb.Serialize.File.{Output, fwrite}
use trdb.Serialize.Joined.{set-carry, pow_lt}
use trdb.Serialize.Merge.{
  joined, word, carry_lt, joined_lt, shifted_even, bytes_of-joined, byte_at-word,
}
use trdb.Serialize.Stitch.{keep_bytes, Stitch, stitching, byte_at, stitch_bytes}

-- The loop when it has written m bytes of x, and has a more bits.
pub record IsStitched (m a x room : ℕ) (s : Stitch) : Type 0 where
  pub contents : s.output.contents ≡ bytes_of m x
  pub room_left : s.output.room + m ≡ room
  pub aligned : s.alignment ≡ a
  pub part : a < 8
  pub below : x < 2 ^ (8 * m + a)
  pub carried : s.carry ≡ x / 2 ^ (8 * m)
  pub last : byte_at s.bin s.good % 2 ^ a ≡ s.carry

pub fwrite-fits :
    (bin : List ℕ) (out : Output)
    → length bin ≤ out.room
    → fwrite bin out ≡ record {
      status = value 0;
      output = record { contents = out.contents ++ bin; room = out.room - length bin };
    }
unfolding fwrite
fwrite-fits bin out h =
    let enough : ltb out.room (length bin) ≡ false = ground arith in
    rw (enough, take-all bin out.room h) refl

take-bytes_of : (g k x : ℕ) (stale : List ℕ) → g ≤ k → take g (bytes_of k x ++ stale) ≡ bytes_of g x
unfolding bytes_of
take-bytes_of zero k x stale h = refl
take-bytes_of (suc g) zero x stale h = absurd (omega (arith, h))
take-bytes_of (suc g) (suc k) x stale h =
    ap (λ l. x % 256 ∷ l) (take-bytes_of g k (x / 256) stale (omega (arith, h)))

mask_from-low : (x r : ℕ) → r < 8 → bit_and x (mask_from r) ≡ x % 2 ^ r
unfolding mask_from
mask_from-low x r h =
    let other : (r == 64) ≡ false = ground arith in
    let mask : mask_from r ≡ 2 ^ r - 1 = rw (other, mask_from) refl in
    ap (λ (k : ℕ). bit_and x k) mask ∙ bit_and_low r x

-- The carry goes into the first byte of any bytes.
set-first :
    (k a v low : ℕ) (stale : List ℕ)
    → 1 ≤ k
    → a < 8
    → low < 2 ^ a
    → v % 2 ^ a ≡ 0
    → set (bytes_of k v ++ stale) 0 (bit_or (byte_at (bytes_of k v ++ stale) 0) low)
      ≡ bytes_of k (v + low) ++ stale
set-first zero a v low stale any small fits even = absurd (omega (arith, any))
set-first (suc k) a v low stale any small fits even = set-carry k a v low stale small fits even

stitch_bytes-next :
    (bitcnt : ℕ) (copied : List ℕ) (s : Stitch) (bin : List ℕ) (out : Output)
    → set
        (copied ++ drop (length copied) s.bin)
        0
        (bit_or (byte_at (copied ++ drop (length copied) s.bin) 0) s.carry)
      ≡ bin
    → fwrite (take ((bitcnt + s.alignment) / 8) bin) s.output
      ≡ record { status = value 0; output = out }
    → stitch_bytes bitcnt copied s
      ≡ stitching (record {
        bin = bin;
        alignment = (bitcnt + s.alignment) % 8;
        carry =
            bit_and
              (byte_at bin ((bitcnt + s.alignment) / 8))
              (mask_from ((bitcnt + s.alignment) % 8));
        good = (bitcnt + s.alignment) / 8;
        output = out;
      })
unfolding stitch_bytes keep_bytes
stitch_bytes-next bitcnt copied s bin out e h =
    ap (λ l. keep_bytes bitcnt l s) e
    ∙ rw (h, keep_bytes)
        (ap
          (λ r. stitching (record {
            bin = bin;
            alignment = (bitcnt + s.alignment) % 8;
            carry =
                bit_and (byte_at bin ((bitcnt + s.alignment) / 8))
                  (mask_from ((bitcnt + s.alignment) % 8));
            good = (bitcnt + s.alignment) / 8;
            output = r.output;
          }))
          h)

zero_or : (r : ℕ) → (r ≡ 0) ⊎ (0 < r)
zero_or zero = inl refl
zero_or (suc r) = inr (omega arith)

module _ (m a x room n w : ℕ) (s : Stitch) (h : IsStitched m a x room s) (large : 8 ≤ n)
    (small : n ≤ 120) (enough : m + (n + a) / 8 ≤ room) where
  abbrev pub g : ℕ
  g = (n + a) / 8

  abbrev pub r : ℕ
  r = (n + a) % 8

  abbrev pub size : ℕ
  size = bytes_for (n + a)

  abbrev pub whole : ℕ
  whole = word m a n w x h.part (omega (arith, h.part, small)) h.below

  abbrev pub stale : List ℕ
  stale = drop (length (bytes_of size (shl128 w a))) s.bin

  abbrev pub next_bin : List ℕ
  next_bin = bytes_of size whole ++ stale

  abbrev pub next_output : Output
  next_output = record {
    contents = s.output.contents ++ bytes_of g whole;
    room = s.output.room - g;
  }

  abbrev pub next_stitch : Stitch
  next_stitch = record {
    bin = next_bin;
    alignment = r;
    carry = bit_and (byte_at next_bin g) (mask_from r);
    good = g;
    output = next_output;
  }

  some_bytes : 1 ≤ size
  some_bytes = let (low, high) = bytes_for-bounds (n + a) in omega (arith, low, large)

  whole_bytes : g ≤ size
  whole_bytes = let (low, high) = bytes_for-bounds (n + a) in omega (arith, low)

  fwrite-whole :
      fwrite (take g next_bin) s.output ≡ record { status = value 0; output = next_output }
  fwrite-whole =
      let long : length (bytes_of g whole) ≡ g = length-bytes_of g whole in
      let room_left : s.output.room + m ≡ room = h.room_left in
      ap (λ l. fwrite l s.output) (take-bytes_of g size whole stale whole_bytes)
      ∙ fwrite-fits (bytes_of g whole) s.output (omega (arith, long, room_left, enough))
      ∙ ap
          (λ (k : ℕ). record {
            status = value 0;
            output = record {
              contents = s.output.contents ++ bytes_of g whole;
              room = s.output.room - k;
            };
          })
          long

  set-whole :
      set
        (bytes_of size (shl128 w a) ++ stale)
        0
        (bit_or (byte_at (bytes_of size (shl128 w a) ++ stale) 0) s.carry)
      ≡ next_bin
  set-whole =
      let low : s.carry < 2 ^ a =
        subst (λ (k : ℕ). k < 2 ^ a) (sym h.carried)
          (carry_lt m a n w x h.part (omega (arith, h.part, small)) h.below) in
      set-first size a (shl128 w a) s.carry stale some_bytes h.part low
        (shifted_even m a n w x h.part (omega (arith, h.part, small)) h.below)
      ∙ ap (λ (k : ℕ). bytes_of size (shl128 w a + k) ++ stale) h.carried

  pub stitch_bytes-stitching :
      stitch_bytes n (bytes_of (bytes_for (n + s.alignment)) (shl128 w s.alignment)) s
      ≡ stitching next_stitch
  stitch_bytes-stitching = rw h.aligned (
      stitch_bytes-next n (bytes_of size (shl128 w a)) (record s { alignment = a }) next_bin
        next_output set-whole fwrite-whole)

  pub next_stitch-IsStitched :
      IsStitched
        (m + g)
        r
        (joined m a n w x h.part (omega (arith, h.part, small)) h.below)
        room
        next_stitch
  next_stitch-IsStitched =
      let fits : a + n ≤ 128 = omega (arith, h.part, small) in
      let split : a + n ≡ 8 * g + r = omega arith in
      let rest : r < 8 = omega arith in
      let room_left : s.output.room + m ≡ room = h.room_left in
      let (low, high) = bytes_for-bounds (n + a) in
      let at : (r ≡ 0) ⊎ (g < size) = elim (zero_or r) [
        | inl e ↦ inl e
        | inr e ↦ inr (omega (arith, e, low))
      ] in
      let masked : bit_and (byte_at next_bin g) (mask_from r) ≡ byte_at next_bin g % 2 ^ r =
        mask_from-low (byte_at next_bin g) r rest in
      let more : 8 * m + a + n ≡ 8 * (m + g) + r = omega (arith, split) in
      record {
        contents =
            ap (λ l. l ++ bytes_of g whole) h.contents
            ∙ bytes_of-joined m a n w x h.part fits h.below g r split rest;
        room_left = omega (arith, room_left, enough);
        aligned = refl;
        part = rest;
        below = pow_lt more (joined_lt m a n w x h.part fits h.below);
        carried = masked ∙ byte_at-word m a n w x h.part fits h.below g r split rest size stale at;
        last = sym masked;
      }
