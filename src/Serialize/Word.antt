-- ===== src/Serialize/Word.antt =====
-- The word of a packet of format F_BRANCH_FULL or F_BRANCH_DIFF, and its fields once it is read.
use native.Mathlib.Nat.{pow-le-pow_right, mod-eq_of_lt}
use trdb.Base.{
  ℕ, ◌+◌, ◌-◌, ◌*◌, ◌/◌, ◌%◌, ◌^◌, ◌<◌, ◌≤◌, ◌≡◌, ap, ◌∙◌, arith, bit_and, bit_or, false, done, ◌⊎◌,
}
use trdb.Bits.{bit_and_low, bit_or_above, two_pow-add}
use trdb.Bits.Fields.{field, mod-mod_pow, field-top, field-div, low_plus_high, low_of}
use trdb.Trace.{
  TrPacket, IsPacket, Format, trace, branch_full, branch_diff, format_value, msg_type_value,
}
use trdb.Context.{Ctx}
use trdb.BranchLen.{map_width, branch_map_len_fits}
use trdb.Utils.{mask_from, sext32}
use trdb.Utils.Clz.{sign_extendable_bits_pos, sign_extendable_bits-le}
use trdb.Utils.Sext.{sext32-sign_extendable_bits}
use trdb.Serialize.{
  bytes_for, kept_bits, pack_branches, trdb_pulp_serialize_packet, emit, header_bits, shl128,
}
use trdb.Serialize.Roundtrip.{bytes_for-bounds, address_bits}
use trdb.Serialize.Payload.{IsPayload}

-- The word up to the branch map, up to the address, and whole, for a map field of w bits.
counted_word : ℕ → TrPacket → ℕ
counted_word n p = n + 2 * 2 ^ 4 + format_value p.format * 2 ^ 6 + p.branches * 2 ^ 8

mapped_word : ℕ → TrPacket → ℕ
mapped_word n p = counted_word n p + p.branch_map * 2 ^ 13

pub branches_word : ℕ → ℕ → TrPacket → ℕ
branches_word n w p = mapped_word n p + p.address * 2 ^ (13 + w)

format_value-lt : (f : Format) → format_value f < 4
unfolding format_value
format_value-lt f = ground arith

module _ (p : TrPacket) (fits : IsPacket p) (n w : ℕ) (small : n < 16) (narrow : w ≤ 31)
    (map_fits : p.branch_map < 2 ^ w) where
  counted_word-lt : counted_word n p < 2 ^ 13
  unfolding counted_word
  counted_word-lt = omega (arith, format_value-lt p.format, fits.branches_fits)

  mapped_word-lt : mapped_word n p < 2 ^ (13 + w)
  unfolding mapped_word
  mapped_word-lt = low_plus_high 13 w (counted_word n p) p.branch_map counted_word-lt map_fits

  pub branches_word-lt : branches_word n w p < 2 ^ 128
  unfolding branches_word
  branches_word-lt = omega (
    arith,
    low_plus_high (13 + w) 32 (mapped_word n p) p.address mapped_word-lt fits.address_fits,
    pow-le-pow_right {n = 2} (omega arith) {i = 13 + w + 32} {j = 128} (omega arith),
  )

  packed_map :
      p.msg_type ≡ trace
      → bit_or
          (bit_or (header_bits p n) (p.branches * 2 ^ 8))
          (shl128 (bit_and p.branch_map (mask_from w)) 13)
        ≡ mapped_word n p
  unfolding mapped_word counted_word mask_from msg_type_value
  packed_map e =
      let whole : p.branch_map % 2 ^ w ≡ p.branch_map = mod-eq_of_lt map_fits in
      ground (
        arith,
        format_value-lt p.format,
        bit_and_low w p.branch_map,
        bit_or_above 4 n 2,
        bit_or_above 6 (n + 2 * 2 ^ 4) (format_value p.format),
        bit_or_above 8 (n + 2 * 2 ^ 4 + format_value p.format * 2 ^ 6) p.branches,
        bit_or_above 13 (n + 2 * 2 ^ 4 + format_value p.format * 2 ^ 6 + p.branches * 2 ^ 8)
            p.branch_map,
      )

  packed_address : bit_or (mapped_word n p) (shl128 p.address (13 + w)) ≡ branches_word n w p
  unfolding branches_word
  packed_address =
      let whole : shl128 p.address (13 + w) ≡ p.address * 2 ^ (13 + w) =
        mod-eq_of_lt (omega (arith, branches_word-lt)) in
      rw whole (bit_or_above (13 + w) (mapped_word n p) p.address mapped_word-lt)

module _ (c : Ctx) (p : TrPacket) (fits : IsPacket p) (is_trace : p.msg_type ≡ trace)
    (some : 0 < p.branches) (map_fits : p.branch_map < 2 ^ map_width p.branches) where
  pack_branches_lem :
      (n bits : ℕ)
      → n < 16
      → pack_branches c p n bits
        ≡ done (record {
          bitcnt = 13 + map_width p.branches + bits;
          bits = branches_word n (map_width p.branches) p;
        })
  unfolding pack_branches
  pack_branches_lem n bits small =
      let (len, _, narrow, _) =
        branch_map_len_fits p.branches (omega (arith, fits.branches_fits)) in
      ground (
        arith,
        len,
        packed_map p fits n (map_width p.branches) small narrow map_fits is_trace,
        packed_address p fits n (map_width p.branches) small narrow map_fits,
      )

  pub serialize_branches :
      (p.format ≡ branch_full) ⊎ (p.format ≡ branch_diff) × (c.config.full_address ≡ false)
      → p.length ≡ 2 + 5 + map_width p.branches + address_bits c p
      → trdb_pulp_serialize_packet c p 0
        ≡ done (
            emit 0 (record {
              bitcnt = 8 + (5 + map_width p.branches + address_bits c p);
              bits =
                  branches_word
                    (bytes_for (5 + map_width p.branches + address_bits c p))
                    (map_width p.branches)
                    p;
            }))
  unfolding trdb_pulp_serialize_packet
  serialize_branches format len =
      let lead = sign_extendable_bits_pos p.address fits.address_fits in
      let (_, _, narrow, _) = branch_map_len_fits p.branches (omega (arith, fits.branches_fits)) in
      ground (
        arith,
        pack_branches_lem (bytes_for (5 + map_width p.branches + address_bits c p))
            (kept_bits p.address),
        pack_branches_lem (bytes_for (5 + map_width p.branches + address_bits c p)) 32,
      )

-- The fields of the word.
module _ (p : TrPacket) (fits : IsPacket p) (n w : ℕ) (small : n < 16) (narrow : w ≤ 31)
    (map_fits : p.branch_map < 2 ^ w) where
  word_split : branches_word n w p ≡ counted_word n p + (p.branch_map + p.address * 2 ^ w) * 2 ^ 13
  unfolding branches_word mapped_word
  word_split = omega (arith, ap (λ (t : ℕ). p.address * t) (two_pow-add 13 w))

  pub word_low :
      (branches_word n w p % 16 ≡ n)
      × (field 4 2 (branches_word n w p) ≡ 2)
      × (field 6 2 (branches_word n w p) ≡ format_value p.format)
      × (field 8 5 (branches_word n w p) ≡ p.branches)
  unfolding counted_word
  word_low =
      let split = word_split in
      let format = format_value-lt p.format in
      (
        omega (arith, fits.branches_fits),
        omega (arith, fits.branches_fits),
        omega (arith, fits.branches_fits),
        omega (arith, fits.branches_fits),
      )

  word_map : field 13 w (branches_word n w p) ≡ p.branch_map
  word_map =
      ap (field 13 w) word_split
      ∙ field-top 13 w (counted_word n p) (p.branch_map + p.address * 2 ^ w)
          (counted_word-lt p fits n w small narrow map_fits)
      ∙ low_of w p.branch_map p.address map_fits

  word_address : (b : ℕ) → field (13 + w) b (branches_word n w p) ≡ p.address % 2 ^ b
  unfolding branches_word
  word_address b =
      field-top (13 + w) b (mapped_word n p) p.address
        (mapped_word-lt p fits n w small narrow map_fits)

  -- The fields of the payload, past the message type and the format.
  module _ (s : ℕ) (h : IsPayload n (branches_word n w p) s) where
    past_count : (b : ℕ) → s / 2 ^ 2 / 2 ^ 2 / 2 ^ 5 / 2 ^ w % 2 ^ b ≡ field (9 + w) b s
    past_count b = ap (λ (t : ℕ). t / 2 ^ w % 2 ^ b) (omega arith) ∙ field-div w b 9 s

    pub read_map : 5 + w ≤ 8 * n → s / 2 ^ 2 / 2 ^ 2 / 2 ^ 5 % 2 ^ w ≡ p.branch_map
    read_map fit = ap (λ (t : ℕ). t % 2 ^ w) (omega arith) ∙ h.fields 9 w (omega arith) ∙ word_map

    read_low :
        (b : ℕ) → 5 + w + b ≤ 8 * n → s / 2 ^ 2 / 2 ^ 2 / 2 ^ 5 / 2 ^ w % 2 ^ b ≡ p.address % 2 ^ b
    read_low b fit =
        past_count b
        ∙ h.fields (9 + w) b (omega arith)
        ∙ ap (λ (a : ℕ). field a b (branches_word n w p)) (omega arith)
        ∙ word_address b

    pub read_counts :
        5 + w ≤ 8 * n
        → (bit_and (s / 2 ^ 2) (mask_from 2) ≡ format_value p.format)
          × (bit_and (s / 2 ^ 2 / 2 ^ 2) (mask_from 5) ≡ p.branches)
    unfolding mask_from
    read_counts fit =
        let (_, _, format, branches) = word_low in
        let f = h.fields 2 2 (omega arith) in
        let b = h.fields 4 5 (omega arith) in
        (omega (arith, bit_and_low 2 (s / 2 ^ 2)), omega (arith, bit_and_low 5 (s / 2 ^ 2 / 2 ^ 2)))

    -- The address, whole or extended from the bits that were written.
    pub read_whole :
        5 + w + 32 ≤ 8 * n → bit_and (s / 2 ^ 2 / 2 ^ 2 / 2 ^ 5 / 2 ^ w) (mask_from 32) ≡ p.address
    unfolding mask_from
    read_whole fit =
        bit_and_low 32 (s / 2 ^ 2 / 2 ^ 2 / 2 ^ 5 / 2 ^ w)
        ∙ read_low 32 fit
        ∙ mod-eq_of_lt fits.address_fits

    pub read_extended :
        n ≡ bytes_for (5 + w + kept_bits p.address)
        → 8 * n ≤ 37 + w
        → sext32
            (bit_and (s / 2 ^ 2 / 2 ^ 2 / 2 ^ 5 / 2 ^ w) (mask_from 32))
            ((n * 8 + 4 + 2 ^ 32 - (2 + 2 + 5 + w)) % 2 ^ 32)
          ≡ done p.address
    unfolding mask_from
    read_extended count within =
        let (over, _) = bytes_for-bounds (5 + w + kept_bits p.address) in
        let j = 8 * n - (5 + w) in
        let bits : (n * 8 + 4 + 2 ^ 32 - (2 + 2 + 5 + w)) % 2 ^ 32 ≡ j = omega arith in
        let whole = bit_and_low 32 (s / 2 ^ 2 / 2 ^ 2 / 2 ^ 5 / 2 ^ w) in
        rw (bits, whole)
          (sext32-sign_extendable_bits (s / 2 ^ 2 / 2 ^ 2 / 2 ^ 5 / 2 ^ w % 2 ^ 32) p.address j
            (omega arith) fits.address_fits (omega (arith, sign_extendable_bits-le p.address))
            (omega arith)
            (mod-mod_pow j 32 (s / 2 ^ 2 / 2 ^ 2 / 2 ^ 5 / 2 ^ w) (omega arith)
              ∙ read_low j (omega arith)))
