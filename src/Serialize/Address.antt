-- ===== src/Serialize/Address.antt =====
-- F_ADDR_ONLY packets: what is packed is read back.
use native.Mathlib.Nat.{div-div-eq-div-mul}
use trdb.Base.{
  ℕ, ◌+◌, ◌-◌, ◌*◌, ◌/◌, ◌%◌, ◌^◌, ◌<◌, ◌≤◌, ◌≡◌, refl, sym, ap, ◌∙◌, arith, Bool, true, false,
  Outcome, done, List, Bool-cases, inl, inr, if◌then◌else◌,
}
use trdb.Bits.{bit_and_low, bit_or_above}
use trdb.Bits.Fields.{field, mod-mod_pow, field-top}
use trdb.Errors.{value}
use trdb.Trace.{
  TrPacket, IsPacket, zero_packet, trace, addr_only, format_of, msg_type_of, format_value,
  msg_type_value,
}
use trdb.Context.{Ctx}
use trdb.Utils.{mask_from, sext32}
use trdb.Utils.Clz.{sign_extendable_bits_pos}
use trdb.Utils.Sext.{sext32-sign_extendable_bits}
use trdb.Serialize.{bytes_for, kept_bits, pack_address, trdb_pulp_serialize_packet, emit}
use trdb.Serialize.Roundtrip.{
  write_then_read, write_then_read_of, read_back, address_bits, bytes_for-bounds,
}
use trdb.Serialize.Payload.{IsPayload, opened}
use trdb.Serialize.Read.{ReadResult, read_payload, read_address}

address_word : ℕ → TrPacket → ℕ
address_word n p = n + 2 * 2 ^ 4 + 2 * 2 ^ 6 + p.address * 2 ^ 8

module _ (c : Ctx) (p : TrPacket) (fits : IsPacket p) (is_trace : p.msg_type ≡ trace)
    (is_addr : p.format ≡ addr_only) where
  packed_word : (n : ℕ) → n < 16 → (pack_address c p n).bits ≡ address_word n p
  unfolding pack_address address_word format_value msg_type_value
  packed_word n h = ground (
    arith,
    bit_or_above 4 n 2,
    bit_or_above 6 (n + 2 * 2 ^ 4) 2,
    bit_or_above 8 (n + 2 * 2 ^ 4 + 2 * 2 ^ 6) p.address,
  )

  serialize_address :
      (n k : ℕ)
      → (pack_address c p n).bitcnt ≡ 8 + k
      → p.length ≡ 2 + k
      → k ≤ 32
      → bytes_for k ≡ n
      → trdb_pulp_serialize_packet c p 0
        ≡ done (emit 0 (record { bitcnt = 8 + k; bits = address_word n p }))
  unfolding trdb_pulp_serialize_packet
  serialize_address n k e len small count = ground (arith, packed_word n)

  read_full :
      (s : ℕ)
      → c.config.full_address ≡ true
      → IsPayload 4 (address_word 4 p) s
      → read_payload c s (opened 4 (address_word 4 p))
        ≡ done (
          record zero_packet {
            length = 36;
            msg_type = trace;
            format = addr_only;
            address = p.address;
          },
          value 0,
        )
  unfolding read_payload read_address address_word format_of msg_type_of mask_from
  read_full s full h = ground (
    arith,
    h.fields 0 2 (omega arith),
    h.fields 2 2 (omega arith),
    h.fields 4 32 (omega arith),
    bit_and_low 2 (s / 2 ^ 2),
    bit_and_low 32 (s / 2 ^ 2 / 2 ^ 2),
  )

  -- The sign extension from the bytes that were written.
  sext_kept :
      (n s : ℕ)
      → bytes_for (kept_bits p.address) ≡ n
      → IsPayload n (address_word n p) s
      → sext32 (s / 2 ^ 2 / 2 ^ 2 % 2 ^ 32) (n * 8 + 4 - 2 - 2) ≡ done p.address
  unfolding address_word
  sext_kept n s count h =
      let some = sign_extendable_bits_pos p.address fits.address_fits in
      let bounds = bytes_for-bounds (kept_bits p.address) in
      let bits : n * 8 + 4 - 2 - 2 ≡ 8 * n = omega arith in
      let narrow : 8 * n ≤ 32 = omega arith in
      let low : field 4 (8 * n) s ≡ p.address % 2 ^ (8 * n) =
        h.fields 4 (8 * n) (omega arith)
        ∙ field-top 8 (8 * n) (n + 2 * 2 ^ 4 + 2 * 2 ^ 6) p.address (omega arith) in
      rw bits (
        sext32-sign_extendable_bits _ p.address (8 * n) (omega arith) fits.address_fits
          (omega arith) narrow
          (mod-mod_pow (8 * n) 32 (s / 2 ^ 2 / 2 ^ 2) narrow
            ∙ ap (λ (m : ℕ). m % 2 ^ (8 * n)) (div-div-eq-div-mul s (2 ^ 2) (2 ^ 2))
            ∙ low))

  read_kept :
      (n s : ℕ)
      → c.config.full_address ≡ false
      → bytes_for (kept_bits p.address) ≡ n
      → IsPayload n (address_word n p) s
      → read_payload c s (opened n (address_word n p))
        ≡ done (
          record zero_packet {
            length = n * 8 + 4;
            msg_type = trace;
            format = addr_only;
            address = p.address;
          },
          value 0,
        )
  unfolding read_payload read_address address_word format_of msg_type_of mask_from
  read_kept n s kept count h =
      let some = sign_extendable_bits_pos p.address fits.address_fits in
      ground (
        arith,
        bytes_for-bounds (kept_bits p.address),
        h.fields 0 2 (omega arith),
        h.fields 2 2 (omega arith),
        bit_and_low 2 (s / 2 ^ 2),
        sext_kept n s count h,
      )

  module _ (rest : List ℕ) (faulty : Bool) (packet : TrPacket) (bytes : ℕ) where
    write_then_read-full_address :
        c.config.full_address ≡ true
        → p.length ≡ 34
        → write_then_read c p rest faulty packet bytes
          ≡ done (
              read_back
                (record zero_packet {
                  length = 36;
                  msg_type = trace;
                  format = addr_only;
                  address = p.address;
                })
                4
                rest
                faulty)
    unfolding address_word pack_address
    write_then_read-full_address full len =
        write_then_read_of c p rest faulty packet bytes _ 4 32 (address_word 4 p) refl (omega arith)
          (omega arith) (serialize_address 4 32 (ground arith) len (omega arith) refl)
          λ s. read_full s full

    write_then_read-kept_address :
        (n : ℕ)
        → c.config.full_address ≡ false
        → bytes_for (kept_bits p.address) ≡ n
        → p.length ≡ 2 + kept_bits p.address
        → write_then_read c p rest faulty packet bytes
          ≡ done (
              read_back
                (record zero_packet {
                  length = n * 8 + 4;
                  msg_type = trace;
                  format = addr_only;
                  address = p.address;
                })
                n
                rest
                faulty)
    unfolding address_word pack_address
    write_then_read-kept_address n kept count len =
        let some = sign_extendable_bits_pos p.address fits.address_fits in
        let bounds = bytes_for-bounds (kept_bits p.address) in
        write_then_read_of c p rest faulty packet bytes _ n (kept_bits p.address) (address_word n p)
          count (omega arith) (omega arith)
          (serialize_address n (kept_bits p.address) (ground arith) len (omega arith) count)
          λ s. read_kept n s kept count

    -- An F_ADDR_ONLY packet, with the length that its absolute or compressed address takes, is
    -- written and read back with its whole 32-bit address, whatever follows it in the file.
    pub write_then_read-address :
        p.length ≡ 2 + address_bits c p
        → write_then_read c p rest faulty packet bytes
          ≡ done (
              read_back
                (record zero_packet {
                  length = bytes_for (address_bits c p) * 8 + 4;
                  msg_type = trace;
                  format = addr_only;
                  address = p.address;
                })
                (bytes_for (address_bits c p))
                rest
                faulty)
    write_then_read-address len = elim (Bool-cases c.config.full_address) [
      | inl full ↦
          let e : address_bits c p ≡ 32 = ap chosen full in
          write_then_read-full_address full (len ∙ ap (λ n. 2 + n) e) ∙ ap outcome (sym e)
      | inr kept ↦
          let e : address_bits c p ≡ kept_bits p.address = ap chosen kept in
          write_then_read-kept_address _ kept refl (len ∙ ap (λ n. 2 + n) e) ∙ ap outcome (sym e)
    ]
      where
        chosen : Bool → ℕ
        chosen full = if full then 32 else kept_bits p.address

        outcome : ℕ → Outcome ReadResult
        outcome bits = done (
            read_back
              (record zero_packet {
                length = bytes_for bits * 8 + 4;
                msg_type = trace;
                format = addr_only;
                address = p.address;
              })
              (bytes_for bits) rest faulty)
