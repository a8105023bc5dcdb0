-- ===== src/Serialize/Branches.antt =====
-- F_BRANCH_FULL and F_BRANCH_DIFF packets: what is packed is read back.
use trdb.Base.{
  ℕ, ◌+◌, ◌-◌, ◌*◌, ◌/◌, ◌%◌, ◌^◌, ◌<◌, ◌≤◌, ◌≡◌, refl, sym, ap, ◌∙◌, arith, bit_and, Bool, true,
  false, Outcome, done, assert_failed, undefined, ◌>>=◌, List, ◌⊎◌, if◌then◌else◌,
}
use trdb.Bits.{bit_and_low}
use trdb.Errors.{Status, value}
use trdb.Trace.{
  TrPacket, IsPacket, zero_packet, trace, branch_full, branch_diff, format_of, msg_type_of,
  format_value,
}
use trdb.Context.{Ctx}
use trdb.BranchLen.{map_width, branch_map_len_fits}
use trdb.Utils.{mask_from, sext32}
use trdb.Utils.Clz.{sign_extendable_bits_pos}
use trdb.Serialize.{bytes_for, emit}
use trdb.Serialize.Roundtrip.{
  write_then_read, write_then_read_outcome, read_back, bytes_for-bounds, address_bits,
}
use trdb.Serialize.Payload.{IsPayload, opened}
use trdb.Serialize.Read.{read_payload, read_branches}
-- The word up to the branch map, up to the address, and whole, for a map field of w bits.
use trdb.Serialize.Word.{
  branches_word, branches_word-lt, serialize_branches, word_low, read_map, read_counts, read_whole,
  read_extended,
}

-- The packet that is read.
abbrev pub received_branches : TrPacket → ℕ → TrPacket
received_branches p n = record zero_packet {
  length = n * 8 + 4;
  msg_type = trace;
  format = p.format;
  branches = p.branches;
  branch_map = p.branch_map;
  address = p.address;
}

-- What the payload s says of the address.
abbrev address_read : Ctx → ℕ → ℕ → ℕ → Outcome ℕ
address_read c n w s =
    if c.config.full_address
    then done (bit_and (s / 2 ^ 2 / 2 ^ 2 / 2 ^ 5 / 2 ^ w) (mask_from 32))
    else sext32 (bit_and (s / 2 ^ 2 / 2 ^ 2 / 2 ^ 5 / 2 ^ w) (mask_from 32))
        ((n * 8 + 4 + 2 ^ 32 - (2 + 2 + 5 + w)) % 2 ^ 32)

module _ (c : Ctx) (p : TrPacket) (fits : IsPacket p) (is_trace : p.msg_type ≡ trace)
    (some : 0 < p.branches) (map_fits : p.branch_map < 2 ^ map_width p.branches)
    (format : (p.format ≡ branch_full)
      ⊎ (p.format ≡ branch_diff) × (c.config.full_address ≡ false)) where
  -- The payload after the message type and the format.
  read_branches-read_payload :
      (n w s : ℕ) (outcome : Outcome ℕ)
      → n < 16
      → w ≡ map_width p.branches
      → 5 + w ≤ 8 * n
      → IsPayload n (branches_word n w p) s
      → address_read c n w s ≡ outcome
      → read_payload c s (opened n (branches_word n w p)) ≡ (do
        address ← outcome
        done (record (received_branches p n) { address = address }, value 0))
  unfolding read_payload read_branches format_of msg_type_of format_value mask_from
  read_branches-read_payload n w s outcome small e fit h address =
      let (len, _, narrow, _) =
        branch_map_len_fits p.branches (omega (arith, fits.branches_fits)) in
      let short : w ≤ 31 = omega arith in
      let holds : p.branch_map < 2 ^ w = rw e map_fits in
      let (_, kind, _, _) = word_low p fits n w small short holds in
      let (tag, count) = read_counts p fits n w small short holds s h fit in
      let bits = read_map p fits n w small short holds s h fit in
      ground (arith, bit_and_low w (s / 2 ^ 2 / 2 ^ 2 / 2 ^ 5))

  module _ (len : p.length ≡ 2 + 5 + map_width p.branches + address_bits c p) (rest : List ℕ)
      (faulty : Bool) (packet : TrPacket) (bytes : ℕ) where
    sized :
        (n : ℕ)
        → n ≡ bytes_for (5 + map_width p.branches + address_bits c p)
        → (n < 16)
          × (map_width p.branches ≤ 31)
          × (5 + map_width p.branches + address_bits c p ≤ 8 * n)
    sized n e =
        let (_, _, narrow, _) =
          branch_map_len_fits p.branches (omega (arith, fits.branches_fits)) in
        let lead = sign_extendable_bits_pos p.address fits.address_fits in
        let cap : address_bits c p ≤ 32 = ground arith in
        let (over, under) = bytes_for-bounds (5 + map_width p.branches + address_bits c p) in
        (omega arith, narrow, omega arith)

    -- What is left to show: the address that is read.
    read_address_back :
        (outcome : Outcome ℕ) (n : ℕ)
        → n ≡ bytes_for (5 + map_width p.branches + address_bits c p)
        → ((s : ℕ)
            → IsPayload n (branches_word n (map_width p.branches) p) s
            → address_read c n (map_width p.branches) s ≡ outcome)
        → write_then_read c p rest faulty packet bytes ≡ (do
          q ← (do address ← outcome; done (record (received_branches p n) { address = address }))
          done (read_back q n rest faulty))
    read_address_back outcome n e address =
        let w = map_width p.branches in
        let (small, narrow, over) = sized n e in
        let (header, _, _, _) = word_low p fits n w small narrow map_fits in
        write_then_read_outcome c p rest faulty packet bytes
          (do address ← outcome; done (record (received_branches p n) { address = address })) n
          (5 + w + address_bits c p) (branches_word n w p) (sym e)
          (branches_word-lt p fits n w small narrow map_fits) header
          (serialize_branches c p fits is_trace some map_fits format len
            ∙ ap
                (λ m. done (
                  emit 0 (record {
                    bitcnt = 8 + (5 + w + address_bits c p);
                    bits = branches_word m w p;
                  })))
                (sym e))
          λ s h.
            read_branches-read_payload n w s outcome small refl (omega arith) h (address s h)
            ∙ regrouped outcome
      where
        regrouped :
            (o : Outcome ℕ)
            → (do
              address ← o
              let r : TrPacket × Status =
                  (record (received_branches p n) { address = address }, value 0)
              done r)
              ≡ (do
                q ← (do address ← o; done (record (received_branches p n) { address = address }))
                done (q, value 0))
        regrouped (done a) = refl
        regrouped assert_failed = refl
        regrouped undefined = refl

    -- A trace packet of format F_BRANCH_FULL, or F_BRANCH_DIFF with compressed addresses, with 1
    -- to 31 branches, a map that fits its field and the length that its fields take, is written
    -- and read back with its format, its count, its map and its whole 32-bit address, whatever
    -- follows it in the file, when addresses are absolute, or when they are compressed and the
    -- bytes that are written leave the address 32 bits at most.
    pub write_then_read-branches :
        (n : ℕ)
        → n ≡ bytes_for (5 + map_width p.branches + address_bits c p)
        → (c.config.full_address ≡ true)
          ⊎ (c.config.full_address ≡ false) × (8 * n ≤ 37 + map_width p.branches)
        → write_then_read c p rest faulty packet bytes
          ≡ done (read_back (received_branches p n) n rest faulty)
    write_then_read-branches n e within =
        let w = map_width p.branches in
        let (small, narrow, over) = sized n e in
        read_address_back (done p.address) n e λ s h. ground (
          arith,
          read_whole p fits n w small narrow map_fits s h,
          read_extended p fits n w small narrow map_fits s h,
        )

    -- A packet as in write_then_read-branches, with compressed addresses, whose written bytes
    -- leave the address more than 32 bits, is written, and reading it shifts by more than the
    -- width of its 32-bit word, which is undefined.
    pub write_then_read-wide :
        (n : ℕ)
        → n ≡ bytes_for (5 + map_width p.branches + address_bits c p)
        → c.config.full_address ≡ false
        → 37 + map_width p.branches < 8 * n
        → write_then_read c p rest faulty packet bytes ≡ undefined
    unfolding sext32
    write_then_read-wide n e kept wide =
        let (small, narrow, over) = sized n e in read_address_back undefined n e λ s h. ground arith
