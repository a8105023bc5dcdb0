-- ===== src/Serialize/Pieces.antt =====
-- Every packet that trdb_pulp_serialize_packet of src/serialize.c takes is a piece of bits, the same
-- at every alignment.
use trdb.Base.{
  ℕ, ◌+◌, ◌*◌, ◌%◌, ◌^◌, length, some, ◌<◌, ◌≤◌, ◌≡◌, refl, ap, ◌∙◌, Bool, true, false, leb,
  if◌then◌else◌, List, [], ◌∷◌, arith, Outcome, done, ◌>>=◌, Returns, Returns-value, Every,
  and_rest,
}
use trdb.Errors.{ErrorCode, trdb_bad_packet, trdb_bad_config}
use trdb.Trace.{TrPacket, IsPacket, Format, branch_full, branch_diff, addr_only, sync}
use trdb.BranchLen.{branch_map_len_fits}
use trdb.Context.{Ctx, trdb_is_full_address}
use trdb.Serialize.{
  Packed, Serialized, serialized, rejected, kept_bits, announced_bytes, pack_branches, pack_address,
  pack_sync, pack_format, emit, trdb_pulp_serialize_packet,
}
use trdb.Serialize.Stitching.{IsPiece, Bits, no_bits, more_bits, IsBits, trdb_write_packets-IsBits}
use trdb.Serialize.Stitch.{trdb_write_packets}

-- A packet is a piece, or is rejected at every alignment.
pub data Stitchable (c : Ctx) (p : TrPacket) : Type 0 where
  piece : (n w : ℕ) → IsPiece c p n w → Stitchable c p
  refused :
      (e : ErrorCode)
      → ((align : ℕ) → align < 8 → trdb_pulp_serialize_packet c p align ≡ done (rejected e))
      → Stitchable c p

abbrev IsShort : Packed → Type 0
IsShort d = (8 ≤ d.bitcnt) × (d.bitcnt ≤ 120)

module _ (c : Ctx) (p : TrPacket) (h : IsPacket p) where
  pack_branches-IsShort : (n bits : ℕ) → bits ≤ 33 → Returns IsShort (pack_branches c p n bits)
  unfolding pack_branches
  pack_branches-IsShort n bits few = ground (arith, branch_map_len_fits p.branches)

  module _ (short : leb 16 (announced_bytes p) ≡ false) where
    serialize-format :
        (align : ℕ)
        → align < 8
        → trdb_pulp_serialize_packet c p align ≡ pack_format c p (announced_bytes p) align
    unfolding trdb_pulp_serialize_packet
    serialize-format align small =
        let fits : leb 8 align ≡ false = ground arith in
        rw (fits, short, trdb_pulp_serialize_packet) refl

    packed-Stitchable :
        (d : Packed)
        → IsShort d
        → ((align : ℕ) → pack_format c p (announced_bytes p) align ≡ done (emit align d))
        → Stitchable c p
    packed-Stitchable d (large, small) e = piece d.bitcnt d.bits (record {
      large = large;
      small = small;
      written = λ align fits. serialize-format align fits ∙ e align;
    })

    branches-Stitchable :
        (bits : ℕ)
        → bits ≤ 33
        → ((align : ℕ)
            → pack_format c p (announced_bytes p) align
              ≡ (do d ← pack_branches c p (announced_bytes p) bits; done (emit align d)))
        → Stitchable c p
    branches-Stitchable bits few e =
        let (d, packed, short) =
          Returns-value IsShort (pack_branches c p (announced_bytes p) bits)
            (pack_branches-IsShort (announced_bytes p) bits few) in
        packed-Stitchable d short
          (λ align. e align ∙ ap (λ o. o >>= (λ x. done (emit align x))) packed)

    kept_few : kept_bits p.address ≤ 33
    kept_few = omega arith

    -- The switch of the code on a format.
    abbrev of_format : ℕ → Format → Outcome Serialized
    of_format align format = elim format [
      | branch_full ↦ do
        d ←
            pack_branches c p (announced_bytes p)
              (if trdb_is_full_address c then 32 else kept_bits p.address)
        done (emit align d)
      | branch_diff ↦ if trdb_is_full_address c then done (rejected trdb_bad_config) else do
        d ← pack_branches c p (announced_bytes p) (kept_bits p.address)
        done (emit align d)
      | addr_only ↦ done (emit align (pack_address c p (announced_bytes p)))
      | sync ↦ done (emit align (pack_sync p (announced_bytes p)))
    ]

    pack_format-of_format :
        (align : ℕ) → pack_format c p (announced_bytes p) align ≡ of_format align p.format
    unfolding pack_format
    pack_format-of_format align = refl

    in_format :
        (format : Format)
        → p.format ≡ format
        → (align : ℕ) → pack_format c p (announced_bytes p) align ≡ of_format align format
    in_format format e align = pack_format-of_format align ∙ ap (of_format align) e

    address-IsShort : IsShort (pack_address c p (announced_bytes p))
    unfolding pack_address
    address-IsShort = (ground arith, ground arith)

    sync-IsShort : IsShort (pack_sync p (announced_bytes p))
    unfolding pack_sync
    sync-IsShort = (ground arith, ground arith)

    abbrev of_mode : ℕ → Bool → Outcome Serialized
    of_mode align b =
        if b
        then done (rejected trdb_bad_config)
        else do d ← pack_branches c p (announced_bytes p) (kept_bits p.address); done (emit align d)

    format-Stitchable : (format : Format) → p.format ≡ format → Stitchable c p
    format-Stitchable addr_only e =
        packed-Stitchable (pack_address c p (announced_bytes p)) address-IsShort
          (in_format addr_only e)
    format-Stitchable sync e =
        packed-Stitchable (pack_sync p (announced_bytes p)) sync-IsShort (in_format sync e)
    format-Stitchable branch_full e =
        branches-Stitchable (if trdb_is_full_address c then 32 else kept_bits p.address)
          (ground (arith, kept_few)) (in_format branch_full e)
    format-Stitchable branch_diff e = by_mode (trdb_is_full_address c) refl
      where
        by_mode : (b : Bool) → trdb_is_full_address c ≡ b → Stitchable c p
        by_mode true k = refused trdb_bad_config (λ align fits.
            serialize-format align fits ∙ in_format branch_diff e align ∙ ap (of_mode align) k)
        by_mode false k =
            branches-Stitchable (kept_bits p.address) kept_few
              (λ align. in_format branch_diff e align ∙ ap (of_mode align) k)

  pub trdb_pulp_serialize_packet-Stitchable : Stitchable c p
  unfolding trdb_pulp_serialize_packet
  trdb_pulp_serialize_packet-Stitchable = by_size (leb 16 (announced_bytes p)) refl
    where
      by_size : (b : Bool) → leb 16 (announced_bytes p) ≡ b → Stitchable c p
      by_size true k = refused trdb_bad_packet (λ align fits.
          let small : leb 8 align ≡ false = ground arith in
          rw (small, k, trdb_pulp_serialize_packet) refl)
      by_size false k = format-Stitchable k p.format refl

-- The packet is serialised, not rejected.
pub record IsTaken (c : Ctx) (p : TrPacket) : Type 0 where
  pub bitcnt : ℕ
  pub bin : List ℕ
  pub taken : trdb_pulp_serialize_packet c p 0 ≡ done (serialized bitcnt bin)

-- The bits of packets: how many there are, and the number that they make up.
pub record Line (c : Ctx) (ps : List TrPacket) : Type 0 where
  pub size : ℕ
  pub number : ℕ
  pub bits : Bits c ps size number
  pub most : size ≤ 120 * length ps

one_more :
    (c : Ctx) (p : TrPacket) (ps : List TrPacket)
    → Stitchable c p
    → IsTaken c p
    → Line c ps
    → Line c (p ∷ ps)
one_more c p ps (piece n w one) taken rest =
    let most : rest.size ≤ 120 * length ps = rest.most in
    let small : n ≤ 120 = one.small in
    record {
      size = rest.size + n;
      number = rest.number + w % 2 ^ n * 2 ^ rest.size;
      bits = more_bits rest.bits one;
      most = omega (arith, most, small);
    }
one_more c p ps (refused e never) taken rest =
    absurd (grind (arith, never 0 (omega arith), taken.taken))

pub all-Line : (c : Ctx) (ps : List TrPacket) → Every IsPacket ps → Every (IsTaken c) ps → Line c ps
all-Line c [] fit taken = record { size = 0; number = 0; bits = no_bits; most = omega arith }
all-Line c (p ∷ ps) (and_rest h fit) (and_rest k taken) =
    one_more c p ps (trdb_pulp_serialize_packet-Stitchable c p h) k (all-Line c ps fit taken)

-- When the fields of all packets of a list fit, none is rejected by the serialisation, and the
-- device takes 15 bytes for each packet and one more, trdb_write_packets returns 0, and the file
-- holds the bits of the packets one behind the other, the last packet of the list first: its
-- bytes are the whole bytes of the number that these bits make up, lowest first, and one more
-- byte, whose low bits are the bits that remain.
pub trdb_write_packets-Line :
    (c : Ctx) (width room : ℕ) (ps : List TrPacket)
    → Every IsPacket ps
    → Every (IsTaken c) ps
    → 15 * length ps < room
    → (line : Line c ps) × Returns
        (IsBits line.size line.number)
        (trdb_write_packets width c (some room) ps)
trdb_write_packets-Line c width room ps fit taken enough =
    let line = all-Line c ps fit taken in
    let most : line.size ≤ 120 * length ps = line.most in
    (
      line,
      trdb_write_packets-IsBits c width room ps line.size line.number line.bits
          (omega (arith, most, enough)),
    )
