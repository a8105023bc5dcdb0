-- ===== src/Serialize/Size.antt =====
-- How many bytes a packet takes.
use trdb.Base.{ℕ, ◌+◌, ◌≤◌, ◌≡◌, ap, ◌∙◌, length, done, Returns, Returns-bind, ◌>>=◌, arith}
use trdb.Trace.{TrPacket, IsPacket}
use trdb.BranchLen.{branch_map_len_fits}
use trdb.Context.{Ctx}
use trdb.Serialize.{
  Packed, Serialized, serialized, rejected, bytes_for, kept_bits, announced_bytes, pack_branches,
  pack_address, pack_sync, pack_format, emit, shl128, trdb_pulp_serialize_packet,
}
use trdb.Serialize.Roundtrip.{bytes_for-bounds}
use trdb.Serialize.Bytes.{length-bytes_of}

-- Between 1 and 16 bytes, as many as the bits that are packed need.
abbrev pub IsSized : Serialized → Type 0
IsSized (serialized bitcnt bin) =
    (length bin ≡ bytes_for bitcnt) × (1 ≤ length bin) × (length bin ≤ 16)
IsSized (rejected e) = Unit {0}

emit-IsSized : (d : Packed) → 8 ≤ d.bitcnt → d.bitcnt ≤ 128 → IsSized (emit 0 d)
emit-IsSized d low high =
    let same : bytes_for (d.bitcnt + 0) ≡ bytes_for d.bitcnt =
      ap (λ n. bytes_for n) (omega arith) in
    let size = length-bytes_of (bytes_for (d.bitcnt + 0)) (shl128 d.bits 0) ∙ same in
    let (low_bytes, high_bytes) = bytes_for-bounds d.bitcnt in
    (size, omega (arith, size), omega (arith, size))

pack_branches-bitcnt :
    (c : Ctx) (p : TrPacket) (n bits : ℕ)
    → IsPacket p
    → bits ≤ 33
    → Returns (λ d. (8 ≤ d.bitcnt) × (d.bitcnt ≤ 128)) (pack_branches c p n bits)
unfolding pack_branches
pack_branches-bitcnt c p n bits h few = ground (arith, branch_map_len_fits p.branches)

branches-IsSized :
    (c : Ctx) (p : TrPacket) (n bits : ℕ)
    → IsPacket p
    → bits ≤ 33
    → Returns IsSized (do d ← pack_branches c p n bits; done (emit 0 d))
branches-IsSized c p n bits h few =
    Returns-bind (λ d. (8 ≤ d.bitcnt) × (d.bitcnt ≤ 128)) IsSized (pack_branches c p n bits) _
      (pack_branches-bitcnt c p n bits h few) λ d (low, high). emit-IsSized d low high

pack_address-IsSized : (c : Ctx) (p : TrPacket) (n : ℕ) → IsSized (emit 0 (pack_address c p n))
unfolding pack_address
pack_address-IsSized c p n = emit-IsSized (pack_address c p n) (ground arith) (ground arith)

pack_sync-IsSized : (p : TrPacket) (n : ℕ) → IsSized (emit 0 (pack_sync p n))
unfolding pack_sync
pack_sync-IsSized p n = emit-IsSized (pack_sync p n) (ground arith) (ground arith)

pack_format-IsSized :
    (c : Ctx) (p : TrPacket) (n : ℕ) → IsPacket p → Returns IsSized (pack_format c p n 0)
unfolding pack_format
pack_format-IsSized c p n h = ground (
  arith,
  branches-IsSized c p n (kept_bits p.address) h,
  branches-IsSized c p n 32 h,
  pack_address-IsSized c p n,
  pack_sync-IsSized p n,
)

pub trdb_pulp_serialize_packet-IsSized :
    (c : Ctx) (p : TrPacket) → IsPacket p → Returns IsSized (trdb_pulp_serialize_packet c p 0)
unfolding trdb_pulp_serialize_packet
trdb_pulp_serialize_packet-IsSized c p h =
    ground (arith, pack_format-IsSized c p (announced_bytes p) h)
