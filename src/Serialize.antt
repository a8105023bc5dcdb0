-- ===== src/Serialize.antt =====
-- The PULP packet format of src/serialize.c: a packet is packed into a 128-bit word, lowest field
-- first, and written as little-endian bytes.
pub mod Read
pub mod Bytes
pub mod Payload
pub mod Roundtrip
pub mod Sync
pub mod Address
pub mod Word
pub mod Branches
pub mod FullMap
pub mod File
pub mod Stitch
pub mod Joined
pub mod Merge
pub mod Round
pub mod Stitching
pub mod Pieces
pub mod Stream
pub mod Size
pub mod Ended
use trdb.Base.{
  ℕ, zero, suc, ◌+◌, ◌-◌, ◌*◌, ◌/◌, ◌%◌, ◌^◌, ◌<◌, Bool, true, false, not, if◌then◌else◌, ltb, leb,
  ◌==◌, bit_and, bit_or, List, [], ◌∷◌, Outcome, done, ◌>>=◌, ◌>>◌,
}
use trdb.Errors.{ErrorCode, trdb_invalid, trdb_bad_packet, trdb_bad_config}
use trdb.Trace.{
  TrPacket, branch_full, branch_diff, addr_only, sync, start, exception, context, reserved,
  format_value, subformat_value, msg_type_value, bit_value,
}
use trdb.Utils.{mask_from, sign_extendable_bits, trdb_sign_extendable_bits}
use trdb.BranchLen.{branch_map_len}
use trdb.Context.{Ctx, trdb_is_full_address, trdb_get_compress_branch_map}

-- The bytes of `data.bin`, up to n of them.
unfoldable pub bytes_of : ℕ → ℕ → List ℕ
bytes_of zero bits = []
bytes_of (suc n) bits = bits % 256 ∷ bytes_of n (bits / 256)

-- `x << k` on __uint128_t
abbrev pub shl128 : ℕ → ℕ → ℕ
shl128 x k = x * 2 ^ k % 2 ^ 128

-- n / 8 + (n % 8 != 0)
abbrev pub bytes_for : ℕ → ℕ
bytes_for n = n / 8 + (if n % 8 == 0 then 0 else 1)

-- The number of bytes that the header announces.
unfoldable pub announced_bytes : TrPacket → ℕ
announced_bytes p = bytes_for ((p.length + 2 ^ 32 - 2) % 2 ^ 32)

-- `byte_len | msg_type << PULPPKTLEN | format << (PULPPKTLEN + MSGTYPELEN)`
abbrev pub header_bits : TrPacket → ℕ → ℕ
header_bits p byte_len =
    bit_or (bit_or byte_len (msg_type_value p.msg_type * 2 ^ 4)) (format_value p.format * 2 ^ 6)

-- How many bits an address takes that drops all but one of its sign-extendable bits.
abbrev pub kept_bits : ℕ → ℕ
kept_bits address = 32 - trdb_sign_extendable_bits address + 1

-- What is packed so far: the number of bits, and the word.
pub record Packed : Type 0 where
  pub bitcnt : ℕ
  pub bits : ℕ

-- The cases F_BRANCH_FULL and F_BRANCH_DIFF, which differ in the bits given to the address.
unfoldable pub pack_branches : Ctx → TrPacket → ℕ → ℕ → Outcome Packed
unfolding mask_from
pack_branches c p byte_len address_bits = do
  len ← branch_map_len p.branches
  let head = bit_or (header_bits p byte_len) (p.branches * 2 ^ 8)
  let mapped = bit_or head (shl128 (bit_and p.branch_map (mask_from len)) 13)
  let sext = trdb_sign_extendable_bits (p.branch_map * 2 % 2 ^ 32)
  let capped = if ltb 31 sext then 31 else sext
  done (
      if ltb 0 p.branches
      then record {
        bitcnt = 13 + len + address_bits;
        bits = bit_or mapped (shl128 p.address (13 + len));
      }
      else if trdb_get_compress_branch_map c
      then record { bitcnt = 13 + len - len + (31 - capped + 1); bits = mapped }
      else record { bitcnt = 13 + len; bits = mapped })

-- The case F_ADDR_ONLY.
unfoldable pub pack_address : Ctx → TrPacket → ℕ → Packed
pack_address c p byte_len = record {
  bitcnt = 8 + (if trdb_is_full_address c then 32 else kept_bits p.address);
  bits = bit_or (header_bits p byte_len) (shl128 p.address 8);
}

-- The case F_SYNC. The context field is not packed, nor `tval`.
unfoldable pub pack_sync : TrPacket → ℕ → Packed
pack_sync p byte_len =
    let common =
      bit_or (bit_or (header_bits p byte_len) (subformat_value p.subformat * 2 ^ 8))
        (p.privilege * 2 ^ 10) in
    let located = bit_or (bit_or common (shl128 (bit_value p.branch) 13)) (shl128 p.address 14) in
    elim p.subformat [
      | start ↦ record { bitcnt = 13 + (1 + 32); bits = located }
      | exception ↦ record {
        bitcnt = 13 + (1 + 32 + 5 + 1);
        bits = bit_or (bit_or located (shl128 p.ecause 46)) (shl128 (bit_value p.interrupt) 51);
      }
      | context ↦ record { bitcnt = 13; bits = common }
      | reserved ↦ record { bitcnt = 13; bits = common }
    ]

-- Either the bits that were packed and the bytes copied to `bin`, or an error code.
pub data Serialized : Type 0 where
  serialized : ℕ → List ℕ → Serialized
  rejected : ErrorCode → Serialized

-- `data.bits <<= align` and the copy.
abbrev pub emit : ℕ → Packed → Serialized
emit align d = serialized d.bitcnt (bytes_of (bytes_for (d.bitcnt + align)) (shl128 d.bits align))

unfoldable pub pack_format : Ctx → TrPacket → ℕ → ℕ → Outcome Serialized
unfolding pack_branches pack_address pack_sync bytes_of
pack_format c p byte_len align = elim p.format [
  | branch_full ↦ do
    d ← pack_branches c p byte_len (if trdb_is_full_address c then 32 else kept_bits p.address)
    done (emit align d)
  | branch_diff ↦
      if trdb_is_full_address c
      then done (rejected trdb_bad_config)
      else do d ← pack_branches c p byte_len (kept_bits p.address); done (emit align d)
  | addr_only ↦ done (emit align (pack_address c p byte_len))
  | sync ↦ done (emit align (pack_sync p byte_len))
]

unfoldable pub trdb_pulp_serialize_packet : Ctx → TrPacket → ℕ → Outcome Serialized
unfolding pack_format announced_bytes
trdb_pulp_serialize_packet c p align =
    if leb 8 align
    then done (rejected trdb_invalid)
    else if leb 16 (announced_bytes p)
    then done (rejected trdb_bad_packet)
    else pack_format c p (announced_bytes p) align
