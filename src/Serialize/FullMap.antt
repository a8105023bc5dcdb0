-- ===== src/Serialize/FullMap.antt =====
-- Packets with a full branch map and no address, whose branch count is 0.
use trdb.Base.{ℕ, ◌+◌, ◌*◌, ◌/◌, ◌^◌, ◌<◌, ◌≡◌, refl, arith, Bool, false, done, List, ◌⊎◌}
use trdb.Bits.{bit_and_low, bit_or_above}
use trdb.Errors.{value}
use trdb.Trace.{
  TrPacket, trace, branch_full, branch_diff, format_value, msg_type_value, format_of, msg_type_of,
}
use trdb.Context.{Ctx}
use trdb.BranchLen.{branch_map_len}
use trdb.Utils.{mask_from, sext32}
use trdb.Serialize.{pack_branches, trdb_pulp_serialize_packet, emit}
use trdb.Serialize.Roundtrip.{write_then_read, write_then_read_of, read_back}
use trdb.Serialize.Payload.{IsPayload, opened}
use trdb.Serialize.Read.{read_payload, read_branches}
use trdb.Serialize.Branches.{received_branches}

map_word : TrPacket → ℕ
map_word p = 5 + 2 * 2 ^ 4 + format_value p.format * 2 ^ 6 + p.branch_map * 2 ^ 13

module _ (c : Ctx) (p : TrPacket) (is_trace : p.msg_type ≡ trace) (full : p.branches ≡ 0)
    (map_fits : p.branch_map < 2 ^ 31) (plain : c.config.compress_full_branch_map ≡ false)
    (format : (p.format ≡ branch_full)
      ⊎ (p.format ≡ branch_diff) × (c.config.full_address ≡ false)) where
  serialize_map :
      p.length ≡ 38
      → trdb_pulp_serialize_packet c p 0 ≡ done (emit 0 (record { bitcnt = 44; bits = map_word p }))
  unfolding trdb_pulp_serialize_packet pack_branches branch_map_len map_word format_value
      msg_type_value mask_from
  serialize_map len = ground (
    arith,
    bit_and_low 31 p.branch_map,
    bit_or_above 4 5 2,
    bit_or_above 6 (5 + 2 * 2 ^ 4) (format_value p.format),
    bit_or_above 8 (5 + 2 * 2 ^ 4 + format_value p.format * 2 ^ 6) 0,
    bit_or_above 13 (5 + 2 * 2 ^ 4 + format_value p.format * 2 ^ 6) p.branch_map,
  )

  read_map :
      (s : ℕ)
      → IsPayload 5 (map_word p) s
      → read_payload c s (opened 5 (map_word p))
        ≡ done (record (received_branches p 5) { branches = 0; address = 0 }, value 0)
  unfolding read_payload read_branches branch_map_len map_word format_of msg_type_of format_value
      mask_from sext32
  read_map s h =
      let same = h.whole (ground arith) in
      ground (
        arith,
        bit_and_low 2 (s / 2 ^ 2),
        bit_and_low 5 (s / 2 ^ 2 / 2 ^ 2),
        bit_and_low 31 (s / 2 ^ 2 / 2 ^ 2 / 2 ^ 5),
        bit_and_low 32 (s / 2 ^ 2 / 2 ^ 2 / 2 ^ 5 / 2 ^ 31),
      )

  -- A packet with a full branch map and the branch count 0, of length 38, is written without its
  -- address when full maps are not compressed, and read back with its format, its 31 bits, the
  -- count 0 and the address 0, whatever follows it in the file.
  pub write_then_read-full_map :
      (rest : List ℕ) (faulty : Bool) (packet : TrPacket) (bytes : ℕ)
      → p.length ≡ 38
      → write_then_read c p rest faulty packet bytes
        ≡ done
            (read_back (record (received_branches p 5) { branches = 0; address = 0 }) 5 rest faulty)
  unfolding map_word format_value
  write_then_read-full_map rest faulty packet bytes len =
      write_then_read_of c p rest faulty packet bytes _ 5 36 (map_word p) refl (ground arith)
        (ground arith) (serialize_map len) read_map
