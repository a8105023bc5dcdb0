-- ===== src/Tests/Packets.antt =====
-- Packets written and read.
use trdb.Base.{
  ℕ, List, some, length, ◌≡◌, refl, [], ◌∷◌, true, false, done, undefined, inl, inr, arith,
}
use trdb.Errors.{value}
use trdb.Serialize.File.{ReadAll, trdb_pulp_read_all_packets}
use trdb.Serialize.Read.{trdb_pulp_read_single_packet}
use trdb.Serialize.Ended.{IsEnded, trdb_pulp_read_all_packets-IsEnded}
use trdb.Trace.{IsPacket, zero_packet, trace, sync, start, exception, addr_only}
use trdb.Utils.{sign_extendable_bits, clz, sext128}
use trdb.BranchLen.{map_width}
use trdb.Serialize.Roundtrip.{write_then_read, read_back}
use trdb.Serialize.Sync.{write_then_read-start, write_then_read-exception}
use trdb.Serialize.Address.{write_then_read-address}
use trdb.Serialize.Branches.{write_then_read-branches, write_then_read-wide, received_branches}
use trdb.Serialize.FullMap.{write_then_read-full_map}
use trdb.Tests.{
  full_ctx, kept_ctx, a_start, an_exception, an_address, five_branches, far_branches, a_full_map,
}

a_start-IsPacket : IsPacket a_start
a_start-IsPacket = ground arith

an_exception-IsPacket : IsPacket an_exception
an_exception-IsPacket = ground arith

an_address-IsPacket : IsPacket an_address
an_address-IsPacket = ground arith

five_branches-IsPacket : IsPacket five_branches
five_branches-IsPacket = ground arith

far_branches-IsPacket : IsPacket far_branches
far_branches-IsPacket = ground arith

write_then_read-start_example :
    write_then_read full_ctx a_start (7 ∷ []) false zero_packet 0
    ≡ done (
        read_back
          (record zero_packet {
            length = 44;
            msg_type = trace;
            format = sync;
            subformat = start;
            privilege = 7;
            branch = true;
            address = 0x1c000080;
          })
          5
          (7 ∷ [])
          false)
write_then_read-start_example =
    write_then_read-start full_ctx a_start a_start-IsPacket refl refl (7 ∷ []) false zero_packet 0
      refl refl

write_then_read-exception_example :
    write_then_read full_ctx an_exception (7 ∷ []) false zero_packet 0
    ≡ done (
        read_back
          (record zero_packet {
            length = 52;
            msg_type = trace;
            format = sync;
            subformat = exception;
            privilege = 3;
            address = 0x1c000104;
            ecause = 11;
            interrupt = true;
          })
          6
          (7 ∷ [])
          false)
write_then_read-exception_example =
    write_then_read-exception full_ctx an_exception an_exception-IsPacket refl refl (7 ∷ []) false
      zero_packet 0 refl refl

write_then_read-address_example :
    write_then_read kept_ctx an_address [] true zero_packet 0
    ≡ done (
        read_back
          (record zero_packet {
            length = 20;
            msg_type = trace;
            format = addr_only;
            address = 0xffffff40;
          })
          2
          []
          true)
unfolding sign_extendable_bits clz map_width
write_then_read-address_example =
    write_then_read-address kept_ctx an_address an_address-IsPacket refl refl [] true zero_packet 0
      refl

write_then_read-branches_example :
    write_then_read kept_ctx five_branches (1 ∷ 2 ∷ []) false zero_packet 0
    ≡ done (read_back (received_branches five_branches 3) 3 (1 ∷ 2 ∷ []) false)
unfolding sign_extendable_bits clz map_width
write_then_read-branches_example =
    write_then_read-branches kept_ctx five_branches five_branches-IsPacket refl (omega arith)
      (ground arith) (inr (refl, refl)) refl (1 ∷ 2 ∷ []) false zero_packet 0 3 refl
      (inr (refl, ground arith))

write_then_read-wide_example :
    write_then_read kept_ctx far_branches [] false zero_packet 0 ≡ undefined
unfolding sign_extendable_bits clz map_width
write_then_read-wide_example =
    write_then_read-wide kept_ctx far_branches far_branches-IsPacket refl (omega arith)
      (ground arith) (inl refl) refl [] false zero_packet 0 6 refl refl (ground arith)

write_then_read-full_map_example :
    write_then_read kept_ctx a_full_map [] false zero_packet 0
    ≡ done (
        read_back
          (record (received_branches a_full_map 5) { branches = 0; address = 0 })
          5
          []
          false)
write_then_read-full_map_example =
    write_then_read-full_map kept_ctx a_full_map refl refl (omega arith) refl (inl refl) [] false
      zero_packet 0 refl

-- An address, and the first two bytes of another.
abbrev an_address_bytes : List ℕ
an_address_bytes = 0xa4 ∷ 0x80 ∷ 0x00 ∷ 0x00 ∷ 0x1c ∷ 0xa4 ∷ 0x80 ∷ []

abbrev all_read : ReadAll
all_read = record {
  status = value 0;
  packet_list =
      record zero_packet { length = 36; msg_type = trace; format = addr_only; address = 0x1c000080 }
      ∷ [];
}

trdb_pulp_read_all_packets-IsEnded_example : IsEnded [] (length an_address_bytes) (some all_read)
unfolding trdb_pulp_read_single_packet sext128 trdb_pulp_read_all_packets
trdb_pulp_read_all_packets-IsEnded_example =
    trdb_pulp_read_all_packets-IsEnded true full_ctx
      (record { ahead = an_address_bytes; faulty = false }) zero_packet [] (some all_read) refl
