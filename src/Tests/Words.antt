-- ===== src/Tests/Words.antt =====
-- Words, widths, codes and the return address stack.
use trdb.Base.{
  ℕ, ◌+◌, ◌-◌, ◌%◌, ◌^◌, ◌<◌, ◌≤◌, ◌≡◌, ◌↔◌, ◌⊎◌, refl, [], ◌∷◌, ◌++◌, true, done, some, arith,
  Returns, if◌then◌else◌, ◌>>=◌,
}
use trdb.Errors.{failed, trdb_bad_ras, status_number, trdb_errcode}
use trdb.Errors.Codes.{trdb_errcode-status_number}
use trdb.Trace.{zero_packet}
use trdb.Utils.{clz, sign_extendable_bits, trdb_sign_extendable_bits, sext32, sext128}
use trdb.Utils.Clz.{le-sign_extendable_bits_iff}
use trdb.Utils.Sext.{sext32-sign_extendable_bits, sext128_extends}
use trdb.BranchLen.{map_width, branch_map_len, branch_map_len_fits}
use trdb.Compress.{differential_addr, pulp_differential_addr}
use trdb.Compress.Choices.{differential_addr_lem, pulp_differential_addr_lem}
use trdb.Insn.Ras.{get_instr_ras_type}
use trdb.Decompress.CallStack.{idle, switches, nests, follow, update_ras-Frame}
use trdb.Serialize.{bytes_of}
use trdb.Serialize.Read.{read_bytes, trdb_pulp_read_single_packet}
use trdb.Serialize.Bytes.{read_single-bytes_of}
use trdb.Tests.{full_ctx}

le-sign_extendable_bits_iff_example :
    (24 ≤ sign_extendable_bits 0xffffff40) ↔ ((0xffffff40 < 2 ^ 8) ⊎ (2 ^ 32 ≤ 0xffffff40 + 2 ^ 8))
le-sign_extendable_bits_iff_example = le-sign_extendable_bits_iff 24 8 0xffffff40 refl (omega arith)

sext32-sign_extendable_bits_example : sext32 0x00000140 9 ≡ done 0xffffff40
unfolding sign_extendable_bits clz
sext32-sign_extendable_bits_example =
    sext32-sign_extendable_bits 0x00000140 0xffffff40 9 (omega arith) (omega arith) (omega arith)
      (omega arith) refl

sext128_extends_example :
    (s : ℕ) × (sext128 0x140 9 ≡ done s)
    × (s < 2 ^ 128)
    × (s % 2 ^ 9 ≡ 0x140 % 2 ^ 9)
    × ((s < 2 ^ (9 - 1)) ⊎ (2 ^ 128 ≤ s + 2 ^ (9 - 1)))
sext128_extends_example = sext128_extends 0x140 9 (omega arith) (omega arith)

branch_map_len_fits_example :
    (branch_map_len 12 ≡ done (map_width 12))
    × (12 ≤ map_width 12)
    × (map_width 12 ≤ 31)
    × (1 ≤ map_width 12)
branch_map_len_fits_example = branch_map_len_fits 12 (omega arith)

read_single-bytes_of_example :
    trdb_pulp_read_single_packet full_ctx
      (record { ahead = bytes_of 3 0xab42 ++ (9 ∷ []); faulty = true })
      zero_packet
      0
    ≡ (do
      (q, status) ← read_bytes full_ctx 0x42 (bytes_of 3 0xab42)
      done (record {
        status = status;
        packet = q;
        bytes = 3;
        input = record { ahead = 9 ∷ []; faulty = true };
      }))
read_single-bytes_of_example =
    read_single-bytes_of full_ctx 2 0xab42 (9 ∷ []) true zero_packet 0 refl

trdb_errcode-status_number_example :
    trdb_errcode (status_number (failed trdb_bad_ras)) ≡ some trdb_bad_ras
trdb_errcode-status_number_example = trdb_errcode-status_number trdb_bad_ras

-- jal ra, then jalr ra, 0(t0), and jalr zero, 0(ra) twice
update_ras-Frame_example :
    follow
      ((0x010000ef, 0x1c000080)
        ∷ (0x000280e7, 0x1c000100)
        ∷ (0x00008067, 0x1c000200)
        ∷ (0x000280e7, 0x1c000084)
        ∷ [])
      (5 ∷ 6 ∷ [])
      0
    ≡ some (0x1c000084 ∷ 0x1c000104 ∷ 5 ∷ [], 0x1c000088 ∷ 6 ∷ [])
unfolding get_instr_ras_type
update_ras-Frame_example =
    update_ras-Frame 5 _ 0x1c000088 _
      (nests 0x010000ef 0x1c000080 0x00008067 0x1c000200 refl refl
        (switches 0x000280e7 0x1c000100 refl idle) (switches 0x000280e7 0x1c000084 refl idle))
      (6 ∷ []) 0

differential_addr_lem_example :
    ((differential_addr 0x1c000080 0xffffff40).lead
      ≡ trdb_sign_extendable_bits (
          if (differential_addr 0x1c000080 0xffffff40).use_differential
          then 0xffffff40
          else 0x1c000080))
    × (trdb_sign_extendable_bits 0x1c000080 ≤ (differential_addr 0x1c000080 0xffffff40).lead)
    × (trdb_sign_extendable_bits 0xffffff40 ≤ (differential_addr 0x1c000080 0xffffff40).lead)
differential_addr_lem_example = differential_addr_lem 0x1c000080 0xffffff40

pulp_differential_addr_lem_example :
    Returns
      (λ choice.
        choice.lead
        ≤ trdb_sign_extendable_bits (if choice.use_differential then 0xffffff40 else 0x1c000080))
      (pulp_differential_addr 0x1c000080 0xffffff40)
pulp_differential_addr_lem_example = pulp_differential_addr_lem 0x1c000080 0xffffff40
