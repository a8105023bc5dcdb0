-- ===== src/Compress/Emit.antt =====
-- The functions emit_* of src/trace_debugger.c. They are given `*tr` and return it filled in,
-- with the statistics and the branch map they leave. A bit field of the packet keeps the low bits
-- of what is assigned to it.
use trdb.Base.{
  ℕ, ◌+◌, ◌-◌, ◌*◌, ◌%◌, ◌^◌, Bool, not, ◌&&◌, ◌||◌, if◌then◌else◌, ltb, ◌==◌, Outcome, done,
  assert, ◌>>=◌, ◌>>◌,
}
use trdb.Trace.{TrInstr, TrPacket, branch_full, branch_diff, addr_only, sync, start, exception}
use trdb.Utils.{sign_extendable_bits}
use trdb.BranchLen.{branch_map_len}
use trdb.Insn.{is_branch}
use trdb.Context.{Config, Stats, BranchMap, zero_branch_map, add64, count_sext}
use trdb.Compress.{branch_taken, Choice, differential_addr, pulp_differential_addr, quantize_clz}

-- A branch at the reported address that was not taken.
abbrev pub untaken_branch : TrInstr → TrInstr → Bool
untaken_branch tc nc = is_branch tc.instr && not (branch_taken tc.compressed tc.iaddr nc.iaddr)

unfoldable pub emit_exception_packet : TrPacket → TrInstr → TrInstr → TrInstr → TrPacket
emit_exception_packet tr lc tc nc = record tr {
  format = sync;
  subformat = exception;
  context = 0;
  privilege = tc.priv;
  branch = untaken_branch tc nc;
  address = tc.iaddr;
  ecause = lc.cause;
  interrupt = lc.interrupt;
  tval = lc.tval;
  length = 2 + 2 + 3 + 1 + 32 + 5 + 1;
}

unfoldable pub emit_start_packet : TrPacket → TrInstr → TrInstr → TrPacket
emit_start_packet tr tc nc = record tr {
  format = sync;
  subformat = start;
  context = 0;
  privilege = tc.priv;
  branch = untaken_branch tc nc;
  address = tc.iaddr;
  length = 2 + 2 + 3 + 1 + 32;
}

-- What a flush leaves: `*tr`, the statistics and `*branch_map`.
pub record Flushed : Type 0 where
  pub packet : TrPacket
  pub stats : Stats
  pub branch_map : BranchMap

-- `stats->zo_addresses`, for an address of all zeros or all ones
abbrev pub count_zo : ℕ → Stats → Stats
count_zo address s =
    if address == 0 || address == 2 ^ 32 - 1
    then record s { zo_addresses = add64 s.zo_addresses 1 }
    else s

-- `last_iaddr - tc_instr->iaddr` on addr_t
abbrev pub address_diff : ℕ → ℕ → ℕ
address_diff last_iaddr iaddr = (last_iaddr + 2 ^ 32 - iaddr) % 2 ^ 32

-- Without branches: the packet is F_ADDR_ONLY.
unfoldable pub flush_address :
    Config → TrPacket → BranchMap → Stats → TrInstr → ℕ → Bool → Outcome Flushed
flush_address config tr map s tc last_iaddr full_address =
    let diff = address_diff last_iaddr tc.iaddr in
    let lead =
      if config.use_pulp_sext
      then quantize_clz (sign_extendable_bits diff)
      else sign_extendable_bits diff in
    let keep = 32 - lead + 1 in
    let counted = λ (t : Stats). record t { addr_only_packets = add64 t.addr_only_packets 1 } in
    if full_address
    then (do
      assert (map.bits == 0)
      done (record {
        packet = record tr {
          format = addr_only;
          branches = map.cnt % 2 ^ 5;
          address = tc.iaddr;
          length = 2 + 32;
        };
        stats = counted s;
        branch_map = map;
      }))
    else do
      t ← count_sext (keep - 1) s
      assert (map.bits == 0)
      done (record {
        packet = record tr {
          format = addr_only;
          branches = map.cnt % 2 ^ 5;
          address = diff;
          length = (2 + keep) % 2 ^ 7;
        };
        stats = counted (count_zo diff t);
        branch_map = map;
      })

-- With branches and absolute addresses.
unfoldable pub flush_full_address : TrPacket → BranchMap → Stats → TrInstr → Bool → Outcome Flushed
flush_full_address tr map s tc is_u_discontinuity = do
  len ← branch_map_len map.cnt
  let q = record tr { format = branch_full; address = tc.iaddr; branch_map = map.bits }
  done (
      if map.full
      then (if is_u_discontinuity
          then record {
            packet = record q { branches = map.cnt % 2 ^ 5; length = (2 + 5 + len + 32) % 2 ^ 7 };
            stats = record s {
              bmap_full_addr_packets = add64 s.bmap_full_addr_packets 1;
              bmap_full_packets = add64 s.bmap_full_packets 1;
            };
            branch_map = zero_branch_map;
          }
          else record {
            packet = record q { branches = 0; length = (2 + 5 + len) % 2 ^ 7 };
            stats = record s { bmap_full_packets = add64 s.bmap_full_packets 1 };
            branch_map = zero_branch_map;
          })
      else record {
        packet = record q { branches = map.cnt % 2 ^ 5; length = (2 + 5 + len + 32) % 2 ^ 7 };
        stats = record s { abs_packets = add64 s.abs_packets 1 };
        branch_map = zero_branch_map;
      })

-- The choice of address, by bits or by bytes.
unfoldable pub choose_address : Config → ℕ → ℕ → Outcome Choice
unfolding differential_addr pulp_differential_addr
choose_address config full diff =
    if config.use_pulp_sext
    then pulp_differential_addr full diff
    else done (differential_addr full diff)

-- With branches and compressed addresses, once the choice is made.
unfoldable pub flush_chosen : TrPacket → BranchMap → Stats → ℕ → ℕ → Bool → Choice → Outcome Flushed
flush_chosen tr map s full diff is_u_discontinuity choice = do
  let keep = 32 - choice.lead + 1
  let address = if choice.use_differential then diff else full
  t ← count_sext (keep - 1) s
  len ← branch_map_len map.cnt
  let u = count_zo address t
  let q = record tr {
    format = if choice.use_differential then branch_diff else branch_full;
    address = address;
    branch_map = map.bits;
  }
  done (
      if map.full
      then (if is_u_discontinuity
          then record {
            packet = record q { branches = map.cnt % 2 ^ 5; length = (2 + 5 + len + keep) % 2 ^ 7 };
            stats = record u { bmap_full_addr_packets = add64 u.bmap_full_addr_packets 1 };
            branch_map = zero_branch_map;
          }
          else record {
            packet = record q { branches = 0; length = (2 + 5 + len) % 2 ^ 7 };
            stats = record u { bmap_full_packets = add64 u.bmap_full_packets 1 };
            branch_map = zero_branch_map;
          })
      else record {
        packet = record q { branches = map.cnt % 2 ^ 5; length = (2 + 5 + len + keep) % 2 ^ 7 };
        stats =
            if choice.use_differential
            then record u { diff_packets = add64 u.diff_packets 1 }
            else record u { abs_packets = add64 u.abs_packets 1 };
        branch_map = zero_branch_map;
      })

-- With branches and compressed addresses, absolute or differential.
unfoldable pub flush_compressed :
    Config → TrPacket → BranchMap → Stats → TrInstr → ℕ → Bool → Outcome Flushed
unfolding choose_address flush_chosen
flush_compressed config tr map s tc last_iaddr is_u_discontinuity =
    let diff = address_diff last_iaddr tc.iaddr in
    choose_address config tc.iaddr diff >>= flush_chosen tr map s tc.iaddr diff is_u_discontinuity

unfoldable pub emit_branch_map_flush_packet :
    Config → TrPacket → BranchMap → Stats → TrInstr → ℕ → Bool → Bool → Outcome Flushed
unfolding flush_address flush_full_address flush_compressed
emit_branch_map_flush_packet config tr map s tc last_iaddr full_address is_u_discontinuity =
    if map.cnt == 0
    then flush_address config tr map s tc last_iaddr full_address
    else if full_address
    then flush_full_address tr map s tc is_u_discontinuity
    else flush_compressed config tr map s tc last_iaddr is_u_discontinuity

unfoldable pub emit_full_branch_map : Config → TrPacket → BranchMap → Stats → Outcome Flushed
emit_full_branch_map config tr map s = do
  assert (map.cnt == 31)
  len ← branch_map_len 31
  let sext = sign_extendable_bits (map.bits * 2 % 2 ^ 32)
  let capped = if ltb 31 sext then 31 else sext
  done (record {
    packet = record tr {
      format = branch_full;
      branches = 0;
      branch_map = map.bits;
      length =
          if config.compress_full_branch_map
          then (2 + 5 + (31 - capped + 1)) % 2 ^ 7
          else (2 + 5 + len) % 2 ^ 7;
    };
    stats = record s { bmap_full_packets = add64 s.bmap_full_packets 1 };
    branch_map = zero_branch_map;
  })
