-- ===== src/Context.antt =====
-- The library context of src/trace_debugger.c: configuration, the states of compression and
-- decompression, statistics, and the functions that set, reset or read them. Logging and the
-- disassembler of the context are left out.
use trdb.Base.{
  ℕ, ◌+◌, ◌-◌, ◌%◌, ◌^◌, Bool, true, false, Option, none, some, List, [], replicate, get_elem?, set,
  Outcome, done, undefined, if◌then◌else◌,
}
use trdb.Trace.{TrInstr, zero_instr}

-- struct trdb_config
pub record Config : Type 0 where
  pub arch64 : Bool
  pub resync_max : ℕ
  pub full_statistics : Bool
  pub full_address : Bool
  pub use_pulp_sext : Bool
  pub implicit_ret : Bool
  pub pulp_vector_table_packet : Bool
  pub compress_full_branch_map : Bool

-- struct trdb_state
pub record State : Type 0 where
  pub halt : Bool
  pub unhalted : Bool
  pub context_change : Bool
  pub qualified : Bool
  pub unqualified : Bool
  pub exception : Bool
  pub unpred_disc : Bool
  pub emitted_exception_sync : Bool
  pub privilege : ℕ
  pub privilege_change : Bool
  pub instr : TrInstr

-- struct branch_map_state
pub record BranchMap : Type 0 where
  pub full : Bool
  pub bits : ℕ
  pub cnt : ℕ

-- struct filter_state
pub record Filter : Type 0 where
  pub enable_timestamps : Bool
  pub trace_privilege : Bool
  pub privilege : ℕ
  pub resync_cnt : ℕ
  pub resync_pend : Bool

-- struct trdb_compress
pub record Compress : Type 0 where
  pub lastc : State
  pub thisc : State
  pub nextc : State
  pub branch_map : BranchMap
  pub filter : Filter
  pub last_iaddr : ℕ

-- struct trdb_decompress; the call stack has its top first.
pub record Decompress : Type 0 where
  pub call_stack : List ℕ
  pub privilege : ℕ
  pub last_packet_addr : ℕ
  pub branch_map : BranchMap

-- struct trdb_stats
pub record Stats : Type 0 where
  pub payloadbits : ℕ
  pub packetbits : ℕ
  pub pulpbits : ℕ
  pub instrbits : ℕ
  pub instrs : ℕ
  pub packets : ℕ
  pub zo_addresses : ℕ
  pub zo_branchmaps : ℕ
  pub addr_only_packets : ℕ
  pub exception_packets : ℕ
  pub start_packets : ℕ
  pub diff_packets : ℕ
  pub abs_packets : ℕ
  pub bmap_full_packets : ℕ
  pub bmap_full_addr_packets : ℕ
  pub sext_bits : List ℕ

-- struct trdb_ctx
pub record Ctx : Type 0 where
  pub config : Config
  pub cmp : Compress
  pub dec : Decompress
  pub stats : Stats

abbrev pub default_config : Config
default_config = record {
  arch64 = false;
  resync_max = 2 ^ 64 - 1;
  full_statistics = true;
  full_address = true;
  use_pulp_sext = false;
  implicit_ret = false;
  pulp_vector_table_packet = true;
  compress_full_branch_map = false;
}

-- `(struct trdb_state){.privilege = 7}`
abbrev pub fresh_state : State
fresh_state = record {
  halt = false;
  unhalted = false;
  context_change = false;
  qualified = false;
  unqualified = false;
  exception = false;
  unpred_disc = false;
  emitted_exception_sync = false;
  privilege = 7;
  privilege_change = false;
  instr = zero_instr;
}

abbrev pub zero_branch_map : BranchMap
zero_branch_map = record { full = false; bits = 0; cnt = 0 }

abbrev pub zero_filter : Filter
zero_filter = record {
  enable_timestamps = false;
  trace_privilege = false;
  privilege = 0;
  resync_cnt = 0;
  resync_pend = false;
}

abbrev pub zero_stats : Stats
zero_stats = record {
  payloadbits = 0;
  packetbits = 0;
  pulpbits = 0;
  instrbits = 0;
  instrs = 0;
  packets = 0;
  zo_addresses = 0;
  zo_branchmaps = 0;
  addr_only_packets = 0;
  exception_packets = 0;
  start_packets = 0;
  diff_packets = 0;
  abs_packets = 0;
  bmap_full_packets = 0;
  bmap_full_addr_packets = 0;
  sext_bits = replicate 64 0;
}

abbrev pub zero_decompress : Decompress
zero_decompress = record {
  call_stack = [];
  privilege = 0;
  last_packet_addr = 0;
  branch_map = zero_branch_map;
}

abbrev pub fresh_compress : Compress
fresh_compress = record {
  lastc = fresh_state;
  thisc = fresh_state;
  nextc = fresh_state;
  branch_map = zero_branch_map;
  filter = zero_filter;
  last_iaddr = 0;
}

-- trdb_new; `allocated` says whether each `malloc` succeeded, and NULL is `none`.
unfoldable pub trdb_new : Bool → Option Ctx
trdb_new allocated =
    if allocated
    then some (record {
      config = default_config;
      cmp = fresh_compress;
      dec = zero_decompress;
      stats = zero_stats;
    })
    else none

unfoldable pub trdb_reset_compression : Ctx → Ctx
trdb_reset_compression ctx = record ctx {
  config = default_config;
  cmp = fresh_compress;
  stats = zero_stats;
}

unfoldable pub trdb_reset_decompression : Ctx → Ctx
trdb_reset_decompression ctx = record {
  config = default_config;
  cmp = record cmp { filter = zero_filter };
  dec = record zero_decompress { privilege = 7 };
  stats = zero_stats;
}
  where
    open ctx use {cmp}

module _ (ctx : Ctx) where
  open ctx use {config, stats}

  unfoldable pub trdb_set_full_address : Bool → Ctx
  trdb_set_full_address v = record ctx { config = record config { full_address = v } }

  abbrev pub trdb_is_full_address : Bool
  trdb_is_full_address = config.full_address

  unfoldable pub trdb_set_implicit_ret : Bool → Ctx
  trdb_set_implicit_ret v = record ctx { config = record config { implicit_ret = v } }

  abbrev pub trdb_get_implicit_ret : Bool
  trdb_get_implicit_ret = config.implicit_ret

  unfoldable pub trdb_set_pulp_extra_packet : Bool → Ctx
  trdb_set_pulp_extra_packet v = record ctx {
    config = record config { pulp_vector_table_packet = v };
  }

  abbrev pub trdb_get_pulp_extra_packet : Bool
  trdb_get_pulp_extra_packet = config.pulp_vector_table_packet

  unfoldable pub trdb_set_compress_branch_map : Bool → Ctx
  trdb_set_compress_branch_map v = record ctx {
    config = record config { compress_full_branch_map = v };
  }

  abbrev pub trdb_get_compress_branch_map : Bool
  trdb_get_compress_branch_map = config.compress_full_branch_map

  abbrev pub trdb_get_payloadbits : ℕ
  trdb_get_payloadbits = stats.payloadbits

  abbrev pub trdb_get_pulpbits : ℕ
  trdb_get_pulpbits = stats.pulpbits

  abbrev pub trdb_get_packetcnt : ℕ
  trdb_get_packetcnt = stats.packets

  abbrev pub trdb_get_instrcnt : ℕ
  trdb_get_instrcnt = stats.instrs

  abbrev pub trdb_get_instrbits : ℕ
  trdb_get_instrbits = stats.instrbits

-- struct trdb_packet_stats
pub record PacketStats : Type 0 where
  pub packets : ℕ
  pub addr_only_packets : ℕ
  pub exception_packets : ℕ
  pub start_packets : ℕ
  pub diff_packets : ℕ
  pub abs_packets : ℕ
  pub bmap_full_packets : ℕ
  pub bmap_full_addr_packets : ℕ

unfoldable pub trdb_get_packet_stats : Ctx → PacketStats
trdb_get_packet_stats ctx = record {
  packets = stats.packets;
  addr_only_packets = stats.addr_only_packets;
  exception_packets = stats.exception_packets;
  start_packets = stats.start_packets;
  diff_packets = stats.diff_packets;
  abs_packets = stats.abs_packets;
  bmap_full_packets = stats.bmap_full_packets;
  bmap_full_addr_packets = stats.bmap_full_addr_packets;
}
  where
    open ctx use {stats}

-- A counter of type size_t or uint64_t, and one of type uint32_t, grows by n.
abbrev pub add64 : ℕ → ℕ → ℕ
add64 x n = (x + n) % 2 ^ 64

abbrev pub add32 : ℕ → ℕ → ℕ
add32 x n = (x + n) % 2 ^ 32

-- `stats->sext_bits[i]++`
unfoldable pub count_sext : ℕ → Stats → Outcome Stats
count_sext i s = elim (get_elem? s.sext_bits i) [
  | none ↦ undefined
  | some n ↦ done (record s { sext_bits = set s.sext_bits i (add32 n 1) })
]
