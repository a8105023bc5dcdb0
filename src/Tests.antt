-- ===== src/Tests.antt =====
-- Concrete runs: contexts, packets and instructions, and the theorems applied to them.
pub mod Packets
pub mod Readers
pub mod Stitches
pub mod Programs
pub mod Traces
pub mod Words
pub mod Loops
pub mod Simulators
pub mod Resyncs
pub mod Restores
use trdb.Base.{ℕ, true, false}
use trdb.Trace.{
  TrPacket, zero_packet, trace, addr_only, sync, branch_full, branch_diff, start, exception,
}
use trdb.Context.{Ctx, default_config, fresh_compress, zero_decompress, zero_stats}

-- A new context, and one that compresses addresses.
abbrev pub full_ctx : Ctx
full_ctx = record {
  config = default_config;
  cmp = fresh_compress;
  dec = zero_decompress;
  stats = zero_stats;
}

abbrev pub kept_ctx : Ctx
kept_ctx = record full_ctx { config = record default_config { full_address = false } }

abbrev pub a_start : TrPacket
a_start = record zero_packet {
  length = 40;
  msg_type = trace;
  format = sync;
  subformat = start;
  privilege = 7;
  branch = true;
  address = 0x1c000080;
}

abbrev pub an_exception : TrPacket
an_exception = record zero_packet {
  length = 46;
  msg_type = trace;
  format = sync;
  subformat = exception;
  privilege = 3;
  address = 0x1c000104;
  ecause = 11;
  interrupt = true;
  tval = 5;
}

-- A differential address that takes 9 bits.
abbrev pub an_address : TrPacket
an_address = record zero_packet {
  length = 11;
  msg_type = trace;
  format = addr_only;
  address = 0xffffff40;
}

-- Five branches and a differential address that takes 9 bits.
abbrev pub five_branches : TrPacket
five_branches = record zero_packet {
  length = 25;
  msg_type = trace;
  format = branch_diff;
  branches = 5;
  branch_map = 19;
  address = 0xffffff40;
}

-- Five branches and an address that takes all its 32 bits.
abbrev pub far_branches : TrPacket
far_branches = record zero_packet {
  length = 48;
  msg_type = trace;
  format = branch_full;
  branches = 5;
  branch_map = 19;
  address = 0x5c000080;
}

abbrev pub a_full_map : TrPacket
a_full_map = record zero_packet {
  length = 38;
  msg_type = trace;
  format = branch_full;
  branch_map = 0x55aa55aa;
  address = 0x1c000080;
}
