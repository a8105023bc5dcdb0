-- ===== src/Agreement.antt =====
-- Compression and decompression of src/trace_debugger.c together, on traces that are predictable
-- but for their branches: no change of privilege, no jump to a register, and no trap but at the
-- end. This file says what the encoder is to emit for such a trace.
pub mod Bits
pub mod Calm
pub mod Start
pub mod Traces
pub mod Fetches
pub mod Paths
pub mod Told
pub mod Synced
pub mod Whole
pub mod Trap
pub mod Reports
pub mod Straight
pub mod Complete
pub mod Ended
pub mod Kept
pub mod Reported
pub mod Recovered
pub mod Archived
use trdb.Base.{
  ℕ, ◌+◌, ◌-◌, ◌*◌, ◌%◌, ◌^◌, ◌<◌, ◌≡◌, Bool, true, false, not, if◌then◌else◌, ltb, ◌==◌, List, [],
  ◌∷◌, ◌++◌, length,
}
use trdb.Trace.{TrInstr, TrPacket, zero_packet, trace, branch_full, sync, start}
use trdb.Utils.{sign_extendable_bits}
use trdb.Insn.{is_branch, is_unpred_discontinuity, is_unsupported}
use trdb.Context.{
  Config, State, Filter, Compress, fresh_compress, fresh_state, zero_filter, zero_branch_map,
}
use trdb.Decompress.Course.{bits_of}
use trdb.Decompress.Segments.{map_at}

-- An instruction that is valid at a privilege, does not trap, is supported, and is no jump whose
-- target the encoder would have to report.
pub record Plain (implicit_ret : Bool) (v : ℕ) (i : TrInstr) : Type 0 where
  pub valid : i.valid ≡ true
  pub no_exception : i.exception ≡ false
  pub same_priv : i.priv ≡ v
  pub predictable : is_unpred_discontinuity i.instr implicit_ret ≡ false
  pub supported : is_unsupported i.instr ≡ false

-- The address behind an instruction of 2 bytes or of 4.
abbrev pub behind_instr : TrInstr → ℕ
behind_instr i = (i.iaddr + (if i.compressed then 2 else 4)) % 2 ^ 32

-- The outcome of an instruction in front of the next one: of a branch, whether the next one stands
-- behind it.
abbrev pub outcome : TrInstr → TrInstr → List Bool
outcome i j = if is_branch i.instr then (behind_instr i == j.iaddr) ∷ [] else []

-- The packet of a start at an instruction that is no branch: two bits of format, two of
-- subformat, three of privilege, one for the branch and an address.
abbrev pub start_packet : TrInstr → TrPacket
start_packet i = record zero_packet {
  msg_type = trace;
  format = sync;
  subformat = start;
  privilege = i.priv;
  branch = false;
  address = i.iaddr;
  length = 2 + 2 + 3 + 1 + 32;
}

-- The packet of a full map.
abbrev pub full_packet : Config → List Bool → TrPacket
full_packet config bs =
    let sext = sign_extendable_bits (bits_of bs * 2 % 2 ^ 32) in
    let capped = if ltb 31 sext then 31 else sext in
    record zero_packet {
      msg_type = trace;
      format = branch_full;
      branches = 0;
      branch_map = bits_of bs;
      length =
          if config.compress_full_branch_map
          then (2 + 5 + (31 - capped + 1)) % 2 ^ 7
          else (2 + 5 + 31) % 2 ^ 7;
    }

-- The packets of a trace, of which the first instruction is known, with branches that are pending:
-- one for each 31 branches.
unfoldable pub full_maps : Config → List Bool → TrInstr → List TrInstr → List TrPacket
full_maps config bs i [] = []
full_maps config bs i (j ∷ rest) =
    let pending = bs ++ outcome i j in
    let closed = full_maps config [] j rest in
    let open_map = full_maps config pending j rest in
    if length pending == 31 then full_packet config pending ∷ closed else open_map

-- The encoder's state for an instruction of such a trace; `change` at the first instruction only.
abbrev pub calm : ℕ → Bool → TrInstr → State
calm v change i = record {
  halt = false;
  unhalted = false;
  context_change = false;
  qualified = true;
  unqualified = false;
  exception = false;
  unpred_disc = false;
  emitted_exception_sync = false;
  privilege = v;
  privilege_change = change;
  instr = i;
}

abbrev pub filter_at : ℕ → Filter
filter_at n = record zero_filter { resync_cnt = n }

-- Between calls: the instructions a and i were entered, with branches that are pending, n counts
-- towards the resynchronisation, and the last address that was reported.
abbrev pub running : ℕ → Bool → TrInstr → TrInstr → List Bool → ℕ → ℕ → Compress
running v change a i bs n last = record {
  lastc = calm v change a;
  thisc = calm v false i;
  nextc = calm v false i;
  branch_map = map_at false bs;
  filter = filter_at n;
  last_iaddr = last;
}

-- The first instruction was entered.
abbrev pub entered_first : ℕ → TrInstr → Compress
entered_first v i = record fresh_compress {
  thisc = calm v (not (7 == v)) i;
  nextc = calm v (not (7 == v)) i;
}
