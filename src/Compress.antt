-- ===== src/Compress.antt =====
-- Compression in src/trace_debugger.c: from retired instructions to packets. `Emit` fills in a
-- packet, `Step` is one call of trdb_compress_trace_step, and the other modules prove what a call
-- and a sequence of calls keep.
pub mod Emit
pub mod Step
pub mod Invariant
pub mod Safety
pub mod Address
pub mod Form
pub mod Delivered
pub mod Counters
pub mod Run
pub mod Count
pub mod Archive
pub mod Choices
pub mod Supported
pub mod Due
pub mod Resync
use trdb.Base.{
  ℕ, ◌+◌, ◌%◌, ◌^◌, Bool, true, false, not, if◌then◌else◌, ltb, ◌==◌, Outcome, done, assert, ◌>>=◌,
  ◌>>◌,
}
use trdb.Utils.{sign_extendable_bits, trdb_sign_extendable_bits}

-- Addresses of type addr_t wrap at 2 ^ 32.
unfoldable pub branch_taken : Bool → ℕ → ℕ → Bool
branch_taken before_compressed addr_before addr_after =
    if before_compressed
    then not ((addr_before + 2) % 2 ^ 32 == addr_after)
    else not ((addr_before + 4) % 2 ^ 32 == addr_after)

-- The choice between an absolute and a differential address: `*lead`, and whether the latter wins.
pub record Choice : Type 0 where
  pub lead : ℕ
  pub use_differential : Bool

abbrev pub longer : ℕ → ℕ → Choice
longer abs diff = record {
  lead = if ltb abs diff then diff else abs;
  use_differential = ltb abs diff;
}

unfoldable pub differential_addr : ℕ → ℕ → Choice
differential_addr absolute differential =
    longer (trdb_sign_extendable_bits absolute) (trdb_sign_extendable_bits differential)

unfoldable pub quantize_clz : ℕ → ℕ
quantize_clz x = if ltb x 9 then 0 else if ltb x 17 then 9 else if ltb x 25 then 17 else 25

unfoldable pub pulp_differential_addr : ℕ → ℕ → Outcome Choice
unfolding quantize_clz
pulp_differential_addr absolute differential = do
  let abs = quantize_clz (sign_extendable_bits absolute)
  let diff = quantize_clz (sign_extendable_bits differential)
  assert (not (abs == 32))
  done (longer abs diff)
