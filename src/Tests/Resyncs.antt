-- ===== src/Tests/Resyncs.antt =====
-- A resynchronisation at a concrete context.
use native.Mathlib.Nat.{pow-zero}
use trdb.Base.{refl, [], ◌∷◌, inr, true, false, arith, Returns}
use trdb.Trace.{TrInstr, zero_instr, zero_packet}
use trdb.Insn.{is_branch, is_unsupported}
use trdb.Context.{Ctx, default_config, zero_stats, zero_decompress}
use trdb.Compress.Step.{trdb_compress_trace_step}
use trdb.Compress.Safety.{IsReady}
use trdb.Compress.Resync.{IsResynced, trdb_compress_trace_step-IsResynced}
use trdb.Decompress.Course.{bits_of}
use trdb.Agreement.{running}
use trdb.Agreement.Calm.{ctx_of}

-- A branch, and the addition behind it.
abbrev a_branch : TrInstr
a_branch = record zero_instr { valid = true; priv = 3; iaddr = 0x100; instr = 0x00b50863 }

abbrev behind_it : TrInstr
behind_it = record zero_instr { valid = true; priv = 3; iaddr = 0x104; instr = 0x00a50533 }

-- The branch was entered, one that was not taken is pending, and the count is at its limit.
abbrev due_ctx : Ctx
due_ctx =
    ctx_of (record default_config { resync_max = 5 }) zero_decompress zero_stats
      (running 3 false a_branch a_branch (true ∷ []) 5 0)

due_ctx-IsReady : IsReady due_ctx
unfolding bits_of
due_ctx-IsReady = ground (arith, pow-zero 2)

trdb_compress_trace_step-IsResynced_example :
    Returns
      (IsResynced zero_packet behind_it)
      (trdb_compress_trace_step due_ctx zero_packet behind_it)
unfolding is_branch is_unsupported
trdb_compress_trace_step-IsResynced_example =
    trdb_compress_trace_step-IsResynced due_ctx zero_packet behind_it behind_it due_ctx-IsReady
      (ground arith) (ground arith) refl refl refl refl refl refl (inr refl)
