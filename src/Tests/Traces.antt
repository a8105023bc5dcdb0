-- ===== src/Tests/Traces.antt =====
-- Traces compressed, packets flushed and addresses resolved.
use native.Mathlib.Nat.{pow-zero}
use trdb.Base.{none_left, and_rest, refl, [], ◌∷◌, true, false, arith, Returns}
use trdb.Trace.{TrInstr, IsInstr, zero_instr, zero_packet}
use trdb.Context.{Ctx, fresh_compress, fresh_state, BranchMap, zero_stats, default_config}
use trdb.Compress.Emit.{emit_branch_map_flush_packet}
use trdb.Compress.Step.{record_branch, trdb_compress_trace_step}
use trdb.Compress.Invariant.{IsMap, HasRoom, record_branch-IsMap}
use trdb.Compress.Safety.{IsReady, IsStepped, trdb_compress_trace_step-IsStepped}
use trdb.Compress.Address.{IsResolved, emit_branch_map_flush_packet-IsResolved}
use trdb.Compress.Delivered.{IsDelivered, trdb_compress_trace_step-IsDelivered}
use trdb.Insn.{is_unsupported}
use trdb.Compress.Supported.{IsCompleted, compress_trace-IsCompleted}
use trdb.Compress.Count.{IsTallied, compress_trace-IsTallied}
use trdb.Compress.Archive.{IsArchived, compress_trace-IsArchived}
use trdb.Compress.Run.{compress_trace, ample, compress_trace-IsTraced, IsTraced}
use trdb.Tests.{full_ctx}

-- An addition, a branch that is taken, and the addition at its target, which traps.
abbrev addition : TrInstr
addition = record zero_instr { valid = true; priv = 3; iaddr = 0x1c000080; instr = 0x00a50533 }

abbrev branch : TrInstr
branch = record zero_instr { valid = true; priv = 3; iaddr = 0x1c000084; instr = 0x00b50863 }

abbrev target : TrInstr
target = record zero_instr {
  valid = true;
  priv = 3;
  iaddr = 0x1c000094;
  instr = 0x00a50533;
  exception = true;
  cause = 2;
}

addition-IsInstr : IsInstr addition
addition-IsInstr = ground arith

branch-IsInstr : IsInstr branch
branch-IsInstr = ground arith

target-IsInstr : IsInstr target
target-IsInstr = ground arith

pub full_ctx-IsReady : IsReady full_ctx
full_ctx-IsReady = ground (arith, pow-zero 2)

compress_trace-IsTraced_example :
    Returns IsTraced
      (compress_trace ample full_ctx [] (addition ∷ branch ∷ target ∷ addition ∷ addition ∷ []))
compress_trace-IsTraced_example =
    compress_trace-IsTraced ample full_ctx []
      (addition ∷ branch ∷ target ∷ addition ∷ addition ∷ []) full_ctx-IsReady none_left
      (and_rest addition-IsInstr (
        and_rest branch-IsInstr (
          and_rest target-IsInstr
            (and_rest addition-IsInstr (and_rest addition-IsInstr none_left)))))

trdb_compress_trace_step-IsStepped_example :
    Returns IsStepped (trdb_compress_trace_step full_ctx zero_packet addition)
trdb_compress_trace_step-IsStepped_example =
    trdb_compress_trace_step-IsStepped full_ctx zero_packet addition full_ctx-IsReady
      addition-IsInstr

-- Five branches, of which the first, the second and the fifth are not taken.
abbrev five : BranchMap
five = record { full = false; bits = 19; cnt = 5 }

five-IsMap : IsMap five
five-IsMap = ground arith

five-HasRoom : HasRoom five
five-HasRoom = ground (arith, five-IsMap)

record_branch-IsMap_example : Returns IsMap (record_branch five branch target)
record_branch-IsMap_example = record_branch-IsMap five branch target five-HasRoom

emit_branch_map_flush_packet-IsResolved_example :
    Returns (IsResolved false 0x1c000200 five target true) (
      emit_branch_map_flush_packet default_config zero_packet five zero_stats target 0x1c000200
        false true)
emit_branch_map_flush_packet-IsResolved_example =
    emit_branch_map_flush_packet-IsResolved zero_packet five zero_stats target five-IsMap refl
      target-IsInstr 0x1c000200 (omega arith) default_config false true

-- The first addition is seen, so that the next call reports a start.
abbrev started_ctx : Ctx
started_ctx = record full_ctx {
  cmp = record fresh_compress {
    thisc = record fresh_state { qualified = true; privilege = 3; instr = addition };
    nextc = record fresh_state { qualified = true; privilege = 3; instr = addition };
  };
}

started_ctx-IsReady : IsReady started_ctx
started_ctx-IsReady = ground (arith, pow-zero 2)

trdb_compress_trace_step-IsDelivered_example :
    Returns
      (IsDelivered (9 ∷ []) false zero_packet 0)
      (trdb_compress_trace_step started_ctx zero_packet branch)
trdb_compress_trace_step-IsDelivered_example =
    trdb_compress_trace_step-IsDelivered started_ctx refl refl zero_packet branch
      started_ctx-IsReady branch-IsInstr (9 ∷ []) false zero_packet 0

compress_trace-IsCompleted_example :
    Returns
      (IsCompleted ample 3)
      (compress_trace ample started_ctx [] (branch ∷ target ∷ addition ∷ []))
unfolding is_unsupported
compress_trace-IsCompleted_example =
    compress_trace-IsCompleted ample started_ctx [] (branch ∷ target ∷ addition ∷ [])
      started_ctx-IsReady refl
      (and_rest branch-IsInstr (and_rest target-IsInstr (and_rest addition-IsInstr none_left)))
      (and_rest refl (and_rest refl (and_rest refl none_left)))

compress_trace-IsTallied_example :
    Returns (IsTallied 0 0) (compress_trace ample started_ctx [] (branch ∷ target ∷ addition ∷ []))
compress_trace-IsTallied_example =
    compress_trace-IsTallied ample started_ctx [] (branch ∷ target ∷ addition ∷ [])
      started_ctx-IsReady
      (and_rest branch-IsInstr (and_rest target-IsInstr (and_rest addition-IsInstr none_left)))

compress_trace-IsArchived_example :
    Returns (IsArchived 64) (compress_trace ample started_ctx [] (branch ∷ target ∷ addition ∷ []))
compress_trace-IsArchived_example =
    compress_trace-IsArchived ample started_ctx (branch ∷ target ∷ addition ∷ []) 64 refl refl
      started_ctx-IsReady
      (and_rest branch-IsInstr (and_rest target-IsInstr (and_rest addition-IsInstr none_left)))
      (omega arith)
