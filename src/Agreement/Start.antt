-- ===== src/Agreement/Start.antt =====
-- The first two calls of trdb_compress_trace_step.
use trdb.Base.{
  ℕ, ◌^◌, ◌<◌, ◌≡◌, refl, ap, ◌∙◌, Bool, true, false, not, ◌==◌, [], done, arith, Returns-value,
  ◌>>=◌,
}
use trdb.Errors.{value}
use trdb.Trace.{TrInstr, TrPacket, IsPacket, IsInstr}
use trdb.Insn.{is_branch, is_unsupported}
use trdb.Context.{Config, Compress, Decompress, Stats, Ctx, fresh_compress, add64, zero_branch_map}
use trdb.Compress.Emit.{emit_start_packet}
use trdb.Compress.Step.{
  enter, record_branch, reason, choose, finish, count_packet, count_instr, compress_entered,
  trdb_compress_trace_step, StepResult,
}
use trdb.Compress.Safety.{count_packet_total}
use trdb.Decompress.Course.{bits_of}
use trdb.Agreement.{Plain, calm, filter_at, running, entered_first}
use trdb.Agreement.Calm.{
  ctx_of, blank, chain_of, same_eq, count_resync-filter_at, compress_entered-qualified,
  compress_qualified-chain,
}

module _ (config : Config) (dec : Decompress) (stats : Stats) (memory : TrPacket) (v : ℕ)
    (low : 0 < config.resync_max) (high : config.resync_max < 2 ^ 64) where
  abbrev change : Bool
  change = not (7 == v)

  enter-fresh :
      (i : TrInstr)
      → Plain config.implicit_ret v i
      → enter config fresh_compress i ≡ record fresh_compress { nextc = calm v change i }
  unfolding enter
  enter-fresh i h = rw (h.no_exception, h.predictable, h.same_priv) refl

  compress_entered-first :
      (cmp : Compress) (i : TrInstr)
      → i.valid ≡ true
      → cmp.thisc.qualified ≡ false
      → compress_entered (ctx_of config dec stats fresh_compress) cmp i memory
        ≡ done (record {
          status = value 0;
          ctx = ctx_of config dec stats (record cmp { lastc = cmp.thisc; thisc = cmp.nextc });
          packet = memory;
        })
  unfolding compress_entered
  compress_entered-first cmp i valid unqualified = ground arith

  pub step-first :
      (i : TrInstr)
      → Plain config.implicit_ret v i
      → trdb_compress_trace_step (ctx_of config dec stats fresh_compress) memory i
        ≡ done (record {
          status = value 0;
          ctx = ctx_of config dec stats (entered_first v i);
          packet = memory;
        })
  unfolding trdb_compress_trace_step
  step-first i h =
      ap (λ c. compress_entered (ctx_of config dec stats fresh_compress) c i memory)
        (enter-fresh i h)
      ∙ compress_entered-first (record fresh_compress { nextc = calm v change i }) i h.valid refl

  module _ (i j : TrInstr) (fits : IsInstr i) (other : is_branch i.instr ≡ false)
      (supported : is_unsupported i.instr ≡ false) (h : Plain config.implicit_ret v j) where
    abbrev entered_second : Compress
    entered_second = record (entered_first v i) { nextc = calm v false j }

    enter-second : enter config (entered_first v i) j ≡ entered_second
    unfolding enter
    enter-second = rw (h.no_exception, h.predictable, h.same_priv, same_eq v) refl

    abbrev start_ctx : Ctx
    start_ctx = ctx_of config dec stats (entered_first v i)

    abbrev start_packet : TrPacket
    start_packet = emit_start_packet blank i j

    abbrev start_stats : Stats
    start_stats = count_instr j (record stats { start_packets = add64 stats.start_packets 1 })

    abbrev start_result : Stats → StepResult
    start_result s = record {
      status = value 1;
      ctx = ctx_of config dec s (running v change i j [] 1 i.iaddr);
      packet = start_packet;
    }

    record_branch-start : record_branch entered_second.branch_map i j ≡ done zero_branch_map
    unfolding record_branch
    record_branch-start = ground arith

    start_chain :
        chain_of start_ctx start_ctx.cmp (record entered_second { filter = filter_at 1 }) j
        ≡ (count_packet start_ctx start_packet start_stats >>= λ s. done (start_result s))
    unfolding reason choose finish bits_of
    start_chain = refl

    start_packet-IsPacket : IsPacket start_packet
    unfolding emit_start_packet
    start_packet-IsPacket = ground arith

    pub step-second :
        (stats' : Stats) × (trdb_compress_trace_step start_ctx memory j
          ≡ done (start_result stats'))
    unfolding trdb_compress_trace_step
    step-second =
        let (stats', counted, _) =
          Returns-value (λ t. t.sext_bits ≡ start_stats.sext_bits)
            (count_packet start_ctx start_packet start_stats)
            (count_packet_total start_ctx start_packet start_stats start_packet-IsPacket) in
        (
          stats',
          ap (λ c. compress_entered start_ctx c j memory) enter-second
              ∙ compress_entered-qualified start_ctx entered_second j memory h.valid refl
              ∙ compress_qualified-chain start_ctx entered_second j memory zero_branch_map supported
                  record_branch-start
              ∙ ap (λ f. chain_of start_ctx start_ctx.cmp (record entered_second { filter = f }) j)
                  (count_resync-filter_at config 0 low high)
              ∙ start_chain
              ∙ ap (λ m. m >>= λ s. done (start_result s)) counted,
        )
