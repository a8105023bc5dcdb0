-- ===== src/Agreement/Calm.antt =====
-- One call of trdb_compress_trace_step on a predictable trace.
use trdb.Base.{
  ℕ, ◌+◌, ◌^◌, ◌<◌, ◌≡◌, refl, ap, ◌∙◌, Bool, true, false, ◌==◌, List, [], ◌++◌, length, Outcome,
  done, arith, Returns-value, ◌>>=◌,
}
use trdb.Errors.{value}
use trdb.Trace.{TrInstr, TrPacket, IsPacket, zero_packet, trace}
use trdb.Insn.{is_unsupported}
use trdb.BranchLen.{branch_map_len}
use trdb.Context.{Ctx, Config, Compress, Decompress, Stats, BranchMap, add64}
use trdb.Compress.Emit.{emit_full_branch_map}
use trdb.Compress.Step.{
  enter, count_resync, record_branch, map_full, nothing, reason, choose, finish, count_packet,
  count_instr, compress_entered, compress_qualified, trdb_compress_trace_step, StepResult,
}
use trdb.Compress.Safety.{count_packet_total}
use trdb.Decompress.Course.{bits_of}
use trdb.Decompress.Segments.{map_at}
use trdb.Agreement.{Plain, outcome, full_packet, calm, filter_at, running}
use trdb.Agreement.Bits.{bits_of-lt, pending_map, record_branch-outcome}

-- In the middle of a call.
abbrev between : ℕ → Bool → TrInstr → TrInstr → TrInstr → List Bool → ℕ → ℕ → Compress
between v change a i j bs n last = record (running v change a i bs n last) {
  nextc = calm v false j;
}

pub same_eq : (v : ℕ) → (v == v) ≡ true
same_eq v = ground arith

enter-running :
    (config : Config) (v : ℕ) (change : Bool) (a i j : TrInstr) (bs : List Bool) (n last : ℕ)
    → Plain config.implicit_ret v j
    → enter config (running v change a i bs n last) j ≡ between v change a i j bs n last
unfolding enter
enter-running config v change a i j bs n last h =
    rw (h.no_exception, h.predictable, h.same_priv, same_eq v) refl

pub count_resync-filter_at :
    (config : Config) (n : ℕ)
    → n < config.resync_max
    → config.resync_max < 2 ^ 64
    → count_resync config (filter_at n) ≡ filter_at (n + 1)
unfolding count_resync
count_resync-filter_at config n low high = ground arith

module _ (config : Config) (v : ℕ) (change : Bool) (a i j : TrInstr) (bs : List Bool)
    (n last : ℕ) where
  -- The state that the chain of tests sees, with the outcomes bs.
  abbrev tested : Compress
  tested = record (between v change a i j [] n last) { branch_map = pending_map bs }

  reason-open : (length bs == 31) ≡ false → reason config tested ≡ nothing
  unfolding reason
  reason-open e = rw e refl

  reason-full : (length bs == 31) ≡ true → reason config tested ≡ map_full
  unfolding reason
  reason-full e = rw e refl

abbrev pub blank : TrPacket
blank = record zero_packet { msg_type = trace }

-- The chain of tests and the end of the call.
abbrev pub chain_of : Ctx → Compress → Compress → TrInstr → Outcome StepResult
chain_of ctx cmp ready j =
    choose ctx.config ready ctx.stats blank (reason ctx.config ready)
    >>= finish (record ctx { cmp = cmp }) j

module _ (ctx : Ctx) (cmp : Compress) (j : TrInstr) (memory : TrPacket) where
  pub compress_entered-qualified :
      j.valid ≡ true
      → cmp.thisc.qualified ≡ true
      → compress_entered ctx cmp j memory ≡ compress_qualified ctx cmp j memory
  unfolding compress_entered
  compress_entered-qualified valid qualified = ground arith

  pub compress_qualified-chain :
      (m : BranchMap)
      → is_unsupported cmp.thisc.instr.instr ≡ false
      → record_branch cmp.branch_map cmp.thisc.instr cmp.nextc.instr ≡ done m
      → compress_qualified ctx cmp j memory
        ≡ chain_of ctx ctx.cmp
            (record cmp { filter = count_resync ctx.config cmp.filter; branch_map = m })
            j
  unfolding compress_qualified
  compress_qualified-chain m supported recorded = rw (supported, recorded, compress_qualified) refl

-- The context of a state.
abbrev pub ctx_of : Config → Decompress → Stats → Compress → Ctx
ctx_of config dec stats cmp = record { config = config; dec = dec; stats = stats; cmp = cmp }

module _ (config : Config) (dec : Decompress) (stats : Stats) (memory : TrPacket) (v n last : ℕ)
    (low : n < config.resync_max) (high : config.resync_max < 2 ^ 64) (change : Bool)
    (a i j : TrInstr) (supported : is_unsupported i.instr ≡ false) (bs : List Bool)
    (few : length bs < 31) (h : Plain config.implicit_ret v j) where
  abbrev here : Ctx
  here = ctx_of config dec stats (running v change a i bs n last)

  abbrev pending : List Bool
  pending = bs ++ outcome i j

  abbrev chain : Compress
  chain = tested config v change a i j pending (n + 1) last

  step-chain : trdb_compress_trace_step here memory j ≡ chain_of here here.cmp chain j
  unfolding trdb_compress_trace_step
  step-chain =
      let cmp = between v change a i j bs n last in
      ap (λ c. compress_entered here c j memory) (enter-running config v change a i j bs n last h)
      ∙ compress_entered-qualified here cmp j memory h.valid refl
      ∙ compress_qualified-chain here cmp j memory (pending_map pending) supported
          (record_branch-outcome bs few i j)
      ∙ ap (λ f. chain_of here here.cmp (record chain { filter = f }) j)
          (count_resync-filter_at config n low high)

  abbrev open_result : StepResult
  open_result = record {
    status = value 0;
    ctx = ctx_of config dec (count_instr j stats) (running v false i j pending (n + 1) last);
    packet = blank;
  }

  open_chain :
      chain_of here here.cmp (record chain { branch_map = map_at false pending }) j
      ≡ done open_result
  unfolding reason choose finish
  open_chain = refl

  -- Without a full map the call only moves on.
  pub step-open :
      (length pending == 31) ≡ false → trdb_compress_trace_step here memory j ≡ done open_result
  step-open e =
      step-chain
      ∙ ap (λ b. chain_of here here.cmp (record chain { branch_map = map_at b pending }) j) e
      ∙ open_chain

  full_packet-IsPacket : length pending ≡ 31 → IsPacket (full_packet config pending)
  full_packet-IsPacket e = ground (arith, bits_of-lt pending, ap (λ k. 2 ^ k) e)

  abbrev emitted : Stats
  emitted = count_instr j (record stats { bmap_full_packets = add64 stats.bmap_full_packets 1 })

  abbrev full_result : Stats → StepResult
  full_result s = record {
    status = value 1;
    ctx = ctx_of config dec s (running v false i j [] (n + 1) last);
    packet = full_packet config pending;
  }

  full_chain :
      (length pending == 31) ≡ true
      → chain_of here here.cmp (record chain { branch_map = map_at true pending }) j
        ≡ (count_packet here (full_packet config pending) emitted >>= λ s. done (full_result s))
  unfolding reason choose finish emit_full_branch_map branch_map_len bits_of
  full_chain e = rw (e, emit_full_branch_map) refl

  -- With a full map it returns the packet of the map, which starts again.
  pub step-full :
      length pending ≡ 31
      → (stats' : Stats) × (trdb_compress_trace_step here memory j ≡ done (full_result stats'))
  step-full e =
      let full : (length pending == 31) ≡ true = ground arith in
      let (stats', counted, _) =
        Returns-value (λ t. t.sext_bits ≡ emitted.sext_bits)
          (count_packet here (full_packet config pending) emitted)
          (count_packet_total here (full_packet config pending) emitted (full_packet-IsPacket e)) in
      (
        stats',
        step-chain
            ∙ ap (λ b. chain_of here here.cmp (record chain { branch_map = map_at b pending }) j)
                full
            ∙ full_chain full
            ∙ ap (λ m. m >>= λ s. done (full_result s)) counted,
      )
