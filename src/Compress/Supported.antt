-- ===== src/Compress/Supported.antt =====
-- compress_trace of src/trdb.c on instructions that are supported.
use trdb.Base.{
  ℕ, zero, suc, length, ◌&&◌, if◌then◌else◌, Bool-cases, Every, and_rest, ◌≡◌, refl, ap, ◌∙◌, sym,
  ◌⊎◌, inl, inr, Bool, true, false, List, [], ◌∷◌, some, Returns, Returns-bind, Returns-both,
  Returns-mono, arith,
}
use trdb.Errors.{value}
use trdb.Trace.{TrInstr, TrPacket, IsInstr, zero_packet, trace}
use trdb.Insn.{is_unsupported}
use trdb.Context.{Ctx, Compress}
use trdb.Compress.Step.{
  enter, count_resync, record_branch, reason, Chosen, count_packet, StepResult, count_instr, finish,
  compress_entered, compress_qualified, trdb_compress_trace_step, AddResult,
  trdb_compress_trace_step_add,
}
use trdb.Compress.Invariant.{IsMap, record_branch-IsMap}
use trdb.Compress.Safety.{
  IsReady, IsCounted, IsChosen, choose-IsChosen, IsEntered, enter-IsEntered, count_packet_total,
  zero_packet-IsPacket, IsStepped, trdb_compress_trace_step-IsStepped,
}
use trdb.Compress.Run.{exit_success, exit_failure, compress_trace}

-- An instruction that the code does not refuse.
abbrev pub IsSupported : TrInstr → Type 0
IsSupported i = is_unsupported i.instr ≡ false

-- No error, and the next call finds a supported instruction.
record Passes (r : StepResult) : Type 0 where
  no_error : (r.status ≡ value 0) ⊎ (r.status ≡ value 1)
  supported : IsSupported r.ctx.cmp.thisc.instr

finish-Passes :
    (ctx : Ctx) (cmp : Compress) (i : TrInstr) (r : Chosen)
    → IsChosen cmp r
    → IsSupported cmp.nextc.instr
    → Returns Passes (finish ctx i r)
unfolding finish
finish-Passes ctx cmp i r c good =
    let kept = ap (λ n. is_unsupported n.instr.instr) c.next_kept ∙ good in
    elim c.outcome [
      | inl (e, _, _) ↦ rw (e, finish) (record { no_error = inl refl; supported = kept })
      | inr (e, fits) ↦
          rw (e, finish)
            (Returns-bind (λ t. t.sext_bits ≡ r.stats.sext_bits) Passes
              (count_packet ctx r.packet (count_instr i r.stats)) _
              (count_packet_total ctx r.packet (count_instr i r.stats) fits)
              λ t _. record { no_error = inr refl; supported = kept })
    ]

compress_qualified-Passes :
    (ctx : Ctx) (cmp : Compress) (i : TrInstr) (p : TrPacket)
    → IsEntered cmp ctx.stats
    → IsSupported cmp.thisc.instr
    → IsSupported cmp.nextc.instr
    → Returns Passes (compress_qualified ctx cmp i p)
unfolding compress_qualified
compress_qualified-Passes ctx cmp i p h good next_good =
    rw (good, compress_qualified)
      (Returns-bind IsMap Passes (record_branch cmp.branch_map cmp.thisc.instr cmp.nextc.instr) _
        (record_branch-IsMap cmp.branch_map cmp.thisc.instr cmp.nextc.instr h.room)
        λ map m.
          let ready = record cmp {
            filter = count_resync ctx.config cmp.filter;
            branch_map = map;
          } in
          let ok : IsCounted ready ctx.stats = ground arith in
          Returns-bind (IsChosen ready) Passes _ (finish ctx i)
            (choose-IsChosen ctx.config ready ctx.stats (record zero_packet { msg_type = trace }) ok
              zero_packet-IsPacket (reason ctx.config ready) refl)
            λ r c. finish-Passes ctx ready i r c next_good)

step-Passes :
    (ctx : Ctx) (p : TrPacket) (i : TrInstr)
    → IsReady ctx
    → IsInstr i
    → IsSupported ctx.cmp.thisc.instr
    → IsSupported i
    → Returns Passes (trdb_compress_trace_step ctx p i)
unfolding trdb_compress_trace_step compress_entered enter
step-Passes ctx p i h valid good good_i =
    let cmp = enter ctx.config ctx.cmp i in
    let passed =
      compress_qualified-Passes ctx cmp i p (enter-IsEntered ctx i h valid) good good_i in
    ground (arith, passed, good, good_i)

record Continues (r : AddResult) : Type 0 where
  no_error : (r.status ≡ value 0) ⊎ (r.status ≡ value 1)
  supported : IsSupported r.ctx.cmp.thisc.instr
  ready : IsReady r.ctx

step_add-Continues :
    (ctx : Ctx) (ps : List TrPacket) (i : TrInstr)
    → IsReady ctx
    → IsInstr i
    → IsSupported ctx.cmp.thisc.instr
    → IsSupported i
    → Returns Continues (trdb_compress_trace_step_add ctx ps i (some zero_packet))
unfolding trdb_compress_trace_step_add
step_add-Continues ctx ps i h valid good good_i =
    Returns-bind (λ r. IsStepped r × Passes r) Continues
      (trdb_compress_trace_step ctx zero_packet i) _
      (Returns-both IsStepped Passes _
        (trdb_compress_trace_step-IsStepped ctx zero_packet i h valid)
        (step-Passes ctx zero_packet i h valid good good_i))
      λ r (s, p). record { no_error = p.no_error; supported = p.supported; ready = s.ready }

-- Whether the first n allocations succeed.
abbrev pub succeed : (ℕ → Bool) → ℕ → Bool
succeed memory zero = true
succeed memory (suc n) = memory 0 && succeed (λ k. memory (suc k)) n

-- Compressed to the end, or stopped for want of memory.
abbrev pub IsCompleted : (ℕ → Bool) → ℕ → AddResult → Type 0
IsCompleted memory n r = r.status ≡ (if succeed memory n then exit_success else exit_failure)

module _ (memory : ℕ → Bool) (n : ℕ) where
  succeed-true :
      memory 0 ≡ true
      → (if succeed memory (suc n) then exit_success else exit_failure)
        ≡ (if succeed (λ k. memory (suc k)) n then exit_success else exit_failure)
  succeed-true e = rw e refl

  succeed-false :
      memory 0 ≡ false
      → (if succeed memory (suc n) then exit_success else exit_failure) ≡ exit_failure
  succeed-false e = rw e refl

-- From a context that is ready, whose instruction before is supported, the compression of a trace
-- of any length, whose instructions are supported and have fields that fit, returns with
-- EXIT_SUCCESS when the allocation of a packet for each instruction succeeds, and with
-- EXIT_FAILURE when one of them fails.
pub compress_trace-IsCompleted :
    (memory : ℕ → Bool) (ctx : Ctx) (ps : List TrPacket) (instrs : List TrInstr)
    → IsReady ctx
    → IsSupported ctx.cmp.thisc.instr
    → Every IsInstr instrs
    → Every IsSupported instrs
    → Returns (IsCompleted memory (length instrs)) (compress_trace memory ctx ps instrs)
unfolding compress_trace trdb_compress_trace_step_add
compress_trace-IsCompleted memory ctx ps [] h good valid all_good = refl
compress_trace-IsCompleted memory ctx ps (i ∷ rest) h good (and_rest v valid)
      (and_rest g all_good) =
    elim (Bool-cases (memory 0)) [
      | inl e ↦
          rw (e, compress_trace)
            (Returns-bind Continues (IsCompleted memory (suc (length rest)))
              (trdb_compress_trace_step_add ctx ps i (some zero_packet)) _
              (step_add-Continues ctx ps i h v good g)
              λ r t.
                let further =
                  Returns-mono (IsCompleted (λ k. memory (suc k)) (length rest))
                    (IsCompleted memory (suc (length rest))) _
                    (compress_trace-IsCompleted (λ k. memory (suc k)) r.ctx r.packet_list rest
                      t.ready t.supported valid all_good)
                    λ q u. u ∙ sym (succeed-true memory (length rest) e) in
                elim t.no_error [ inl q ↦ rw q further | inr q ↦ rw q further ])
      | inr e ↦ rw (e, compress_trace) (sym (succeed-false memory (length rest) e))
    ]
