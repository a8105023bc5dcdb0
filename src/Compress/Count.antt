-- ===== src/Compress/Count.antt =====
-- The count of packets after a call and after a trace.
use trdb.Base.{
  Every, and_rest, ℕ, suc, Option, none, some, ◌+◌, ◌%◌, ◌^◌, ◌≡◌, refl, ◌⊎◌, inl, inr, Bool, true,
  false, List, [], ◌∷◌, length, length-append, Returns, Returns-bind, Returns-both, Returns-mono,
  ◌>>=◌, Bool-cases, arith,
}
use trdb.Errors.{value, failed, trdb_bad_instr}
use trdb.Trace.{TrInstr, TrPacket, IsInstr, IsPacket, zero_packet, trace}
use trdb.Insn.{is_unsupported}
use trdb.Context.{Ctx, Config, Compress, Stats, add64}
use trdb.Compress.Emit.{emit_branch_map_flush_packet, emit_full_branch_map}
use trdb.Compress.Step.{
  enter, count_resync, record_branch, Reason, trapped, vector_table, started, jumped, resynced,
  flushed, map_full, context_changed, nothing, reason, Chosen, flush, choose, count_packet,
  StepResult, count_instr, finish, compress_entered, compress_qualified, trdb_compress_trace_step,
}
use trdb.Compress.Invariant.{IsMap, record_branch-IsMap}
use trdb.Compress.Safety.{
  IsReady, IsCounted, IsChosen, IsEntered, enter-IsEntered, choose-IsChosen, serialize_total,
  zero_packet-IsPacket, reason_full,
}
use trdb.Compress.Counters.{Keeps, emit_branch_map_flush_packet-Keeps, emit_full_branch_map-Keeps}
use trdb.Compress.Step.{AddResult, trdb_compress_trace_step_add}
use trdb.Compress.Safety.{IsStepped, trdb_compress_trace_step-IsStepped}
use trdb.Compress.Run.{compress_trace, allocated, AddStatus, step-AddStatus}

record Left (s : Stats) (r : Chosen) : Type 0 where
  packets : r.stats.packets ≡ s.packets

module _ (config : Config) (cmp : Compress) (s : Stats) (p : TrPacket) (ok : IsCounted cmp s) where
  flush-Left : (is_u : Bool) → Returns (Left s) (flush config cmp s p is_u)
  unfolding flush
  flush-Left is_u =
      Returns-bind (Keeps s) (Left s)
        (emit_branch_map_flush_packet config p cmp.branch_map s cmp.thisc.instr cmp.last_iaddr
          config.full_address is_u)
        _
        (emit_branch_map_flush_packet-Keeps p cmp.branch_map s cmp.thisc.instr ok.map ok.sext_length
          config cmp.last_iaddr config.full_address is_u)
        λ r h. record { packets = h.packets }

  choose-Left :
      (why : Reason) → reason config cmp ≡ why → Returns (Left s) (choose config cmp s p why)
  unfolding choose
  choose-Left trapped e = record { packets = refl }
  choose-Left vector_table e = record { packets = refl }
  choose-Left started e = record { packets = refl }
  choose-Left jumped e = flush-Left true
  choose-Left resynced e = flush-Left false
  choose-Left flushed e = flush-Left false
  choose-Left map_full e =
      Returns-bind (Keeps s) (Left s) (emit_full_branch_map config p cmp.branch_map s) _
        (emit_full_branch_map-Keeps p cmp.branch_map s cmp.thisc.instr ok.map ok.sext_length config
          (ground (arith, reason_full config cmp e, ok.map)))
        λ r h. record { packets = h.packets }
  choose-Left context_changed e = record { packets = refl }
  choose-Left nothing e = record { packets = refl }

count_packet-packets :
    (ctx : Ctx) (p : TrPacket) (s : Stats)
    → IsPacket p
    → Returns (λ t. t.packets ≡ add64 s.packets 1) (count_packet ctx p s)
unfolding count_packet
count_packet-packets ctx p s h = ground (arith, serialize_total ctx p 0 h)

-- The count of packets n before a call, and what it is afterwards.
pub record HasCount (n : ℕ) (r : StepResult) : Type 0 where
  pub count :
      ((r.status ≡ value 0) × (r.ctx.stats.packets ≡ n))
      ⊎ ((r.status ≡ failed trdb_bad_instr) × (r.ctx.stats.packets ≡ n))
      ⊎ ((r.status ≡ value 1) × (r.ctx.stats.packets ≡ add64 n 1))

finish-HasCount :
    (ctx : Ctx) (cmp : Compress) (s : Stats) (i : TrInstr) (r : Chosen)
    → IsChosen cmp r
    → Left s r
    → Returns (HasCount s.packets) (finish ctx i r)
unfolding finish
finish-HasCount ctx cmp s i r c h = elim c.outcome [
  | inl (e, same, open_map) ↦ rw (e, finish) (ground (arith, h.packets))
  | inr (e, fits) ↦
      rw (e, finish)
        (Returns-bind (λ t. t.packets ≡ add64 r.stats.packets 1) (HasCount s.packets)
          (count_packet ctx r.packet (count_instr i r.stats)) _
          (count_packet-packets ctx r.packet (count_instr i r.stats) fits)
          λ t k. ground (arith, h.packets))
]

module _ (ctx : Ctx) where
  chosen-HasCount :
      (cmp : Compress) (i : TrInstr)
      → IsCounted cmp ctx.stats
      → Returns (HasCount ctx.stats.packets) (
          choose ctx.config cmp ctx.stats
            (record zero_packet { msg_type = trace })
            (reason ctx.config cmp)
          >>= finish ctx i)
  chosen-HasCount cmp i ok =
      Returns-bind (λ r. IsChosen cmp r × Left ctx.stats r) (HasCount ctx.stats.packets) _
        (finish ctx i)
        (Returns-both (IsChosen cmp) (Left ctx.stats) _
          (choose-IsChosen ctx.config cmp ctx.stats _ ok zero_packet-IsPacket
            (reason ctx.config cmp) refl)
          (choose-Left ctx.config cmp ctx.stats _ ok (reason ctx.config cmp) refl))
        λ r (c, h). finish-HasCount ctx cmp ctx.stats i r c h

  qualified-HasCount :
      (cmp : Compress) (i : TrInstr) (p : TrPacket)
      → IsEntered cmp ctx.stats
      → Returns (HasCount ctx.stats.packets) (compress_qualified ctx cmp i p)
  unfolding compress_qualified
  qualified-HasCount cmp i p h = elim (Bool-cases (is_unsupported cmp.thisc.instr.instr)) [
    | inl bad ↦ rw (bad, compress_qualified) (ground arith)
    | inr good ↦
        rw (good, compress_qualified)
          (Returns-bind IsMap (HasCount ctx.stats.packets)
            (record_branch cmp.branch_map cmp.thisc.instr cmp.nextc.instr) _
            (record_branch-IsMap cmp.branch_map cmp.thisc.instr cmp.nextc.instr h.room)
            λ map m.
              chosen-HasCount
                (record cmp { filter = count_resync ctx.config cmp.filter; branch_map = map }) i
                (ground arith))
  ]

  step-HasCount :
      (p : TrPacket) (i : TrInstr)
      → IsReady ctx
      → IsInstr i
      → Returns (HasCount ctx.stats.packets) (trdb_compress_trace_step ctx p i)
  unfolding trdb_compress_trace_step compress_entered
  step-HasCount p i h valid =
      let entered = enter-IsEntered ctx i h valid in
      ground (arith, qualified-HasCount (enter ctx.config ctx.cmp i) i p entered)

-- As many packets are counted as are added to a list of n, modulo 2 ^ 64, with the count k before.
pub record IsTallied (k n : ℕ) (r : AddResult) : Type 0 where
  pub tally : (r.ctx.stats.packets + n) % 2 ^ 64 ≡ (k + length r.packet_list) % 2 ^ 64

record IsAdded (k n : ℕ) (r : AddResult) : Type 0 where
  outcome : AddStatus r.status
  ready : IsReady r.ctx
  tallied : IsTallied k n r

step_add-IsAdded :
    (ctx : Ctx) (ps : List TrPacket) (i : TrInstr) (memory : Option TrPacket)
    → IsReady ctx
    → IsInstr i
    → Returns (IsAdded ctx.stats.packets (length ps)) (trdb_compress_trace_step_add ctx ps i memory)
unfolding trdb_compress_trace_step_add
step_add-IsAdded ctx ps i none h valid = record {
  outcome = inr (inr (inr refl));
  ready = h;
  tallied = record { tally = refl };
}
step_add-IsAdded ctx ps i (some memory) h valid =
    Returns-bind (λ r. IsStepped r × HasCount ctx.stats.packets r)
      (IsAdded ctx.stats.packets (length ps)) (trdb_compress_trace_step ctx memory i) _
      (Returns-both IsStepped (HasCount ctx.stats.packets) _
        (trdb_compress_trace_step-IsStepped ctx memory i h valid)
        (step-HasCount ctx memory i h valid))
      λ r (s, c). record {
        outcome = step-AddStatus r.status s.outcome;
        ready = s.ready;
        tallied = record {
          tally = elim c.count [
            | inl (e, k) ↦ rw (e, k) refl
            | inr (inl (e, k)) ↦ rw (e, k) refl
            | inr (inr (e, k)) ↦ rw e (ground (arith, length-append ps (r.packet ∷ [])))
          ];
        };
      }

IsTallied-trans :
    (k n : ℕ) (r : AddResult)
    → IsTallied k n r
    → (q : AddResult) → IsTallied r.ctx.stats.packets (length r.packet_list) q
    → IsTallied k n q
IsTallied-trans k n r t q h = record { tally = omega (arith, h.tally, t.tally) }

-- From a context that is ready, the compression of a trace of instructions whose fields fit
-- counts as many packets in the statistics as it adds to the packet list, modulo 2 ^ 64, also
-- when it stops at an unsupported instruction or for want of memory.
pub compress_trace-IsTallied :
    (memory : ℕ → Bool) (ctx : Ctx) (ps : List TrPacket) (instrs : List TrInstr)
    → IsReady ctx
    → Every IsInstr instrs
    → Returns (IsTallied ctx.stats.packets (length ps)) (compress_trace memory ctx ps instrs)
unfolding compress_trace
compress_trace-IsTallied memory ctx ps [] h valid = record { tally = refl }
compress_trace-IsTallied memory ctx ps (i ∷ rest) h (and_rest v valid) =
    Returns-bind (IsAdded ctx.stats.packets (length ps)) (IsTallied ctx.stats.packets (length ps))
      (trdb_compress_trace_step_add ctx ps i (allocated (memory 0))) _
      (step_add-IsAdded ctx ps i (allocated (memory 0)) h v)
      λ r t.
        let further =
          Returns-mono (IsTallied r.ctx.stats.packets (length r.packet_list))
            (IsTallied ctx.stats.packets (length ps))
            (compress_trace (λ k. memory (suc k)) r.ctx r.packet_list rest)
            (compress_trace-IsTallied (λ k. memory (suc k)) r.ctx r.packet_list rest t.ready valid)
            (IsTallied-trans ctx.stats.packets (length ps) r t.tallied) in
        elim t.outcome [
          | inl e ↦ rw e further
          | inr (inl e) ↦ rw e further
          | inr (inr (inl e)) ↦ rw e (record { tally = t.tallied.tally })
          | inr (inr (inr e)) ↦ rw e (record { tally = t.tallied.tally })
        ]
