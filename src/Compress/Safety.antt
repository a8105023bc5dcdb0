-- ===== src/Compress/Safety.antt =====
-- A call of trdb_compress_trace_step on a context that is ready returns: no assertion fails and
-- nothing undefined is done.
use native.Mathlib.Nat.{pow-zero}
use trdb.Base.{
  ap, ◌>>=◌, ℕ, ◌^◌, ◌<◌, ◌≡◌, refl, ◌⊎◌, inl, inr, Bool, true, false, List, length, Returns,
  Returns-bind, arith, Bool-cases, ◌≢◌,
}
use trdb.Errors.{value, failed, trdb_bad_instr}
use trdb.Trace.{TrInstr, TrPacket, IsInstr, IsPacket, zero_packet, trace}
use trdb.BranchLen.{branch_map_len_fits}
use trdb.Context.{Ctx, Config, Compress, Stats, BranchMap}
use trdb.Insn.{is_unsupported}
use trdb.Serialize.{trdb_pulp_serialize_packet, pack_branches, announced_bytes, kept_bits}
use trdb.Compress.Emit.{
  emit_branch_map_flush_packet, emit_full_branch_map, emit_exception_packet, emit_start_packet,
}
use trdb.Compress.Step.{
  enter, count_resync, record_branch, Reason, trapped, vector_table, started, jumped, resynced,
  flushed, map_full, context_changed, nothing, reason, Chosen, flush, choose, count_packet,
  StepResult, count_instr, finish, compress_entered, compress_qualified, trdb_compress_trace_step,
}
use trdb.Compress.Invariant.{
  IsMap, HasRoom, record_branch-IsMap, IsSettled, emit_branch_map_flush_packet-IsSettled,
  emit_full_branch_map-IsSettled,
}

-- The context between calls.
pub record IsReady (ctx : Ctx) : Type 0 where
  pub room : HasRoom ctx.cmp.branch_map
  pub sext_length : length ctx.stats.sext_bits ≡ 64
  pub last_valid : IsInstr ctx.cmp.lastc.instr
  pub this_valid : IsInstr ctx.cmp.thisc.instr
  pub this_context : ctx.cmp.thisc.context_change ≡ false
  pub next_context : ctx.cmp.nextc.context_change ≡ false
  pub last_fits : ctx.cmp.last_iaddr < 2 ^ 32

-- The state in the middle of a call, once the branch map is updated.
pub record IsCounted (cmp : Compress) (s : Stats) : Type 0 where
  pub map : IsMap cmp.branch_map
  pub sext_length : length s.sext_bits ≡ 64
  pub last_valid : IsInstr cmp.lastc.instr
  pub this_valid : IsInstr cmp.thisc.instr
  pub next_valid : IsInstr cmp.nextc.instr
  pub this_context : cmp.thisc.context_change ≡ false
  pub next_context : cmp.nextc.context_change ≡ false
  pub last_fits : cmp.last_iaddr < 2 ^ 32

-- What the chain of tests leaves of it.
pub record IsChosen (cmp : Compress) (r : Chosen) : Type 0 where
  pub outcome :
      ((r.status ≡ value 0) × (r.cmp.branch_map ≡ cmp.branch_map) × (cmp.branch_map.full ≡ false))
      ⊎ ((r.status ≡ value 1) × IsPacket r.packet)
  pub sext_length : length r.stats.sext_bits ≡ 64
  pub this_kept : r.cmp.thisc.instr ≡ cmp.thisc.instr
  pub next_kept : r.cmp.nextc ≡ cmp.nextc
  pub last_fits : r.cmp.last_iaddr < 2 ^ 32

pub reason_full :
    (config : Config) (cmp : Compress) → reason config cmp ≡ map_full → cmp.branch_map.full ≡ true
unfolding reason
reason_full config cmp e = ground arith

reason_nothing :
    (config : Config) (cmp : Compress) → reason config cmp ≡ nothing → cmp.branch_map.full ≡ false
unfolding reason
reason_nothing config cmp e = ground arith

pub reason-ne-context_changed :
    (config : Config) (cmp : Compress)
    → cmp.thisc.context_change ≡ false
    → reason config cmp ≢ context_changed
unfolding reason
reason-ne-context_changed config cmp h e = ground arith

module _ (config : Config) (cmp : Compress) (s : Stats) (p : TrPacket) (ok : IsCounted cmp s)
    (blank : IsPacket p) where
  flush-IsChosen : (is_u : Bool) → Returns (IsChosen cmp) (flush config cmp s p is_u)
  unfolding flush
  flush-IsChosen is_u =
      Returns-bind IsSettled (IsChosen cmp)
        (emit_branch_map_flush_packet config p cmp.branch_map s cmp.thisc.instr cmp.last_iaddr
          config.full_address is_u)
        _
        (emit_branch_map_flush_packet-IsSettled p cmp.branch_map s cmp.thisc.instr blank ok.map
          ok.sext_length ok.this_valid config cmp.last_iaddr config.full_address is_u)
        λ r h. ground arith

  pub choose-IsChosen :
      (why : Reason) → reason config cmp ≡ why → Returns (IsChosen cmp) (choose config cmp s p why)
  unfolding choose
  choose-IsChosen trapped e = unfold emit_exception_packet in ground arith
  choose-IsChosen vector_table e = unfold emit_start_packet in ground arith
  choose-IsChosen started e = unfold emit_start_packet in ground arith
  choose-IsChosen jumped e = flush-IsChosen true
  choose-IsChosen resynced e = flush-IsChosen false
  choose-IsChosen flushed e = flush-IsChosen false
  choose-IsChosen map_full e =
      Returns-bind IsSettled (IsChosen cmp) (emit_full_branch_map config p cmp.branch_map s) _
        (emit_full_branch_map-IsSettled p cmp.branch_map s cmp.thisc.instr blank ok.map
          ok.sext_length ok.this_valid config (ground (arith, reason_full config cmp e)))
        λ r h. ground arith
  choose-IsChosen context_changed e =
      absurd (reason-ne-context_changed config cmp ok.this_context e)
  choose-IsChosen nothing e = ground (arith, reason_nothing config cmp e)

pack_branches_total :
    (c : Ctx) (p : TrPacket) (byte_len address_bits : ℕ)
    → IsPacket p
    → Returns (λ _. Unit {0}) (pack_branches c p byte_len address_bits)
unfolding pack_branches
pack_branches_total c p byte_len address_bits h =
    rw ((branch_map_len_fits p.branches (omega arith)).0, pack_branches) tt

-- Serializing a packet whose fields fit always returns.
pub serialize_total :
    (c : Ctx) (p : TrPacket) (align : ℕ)
    → IsPacket p
    → Returns (λ _. Unit {0}) (trdb_pulp_serialize_packet c p align)
unfolding trdb_pulp_serialize_packet
serialize_total c p align h = ground (
  arith,
  pack_branches_total c p (announced_bytes p) 32 h,
  pack_branches_total c p (announced_bytes p) (kept_bits p.address) h,
)

pub count_packet_total :
    (ctx : Ctx) (p : TrPacket) (s : Stats)
    → IsPacket p
    → Returns (λ t. t.sext_bits ≡ s.sext_bits) (count_packet ctx p s)
unfolding count_packet
count_packet_total ctx p s h = ground (arith, serialize_total ctx p 0 h)

-- What a call returns: a status of 0, 1 or -trdb_bad_instr, a context that is ready again, and for
-- a status of 1 a packet whose fields fit.
pub record IsStepped (r : StepResult) : Type 0 where
  pub outcome : (r.status ≡ value 0) ⊎ (r.status ≡ value 1) ⊎ (r.status ≡ failed trdb_bad_instr)
  pub ready : IsReady r.ctx
  pub packet_fits : r.status ≡ value 1 → IsPacket r.packet

-- The chain found nothing to report, or a packet.
quiet-IsStepped :
    (ctx : Ctx) (cmp : Compress) (s : Stats) (i : TrInstr) (r : Chosen)
    → IsCounted cmp s
    → IsChosen cmp r
    → r.status ≡ value 0
    → r.cmp.branch_map ≡ cmp.branch_map
    → cmp.branch_map.full ≡ false
    → Returns IsStepped (finish ctx i r)
unfolding finish
quiet-IsStepped ctx cmp s i r ok c e same open_map =
    rw (e, finish)
      (ground (
        arith,
        ap (λ (m : BranchMap). m.cnt) same,
        ap (λ (m : BranchMap). m.bits) same,
        ap (λ (m : BranchMap). m.full) same,
      ))

loud-IsStepped :
    (ctx : Ctx) (cmp : Compress) (s : Stats) (i : TrInstr) (r : Chosen)
    → IsCounted cmp s
    → IsChosen cmp r
    → r.status ≡ value 1
    → IsPacket r.packet
    → Returns IsStepped (finish ctx i r)
unfolding finish
loud-IsStepped ctx cmp s i r ok c e fits =
    rw (e, finish)
      (Returns-bind (λ t. t.sext_bits ≡ r.stats.sext_bits) IsStepped
        (count_packet ctx r.packet (count_instr i r.stats)) _
        (count_packet_total ctx r.packet (count_instr i r.stats) fits)
        λ t h. ground (arith, ap (λ (x : List ℕ). length x) h, pow-zero 2))

finish-IsStepped :
    (ctx : Ctx) (cmp : Compress) (s : Stats) (i : TrInstr) (r : Chosen)
    → IsCounted cmp s
    → IsChosen cmp r
    → Returns IsStepped (finish ctx i r)
finish-IsStepped ctx cmp s i r ok c = elim c.outcome [
  | inl (e, same, open_map) ↦ quiet-IsStepped ctx cmp s i r ok c e same open_map
  | inr (e, fits) ↦ loud-IsStepped ctx cmp s i r ok c e fits
]

pub zero_packet-IsPacket : IsPacket (record zero_packet { msg_type = trace })
zero_packet-IsPacket = omega arith

-- The state after `enter`, which reads the new instruction.
pub record IsEntered (cmp : Compress) (s : Stats) : Type 0 where
  pub room : HasRoom cmp.branch_map
  pub sext_length : length s.sext_bits ≡ 64
  pub last_valid : IsInstr cmp.lastc.instr
  pub this_valid : IsInstr cmp.thisc.instr
  pub next_valid : IsInstr cmp.nextc.instr
  pub this_context : cmp.thisc.context_change ≡ false
  pub next_context : cmp.nextc.context_change ≡ false
  pub last_fits : cmp.last_iaddr < 2 ^ 32

pub enter-IsEntered :
    (ctx : Ctx) (i : TrInstr)
    → IsReady ctx
    → IsInstr i
    → IsEntered (enter ctx.config ctx.cmp i) ctx.stats
unfolding enter
enter-IsEntered ctx i h valid = ground arith

chosen-IsStepped :
    (ctx : Ctx) (cmp : Compress) (i : TrInstr)
    → IsCounted cmp ctx.stats
    → Returns IsStepped (
        choose ctx.config cmp ctx.stats
          (record zero_packet { msg_type = trace })
          (reason ctx.config cmp)
        >>= finish ctx i)
chosen-IsStepped ctx cmp i ok =
    Returns-bind (IsChosen cmp) IsStepped _ (finish ctx i)
      (choose-IsChosen ctx.config cmp ctx.stats _ ok zero_packet-IsPacket (reason ctx.config cmp)
        refl)
      λ r c. finish-IsStepped ctx cmp ctx.stats i r ok c

compress_qualified-IsStepped :
    (ctx : Ctx) (cmp : Compress) (i : TrInstr) (p : TrPacket)
    → IsEntered cmp ctx.stats
    → Returns IsStepped (compress_qualified ctx cmp i p)
unfolding compress_qualified
compress_qualified-IsStepped ctx cmp i p h =
    elim (Bool-cases (is_unsupported cmp.thisc.instr.instr)) [
      | inl bad ↦ rw (bad, compress_qualified) (ground arith)
      | inr good ↦
          rw (good, compress_qualified)
            (Returns-bind IsMap IsStepped
              (record_branch cmp.branch_map cmp.thisc.instr cmp.nextc.instr) _
              (record_branch-IsMap cmp.branch_map cmp.thisc.instr cmp.nextc.instr h.room)
              λ map m.
                chosen-IsStepped ctx
                  (record cmp { filter = count_resync ctx.config cmp.filter; branch_map = map }) i
                  (ground arith))
    ]

compress_entered-IsStepped :
    (ctx : Ctx) (cmp : Compress) (i : TrInstr) (p : TrPacket)
    → IsEntered cmp ctx.stats
    → Returns IsStepped (compress_entered ctx cmp i p)
unfolding compress_entered
compress_entered-IsStepped ctx cmp i p h =
    ground (arith, compress_qualified-IsStepped ctx cmp i p h)

-- On a context that is ready and an instruction whose fields fit their types, a call of
-- trdb_compress_trace_step returns: no assertion fails and nothing undefined is done. Its status
-- is 0, 1 or the error for an unsupported instruction, the context that it leaves is ready again,
-- and a packet that it emits has fields that fit.
pub trdb_compress_trace_step-IsStepped :
    (ctx : Ctx) (p : TrPacket) (i : TrInstr)
    → IsReady ctx
    → IsInstr i
    → Returns IsStepped (trdb_compress_trace_step ctx p i)
unfolding trdb_compress_trace_step
trdb_compress_trace_step-IsStepped ctx p i h valid =
    compress_entered-IsStepped ctx (enter ctx.config ctx.cmp i) i p (enter-IsEntered ctx i h valid)
