-- ===== src/Compress/Step.antt =====
-- trdb_compress_trace_step of src/trace_debugger.c: one call, on the context, `*packet` and the
-- next instruction. Pointers are not null, and what is only logged is left out.
use trdb.Base.{
  ℕ, ◌+◌, ◌*◌, ◌%◌, ◌^◌, Bool, true, false, not, ◌&&◌, ◌||◌, if◌then◌else◌, ltb, ◌==◌, bit_or, List,
  [], ◌∷◌, ◌++◌, Option, none, some, Outcome, done, ◌>>=◌, ◌>>◌, defined_if,
}
use trdb.Errors.{Status, value, failed, trdb_bad_instr, trdb_nomem, trdb_unimplemented}
use trdb.Trace.{TrInstr, TrPacket, zero_packet, trace}
use trdb.Insn.{is_branch, is_unpred_discontinuity, is_unsupported}
use trdb.Context.{Ctx, Config, Compress, Stats, BranchMap, Filter, zero_branch_map, add64}
use trdb.Serialize.{trdb_pulp_serialize_packet, Serialized, serialized, rejected, bytes_for}
use trdb.Compress.{branch_taken}
use trdb.Compress.Emit.{
  emit_exception_packet, emit_start_packet, emit_branch_map_flush_packet, emit_full_branch_map,
}

-- The new instruction in `nextc`, and the flags that are cleared at the start of a call.
unfoldable pub enter : Config → Compress → TrInstr → Compress
enter config cmp instr = record cmp {
  thisc = record thisc { halt = false; emitted_exception_sync = false };
  nextc = record nextc {
    instr = instr;
    qualified = true;
    unqualified = false;
    exception = instr.exception;
    unpred_disc = is_unpred_discontinuity instr.instr config.implicit_ret;
    privilege = instr.priv;
    privilege_change = not (thisc.privilege == instr.priv);
    emitted_exception_sync = false;
  };
}
  where
    open cmp use {thisc, nextc}

-- `*lastc = *thisc; *thisc = *nextc;`
abbrev pub shift : Compress → Compress
shift cmp = record cmp { lastc = cmp.thisc; thisc = cmp.nextc }

-- `filter->resync_cnt++ == config->resync_max` and what follows.
unfoldable pub count_resync : Config → Filter → Filter
count_resync config f =
    if f.resync_cnt == config.resync_max
    then record f { resync_pend = true; resync_cnt = 0 }
    else record f { resync_cnt = add64 f.resync_cnt 1 }

-- The branch map after the instruction of `thisc`. A bit is set for a branch that is not taken.
unfoldable pub record_branch : BranchMap → TrInstr → TrInstr → Outcome BranchMap
record_branch map tc nc =
    let cnt = (map.cnt + 1) % 2 ^ 32 in
    let full = if cnt == 31 then true else map.full in
    if is_branch tc.instr
    then (if not (branch_taken tc.compressed tc.iaddr nc.iaddr)
        then (do
          defined_if (ltb map.cnt 32)
          done (record { full = full; bits = bit_or map.bits (2 ^ map.cnt); cnt = cnt }))
        else done (record { full = full; bits = map.bits; cnt = cnt }))
    else done map

-- Which branch of the chain of tests is taken.
pub data Reason : Type 0 where
  trapped vector_table started jumped resynced flushed map_full context_changed nothing : Reason

unfoldable pub reason : Config → Compress → Reason
reason config cmp =
    let firstc_qualified = not lastc.qualified && thisc.qualified in
    if lastc.exception
    then trapped
    else if lastc.emitted_exception_sync && config.pulp_vector_table_packet
    then vector_table
    else if firstc_qualified
        || thisc.unhalted
        || thisc.privilege_change
        || (filter.resync_pend && branch_map.cnt == 0)
    then started
    else if lastc.unpred_disc
    then jumped
    else if filter.resync_pend && ltb 0 branch_map.cnt
    then resynced
    else if nextc.halt || nextc.exception || nextc.privilege_change || nextc.unqualified
    then flushed
    else if branch_map.full
    then map_full
    else if thisc.context_change
    then context_changed
    else nothing
  where
    open cmp use {lastc, thisc, nextc, branch_map, filter}

-- What the chain leaves: the status so far, the packet, the state and the statistics.
pub record Chosen : Type 0 where
  pub status : Status
  pub packet : TrPacket
  pub cmp : Compress
  pub stats : Stats

-- `*last_iaddr = tc_instr->iaddr`, and no resynchronisation is pending.
abbrev pub synced : Compress → Compress
synced cmp = record cmp {
  last_iaddr = cmp.thisc.instr.iaddr;
  filter = record cmp.filter { resync_pend = false };
}

-- A flush: the calls of emit_branch_map_flush_packet.
unfoldable pub flush : Config → Compress → Stats → TrPacket → Bool → Outcome Chosen
unfolding emit_branch_map_flush_packet
flush config cmp s packet is_u_discontinuity = do
  r ←
      emit_branch_map_flush_packet config packet cmp.branch_map s cmp.thisc.instr cmp.last_iaddr
        config.full_address is_u_discontinuity
  done (record {
    status = value 1;
    packet = r.packet;
    cmp = record cmp { branch_map = r.branch_map; last_iaddr = cmp.thisc.instr.iaddr };
    stats = r.stats;
  })

-- A start packet.
abbrev pub start_over : Compress → Stats → TrPacket → Chosen
start_over cmp s packet = record {
  status = value 1;
  packet = emit_start_packet packet cmp.thisc.instr cmp.nextc.instr;
  cmp = synced cmp;
  stats = record s { start_packets = add64 s.start_packets 1 };
}

unfoldable pub choose : Config → Compress → Stats → TrPacket → Reason → Outcome Chosen
unfolding flush emit_start_packet emit_exception_packet emit_full_branch_map
choose config cmp s packet trapped = done (record {
  status = value 1;
  packet = emit_exception_packet packet cmp.lastc.instr cmp.thisc.instr cmp.nextc.instr;
  cmp = record (synced cmp) { thisc = record cmp.thisc { emitted_exception_sync = true } };
  stats = record s { exception_packets = add64 s.exception_packets 1 };
})
choose config cmp s packet vector_table = done (start_over cmp s packet)
choose config cmp s packet started = done (start_over cmp s packet)
choose config cmp s packet jumped = flush config cmp s packet true
choose config cmp s packet resynced = flush config cmp s packet false
choose config cmp s packet flushed = flush config cmp s packet false
choose config cmp s packet map_full = do
  r ← emit_full_branch_map config packet cmp.branch_map s
  done (record {
    status = value 1;
    packet = r.packet;
    cmp = record cmp { branch_map = r.branch_map };
    stats = r.stats;
  })
choose config cmp s packet context_changed =
    done (record { status = failed trdb_unimplemented; packet = packet; cmp = cmp; stats = s })
choose config cmp s packet nothing =
    done (record { status = value 0; packet = packet; cmp = cmp; stats = s })

-- The bits of a packet as the trace debugger of PULP writes it; 0 if it cannot be written.
abbrev pub pulp_bits : Serialized → ℕ
pulp_bits (serialized bitcnt bytes) = bytes_for bitcnt * 8
pulp_bits (rejected e) = 0

-- The statistics of an instruction that is compressed, and those of a packet.
abbrev pub count_instr : TrInstr → Stats → Stats
count_instr instr s = record s {
  instrbits = add64 s.instrbits (if instr.compressed then 16 else 32);
  instrs = add64 s.instrs 1;
}

unfoldable pub count_packet : Ctx → TrPacket → Stats → Outcome Stats
count_packet ctx packet s =
    let counted = record s {
      payloadbits = add64 s.payloadbits packet.length;
      packets = add64 s.packets 1;
    } in
    if ctx.config.full_statistics
    then (do
      written ← trdb_pulp_serialize_packet ctx packet 0
      done (record s {
        payloadbits = add64 s.payloadbits packet.length;
        packets = add64 s.packets 1;
        pulpbits = add64 s.pulpbits (pulp_bits written);
      }))
    else done counted

-- What a call returns, and leaves in the context and in `*packet`.
pub record StepResult : Type 0 where
  pub status : Status
  pub ctx : Ctx
  pub packet : TrPacket

-- The end of a call, once the chain is done.
unfoldable pub finish : Ctx → TrInstr → Chosen → Outcome StepResult
unfolding count_packet
finish ctx instr r =
    let moved = shift r.cmp in
    elim r.status [
      | failed e ↦ done (record {
        status = failed e;
        ctx = record ctx { cmp = r.cmp; stats = r.stats };
        packet = r.packet;
      })
      | value ℕ.zero ↦ done (record {
        status = value 0;
        ctx = record ctx { cmp = moved; stats = count_instr instr r.stats };
        packet = r.packet;
      })
      | value (ℕ.suc n) ↦ do
        s ← count_packet ctx r.packet (count_instr instr r.stats)
        done (record {
          status = value 1;
          ctx = record ctx { cmp = record moved { branch_map = zero_branch_map }; stats = s };
          packet = r.packet;
        })
    ]

-- A call with valid data while `thisc` is qualified.
unfoldable pub compress_qualified : Ctx → Compress → TrInstr → TrPacket → Outcome StepResult
unfolding finish choose reason record_branch count_resync
compress_qualified ctx cmp instr packet =
    if is_unsupported cmp.thisc.instr.instr
    then done
        (record { status = failed trdb_bad_instr; ctx = record ctx { cmp = cmp }; packet = packet })
    else do
      map ← record_branch cmp.branch_map cmp.thisc.instr cmp.nextc.instr
      let ready = record cmp { filter = count_resync ctx.config cmp.filter; branch_map = map }
      let fresh = record zero_packet { msg_type = trace }
      r ← choose ctx.config ready ctx.stats fresh (reason ctx.config ready)
      finish ctx instr r

-- A call once the new instruction is entered: the state freezes on invalid data, and moves on
-- without a packet before the first qualified cycle.
unfoldable pub compress_entered : Ctx → Compress → TrInstr → TrPacket → Outcome StepResult
unfolding compress_qualified
compress_entered ctx cmp instr packet =
    if not instr.valid
    then done (record { status = value 0; ctx = record ctx { cmp = cmp }; packet = packet })
    else if not cmp.thisc.qualified
    then done (record { status = value 0; ctx = record ctx { cmp = shift cmp }; packet = packet })
    else compress_qualified ctx cmp instr packet

unfoldable pub trdb_compress_trace_step : Ctx → TrPacket → TrInstr → Outcome StepResult
unfolding enter compress_entered
trdb_compress_trace_step ctx packet instr =
    compress_entered ctx (enter ctx.config ctx.cmp instr) instr packet

-- trdb_compress_trace_step_add: a packet that was generated goes to the end of the list. `*packet`
-- is what malloc returned, `none` for a null pointer; nothing of it is kept otherwise.
pub record AddResult : Type 0 where
  pub status : Status
  pub ctx : Ctx
  pub packet_list : List TrPacket

unfoldable pub trdb_compress_trace_step_add :
    Ctx → List TrPacket → TrInstr → Option TrPacket → Outcome AddResult
unfolding trdb_compress_trace_step
trdb_compress_trace_step_add ctx packet_list instr none =
    done (record { status = failed trdb_nomem; ctx = ctx; packet_list = packet_list })
trdb_compress_trace_step_add ctx packet_list instr (some memory) = do
  r ← trdb_compress_trace_step ctx memory instr
  done (record {
    status = r.status;
    ctx = r.ctx;
    packet_list = elim r.status [
      | failed e ↦ packet_list
      | value n ↦ if n == 1 then packet_list ++ (r.packet ∷ []) else packet_list
    ];
  })
