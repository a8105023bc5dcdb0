-- ===== src/Compress/Resync.antt =====
-- A resynchronisation that is due.
use trdb.Base.{
  ◌<◌, ◌≡◌, refl, ap, ◌∙◌, not, ◌||◌, ◌⊎◌, inl, inr, Bool, true, false, ◌==◌, Returns, Returns-bind,
  Returns-both, Returns-mono, ◌>>=◌, arith,
}
use trdb.Errors.{value}
use trdb.Trace.{TrInstr, TrPacket, IsInstr, IsPacket, sync, zero_packet, trace}
use trdb.Insn.{is_branch, is_unsupported}
use trdb.Context.{Ctx, Compress, BranchMap}
use trdb.Compress.Step.{
  enter, count_resync, record_branch, reason, Chosen, choose, count_packet, StepResult, count_instr,
  finish, compress_entered, compress_qualified, trdb_compress_trace_step,
}
use trdb.Compress.Invariant.{IsMap, record_branch-IsMap}
use trdb.Compress.Safety.{
  IsReady, IsCounted, IsChosen, IsEntered, IsStepped, enter-IsEntered, choose-IsChosen,
  count_packet_total, zero_packet-IsPacket, trdb_compress_trace_step-IsStepped,
}
use trdb.Compress.Due.{IsDue, count_resync-pend, Serves, choose-Serves}

-- The call emits a synchronisation, and no other is pending.
pub record IsSync (r : StepResult) : Type 0 where
  pub loud : r.status ≡ value 1
  pub format : r.packet.format ≡ sync
  pub served : r.ctx.cmp.filter.resync_pend ≡ false

-- The call emits a packet and leaves an empty map and the resynchronisation for the instruction i.
record IsDeferred (i : TrInstr) (r : StepResult) : Type 0 where
  loud : r.status ≡ value 1
  pend : r.ctx.cmp.filter.resync_pend ≡ true
  empty : r.ctx.cmp.branch_map.cnt ≡ 0
  instr : r.ctx.cmp.thisc.instr ≡ i
  qualified : r.ctx.cmp.thisc.qualified ≡ true

-- Deferred only if branches were pending, or the instruction is a branch.
record IsServed (open_map : Bool) (i : TrInstr) (r : StepResult) : Type 0 where
  outcome : IsSync r ⊎ (IsDeferred i r × (open_map ≡ true))

finish-IsServed :
    (ctx : Ctx) (cmp : Compress) (i : TrInstr) (r : Chosen) (open_map : Bool)
    → IsChosen cmp r
    → Serves cmp r
    → cmp.nextc.instr ≡ i
    → cmp.nextc.qualified ≡ true
    → ((cmp.branch_map.cnt == 0) ≡ false → open_map ≡ true)
    → Returns (IsServed open_map i) (finish ctx i r)
unfolding finish
finish-IsServed ctx cmp i r open_map c h same qualified opened =
    let fits : IsPacket r.packet = ground (arith, c.outcome, h.loud) in
    let next = h.next_kept in
    rw (h.loud, finish)
      (Returns-bind (λ t. t.sext_bits ≡ r.stats.sext_bits) (IsServed open_map i)
        (count_packet ctx r.packet (count_instr i r.stats)) _
        (count_packet_total ctx r.packet (count_instr i r.stats) fits)
        λ t _. elim h.outcome [
          | inl (form, served) ↦ record {
            outcome = inl (record { loud = refl; format = form; served = served });
          }
          | inr (pend, some_left) ↦ record {
            outcome = inr (
              record {
                loud = refl;
                pend = pend;
                empty = refl;
                instr = ap (λ n. n.instr) next ∙ same;
                qualified = ap (λ n. n.qualified) next ∙ qualified;
              },
              opened some_left,
            );
          }
        ])

record_branch-cnt :
    (m : BranchMap) (i j : TrInstr)
    → m.cnt < 31
    → Returns (λ n. is_branch i.instr ≡ false → n.cnt ≡ m.cnt) (record_branch m i j)
unfolding record_branch
record_branch-cnt m i j few = ground arith

-- There are branches behind the instruction of `thisc`, or it is one itself.
abbrev is_open : Compress → Bool
is_open cmp = is_branch cmp.thisc.instr.instr || not (cmp.branch_map.cnt == 0)

module _ (ctx : Ctx) (cmp : Compress) (i : TrInstr) (memory : TrPacket)
    (h : IsEntered cmp ctx.stats) (due : IsDue ctx.config cmp.filter)
    (supported : is_unsupported cmp.thisc.instr.instr ≡ false) (same : cmp.nextc.instr ≡ i)
    (qualified : cmp.nextc.qualified ≡ true) where
  counted-IsServed :
      (m : BranchMap)
      → IsMap m
      → (is_branch cmp.thisc.instr.instr ≡ false → m.cnt ≡ cmp.branch_map.cnt)
      → Returns (IsServed (is_open cmp) i) (
          choose ctx.config
            (record cmp { filter = count_resync ctx.config cmp.filter; branch_map = m })
            ctx.stats
            (record zero_packet { msg_type = trace })
            (reason ctx.config
              (record cmp { filter = count_resync ctx.config cmp.filter; branch_map = m }))
          >>= finish ctx i)
  counted-IsServed m map kept =
      let ready = record cmp { filter = count_resync ctx.config cmp.filter; branch_map = m } in
      let ok : IsCounted ready ctx.stats = ground arith in
      Returns-bind (λ r. IsChosen ready r × Serves ready r) (IsServed (is_open cmp) i) _
        (finish ctx i)
        (Returns-both (IsChosen ready) (Serves ready) _
          (choose-IsChosen ctx.config ready ctx.stats _ ok zero_packet-IsPacket
            (reason ctx.config ready) refl)
          (choose-Serves ctx.config ready ctx.stats _ ok zero_packet-IsPacket
            (count_resync-pend ctx.config cmp.filter due) (reason ctx.config ready) refl))
        λ r (c, s).
          finish-IsServed ctx ready i r (is_open cmp) c s same qualified (ground (arith, kept))

  qualified-IsServed : Returns (IsServed (is_open cmp) i) (compress_qualified ctx cmp i memory)
  unfolding compress_qualified
  qualified-IsServed =
      rw (supported, compress_qualified)
        (Returns-bind
          (λ m. IsMap m × (is_branch cmp.thisc.instr.instr ≡ false → m.cnt ≡ cmp.branch_map.cnt))
          (IsServed (is_open cmp) i) (record_branch cmp.branch_map cmp.thisc.instr cmp.nextc.instr)
          _
          (Returns-both IsMap _ _
            (record_branch-IsMap cmp.branch_map cmp.thisc.instr cmp.nextc.instr h.room)
            (record_branch-cnt cmp.branch_map cmp.thisc.instr cmp.nextc.instr
              (ground (arith, h.room))))
          λ m (map, kept). counted-IsServed m map kept)

step-IsServed :
    (ctx : Ctx) (memory : TrPacket) (i : TrInstr)
    → IsReady ctx
    → IsInstr i
    → i.valid ≡ true
    → ctx.cmp.thisc.qualified ≡ true
    → is_unsupported ctx.cmp.thisc.instr.instr ≡ false
    → IsDue ctx.config ctx.cmp.filter
    → Returns (IsServed (is_open ctx.cmp) i) (trdb_compress_trace_step ctx memory i)
unfolding trdb_compress_trace_step compress_entered enter
step-IsServed ctx memory i h fits valid qualified supported due =
    let cmp = enter ctx.config ctx.cmp i in
    let served =
      qualified-IsServed ctx cmp i memory (enter-IsEntered ctx i h fits) due supported refl refl in
    ground (arith, valid, qualified, served)

-- The call emits a synchronisation, or another packet, and then the next call a synchronisation.
pub record IsResynced (memory : TrPacket) (j : TrInstr) (r : StepResult) : Type 0 where
  pub loud : r.status ≡ value 1
  pub served : IsSync r ⊎ Returns IsSync (trdb_compress_trace_step r.ctx memory j)

-- On a context that is ready and has seen a qualified, supported instruction, when a
-- resynchronisation is pending or its count is at the limit, a call with a valid instruction
-- whose fields fit, which is supported and no branch, returns and emits a packet: a
-- synchronisation, which ends the resynchronisation, or another, and then the next call with a
-- valid instruction whose fields fit returns and emits such a synchronisation.
pub trdb_compress_trace_step-IsResynced :
    (ctx : Ctx) (memory : TrPacket) (i j : TrInstr)
    → IsReady ctx
    → IsInstr i
    → IsInstr j
    → i.valid ≡ true
    → j.valid ≡ true
    → ctx.cmp.thisc.qualified ≡ true
    → is_unsupported ctx.cmp.thisc.instr.instr ≡ false
    → is_unsupported i.instr ≡ false
    → is_branch i.instr ≡ false
    → IsDue ctx.config ctx.cmp.filter
    → Returns (IsResynced memory j) (trdb_compress_trace_step ctx memory i)
trdb_compress_trace_step-IsResynced ctx memory i j h fits fits_j valid valid_j qualified supported
      supported_i other due =
    Returns-mono (λ r. IsStepped r × IsServed (is_open ctx.cmp) i r) (IsResynced memory j) _
      (Returns-both IsStepped (IsServed (is_open ctx.cmp) i) _
        (trdb_compress_trace_step-IsStepped ctx memory i h fits)
        (step-IsServed ctx memory i h fits valid qualified supported due))
      λ r (stepped, s). elim s.outcome [
        | inl now ↦ record { loud = now.loud; served = inl now }
        | inr (d, _) ↦ record {
          loud = d.loud;
          served = inr (
              Returns-mono (IsServed (is_open r.ctx.cmp) j) IsSync _
                (step-IsServed r.ctx memory j stepped.ready fits_j valid_j d.qualified
                  (rw d.instr supported_i) (inl d.pend))
                λ q t. elim t.outcome [
                  | inl then_sync ↦ then_sync
                  | inr (_, opened) ↦
                      absurd (
                        ground (arith, opened, d.empty, ap (λ x. is_branch x.instr) d.instr, other))
                ]);
        }
      ]
