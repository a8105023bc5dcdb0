-- ===== src/Compress/Delivered.antt =====
-- What is emitted with absolute addresses is read back.
use trdb.Base.{
  ℕ, ◌+◌, ◌*◌, ◌≡◌, refl, ap, ◌∙◌, ◌⊎◌, inl, inr, Bool, true, false, if◌then◌else◌, ◌==◌, List,
  done, Returns, Returns-bind, Returns-both, Returns-mono, ◌>>=◌, Bool-cases, arith,
}
use trdb.Errors.{value, failed, trdb_bad_instr}
use trdb.Trace.{
  TrInstr, TrPacket, IsInstr, IsPacket, zero_packet, trace, branch_full, branch_diff, addr_only,
  sync,
}
use trdb.BranchLen.{map_width, branch_map_len_fits}
use trdb.Context.{Ctx, Config, Compress}
use trdb.Serialize.{announced_bytes, bytes_for}
use trdb.Serialize.Roundtrip.{write_then_read, read_back}
use trdb.Serialize.Sync.{write_then_read-start, write_then_read-exception}
use trdb.Serialize.Address.{write_then_read-address}
use trdb.Serialize.Branches.{write_then_read-branches}
use trdb.Serialize.FullMap.{write_then_read-full_map}
use trdb.Insn.{is_unsupported}
use trdb.Compress.Step.{
  enter, count_resync, record_branch, reason, Chosen, choose, count_packet, StepResult, count_instr,
  finish, compress_entered, compress_qualified, trdb_compress_trace_step,
}
use trdb.Compress.Invariant.{IsMap, record_branch-IsMap}
use trdb.Compress.Safety.{
  IsReady, IsCounted, IsChosen, IsEntered, enter-IsEntered, choose-IsChosen, count_packet_total,
  zero_packet-IsPacket,
}
use trdb.Compress.Form.{HasForm, HasOutcome, choose-HasOutcome}

-- What a packet is once it is read: its length is rounded up to bytes, and the fields that its
-- format does not have, and its trap value, are zero.
unfoldable pub received : TrPacket → TrPacket
received p =
    let blank = record zero_packet {
      length = announced_bytes p * 8 + 4;
      msg_type = trace;
      format = p.format;
    } in
    elim p.format [
      | branch_full ↦ record blank {
        branches = p.branches;
        branch_map = p.branch_map;
        address = if p.branches == 0 then 0 else p.address;
      }
      | branch_diff ↦ record blank {
        branches = p.branches;
        branch_map = p.branch_map;
        address = if p.branches == 0 then 0 else p.address;
      }
      | addr_only ↦ record blank { address = p.address }
      | sync ↦ record blank {
        subformat = p.subformat;
        privilege = p.privilege;
        branch = p.branch;
        address = p.address;
        ecause = p.ecause;
        interrupt = p.interrupt;
      }
    ]

module _ (c : Ctx) (full : c.config.full_address ≡ true)
    (plain : c.config.compress_full_branch_map ≡ false) (rest : List ℕ) (faulty : Bool)
    (memory : TrPacket) (bytes : ℕ) where
  pub write_then_read-HasForm :
      (p : TrPacket)
      → IsPacket p
      → HasForm p
      → write_then_read c p rest faulty memory bytes
        ≡ done (read_back (received p) (announced_bytes p) rest faulty)
  unfolding received announced_bytes
  write_then_read-HasForm p fits h = elim h.form [
    | inl (a, b, l, e, i) ↦
        ground (arith, write_then_read-start c p fits h.kind a rest faulty memory bytes b l)
    | inr (inl (a, b, l)) ↦
        ground (arith, write_then_read-exception c p fits h.kind a rest faulty memory bytes b l)
    | inr (inr (inl (a, l))) ↦
        ground
          (arith, write_then_read-address c p fits h.kind a rest faulty memory bytes (ground arith))
    | inr (inr (inr (inl (a, n, m, l)))) ↦
        let (_, _, narrow, _) =
          branch_map_len_fits p.branches (omega (arith, fits.branches_fits)) in
        ground (
          arith,
          write_then_read-branches c p fits h.kind n m (inl a) (ground arith) rest faulty memory
              bytes (bytes_for (5 + map_width p.branches + 32)) (ground arith) (inl full),
        )
    | inr (inr (inr (inr (a, n, m, l)))) ↦
        ground
          (arith, write_then_read-full_map c p h.kind n m plain (inl a) rest faulty memory bytes l)
  ]

-- What a call returns: a status of 0 or an error, or a packet of one of these forms.
pub record IsSent (config : Config) (r : StepResult) : Type 0 where
  pub same_config : r.ctx.config ≡ config
  pub outcome :
      (r.status ≡ value 0)
      ⊎ (r.status ≡ failed trdb_bad_instr)
      ⊎ ((r.status ≡ value 1) × IsPacket r.packet × HasForm r.packet)

finish-IsSent :
    (ctx : Ctx) (cmp : Compress) (i : TrInstr) (r : Chosen)
    → IsChosen cmp r
    → HasOutcome r
    → Returns (IsSent ctx.config) (finish ctx i r)
unfolding finish
finish-IsSent ctx cmp i r c h = elim h.outcome [
  | inl e ↦ rw (e, finish) (ground arith)
  | inr (e, form) ↦
      let fits : IsPacket r.packet = ground (arith, c.outcome) in
      rw (e, finish)
        (Returns-bind (λ t. t.sext_bits ≡ r.stats.sext_bits) (IsSent ctx.config)
          (count_packet ctx r.packet (count_instr i r.stats)) _
          (count_packet_total ctx r.packet (count_instr i r.stats) fits)
          λ t _. record { same_config = refl; outcome = inr (inr (refl, fits, form)) })
]

-- A call's packet, written and read with bytes behind it.
pub record IsDelivered (rest : List ℕ) (faulty : Bool) (memory : TrPacket) (bytes : ℕ)
    (r : StepResult) : Type 0 where
  pub outcome :
      (r.status ≡ value 0)
      ⊎ (r.status ≡ failed trdb_bad_instr)
      ⊎ ((r.status ≡ value 1)
          × (write_then_read r.ctx r.packet rest faulty memory bytes
              ≡ done (read_back (received r.packet) (announced_bytes r.packet) rest faulty)))

module _ (ctx : Ctx) (full : ctx.config.full_address ≡ true)
    (plain : ctx.config.compress_full_branch_map ≡ false) where
  chosen-IsSent :
      (cmp : Compress) (i : TrInstr)
      → IsCounted cmp ctx.stats
      → Returns (IsSent ctx.config) (
          choose ctx.config cmp ctx.stats
            (record zero_packet { msg_type = trace })
            (reason ctx.config cmp)
          >>= finish ctx i)
  chosen-IsSent cmp i ok =
      Returns-bind (λ r. IsChosen cmp r × HasOutcome r) (IsSent ctx.config) _ (finish ctx i)
        (Returns-both (IsChosen cmp) HasOutcome _
          (choose-IsChosen ctx.config cmp ctx.stats _ ok zero_packet-IsPacket
            (reason ctx.config cmp) refl)
          (choose-HasOutcome ctx.config cmp ctx.stats ok full plain (reason ctx.config cmp) refl))
        λ r (c, h). finish-IsSent ctx cmp i r c h

  qualified-IsSent :
      (cmp : Compress) (i : TrInstr) (p : TrPacket)
      → IsEntered cmp ctx.stats
      → Returns (IsSent ctx.config) (compress_qualified ctx cmp i p)
  unfolding compress_qualified
  qualified-IsSent cmp i p h = elim (Bool-cases (is_unsupported cmp.thisc.instr.instr)) [
    | inl bad ↦ rw (bad, compress_qualified) (ground arith)
    | inr good ↦
        rw (good, compress_qualified)
          (Returns-bind IsMap (IsSent ctx.config)
            (record_branch cmp.branch_map cmp.thisc.instr cmp.nextc.instr) _
            (record_branch-IsMap cmp.branch_map cmp.thisc.instr cmp.nextc.instr h.room)
            λ map m.
              chosen-IsSent
                (record cmp { filter = count_resync ctx.config cmp.filter; branch_map = map }) i
                (ground arith))
  ]

  pub step-IsSent :
      (p : TrPacket) (i : TrInstr)
      → IsReady ctx
      → IsInstr i
      → Returns (IsSent ctx.config) (trdb_compress_trace_step ctx p i)
  unfolding trdb_compress_trace_step compress_entered
  step-IsSent p i h valid =
      let entered = enter-IsEntered ctx i h valid in
      ground (arith, qualified-IsSent (enter ctx.config ctx.cmp i) i p entered)

  -- With absolute addresses and full maps that are not compressed, on a context that is ready and
  -- an instruction whose fields fit, a call of trdb_compress_trace_step returns; its status is 0,
  -- the error for an unsupported instruction, or 1, and then its packet, serialised under the
  -- context that is left and read with any bytes behind it, is read back with every field of its
  -- format (the address of a full map without a count as 0), its trap value 0 and its length
  -- rounded up to bytes, and only its own bytes are consumed.
  pub trdb_compress_trace_step-IsDelivered :
      (p : TrPacket) (i : TrInstr)
      → IsReady ctx
      → IsInstr i
      → (rest : List ℕ) (faulty : Bool) (memory : TrPacket) (bytes : ℕ)
      → Returns (IsDelivered rest faulty memory bytes) (trdb_compress_trace_step ctx p i)
  trdb_compress_trace_step-IsDelivered p i h valid rest faulty memory bytes =
      Returns-mono (IsSent ctx.config) (IsDelivered rest faulty memory bytes) _
        (step-IsSent p i h valid)
        λ r s. record {
          outcome = elim s.outcome [
            | inl e ↦ inl e
            | inr (inl e) ↦ inr (inl e)
            | inr (inr (e, fits, form)) ↦ inr (
                inr (
                  e,
                  write_then_read-HasForm r.ctx
                      (ap (λ (k : Config). k.full_address) s.same_config ∙ full)
                      (ap (λ (k : Config). k.compress_full_branch_map) s.same_config ∙ plain) rest
                      faulty memory bytes r.packet fits form,
                ))
          ];
        }
