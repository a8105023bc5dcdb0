-- ===== src/Simulator/Passed.antt =====
-- What the testbench gets of a packet.
use trdb.Base.{
  ℕ, ◌+◌, ◌*◌, ◌/◌, ◌-◌, ◌^◌, ◌≤◌, ◌<◌, ◌≡◌, refl, ap, ◌∙◌, ◌⊎◌, inl, inr, Bool, true, false,
  Option, none, some, List, [], ◌∷◌, ◌++◌, length, replicate, Returns, Returns-bind, Returns-both,
  Returns-mono, sym, arith, ltb,
}
use mathlib.Core.Path.{subst}
use trdb.Errors.{value, failed, trdb_bad_instr, trdb_nomem}
use trdb.Trace.{TrInstr, TrPacket, IsInstr}
use trdb.Context.{Ctx, Config}
use trdb.Serialize.{bytes_for}
use trdb.Serialize.Read.{trdb_pulp_read_single_packet}
use trdb.Serialize.Stream.{IsReadAs}
use trdb.Compress.Step.{AddResult, trdb_compress_trace_step, trdb_compress_trace_step_add}
use trdb.Compress.Safety.{IsReady, IsStepped, trdb_compress_trace_step-IsStepped}
use trdb.Compress.Delivered.{received, IsSent, step-IsSent}
use trdb.Compress.Archive.{sendable-IsReadAs}
use trdb.Simulator.{
  Simulator, Sample, tr_instr_of, packed_data_nelems, fill, Fed, pass_packet, feed_added,
  trdb_sv_feed_trace,
}
use trdb.Simulator.Vectors.{latest-append, tr_instr_of-IsInstr, fill-length, fill-lem}

-- A packet that was passed on: the bytes make up a vector of the width, and reading them gives the
-- packet as it is received.
pub record IsShown (before : Simulator) (packet_max_len : ℕ) (p : TrPacket) (r : Fed) : Type 0 where
  pub valid : r.packet_valid ≡ true
  pub appended : r.simulator.packets ≡ before.packets ++ (p ∷ [])
  pub counted : r.simulator.packetcnt ≡ before.packetcnt + 1
  pub width : length r.packet_bytes ≡ 4 * packed_data_nelems packet_max_len
  pub seen :
      (faulty : Bool) (memory : TrPacket) (bytes : ℕ)
      → Returns
          (λ x. (x.status ≡ value 0) × (x.packet ≡ received p))
          (trdb_pulp_read_single_packet r.simulator.ctx
            (record { ahead = r.packet_bytes; faulty = faulty })
            memory
            bytes)

-- No packet, or one that was passed on.
pub record IsPassed (before : Simulator) (packet_max_len : ℕ) (r : Fed) : Type 0 where
  pub ready : IsReady r.simulator.ctx
  pub same_config : r.simulator.ctx.config ≡ before.ctx.config
  pub outcome :
      ((r.packet_valid ≡ false)
        × (r.simulator.packets ≡ before.packets)
        × (r.simulator.packetcnt ≡ before.packetcnt))
      ⊎ ((p : TrPacket) × IsShown before packet_max_len p r)

-- What a call of trdb_compress_trace_step_add leaves: no packet, or one that can be read.
record IsAdded (ctx : Ctx) (ps : List TrPacket) (r : AddResult) : Type 0 where
  ready : IsReady r.ctx
  same_config : r.ctx.config ≡ ctx.config
  outcome :
      ((r.status ≡ value 0) × (r.packet_list ≡ ps))
      ⊎ (((r.status ≡ failed trdb_bad_instr) ⊎ (r.status ≡ failed trdb_nomem))
          × (r.packet_list ≡ ps))
      ⊎ ((r.status ≡ value 1)
          × ((p : TrPacket) × (r.packet_list ≡ ps ++ (p ∷ [])) × IsReadAs r.ctx p (received p)))

step_add-IsAdded :
    (ctx : Ctx)
    → ctx.config.full_address ≡ true
    → ctx.config.compress_full_branch_map ≡ false
    → (ps : List TrPacket) (i : TrInstr) (memory : Option TrPacket) → IsReady ctx
    → IsInstr i
    → Returns (IsAdded ctx ps) (trdb_compress_trace_step_add ctx ps i memory)
unfolding trdb_compress_trace_step_add
step_add-IsAdded ctx full plain ps i none h valid = record {
  ready = h;
  same_config = refl;
  outcome = inr (inl (inr refl, refl));
}
step_add-IsAdded ctx full plain ps i (some memory) h valid =
    Returns-bind (λ r. IsStepped r × IsSent ctx.config r) (IsAdded ctx ps)
      (trdb_compress_trace_step ctx memory i) _
      (Returns-both IsStepped (IsSent ctx.config) _
        (trdb_compress_trace_step-IsStepped ctx memory i h valid)
        (step-IsSent ctx full plain memory i h valid))
      λ r (t, s). record {
        ready = t.ready;
        same_config = s.same_config;
        outcome = elim s.outcome [
          | inl e ↦ inl (e, rw e refl)
          | inr (inl e) ↦ inr (inl (inl e, rw e refl))
          | inr (inr (e, fits, form)) ↦ inr (
              inr (
                e,
                (
                  r.packet,
                  rw e refl,
                  sendable-IsReadAs r.ctx (ap (λ (k : Config). k.full_address) s.same_config ∙ full)
                      (ap (λ (k : Config). k.compress_full_branch_map) s.same_config ∙ plain)
                      r.packet (fits, form),
                ),
              ))
        ];
      }

module _ (before : Simulator) (few : before.packetcnt < 2 ^ 31 - 1) (packet_max_len : ℕ)
    (wide : 128 ≤ packet_max_len) where
  pass_packet-IsShown :
      (ctx : Ctx) (p : TrPacket)
      → IsReadAs ctx p (received p)
      → Returns
          (λ r. IsShown before packet_max_len p r × (r.simulator.ctx ≡ ctx))
          (pass_packet
            (record before { ctx = ctx; packets = before.packets ++ (p ∷ []) })
            packet_max_len)
  unfolding pass_packet
  pass_packet-IsShown ctx p h =
      let total = packed_data_nelems packet_max_len * 4 in
      let filled : fill total 0 (bytes_for h.bitcnt) h.bin
          ≡ h.bin ++ replicate (total - length h.bin) 0 =
        fill-lem h.bin [] total 0 (bytes_for h.bitcnt) (total - length h.bin) refl
          (omega (arith, h.size)) (omega (arith, h.short)) in
      let enough : ltb (packet_max_len / 8) (bytes_for h.bitcnt) ≡ false =
        ground (arith, h.size, h.short) in
      let room : ltb before.packetcnt (2 ^ 31 - 1) ≡ true = ground arith in
      rw (latest-append before.packets p, h.written, room, enough, pass_packet)
        (
          record {
            valid = refl;
            appended = refl;
            counted = refl;
            width = fill-length total 0 (bytes_for h.bitcnt) h.bin ∙ omega arith;
            seen = λ faulty memory bytes.
                rw (filled, (h.read (replicate (total - length h.bin) 0) faulty memory bytes).1)
                  (refl, refl);
          },
          refl,
        )

  fed-IsPassed :
      (r : AddResult)
      → IsAdded before.ctx before.packets r
      → Returns (IsPassed before packet_max_len) (feed_added before r packet_max_len)
  unfolding feed_added
  fed-IsPassed r h = elim h.outcome [
    | inl (e, same) ↦
        rw (e, feed_added)
          (record {
            ready = h.ready;
            same_config = h.same_config;
            outcome = inl (refl, same, refl);
          })
    | inr (inl (inl e, same)) ↦
        rw (e, feed_added)
          (record {
            ready = h.ready;
            same_config = h.same_config;
            outcome = inl (refl, same, refl);
          })
    | inr (inl (inr e, same)) ↦
        rw (e, feed_added)
          (record {
            ready = h.ready;
            same_config = h.same_config;
            outcome = inl (refl, same, refl);
          })
    | inr (inr (e, (p, same, sent))) ↦
        rw (e, same, feed_added)
          (Returns-mono _ (IsPassed before packet_max_len) _ (pass_packet-IsShown r.ctx p sent)
            λ f (shown, kept). record {
              ready = subst IsReady (sym kept) h.ready;
              same_config = ap (λ (c : Ctx). c.config) kept ∙ h.same_config;
              outcome = inr (p, shown);
            })
  ]

  -- With absolute addresses and full maps that are not compressed, on a context that is ready, a
  -- vector of at least 128 bits and fewer than 2 ^ 31 - 1 packets so far: feeding any sample,
  -- with memory for a packet or without, returns, and the context is ready again under the same
  -- configuration; either no packet is valid, and the list of packets and their count stay, or
  -- the packet is valid, stands at the end of the list and is counted, the bytes that the
  -- simulator gets fill its vector, and reading them gives the packet as it is received.
  pub trdb_sv_feed_trace-IsPassed :
      (x : Sample) (memory : Option TrPacket)
      → before.ctx.config.full_address ≡ true
      → before.ctx.config.compress_full_branch_map ≡ false
      → IsReady before.ctx
      → Returns (IsPassed before packet_max_len) (trdb_sv_feed_trace before x packet_max_len memory)
  unfolding trdb_sv_feed_trace
  trdb_sv_feed_trace-IsPassed x memory full plain h =
      Returns-bind (IsAdded before.ctx before.packets) (IsPassed before packet_max_len)
        (trdb_compress_trace_step_add before.ctx before.packets (tr_instr_of x) memory)
        (λ r. feed_added before r packet_max_len)
        (step_add-IsAdded before.ctx full plain before.packets (tr_instr_of x) memory h
          (tr_instr_of-IsInstr x))
        fed-IsPassed
