-- ===== src/Agreement/Traces.antt =====
-- The packets of a whole trace that is predictable.
use mathlib.Core.List.{append-nil, append_assoc}
use mathlib.Core.Path.{fun_ext}
use trdb.Base.{
  Every, and_rest, ℕ, ◌+◌, ◌^◌, ◌<◌, ◌≤◌, ◌≡◌, refl, sym, ap, ◌∙◌, inl, inr, Bool, true, false, not,
  ◌==◌, List, [], ◌∷◌, Outcome, ◌++◌, length, length-append, done, arith, Returns, Bool-cases,
}
use trdb.Errors.{value}
use trdb.Trace.{TrInstr, TrPacket, IsInstr, zero_packet}
use trdb.Insn.{is_branch, is_unsupported}
use trdb.Context.{Config, Decompress, Stats, Ctx, fresh_compress}
use trdb.Compress.Emit.{emit_start_packet}
use trdb.Compress.Step.{
  count_instr, trdb_compress_trace_step, trdb_compress_trace_step_add, StepResult, AddResult,
}
use trdb.Compress.Run.{compress_trace, ample}
use trdb.Agreement.{Plain, outcome, start_packet, full_packet, full_maps, running}
use trdb.Agreement.Calm.{ctx_of, blank, step-open, step-full}
use trdb.Agreement.Start.{step-first, step-second}

-- A trace is compressed without an error to these packets.
pub record IsEmitted (packets : List TrPacket) (r : AddResult) : Type 0 where
  pub no_error : r.status ≡ value 0
  pub emitted : r.packet_list ≡ packets

module _ (ctx : Ctx) (ps : List TrPacket) (j : TrInstr) (rest : List TrInstr) (r : StepResult)
    (stepped : trdb_compress_trace_step ctx zero_packet j ≡ done r) where
  pub compress_trace-quiet :
      r.status ≡ value 0
      → compress_trace ample ctx ps (j ∷ rest) ≡ compress_trace ample r.ctx ps rest
  unfolding compress_trace trdb_compress_trace_step_add
  compress_trace-quiet e = rw (stepped, e, trdb_compress_trace_step_add) (rw e refl)

  pub compress_trace-loud :
      r.status ≡ value 1
      → compress_trace ample ctx ps (j ∷ rest)
        ≡ compress_trace ample r.ctx (ps ++ (r.packet ∷ [])) rest
  unfolding compress_trace trdb_compress_trace_step_add
  compress_trace-loud e = rw (stepped, e, trdb_compress_trace_step_add) (rw e refl)

pub outcome-few :
    (bs : List Bool) (i j : TrInstr) → length bs < 31 → length (bs ++ outcome i j) ≤ 31
outcome-few bs i j few = ground (arith, length-append bs (outcome i j), append-nil bs)

pub IsEmitted-along :
    (packets packets' : List TrPacket) (m m' : Outcome AddResult)
    → packets ≡ packets'
    → m ≡ m'
    → Returns (IsEmitted packets') m'
    → Returns (IsEmitted packets) m
IsEmitted-along packets packets' m m' e k h = rw (e, k) h

module _ (config : Config) (bs : List Bool) (i j : TrInstr) (rest : List TrInstr) where
  pub full_maps-full :
      (length (bs ++ outcome i j) == 31) ≡ true
      → full_maps config bs i (j ∷ rest)
        ≡ full_packet config (bs ++ outcome i j) ∷ full_maps config [] j rest
  unfolding full_maps
  full_maps-full e = rw e refl

  pub full_maps-open :
      (length (bs ++ outcome i j) == 31) ≡ false
      → full_maps config bs i (j ∷ rest) ≡ full_maps config (bs ++ outcome i j) j rest
  unfolding full_maps
  full_maps-open e = rw e refl

module _ (config : Config) (dec : Decompress) (v : ℕ) (high : config.resync_max < 2 ^ 64) where
  running-IsEmitted :
      (stats : Stats) (ps : List TrPacket) (change : Bool) (a i : TrInstr) (bs : List Bool)
      (n last : ℕ) (rest : List TrInstr)
      → is_unsupported i.instr ≡ false
      → length bs < 31
      → Every (Plain config.implicit_ret v) rest
      → n + length rest ≤ config.resync_max
      → Returns
          (IsEmitted (ps ++ full_maps config bs i rest))
          (compress_trace ample (ctx_of config dec stats (running v change a i bs n last)) ps rest)
  unfolding full_maps compress_trace
  running-IsEmitted stats ps change a i bs n last [] ok few plain room = record {
    no_error = refl;
    emitted = sym (append-nil ps);
  }
  running-IsEmitted stats ps change a i bs n last (j ∷ rest) ok few (and_rest h plain) room =
      elim (Bool-cases (length (bs ++ outcome i j) == 31)) [
        | inl full ↦
            let (stats', stepped) =
              step-full config dec stats zero_packet v n last (omega arith) high change a i j ok bs
                few h (ground arith) in
            IsEmitted-along _ _ _ _
              (ap (λ qs. ps ++ qs) (full_maps-full config bs i j rest full)
                ∙ sym (
                    append_assoc ps (full_packet config (bs ++ outcome i j) ∷ [])
                      (full_maps config [] j rest)))
              (compress_trace-loud _ ps j rest _ stepped refl)
              (running-IsEmitted stats' (ps ++ (full_packet config (bs ++ outcome i j) ∷ [])) false
                i j [] (n + 1) last rest h.supported (omega arith) plain (omega arith))
        | inr open_map ↦
            IsEmitted-along _ _ _ _
              (ap (λ qs. ps ++ qs) (full_maps-open config bs i j rest open_map))
              (compress_trace-quiet _ ps j rest _
                (step-open config dec stats zero_packet v n last (omega arith) high change a i j ok
                  bs few h open_map)
                refl)
              (running-IsEmitted (count_instr j stats) ps false i j (bs ++ outcome i j) (n + 1) last
                rest h.supported (ground (arith, outcome-few bs i j few)) plain (omega arith))
      ]

  -- The packets as the encoder emits them.
  pub compress_trace-start :
      (stats : Stats) (i j : TrInstr) (rest : List TrInstr)
      → IsInstr i
      → is_branch i.instr ≡ false
      → Every (Plain config.implicit_ret v) (i ∷ j ∷ rest)
      → length rest < config.resync_max
      → Returns
          (IsEmitted (emit_start_packet blank i j ∷ full_maps config [] j rest))
          (compress_trace ample (ctx_of config dec stats fresh_compress) [] (i ∷ j ∷ rest))
  compress_trace-start stats i j rest fits other (and_rest h (and_rest k plain)) room =
      let (stats', stepped) =
        step-second config dec stats zero_packet v (omega arith) high i j fits other h.supported
          k in
      IsEmitted-along _ _ _ _ refl
        (compress_trace-quiet _ [] i (j ∷ rest) _
            (step-first config dec stats zero_packet v (omega arith) high i h) refl
          ∙ compress_trace-loud _ [] j rest _ stepped refl)
        (running-IsEmitted stats' (emit_start_packet blank i j ∷ []) (not (7 == v)) i j [] 1 i.iaddr
          rest k.supported (omega arith) plain (omega arith))

  start_packet-emit :
      (i j : TrInstr) → is_branch i.instr ≡ false → emit_start_packet blank i j ≡ start_packet i
  unfolding emit_start_packet
  start_packet-emit i j other = rw other refl

  -- From a fresh state of the compression, with memory for each packet, a trace of at least two
  -- instructions at one privilege that are valid, supported, without traps and without jumps that
  -- have to be reported, shorter than the interval of resynchronisation, the first no branch and
  -- with fields that fit, is compressed with EXIT_SUCCESS to these packets: a start at the
  -- address and the privilege of the first instruction, and, from the second on, a full map for
  -- each 31 branches, with a bit for each branch that is set when the next instruction stands
  -- behind it, 2 or 4 bytes further; a last instruction, and branches fewer than 31 at the end,
  -- give no packet.
  pub compress_trace-IsEmitted :
      (memory : ℕ → Bool) (stats : Stats) (i j : TrInstr) (rest : List TrInstr)
      → ((n : ℕ) → memory n ≡ true)
      → IsInstr i
      → is_branch i.instr ≡ false
      → Every (Plain config.implicit_ret v) (i ∷ j ∷ rest)
      → length rest < config.resync_max
      → Returns
          (IsEmitted (start_packet i ∷ full_maps config [] j rest))
          (compress_trace memory (ctx_of config dec stats fresh_compress) [] (i ∷ j ∷ rest))
  compress_trace-IsEmitted memory stats i j rest enough fits other plain room =
      IsEmitted-along _ _ _ _
        (ap (λ p. p ∷ full_maps config [] j rest) (sym (start_packet-emit i j other)))
        (ap (λ m. compress_trace m (ctx_of config dec stats fresh_compress) [] (i ∷ j ∷ rest))
          (fun_ext enough))
        (compress_trace-start stats i j rest fits other plain room)
